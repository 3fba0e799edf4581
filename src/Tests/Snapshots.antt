-- ===== src/Tests/Snapshots.antt =====
-- A snapshot of a table with one item of the tenant, one of another, and a local secret.
use Prim.Native.String.{String}
use partner_integration_reli.Prelude.{◌≡◌, refl, true, some, [], ◌∷◌, ok}
use partner_integration_reli.Json.{Fields, Json, string, object, field, empty, null, property}
use partner_integration_reli.Snapshot.{refusal, is_credential, is_reference, credential_field}
use partner_integration_reli.Snapshot.Restore.{
  Printer, is_local_secret, belongs_to_tenant, scan_items, all_belong, SnapshotFile, BackupFile,
  RestoreInput, Manifest, Found, RestoreItems, check_restore,
}
use partner_integration_reli.Snapshot.Restore.Checked.{IsRestorable, check_restore-IsRestorable}

abbrev text_of : Json → String
text_of (string s) = s
text_of _ = "other"

abbrev printer : Printer
printer = record { text_of = text_of; show = λ n. "0" }

abbrev partner_fields : Fields
partner_fields = (field "tenantId" (string "t1") (field "name" (string "acme") empty))

abbrev partner : Json
partner = object partner_fields

abbrev foreign : Fields
foreign = (field "tenantId" (string "t2") empty)

abbrev secret : Fields
secret = (field "tenantId" (string "t1") (field "entityType" (string "LOCAL_SECRET") empty))

scanned : scan_items printer "t1" (foreign ∷ secret ∷ partner_fields ∷ []) ≡ ok (partner ∷ [])
unfolding scan_items belongs_to_tenant is_local_secret property refusal is_credential is_reference
scanned = refl

abbrev nested : Json
nested = object (field "config" partner empty)

refused :
    refusal (λ n. "0") "$" (object (field "apiKey" null empty)) ≡ some (credential_field "$.apiKey")
unfolding refusal is_credential is_reference
refused = refl

abbrev file : SnapshotFile
file = record { checksum = "abc"; lines = some partner ∷ [] }

abbrev expected : BackupFile
expected = record { record_count = 1; sha256 = "abc" }

abbrev options : RestoreInput
options = record {
  allow_restore = true;
  target_environment = "restore-test";
  core_table_name = "pirh-restore-core";
  audit_table_name = "pirh-restore-audit";
}

abbrev manifest : Manifest
manifest = record { tenant_id = "t1"; core = expected; audit = expected }

abbrev no_items : Found
no_items = record { core = 0; audit = 0 }

abbrev restored : RestoreItems
restored = record { core = partner ∷ []; audit = partner ∷ [] }

check_restore-IsRestorable_example : IsRestorable printer options manifest no_items restored
unfolding all_belong check_restore belongs_to_tenant is_local_secret property refusal is_credential
    is_reference
check_restore-IsRestorable_example =
    check_restore-IsRestorable printer options manifest file file no_items restored refl
