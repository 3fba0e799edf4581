-- ===== src/Snapshot/Restore.antt =====
-- The scan of a backup and the checks of a restore in packages/recovery/src/index.ts.
pub mod Checked
use Prim.Native.String.{String, ◌++◌}
use partner_integration_reli.Prelude.{
  ℕ, suc, zero, not, Bool, true, false, ◌&&◌, ◌||◌, ltb, ◌==◌, is_some, Option, none, some, List,
  [], ◌∷◌, ◌++◌ as append, length, if◌then◌else◌, Result, ok, err,
}
use partner_integration_reli.Text.{includes_text, str_eq, has_prefix, codes}
use partner_integration_reli.Json.{Json, object, Fields, property}
use partner_integration_reli.Delivery.Evidence.{is_null}
use partner_integration_reli.Snapshot.{Refusal, refusal}

-- What the runtime and the files give: the text of a value and of an index.
pub record Printer : Type 0 where
  pub text_of : Json → String
  pub show : ℕ → String

-- An attribute of an item; the text of one that is missing is given.
abbrev pub attribute : Json → String → Option Json
attribute (object fs) name = property fs name
attribute _ name = none

abbrev text_or : Printer → String → Option Json → String
text_or pr missing none = missing
text_or pr missing (some j) = pr.text_of j

abbrev is_string : String → Option Json → Bool
is_string text (some (Json.string s)) = str_eq s text
is_string text _ = false

unfoldable pub is_local_secret : Printer → Json → Bool
is_local_secret pr item =
    includes_text ("LOCAL_SECRET" ∷ "LOCAL_SECRET_HEAD" ∷ [])
      (text_or pr "undefined" (attribute item "entityType"))

unfoldable pub belongs_to_tenant : Printer → Json → String → Bool
belongs_to_tenant pr item tenant =
    is_string tenant (attribute item "tenantId")
    || has_prefix (codes (text_or pr "" (attribute item "PK")))
        (codes ("TENANT#" ++ (tenant ++ "#")))

pub data RestoreFault : Type 0 where
  not_allowed wrong_environment wrong_table same_table checksum_mismatch count_mismatch :
      RestoreFault
  bad_line local_secret other_tenant not_empty : RestoreFault
  unsafe : Refusal → RestoreFault

-- `scanTenant`: the items that the snapshot takes of what the pages of the scan hold.
unfoldable pub scan_items : Printer → String → List Fields → Result RestoreFault (List Json)
scan_items pr tenant [] = ok []
scan_items pr tenant (fields ∷ items) =
    let item = object fields in
    let later = scan_items pr tenant items in
    if not (belongs_to_tenant pr item tenant)
    then later
    else if is_local_secret pr item
    then later
    else elim (refusal pr.show "$" item) [
      | some r ↦ err (unsafe r)
      | none ↦ elim later [ err fault ↦ err fault | ok taken ↦ ok (item ∷ taken) ]
    ]

-- A file of a snapshot: the checksum of its bytes, and its lines, parsed where they can be.
pub record SnapshotFile : Type 0 where
  pub checksum : String
  pub lines : List (Option Json)

pub record BackupFile : Type 0 where
  pub record_count : ℕ
  pub sha256 : String

-- One parsed line: `null` has no attribute to read.
abbrev pub check_line : Printer → Json → Option RestoreFault
check_line pr item =
    if is_null item
    then some bad_line
    else if is_local_secret pr item
    then some local_secret
    else elim (refusal pr.show "$" item) [ some r ↦ some (unsafe r) | none ↦ none ]

unfoldable pub read_lines : Printer → List (Option Json) → Result RestoreFault (List Json)
read_lines pr [] = ok []
read_lines pr (none ∷ lines) = err bad_line
read_lines pr (some item ∷ lines) = elim (check_line pr item) [
  | some fault ↦ err fault
  | none ↦ elim (read_lines pr lines) [ err fault ↦ err fault | ok items ↦ ok (item ∷ items) ]
]

unfoldable pub read_snapshot_file :
    Printer → SnapshotFile → BackupFile → Result RestoreFault (List Json)
unfolding read_lines
read_snapshot_file pr file expected =
    if not (str_eq file.checksum expected.sha256)
    then err checksum_mismatch
    else if not (length file.lines == expected.record_count)
    then err count_mismatch
    else read_lines pr file.lines

-- A restore: its options, what `parseManifest` returns, the files, and how many items the first
-- scan of each table finds.
pub record RestoreInput : Type 0 where
  pub allow_restore : Bool
  pub target_environment : String
  pub core_table_name : String
  pub audit_table_name : String

pub record Manifest : Type 0 where
  pub tenant_id : String
  pub core : BackupFile
  pub audit : BackupFile

pub record Found : Type 0 where
  pub core : ℕ
  pub audit : ℕ

unfoldable pub all_belong : Printer → String → List Json → Bool
all_belong pr tenant [] = true
all_belong pr tenant (item ∷ items) = belongs_to_tenant pr item tenant && all_belong pr tenant items

abbrev pub is_restore_table : String → Bool
is_restore_table table = has_prefix (codes table) (codes "pirh-restore-")

-- The two tables in which the restore will write, with the items.
pub record RestoreItems : Type 0 where
  pub core : List Json
  pub audit : List Json

abbrev pub check_items :
    Printer → String → Found → List Json → List Json → Result RestoreFault RestoreItems
check_items pr tenant found core audit =
    if not (all_belong pr tenant core && all_belong pr tenant audit)
    then err other_tenant
    else if ltb 0 found.core || ltb 0 found.audit
    then err not_empty
    else ok (record { core = core; audit = audit })

-- `restoreBackup` before its writes.
unfoldable pub check_restore :
    Printer
    → RestoreInput
    → Manifest
    → SnapshotFile
    → SnapshotFile
    → Found
    → Result RestoreFault RestoreItems
unfolding read_snapshot_file
check_restore pr i manifest core_file audit_file found =
    if not i.allow_restore
    then err not_allowed
    else if not (str_eq i.target_environment "restore-test")
    then err wrong_environment
    else if not (is_restore_table i.core_table_name && is_restore_table i.audit_table_name)
    then err wrong_table
    else if str_eq i.core_table_name i.audit_table_name
    then err same_table
    else elim (read_snapshot_file pr core_file manifest.core) [
      | err fault ↦ err fault
      | ok core ↦ elim (read_snapshot_file pr audit_file manifest.audit) [
        | err fault ↦ err fault
        | ok audit ↦ check_items pr manifest.tenant_id found core audit
      ]
    ]
