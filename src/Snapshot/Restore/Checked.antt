-- ===== src/Snapshot/Restore/Checked.antt =====
-- What a backup of packages/recovery/src/index.ts takes and a restore writes.
use Prim.Native.String.{String}
use partner_integration_reli.Prelude.{
  suc, ◌≡◌, refl, sym, subst, ◌∙◌, ==_iff, inl, inr, Bool, true, false, not, ◌&&◌, ◌||◌, ltb, ◌==◌,
  Option, none, some, Option-cases, List, [], ◌∷◌, length, if◌then◌else◌, ap, Result, ok, err,
  Result-cases, Bool-cases, All, arith,
}
use partner_integration_reli.Text.{str_eq}
use partner_integration_reli.Json.{Json, object, Fields}
use partner_integration_reli.Delivery.Evidence.{is_null}
use partner_integration_reli.Snapshot.{refusal}
use partner_integration_reli.Snapshot.Restore.{
  Printer, is_local_secret, belongs_to_tenant, RestoreFault, scan_items, SnapshotFile, BackupFile,
  check_line, read_lines, read_snapshot_file, RestoreInput, Manifest, Found, all_belong,
  is_restore_table, RestoreItems, check_restore,
}

-- An item that a snapshot may hold.
pub record IsSound (pr : Printer) (item : Json) : Type 0 where
  pub there : is_null item ≡ false
  pub open_item : is_local_secret pr item ≡ false
  pub safe : refusal pr.show "$" item ≡ none

check_line-IsSound : (pr : Printer) (item : Json) → check_line pr item ≡ none → IsSound pr item
check_line-IsSound pr item h = elim (Bool-cases (is_null item)) [
  | inl gone ↦ let g = rw gone at h in cc
  | inr there ↦ elim (Bool-cases (is_local_secret pr item)) [
    | inl secret ↦ let g = rw secret at (rw there at h) in cc
    | inr plain ↦ elim (Option-cases (refusal pr.show "$" item)) [
      | inl safe ↦ record { there = there; open_item = plain; safe = safe }
      | inr (r, e) ↦ let g = rw e at (rw plain at (rw there at h)) in cc
    ]
  ]
]

read_lines-IsSound :
    (pr : Printer) (lines : List (Option Json)) (items : List Json)
    → read_lines pr lines ≡ ok items
    → All (IsSound pr) items × (length items ≡ length lines)
unfolding read_lines
read_lines-IsSound pr [] items h = let same : items ≡ [] = cc in rw same (tt, refl)
read_lines-IsSound pr (none ∷ lines) items h = cc
read_lines-IsSound pr (some item ∷ lines) items h = elim (Option-cases (check_line pr item)) [
  | inr (fault, e) ↦ let g = rw (e, read_lines) at h in cc
  | inl passes ↦ elim (Result-cases (read_lines pr lines)) [
    | inl (fault, e) ↦ let g = rw e at (rw (passes, read_lines) at h) in cc
    | inr (later, e) ↦
        let g = rw e at (rw (passes, read_lines) at h) in
        let same : items ≡ item ∷ later = cc in
        let inner = read_lines-IsSound pr lines later e in
        rw same ((check_line-IsSound pr item passes, inner.0), ap suc inner.1)
  ]
]

-- What a backup takes of a table is sound, and of the tenant.
scan_items-IsSound :
    (pr : Printer) (tenant : String) (table : List Fields) (items : List Json)
    → scan_items pr tenant table ≡ ok items
    → All (IsSound pr) items × (all_belong pr tenant items ≡ true)
unfolding scan_items all_belong
scan_items-IsSound pr tenant [] items h = let same : items ≡ [] = cc in rw same (tt, refl)
scan_items-IsSound pr tenant (fields ∷ table) items h =
    let item = object fields in
    elim (Bool-cases (belongs_to_tenant pr item tenant)) [
      | inr foreign ↦ scan_items-IsSound pr tenant table items (rw (foreign, scan_items) at h)
      | inl own ↦ elim (Bool-cases (is_local_secret pr item)) [
        | inl secret ↦
            scan_items-IsSound pr tenant table items (rw secret at (rw (own, scan_items) at h))
        | inr plain ↦ elim (Option-cases (refusal pr.show "$" item)) [
          | inr (r, e) ↦ let g = rw e at (rw plain at (rw (own, scan_items) at h)) in cc
          | inl safe ↦ elim (Result-cases (scan_items pr tenant table)) [
            | inl (fault, e) ↦
                let g = rw e at (rw safe at (rw plain at (rw (own, scan_items) at h))) in cc
            | inr (taken, e) ↦
                let g = rw e at (rw safe at (rw plain at (rw (own, scan_items) at h))) in
                let same : items ≡ item ∷ taken = cc in
                let inner = scan_items-IsSound pr tenant table taken e in
                let sound : IsSound pr item = record {
                  there = refl;
                  open_item = plain;
                  safe = safe;
                } in
                rw same ((sound, inner.0), rw (own, all_belong) inner.1)
          ]
        ]
      ]
    ]

not_guard :
    {A : Type 0} (b : Bool) (fault : RestoreFault) (x : Result RestoreFault A) {a : A}
    → (if not b then err fault else x) ≡ ok a
    → (b ≡ true) × (x ≡ ok a)
not_guard true fault x h = (refl, h)
not_guard false fault x h = cc

guard :
    {A : Type 0} (b : Bool) (fault : RestoreFault) (x : Result RestoreFault A) {a : A}
    → (if b then err fault else x) ≡ ok a
    → (b ≡ false) × (x ≡ ok a)
guard false fault x h = (refl, h)
guard true fault x h = cc

both_true : (a b : Bool) → a && b ≡ true → (a ≡ true) × (b ≡ true)
both_true true b h = (refl, h)
both_true false b h = cc

both_false : (a b : Bool) → a || b ≡ false → (a ≡ false) × (b ≡ false)
both_false false b h = (refl, h)
both_false true b h = cc

-- The items of one file: sound, of the tenant, and as many as the manifest says.
pub record IsTaken (pr : Printer) (tenant : String) (file : BackupFile) (items : List Json)
    : Type 0 where
  pub sound : All (IsSound pr) items
  pub own : all_belong pr tenant items ≡ true
  pub counted : length items ≡ file.record_count

file-IsTaken :
    (pr : Printer) (file : SnapshotFile) (expected : BackupFile) (tenant : String)
    (items : List Json)
    → read_snapshot_file pr file expected ≡ ok items
    → all_belong pr tenant items ≡ true
    → IsTaken pr tenant expected items
unfolding read_snapshot_file
file-IsTaken pr file expected tenant items h own =
    let a = not_guard (str_eq file.checksum expected.sha256) _ _ h in
    let b = not_guard (length file.lines == expected.record_count) _ _ a.1 in
    let c = read_lines-IsSound pr file.lines items b.1 in
    record {
      sound = c.0;
      own = own;
      counted = c.1 ∙ (==_iff (length file.lines) expected.record_count).0 b.0;
    }

-- What a restore that goes on to write has checked.
pub record IsRestorable (pr : Printer) (i : RestoreInput) (manifest : Manifest) (found : Found)
    (r : RestoreItems) : Type 0 where
  pub allowed : i.allow_restore ≡ true
  pub environment : str_eq i.target_environment "restore-test" ≡ true
  pub core_table : is_restore_table i.core_table_name ≡ true
  pub audit_table : is_restore_table i.audit_table_name ≡ true
  pub two_tables : str_eq i.core_table_name i.audit_table_name ≡ false
  pub core_taken : IsTaken pr manifest.tenant_id manifest.core r.core
  pub audit_taken : IsTaken pr manifest.tenant_id manifest.audit r.audit
  pub core_empty : found.core ≡ 0
  pub audit_empty : found.audit ≡ 0

-- A restore that goes on to write is allowed, for `restore-test`, into two tables with the prefix
-- of a restore that are empty, and writes only items of the tenant of the manifest, as many as it
-- says, none of which is a local secret or is unsafe.
pub check_restore-IsRestorable :
    (pr : Printer) (i : RestoreInput) (manifest : Manifest) (core_file audit_file : SnapshotFile)
    (found : Found) (r : RestoreItems)
    → check_restore pr i manifest core_file audit_file found ≡ ok r
    → IsRestorable pr i manifest found r
unfolding check_restore
check_restore-IsRestorable pr i manifest core_file audit_file found r h =
    let a = not_guard i.allow_restore _ _ h in
    let b = not_guard (str_eq i.target_environment "restore-test") _ _ a.1 in
    let c =
      not_guard (is_restore_table i.core_table_name && is_restore_table i.audit_table_name) _ _
        b.1 in
    let d = guard (str_eq i.core_table_name i.audit_table_name) _ _ c.1 in
    elim (Result-cases (read_snapshot_file pr core_file manifest.core)) [
      | inl (fault, e) ↦ let g = rw e at d.1 in cc
      | inr (core, e) ↦ elim (Result-cases (read_snapshot_file pr audit_file manifest.audit)) [
        | inl (fault, k) ↦ let g = rw k at (rw e at d.1) in cc
        | inr (audit, k) ↦
            let g = rw k at (rw e at d.1) in
            let own =
              not_guard
                (all_belong pr manifest.tenant_id core && all_belong pr manifest.tenant_id audit) _
                _ g in
            let vacant = guard (ltb 0 found.core || ltb 0 found.audit) _ _ own.1 in
            let same : r ≡ record { core = core; audit = audit } = cc in
            let tables =
              both_true (is_restore_table i.core_table_name) (is_restore_table i.audit_table_name)
                c.0 in
            let mine =
              both_true (all_belong pr manifest.tenant_id core)
                (all_belong pr manifest.tenant_id audit) own.0 in
            let none_found = both_false (ltb 0 found.core) (ltb 0 found.audit) vacant.0 in
            subst (λ x. IsRestorable pr i manifest found x) (sym same)
              (record {
                allowed = a.0;
                environment = b.0;
                core_table = tables.0;
                audit_table = tables.1;
                two_tables = d.0;
                core_taken =
                    file-IsTaken pr core_file manifest.core manifest.tenant_id core e mine.0;
                audit_taken =
                    file-IsTaken pr audit_file manifest.audit manifest.tenant_id audit k mine.1;
                core_empty = ground (arith, none_found.0);
                audit_empty = ground (arith, none_found.1);
              })
      ]
    ]
