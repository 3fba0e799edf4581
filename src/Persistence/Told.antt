-- ===== src/Persistence/Told.antt =====
-- The status of a stored event is the one that its counters tell.
use partner_integration_reli.Prelude.{
  ◌+◌, ◌≡◌, refl, ap, subst, true, some, ok, inl, inr, List, Bool-cases, Result-cases,
}
use partner_integration_reli.Domain.Types.{EventOutcomeCounters, DeliveryExecution}
use partner_integration_reli.Domain.Records.{CanonicalEvent}
use partner_integration_reli.Domain.Status.{derive_event_status}
use partner_integration_reli.Store.Condition.{put}
use partner_integration_reli.Store.Keys.{TenantKey, tenant_key_eq}
use partner_integration_reli.Store.Tables.{Tables, Write, commit}
use partner_integration_reli.Store.Database.{Database}
use partner_integration_reli.Store.Commit.{transact_cases}
use partner_integration_reli.Persistence.Common.{stored_event}
use partner_integration_reli.Persistence.Finalize.{
  recount, updated_event, updates_original_event, count_terminal,
}

abbrev pub IsTold : CanonicalEvent → Type 0
IsTold e = derive_event_status e.outcome ≡ ok e.status

abbrev pub Told : Tables → Type 0
Told t = (k : TenantKey) (e : CanonicalEvent) → t.events k ≡ some e → IsTold e

pub Told-same : (t u : Tables) → u.events ≡ t.events → Told t → Told u
Told-same t u h p k e at = p k e (rw h at at)

pub Told-put :
    (t u : Tables) (k : TenantKey) (f : CanonicalEvent)
    → u.events ≡ put tenant_key_eq k (stored_event f) t.events
    → IsTold f
    → Told t
    → Told u
Told-put t u k f h told p j e at_j = elim (Bool-cases (tenant_key_eq k j)) [
  | inl same ↦
      let g = rw same at (rw h at at_j) in
      let e_f : stored_event f ≡ e = cc in subst (λ x. IsTold x) e_f told
  | inr other ↦ p j e (rw other at (rw h at at_j))
]

pub recount-IsTold :
    (e : CanonicalEvent) (c : EventOutcomeCounters) (f : CanonicalEvent)
    → recount e c ≡ ok f
    → IsTold f × (f.outcome ≡ c) × (f.version ≡ e.version + 1) × (f.event_id ≡ e.event_id)
unfolding recount
recount-IsTold e c f = elim (Result-cases (derive_event_status c)) [
  | inl (x, h) ↦ rw (h, recount) (λ g. cc)
  | inr (st, h) ↦
      rw (h, recount)
        (λ g.
          let f_e : record e { outcome = c; status = st; version = e.version + 1 } ≡ f = cc in
          subst
            (λ x.
              IsTold x × (x.outcome ≡ c) × (x.version ≡ e.version + 1) × (x.event_id ≡ e.event_id))
            f_e (h, refl, refl, refl))
]

pub updated-IsTold :
    (d : DeliveryExecution) (e f : CanonicalEvent)
    → updates_original_event d ≡ true
    → updated_event d e ≡ ok f
    → IsTold f
unfolding updated_event
updated-IsTold d e f h g = (recount-IsTold e (count_terminal d.state e.outcome) f (rw h at g)).0

-- A transaction keeps what its commit keeps.
pub transact-Told :
    (db : Database) (s : db.Store) (ws : List Write)
    → (Told (db.tables s) → Told (commit (db.tables s) ws))
    → Told (db.tables s)
    → Told (db.tables (db.transact s ws).0)
transact-Told db s ws keep p = elim (transact_cases db s ws) [
  | inl same ↦
      Told-same (db.tables s) (db.tables (db.transact s ws).0) (ap (λ (t : Tables). t.events) same)
        p
  | inr (allowed, done) ↦
      Told-same (commit (db.tables s) ws) (db.tables (db.transact s ws).0)
        (ap (λ (t : Tables). t.events) done) (keep p)
]
