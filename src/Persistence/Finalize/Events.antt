-- ===== src/Persistence/Finalize/Events.antt =====
-- Finalising keeps the events' statuses told by their counters.
use partner_integration_reli.Prelude.{
  ℕ, ◌≡◌, true, false, none, some, ok, Bool-cases, inl, inr, List,
}
use partner_integration_reli.Domain.Records.{CanonicalEvent}
use partner_integration_reli.Store.Tables.{Tables, commit}
use partner_integration_reli.Store.Database.{Database}
use partner_integration_reli.Persistence.Common.{settle-store}
use partner_integration_reli.Persistence.Rounds.{Round, retry_rounds_keep}
use partner_integration_reli.Persistence.Attempt.{event_key}
use partner_integration_reli.Persistence.Finalize.{
  FinalizeAttempt, updates_original_event, updated_event, event_writes, finalize_writes,
  finalize_round, finalize_attempt,
}
use partner_integration_reli.Persistence.Finalize.Laws.{finalize_cases}
use partner_integration_reli.Persistence.Finalize.Committed.{
  finalize_core, event_writes-put, event_writes-unput,
}
use partner_integration_reli.Persistence.Told.{
  Told, Told-same, Told-put, updated-IsTold, transact-Told,
}

events-Told :
    (t : Tables) (i : FinalizeAttempt) (e f : CanonicalEvent)
    → updated_event i.delivery e ≡ ok f
    → Told t
    → Told (commit t (event_writes i.delivery (event_key i.key) e f))
events-Told t i e f u p = elim (Bool-cases (updates_original_event i.delivery)) [
  | inl yes_event ↦
      Told-put t (commit t (event_writes i.delivery (event_key i.key) e f)) (event_key i.key) f
        (event_writes-put t i.delivery (event_key i.key) e f yes_event)
        (updated-IsTold i.delivery e f yes_event u) p
  | inr no_event ↦
      Told-same t (commit t (event_writes i.delivery (event_key i.key) e f))
        (event_writes-unput t i.delivery (event_key i.key) e f no_event) p
]

module _ (db : Database) (spell : ℕ → List ℕ) (i : FinalizeAttempt) where
  open db use {tables, transact}

  pub finalize_round-Told :
      (round : Round db) (s : db.Store)
      → Told (tables s)
      → Told (tables (finalize_round db spell i round s).0)
  finalize_round-Told round s p =
      finalize_cases db spell i round s (λ r. Told (tables r.0)) p (λ e. p)
        (λ d e f h1 h2 u.
          rw (settle-store (transact s (finalize_writes spell i d e f)) (some true) none) (
            transact-Told db s (finalize_writes spell i d e f)
              (λ q.
                Told-same (commit (tables s) (event_writes i.delivery (event_key i.key) e f))
                  (commit (tables s) (finalize_writes spell i d e f))
                  (finalize_core spell i d e f (tables s)).1 (events-Told (tables s) i e f u q))
              p))

  -- Over all its rounds, a finalisation keeps every stored event's status the one that its counters
  -- tell, as long as other workers do.
  pub finalize-Told :
      (rounds : ℕ → Round db) (s : db.Store)
      → ((n : ℕ) (t : db.Store) → Told (tables t) → Told (tables ((rounds n).interfere t)))
      → Told (tables s)
      → Told (tables (finalize_attempt db spell i rounds s).0)
  unfolding finalize_attempt
  finalize-Told rounds s others p =
      retry_rounds_keep db (finalize_round db spell i) (ok false) rounds (λ t. Told (tables t))
        others finalize_round-Told 8 s p
