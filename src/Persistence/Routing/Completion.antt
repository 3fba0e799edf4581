-- ===== src/Persistence/Routing/Completion.antt =====
-- What completing the routing of an event does, over all its rounds.
use partner_integration_reli.Prelude.{
  ℕ, ◌≡◌, ap, ◌∙◌, true, Option, none, some, ok, err, inl, inr, Bool-cases, Option-cases,
  Result-cases,
}
use partner_integration_reli.Domain.Types.{EventOutcomeCounters}
use partner_integration_reli.Domain.Records.{CanonicalEvent}
use partner_integration_reli.Store.Condition.{put}
use partner_integration_reli.Store.Keys.{TenantKey, tenant_key_eq}
use partner_integration_reli.Store.Tables.{Tables, commit, write}
use partner_integration_reli.Store.Core.{commit-side}
use partner_integration_reli.Store.Database.{Database}
use partner_integration_reli.Store.Commit.{
  Evolves, Evolves-refl, Evolves-same, Evolves-trans, transact_cases,
}
use partner_integration_reli.Persistence.Common.{
  Fault, domain, routing_completion_conflict, get_event, stored_event, settle, settle-store,
}
use partner_integration_reli.Persistence.Rounds.{Forward, Round, Answer, retry_rounds_keep}
use partner_integration_reli.Persistence.Finalize.{recount}
use partner_integration_reli.Persistence.Told.{Told, Told-put, recount-IsTold, transact-Told}
use partner_integration_reli.Persistence.Routing.{
  event_put, status_writes, completion_writes, complete_round, complete_routing,
}
use partner_integration_reli.Persistence.Routing.Committed.{status_writes-side}

completion_core :
    (t : Tables) (k : TenantKey) (e f : CanonicalEvent)
    → ((commit t (completion_writes k e f)).deliveries ≡ t.deliveries)
      × ((commit t (completion_writes k e f)).events
          ≡ put tenant_key_eq (record k { id = e.event_id }) (stored_event f) t.events)
unfolding completion_writes commit write
completion_core t k e f =
    let u = write t (event_put (record k { id = e.event_id }) e f) in
    let a = commit-side u (status_writes k.tenant e f) (status_writes-side k.tenant e f) in
    (a.deliveries, a.events)

abbrev complete_event : CanonicalEvent → EventOutcomeCounters
complete_event e = record e.outcome { routing_complete = true }

module _ (db : Database) (k : TenantKey) where
  open db use {tables, transact}

  pub complete_cases {ℓ} :
      (round : Round db) (s : db.Store)
      → (P : db.Store × Answer Unit → Type ℓ) → P (s, ok (some tt))
      → ((e : CanonicalEvent) (f : Fault) → P (s, err f))
      → ((event updated : CanonicalEvent)
          → recount event (complete_event event) ≡ ok updated
          → P (settle (transact s (completion_writes k event updated)) (some tt) none))
      → P (complete_round db k round s)
  unfolding complete_round recount
  complete_cases round s P done failed tried =
      elim (Option-cases (get_event round.seen k round.clock)) [
        | inl e ↦ rw (e, complete_round) done
        | inr (event, e) ↦ elim (Bool-cases event.outcome.routing_complete) [
          | inl already ↦ rw (e, complete_round) (rw already done)
          | inr open_yet ↦ elim (Result-cases (recount event (complete_event event))) [
            | inl (x, u) ↦ rw (e, complete_round) (rw open_yet (rw u (failed event (domain x))))
            | inr (updated, u) ↦ rw (e, complete_round) (rw open_yet (rw u (tried event updated u)))
          ]
        ]
      ]

  pub complete_round-Evolves :
      (round : Round db) (s : db.Store)
      → Evolves (tables s) (tables (complete_round db k round s).0)
  complete_round-Evolves round s =
      complete_cases round s (λ r. Evolves (tables s) (tables r.0)) (Evolves-refl (tables s))
        (λ e f. Evolves-refl (tables s))
        (λ e f u.
          rw (settle-store {A = Option Unit} (transact s (completion_writes k e f)) (some tt) none)
            (elim (transact_cases db s (completion_writes k e f)) [
              | inl same ↦
                  Evolves-same (tables s) (tables (transact s (completion_writes k e f)).0)
                    (ap (λ (t : Tables). t.deliveries) same)
              | inr (allowed, done) ↦
                  Evolves-same (tables s) (tables (transact s (completion_writes k e f)).0)
                    (ap (λ (t : Tables). t.deliveries) done ∙ (completion_core (tables s) k e f).0)
            ]))

  pub complete_round-Told :
      (round : Round db) (s : db.Store)
      → Told (tables s)
      → Told (tables (complete_round db k round s).0)
  complete_round-Told round s p =
      complete_cases round s (λ r. Told (tables r.0)) p (λ e f. p)
        (λ e f u.
          rw (settle-store {A = Option Unit} (transact s (completion_writes k e f)) (some tt) none)
            (transact-Told db s (completion_writes k e f)
              (λ q.
                Told-put (tables s) (commit (tables s) (completion_writes k e f))
                  (record k { id = e.event_id }) f (completion_core (tables s) k e f).1
                  (recount-IsTold e (complete_event e) f u).0 q)
              p))

  -- Completing a routing moves the deliveries forward, as long as other workers do.
  pub complete-Evolves :
      (rounds : ℕ → Round db) (s : db.Store)
      → Forward db rounds
      → Evolves (tables s) (tables (complete_routing db k rounds s).0)
  unfolding complete_routing
  complete-Evolves rounds s others =
      retry_rounds_keep db (complete_round db k) (err routing_completion_conflict) rounds
        (λ t. Evolves (tables s) (tables t))
        (λ n t p.
          Evolves-trans (tables s) (tables t) (tables ((rounds n).interfere t)) p (others n t))
        (λ round t p.
          Evolves-trans (tables s) (tables t) (tables (complete_round db k round t).0) p
            (complete_round-Evolves round t))
        8 s (Evolves-refl (tables s))

  -- Completing a routing keeps every stored event's status the one that its counters tell, as long
  -- as other workers do.
  pub complete-Told :
      (rounds : ℕ → Round db) (s : db.Store)
      → ((n : ℕ) (t : db.Store) → Told (tables t) → Told (tables ((rounds n).interfere t)))
      → Told (tables s)
      → Told (tables (complete_routing db k rounds s).0)
  unfolding complete_routing
  complete-Told rounds s others p =
      retry_rounds_keep db (complete_round db k) (err routing_completion_conflict) rounds
        (λ t. Told (tables t)) others complete_round-Told 8 s p
