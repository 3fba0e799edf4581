-- ===== src/Persistence/Steps/Laws.antt =====
-- What every interleaving keeps.
use partner_integration_reli.Prelude.{
  ℕ, ◌==◌, ◌≡◌, refl, true, false, none, some, get_or, inl, inr, List, [], ◌∷◌, ◌++◌, Option-cases,
}
use partner_integration_reli.Domain.Types.{DeliveryExecution}
use partner_integration_reli.Domain.Rate.{rate_limit_decision}
use partner_integration_reli.Store.Condition.{Condition, matches}
use partner_integration_reli.Store.Keys.{DeliveryKey}
use partner_integration_reli.Store.Tables.{Tables, Write, put_delivery, commit, write}
use partner_integration_reli.Store.Core.{all_side, all_side-append, commit-side}
use partner_integration_reli.Store.Database.{Database, Verdict, committed, cancelled, broken}
use partner_integration_reli.Store.Commit.{Evolves, Evolves-refl, Evolves-trans, quiet-Evolves}
use partner_integration_reli.Persistence.Common.{
  get_delivery, settle, reindex, stored, history_put, outbox_put,
}
use partner_integration_reli.Persistence.Rounds.{Round}
use partner_integration_reli.Persistence.Lease.{
  AcquireLease, acquire_lease, lease_writes, is_leasable,
}
use partner_integration_reli.Persistence.Lease.Laws.{acquire_cases, acquire-Evolves}
use partner_integration_reli.Persistence.Attempt.{
  StartAttempt, start_attempt, start_writes, started_delivery, DeferDelivery, defer_delivery,
  defer_writes, is_held,
}
use partner_integration_reli.Persistence.Attempt.Laws.{
  start-Evolves, start-refused, start-tried, defer-Evolves,
}
use partner_integration_reli.Persistence.Finalize.Laws.{finalize_round-Evolves}
use partner_integration_reli.Persistence.Finalize.Committed.{reindex-side}
use partner_integration_reli.Persistence.Finalize.Events.{finalize_round-Told}
use partner_integration_reli.Persistence.Routing.Laws.{create_round-Evolves, create_round-Told}
use partner_integration_reli.Persistence.Routing.Completion.{
  complete_round-Evolves, complete_round-Told,
}
use partner_integration_reli.Persistence.Circuit.{
  unbroken, CircuitRequest, circuit_round, probe_writes,
}
use partner_integration_reli.Persistence.Circuit.Probe.{round_cases, probe_permit}
use partner_integration_reli.Persistence.RatePermit.{tat_of, RateRequest, rate_round, rate_writes}
use partner_integration_reli.Persistence.RatePermit.Served.{rate_cases}
use partner_integration_reli.Persistence.Told.{Told, Told-same, transact-Told}
use partner_integration_reli.Persistence.Replace.{replace-Evolves, replace-Told}
use partner_integration_reli.Persistence.Resume.{
  ResumeDestination, resume_outbox, own_key, resume_writes, resume_one,
}
use partner_integration_reli.Persistence.Resume.Laws.{resume_cases, resume_one-Evolves}
use partner_integration_reli.Persistence.Steps.{
  Step, leases, starts, finalizes, defers, creates, completes, replaces, resumes, probes, permits,
  Steps, stay, then_step,
}

delivery_events :
    (t : Tables) (c : Condition DeliveryExecution) (k : DeliveryKey) (d : DeliveryExecution)
    (ws : List Write)
    → all_side ws ≡ true
    → (commit t (put_delivery c k d ∷ ws)).events ≡ t.events
unfolding commit write
delivery_events t c k d ws h = (commit-side (write t (put_delivery c k d)) ws h).events

settle_keeps :
    {S A : Type 0} (P : S → Type 0) (p : S × Verdict) (a b : A) → P p.0 → P (settle p a b).0
settle_keeps P (s, committed) a b h = h
settle_keeps P (s, cancelled) a b h = h
settle_keeps P (s, broken) a b h = h

module _ (db : Database) (s : db.Store) where
  open db use {tables, transact}

  circuit-Evolves :
      (i : CircuitRequest) (round : Round db)
      → Evolves (tables s) (tables (circuit_round db i round s).0)
  unfolding probe_writes
  circuit-Evolves i round =
      let c = get_or (round.seen.circuits i.key) unbroken in
      round_cases db i round s (λ r. Evolves (tables s) (tables r.0))
        (λ p h. Evolves-refl (tables s))
        (λ e.
          settle_keeps (λ t. Evolves (tables s) (tables t)) (transact s (probe_writes i c))
            (some (probe_permit i c)) none (quiet-Evolves db s (probe_writes i c) refl))

  circuit-Told :
      (i : CircuitRequest) (round : Round db)
      → Told (tables s)
      → Told (tables (circuit_round db i round s).0)
  unfolding probe_writes commit write
  circuit-Told i round p =
      let c = get_or (round.seen.circuits i.key) unbroken in
      round_cases db i round s (λ r. Told (tables r.0)) (λ q h. p)
        (λ e.
          settle_keeps (λ t. Told (tables t)) (transact s (probe_writes i c))
            (some (probe_permit i c)) none (transact-Told db s (probe_writes i c) (λ q. q) p))

  rate-Evolves :
      (i : RateRequest) (round : Round db) → Evolves (tables s) (tables (rate_round db i round s).0)
  unfolding rate_writes
  rate-Evolves i round =
      let ws =
        rate_writes i (round.seen.rates i.key)
          (rate_limit_decision (tat_of (round.seen.rates i.key)) i.policy i.now) in
      rate_cases db i round s (λ r. Evolves (tables s) (tables r.0)) (λ p. Evolves-refl (tables s))
        (settle_keeps (λ t. Evolves (tables s) (tables t)) (transact s ws)
          (some (record { permitted = true; next_eligible_at = i.now })) none
          (quiet-Evolves db s ws refl))

  rate-Told :
      (i : RateRequest) (round : Round db)
      → Told (tables s)
      → Told (tables (rate_round db i round s).0)
  unfolding rate_writes commit write
  rate-Told i round p =
      let ws =
        rate_writes i (round.seen.rates i.key)
          (rate_limit_decision (tat_of (round.seen.rates i.key)) i.policy i.now) in
      rate_cases db i round s (λ r. Told (tables r.0)) (λ q. p)
        (settle_keeps (λ t. Told (tables t)) (transact s ws)
          (some (record { permitted = true; next_eligible_at = i.now })) none
          (transact-Told db s ws (λ q. q) p))

  lease-Told :
      (seen : Tables) (r a : ℕ) (i : AcquireLease)
      → Told (tables s)
      → Told (tables (acquire_lease db s seen r a i).0)
  unfolding lease_writes
  lease-Told seen r a i p =
      acquire_cases db s seen r a i (λ x. Told (tables x.0)) p (λ e. p)
        (λ current leased e free h.
          settle_keeps (λ t. Told (tables t)) (transact s (lease_writes i a current leased))
            (some leased) none
            (transact-Told db s (lease_writes i a current leased)
              (Told-same (tables s) (commit (tables s) (lease_writes i a current leased)) (
                delivery_events (tables s) (matches (is_leasable i.expected_version a)) i.key
                  (stored leased) (reindex current leased) (reindex-side current leased)))
              p))

  start-Told : (i : StartAttempt) → Told (tables s) → Told (tables (start_attempt db i s).0)
  unfolding start_writes commit write
  start-Told i p = elim (Option-cases i.delivery.lease_token) [
    | inl e ↦ rw (start-refused db s i e) p
    | inr (token, e) ↦ rw (start-tried db s i token e) (
        settle_keeps (λ t. Told (tables t)) (transact s (start_writes i token))
          (some (started_delivery i.delivery i.attempt)) none
          (transact-Told db s (start_writes i token) (λ q. q) p))
  ]

  defer-Told :
      (i : DeferDelivery) (seen : Tables) (now : ℕ)
      → Told (tables s)
      → Told (tables (defer_delivery db i seen now s).0)
  unfolding defer_delivery defer_writes history_put outbox_put
  defer-Told i seen now p = elim (Option-cases (get_delivery seen i.key now)) [
    | inl e ↦ rw (e, defer_delivery) p
    | inr (current, e) ↦
        rw (e, defer_delivery)
          (settle_keeps (λ t. Told (tables t)) (transact s (defer_writes i current)) true false
            (transact-Told db s (defer_writes i current)
              (Told-same (tables s) (commit (tables s) (defer_writes i current)) (
                delivery_events (tables s) (matches (is_held i.expected_version i.lease_token))
                  i.key (stored i.delivery)
                  (history_put i.key i.history
                    ∷ (reindex current i.delivery ++ outbox_put i.outbox ∷ []))
                  (all_side-append (reindex current i.delivery) (outbox_put i.outbox ∷ [])
                    (reindex-side current i.delivery) refl)))
              p))
  ]

  resume-Told :
      (i : ResumeDestination) (round : Round db) (id : ℕ)
      → Told (tables s)
      → Told (tables (resume_one db i round id s).0)
  unfolding resume_writes outbox_put
  resume-Told i round id p =
      resume_cases db i round id s (λ r. Told (tables r.0)) p (λ e. p)
        (λ current next h.
          settle_keeps {A = ℕ} (λ t. Told (tables t)) (transact s (resume_writes i current next)) 1
            0
            (transact-Told db s (resume_writes i current next)
              (Told-same (tables s) (commit (tables s) (resume_writes i current next)) (
                delivery_events (tables s) (matches (λ d. d.version == current.version))
                  (own_key current) (stored next)
                  (reindex current next ++ outbox_put (resume_outbox i current) ∷ [])
                  (all_side-append (reindex current next)
                    (outbox_put (resume_outbox i current) ∷ []) (reindex-side current next) refl)))
              p))

module _ (db : Database) (spell : ℕ → List ℕ) where
  open db use {tables}

  step-Evolves : (s t : db.Store) → Step db spell s t → Evolves (tables s) (tables t)
  step-Evolves s _ (leases seen r a i) = acquire-Evolves db s seen r a i
  step-Evolves s _ (starts i h) = start-Evolves db s i h
  step-Evolves s _ (finalizes i round h) = finalize_round-Evolves db spell i round s h
  step-Evolves s _ (defers i seen now h) = defer-Evolves db s i seen now h
  step-Evolves s _ (creates i round) = create_round-Evolves db spell i round s
  step-Evolves s _ (completes k round) = complete_round-Evolves db k round s
  step-Evolves s _ (replaces i seen h) = replace-Evolves db i seen s h
  step-Evolves s _ (resumes i round id) = resume_one-Evolves db i round id s
  step-Evolves s _ (probes i round) = circuit-Evolves db s i round
  step-Evolves s _ (permits i round) = rate-Evolves db s i round

  step-Told : (s t : db.Store) → Step db spell s t → Told (tables s) → Told (tables t)
  step-Told s _ (leases seen r a i) p = lease-Told db s seen r a i p
  step-Told s _ (starts i h) p = start-Told db s i p
  step-Told s _ (finalizes i round h) p = finalize_round-Told db spell i round s p
  step-Told s _ (defers i seen now h) p = defer-Told db s i seen now p
  step-Told s _ (creates i round) p = create_round-Told db spell i round s p
  step-Told s _ (completes k round) p = complete_round-Told db k round s p
  step-Told s _ (replaces i seen h) p = replace-Told db i seen s p
  step-Told s _ (resumes i round id) p = resume-Told db s i round id p
  step-Told s _ (probes i round) p = circuit-Told db s i round p
  step-Told s _ (permits i round) p = rate-Told db s i round p

  -- However the workers interleave, where their callers pass deliveries at the version they expect
  -- to start an attempt and newer ones to replace them, the deliveries only move forward.
  pub Steps-Evolves : (s t : db.Store) → Steps db spell s t → Evolves (tables s) (tables t)
  Steps-Evolves s _ stay = Evolves-refl (tables s)
  Steps-Evolves s _ (then_step {t} {u} ps p) =
      Evolves-trans (tables s) (tables t) (tables u) (Steps-Evolves s t ps) (step-Evolves t u p)

  -- However the workers interleave, where their callers pass deliveries at the version they expect
  -- to start an attempt and newer ones to replace them, every stored event keeps the status that
  -- its counters tell.
  pub Steps-Told : (s t : db.Store) → Steps db spell s t → Told (tables s) → Told (tables t)
  Steps-Told s _ stay p = p
  Steps-Told s _ (then_step {t} {u} ps p) q = step-Told t u p (Steps-Told s t ps q)
