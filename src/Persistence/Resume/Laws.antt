-- ===== src/Persistence/Resume/Laws.antt =====
-- What resuming a destination does.
use partner_integration_reli.Prelude.{
  ℕ, suc, ◌+◌, ◌≡◌, ◌≤◌, refl, true, ◌==◌, List, [], ◌∷◌, ◌++◌, length, All, Result, ok, err, arith,
  inl, inr, Bool-cases, Option-cases, Result-cases,
}
use partner_integration_reli.Domain.Types.{DeliveryExecution, DomainError}
use partner_integration_reli.Domain.Transition.{transition_delivery}
use partner_integration_reli.Domain.Transition.Outcome.{transition-IsSettled}
use partner_integration_reli.Store.Condition.{matches}
use partner_integration_reli.Store.Database.{Database, Verdict, committed, cancelled, broken}
use partner_integration_reli.Store.Commit.{Evolves, Evolves-refl, Evolves-trans, advance-Evolves}
use partner_integration_reli.Persistence.Common.{
  Fault, domain, stored, reindex, reindex-quiet, outbox_put, all_quiet-append, settle, settle-store,
}
use partner_integration_reli.Persistence.Rounds.{Round}
use partner_integration_reli.Persistence.Recovery.{locate_delivery}
use partner_integration_reli.Persistence.Resume.{
  ResumeDestination, is_resumable, resume_transition, resume_outbox, own_key, resume_writes,
  resume_one, resume_destination,
}

same_version : (v : ℕ) (d : DeliveryExecution) → (d.version == v) ≡ true → d.version ≡ v
same_version v d h = ground arith

-- A count that is answered is at most a bound.
abbrev pub Within : ℕ → Result Fault ℕ → Type 0
Within b (ok n) = n ≤ b
Within b (err e) = 0 ≤ b

Within-mono : (a b : ℕ) (r : Result Fault ℕ) → a ≤ b → Within a r → Within b r
Within-mono a b (ok n) h k = omega (arith, h, k)
Within-mono a b (err e) h k = omega arith

settle-Within : {S : Type 0} (p : S × Verdict) → Within 1 (settle {A = ℕ} p 1 0).1
settle-Within (t, committed) = omega arith
settle-Within (t, cancelled) = omega arith
settle-Within (t, broken) = omega arith

module _ (db : Database) (i : ResumeDestination) where
  open db use {tables, transact}

  pub resume_cases {ℓ} :
      (round : Round db) (id : ℕ) (s : db.Store)
      → (P : db.Store × Result Fault ℕ → Type ℓ) → P (s, ok 0)
      → ((e : DomainError) → P (s, err (domain e)))
      → ((current next : DeliveryExecution)
          → transition_delivery current (resume_transition i current) ≡ ok next
          → P (settle (transact s (resume_writes i current next)) 1 0))
      → P (resume_one db i round id s)
  unfolding resume_one
  resume_cases round id s P skipped failed tried =
      elim (Option-cases (locate_delivery round.seen i.tenant id round.clock)) [
        | inl e ↦ rw (e, resume_one) skipped
        | inr (current, e) ↦ elim (Bool-cases (is_resumable i current)) [
          | inr other ↦ rw (e, resume_one) (rw other skipped)
          | inl blocked ↦
              elim (Result-cases (transition_delivery current (resume_transition i current))) [
                | inl (f, h) ↦ rw (e, resume_one) (rw blocked (rw h (failed f)))
                | inr (next, h) ↦ rw (e, resume_one) (rw blocked (rw h (tried current next h)))
              ]
        ]
      ]

  pub resume_one-Evolves :
      (round : Round db) (id : ℕ) (s : db.Store)
      → Evolves (tables s) (tables (resume_one db i round id s).0)
  unfolding resume_writes outbox_put
  resume_one-Evolves round id s =
      resume_cases round id s (λ r. Evolves (tables s) (tables r.0)) (Evolves-refl (tables s))
        (λ e. Evolves-refl (tables s))
        (λ current next h.
          rw (settle-store {A = ℕ} (transact s (resume_writes i current next)) 1 0) (
            advance-Evolves db s (matches (λ d. d.version == current.version)) (own_key current)
              (stored next) (reindex current next ++ outbox_put (resume_outbox i current) ∷ [])
              (all_quiet-append (reindex current next) (outbox_put (resume_outbox i current) ∷ [])
                (reindex-quiet current next) refl)
              (λ d g. omega (
                arith,
                same_version current.version d g,
                (transition-IsSettled current (resume_transition i current) h).2,
              ))))

  resume_one-Within :
      (round : Round db) (id : ℕ) (s : db.Store) → Within 1 (resume_one db i round id s).1
  resume_one-Within round id s =
      resume_cases round id s (λ r. Within 1 r.1) (omega arith) (λ e. omega arith)
        (λ current next h. settle-Within (transact s (resume_writes i current next)))

  -- Resuming a destination moves the deliveries forward, as long as other workers do, and counts
  -- each delivery of the list once at most.
  pub resume-Evolves :
      (list : List (ℕ × Round db)) (resumed : ℕ) (s : db.Store)
      → All
          (λ (p : ℕ × Round db). (t : db.Store) → Evolves (tables t) (tables (p.1.interfere t)))
          list
      → Evolves (tables s) (tables (resume_destination db i list resumed s).0)
        × Within (resumed + length list) (resume_destination db i list resumed s).1
  unfolding resume_destination
  resume-Evolves [] resumed s others = (Evolves-refl (tables s), omega arith)
  resume-Evolves ((id, round) ∷ rest) resumed s others =
      let t = round.interfere s in
      let u = (resume_one db i round id t).0 in
      let first =
        Evolves-trans (tables s) (tables t) (tables u) (others.0 s)
          (resume_one-Evolves round id t) in
      elim (Result-cases (resume_one db i round id t).1) [
        | inl (e, h) ↦ rw (h, resume_destination) (first, omega arith)
        | inr (m, h) ↦
            let again = resume-Evolves rest (resumed + m) u others.1 in
            let once : m ≤ 1 = rw h at (resume_one-Within round id t) in
            rw (h, resume_destination)
              (
                Evolves-trans (tables s) (tables u)
                    (tables (resume_destination db i rest (resumed + m) u).0) first again.0,
                Within-mono (resumed + m + length rest) (resumed + suc (length rest))
                    (resume_destination db i rest (resumed + m) u).1 (omega (arith, once)) again.1,
              )
      ]
