-- ===== src/Persistence/Routing/Lookups.antt =====
-- What creating a delivery and completing a routing do to the lookups of deliveries.
use partner_integration_reli.Prelude.{
  ℕ, ◌≡◌, refl, ap, ◌∙◌, ◌⊎◌, true, Option, none, some, is_some, Result, ok, err, inl, inr, List,
  Bool-cases,
}
use partner_integration_reli.Domain.Records.{CanonicalEvent}
use partner_integration_reli.Store.Keys.{TenantKey, tenant_key_eq, tenant_key_eq_iff}
use partner_integration_reli.Store.Tables.{Tables, commit, write}
use partner_integration_reli.Store.Core.{commit-side}
use partner_integration_reli.Store.Database.{Database, Verdict, committed, cancelled, broken}
use partner_integration_reli.Store.Commit.{transact_cases}
use partner_integration_reli.Persistence.Common.{
  Fault, routing_conflict, routing_completion_conflict, settle, settle-store,
}
use partner_integration_reli.Persistence.Rounds.{Round, retry_rounds_keep, retry_rounds_answered}
use partner_integration_reli.Persistence.Routing.{
  CreateDelivery, Creation, created, duplicate, create_round, create_writes, create_delivery,
  completion_writes, complete_round, complete_routing, event_put, status_writes,
}
use partner_integration_reli.Persistence.Routing.Committed.{
  lookup_key, create_core, status_writes-side,
}
use partner_integration_reli.Persistence.Routing.Completion.{complete_cases}
use partner_integration_reli.Persistence.Routing.Laws.{create_cases, round-Created}

-- Other workers leave a lookup as it is.
abbrev pub LeavesLookup : (db : Database) → TenantKey → (ℕ → Round db) → Type 0
LeavesLookup db k rounds =
    (n : ℕ) (s : db.Store)
    → (db.tables ((rounds n).interfere s)).lookups k ≡ (db.tables s).lookups k

-- A lookup after an operation: as it was, or the one that the operation wrote.
abbrev pub WroteAtMost : TenantKey → TenantKey → ℕ → Option ℕ → Option ℕ → Type 0
WroteAtMost k own event before after = (after ≡ before) ⊎ ((own ≡ k) × (after ≡ some event))

module _ (db : Database) (spell : ℕ → List ℕ) (i : CreateDelivery) (k : TenantKey) where
  open db use {tables, transact}

  abbrev Since : db.Store → db.Store → Type 0
  Since s t =
      WroteAtMost k (lookup_key i) i.delivery.event_id ((tables s).lookups k) ((tables t).lookups k)

  Since-refl : (s : db.Store) → Since s s
  Since-refl s = inl refl

  writes-Since :
      (r s : db.Store) (e f : CanonicalEvent)
      → Since r s
      → Since r (transact s (create_writes spell i e f)).0
  writes-Since r s e f p = elim (transact_cases db s (create_writes spell i e f)) [
    | inl same ↦ rw (ap (λ (t : Tables). t.lookups k) same) p
    | inr (allowed, done) ↦
        let core =
          ap (λ (t : Tables). t.lookups k) done
          ∙ ap (λ m. m k) (create_core spell i e f (tables s)).1 in
        elim (Bool-cases (tenant_key_eq (lookup_key i) k)) [
          | inl own ↦ inr ((tenant_key_eq_iff (lookup_key i) k).0 own, core ∙ rw own refl)
          | inr other ↦
              let untouched : (tables (transact s (create_writes spell i e f)).0).lookups k
                  ≡ (tables s).lookups k =
                core ∙ rw other refl in
              rw untouched p
        ]
  ]

  round-Since :
      (r : db.Store) (round : Round db) (s : db.Store)
      → Since r s
      → Since r (create_round db spell i round s).0
  round-Since r round s p =
      create_cases db spell i round s (λ x. Since r x.0) (λ there. p) (λ f. p)
        (λ e f u.
          rw (settle-store (transact s (create_writes spell i e f)) (some created) none)
            (writes-Since r s e f p))

  -- Creating a delivery writes at most its own lookup.
  pub create-WroteAtMost :
      (rounds : ℕ → Round db) (s : db.Store)
      → LeavesLookup db k rounds
      → Since s (create_delivery db spell i rounds s).0
  unfolding create_delivery
  create-WroteAtMost rounds s others =
      retry_rounds_keep db (create_round db spell i) (err routing_conflict) rounds (λ t. Since s t)
        (λ n t p. rw (others n t) p) (λ round t p. round-Since s round t p) 8 s (Since-refl s)

  -- The lookup of the delivery is stored, or was read as stored.
  abbrev Answered : Round db → db.Store → Type 0
  Answered round t =
      ((tables t).lookups (lookup_key i) ≡ some i.delivery.event_id)
      ⊎ (is_some (round.seen.lookups (lookup_key i)) ≡ true)

  round-Answered :
      (round : Round db) (s : db.Store) (c : Creation)
      → (create_round db spell i round s).1 ≡ ok (some c)
      → Answered round (create_round db spell i round s).0
  round-Answered round s created g = inl (round-Created db spell i round s g).known
  round-Answered round s duplicate g =
      create_cases db spell i round s (λ r. r.1 ≡ ok (some duplicate) → Answered round r.0)
        (λ there h. inr there) (λ f h. cc)
        (λ e f u h. absurd (settled (transact s (create_writes spell i e f)) h)) g
    where
      settled :
          {S : Type 0} (p : S × Verdict)
          → ¬ (
              Path
                (Result Fault (Option Creation))
                (settle {A = Option Creation} p (some created) none).1
                (ok (some duplicate)))
      settled (s, committed) h = cc
      settled (s, cancelled) h = cc
      settled (s, broken) h = cc

  -- A creation that answers leaves the lookup of its delivery stored, or one of its rounds read it
  -- as stored.
  pub create-Answered :
      (rounds : ℕ → Round db) (s : db.Store) (c : Creation)
      → (create_delivery db spell i rounds s).1 ≡ ok c
      → ((tables (create_delivery db spell i rounds s).0).lookups (lookup_key i)
          ≡ some i.delivery.event_id)
        ⊎ ((m : ℕ) × (is_some ((rounds m).seen.lookups (lookup_key i)) ≡ true))
  unfolding create_delivery
  create-Answered rounds s c g =
      elim (retry_rounds_answered {0} db (create_round db spell i) (err routing_conflict) rounds
        (λ t. Unit) (λ n t p. tt) (λ round t p. tt) c 8 s tt g) [
          | inl never ↦ cc
          | inr (m, t, p, made, same) ↦ elim (round-Answered (rounds m) t c made) [
            | inl now ↦ inl (rw same now)
            | inr before ↦ inr (m, before)
          ]
        ]

completion-lookups :
    (t : Tables) (k : TenantKey) (e f : CanonicalEvent)
    → (commit t (completion_writes k e f)).lookups ≡ t.lookups
unfolding completion_writes commit write
completion-lookups t k e f =
    let u = write t (event_put (record k { id = e.event_id }) e f) in
    (commit-side u (status_writes k.tenant e f) (status_writes-side k.tenant e f)).lookups

module _ (db : Database) (place k : TenantKey) where
  open db use {tables, transact}

  complete_round-lookup :
      (n : Option ℕ) (round : Round db) (s : db.Store)
      → (tables s).lookups k ≡ n
      → (tables (complete_round db place round s).0).lookups k ≡ n
  complete_round-lookup n round s p =
      complete_cases db place round s (λ r. (tables r.0).lookups k ≡ n) p (λ e f. p)
        (λ e f u.
          rw
            (settle-store {A = Option Unit} (transact s (completion_writes place e f)) (some tt)
              none)
            (elim (transact_cases db s (completion_writes place e f)) [
              | inl same ↦ ap (λ (t : Tables). t.lookups k) same ∙ p
              | inr (allowed, done) ↦
                  ap (λ (t : Tables). t.lookups k) done
                  ∙ ap (λ m. m k) (completion-lookups (tables s) place e f)
                  ∙ p
            ]))

  -- Completing a routing writes no lookup.
  pub complete-lookup :
      (rounds : ℕ → Round db) (s : db.Store)
      → LeavesLookup db k rounds
      → (tables (complete_routing db place rounds s).0).lookups k ≡ (tables s).lookups k
  unfolding complete_routing
  complete-lookup rounds s others =
      retry_rounds_keep db (complete_round db place) (err routing_completion_conflict) rounds
        (λ t. (tables t).lookups k ≡ (tables s).lookups k) (λ n t p. others n t ∙ p)
        (λ round t p. complete_round-lookup ((tables s).lookups k) round t p) 8 s refl
