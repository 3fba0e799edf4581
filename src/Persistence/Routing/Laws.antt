-- ===== src/Persistence/Routing/Laws.antt =====
-- What one round of creating a delivery does.
use partner_integration_reli.Prelude.{
  ℕ, ◌+◌, ◌≡◌, refl, ap, ◌∙◌, true, ◌==◌, Option, none, some, is_some, ok, err, arith, inl, inr,
  List, Bool-cases, Option-cases, Result-cases,
}
use partner_integration_reli.Domain.Records.{CanonicalEvent}
use partner_integration_reli.Store.Condition.{absent, holds, holds-matches}
use partner_integration_reli.Store.Keys.{tenant_key_eq_refl, delivery_key_eq_refl}
use partner_integration_reli.Store.Tables.{Tables, commit}
use partner_integration_reli.Store.Database.{Database, committed}
use partner_integration_reli.Store.Commit.{
  Evolves, Evolves-refl, Evolves-same, put-Evolves, transact_cases,
}
use partner_integration_reli.Persistence.Common.{
  Fault, domain, event_not_found, get_event, stored, stored_event, settle, settle-store,
  settle-committed,
}
use partner_integration_reli.Persistence.Rounds.{Round, Answer}
use partner_integration_reli.Persistence.Finalize.{recount}
use partner_integration_reli.Persistence.Told.{Told, Told-put, recount-IsTold, transact-Told}
use partner_integration_reli.Persistence.Routing.{
  CreateDelivery, created_key, count_created, create_writes, Creation, created, duplicate,
  create_round,
}
use partner_integration_reli.Persistence.Routing.Committed.{lookup_key, create_core, create_allowed}

-- A delivery that was created: neither it nor its lookup was there, both are now, and its event
-- counts it.
pub record Created (i : CreateDelivery) (before after : Tables) : Type 0 where
  pub unused : before.deliveries (created_key i) ≡ none
  pub unknown : before.lookups (lookup_key i) ≡ none
  pub kept : after.deliveries (created_key i) ≡ some (stored i.delivery)
  pub known : after.lookups (lookup_key i) ≡ some i.delivery.event_id
  pub counted :
      (found read updated : CanonicalEvent) × (before.events
          (record { tenant = i.tenant; id = updated.event_id })
        ≡ some found)
      × (found.version ≡ read.version)
      × (updated.outcome ≡ count_created i.delivery.state read.outcome)
      × (updated.version ≡ read.version + 1)
      × (after.events (record { tenant = i.tenant; id = updated.event_id })
          ≡ some (stored_event updated))

absent_none : {A : Type 0} (o : Option A) → holds absent o ≡ true → o ≡ none
absent_none none h = refl
absent_none (some a) h = cc

pub none-some : {A : Type 0} (o : Option A) (a : A) → o ≡ none → ¬ (o ≡ some a)
none-some o a h k = cc

module _ (db : Database) (spell : ℕ → List ℕ) (i : CreateDelivery) where
  open db use {tables, transact}

  pub create_cases {ℓ} :
      (round : Round db) (s : db.Store)
      → (P : db.Store × Answer Creation → Type ℓ)
      → (is_some (round.seen.lookups (lookup_key i)) ≡ true → P (s, ok (some duplicate)))
      → ((f : Fault) → P (s, err f))
      → ((event updated : CanonicalEvent)
          → recount event (count_created i.delivery.state event.outcome) ≡ ok updated
          → P (settle (transact s (create_writes spell i event updated)) (some created) none))
      → P (create_round db spell i round s)
  unfolding create_round
  create_cases round s P known failed tried =
      elim (Bool-cases (is_some (round.seen.lookups (lookup_key i)))) [
        | inl there ↦ rw (there, create_round) (known there)
        | inr fresh_one ↦
            elim (Option-cases (
              get_event round.seen (record { tenant = i.tenant; id = i.delivery.event_id })
                round.clock)) [
                  | inl e ↦ rw (fresh_one, create_round) (rw e (failed event_not_found))
                  | inr (event, e) ↦
                      elim (Result-cases
                        (recount event (count_created i.delivery.state event.outcome))) [
                          | inl (x, u) ↦
                              rw (fresh_one, create_round) (rw e (rw u (failed (domain x))))
                          | inr (updated, u) ↦
                              rw (fresh_one, create_round) (rw e (rw u (tried event updated u)))
                        ]
                ]
      ]

  committed-Created :
      (s : db.Store) (e f : CanonicalEvent)
      → recount e (count_created i.delivery.state e.outcome) ≡ ok f
      → (transact s (create_writes spell i e f)).1 ≡ committed
      → Created i (tables s) (tables (transact s (create_writes spell i e f)).0)
  committed-Created s e f u done =
      let ws = create_writes spell i e f in
      let l = db.committed_law s ws done in
      let core = create_core spell i e f (tables s) in
      let met = create_allowed spell i e f (tables s) l.0 in
      let told = recount-IsTold e (count_created i.delivery.state e.outcome) f u in
      let found = holds-matches (λ (x : CanonicalEvent). x.version == e.version) _ met.2 in
      record {
        unused = absent_none _ met.0;
        unknown = absent_none _ met.1;
        kept =
            ap (λ (t : Tables). t.deliveries (created_key i)) l.1
            ∙ ap (λ m. m (created_key i)) core.0
            ∙ rw (delivery_key_eq_refl (created_key i)) refl;
        known =
            ap (λ (t : Tables). t.lookups (lookup_key i)) l.1
            ∙ ap (λ m. m (lookup_key i)) core.1
            ∙ rw (tenant_key_eq_refl (lookup_key i)) refl;
        counted = (
          found.0,
          e,
          f,
          found.1,
          ground (arith, found.2),
          told.1,
          told.2,
          ap (λ (t : Tables). t.events (record { tenant = i.tenant; id = f.event_id })) l.1
              ∙ ap (λ m. m (record { tenant = i.tenant; id = f.event_id })) core.2
              ∙ rw (tenant_key_eq_refl (record { tenant = i.tenant; id = f.event_id })) refl,
        );
      }

  pub round-Created :
      (round : Round db) (s : db.Store)
      → (create_round db spell i round s).1 ≡ ok (some created)
      → Created i (tables s) (tables (create_round db spell i round s).0)
  round-Created round s =
      create_cases round s (λ r. r.1 ≡ ok (some created) → Created i (tables s) (tables r.0))
        (λ there g. cc) (λ f g. cc)
        (λ e f u g.
          let (done, same) =
            settle-committed (transact s (create_writes spell i e f)) (some created) none
              (some created) g (λ p. cc) in
          rw (settle-store (transact s (create_writes spell i e f)) (some created) none)
            (committed-Created s e f u done))

  writes-Evolves :
      (s : db.Store) (e f : CanonicalEvent)
      → Evolves (tables s) (tables (transact s (create_writes spell i e f)).0)
  writes-Evolves s e f =
      let ws = create_writes spell i e f in
      elim (transact_cases db s ws) [
        | inl same ↦
            Evolves-same (tables s) (tables (transact s ws).0)
              (ap (λ (t : Tables). t.deliveries) same)
        | inr (allowed, done) ↦
            put-Evolves (tables s) (tables (transact s ws).0) (created_key i) (stored i.delivery)
              (ap (λ (t : Tables). t.deliveries) done ∙ (create_core spell i e f (tables s)).0)
              (λ d at_d. absurd (
                none-some _ d (absent_none _ (create_allowed spell i e f (tables s) allowed).0)
                  at_d))
      ]

  pub create_round-Evolves :
      (round : Round db) (s : db.Store)
      → Evolves (tables s) (tables (create_round db spell i round s).0)
  create_round-Evolves round s =
      create_cases round s (λ r. Evolves (tables s) (tables r.0)) (λ there. Evolves-refl (tables s))
        (λ f. Evolves-refl (tables s))
        (λ e f u.
          rw (settle-store (transact s (create_writes spell i e f)) (some created) none)
            (writes-Evolves s e f))

  pub create_round-Told :
      (round : Round db) (s : db.Store)
      → Told (tables s)
      → Told (tables (create_round db spell i round s).0)
  create_round-Told round s p =
      create_cases round s (λ r. Told (tables r.0)) (λ there. p) (λ f. p)
        (λ e f u. rw (settle-store (transact s (create_writes spell i e f)) (some created) none) (
          transact-Told db s (create_writes spell i e f)
            (λ q.
              Told-put (tables s) (commit (tables s) (create_writes spell i e f))
                (record { tenant = i.tenant; id = f.event_id }) f
                (create_core spell i e f (tables s)).2
                (recount-IsTold e (count_created i.delivery.state e.outcome) f u).0 q)
            p))

  pub round_known :
      (n : ℕ) (round : Round db) (s : db.Store)
      → (tables s).lookups (lookup_key i) ≡ some n
      → (tables (create_round db spell i round s).0).lookups (lookup_key i) ≡ some n
  round_known n round s p =
      create_cases round s (λ r. (tables r.0).lookups (lookup_key i) ≡ some n) (λ there. p) (λ f. p)
        (λ e f u.
          rw (settle-store (transact s (create_writes spell i e f)) (some created) none)
            (elim (transact_cases db s (create_writes spell i e f)) [
              | inl same ↦ ap (λ (t : Tables). t.lookups (lookup_key i)) same ∙ p
              | inr (allowed, done) ↦ absurd (
                  none-some _ n (absent_none _ (create_allowed spell i e f (tables s) allowed).1) p)
            ]))
