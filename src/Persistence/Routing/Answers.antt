-- ===== src/Persistence/Routing/Answers.antt =====
-- What creating a delivery does, over all its rounds.
use partner_integration_reli.Prelude.{ℕ, ◌≡◌, ◌∙◌, some, ok, err, inl, inr, List}
use partner_integration_reli.Store.Database.{Database}
use partner_integration_reli.Store.Commit.{Evolves, Evolves-refl, Evolves-trans}
use partner_integration_reli.Persistence.Common.{routing_conflict}
use partner_integration_reli.Persistence.Rounds.{
  Forward, Round, retry_rounds_keep, retry_rounds_answered,
}
use partner_integration_reli.Persistence.Told.{Told}
use partner_integration_reli.Persistence.Routing.{
  CreateDelivery, created, create_round, create_delivery,
}
use partner_integration_reli.Persistence.Routing.Committed.{lookup_key}
use partner_integration_reli.Persistence.Routing.Laws.{
  Created, round-Created, create_round-Evolves, create_round-Told, round_known, none-some,
}

module _ (db : Database) (spell : ℕ → List ℕ) (i : CreateDelivery) (rounds : ℕ → Round db)
    (s : db.Store) where
  open db use {tables}

  -- Creating a delivery moves the deliveries forward, as long as other workers do.
  pub create-Evolves :
      Forward db rounds → Evolves (tables s) (tables (create_delivery db spell i rounds s).0)
  unfolding create_delivery
  create-Evolves others =
      retry_rounds_keep db (create_round db spell i) (err routing_conflict) rounds
        (λ t. Evolves (tables s) (tables t))
        (λ n t p.
          Evolves-trans (tables s) (tables t) (tables ((rounds n).interfere t)) p (others n t))
        (λ round t p.
          Evolves-trans (tables s) (tables t) (tables (create_round db spell i round t).0) p
            (create_round-Evolves db spell i round t))
        8 s (Evolves-refl (tables s))

  -- Creating a delivery keeps every stored event's status the one that its counters tell, as long
  -- as other workers do.
  pub create-Told :
      ((n : ℕ) (t : db.Store) → Told (tables t) → Told (tables ((rounds n).interfere t)))
      → Told (tables s)
      → Told (tables (create_delivery db spell i rounds s).0)
  unfolding create_delivery
  create-Told others p =
      retry_rounds_keep db (create_round db spell i) (err routing_conflict) rounds
        (λ t. Told (tables t)) others (create_round-Told db spell i) 8 s p

  -- A creation that answers `created` found, in one of its rounds, neither the delivery nor its
  -- lookup; both are stored, and the event counts the delivery, from an event that has the version
  -- of the stored one.
  pub create-Created :
      Forward db rounds
      → (create_delivery db spell i rounds s).1 ≡ ok created
      → (t : db.Store) × Evolves (tables s) (tables t)
        × Created i (tables t) (tables (create_delivery db spell i rounds s).0)
  unfolding create_delivery
  create-Created others g =
      elim (retry_rounds_answered db (create_round db spell i) (err routing_conflict) rounds
        (λ t. Evolves (tables s) (tables t))
        (λ n t p.
          Evolves-trans (tables s) (tables t) (tables ((rounds n).interfere t)) p (others n t))
        (λ round t p.
          Evolves-trans (tables s) (tables t) (tables (create_round db spell i round t).0) p
            (create_round-Evolves db spell i round t))
        created 8 s (Evolves-refl (tables s)) g) [
          | inl never ↦ cc
          | inr (m, t, p, made, same) ↦ (t, p, rw same (round-Created db spell i (rounds m) t made))
        ]

  -- A delivery whose lookup is stored, and is kept by other workers, is not created again.
  pub create_once :
      (event : ℕ)
      → (tables s).lookups (lookup_key i) ≡ some event
      → ((n : ℕ) (t : db.Store)
          → (tables ((rounds n).interfere t)).lookups (lookup_key i)
            ≡ (tables t).lookups (lookup_key i))
      → ¬ ((create_delivery db spell i rounds s).1 ≡ ok created)
  unfolding create_delivery
  create_once event at_s others g =
      elim (retry_rounds_answered db (create_round db spell i) (err routing_conflict) rounds
        (λ t. (tables t).lookups (lookup_key i) ≡ some event) (λ n t p. others n t ∙ p)
        (round_known db spell i event) created 8 s at_s g) [
          | inl never ↦ cc
          | inr (m, t, p, made, same) ↦
              none-some _ event (round-Created db spell i (rounds m) t made).unknown p
        ]
