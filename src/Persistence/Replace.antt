-- ===== src/Persistence/Replace.antt =====
-- `replaceIfVersion` of packages/persistence/src/index.ts.
use partner_integration_reli.Prelude.{
  ℕ, ◌≡◌, ◌<◌, refl, Bool, true, false, ◌==◌, none, some, Result, ok, arith, inl, inr, List, [],
  ◌∷◌, Option-cases,
}
use partner_integration_reli.Domain.Types.{DeliveryExecution}
use partner_integration_reli.Store.Condition.{matches}
use partner_integration_reli.Store.Tables.{Tables, Write, put_delivery, commit, write}
use partner_integration_reli.Store.Database.{Database}
use partner_integration_reli.Store.Commit.{Evolves, Evolves-refl, advance-Evolves}
use partner_integration_reli.Persistence.Common.{Fault, stored, settle, settle-store}
use partner_integration_reli.Persistence.Told.{Told, transact-Told}

pub record ReplaceDelivery : Type 0 where
  pub tenant : ℕ
  pub delivery : DeliveryExecution
  pub expected_version : ℕ

unfoldable pub replace_writes : ReplaceDelivery → ℕ → List Write
replace_writes i event =
    put_delivery (matches (λ d. d.version == i.expected_version))
      (record { tenant = i.tenant; event = event; delivery = i.delivery.delivery_id })
      (stored i.delivery)
    ∷ []

-- The event is the one that the lookup names.
unfoldable pub replace_if_version :
    (db : Database) → ReplaceDelivery → Tables → db.Store → db.Store × Result Fault Bool
unfolding replace_writes
replace_if_version db i seen s =
    elim (seen.lookups (record { tenant = i.tenant; id = i.delivery.delivery_id })) [
      | none ↦ (s, ok false)
      | some event ↦ settle (db.transact s (replace_writes i event)) true false
    ]

expected_only : (v : ℕ) (d : DeliveryExecution) → (d.version == v) ≡ true → d.version ≡ v
expected_only v d h = ground arith

module _ (db : Database) (i : ReplaceDelivery) (seen : Tables) (s : db.Store) where
  open db use {tables, transact}

  -- A replacement whose delivery is newer than the version it expects moves the deliveries forward.
  pub replace-Evolves :
      i.expected_version < i.delivery.version
      → Evolves (tables s) (tables (replace_if_version db i seen s).0)
  unfolding replace_if_version replace_writes
  replace-Evolves newer =
      elim (Option-cases
        (seen.lookups (record { tenant = i.tenant; id = i.delivery.delivery_id }))) [
          | inl e ↦ rw (e, replace_if_version) (Evolves-refl (tables s))
          | inr (event, e) ↦
              rw (e, replace_if_version)
                (rw (settle-store (transact s (replace_writes i event)) true false) (
                  advance-Evolves db s (matches (λ d. d.version == i.expected_version))
                    (record { tenant = i.tenant; event = event; delivery = i.delivery.delivery_id })
                    (stored i.delivery) [] refl
                    (λ d g. omega (arith, expected_only i.expected_version d g, newer))))
        ]

  pub replace-Told : Told (tables s) → Told (tables (replace_if_version db i seen s).0)
  unfolding replace_if_version replace_writes commit write
  replace-Told p =
      elim (Option-cases
        (seen.lookups (record { tenant = i.tenant; id = i.delivery.delivery_id }))) [
          | inl e ↦ rw (e, replace_if_version) p
          | inr (event, e) ↦
              rw (e, replace_if_version)
                (rw (settle-store (transact s (replace_writes i event)) true false)
                  (transact-Told db s (replace_writes i event) (λ q. q) p))
        ]
