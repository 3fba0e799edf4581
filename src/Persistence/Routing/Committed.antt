-- ===== src/Persistence/Routing/Committed.antt =====
-- The tables after a committed creation and a committed completion.
use partner_integration_reli.Prelude.{
  ℕ, ◌≡◌, refl, ap, ◌∙◌, Bool, true, ◌&&◌, ◌==◌, Option, none, some, List, [], ◌∷◌, ◌++◌, arith,
}
use partner_integration_reli.Domain.Types.{DeliveryExecution}
use partner_integration_reli.Domain.Records.{CanonicalEvent, OutboxRecord}
use partner_integration_reli.Store.Condition.{put, holds, absent, matches}
use partner_integration_reli.Store.Keys.{TenantKey, tenant_key_eq, delivery_key_eq}
use partner_integration_reli.Store.Tables.{
  Tables, Write, put_delivery, put_lookup, put_history, write, commit, allow, allows,
}
use partner_integration_reli.Store.Core.{
  all_side, all_side-append, commit-side, commit-append, allow-append,
}
use partner_integration_reli.Persistence.Common.{stored, stored_event, new_index, outbox_put}
use partner_integration_reli.Persistence.Finalize.{outbox_writes}
use partner_integration_reli.Persistence.Routing.{
  CreateDelivery, created_key, created_rollups, created_side, create_writes, event_put,
  status_writes,
}

new_index-side : (d : DeliveryExecution) → all_side (new_index d) ≡ true
unfolding new_index
new_index-side d = ground arith

pub status_writes-side : (n : ℕ) (e f : CanonicalEvent) → all_side (status_writes n e f) ≡ true
unfolding status_writes
status_writes-side n e f = ground arith

outbox-side : (o : Option OutboxRecord) → all_side (outbox_writes o) ≡ true
unfolding outbox_writes outbox_put
outbox-side none = refl
outbox-side (some o) = refl

rollups-side : (spell : ℕ → List ℕ) (i : CreateDelivery) → all_side (created_rollups spell i) ≡ true
unfolding created_rollups
rollups-side spell i = ground arith

pub created_side-side :
    (spell : ℕ → List ℕ) (i : CreateDelivery) (e f : CanonicalEvent)
    → all_side (created_side spell i e f) ≡ true
unfolding created_side
created_side-side spell i e f =
    all_side-append (status_writes i.tenant e f) (outbox_writes i.outbox ++ created_rollups spell i)
      (status_writes-side i.tenant e f)
      (all_side-append (outbox_writes i.outbox) (created_rollups spell i) (outbox-side i.outbox)
        (rollups-side spell i))

abbrev pub lookup_key : CreateDelivery → TenantKey
lookup_key i = record { tenant = i.tenant; id = i.delivery.delivery_id }

module _ (spell : ℕ → List ℕ) (i : CreateDelivery) (e f : CanonicalEvent) where
  abbrev event_k : TenantKey
  event_k = record { tenant = i.tenant; id = f.event_id }

  abbrev created_index : List Write
  created_index =
      put_history absent
        (record {
          delivery = record (created_key i) { delivery = i.history.delivery_id };
          occurred_at = i.history.occurred_at;
          history_id = i.history.history_id;
        })
        i.history
      ∷ new_index i.delivery

  abbrev two_created : Tables → Tables
  two_created t = commit t (
      put_delivery absent (created_key i) (stored i.delivery)
      ∷ put_lookup absent (lookup_key i) i.delivery.event_id
      ∷ [])

  create_groups :
      (t : Tables)
      → commit t (create_writes spell i e f)
        ≡ commit
            (write (commit (two_created t) created_index) (event_put event_k e f))
            (created_side spell i e f)
  unfolding create_writes commit
  create_groups t =
      commit-append (two_created t) created_index (event_put event_k e f ∷ created_side spell i e f)

  two_created_core :
      (t : Tables)
      → ((two_created t).deliveries
          ≡ put delivery_key_eq (created_key i) (stored i.delivery) t.deliveries)
        × ((two_created t).lookups ≡ put tenant_key_eq (lookup_key i) i.delivery.event_id t.lookups)
        × ((two_created t).events ≡ t.events)
  unfolding commit write
  two_created_core t = (refl, refl, refl)

  event_write_core :
      (t : Tables)
      → ((write t (event_put event_k e f)).deliveries ≡ t.deliveries)
        × ((write t (event_put event_k e f)).lookups ≡ t.lookups)
        × ((write t (event_put event_k e f)).events
            ≡ put tenant_key_eq event_k (stored_event f) t.events)
  unfolding write
  event_write_core t = (refl, refl, refl)

  -- A committed creation stores the delivery, its lookup and its event, and of those tables nothing
  -- else.
  pub create_core :
      (t : Tables)
      → ((commit t (create_writes spell i e f)).deliveries
          ≡ put delivery_key_eq (created_key i) (stored i.delivery) t.deliveries)
        × ((commit t (create_writes spell i e f)).lookups
            ≡ put tenant_key_eq (lookup_key i) i.delivery.event_id t.lookups)
        × ((commit t (create_writes spell i e f)).events
            ≡ put tenant_key_eq event_k (stored_event f) t.events)
  create_core t =
      let u = commit (two_created t) created_index in
      let v = write u (event_put event_k e f) in
      let a = commit-side (two_created t) created_index (new_index-side i.delivery) in
      let b = commit-side v (created_side spell i e f) (created_side-side spell i e f) in
      let two = two_created_core t in
      let ev = event_write_core u in
      let g = create_groups t in
      (
        ap (λ (w : Tables). w.deliveries) g ∙ b.deliveries ∙ ev.0 ∙ a.deliveries ∙ two.0,
        ap (λ (w : Tables). w.lookups) g ∙ b.lookups ∙ ev.1 ∙ a.lookups ∙ two.1,
        ap (λ (w : Tables). w.events) g
            ∙ b.events
            ∙ ev.2
            ∙ ap (λ m. put tenant_key_eq event_k (stored_event f) m) (a.events ∙ two.2),
      )

  pub create_allowed :
      (t : Tables)
      → allow t (create_writes spell i e f) ≡ true
      → (holds absent (t.deliveries (created_key i)) ≡ true)
        × (holds absent (t.lookups (lookup_key i)) ≡ true)
        × (holds (matches (λ (x : CanonicalEvent). x.version == e.version)) (t.events event_k)
            ≡ true)
  unfolding create_writes allow allows
  create_allowed t h =
      let h2 : allow t (created_index ++ (event_put event_k e f ∷ created_side spell i e f))
          ≡ true =
        ground arith in
      let r = allow-append t created_index (event_put event_k e f ∷ created_side spell i e f) h2 in
      (ground arith, ground arith, and_first _ _ r.1)
    where
      and_first : (x y : Bool) → (x && y) ≡ true → x ≡ true
      and_first x y p = ground arith
