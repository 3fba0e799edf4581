-- ===== src/RoutingService/Route/Targeted.antt =====
-- `RoutingService.route` of packages/application/src/index.ts creates no delivery but those that are
-- wanted.
use partner_integration_reli.Prelude.{
  ℕ, ◌+◌, ◌≡◌, ◌∙◌, refl, none, some, Option, List, [], ◌∷◌, ◌⊎◌, inl, inr, Option-cases,
  Result-cases,
}
use partner_integration_reli.Domain.Records.{CanonicalEvent}
use partner_integration_reli.Domain.Configuration.{Subscription, Destination, TransformationVersion}
use partner_integration_reli.Store.Keys.{TenantKey}
use partner_integration_reli.Store.Database.{Database}
use partner_integration_reli.Persistence.Common.{get_event}
use partner_integration_reli.Persistence.Routing.{create_delivery, complete_routing}
use partner_integration_reli.Persistence.Routing.Lookups.{
  LeavesLookup, create-WroteAtMost, complete-lookup,
}
use partner_integration_reli.Transformation.Execute.{Transformed}
use partner_integration_reli.RoutingService.Plan.{
  run_transformation, scheduled_request, failed_request,
}
use partner_integration_reli.RoutingService.Route.{
  RoutingVisit, find, create_failed, create_planned, origin_of, route_one, route_all, route,
  event_place,
}
use partner_integration_reli.RoutingService.Route.Wanted.{IsWanted, find-IsWanted}

module _ (db : Database) (v : RoutingVisit db) where
  open db use {tables}

  -- The lookup of the delivery of an event for a destination.
  abbrev pub target : CanonicalEvent → Destination → TenantKey
  target event d = record {
    tenant = v.tenant_id;
    id = v.derivations.delivery_id event.tenant_id event.event_id d.destination_id;
  }

  -- One of the subscriptions wants the event for a destination whose lookup is the key.
  pub data IsTargeted (event : CanonicalEvent) (k : TenantKey) : List Subscription → Type 0 where
    here :
        {x : Subscription} {xs : List Subscription} {d : Destination} {t : TransformationVersion}
        → IsWanted db v x d t
        → target event d ≡ k
        → IsTargeted event k (x ∷ xs)
    there :
        {x : Subscription} {xs : List Subscription}
        → IsTargeted event k xs
        → IsTargeted event k (x ∷ xs)

  -- Other workers leave the lookup as it is, in all the rounds of a call.
  pub record IsLeftAlone (k : TenantKey) : Type 0 where
    pub creation : (n : ℕ) → LeavesLookup db k (v.creation n)
    pub failure : (n : ℕ) → LeavesLookup db k (v.failure n)
    pub completion : LeavesLookup db k v.completion

  module _ (event : CanonicalEvent) (k : TenantKey) (others : IsLeftAlone k) where
    -- The lookup is as it was, or names the event by right.
    abbrev pub Change : Type 0 → db.Store → db.Store → Type 0
    Change G s t =
        ((tables t).lookups k ≡ (tables s).lookups k)
        ⊎ (G × ((tables t).lookups k ≡ some event.event_id))

    Change-trans : (G : Type 0) (s t u : db.Store) → Change G s t → Change G t u → Change G s u
    Change-trans G s t u p (inr named) = inr named
    Change-trans G s t u (inl kept) (inl same) = inl (same ∙ kept)
    Change-trans G s t u (inr (right, named)) (inl same) = inr (right, same ∙ named)

    Change-map : (G H : Type 0) (s t : db.Store) → (G → H) → Change G s t → Change H s t
    Change-map G H s t f (inl kept) = inl kept
    Change-map G H s t f (inr (right, named)) = inr (f right, named)

    failed-Change :
        (n : ℕ) (d : Destination) (t : TransformationVersion) (url : ℕ) (s : db.Store)
        → Change
            (target event d ≡ k)
            s
            (create_failed db v n (origin_of db v n event (d, t) url) s).0
    unfolding create_failed failed_request
    failed-Change n d t url s =
        let i = failed_request v.derivations (origin_of db v n event (d, t) url) v.tenant_id in
        let p = create-WroteAtMost db v.spell i k (v.failure n) s (others.failure n) in
        elim (Result-cases (create_delivery db v.spell i (v.failure n) s).1) [
          | inl (e, h) ↦ rw (h, create_failed) p
          | inr (c, h) ↦ rw (h, create_failed) p
        ]

    planned-Change :
        (n : ℕ) (d : Destination) (t : TransformationVersion) (url : ℕ) (r : Option Transformed)
        (s : db.Store)
        → Change
            (target event d ≡ k)
            s
            (create_planned db v n (origin_of db v n event (d, t) url) r s).0
    unfolding create_planned scheduled_request
    planned-Change n d t url none s = failed-Change n d t url s
    planned-Change n d t url (some r) s =
        let i = scheduled_request v.derivations (origin_of db v n event (d, t) url) v.tenant_id r in
        let c = create_delivery db v.spell i (v.creation n) s in
        let p = create-WroteAtMost db v.spell i k (v.creation n) s (others.creation n) in
        elim (Result-cases c.1) [
          | inl (e, h) ↦
              rw (h, create_planned)
                (Change-trans (target event d ≡ k) s c.0 _ p (failed-Change n d t url c.0))
          | inr (a, h) ↦ rw (h, create_planned) p
        ]

    one-Change :
        (n : ℕ) (x : Subscription) (xs : List Subscription) (s : db.Store)
        → Change (IsTargeted event k (x ∷ xs)) s (route_one db v n event x s).0
    unfolding route_one
    one-Change n x xs s = elim (Option-cases (find db v x)) [
      | inl e ↦ rw (e, route_one) (inl refl)
      | inr ((d, t), e) ↦ elim (Option-cases (v.derivations.url d.base_url d.path)) [
        | inl f ↦ rw (e, route_one) (rw f (inl refl))
        | inr (url, f) ↦
            let r = run_transformation v.derivations (origin_of db v n event (d, t) url) in
            rw (e, route_one)
              (rw f (
                Change-map _ _ s _ (λ own. here (find-IsWanted db v x d t e) own)
                  (planned-Change n d t url r s)))
      ]
    ]

    pub all-Change :
        (n : ℕ) (xs : List Subscription) (s : db.Store)
        → Change (IsTargeted event k xs) s (route_all db v n event xs s).0
    unfolding route_all
    all-Change n [] s = inl refl
    all-Change n (x ∷ xs) s =
        let r = route_one db v n event x s in
        let p = one-Change n x xs s in
        let q =
          Change-map _ (IsTargeted event k (x ∷ xs)) r.0 _ (λ g. there g)
            (all-Change (n + 1) xs r.0) in
        elim (Result-cases r.1) [
          | inl (e, h) ↦ rw (h, route_all) p
          | inr (c, h) ↦ elim (Result-cases (route_all db v (n + 1) event xs r.0).1) [
            | inl (e, f) ↦ rw (h, route_all) (rw f (Change-trans _ s r.0 _ p q))
            | inr (m, f) ↦ rw (h, route_all) (rw f (Change-trans _ s r.0 _ p q))
          ]
        ]

    -- A call of `route` leaves the lookup of a delivery as it was, or stores the one of the event
    -- for a subscription that wants it: enabled, to a destination that is enabled, of a partner
    -- that is enabled, with a transformation that is there; whatever event the call reads and however
    -- it ends, as long as
    -- other workers leave the lookup as it is.
    pub route-IsTargeted :
        (s : db.Store)
        → get_event v.first.seen (event_place db v) v.first.clock ≡ some event
        → ((tables (route db v s).0).lookups k ≡ (tables s).lookups k)
          ⊎ (IsTargeted event k v.subscriptions
              × ((tables (route db v s).0).lookups k ≡ some event.event_id))
    unfolding route
    route-IsTargeted s e =
        let r = route_all db v 0 event v.subscriptions s in
        let p = all-Change 0 v.subscriptions s in
        let same = complete-lookup db (event_place db v) k v.completion r.0 others.completion in
        elim (Result-cases r.1) [
          | inl (f, h) ↦ rw (e, route) (rw h p)
          | inr (count, h) ↦
              elim (Result-cases (complete_routing db (event_place db v) v.completion r.0).1) [
                | inl (f, g) ↦ rw (e, route) (rw h (rw g (rw same p)))
                | inr (u, g) ↦ rw (e, route) (rw h (rw g (rw same p)))
              ]
        ]
