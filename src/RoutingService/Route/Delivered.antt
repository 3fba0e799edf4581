-- ===== src/RoutingService/Route/Delivered.antt =====
-- `RoutingService.route` of packages/application/src/index.ts creates every delivery that is wanted,
-- and completes the routing after them.
use partner_integration_reli.Prelude.{
  ℕ, ◌+◌, ◌≡◌, ◌∙◌, refl, subst, true, none, some, is_some, Option, List, [], ◌∷◌, ◌⊎◌, inl, inr,
  Option-cases, Result-cases, ok,
}
use partner_integration_reli.Domain.Records.{CanonicalEvent}
use partner_integration_reli.Domain.Configuration.{Subscription, Destination, TransformationVersion}
use partner_integration_reli.Store.Keys.{TenantKey}
use partner_integration_reli.Store.Tables.{Tables}
use partner_integration_reli.Store.Database.{Database}
use partner_integration_reli.Persistence.Common.{get_event}
use partner_integration_reli.Persistence.Routing.{create_delivery, complete_routing}
use partner_integration_reli.Persistence.Routing.Lookups.{create-Answered}
use partner_integration_reli.Transformation.Execute.{Transformed}
use partner_integration_reli.RoutingService.Plan.{
  run_transformation, scheduled_request, failed_request,
}
use partner_integration_reli.RoutingService.Route.{
  RoutingVisit, create_failed, create_planned, origin_of, route_one, route_all, route, event_place,
}
use partner_integration_reli.RoutingService.Route.Wanted.{IsWanted, IsWanted-find}
use partner_integration_reli.RoutingService.Route.Targeted.{
  IsTargeted, here, there, target, IsLeftAlone, Change, all-Change,
}

module _ (db : Database) (v : RoutingVisit db) where
  open db use {tables}

  module _ (event : CanonicalEvent) (k : TenantKey) (others : IsLeftAlone db v k) where
    -- One of the rounds of a call read the lookup as stored.
    pub data WasRead : Type 0 where
      in_creation : (n m : ℕ) → is_some ((v.creation n m).seen.lookups k) ≡ true → WasRead
      in_failure : (n m : ℕ) → is_some ((v.failure n m).seen.lookups k) ≡ true → WasRead

    abbrev Delivered : db.Store → Type 0
    Delivered t = ((tables t).lookups k ≡ some event.event_id) ⊎ WasRead

    Delivered-Change :
        (G : Type 0) (s t : db.Store) → Change db v event k others G s t → Delivered s → Delivered t
    Delivered-Change G s t c (inr read) = inr read
    Delivered-Change G s t (inl kept) (inl named) = inl (kept ∙ named)
    Delivered-Change G s t (inr (right, now)) (inl named) = inl now

    -- What `create-Answered` says of a lookup, of the key that it is.
    at_key :
        (j : TenantKey) (t : db.Store) (seen : ℕ → Tables)
        → j ≡ k
        → ((tables t).lookups j ≡ some event.event_id)
          ⊎ ((m : ℕ) × (is_some ((seen m).lookups j) ≡ true))
        → ((m : ℕ) → is_some ((seen m).lookups k) ≡ true → WasRead)
        → Delivered t
    at_key j t seen own (inl now) read =
        inl (subst (λ i. (tables t).lookups i ≡ some event.event_id) own now)
    at_key j t seen own (inr (m, before)) read =
        inr (read m (subst (λ i. is_some ((seen m).lookups i) ≡ true) own before))

    failed-Delivered :
        (n : ℕ) (d : Destination) (t : TransformationVersion) (url : ℕ) (s : db.Store) (a : ℕ)
        → target db v event d ≡ k
        → (create_failed db v n (origin_of db v n event (d, t) url) s).1 ≡ ok a
        → Delivered (create_failed db v n (origin_of db v n event (d, t) url) s).0
    unfolding create_failed failed_request
    failed-Delivered n d t url s a own g =
        let i = failed_request v.derivations (origin_of db v n event (d, t) url) v.tenant_id in
        elim (Result-cases (create_delivery db v.spell i (v.failure n) s).1) [
          | inl (e, h) ↦ let g' = rw (h, create_failed) at g in cc
          | inr (c, h) ↦
              rw (h, create_failed)
                (at_key (target db v event d) _ (λ m. (v.failure n m).seen) own
                  (create-Answered db v.spell i (target db v event d) (v.failure n) s c h)
                  (λ m read. in_failure n m read))
        ]

    planned-Delivered :
        (n : ℕ) (d : Destination) (t : TransformationVersion) (url : ℕ) (r : Option Transformed)
        (s : db.Store) (a : ℕ)
        → target db v event d ≡ k
        → (create_planned db v n (origin_of db v n event (d, t) url) r s).1 ≡ ok a
        → Delivered (create_planned db v n (origin_of db v n event (d, t) url) r s).0
    unfolding create_planned scheduled_request
    planned-Delivered n d t url none s a own g = failed-Delivered n d t url s a own g
    planned-Delivered n d t url (some r) s a own g =
        let i = scheduled_request v.derivations (origin_of db v n event (d, t) url) v.tenant_id r in
        let c = create_delivery db v.spell i (v.creation n) s in
        elim (Result-cases c.1) [
          | inl (e, h) ↦
              rw (h, create_planned)
                (failed-Delivered n d t url c.0 a own (rw (h, create_planned) at g))
          | inr (b, h) ↦
              rw (h, create_planned)
                (at_key (target db v event d) _ (λ m. (v.creation n m).seen) own
                  (create-Answered db v.spell i (target db v event d) (v.creation n) s b h)
                  (λ m read. in_creation n m read))
        ]

    one-Delivered :
        (n : ℕ) (x : Subscription) (d : Destination) (t : TransformationVersion) (s : db.Store)
        (a : ℕ)
        → IsWanted db v x d t
        → target db v event d ≡ k
        → (route_one db v n event x s).1 ≡ ok a
        → Delivered (route_one db v n event x s).0
    unfolding route_one
    one-Delivered n x d t s a w own g =
        let e = IsWanted-find db v x d t w in
        elim (Option-cases (v.derivations.url d.base_url d.path)) [
          | inl f ↦ let g' = rw f at (rw (e, route_one) at g) in cc
          | inr (url, f) ↦
              let r = run_transformation v.derivations (origin_of db v n event (d, t) url) in
              rw (e, route_one)
                (rw f (planned-Delivered n d t url r s a own (rw f at (rw (e, route_one) at g))))
        ]

    all-Delivered :
        (n : ℕ) (xs : List Subscription) (s : db.Store) (a : ℕ)
        → IsTargeted db v event k xs
        → (route_all db v n event xs s).1 ≡ ok a
        → Delivered (route_all db v n event xs s).0
    unfolding route_all
    all-Delivered n [] s a target_k g = elim target_k [ ]
    all-Delivered n (x ∷ xs) s a target_k g =
        let r = route_one db v n event x s in
        elim (Result-cases r.1) [
          | inl (e, h) ↦ let g' = rw (h, route_all) at g in cc
          | inr (c, h) ↦ elim (Result-cases (route_all db v (n + 1) event xs r.0).1) [
            | inl (e, f) ↦ let g' = rw f at (rw (h, route_all) at g) in cc
            | inr (m, f) ↦
                rw (h, route_all)
                  (rw f (elim target_k [
                    | here {d} {t} w own ↦
                        Delivered-Change (IsTargeted db v event k xs) r.0 _
                          (all-Change db v event k others (n + 1) xs r.0)
                          (one-Delivered n x d t s c w own h)
                    | there later ↦ all-Delivered (n + 1) xs r.0 m later f
                  ]))
          ]
        ]

    -- A call of `route` that reads its event and returns has begun its completion of the routing on a store in which
    -- the lookup of every delivery that is wanted is stored, or was read as stored in a round of the
    -- call; and the completion has returned, as long as other workers leave the lookup as it is.
    pub route-Delivered :
        (s : db.Store) (count : ℕ)
        → get_event v.first.seen (event_place db v) v.first.clock ≡ some event
        → IsTargeted db v event k v.subscriptions
        → (route db v s).1 ≡ ok count
        → (t : db.Store) × (((tables t).lookups k ≡ some event.event_id) ⊎ WasRead)
          × (complete_routing db (event_place db v) v.completion t ≡ ((route db v s).0, ok tt))
    unfolding route
    route-Delivered s count e target_k g =
        let r = route_all db v 0 event v.subscriptions s in
        elim (Result-cases r.1) [
          | inl (f, h) ↦ let g' = rw h at (rw (e, route) at g) in cc
          | inr (c, h) ↦
              let done = complete_routing db (event_place db v) v.completion r.0 in
              elim (Result-cases done.1) [
                | inl (f, i) ↦ let g' = rw i at (rw h at (rw (e, route) at g)) in cc
                | inr (u, i) ↦ (
                  r.0,
                  all-Delivered 0 v.subscriptions s c target_k h,
                  rw (e, route) (rw h (rw i refl)),
                )
              ]
        ]
