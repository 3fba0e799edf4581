-- ===== src/RoutingService/Route/Laws.antt =====
-- Routing is a run of the workers' transactions.
use partner_integration_reli.Prelude.{
  ℕ, ◌+◌, none, some, Option, List, [], ◌∷◌, Option-cases, Result-cases, inl, inr,
}
use partner_integration_reli.Domain.Records.{CanonicalEvent}
use partner_integration_reli.Domain.Configuration.{Subscription}
use partner_integration_reli.Store.Database.{Database}
use partner_integration_reli.Persistence.Common.{get_event}
use partner_integration_reli.Persistence.Routing.{create_delivery, complete_routing}
use partner_integration_reli.Persistence.Steps.{Steps, stay}
use partner_integration_reli.Persistence.Steps.Loops.{
  Working, Steps-trans, create-Steps, complete-Steps,
}
use partner_integration_reli.Transformation.Execute.{Transformed}
use partner_integration_reli.RoutingService.Plan.{
  Origin, run_transformation, scheduled_request, failed_request,
}
use partner_integration_reli.RoutingService.Route.{
  RoutingVisit, find, create_failed, create_planned, origin_of, route_one, route_all, route,
  event_place,
}

-- The other workers of a call take steps of the relation.
record RoutesAmongWorkers (db : Database) (v : RoutingVisit db) : Type 0 where
  pub creation : (n : ℕ) → Working db v.spell (v.creation n)
  pub failure : (n : ℕ) → Working db v.spell (v.failure n)
  pub completion : Working db v.spell v.completion

module _ (db : Database) (v : RoutingVisit db) (others : RoutesAmongWorkers db v) where
  abbrev Runs : db.Store → db.Store → Type 0
  Runs s t = Steps db v.spell s t

  failed-Steps : (n : ℕ) (o : Origin) (s : db.Store) → Runs s (create_failed db v n o s).0
  unfolding create_failed
  failed-Steps n o s =
      let i = failed_request v.derivations o v.tenant_id in
      let p = create-Steps db v.spell i (v.failure n) (others.failure n) s in
      elim (Result-cases (create_delivery db v.spell i (v.failure n) s).1) [
        | inl (e, h) ↦ rw (h, create_failed) p
        | inr (c, h) ↦ rw (h, create_failed) p
      ]

  planned-Steps :
      (n : ℕ) (o : Origin) (t : Option Transformed) (s : db.Store)
      → Runs s (create_planned db v n o t s).0
  unfolding create_planned
  planned-Steps n o none s = failed-Steps n o s
  planned-Steps n o (some t) s =
      let i = scheduled_request v.derivations o v.tenant_id t in
      let r = create_delivery db v.spell i (v.creation n) s in
      let p = create-Steps db v.spell i (v.creation n) (others.creation n) s in
      elim (Result-cases r.1) [
        | inl (e, h) ↦
            rw (h, create_planned) (Steps-trans db v.spell s r.0 _ p (failed-Steps n o r.0))
        | inr (c, h) ↦ rw (h, create_planned) p
      ]

  one-Steps :
      (n : ℕ) (event : CanonicalEvent) (x : Subscription) (s : db.Store)
      → Runs s (route_one db v n event x s).0
  unfolding route_one
  one-Steps n event x s = elim (Option-cases (find db v x)) [
    | inl e ↦ rw (e, route_one) stay
    | inr (p, e) ↦ elim (Option-cases (v.derivations.url p.0.base_url p.0.path)) [
      | inl f ↦ rw (e, route_one) (rw f stay)
      | inr (url, f) ↦
          let o = origin_of db v n event p url in
          rw (e, route_one) (rw f (planned-Steps n o (run_transformation v.derivations o) s))
    ]
  ]

  all-Steps :
      (n : ℕ) (event : CanonicalEvent) (xs : List Subscription) (s : db.Store)
      → Runs s (route_all db v n event xs s).0
  unfolding route_all
  all-Steps n event [] s = stay
  all-Steps n event (x ∷ xs) s =
      let r = route_one db v n event x s in
      let p = one-Steps n event x s in
      let rest = Steps-trans db v.spell s r.0 _ p (all-Steps (n + 1) event xs r.0) in
      elim (Result-cases r.1) [
        | inl (e, h) ↦ rw (h, route_all) p
        | inr (c, h) ↦ elim (Result-cases (route_all db v (n + 1) event xs r.0).1) [
          | inl (e, f) ↦ rw (h, route_all) (rw f rest)
          | inr (d, f) ↦ rw (h, route_all) (rw f rest)
        ]
      ]

  -- A call of `route`, whatever it finds and however it ends, is a run of the workers' transactions,
  -- where the other workers of the call take such runs.
  route-Steps : (s : db.Store) → Steps db v.spell s (route db v s).0
  unfolding route
  route-Steps s = elim (Option-cases (get_event v.first.seen (event_place db v) v.first.clock)) [
    | inl e ↦ rw (e, route) stay
    | inr (event, e) ↦
        let r = route_all db v 0 event v.subscriptions s in
        let p = all-Steps 0 event v.subscriptions s in
        elim (Result-cases r.1) [
          | inl (f, h) ↦ rw (e, route) (rw h p)
          | inr (count, h) ↦
              let q =
                complete-Steps db v.spell (event_place db v) v.completion others.completion r.0 in
              let both = Steps-trans db v.spell s r.0 _ p q in
              elim (Result-cases (complete_routing db (event_place db v) v.completion r.0).1) [
                | inl (f, g) ↦ rw (e, route) (rw h (rw g both))
                | inr (u, g) ↦ rw (e, route) (rw h (rw g both))
              ]
        ]
  ]
