-- ===== src/RoutingService/Route.antt =====
-- `RoutingService.route` of packages/application/src/index.ts: the loop over the subscriptions, and
-- the completion of the routing.
pub mod Laws
pub mod Wanted
pub mod Targeted
pub mod Delivered
use partner_integration_reli.Prelude.{
  ℕ, ◌+◌, Bool, true, false, not, Option, none, some, List, [], ◌∷◌, if◌then◌else◌, Result, ok, err,
}
use partner_integration_reli.Domain.Records.{CanonicalEvent}
use partner_integration_reli.Domain.Configuration.{
  Destination, Partner, TransformationVersion, Subscription,
}
use partner_integration_reli.Store.Keys.{TenantKey}
use partner_integration_reli.Store.Database.{Database}
use partner_integration_reli.Persistence.Common.{Fault, malformed_url, get_event}
use partner_integration_reli.Persistence.Rounds.{Round}
use partner_integration_reli.Persistence.Routing.{
  Creation, created, duplicate, create_delivery, complete_routing,
}
use partner_integration_reli.Transformation.Execute.{Transformed}
use partner_integration_reli.RoutingService.Plan.{
  Derivations, Draft, Origin, run_transformation, scheduled_request, failed_request,
}

-- What a call is given and meets. The turns of the loop are counted down, as the rounds are.
pub record RoutingVisit (db : Database) : Type 0 where
  pub tenant_id : ℕ
  pub event_id : ℕ
  pub derivations : Derivations
  pub spell : ℕ → List ℕ
  pub first : Round db
  pub subscriptions : List Subscription
  pub destination : ℕ → Option Destination
  pub partner : ℕ → Option Partner
  pub transformation : ℕ → ℕ → Option TransformationVersion
  pub drafts : ℕ → Draft
  pub creation : ℕ → ℕ → Round db
  pub failure : ℕ → ℕ → Round db
  pub completion : ℕ → Round db

module _ (db : Database) (v : RoutingVisit db) where
  -- What the chain of reads finds for a subscription, if nothing of it is missing or disabled.
  enabled_destination : Subscription → Option Destination
  enabled_destination s = elim (v.destination s.destination_id) [
    | none ↦ none
    | some d ↦ if d.enabled then some d else none
  ]

  has_enabled_partner : Destination → Bool
  has_enabled_partner d = elim (v.partner d.partner_id) [ none ↦ false | some p ↦ p.enabled ]

  unfoldable pub find : Subscription → Option (Destination × TransformationVersion)
  unfolding enabled_destination has_enabled_partner
  find s = if not s.enabled then none else elim (enabled_destination s) [
    | none ↦ none
    | some d ↦
        if not (has_enabled_partner d)
        then none
        else elim (v.transformation d.transformation_id d.active_transformation_version) [
          | none ↦ none
          | some t ↦ some (d, t)
        ]
  ]

  abbrev count_creation : Creation → ℕ
  count_creation created = 1
  count_creation duplicate = 0

  -- The `catch`: whatever was thrown, a delivery that failed is created.
  unfoldable pub create_failed : ℕ → Origin → db.Store → db.Store × Result Fault ℕ
  unfolding failed_request
  create_failed n o s =
      let (s', r) =
        create_delivery db v.spell (failed_request v.derivations o v.tenant_id) (v.failure n) s in
      elim r [ err e ↦ (s', err e) | ok c ↦ (s', ok 0) ]

  -- The `try`, of the transformation and of the creation.
  unfoldable pub create_planned :
      ℕ → Origin → Option Transformed → db.Store → db.Store × Result Fault ℕ
  unfolding create_failed scheduled_request
  create_planned n o none s = create_failed n o s
  create_planned n o (some t) s =
      let (s', r) =
        create_delivery db v.spell (scheduled_request v.derivations o v.tenant_id t) (v.creation n)
          s in
      elim r [ err e ↦ create_failed n o s' | ok c ↦ (s', ok (count_creation c)) ]

  abbrev pub origin_of : ℕ → CanonicalEvent → Destination × TransformationVersion → ℕ → Origin
  origin_of n event (d, t) url = record {
    event = event;
    destination = d;
    transformation = t;
    url = url;
    draft = v.drafts n;
  }

  -- One turn; the number of deliveries it created.
  unfoldable pub route_one :
      ℕ → CanonicalEvent → Subscription → db.Store → db.Store × Result Fault ℕ
  unfolding find create_planned run_transformation
  route_one n event subscription s = elim (find subscription) [
    | none ↦ (s, ok 0)
    | some (d, t) ↦ elim (v.derivations.url d.base_url d.path) [
      | none ↦ (s, err malformed_url)
      | some url ↦
          let o = origin_of n event (d, t) url in
          create_planned n o (run_transformation v.derivations o) s
    ]
  ]

  unfoldable pub route_all :
      ℕ → CanonicalEvent → List Subscription → db.Store → db.Store × Result Fault ℕ
  unfolding route_one
  route_all n event [] s = (s, ok 0)
  route_all n event (subscription ∷ subscriptions) s =
      let (s', r) = route_one n event subscription s in
      let (s'', rest) = route_all (n + 1) event subscriptions s' in
      elim r [
        | err e ↦ (s', err e)
        | ok one ↦ elim rest [ err e ↦ (s'', err e) | ok others ↦ (s'', ok (one + others)) ]
      ]

  abbrev pub event_place : TenantKey
  event_place = record { tenant = v.tenant_id; id = v.event_id }

  -- The number of deliveries that the call created, which the code reports to the telemetry.
  unfoldable pub route : db.Store → db.Store × Result Fault ℕ
  unfolding route_all
  route s = elim (get_event v.first.seen event_place v.first.clock) [
    | none ↦ (s, ok 0)
    | some event ↦
        let (s', r) = route_all 0 event v.subscriptions s in
        elim r [
          | err e ↦ (s', err e)
          | ok count ↦
              let (s'', done) = complete_routing db event_place v.completion s' in
              elim done [ err e ↦ (s'', err e) | ok u ↦ (s'', ok count) ]
        ]
  ]
