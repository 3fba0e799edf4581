-- ===== src/Tests/Transformations.antt =====
-- Transformations of a payload, and the routing that runs them.
use Prim.Native.String.{String, len}
use text.Mathlib.TextEquality.{eq_iff}
use partner_integration_reli.Prelude.{
  ℕ, ◌+◌, ◌≡◌, ◌≤◌, refl, true, false, none, some, ok, List, [], ◌∷◌, All, arith, ◌⊎◌,
}
use partner_integration_reli.Json.{
  Json, string, object, Fields, field, empty, empty_object, property, assign,
}
use partner_integration_reli.Json.Path.{split_dots, drop_two, unsnoc, add_head}
use partner_integration_reli.Domain.Transition.Outcome.{IsSettled}
use partner_integration_reli.Domain.Configuration.{Partner, TransformationVersion}
use partner_integration_reli.Store.Keys.{TenantKey}
use partner_integration_reli.Store.Tables.{Tables}
use partner_integration_reli.Persistence.Common.{get_event}
use partner_integration_reli.Store.Database.{memory}
use partner_integration_reli.Persistence.Rounds.{Round}
use partner_integration_reli.Transformation.Definition.{
  Mapping, direct, concat, uppercase, Operand, all_paths, is_json_path, unique_targets,
  overlaps_any, overlaps,
}
use partner_integration_reli.Transformation.Path.{
  path_segments, read_segments, read_path, container, write_parts, write_path,
}
use partner_integration_reli.Transformation.Path.Laws.{write_path-read}
use partner_integration_reli.Transformation.Stable.{
  stable, join_entries, sort_entries, insert_sorted,
}
use partner_integration_reli.Transformation.Stable.Laws.{swap, stable-Reordered}
use partner_integration_reli.Transformation.Text.{
  upper_snake, break_words, join_words, trim_left, trim_right, upper_text,
}
use partner_integration_reli.Transformation.Execute.{
  Runtime, Transformed, execute_transformation, apply_mappings, apply_mapping, mapped_value,
  operand, operands, present, strings, primitive_string, join, transform_value, transform_text,
}
use partner_integration_reli.Transformation.Execute.Laws.{Delivered}
use partner_integration_reli.Transformation.Execute.Accepted.{transformation-Delivered}
use partner_integration_reli.RoutingService.Plan.{
  Derivations, Draft, Origin, scheduled_delivery, failed_delivery,
}
use partner_integration_reli.RoutingService.Plan.Laws.{planned-IsSettled}
use partner_integration_reli.RoutingService.Route.{RoutingVisit, route}
use partner_integration_reli.RoutingService.Route.Targeted.{
  target, IsTargeted, here, IsLeftAlone, route-IsTargeted,
}
use partner_integration_reli.RoutingService.Route.Delivered.{WasRead, route-Delivered}
use partner_integration_reli.Persistence.Routing.{
  create_delivery, create_round, count_created, complete_round, complete_routing, completion_writes,
  create_writes, created_rollups, created_side, status_writes,
}
use partner_integration_reli.Persistence.Rounds.{retry_rounds}
use partner_integration_reli.Persistence.Finalize.{recount, outbox_writes, updates_original_event}
use partner_integration_reli.Domain.Status.{derive_event_status}
use partner_integration_reli.Domain.Transition.{is_terminal_delivery_state}
use partner_integration_reli.Store.Database.{memory_transact}
use partner_integration_reli.Store.Tables.{allow, allows, commit, epoch_seconds, write, is_expired}
use partner_integration_reli.Persistence.Common.{new_index, outbox_put}
use partner_integration_reli.Persistence.Rollups.{hash_from, stable_shard}
use partner_integration_reli.RoutingService.Plan.{run_transformation, scheduled_request, snapshot}
use partner_integration_reli.RoutingService.Route.{
  route_one, route_all, find, create_planned, create_failed,
}
use partner_integration_reli.Tests.Attempts.{spell, event}
use partner_integration_reli.Tests.Deliveries.{destination, tables}

snakes :
    (upper_snake "shipmentDelayed now!" ≡ "SHIPMENT_DELAYED_NOW") × (upper_snake "--a1B" ≡ "A1_B")
unfolding upper_snake break_words join_words trim_left trim_right upper_text
snakes = (refl, refl)

abbrev nested : Fields
nested = field "a" (object (field "b" (string "x") empty)) empty

written : write_path empty "$.a.b" (string "x") ≡ some nested
unfolding write_path write_parts container path_segments split_dots drop_two unsnoc add_head
    property assign
written = refl

write_path-read_example : read_path (object nested) "$.a.b" ≡ some (string "x")
write_path-read_example = write_path-read empty "$.a.b" (string "x") nested written

abbrev quote : String → String
quote text = text

b_not_a : ¬ ◌≡◌ {A = String} "b" "a"
b_not_a = ground (arith, eq_iff "b" "a")

stable-Reordered_example :
    stable quote (object (field "b" (string "1") (field "a" (string "2") empty)))
    ≡ stable quote (object (field "a" (string "2") (field "b" (string "1") empty)))
stable-Reordered_example =
    stable-Reordered quote (field "b" (string "1") (field "a" (string "2") empty))
      (field "a" (string "2") (field "b" (string "1") empty)) (swap b_not_a)

abbrev runtime : Runtime
runtime = record {
  to_upper = λ text. "ACME";
  to_lower = λ text. text;
  quote = quote;
  hash = λ text. 11;
  is_iso_day = λ text. false;
  date_of = λ text. none;
}

abbrev from : String → Operand
from path = record { source = some path; literal = none }

abbrev mappings : List Mapping
mappings =
    record {
      target = "$.partner.name";
      required = true;
      kind = direct (from "$.name") (some uppercase);
    }
    ∷ record {
      target = "$.partner.full";
      required = false;
      kind = concat (from "$.name" ∷ from "$.city" ∷ []) (some "-");
    }
    ∷ []

abbrev payload : Json
payload = object (field "name" (string "acme") empty)

abbrev transformed : Transformed
transformed = record {
  output = field "partner" (object (field "name" (string "ACME") empty)) empty;
  serialized = "{partner:{name:ACME}}";
  hash = 11;
}

executed : execute_transformation runtime mappings payload ≡ ok transformed
unfolding execute_transformation apply_mappings apply_mapping mapped_value operand operands present
    strings primitive_string join transform_value transform_text read_path read_segments
    path_segments split_dots drop_two unsnoc add_head property assign write_path write_parts
    container stable join_entries sort_entries insert_sorted
executed = refl

transformation-Delivered_example :
    All (Delivered runtime payload transformed.output) mappings
    × (len transformed.serialized ≤ 131_072)
    × (transformed.serialized ≡ stable quote (object transformed.output))
unfolding all_paths is_json_path unique_targets overlaps_any overlaps
transformation-Delivered_example =
    transformation-Delivered runtime payload mappings transformed refl refl executed

abbrev derivations : Derivations
derivations = record {
  delivery_id = λ tenant event destination. 300 + destination;
  idempotency_key = λ tenant event destination delivery. "key";
  url = λ base path. some 70;
  parse_definition = λ definition. some mappings;
  event_json = λ e. payload;
  runtime = runtime;
  empty_hash = 10;
  retention_days = 30;
  traceparent = none;
}

abbrev draft : Draft
draft = record { at = 2000; created_at = 2001; failed_at = 2002; history_id = 41; failure_id = 42 }

abbrev version : TransformationVersion
version = record {
  transformation_id = 5;
  external_key = 45;
  tenant_id = 1;
  version = 1;
  definition = empty_object;
}

abbrev origin : Origin
origin = record {
  event = event;
  destination = destination;
  transformation = version;
  url = 70;
  draft = draft;
}

planned-IsSettled_example :
    IsSettled (scheduled_delivery derivations origin transformed)
    × IsSettled (failed_delivery derivations origin)
    × ((failed_delivery derivations origin).delivery_id
        ≡ (scheduled_delivery derivations origin transformed).delivery_id)
planned-IsSettled_example = planned-IsSettled derivations origin transformed

abbrev alone : ℕ → Round memory
alone n = record { seen = tables; clock = 2000; interfere = λ s. s }

abbrev partner : Partner
partner = record { partner_id = 6; tenant_id = 1; external_key = 47; enabled = true; version = 1 }

abbrev visit : RoutingVisit memory
visit = record {
  tenant_id = 1;
  event_id = 2;
  derivations = record derivations { parse_definition = λ definition. some [] };
  spell = spell;
  first = alone 0;
  subscriptions =
      record {
        subscription_id = 60;
        external_key = 46;
        tenant_id = 1;
        destination_id = 4;
        event_type = 21;
        enabled = true;
        version = 1;
      }
      ∷ [];
  destination = λ id. some destination;
  partner = λ id. some partner;
  transformation = λ id number. some version;
  drafts = λ n. draft;
  creation = λ n. alone;
  failure = λ n. alone;
  completion = alone;
}

abbrev wanted_place : TenantKey
wanted_place = target memory visit event destination

left_alone : IsLeftAlone memory visit wanted_place
left_alone = record { creation = λ n m s. refl; failure = λ n m s. refl; completion = λ m s. refl }

wanted : IsTargeted memory visit event wanted_place visit.subscriptions
wanted =
    here
      (record {
        subscribed = refl;
        destined = refl;
        receives = refl;
        partnered = (partner, refl, refl);
        transformed = refl;
      })
      refl

route-IsTargeted_example :
    ((route memory visit tables).0.lookups wanted_place ≡ tables.lookups wanted_place)
    ⊎ (IsTargeted memory visit event wanted_place visit.subscriptions
        × ((route memory visit tables).0.lookups wanted_place ≡ some 2))
unfolding get_event
route-IsTargeted_example = route-IsTargeted memory visit event wanted_place left_alone tables refl

routed : (route memory visit tables).1 ≡ ok 1
unfolding route route_one route_all find create_planned create_failed get_event
    execute_transformation apply_mappings stable join_entries sort_entries property create_delivery
    create_round retry_rounds recount derive_event_status count_created is_terminal_delivery_state
    memory_transact allow allows new_index outbox_put outbox_writes updates_original_event hash_from
    stable_shard complete_round complete_routing completion_writes create_writes created_rollups
    created_side status_writes run_transformation scheduled_request snapshot commit epoch_seconds
    write is_expired scheduled_delivery
routed = refl

route-Delivered_example :
    (t : Tables) × ((t.lookups wanted_place ≡ some 2)
      ⊎ WasRead memory visit event wanted_place left_alone)
    × (complete_routing memory (record { tenant = 1; id = 2 }) visit.completion t
        ≡ ((route memory visit tables).0, ok tt))
unfolding get_event
route-Delivered_example =
    route-Delivered memory visit event wanted_place left_alone tables 1 refl wanted routed
