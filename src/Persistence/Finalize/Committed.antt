-- ===== src/Persistence/Finalize/Committed.antt =====
-- The tables after a finalisation that is committed.
use partner_integration_reli.Prelude.{
  ℕ, ◌≡◌, refl, sym, ap, ◌∙◌, Bool, true, false, ◌&&◌, ◌==◌, Option, none, some, List, [], ◌∷◌,
  ◌++◌, arith, Bool-cases, inl, inr,
}
use partner_integration_reli.Domain.Types.{DeliveryExecution}
use partner_integration_reli.Domain.Records.{CanonicalEvent, DeliveryAttempt, OutboxRecord}
use partner_integration_reli.Store.Condition.{put, matches, holds, holds-matches}
use partner_integration_reli.Store.Keys.{TenantKey, tenant_key_eq, attempt_key_eq}
use partner_integration_reli.Store.Tables.{
  Tables, write, commit, allow, allows, Write, put_attempt, put_delivery,
}
use partner_integration_reli.Store.Core.{
  all_side, all_side-append, commit-side, commit-append, allow-append,
}
use partner_integration_reli.Persistence.Common.{reindex, history_put, outbox_put, stored_event}
use partner_integration_reli.Persistence.Rollups.{rollup_updates, outcome_is_started}
use partner_integration_reli.Persistence.Attempt.{event_key, attempt_key, stored_attempt}
use partner_integration_reli.Persistence.Finalize.{
  FinalizeAttempt, updates_original_event, final_delivery, event_writes, outbox_writes,
  circuit_writes, side_writes, rest_writes, finalize_writes, finalized_at, is_finalizable,
}

pub reindex-side : (d e : DeliveryExecution) → all_side (reindex d e) ≡ true
unfolding reindex
reindex-side d e = ground arith

beside : (ℕ → List ℕ) → FinalizeAttempt → List Write
unfolding outbox_writes rollup_updates
beside spell i =
    outbox_writes i.outbox
    ++ rollup_updates spell i.key.tenant i.delivery.destination_id i.delivery.delivery_id
        (finalized_at i) i.attempt i.delivery

outbox_writes-side : (o : Option OutboxRecord) → all_side (outbox_writes o) ≡ true
unfolding outbox_writes outbox_put
outbox_writes-side none = refl
outbox_writes-side (some o) = refl

beside-side : (spell : ℕ → List ℕ) (i : FinalizeAttempt) → all_side (beside spell i) ≡ true
unfolding beside rollup_updates
beside-side spell i =
    all_side-append (outbox_writes i.outbox)
      (rollup_updates spell i.key.tenant i.delivery.destination_id i.delivery.delivery_id
        (finalized_at i) i.attempt i.delivery)
      (outbox_writes-side i.outbox) refl

abbrev circuit_part : FinalizeAttempt → List Write
circuit_part i =
    circuit_writes (record { tenant = i.key.tenant; id = i.delivery.destination_id }) i.circuit

append_assoc : (xs ys zs : List Write) → (xs ++ ys) ++ zs ≡ xs ++ (ys ++ zs)
append_assoc [] ys zs = refl
append_assoc (x ∷ xs) ys zs = ap (λ r. x ∷ r) (append_assoc xs ys zs)

-- The writes in their four groups after the delivery and the attempt.
side_groups :
    (spell : ℕ → List ℕ) (i : FinalizeAttempt) (e f : CanonicalEvent)
    → side_writes spell i e f
      ≡ event_writes i.delivery (event_key i.key) e f ++ (beside spell i ++ circuit_part i)
unfolding side_writes beside
side_groups spell i e f =
    ap (λ r. event_writes i.delivery (event_key i.key) e f ++ r)
      (sym (
        append_assoc (outbox_writes i.outbox)
          (rollup_updates spell i.key.tenant i.delivery.destination_id i.delivery.delivery_id
            (finalized_at i) i.attempt i.delivery)
          (circuit_part i)))

circuit_only :
    (t : Tables) (i : FinalizeAttempt)
    → ((commit t (circuit_part i)).attempts ≡ t.attempts)
      × ((commit t (circuit_part i)).events ≡ t.events)
unfolding circuit_writes commit write
circuit_only t i = ground arith

event_only :
    (t : Tables) (d : DeliveryExecution) (k : TenantKey) (e f : CanonicalEvent)
    → ((commit t (event_writes d k e f)).attempts ≡ t.attempts)
unfolding event_writes commit write
event_only t d k e f = ground arith

pub event_writes-put :
    (t : Tables) (d : DeliveryExecution) (k : TenantKey) (e f : CanonicalEvent)
    → updates_original_event d ≡ true
    → (commit t (event_writes d k e f)).events ≡ put tenant_key_eq k (stored_event f) t.events
unfolding event_writes commit write
event_writes-put t d k e f h = rw h refl

pub event_writes-unput :
    (t : Tables) (d : DeliveryExecution) (k : TenantKey) (e f : CanonicalEvent)
    → updates_original_event d ≡ false
    → (commit t (event_writes d k e f)).events ≡ t.events
unfolding event_writes commit write
event_writes-unput t d k e f h = rw h refl

event_only_events :
    (t u : Tables) (d : DeliveryExecution) (k : TenantKey) (e f : CanonicalEvent)
    → u.events ≡ t.events
    → (commit u (event_writes d k e f)).events ≡ (commit t (event_writes d k e f)).events
event_only_events t u d k e f h = elim (Bool-cases (updates_original_event d)) [
  | inl y ↦
      rw (event_writes-put u d k e f y)
        (rw (event_writes-put t d k e f y) (ap (λ m. put tenant_key_eq k (stored_event f) m) h))
  | inr n ↦ event_writes-unput u d k e f n ∙ h ∙ sym (event_writes-unput t d k e f n)
]

module _ (spell : ℕ → List ℕ) (i : FinalizeAttempt) (current : DeliveryExecution)
    (e f : CanonicalEvent) where
  abbrev events_part : List Write
  events_part = event_writes i.delivery (event_key i.key) e f

  abbrev indexed : List Write
  indexed = history_put i.key i.history ∷ reindex current i.delivery

  indexed-side : all_side indexed ≡ true
  unfolding history_put
  indexed-side = reindex-side current i.delivery

  -- The tables once the delivery and the attempt are written.
  abbrev two_written : Tables → Tables
  two_written t = commit t (
      put_delivery (matches (is_finalizable i.expected_version i.lease_token i.attempt.attempt_id))
        i.key (final_delivery i.delivery)
      ∷ put_attempt (matches (λ a. outcome_is_started a.outcome)) (attempt_key i.key i.attempt)
          (stored_attempt i.attempt)
      ∷ [])

  finalize_groups :
      (t : Tables)
      → commit t (finalize_writes spell i current e f)
        ≡ commit
            (commit (commit (commit (two_written t) indexed) events_part) (beside spell i))
            (circuit_part i)
  unfolding finalize_writes rest_writes commit
  finalize_groups t =
      commit-append (two_written t) indexed (side_writes spell i e f)
      ∙ ap (commit (commit (two_written t) indexed)) (side_groups spell i e f)
      ∙ commit-append (commit (two_written t) indexed) events_part
          (beside spell i ++ circuit_part i)
      ∙ commit-append (commit (commit (two_written t) indexed) events_part) (beside spell i)
          (circuit_part i)

  two_written_events : (t : Tables) → (two_written t).events ≡ t.events
  unfolding commit write
  two_written_events t = refl

  two_written_attempts :
      (t : Tables)
      → (two_written t).attempts
        ≡ put attempt_key_eq (attempt_key i.key i.attempt) (stored_attempt i.attempt) t.attempts
  unfolding commit write
  two_written_attempts t = refl

  -- A committed finalisation records the attempt, and of the events writes its own alone.
  pub finalize_core :
      (t : Tables)
      → ((commit t (finalize_writes spell i current e f)).attempts
          ≡ put attempt_key_eq (attempt_key i.key i.attempt) (stored_attempt i.attempt) t.attempts)
        × ((commit t (finalize_writes spell i current e f)).events ≡ (commit t events_part).events)
  finalize_core t =
      let u = commit (two_written t) indexed in
      let v = commit u events_part in
      let x = commit v (beside spell i) in
      let a = commit-side (two_written t) indexed indexed-side in
      let b = commit-side v (beside spell i) (beside-side spell i) in
      let c = circuit_only x i in
      (
        ap (λ (w : Tables). w.attempts) (finalize_groups t)
            ∙ c.0
            ∙ b.attempts
            ∙ event_only u i.delivery (event_key i.key) e f
            ∙ a.attempts
            ∙ two_written_attempts t,
        ap (λ (w : Tables). w.events) (finalize_groups t)
            ∙ c.1
            ∙ b.events
            ∙ event_only_events t u i.delivery (event_key i.key) e f
                (a.events ∙ two_written_events t),
      )

  -- What the database found when it allowed one.
  pub finalize_allowed :
      (t : Tables)
      → allow t (finalize_writes spell i current e f) ≡ true
      → (holds
            (matches (λ (a : DeliveryAttempt). outcome_is_started a.outcome))
            (t.attempts (attempt_key i.key i.attempt))
          ≡ true)
        × (allow t events_part ≡ true)
        × (allow t (circuit_part i) ≡ true)
  unfolding finalize_writes rest_writes allow allows
  finalize_allowed t h =
      let h2 : allow t (indexed ++ side_writes spell i e f) ≡ true = ground arith in
      let r = (allow-append t indexed (side_writes spell i e f) h2).1 in
      let r2 =
        allow-append t events_part (beside spell i ++ circuit_part i)
          (rw (side_groups spell i e f) at r) in
      let r3 = allow-append t (beside spell i) (circuit_part i) r2.1 in (ground arith, r2.0, r3.1)

pub event_allowed :
    (t : Tables) (d : DeliveryExecution) (k : TenantKey) (e f : CanonicalEvent)
    → updates_original_event d ≡ true
    → allow t (event_writes d k e f) ≡ true
    → (b : CanonicalEvent) × (t.events k ≡ some b) × (b.version ≡ e.version)
unfolding event_writes allow allows
event_allowed t d k e f h g =
    let (b, at_k, same) =
      holds-matches (λ (x : CanonicalEvent). x.version == e.version) (t.events k)
        (first_true _ (rw h at g)) in
    (b, at_k, ground arith)
  where
    first_true : (x : Bool) → (x && true) ≡ true → x ≡ true
    first_true x p = ground arith
