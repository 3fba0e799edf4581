-- ===== src/Delivery/Service/Sent.antt =====
-- What stands before a request: the lease, an enabled destination, both permits, and a recorded
-- attempt.
use partner_integration_reli.Prelude.{
  ◌≡◌, true, none, some, ok, Option-cases, Bool-cases, Result-cases, inl, inr, refl, option_eq, ℕ,
  ◌∙◌, ap, sym, List, Option,
}
use partner_integration_reli.Json.Print.{stringify}
use partner_integration_reli.Domain.Types.{
  DeliveryConfigurationSnapshot, issued, token_eq, DeliveryExecution,
}
use partner_integration_reli.Domain.Records.{DeliveryAttempt}
use partner_integration_reli.Domain.Configuration.{Destination}
use partner_integration_reli.Domain.Transition.{transition_delivery, is_terminal_delivery_state}
use partner_integration_reli.Store.Database.{Database}
use partner_integration_reli.Persistence.Lease.{acquire_lease}
use partner_integration_reli.Persistence.Circuit.{
  CircuitPermit, CircuitRequest, acquire_circuit_permit,
}
use partner_integration_reli.Persistence.RatePermit.{RatePermit, RateRequest, acquire_rate_permit}
use partner_integration_reli.Persistence.Attempt.{start_attempt}
use partner_integration_reli.Persistence.Recovery.{locate_delivery, is_abandoned}
use Prim.Native.String.{String}
use partner_integration_reli.Persistence.Attempt.Laws.{
  start-returned, started_snapshot, Started, start-Started,
}
use partner_integration_reli.Delivery.Request.{PartnerRequest, request_headers, Exchange, exchange}
use partner_integration_reli.Delivery.Deferral.{Deferral, deferral_transition}
use partner_integration_reli.Delivery.Outcome.{classify_answer, completion_transition}
use partner_integration_reli.Delivery.Call.{Visit, is_later}
use partner_integration_reli.Delivery.Stages.{
  new_attempt, put_off, complete, completion_of, attempt, start_request, destination_key,
}
use partner_integration_reli.Delivery.Service.{
  ask_rate, ask_circuit, proceed, with_lease, take_lease, lease_request, recover, deliver_read,
  deliver,
}

abbrev circuit_request :
    (db : Database) → Visit db → Destination → DeliveryExecution → CircuitRequest
circuit_request db v destination leased = record {
  key = destination_key db v leased;
  policy = destination.circuit_breaker_policy;
  owner = v.message.owner;
  now = v.now;
}

abbrev rate_request : (db : Database) → Visit db → Destination → DeliveryExecution → RateRequest
rate_request db v destination leased = record {
  key = destination_key db v leased;
  policy = destination.rate_limit_policy;
  now = v.now;
}

-- The attempt is recorded, for the very request: its body's hash and its URL.
pub record AttemptSent (db : Database) (v : Visit db) (leased : DeliveryExecution)
    (r : PartnerRequest) : Type 0 where
  pub before : db.Store
  pub started : DeliveryExecution
  pub recorded :
      Started
        (start_request db v leased)
        (db.tables before)
        (db.tables (start_attempt db (start_request db v leased) before).0)
        started
  pub body : (start_request db v leased).attempt.request_body_hash ≡ v.runtime.hash r.body
  pub timeout : r.timeout_ms ≡ leased.config_snapshot.timeout_ms
  pub url : (start_request db v leased).attempt.request_url ≡ r.url

-- A request, and what allowed it.
pub record RequestSent (db : Database) (v : Visit db) (r : PartnerRequest) : Type 0 where
  pub initial : DeliveryExecution
  pub leased : DeliveryExecution
  pub destination : Destination
  pub permit : CircuitPermit
  pub rate : RatePermit
  pub at_lease : db.Store
  pub at_circuit : db.Store
  pub at_rate : db.Store
  pub lease :
      (acquire_lease db at_lease v.lease.seen v.lease.clock v.leased_at
        (lease_request db v initial)).1
      ≡ ok (some leased)
  pub found : v.destination ≡ some destination
  pub enabled : destination.enabled ≡ true
  pub circuit :
      (acquire_circuit_permit db (circuit_request db v destination leased) v.circuit at_circuit).1
      ≡ ok permit
  pub allowed : permit.allowed ≡ true
  pub rated :
      (acquire_rate_permit db (rate_request db v destination leased) v.rate at_rate).1 ≡ ok rate
  pub permitted : rate.permitted ≡ true
  pub attempted : AttemptSent db v leased r

some_request :
    {r : PartnerRequest} {url timeout correlation : ℕ} {headers : List (String × String)}
    {body : String}
    → Path
        (Option PartnerRequest)
        (some (record {
          url = url;
          headers = headers;
          body = body;
          timeout_ms = timeout;
          correlation_id = correlation;
        }))
        (some r)
    → (r.body ≡ body) × (r.url ≡ url) × (r.timeout_ms ≡ timeout)
some_request g = (cc, cc, cc)

module _ (db : Database) (v : Visit db) (r : PartnerRequest) where
  put_off-unsent : (i : Deferral) (s : db.Store) → (put_off db v i s).sent ≡ none
  unfolding put_off
  put_off-unsent i s = elim (Result-cases (transition_delivery i.leased (deferral_transition i))) [
    | inl (e, h) ↦ rw (h, put_off) refl
    | inr (next, h) ↦ rw (h, put_off) refl
  ]

  put_off-silent : (i : Deferral) (s : db.Store) → ¬ ((put_off db v i s).sent ≡ some r)
  put_off-silent i s g = let unsent = put_off-unsent i s in cc

  complete-sent :
      (destination : Destination) (permit : CircuitPermit) (started : DeliveryExecution)
      (a : DeliveryAttempt) (x : Exchange) (s : db.Store)
      → (complete db v destination permit started a x s).sent ≡ x.sent
  unfolding complete
  complete-sent destination permit started a x s =
      let t =
        completion_transition v.readers (completion_of db v started a x)
          (classify_answer x.answer) in
      elim (Result-cases (transition_delivery started t)) [
        | inl (e, h) ↦ rw (h, complete) refl
        | inr (final, h) ↦ rw (h, complete) refl
      ]

  exchange-sent :
      (d : DeliveryExecution) (body : String)
      → (exchange v.outside d body).sent ≡ some r
      → (r.body ≡ body)
        × (r.url ≡ d.config_snapshot.url)
        × (r.timeout_ms ≡ d.config_snapshot.timeout_ms)
  unfolding exchange
  exchange-sent d body =
      elim (Result-cases (request_headers v.outside d d.config_snapshot.secret_reference_names)) [
        | inl (e, h) ↦ rw (h, exchange) (λ g. cc)
        | inr (headers, h) ↦ rw (h, exchange) (λ g. some_request g)
      ]

  attempt_hash :
      (leased : DeliveryExecution)
      → (start_request db v leased).attempt.request_body_hash
        ≡ v.runtime.hash (stringify v.runtime.quote leased.transformed_payload)
  unfolding new_attempt
  attempt_hash leased = refl

  attempt_url :
      (leased : DeliveryExecution)
      → (start_request db v leased).attempt.request_url ≡ leased.config_snapshot.url
  unfolding new_attempt
  attempt_url leased = refl

  attempt-sent :
      (destination : Destination) (permit : CircuitPermit) (leased : DeliveryExecution)
      (s : db.Store)
      → (attempt db v destination permit leased s).sent ≡ some r
      → AttemptSent db v leased r
  unfolding attempt
  attempt-sent destination permit leased s =
      let i = start_request db v leased in
      elim (Result-cases (start_attempt db i (v.start s)).1) [
        | inl (e, h) ↦ rw (h, attempt) (λ g. cc)
        | inr (o, h) ↦ elim (Option-cases o) [
          | inl lost ↦ rw (h, attempt) (rw lost (λ g. cc))
          | inr (started, won) ↦
              rw (h, attempt)
                (rw won (λ g.
                  let kept : started.config_snapshot ≡ leased.config_snapshot =
                    rw (start-returned db (v.start s) i started (h ∙ ap ok won))
                      (started_snapshot leased i.attempt) in
                  let sent =
                    exchange-sent started _
                      (sym (complete-sent destination permit started i.attempt _ _) ∙ g) in
                  record {
                    before = v.start s;
                    started = started;
                    recorded = start-Started db (v.start s) i started (h ∙ ap ok won);
                    body = attempt_hash leased ∙ ap v.runtime.hash (sym sent.0);
                    timeout =
                        sent.2 ∙ ap (λ (c : DeliveryConfigurationSnapshot). c.timeout_ms) kept;
                    url =
                        attempt_url leased
                        ∙ sym (sent.1 ∙ ap (λ (c : DeliveryConfigurationSnapshot). c.url) kept);
                  }))
        ]
      ]

  ask_rate-sent :
      (destination : Destination) (permit : CircuitPermit) (leased : DeliveryExecution)
      (s : db.Store)
      → (ask_rate db v destination permit leased s).sent ≡ some r
      → (rate : RatePermit) × ((acquire_rate_permit db
            (rate_request db v destination leased)
            v.rate
            s).1
          ≡ ok rate)
        × (rate.permitted ≡ true)
        × AttemptSent db v leased r
  unfolding ask_rate
  ask_rate-sent destination permit leased s =
      let i = rate_request db v destination leased in
      elim (Result-cases (acquire_rate_permit db i v.rate s).1) [
        | inl (e, h) ↦ rw (h, ask_rate) (λ g. cc)
        | inr (rate, h) ↦ elim (Bool-cases rate.permitted) [
          | inl yes_rate ↦
              rw (h, ask_rate)
                (simp yes_rate
                  (λ g. (rate, refl, yes_rate, attempt-sent destination permit leased _ g)))
          | inr no_rate ↦ rw (h, ask_rate) (rw no_rate (λ g. absurd (put_off-silent _ _ g)))
        ]
      ]

  ask_circuit-sent :
      (initial leased : DeliveryExecution) (destination : Destination) (t s : db.Store)
      → (acquire_lease db t v.lease.seen v.lease.clock v.leased_at (lease_request db v initial)).1
        ≡ ok (some leased)
      → v.destination ≡ some destination
      → destination.enabled ≡ true
      → (ask_circuit db v destination leased s).sent ≡ some r
      → RequestSent db v r
  unfolding ask_circuit
  ask_circuit-sent initial leased destination t s lease found on =
      let i = circuit_request db v destination leased in
      elim (Result-cases (acquire_circuit_permit db i v.circuit s).1) [
        | inl (e, h) ↦ rw (h, ask_circuit) (λ g. cc)
        | inr (permit, h) ↦ elim (Bool-cases permit.allowed) [
          | inl yes_permit ↦
              rw (h, ask_circuit)
                (rw yes_permit (λ g.
                  let (rate, rated, permitted, attempted) =
                    ask_rate-sent destination permit leased _ g in
                  record {
                    initial = initial;
                    leased = leased;
                    destination = destination;
                    permit = permit;
                    rate = rate;
                    at_lease = t;
                    at_circuit = s;
                    at_rate = (acquire_circuit_permit db i v.circuit s).0;
                    lease = lease;
                    found = found;
                    enabled = on;
                    circuit = h;
                    allowed = yes_permit;
                    rated = rated;
                    permitted = permitted;
                    attempted = attempted;
                  }))
          | inr no_permit ↦ rw (h, ask_circuit) (rw no_permit (λ g. absurd (put_off-silent _ _ g)))
        ]
      ]

  proceed-sent :
      (initial leased : DeliveryExecution) (t s : db.Store)
      → (acquire_lease db t v.lease.seen v.lease.clock v.leased_at (lease_request db v initial)).1
        ≡ ok (some leased)
      → (proceed db v leased s).sent ≡ some r
      → RequestSent db v r
  unfolding proceed
  proceed-sent initial leased t s lease = elim (Option-cases v.destination) [
    | inl gone ↦ simp (gone, proceed) (λ g. absurd (put_off-silent _ _ g))
    | inr (destination, h) ↦ elim (Bool-cases destination.enabled) [
      | inl on ↦
          simp (h, proceed) (simp on (ask_circuit-sent initial leased destination t s lease h on))
      | inr off ↦ simp (h, proceed) (simp off (λ g. absurd (put_off-silent _ _ g)))
    ]
  ]

  leased-sent :
      (initial : DeliveryExecution) (t s : db.Store) (o : Option DeliveryExecution)
      → (acquire_lease db t v.lease.seen v.lease.clock v.leased_at (lease_request db v initial)).1
        ≡ ok o
      → (with_lease db v o s).sent ≡ some r
      → RequestSent db v r
  unfolding with_lease
  leased-sent initial t s none lease = λ g. cc
  leased-sent initial t s (some leased) lease =
      elim (Bool-cases (option_eq token_eq leased.lease_token (some (issued v.token)))) [
        | inl own ↦ rw own (proceed-sent initial leased t s lease)
        | inr other ↦ rw other (λ g. cc)
      ]

  take_lease-sent :
      (initial : DeliveryExecution) (s : db.Store)
      → (take_lease db v initial s).sent ≡ some r
      → RequestSent db v r
  unfolding take_lease
  take_lease-sent initial s =
      let t = v.lease.interfere s in
      let x =
        acquire_lease db t v.lease.seen v.lease.clock v.leased_at (lease_request db v initial) in
      elim (Result-cases x.1) [
        | inl (e, h) ↦ rw (h, take_lease) (λ g. cc)
        | inr (o, h) ↦ rw (h, take_lease) (leased-sent initial t x.0 o h)
      ]

  read-sent :
      (initial : DeliveryExecution) (s : db.Store)
      → (deliver_read db v initial s).sent ≡ some r
      → RequestSent db v r
  unfolding deliver_read recover
  read-sent initial s = elim (Bool-cases (is_terminal_delivery_state initial.state)) [
    | inl ended ↦ rw (ended, deliver_read) (λ g. cc)
    | inr alive ↦ elim (Bool-cases (is_abandoned v.now initial)) [
      | inl lost ↦ rw (alive, deliver_read) (rw lost (λ g. cc))
      | inr held ↦ elim (Bool-cases (is_later initial.next_eligible_at v.now)) [
        | inl early ↦ rw (alive, deliver_read) (rw held (rw early (λ g. cc)))
        | inr due ↦ rw (alive, deliver_read) (rw held (rw due (take_lease-sent initial s)))
      ]
    ]
  ]

  -- A request is sent only by the call that was granted the lease, to a destination that is enabled,
  -- under a permit of its circuit and one of its rate limit, and after the attempt was stored with
  -- the request's URL and the hash of its body.
  pub deliver-sent : (s : db.Store) → (deliver db v s).sent ≡ some r → RequestSent db v r
  unfolding deliver
  deliver-sent s =
      elim (Option-cases
        (locate_delivery v.first.seen v.message.tenant_id v.message.delivery_id v.first.clock)) [
          | inl e ↦ rw (e, deliver) (λ g. cc)
          | inr (initial, e) ↦ rw (e, deliver) (read-sent initial s)
        ]
