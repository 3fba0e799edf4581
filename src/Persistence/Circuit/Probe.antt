-- ===== src/Persistence/Circuit/Probe.antt =====
-- A destination has one probe at a time.
use partner_integration_reli.Prelude.{
  ℕ, ◌+◌, ◌*◌, ◌<◌, ◌≡◌, refl, sym, ap, ◌∙◌, true, false, ◌==◌, ltb, Option, none, some, get_or, [],
  ok, arith, Option-cases, Bool-cases, inl, inr,
}
use partner_integration_reli.Domain.Types.{
  CircuitState, closed, open_circuit, half_open, CircuitRuntimeState,
}
use partner_integration_reli.Store.Condition.{holds, absent_or}
use partner_integration_reli.Store.Keys.{tenant_key_eq_refl}
use partner_integration_reli.Store.Tables.{put_circuit, allows, allow, commit, write}
use partner_integration_reli.Store.Database.{Database}
use partner_integration_reli.Store.Commit.{allow_head}
use partner_integration_reli.Persistence.Common.{settle, settle-store, settle-committed}
use partner_integration_reli.Persistence.Rounds.{Round, Answer, Behind, version_or, read_stored}
use partner_integration_reli.Persistence.Circuit.{
  CircuitRequest, CircuitPermit, unbroken, read_circuit, probe_state, probe_writes, circuit_round,
}

abbrev pub probe_permit : CircuitRequest → CircuitRuntimeState → CircuitPermit
probe_permit i current = record {
  allowed = true;
  probe = true;
  next_eligible_at = none;
  state = probe_state i current;
}

answered-probe :
    (now : ℕ) (c : CircuitRuntimeState) (w : CircuitState) {p : CircuitPermit}
    → read_circuit now c w ≡ some p
    → p.probe ≡ false
unfolding read_circuit
answered-probe now c closed h = ground arith
answered-probe now c open_circuit h = ground arith
answered-probe now c half_open h = elim (Option-cases c.probe_lease_expires_at) [
  | inl e ↦ cc
  | inr (until, e) ↦ elim (Bool-cases (ltb now until)) [ inl early ↦ cc | inr late ↦ cc ]
]

module _ (db : Database) (i : CircuitRequest) (round : Round db) (s : db.Store) where
  open db use {tables, transact}

  pub round_cases {ℓ} :
      (P : db.Store × Answer CircuitPermit → Type ℓ)
      → ((permit : CircuitPermit) → permit.probe ≡ false → P (s, ok (some permit)))
      → (read_circuit i.now
              (get_or (round.seen.circuits i.key) unbroken)
              (get_or (round.seen.circuits i.key) unbroken).state
            ≡ none
          → P (
              settle
                (transact s (probe_writes i (get_or (round.seen.circuits i.key) unbroken)))
                (some (probe_permit i (get_or (round.seen.circuits i.key) unbroken)))
                none))
      → P (circuit_round db i round s)
  unfolding circuit_round
  round_cases P answered tried =
      let c = get_or (round.seen.circuits i.key) unbroken in
      elim (Option-cases (read_circuit i.now c c.state)) [
        | inl e ↦ rw (e, circuit_round) (tried e)
        | inr (permit, e) ↦
            rw (e, circuit_round) (answered permit (answered-probe i.now c c.state e))
      ]

permit_state :
    (i : CircuitRequest) (c : CircuitRuntimeState) (p : CircuitPermit)
    → some p ≡ some (probe_permit i c)
    → p.state ≡ probe_state i c
permit_state i c p h = let e : p ≡ probe_permit i c = cc in ap (λ (q : CircuitPermit). q.state) e

-- A granted probe: it was tried on a record whose version the store still had, and its state is
-- what the store has now.
pub record Probed (i : CircuitRequest) (read : CircuitRuntimeState)
    (before after : Option CircuitRuntimeState) (permit : CircuitPermit) : Type 0 where
  pub tried : read_circuit i.now read read.state ≡ none
  pub state : permit.state ≡ probe_state i read
  pub unchanged : holds (absent_or (λ c. c.version == read.version)) before ≡ true
  pub kept : after ≡ some (probe_state i read)

module _ (db : Database) (i : CircuitRequest) (round : Round db) (s : db.Store) where
  open db use {tables, transact}

  circuit_round-Probed :
      (permit : CircuitPermit)
      → (circuit_round db i round s).1 ≡ ok (some permit)
      → permit.probe ≡ true
      → Probed i
          (get_or (round.seen.circuits i.key) unbroken)
          ((tables s).circuits i.key)
          ((tables (circuit_round db i round s).0).circuits i.key)
          permit
  unfolding probe_writes allow allows commit write
  circuit_round-Probed permit =
      let c = get_or (round.seen.circuits i.key) unbroken in
      round_cases db i round s
        (λ r.
          r.1 ≡ ok (some permit)
          → permit.probe ≡ true
          → Probed i c ((tables s).circuits i.key) ((tables r.0).circuits i.key) permit)
        (λ p e g h. cc)
        (λ e g h.
          let (done, same) =
            settle-committed (transact s (probe_writes i c)) (some (probe_permit i c)) none
              (some permit) g (λ x. cc) in
          let l = db.committed_law s (probe_writes i c) done in
          record {
            tried = e;
            state = permit_state i c permit same;
            unchanged =
                allow_head (tables s)
                  (put_circuit (absent_or (λ x. x.version == c.version)) i.key (probe_state i c)) []
                  l.0;
            kept =
                rw (settle-store (transact s (probe_writes i c)) (some (probe_permit i c)) none)
                  (ap (λ t. t.circuits i.key) l.1 ∙ rw (tenant_key_eq_refl i.key) refl);
          })

live_probe :
    (now until : ℕ) (c : CircuitRuntimeState)
    → c.state ≡ half_open
    → c.probe_lease_expires_at ≡ some until
    → now < until
    → ¬ (read_circuit now c c.state ≡ none)
unfolding read_circuit
live_probe now until c w l early = rw (w, read_circuit) (rw l (rw early_test (λ h. cc)))
  where
    early_test : ltb now until ≡ true
    early_test = ground arith

unbroken_version :
    (read : Option CircuitRuntimeState)
    → (get_or read unbroken).version ≡ version_or (λ c. c.version) read
unbroken_version none = refl
unbroken_version (some c) = refl

-- After a granted probe, a round that finds its record still stored grants no other probe before
-- the probe's lease ends, whatever that round read, as long as it is not newer than the store.
pub circuit_round_exclusive :
    (db : Database) (s s' : db.Store) (i i' : CircuitRequest) (round round' : Round db)
    (first second : CircuitPermit)
    → i'.key ≡ i.key
    → (circuit_round db i round s).1 ≡ ok (some first)
    → first.probe ≡ true
    → (db.tables s').circuits i.key ≡ (db.tables (circuit_round db i round s).0).circuits i.key
    → Behind
        (λ (c : CircuitRuntimeState). c.version)
        (round'.seen.circuits i'.key)
        (some first.state)
    → i'.now < i.now + i.policy.probe_lease_seconds * 1000
    → (circuit_round db i' round' s').1 ≡ ok (some second)
    → second.probe ≡ false
unfolding probe_state
circuit_round_exclusive db s s' i i' round round' first second same_key g1 p1 still earlier live
      g2 =
    elim (Bool-cases second.probe) [
      | inr other ↦ other
      | inl p2 ↦
          let one = circuit_round-Probed db i round s first g1 p1 in
          let two = circuit_round-Probed db i' round' s' second g2 p2 in
          let held : (db.tables s').circuits i'.key ≡ some first.state =
            ap (db.tables s').circuits same_key ∙ still ∙ one.kept ∙ ap some (sym one.state) in
          let read =
            read_stored (λ (c : CircuitRuntimeState). c.version) (round'.seen.circuits i'.key)
              (some first.state) earlier
              (rw (unbroken_version (round'.seen.circuits i'.key)) at (rw held at two.unchanged)) in
          let seen : get_or (round'.seen.circuits i'.key) unbroken ≡ first.state =
            ap (λ o. get_or o unbroken) read in
          absurd (
            live_probe i'.now (i.now + i.policy.probe_lease_seconds * 1000)
              (get_or (round'.seen.circuits i'.key) unbroken)
              (rw seen (ap (λ (c : CircuitRuntimeState). c.state) one.state))
              (rw seen (ap (λ (c : CircuitRuntimeState). c.probe_lease_expires_at) one.state)) live
              two.tried)
    ]
