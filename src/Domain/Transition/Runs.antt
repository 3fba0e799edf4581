-- ===== src/Domain/Transition/Runs.antt =====
-- Sequences of transitions of one delivery.
use partner_integration_reli.Prelude.{
  ℕ, suc, ◌+◌, ◌≤◌, ◌≡◌, ◌≢◌, refl, sym, ◌∙◌, true, false, ok, arith, ◌⊎◌, inl, inr,
}
use partner_integration_reli.Domain.Types.{
  DeliveryState, pending, in_progress, cancelled, DeliveryExecution,
}
use partner_integration_reli.Domain.Transition.{
  DeliveryTransition, transition_delivery, is_terminal_delivery_state,
}
use partner_integration_reli.Domain.Transition.Graph.{◌⟶◌, admit}
use partner_integration_reli.Domain.Transition.Outcome.{transition-Allowed, transition-IsSettled}

-- A delivery's life: transitions in order, each one accepted.
pub data Run : DeliveryExecution → DeliveryExecution → Type 0 where
  stop : {d : DeliveryExecution} → Run d d
  then :
      {d e f : DeliveryExecution} (t : DeliveryTransition)
      → transition_delivery d t ≡ ok e
      → Run e f
      → Run d f

abbrev pub steps : {d e : DeliveryExecution} → Run d e → ℕ
steps stop = 0
steps (then t h r) = suc (steps r)

abbrev one_if_leased : DeliveryState → ℕ
one_if_leased in_progress = 1
one_if_leased _ = 0

-- How often the run enters `in_progress`, that is, takes a lease.
abbrev pub leases : {d e : DeliveryExecution} → Run d e → ℕ
leases stop = 0
leases (then t h r) = one_if_leased t.to_state + leases r

-- The version counts the transitions: two runs of different lengths never meet in a version.
pub Run-version : {d e : DeliveryExecution} (r : Run d e) → e.version ≡ d.version + steps r
Run-version stop = omega arith
Run-version (then {d} t h r) = omega (arith, Run-version r, (transition-IsSettled d t h).2)

edge_out : {a b : DeliveryState} → a ⟶ b → is_terminal_delivery_state a ≡ false
unfolding is_terminal_delivery_state
edge_out admit = refl
edge_out _ = refl

edge_in :
    {a b : DeliveryState}
    → a ⟶ b
    → (b ≢ pending) × (b ≢ cancelled) × ((a ≡ in_progress) ⊎ (is_terminal_delivery_state b ≡ false))
unfolding is_terminal_delivery_state
edge_in admit = ground arith
edge_in _ = ground arith

-- A terminal delivery makes no transition: the only run from it is the empty one.
pub Run-terminal :
    {d e : DeliveryExecution} (r : Run d e)
    → is_terminal_delivery_state d.state ≡ true
    → (d ≡ e) × (steps r ≡ 0)
Run-terminal stop h = (refl, refl)
Run-terminal (then {d} t a r) h = cc (edge_out (transition-Allowed d t a).edge)

lease_or_other : (s : DeliveryState) → (one_if_leased s ≡ 1) ⊎ (s ≢ in_progress)
lease_or_other s = ground arith

-- A delivery that was neither terminal nor leased becomes terminal only through a lease.
Run-leases :
    {d e : DeliveryExecution} (r : Run d e)
    → is_terminal_delivery_state d.state ≡ false
    → d.state ≢ in_progress
    → is_terminal_delivery_state e.state ≡ true
    → 1 ≤ leases r
Run-leases stop live free done = cc
Run-leases (then {d} {e} t a r) live free done = elim (lease_or_other t.to_state) [
  | inl entered ↦ omega arith
  | inr other ↦
      let at_e = (transition-IsSettled d t a).1 in
      let still =
        Run-leases r
          (elim (edge_in (transition-Allowed d t a).edge).2 [
            | inl held ↦ absurd (free held)
            | inr live_e ↦ rw at_e live_e
          ])
          (λ p. other (sym at_e ∙ p)) done in
      omega (arith, still)
]

-- No transition enters `pending` or `cancelled`: who is there was there from the start.
pub Run-unentered :
    {d e : DeliveryExecution} (r : Run d e)
    → 1 ≤ steps r
    → (e.state ≢ pending) × (e.state ≢ cancelled)
Run-unentered stop h = absurd (omega arith)
Run-unentered (then {d} {e} t a stop) h =
    let i = edge_in (transition-Allowed d t a).edge in
    rw ((transition-IsSettled d t a).1) (i.0, i.1)
Run-unentered (then t a (then u b r)) h = Run-unentered (then u b r) (omega arith)
