-- ===== src/Store/Core.antt =====
-- The tables that decisions are made on, beside the indexes, the outbox, the history and the
-- rollups.
use partner_integration_reli.Prelude.{
  ◌≡◌, refl, ◌∙◌, Bool, true, false, ◌&&◌, List, [], ◌∷◌, ◌++◌, arith,
}
use partner_integration_reli.Store.Tables.{
  Tables, Write, put_delivery, put_lookup, put_attempt, put_event, put_circuit, put_rate, write,
  commit, allow,
}

-- A write beside those tables.
abbrev pub is_side : Write → Bool
is_side (put_delivery c k v) = false
is_side (put_lookup c k v) = false
is_side (put_attempt c k v) = false
is_side (put_event c k v) = false
is_side (put_circuit c k v) = false
is_side (put_rate c k v) = false
is_side _ = true

abbrev pub all_side : List Write → Bool
all_side [] = true
all_side (w ∷ ws) = is_side w && all_side ws

pub all_side-append :
    (xs ys : List Write) → all_side xs ≡ true → all_side ys ≡ true → all_side (xs ++ ys) ≡ true
all_side-append [] ys h k = k
all_side-append (x ∷ xs) ys h k = ground (arith, all_side-append xs ys)

pub record SameCore (t u : Tables) : Type 0 where
  pub deliveries : u.deliveries ≡ t.deliveries
  pub lookups : u.lookups ≡ t.lookups
  pub attempts : u.attempts ≡ t.attempts
  pub events : u.events ≡ t.events
  pub circuits : u.circuits ≡ t.circuits
  pub rates : u.rates ≡ t.rates

SameCore-refl : (t : Tables) → SameCore t t
SameCore-refl t = record {
  deliveries = refl;
  lookups = refl;
  attempts = refl;
  events = refl;
  circuits = refl;
  rates = refl;
}

SameCore-trans : (t u v : Tables) → SameCore t u → SameCore u v → SameCore t v
SameCore-trans t u v a b = record {
  deliveries = b.deliveries ∙ a.deliveries;
  lookups = b.lookups ∙ a.lookups;
  attempts = b.attempts ∙ a.attempts;
  events = b.events ∙ a.events;
  circuits = b.circuits ∙ a.circuits;
  rates = b.rates ∙ a.rates;
}

write-side : (t : Tables) (w : Write) → is_side w ≡ true → SameCore t (write t w)
unfolding write
write-side t (put_delivery c k v) h = cc
write-side t (put_lookup c k v) h = cc
write-side t (put_attempt c k v) h = cc
write-side t (put_event c k v) h = cc
write-side t (put_circuit c k v) h = cc
write-side t (put_rate c k v) h = cc
write-side t _ h = record {
  deliveries = refl;
  lookups = refl;
  attempts = refl;
  events = refl;
  circuits = refl;
  rates = refl;
}

pub commit-side : (t : Tables) (ws : List Write) → all_side ws ≡ true → SameCore t (commit t ws)
unfolding commit
commit-side t [] h = SameCore-refl t
commit-side t (w ∷ ws) h =
    SameCore-trans t (write t w) (commit t (w ∷ ws)) (write-side t w (ground arith))
      (commit-side (write t w) ws (ground arith))

pub commit-append :
    (t : Tables) (xs ys : List Write) → commit t (xs ++ ys) ≡ commit (commit t xs) ys
unfolding commit
commit-append t [] ys = refl
commit-append t (x ∷ xs) ys = commit-append (write t x) xs ys

pub allow-append :
    (t : Tables) (xs ys : List Write)
    → allow t (xs ++ ys) ≡ true
    → (allow t xs ≡ true) × (allow t ys ≡ true)
unfolding allow
allow-append t [] ys h = (refl, h)
allow-append t (x ∷ xs) ys h =
    let r = allow-append t xs ys (ground arith) in (ground (arith, r.0), r.1)
