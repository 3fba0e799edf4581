-- ===== src/PartnerHttp/Laws.antt =====
-- What `send` connects to and which responses it accepts.
use Prim.Native.String.{String}
use text.Mathlib.TextEquality.{eq_iff}
use partner_integration_reli.Prelude.{
  ℕ, ◌+◌, ◌≡◌, ◌≤◌, ◌<◌, ◌⊎◌, ◌↔◌, refl, ap, Bool, false, not, ◌&&◌, ◌||◌, ltb, Option, none, some,
  get_or, List, [], ◌∷◌, Result, ok, err, inl, inr, arith, Result-cases, Bool-cases,
}
use partner_integration_reli.Text.{lookup}
use partner_integration_reli.PartnerHttp.{
  Unsafe, ClientConfig, Url, private_ip, is_local, some_private, check_addresses, validate_url,
  address_of, Incoming, receive_chunks, receive, is_redirect, is_encoded,
}

pub ok_injective : {A : Type 0} {a b : A} → Path (Result Unsafe A) (ok a) (ok b) → a ≡ b
ok_injective e = cc

err_ok : {A : Type 0} {a : A} {e : Unsafe} → Path (Result Unsafe A) (err e) (ok a) → ⊥
err_ok e = cc

head_public : (p l r : Bool) → ((p && not l) || r) ≡ false → l ≡ false → p ≡ false
head_public p l r h e = ground arith

module _ (parse_url : String → Option Url) (is_ip : String → ℕ) (config : ClientConfig) where
  check-public :
      (local : Bool) (addresses : List String) (a : String)
      → check_addresses parse_url is_ip config local addresses ≡ ok a
      → local ≡ false
      → private_ip parse_url is_ip config a ≡ false
  unfolding check_addresses some_private
  check-public local [] a h e = cc
  check-public local (b ∷ addresses) a h e =
      elim (Bool-cases (some_private parse_url is_ip config local (b ∷ addresses))) [
        | inl bad ↦ let g = rw (bad, check_addresses) at h in cc
        | inr fine ↦
            let b_a : b ≡ a = ok_injective (rw (fine, check_addresses) at h) in
            rw b_a at (head_public (private_ip parse_url is_ip config b) local _ fine e)
      ]

  hosted_is_local :
      (url : Url) → config.is_local_mode ≡ false → is_local parse_url is_ip config url ≡ false
  unfolding is_local
  hosted_is_local url e = ground arith

  -- The address that a hosted client connects to has passed the test of the second resolution.
  pub address_checked :
      (first second : String → List String) (input a : String)
      → config.is_local_mode ≡ false
      → address_of parse_url is_ip config first second input ≡ ok a
      → private_ip parse_url is_ip config a ≡ false
  unfolding address_of
  address_checked first second input a hosted h =
      elim (Result-cases (validate_url parse_url is_ip config first input)) [
        | inl (e, failed) ↦ let g = rw (failed, address_of) at h in cc
        | inr (url, valid) ↦
            check-public (is_local parse_url is_ip config url) (second url.hostname) a
              (rw (valid, address_of) at h) (hosted_is_local url hosted)
      ]

abbrev total : List ℕ → ℕ
total [] = 0
total (c ∷ cs) = c + total cs

chunks_iff :
    (limit size : ℕ) (cs : List ℕ) (n : ℕ)
    → size ≤ limit
    → (receive_chunks limit size cs ≡ ok n) ↔ ((n ≡ size + total cs) × (n ≤ limit))
unfolding receive_chunks
chunks_iff limit size [] n h = (
  λ e. let same : size ≡ n = ok_injective e in (omega (arith, same), omega (arith, same, h)),
  λ (e, f). let same : size ≡ n = omega (arith, e) in ap ok same,
)
chunks_iff limit size (c ∷ cs) n h = elim (Bool-cases (ltb limit (size + c))) [
  | inl over ↦ (
    λ e. let g = rw over at e in absurd (err_ok g),
    λ (e, f). absurd (ground (arith, e, f, over)),
  )
  | inr within ↦
      let rest = chunks_iff limit (size + c) cs n (ground (arith, within)) in
      rw within
        (λ e. let q = rest.0 e in (omega (arith, q.0), q.1), λ (e, f). rest.1 (omega (arith, e), f))
]

-- A response that is no redirect and is not encoded, whose body keeps to the limit.
pub record Accepted (config : ClientConfig) (r : Incoming) (n : ℕ) : Type 0 where
  pub direct : (s : ℕ) → r.status_code ≡ some s → (s < 300) ⊎ (400 ≤ s)
  pub plain : (e : String) → lookup "content-encoding" r.headers ≡ some e → e ≡ "identity"
  pub whole : n ≡ total r.chunks
  pub within : n ≤ get_or config.max_response_bytes 65_536

direct_iff :
    (o : Option ℕ) → (is_redirect o ≡ false) ↔ ((s : ℕ) → o ≡ some s → (s < 300) ⊎ (400 ≤ s))
direct_iff none = (λ h s e. cc, λ h. refl)
direct_iff (some a) =
    (λ h s e. let a_s : a ≡ s = cc in ground (arith, h, a_s), λ h. ground (arith, h a refl))

plain_iff :
    (o : Option String) → (is_encoded o ≡ false) ↔ ((e : String) → o ≡ some e → e ≡ "identity")
plain_iff none = (λ h s e. cc, λ h. refl)
plain_iff (some a) = (
  λ h s e. let a_s : a ≡ s = cc in ground (arith, h, a_s, eq_iff a "identity"),
  λ h. ground (arith, h a refl, eq_iff a "identity"),
)

-- A response is accepted, and its whole body received, exactly when it is no redirect, is not
-- encoded, and its body is not longer than the limit.
pub receive_iff :
    (config : ClientConfig) (r : Incoming) (n : ℕ) → (receive config r ≡ ok n) ↔ Accepted config r n
unfolding receive
receive_iff config r n =
    let limit = get_or config.max_response_bytes 65_536 in
    elim (Bool-cases (is_redirect r.status_code)) [
      | inl away ↦ (
        λ h. let g = rw away at h in absurd (err_ok g),
        λ a. let direct = (direct_iff r.status_code).1 a.direct in cc,
      )
      | inr direct ↦ elim (Bool-cases (is_encoded (lookup "content-encoding" r.headers))) [
        | inl encoded ↦ (
          λ h. let g = rw encoded at (rw direct at h) in absurd (err_ok g),
          λ a. let plain = (plain_iff (lookup "content-encoding" r.headers)).1 a.plain in cc,
        )
        | inr plain ↦
            let body = chunks_iff limit 0 r.chunks n (omega arith) in
            rw direct (
              rw plain (
                λ h.
                    let q = body.0 h in
                    record {
                      direct = (direct_iff r.status_code).0 direct;
                      plain = (plain_iff (lookup "content-encoding" r.headers)).0 plain;
                      whole = omega (arith, q.0);
                      within = q.1;
                    },
                λ a. body.1 (omega (arith, a.whole), a.within),
              ))
      ]
    ]
