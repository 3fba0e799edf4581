-- ===== src/PartnerHttp/Public.antt =====
-- What `privateIp` of packages/partner-http/src/index.ts takes for a private address: the reserved
-- blocks of version 4, and the starts of the text of version 6.
use Prim.Native.String.{String}
use partner_integration_reli.Prelude.{
  ℕ, ◌+◌, ◌*◌, ◌≡◌, ◌<◌, ◌≤◌, inl, inr, refl, sym, subst, Bool, true, false, ◌&&◌, ◌||◌, ◌==◌, List,
  [], ◌∷◌, map, ok, Bool-cases, All, arith, ==_iff, Option,
}
use partner_integration_reli.Text.{decimal, codes, lower, has_prefix}
use partner_integration_reli.Text.Infix.{BeginsWith, has_prefix_iff, has_prefix_refl}
use partner_integration_reli.Json.Path.{split_dots}
use partner_integration_reli.PartnerHttp.{
  Url, ClientConfig, private_v4, private_v6, private_ip, address_of,
}
use partner_integration_reli.PartnerHttp.Laws.{address_checked}

-- A block of addresses of version 4, as numbers of 32 bits: `size` of them from `base`.
pub record Block : Type 0 where
  pub base : ℕ
  pub size : ℕ

abbrev InBlock : ℕ → Block → Type 0
InBlock n b = (b.base ≤ n) × (n < b.base + b.size)

abbrev word : ℕ → ℕ → ℕ → ℕ → ℕ
word a b c d = a * 16_777_216 + b * 65_536 + c * 256 + d

-- 0.0.0.0/8, 10.0.0.0/8, 127.0.0.0/8, 169.254.0.0/16, 172.16.0.0/12, 192.168.0.0/16, 100.64.0.0/10
-- and 224.0.0.0/3.
abbrev pub reserved : List Block
reserved =
    record { base = 0; size = 16_777_216 }
    ∷ record { base = word 10 0 0 0; size = 16_777_216 }
    ∷ record { base = word 127 0 0 0; size = 16_777_216 }
    ∷ record { base = word 169 254 0 0; size = 65_536 }
    ∷ record { base = word 172 16 0 0; size = 1_048_576 }
    ∷ record { base = word 192 168 0 0; size = 65_536 }
    ∷ record { base = word 100 64 0 0; size = 4_194_304 }
    ∷ record { base = word 224 0 0 0; size = 536_870_912 }
    ∷ []

-- An address of version 4 by its four numbers.
pub record IsQuad (address : String) (a b c d : ℕ) : Type 0 where
  pub texts :
      (p q r s : String) × (split_dots address ≡ p ∷ q ∷ r ∷ s ∷ [])
      × (decimal p ≡ a)
      × (decimal q ≡ b)
      × (decimal r ≡ c)
      × (decimal s ≡ d)
  pub bytes : (a < 256) × (b < 256) × (c < 256) × (d < 256)

-- An address of version 4 in none of the reserved blocks, or one of another version whose text is
-- neither `::1` nor `::`, and starts with none of `fe80:`, `fc`, `fd` and `ff`.
pub data IsPublic (is_ip : String → ℕ) (address : String) : Type 0 where
  public_v4 :
      (a b c d : ℕ)
      → is_ip address ≡ 4
      → IsQuad address a b c d
      → All (λ block. ¬ InBlock (word a b c d) block) reserved
      → IsPublic is_ip address
  public_v6 :
      ¬ (is_ip address ≡ 4)
      → All (λ text. ¬ (map lower (codes address) ≡ codes text)) ("::1" ∷ "::" ∷ [])
      → All
          (λ start. ¬ BeginsWith (map lower (codes address)) (codes start))
          ("fe80:" ∷ "fc" ∷ "fd" ∷ "ff" ∷ [])
      → IsPublic is_ip address

v4-IsPublic :
    (p q r s : String) (c d : ℕ)
    → decimal p < 256
    → decimal q < 256
    → c < 256
    → d < 256
    → private_v4 (p ∷ q ∷ r ∷ s ∷ []) ≡ false
    → All (λ block. ¬ InBlock (word (decimal p) (decimal q) c d) block) reserved
unfolding private_v4
v4-IsPublic p q r s c d hp hq hc hd h = (
  λ i. ground (arith, h, i),
  (
    λ i. ground (arith, h, i),
    (
      λ i. ground (arith, h, i),
      (
        λ i. ground (arith, h, i),
        (
          λ i. ground (arith, h, i),
          (λ i. ground (arith, h, i), (λ i. ground (arith, h, i), (λ i. ground (arith, h, i), tt))),
        ),
      ),
    ),
  ),
)

six_false :
    (a b c d e f : Bool)
    → (a || b || c || d || e || f) ≡ false
    → (a ≡ false) × (b ≡ false) × (c ≡ false) × (d ≡ false) × (e ≡ false) × (f ≡ false)
six_false false false false false false false h = (refl, refl, refl, refl, refl, refl)
six_false true b c d e f h = cc
six_false false true c d e f h = cc
six_false false false true d e f h = cc
six_false false false false true e f h = cc
six_false false false false false true f h = cc
six_false false false false false false true h = cc

no_start : (text start : List ℕ) → has_prefix text start ≡ false → ¬ BeginsWith text start
no_start text start h b = let p = (has_prefix_iff text start).1 b in cc

no_text :
    (text other : List ℕ)
    → (has_prefix text other && has_prefix other text) ≡ false
    → ¬ (text ≡ other)
no_text text other h same =
    let p = has_prefix_refl other in
    let q : has_prefix text other ≡ true = subst (λ s. has_prefix s other ≡ true) (sym same) p in
    let r : has_prefix other text ≡ true = subst (λ s. has_prefix other s ≡ true) (sym same) p in
    ground (arith, h, q, r)

v6-IsPublic :
    (text : List ℕ)
    → private_v6 text ≡ false
    → All (λ other. ¬ (text ≡ codes other)) ("::1" ∷ "::" ∷ [])
      × All (λ start. ¬ BeginsWith text (codes start)) ("fe80:" ∷ "fc" ∷ "fd" ∷ "ff" ∷ [])
unfolding private_v6
v6-IsPublic text h =
    let (one, any, local, c, d, f) = six_false _ _ _ _ _ _ h in
    (
      (no_text text (codes "::1") one, (no_text text (codes "::") any, tt)),
      (
        no_start text (codes "fe80:") local,
        (
          no_start text (codes "fc") c,
          (no_start text (codes "fd") d, (no_start text (codes "ff") f, tt)),
        ),
      ),
    )

-- What the client relies on of `net.isIP`: an address of version 4 is four numbers below 256.
abbrev pub IsIpLaw : (String → ℕ) → Type 0
IsIpLaw is_ip =
    (address : String)
    → is_ip address ≡ 4
    → (a : ℕ) × (b : ℕ) × (c : ℕ) × (d : ℕ) × IsQuad address a b c d

module _ (parse_url : String → Option Url) (is_ip : String → ℕ) (config : ClientConfig)
    (law : IsIpLaw is_ip) where
  private_ip-IsPublic :
      (address : String)
      → private_ip parse_url is_ip config address ≡ false
      → IsPublic is_ip address
  unfolding private_ip
  private_ip-IsPublic address h = elim (Bool-cases (is_ip address == 4)) [
    | inl four ↦
        let version = (==_iff (is_ip address) 4).0 four in
        let (a, b, c, d, quad) = law address version in
        let (p, q, r, s, split, at_a, at_b, at_c, at_d) = quad.texts in
        let (in_a, in_b, in_c, in_d) = quad.bytes in
        let tested : private_v4 (p ∷ q ∷ r ∷ s ∷ []) ≡ false = rw split at (rw four at h) in
        public_v4 a b c d version quad (
          subst (λ x. All (λ block. ¬ InBlock (word x b c d) block) reserved) at_a
            (subst (λ x. All (λ block. ¬ InBlock (word (decimal p) x c d) block) reserved) at_b
              (v4-IsPublic p q r s c d (subst (λ x. x < 256) (sym at_a) in_a)
                (subst (λ x. x < 256) (sym at_b) in_b) in_c in_d tested)))
    | inr other ↦
        let (texts, starts) = v6-IsPublic (map lower (codes address)) (rw other at h) in
        public_v6 (λ e. let four = (==_iff (is_ip address) 4).1 e in cc) texts starts
  ]

  -- A hosted client connects to no address of version 4 in a reserved block, and to none of version
  -- 6 whose text is that of a reserved one or starts like that of a reserved block, even if the
  -- host resolves to other addresses between the validation of the URL and the connection; where
  -- `net.isIP` takes only four numbers below 256 for an address of version 4.
  pub address-IsPublic :
      (first second : String → List String) (input address : String)
      → config.is_local_mode ≡ false
      → address_of parse_url is_ip config first second input ≡ ok address
      → IsPublic is_ip address
  address-IsPublic first second input address hosted h =
      private_ip-IsPublic address
        (address_checked parse_url is_ip config first second input address hosted h)
