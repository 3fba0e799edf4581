-- ===== src/Transformation/Execute/Accepted.antt =====
-- The definitions that the schema accepts have targets that lie apart.
use Prim.Native.Char.{Char, code}
use Prim.Native.String.{String, ◌++◌, len}
use text.Mathlib.TextEquality.{eq_iff, Char-path}
use text.Mathlib.TextPositions.{starts_with_of_prefix}
use partner_integration_reli.Prelude.{
  ◌≡◌, ◌∙◌, ◌≤◌, refl, sym, subst, true, false, inl, inr, List, [], ◌∷◌, ◌++◌ as append, All, ok,
  arith,
}
use partner_integration_reli.Json.{Json, object}
use partner_integration_reli.Transformation.Definition.{
  Mapping, is_json_path, all_paths, overlaps, overlaps_any, unique_targets,
}
use partner_integration_reli.Transformation.Path.{path_segments}
use partner_integration_reli.Json.Path.{drop_two}
use partner_integration_reli.Transformation.Path.Laws.{Apart}
use partner_integration_reli.Transformation.Path.Targets.{Nested, Nested-cons, split_cases}
use partner_integration_reli.Transformation.Stable.{stable}
use partner_integration_reli.Transformation.Execute.{Runtime, Transformed, execute_transformation}
use partner_integration_reli.Transformation.Execute.Laws.{
  ApartFrom, TargetsApart, Delivered, execute-Delivered,
}

Nested-overlaps : (s t : String) → Nested s t → overlaps s t ≡ true
unfolding overlaps
Nested-overlaps s t (inl e) = ground (arith, eq_iff t s, e, sym e)
Nested-overlaps s t (inr (inl p)) = ground (arith, starts_with_of_prefix (s ++ ".") t p)
Nested-overlaps s t (inr (inr p)) = ground (arith, starts_with_of_prefix (t ++ ".") s p)

-- A path is two known characters and the rest.
rooted :
    (target : String)
    → is_json_path target ≡ true
    → (c d : Char) × (s : String) × (target ≡ String.◌∷◌ c (String.◌∷◌ d s))
      × (code c ≡ 36)
      × (code d ≡ 46)
unfolding is_json_path
rooted String.[] h = cc
rooted (String.◌∷◌ c String.[]) h = cc
rooted (String.◌∷◌ c (String.◌∷◌ d String.[])) h = cc
rooted (String.◌∷◌ c (String.◌∷◌ d (String.◌∷◌ e s))) h =
    (c, d, String.◌∷◌ e s, refl, ground arith, ground arith)

paths-Apart :
    (c d : Char) (s t : String)
    → overlaps (String.◌∷◌ c (String.◌∷◌ d s)) (String.◌∷◌ c (String.◌∷◌ d t)) ≡ false
    → Apart
        (path_segments (String.◌∷◌ c (String.◌∷◌ d s)))
        (path_segments (String.◌∷◌ c (String.◌∷◌ d t)))
unfolding path_segments drop_two
paths-Apart c d s t h = elim (split_cases s t) [
  | inl a ↦ a
  | inr n ↦ let g = Nested-overlaps _ _ (Nested-cons c _ _ (Nested-cons d s t n)) in absurd (cc)
]

targets-Apart :
    (a b : String)
    → is_json_path a ≡ true
    → is_json_path b ≡ true
    → overlaps a b ≡ false
    → Apart (path_segments a) (path_segments b)
targets-Apart a b p q h =
    let (c, d, s, e, at_c, at_d) = rooted a p in
    let (c', d', t, f, at_c', at_d') = rooted b q in
    let c_c : c' ≡ c = Char-path c' c (at_c' ∙ sym at_c) in
    let d_d : d' ≡ d = Char-path d' d (at_d' ∙ sym at_d) in
    let g : b ≡ String.◌∷◌ c (String.◌∷◌ d t) = cc in
    subst (λ x. Apart (path_segments x) (path_segments b)) (sym e)
      (subst (λ x. Apart (path_segments (String.◌∷◌ c (String.◌∷◌ d s))) (path_segments x)) (sym g)
        (paths-Apart c d s t (rw g at (rw e at h))))

-- The targets that the check has seen.
abbrev Seen : List String → Mapping → Type 0
Seen targets m = (t : String) × (is_json_path t ≡ true) × (t ≡ m.target)

module _ (m : Mapping) (path : is_json_path m.target ≡ true) where
  overlaps_seen :
      (n : Mapping) (before targets : List String)
      → is_json_path n.target ≡ true
      → overlaps_any n.target (append before (m.target ∷ targets)) ≡ false
      → Apart (path_segments n.target) (path_segments m.target)
  unfolding overlaps_any
  overlaps_seen n [] targets p h = targets-Apart n.target m.target p path (ground arith)
  overlaps_seen n (b ∷ before) targets p h = overlaps_seen n before targets p (ground arith)

  later_apart :
      (ms : List Mapping) (before targets : List String)
      → all_paths ms ≡ true
      → unique_targets ms (append before (m.target ∷ targets)) ≡ true
      → ApartFrom m ms
  unfolding all_paths unique_targets
  later_apart [] before targets p h = tt
  later_apart (n ∷ ms) before targets p h = (
    overlaps_seen n before targets (ground arith) (ground arith),
    later_apart ms (n.target ∷ before) targets (ground arith) (ground arith),
  )

accepted_apart :
    (ms : List Mapping) (targets : List String)
    → all_paths ms ≡ true
    → unique_targets ms targets ≡ true
    → TargetsApart ms
unfolding all_paths unique_targets
accepted_apart [] targets p h = tt
accepted_apart (m ∷ ms) targets p h = (
  later_apart m (ground arith) ms [] targets (ground arith) (ground arith),
  accepted_apart ms (m.target ∷ targets) (ground arith) (ground arith),
)

-- A transformation that succeeds, whose definition the schema accepts, has at each target the value
-- of its mapping, and nothing where the value is missing; its text is that of its output, and within
-- the limit.
pub transformation-Delivered :
    (rt : Runtime) (input : Json) (ms : List Mapping) (t : Transformed)
    → all_paths ms ≡ true
    → unique_targets ms [] ≡ true
    → execute_transformation rt ms input ≡ ok t
    → All (Delivered rt input t.output) ms
      × (len t.serialized ≤ 131_072)
      × (t.serialized ≡ stable rt.quote (object t.output))
transformation-Delivered rt input ms t p h g =
    execute-Delivered rt input ms t g (accepted_apart ms [] p h)
