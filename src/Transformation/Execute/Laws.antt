-- ===== src/Transformation/Execute/Laws.antt =====
-- What a transformation that succeeds has made.
use Prim.Native.String.{String, len}
use partner_integration_reli.Prelude.{
  ◌≡◌, ◌∙◌, ◌≤◌, ◌⊎◌, refl, sym, ap, subst, Option, none, some, List, [], ◌∷◌, ok, All,
  Option-cases, Result-cases, Bool-cases, inl, inr, arith, ltb,
}
use text.Mathlib.TextEquality.{eq_iff}
use partner_integration_reli.Json.{Json, object, Fields, empty}
use partner_integration_reli.Transformation.Definition.{Mapping}
use partner_integration_reli.Transformation.Path.{path_segments, read_path, write_path}
use partner_integration_reli.Transformation.Path.Laws.{
  read_path_empty, Apart, differ, below, write_path-read, write_path-Apart,
}
use partner_integration_reli.Transformation.Stable.{stable}
use partner_integration_reli.Transformation.Execute.{
  Runtime, Transformed, mapped_value, apply_mapping, apply_mappings, execute_transformation,
}

-- No target leads to another one.
abbrev pub ApartFrom : Mapping → List Mapping → Type 0
ApartFrom m = All (λ n. Apart (path_segments n.target) (path_segments m.target))

abbrev pub TargetsApart : List Mapping → Type 0
TargetsApart [] = Unit
TargetsApart (m ∷ ms) = ApartFrom m ms × TargetsApart ms

-- The value of a mapping, or its absence, is what stands at its target.
abbrev pub Delivered : Runtime → Json → Fields → Mapping → Type 0
Delivered rt input output m =
    (mapped_value rt input m.kind ≡ ok (read_path (object output) m.target))

abbrev Untouched : Fields → Mapping → Type 0
Untouched output m = read_path (object output) m.target ≡ none

Apart-sym : {ps qs : List String} → Apart ps qs → Apart qs ps
Apart-sym (differ {p} {q} e) = differ (ground (arith, e, eq_iff p q, eq_iff q p))
Apart-sym (below a) = below (Apart-sym a)

module _ (rt : Runtime) (input : Json) where
  apply_cases :
      (m : Mapping) (output output' : Fields)
      → apply_mapping rt input m output ≡ ok output'
      → (o : Option Json) × (mapped_value rt input m.kind ≡ ok o)
        × ((o ≡ none) × (output' ≡ output)
            ⊎ (v : Json) × (o ≡ some v) × (write_path output m.target v ≡ some output'))
  unfolding apply_mapping
  apply_cases m output output' h = elim (Result-cases (mapped_value rt input m.kind)) [
    | inl (e, f) ↦ let g = rw (f, apply_mapping) at h in cc
    | inr (o, f) ↦ elim (Option-cases o) [
      | inl gone ↦ elim (Bool-cases m.required) [
        | inl needed ↦ let g = rw needed at (rw gone at (rw (f, apply_mapping) at h)) in cc
        | inr free ↦
            let g = rw free at (rw gone at (rw (f, apply_mapping) at h)) in (o, f, inl (gone, cc))
      ]
      | inr (v, there) ↦ elim (Option-cases (write_path output m.target v)) [
        | inl clash ↦ let g = rw clash at (rw there at (rw (f, apply_mapping) at h)) in cc
        | inr (out, done) ↦
            let g = rw done at (rw there at (rw (f, apply_mapping) at h)) in
            let same : out ≡ output' = cc in (o, f, inr (v, there, done ∙ ap some same))
      ]
    ]
  ]

  apply-Apart :
      (m : Mapping) (output output' : Fields) (path : String)
      → apply_mapping rt input m output ≡ ok output'
      → Apart (path_segments m.target) (path_segments path)
      → read_path (object output') path ≡ read_path (object output) path
  apply-Apart m output output' path h a = elim ((apply_cases m output output' h).2) [
    | inl (gone, same) ↦ ap (λ x. read_path (object x) path) same
    | inr (v, there, done) ↦ write_path-Apart output m.target v output' path done a
  ]

  apply_mappings-Apart :
      (ms : List Mapping) (output output' : Fields) (path : String)
      → apply_mappings rt input ms output ≡ ok output'
      → All (λ n. Apart (path_segments n.target) (path_segments path)) ms
      → read_path (object output') path ≡ read_path (object output) path
  unfolding apply_mappings
  apply_mappings-Apart [] output output' path h a =
      let same : output ≡ output' = cc in ap (λ x. read_path (object x) path) (sym same)
  apply_mappings-Apart (m ∷ ms) output output' path h (a, as_rest) =
      elim (Result-cases (apply_mapping rt input m output)) [
        | inl (e, f) ↦ let g = rw (f, apply_mappings) at h in cc
        | inr (next, f) ↦
            let g = rw (f, apply_mappings) at h in
            apply_mappings-Apart ms next output' path g as_rest ∙ apply-Apart m output next path f a
      ]

  still-Untouched :
      (m : Mapping) (output output' : Fields) (ms : List Mapping)
      → apply_mapping rt input m output ≡ ok output'
      → ApartFrom m ms
      → All (Untouched output) ms
      → All (Untouched output') ms
  still-Untouched m output output' [] h a u = tt
  still-Untouched m output output' (n ∷ ms) h (a, as_rest) (u, us) = (
    apply-Apart m output output' n.target h (Apart-sym a) ∙ u,
    still-Untouched m output output' ms h as_rest us,
  )

  apply-Delivered :
      (m : Mapping) (output output' : Fields)
      → apply_mapping rt input m output ≡ ok output'
      → Untouched output m
      → Delivered rt input output' m
  apply-Delivered m output output' h u =
      let (o, f, either) = apply_cases m output output' h in
      elim either [
        | inl (gone, same) ↦
            f ∙ ap ok (gone ∙ sym (ap (λ x. read_path (object x) m.target) same ∙ u))
        | inr (v, there, done) ↦
            f ∙ ap ok (there ∙ sym (write_path-read output m.target v output' done))
      ]

  apply_mappings-Delivered :
      (ms : List Mapping) (output output' : Fields)
      → apply_mappings rt input ms output ≡ ok output'
      → TargetsApart ms
      → All (Untouched output) ms
      → All (Delivered rt input output') ms
  unfolding apply_mappings
  apply_mappings-Delivered [] output output' h a u = tt
  apply_mappings-Delivered (m ∷ ms) output output' h (a, as_rest) (u, us) =
      elim (Result-cases (apply_mapping rt input m output)) [
        | inl (e, f) ↦ let g = rw (f, apply_mappings) at h in cc
        | inr (next, f) ↦
            let g = rw (f, apply_mappings) at h in
            (
              apply-Delivered m output next f u
                  ∙ ap ok (sym (apply_mappings-Apart ms next output' m.target g a)),
              apply_mappings-Delivered ms next output' g as_rest
                  (still-Untouched m output next ms f a us),
            )
      ]

  empty-Untouched : (ms : List Mapping) → All (Untouched empty) ms
  empty-Untouched [] = tt
  empty-Untouched (m ∷ ms) = (read_path_empty m.target, empty-Untouched ms)

  -- A transformation that succeeds, of targets that lie apart, has at each target the value of its
  -- mapping, and nothing where the value is missing; its text is within the limit.
  pub execute-Delivered :
      (ms : List Mapping) (t : Transformed)
      → execute_transformation rt ms input ≡ ok t
      → TargetsApart ms
      → All (Delivered rt input t.output) ms
        × (len t.serialized ≤ 131_072)
        × (t.serialized ≡ stable rt.quote (object t.output))
  unfolding execute_transformation
  execute-Delivered ms t h a = elim (Result-cases (apply_mappings rt input ms empty)) [
    | inl (e, f) ↦ let g = rw (f, execute_transformation) at h in cc
    | inr (output, f) ↦
        let text = stable rt.quote (object output) in
        elim (Bool-cases (ltb 131_072 (len text))) [
          | inl over ↦ let g = rw over at (rw (f, execute_transformation) at h) in cc
          | inr within ↦
              let g = rw within at (rw (f, execute_transformation) at h) in
              let same : record { output = output; serialized = text; hash = rt.hash text } ≡ t =
                cc in
              subst
                (λ (x : Transformed).
                  All (Delivered rt input x.output) ms
                  × (len x.serialized ≤ 131_072)
                  × (x.serialized ≡ stable rt.quote (object x.output)))
                same
                (
                  apply_mappings-Delivered ms empty output f a (empty-Untouched ms),
                  ground (arith, within),
                  refl,
                )
        ]
  ]
