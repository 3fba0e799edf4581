-- ===== src/Transformation/Path/Laws.antt =====
-- What is written at a path is read there, and what lies apart from it stays.
use Prim.Native.String.{String}
use text.Mathlib.Text.{◌==◌ as str_eq}
use partner_integration_reli.Prelude.{
  Bool, ◌≡◌, ◌∙◌, refl, sym, ap, subst, Option, none, some, List, [], ◌∷◌, ◌++◌, true, false,
  Option-cases, inl, inr,
}
use partner_integration_reli.Json.{
  Json, null, bool, number, string, array, object, Fields, empty, property, assign,
}
use partner_integration_reli.Json.Laws.{property-assign, property-assign_same}
use partner_integration_reli.Json.Path.{drop_two, unsnoc}
use partner_integration_reli.Json.Path.Split.{split_dots-parts, unsnoc-split_dots}
use partner_integration_reli.Transformation.Path.{
  path_segments, read_segments, read_path, container, write_parts, write_path,
}

-- Two paths of which neither leads to the other.
pub data Apart : List String → List String → Type 0 where
  differ : {p q : String} {ps qs : List String} → str_eq p q ≡ false → Apart (p ∷ ps) (q ∷ qs)
  below : {p : String} {ps qs : List String} → Apart ps qs → Apart (p ∷ ps) (p ∷ qs)

abbrev goes_on : List String → Bool
goes_on [] = false
goes_on (p ∷ ps) = true

Apart-goes_on : {ps qs : List String} → Apart ps qs → (goes_on ps ≡ true) × (goes_on qs ≡ true)
Apart-goes_on (differ e) = (refl, refl)
Apart-goes_on (below a) = (refl, refl)

read_none : (ps : List String) → read_segments none ps ≡ none
unfolding read_segments
read_none [] = refl
read_none (p ∷ ps) = refl

-- A step into an object.
abbrev inside : Fields → List String → Option Json
inside fs ps = read_segments (some (object fs)) ps

-- A write below a part that goes on in `fields`.
write_step :
    (fs : Fields) (p : String) (ps : List String) (l : String) (v : Json) (fs' : Fields)
    → write_parts fs (p ∷ ps) l v ≡ some fs'
    → (fields inner : Fields) × (container (property fs p) ≡ some fields)
      × (write_parts fields ps l v ≡ some inner)
      × (fs' ≡ assign fs p (object inner))
unfolding write_parts
write_step fs p ps l v fs' h = elim (Option-cases (container (property fs p))) [
  | inl e ↦ let g = rw (e, write_parts) at h in cc
  | inr (fields, e) ↦ elim (Option-cases (write_parts fields ps l v)) [
    | inl f ↦ let g = rw f at (rw (e, write_parts) at h) in cc
    | inr (inner, f) ↦ let g = rw f at (rw (e, write_parts) at h) in (fields, inner, e, f, cc)
  ]
]

write_last :
    (fs : Fields) (l : String) (v : Json) (fs' : Fields)
    → write_parts fs [] l v ≡ some fs'
    → assign fs l v ≡ fs'
unfolding write_parts
write_last fs l v fs' h = cc

write_parts-read :
    (fs : Fields) (ps : List String) (l : String) (v : Json) (fs' : Fields)
    → write_parts fs ps l v ≡ some fs'
    → inside fs' (ps ++ l ∷ []) ≡ some v
unfolding read_segments
write_parts-read fs [] l v fs' h = rw (sym (write_last fs l v fs' h)) (property-assign_same fs l v)
write_parts-read fs (p ∷ ps) l v fs' h =
    let (fields, inner, e, f, same) = write_step fs p ps l v fs' h in
    let at_p : property fs' p ≡ some (object inner) =
      rw same (property-assign_same fs p (object inner)) in
    ap (λ o. read_segments o (ps ++ l ∷ [])) at_p ∙ write_parts-read fields ps l v inner f

nothing : (q : String) (qs : List String) → read_segments (property empty q) qs ≡ none
unfolding property
nothing q qs = read_none qs

-- Before and after a step into a container that was there or is made.
container_read :
    (o : Option Json) (fields : Fields) (q : String) (qs : List String)
    → container o ≡ some fields
    → inside fields (q ∷ qs) ≡ read_segments o (q ∷ qs)
unfolding container read_segments
container_read none fields q qs h =
    let same : empty ≡ fields = cc in
    ap (λ fs. read_segments (property fs q) qs) (sym same) ∙ nothing q qs
container_read (some (object fs)) fields q qs h =
    let same : fs ≡ fields = cc in ap (λ x. read_segments (property x q) qs) (sym same)
container_read (some null) fields q qs h = cc
container_read (some (bool x)) fields q qs h = cc
container_read (some (number x)) fields q qs h = cc
container_read (some (string x)) fields q qs h = cc
container_read (some (array x)) fields q qs h = cc

container-inside :
    (o : Option Json) (fields : Fields) (qs : List String)
    → container o ≡ some fields
    → goes_on qs ≡ true
    → inside fields qs ≡ read_segments o qs
container-inside o fields [] h g = cc
container-inside o fields (q ∷ qs) h g = container_read o fields q qs h

write_parts-Apart :
    (fs : Fields) (ps : List String) (l : String) (v : Json) (fs' : Fields) (qs : List String)
    → write_parts fs ps l v ≡ some fs'
    → Apart (ps ++ l ∷ []) qs
    → inside fs' qs ≡ inside fs qs
unfolding read_segments
write_parts-Apart fs [] l v fs' _ h (differ {q} {qs} e) =
    let at_q : property fs' q ≡ property fs q =
      rw (sym (write_last fs l v fs' h)) (property-assign fs l q v ∙ rw e refl) in
    ap (λ o. read_segments o qs) at_q
write_parts-Apart fs [] l v fs' _ h (below a) = let g = (Apart-goes_on a).0 in cc
write_parts-Apart fs (p ∷ ps) l v fs' _ h (differ {q} {qs} e) =
    let (fields, inner, found, f, same) = write_step fs p ps l v fs' h in
    let at_q : property fs' q ≡ property fs q =
      rw same (property-assign fs p q (object inner) ∙ rw e refl) in
    ap (λ o. read_segments o qs) at_q
write_parts-Apart fs (p ∷ ps) l v fs' _ h (below {qs} a) =
    let (fields, inner, found, f, same) = write_step fs p ps l v fs' h in
    let at_p : property fs' p ≡ some (object inner) =
      rw same (property-assign_same fs p (object inner)) in
    ap (λ o. read_segments o qs) at_p
    ∙ write_parts-Apart fields ps l v inner qs f a
    ∙ container-inside (property fs p) fields qs found (Apart-goes_on a).1

segments_parts :
    (path : String)
    → (unsnoc (path_segments path)).before ++ (unsnoc (path_segments path)).last ∷ []
      ≡ path_segments path
unfolding path_segments
segments_parts path = unsnoc-split_dots (drop_two path)

-- What `writePath` writes at a path, `readPath` reads there.
pub write_path-read :
    (output : Fields) (path : String) (value : Json) (output' : Fields)
    → write_path output path value ≡ some output'
    → read_path (object output') path ≡ some value
unfolding write_path read_path
write_path-read output path value output' h =
    rw (segments_parts path) at (write_parts-read output _ _ value output' h)

-- A write leaves the value at every path that lies apart from its own.
pub write_path-Apart :
    (output : Fields) (path : String) (value : Json) (output' : Fields) (other : String)
    → write_path output path value ≡ some output'
    → Apart (path_segments path) (path_segments other)
    → read_path (object output') other ≡ read_path (object output) other
unfolding write_path read_path
write_path-Apart output path value output' other h a =
    write_parts-Apart output _ _ value output' (path_segments other) h
      (subst (λ x. Apart x (path_segments other)) (sym (segments_parts path)) a)

-- An empty object has nothing at any path.
pub read_path_empty : (path : String) → read_path (object empty) path ≡ none
unfolding read_path read_segments path_segments
read_path_empty path =
    let (p, ps, e) = split_dots-parts (drop_two path) in ap (inside empty) e ∙ nothing p ps
