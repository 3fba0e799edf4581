-- ===== src/Transformation/Execute.antt =====
-- `executeTransformation` of packages/transformation/src/index.ts.
pub mod Laws
pub mod Accepted
use Prim.Native.String.{String, ◌++◌, len}
use partner_integration_reli.Prelude.{
  ℕ, ltb, Bool, true, false, Option, none, some, get_or, List, [], ◌∷◌, if◌then◌else◌, Result, ok,
  err,
}
use partner_integration_reli.Json.{
  Json, null, bool, number, string, array, object, Fields, empty, property,
}
use partner_integration_reli.Transformation.Definition.{
  Operand, TextTransform, uppercase, lowercase, upper_snake, iso_date, Kind, direct, concat,
  enum_map, Mapping,
}
use partner_integration_reli.Transformation.Path.{read_path, write_path}
use partner_integration_reli.Transformation.Stable.{stable}
use partner_integration_reli.Transformation.Text.{upper_snake as to_upper_snake}

-- What a `TransformationError` says.
pub data Failure : Type 0 where
  target_conflict : String → Failure
  not_a_string not_a_date too_large : Failure
  no_enum_value : String → Failure
  source_missing : String → Failure

-- The runtime's functions on texts: case, the literal of a text, the hash, and `new Date`, a date
-- as its text in ISO form.
pub record Runtime : Type 0 where
  pub to_upper : String → String
  pub to_lower : String → String
  pub quote : String → String
  pub hash : String → ℕ
  pub is_iso_day : String → Bool
  pub date_of : String → Option String

pub record Transformed : Type 0 where
  pub output : Fields
  pub serialized : String
  pub hash : ℕ

-- `undefined` and `null` are one to the loop.
unfoldable pub present : Option Json → Option Json
present (some null) = none
present o = o

unfoldable pub primitive_string : Json → Result Failure String
primitive_string (string s) = ok s
primitive_string _ = err not_a_string

unfoldable pub operand : Json → Operand → Option Json
operand input o = elim o.source [ none ↦ o.literal | some path ↦ read_path input path ]

-- The values of a concatenation, unless one is missing.
unfoldable pub operands : Json → List Operand → Option (List Json)
unfolding operand present
operands input [] = some []
operands input (o ∷ os) = elim (present (operand input o)) [
  | none ↦ none
  | some v ↦ elim (operands input os) [ none ↦ none | some vs ↦ some (v ∷ vs) ]
]

unfoldable pub strings : List Json → Result Failure (List String)
unfolding primitive_string
strings [] = ok []
strings (v ∷ vs) = elim (primitive_string v) [
  | err e ↦ err e
  | ok s ↦ elim (strings vs) [ err e ↦ err e | ok ss ↦ ok (s ∷ ss) ]
]

unfoldable pub join : String → List String → String
join separator [] = ""
join separator (s ∷ []) = s
join separator (s ∷ t ∷ ss) = s ++ (separator ++ join separator (t ∷ ss))

module _ (rt : Runtime) where
  -- The first ten characters of the date in ISO form are `date_of`'s.
  unfoldable pub iso_day : String → Result Failure String
  iso_day value =
      if rt.is_iso_day value
      then ok value
      else elim (rt.date_of value) [ none ↦ err not_a_date | some day ↦ ok day ]

  unfoldable pub transform_text : TextTransform → String → Result Failure String
  unfolding iso_day to_upper_snake
  transform_text uppercase s = ok (rt.to_upper s)
  transform_text lowercase s = ok (rt.to_lower s)
  transform_text upper_snake s = ok (to_upper_snake s)
  transform_text iso_date s = iso_day s

  unfoldable pub transform_value : Option TextTransform → Json → Result Failure Json
  unfolding transform_text primitive_string
  transform_value none v = ok v
  transform_value (some t) v = elim (primitive_string v) [
    | err e ↦ err e
    | ok s ↦ elim (transform_text t s) [ err e ↦ err e | ok s' ↦ ok (string s') ]
  ]

  -- `typeof value === "string" ? value : stable(value)`.
  unfoldable pub enum_key : Json → String
  enum_key (string s) = s
  enum_key v = stable rt.quote v

  -- `values[key] ?? default`, which must not be undefined; `null` goes on, as a missing value.
  unfoldable pub enum_value : Fields → Option Json → String → Result Failure (Option Json)
  unfolding present
  enum_value values default key = elim (present (property values key)) [
    | some v ↦ ok (some v)
    | none ↦ elim default [ none ↦ err (no_enum_value key) | some d ↦ ok (present (some d)) ]
  ]

  -- The value of a mapping, `none` where it is missing.
  unfoldable pub mapped_value : Json → Kind → Result Failure (Option Json)
  unfolding operand operands present strings join transform_value enum_key enum_value
  mapped_value input (direct o t) = elim (present (operand input o)) [
    | none ↦ ok none
    | some v ↦ elim (transform_value t v) [ err e ↦ err e | ok v' ↦ ok (some v') ]
  ]
  mapped_value input (concat os separator) = elim (operands input os) [
    | none ↦ ok none
    | some vs ↦ elim (strings vs) [
      | err e ↦ err e
      | ok ss ↦ ok (some (string (join (get_or separator "") ss)))
    ]
  ]
  mapped_value input (enum_map source values default) = elim (present (read_path input source)) [
    | none ↦ ok none
    | some v ↦ enum_value values default (enum_key v)
  ]

  unfoldable pub apply_mapping : Json → Mapping → Fields → Result Failure Fields
  unfolding mapped_value
  apply_mapping input m output = elim (mapped_value input m.kind) [
    | err e ↦ err e
    | ok none ↦ if m.required then err (source_missing m.target) else ok output
    | ok (some v) ↦ elim (write_path output m.target v) [
      | none ↦ err (target_conflict m.target)
      | some output' ↦ ok output'
    ]
  ]

  unfoldable pub apply_mappings : Json → List Mapping → Fields → Result Failure Fields
  unfolding apply_mapping
  apply_mappings input [] output = ok output
  apply_mappings input (m ∷ ms) output = elim (apply_mapping input m output) [
    | err e ↦ err e
    | ok output' ↦ apply_mappings input ms output'
  ]

  abbrev size_limit : ℕ
  size_limit = 131_072

  unfoldable pub execute_transformation : List Mapping → Json → Result Failure Transformed
  unfolding apply_mappings
  execute_transformation mappings input = elim (apply_mappings input mappings empty) [
    | err e ↦ err e
    | ok output ↦
        let serialized = stable rt.quote (object output) in
        if ltb size_limit (len serialized)
        then err too_large
        else ok (record { output = output; serialized = serialized; hash = rt.hash serialized })
  ]
