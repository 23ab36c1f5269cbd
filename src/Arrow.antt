-- ===== src/Arrow.antt =====
-- The part of Arrow's data model that the sinks use: the types of columns, the fields of a schema,
-- and of a finished array its type and which of its slots hold a value.
use kraken_data_recorder.Base.{
  ℕ, Result, ok, Bool, true, false, List, [], ◌∷◌, map, Option, none, some, String, ◌≡◌,
}

pub data DataType : Type 0 where
  boolean : DataType
  int8 : DataType
  int64 : DataType
  uint64 : DataType
  float64 : DataType
  utf8 : DataType
  quotes : DataType

pub record Field : Type 0 where
  pub name : String
  pub type : DataType
  pub nullable : Bool

abbrev pub field : String → DataType → Bool → Field
field name type nullable = record { name = name; type = type; nullable = nullable }

pub record Array : Type 0 where
  pub type : DataType
  pub valid : List Bool

-- What `Finish` of a builder gives that was only given values.
abbrev pub finish {ℓ} : {A : Type ℓ} → DataType → List A → Array
finish type values = record { type = type; valid = map (λ value. true) values }

unfoldable is_some {ℓ} : {A : Type ℓ} → Option A → Bool
is_some none = false
is_some (some a) = true

-- What it gives that was also given nulls.
unfoldable pub finish_optional {ℓ} : {A : Type ℓ} → DataType → List (Option A) → Array
unfolding is_some
finish_optional type entries = record { type = type; valid = map is_some entries }

-- `null_count() != 0`
unfoldable pub any_null : List Bool → Bool
any_null [] = false
any_null (false ∷ slots) = true
any_null (true ∷ slots) = any_null slots

-- A batch fits its schema: as many columns as fields, each of its field's type, and with no null
-- where the field is not nullable.
abbrev pub Fits : List Field → List Array → Type 0
Fits [] [] = Unit
Fits [] (array ∷ arrays) = ⊥
Fits (f ∷ fields) [] = ⊥
Fits (f ∷ fields) (array ∷ arrays) =
    (array.type ≡ f.type) × (f.nullable ≡ false → any_null array.valid ≡ false) × Fits fields arrays

-- `WriteRecordBatch` of a writer: it is given how often it has been called before, and a batch of so
-- many rows, which it writes, or it fails.
abbrev pub Writer : Type 0 → Type 0
Writer Columns = ℕ → ℕ × Columns → Result (Unit {0})

-- It fails at no batch.
abbrev pub NeverFails : {Columns : Type 0} → Writer Columns → Type 0
NeverFails {Columns} writer = (calls : ℕ) (batch : ℕ × Columns) → writer calls batch ≡ ok tt
