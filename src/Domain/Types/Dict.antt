-- ===== src/Domain/Types/Dict.antt =====
-- `to_dict` and `type_from_dict` of src/invariantql/domain/types.py. The fuel of `type_from_dict` is
-- Python's recursion limit: each nested type takes one call. Python's `int(…)` is a parameter. A
-- struct field's name that is no text, and a time zone that is neither a text nor None, which no
-- `to_dict` writes, are refused.
use Prim.Native.Nat.{max}
use invariantql.Prelude.{
  Option, String, and-eq-true_iff, arith, if◌then◌else◌, none, refl, some, suc, true, zero, ℕ, ◌==◌,
  ◌≡◌, ◌≤◌,
}
use invariantql.Domain.Diagnostics.{
  Outcome, attribute_error, key_error, recursion_error, type_error, value_error,
}
use invariantql.Domain.Types.{
  DataType, StructFields, binary, boolean, date, decimal, decimal_type, float, float_type, integer,
  integer_type, is_valid, is_valid_fields, kind, list, no_fields, null, string, struct, timestamp,
  unknown, with_field,
}
use invariantql.Prelude.Int.{negsuc, pos, ℤ}
use invariantql.Prelude.Json.{
  Entries, Items, Json, array, cons, dict, end, entry, find, find_or, int, nil, str,
}
use invariantql.Prelude.Results.{err, ok, ◌>>=◌}

abbrev zone_value : Option String → Json
zone_value none = Json.null
zone_value (some zone) = str zone

unfoldable mutual
  pub to_dict : DataType → Entries
  to_dict (integer bits) = entry "kind" (str "integer") (entry "bits" (int (pos bits)) end)
  to_dict (float bits) = entry "kind" (str "float") (entry "bits" (int (pos bits)) end)
  to_dict (decimal precision scale) =
      entry "kind" (str "decimal")
        (entry "precision" (int (pos precision)) (entry "scale" (int (pos scale)) end))
  to_dict (timestamp zone) = entry "kind" (str "timestamp") (entry "timezone" (zone_value zone) end)
  to_dict (list element) = entry "kind" (str "list") (entry "element" (dict (to_dict element)) end)
  to_dict (struct members) =
      entry "kind" (str "struct") (entry "fields" (array (fields_to_list members)) end)
  to_dict unknown = entry "kind" (str "unknown") end
  to_dict null = entry "kind" (str "null") end
  to_dict boolean = entry "kind" (str "boolean") end
  to_dict string = entry "kind" (str "string") end
  to_dict binary = entry "kind" (str "binary") end
  to_dict date = entry "kind" (str "date") end

  pub fields_to_list : StructFields → Items
  fields_to_list no_fields = nil
  fields_to_list (with_field name t members) =
      cons (dict (entry "name" (str name) (entry "type" (dict (to_dict t)) end)))
        (fields_to_list members)

-- The constructors on Python's integers: a negative argument is out of every range.
abbrev integer_of : ℤ → Outcome DataType
integer_of (pos bits) = integer_type bits
integer_of (negsuc _) = err value_error

abbrev float_of : ℤ → Outcome DataType
float_of (pos bits) = float_type bits
float_of (negsuc _) = err value_error

abbrev decimal_of : ℤ → ℤ → Outcome DataType
decimal_of (pos precision) (pos scale) = decimal_type precision scale
decimal_of _ _ = err value_error

abbrev timestamp_of : Json → Outcome DataType
timestamp_of Json.null = ok (timestamp none)
timestamp_of (str zone) = ok (timestamp (some zone))
timestamp_of _ = err type_error

-- `data[key]`
abbrev pub required : String → Entries → Outcome Json
required key es = elim (find key es) [ none ↦ err (key_error key) | some v ↦ ok v ]

abbrev pub as_text : Json → Outcome String
as_text (str s) = ok s
as_text _ = err type_error

abbrev pub as_dict : Json → Outcome Entries
as_dict (dict es) = ok es
as_dict _ = err type_error

-- The fields of a struct, each type read by `from`.
unfoldable pub fields_from : (Json → Outcome DataType) → Items → Outcome StructFields
fields_from from nil = ok no_fields
fields_from from (cons f items) = do
  es ← as_dict f
  name ← required "name" es >>= as_text
  t ← required "type" es >>= from
  rest ← fields_from from items
  ok (with_field name t rest)

abbrev struct_of : (Json → Outcome DataType) → Json → Outcome DataType
struct_of from (array items) = do members ← fields_from from items; ok (struct members)
struct_of from _ = err type_error

abbrev simple_of : String → Outcome DataType
simple_of kind =
    if kind == "unknown"
    then ok unknown
    else if kind == "null"
    then ok null
    else if kind == "boolean"
    then ok boolean
    else if kind == "string"
    then ok string
    else if kind == "binary"
    then ok binary
    else if kind == "date"
    then ok date
    else err value_error

module _ (to_int : Json → Outcome ℤ) where
  -- One call of `type_from_dict` on a dict whose kind is a text.
  abbrev pub type_of_kind : (Json → Outcome DataType) → String → Entries → Outcome DataType
  type_of_kind from kind es =
      if kind == "integer"
      then to_int (find_or "bits" (int (pos 64)) es) >>= integer_of
      else if kind == "float"
      then to_int (find_or "bits" (int (pos 64)) es) >>= float_of
      else if kind == "decimal"
      then (do
        precision ← to_int (find_or "precision" (int (pos 38)) es)
        scale ← to_int (find_or "scale" (int (pos 9)) es)
        decimal_of precision scale)
      else if kind == "timestamp"
      then timestamp_of (find_or "timezone" Json.null es)
      else if kind == "list"
      then (do element ← from (find_or "element" (dict end) es); ok (list element))
      else if kind == "struct"
      then struct_of from (find_or "fields" (array nil) es)
      else simple_of kind

  -- A kind that is no text equals none of the known ones; a list or a dict is not hashable.
  abbrev pub type_of_entries : (Json → Outcome DataType) → Json → Entries → Outcome DataType
  type_of_entries from (str kind) es = type_of_kind from kind es
  type_of_entries from (array _) es = err type_error
  type_of_entries from (dict _) es = err type_error
  type_of_entries from _ es = err value_error

  unfoldable pub type_from_dict : ℕ → Json → Outcome DataType
  type_from_dict zero data_dict = err recursion_error
  type_from_dict (suc fuel) (dict es) =
      type_of_entries (type_from_dict fuel) (find_or "kind" (str "unknown") es) es
  type_from_dict (suc fuel) _ = err attribute_error

-- How deep the calls of `type_from_dict` nest.
unfoldable mutual
  pub depth : DataType → ℕ
  depth (list element) = suc (depth element)
  depth (struct members) = suc (depth_fields members)
  depth _ = 1

  pub depth_fields : StructFields → ℕ
  depth_fields no_fields = 0
  depth_fields (with_field name t members) = max (depth t) (depth_fields members)

module _ (to_int : Json → Outcome ℤ) (to_int-int : (n : ℤ) → to_int (int n) ≡ ok n) where
  mutual
    unfolding type_from_dict fields_from to_dict depth is_valid

    from_dict-to_dict :
        (t : DataType) (fuel : ℕ)
        → depth t ≤ fuel
        → is_valid t ≡ true
        → type_from_dict to_int fuel (dict (to_dict t)) ≡ ok t
    from_dict-to_dict (integer bits) zero h v = absurd (omega arith)
    from_dict-to_dict (list element) zero h v = absurd (omega arith)
    from_dict-to_dict (struct members) zero h v = absurd (omega arith)
    from_dict-to_dict _ zero h v = absurd (omega arith)
    from_dict-to_dict (integer bits) (suc fuel) h v = rw to_int-int (rw v)
    from_dict-to_dict (float bits) (suc fuel) h v = rw to_int-int (rw v)
    from_dict-to_dict (decimal precision scale) (suc fuel) h v =
        rw (to_int-int (pos precision)) (rw (to_int-int (pos scale)) (rw v))
    from_dict-to_dict (timestamp none) (suc fuel) h v = refl
    from_dict-to_dict (timestamp (some zone)) (suc fuel) h v = refl
    from_dict-to_dict (list element) (suc fuel) h v =
        rw (from_dict-to_dict element fuel (omega arith) v)
    from_dict-to_dict (struct members) (suc fuel) h v =
        rw (fields_from-to_list members fuel (omega arith) v)
    from_dict-to_dict _ (suc fuel) h v = refl

    fields_from-to_list :
        (members : StructFields) (fuel : ℕ)
        → depth_fields members ≤ fuel
        → is_valid_fields members ≡ true
        → fields_from (type_from_dict to_int fuel) (fields_to_list members) ≡ ok members
    fields_from-to_list no_fields fuel h v = refl
    fields_from-to_list (with_field name t members) fuel h v =
        let (here, later) = (and-eq-true_iff (is_valid t) (is_valid_fields members)).0 v in
        rw (from_dict-to_dict t fuel (omega arith) here)
          (rw (fields_from-to_list members fuel (omega arith) later))

  -- Reading back the dictionary of a valid type gives the type, for every recursion limit of at
  -- least the depth of the type.
  pub type_from_dict-to_dict :
      (t : DataType) (fuel : ℕ)
      → is_valid t ≡ true
      → depth t ≤ fuel
      → type_from_dict to_int fuel (dict (to_dict t)) ≡ ok t
  type_from_dict-to_dict t fuel v h = from_dict-to_dict t fuel h v
