-- ===== src/Json.antt =====
-- crates/tea-protocol/src/json.rs: JSON values and their conversion to and from those of Miniserde. Both
-- kinds of value have the same constructors over a type of numbers, so that they are one data type
-- here. The floats, and whether one is finite, are parameters. A `BTreeMap` of members is the list of
-- them in the order of their keys, which its iteration and its collection from such a list keep.
pub mod RoundTrip
pub mod Finite
use pi_agent_core_rs.Prelude.{
  ℕ, zero, suc, ◌*◌, Bool, true, false, List, [], ◌∷◌, ◌++◌, Option, none, some, Text, codes,
  text_eq, if◌then◌else◌, replicate,
}
use pi_agent_core_rs.Prelude.Sets.{text_lt}

mutual
  pub data Value (N : Type 0) : Type 0 where
    null : Value N
    bool : Bool → Value N
    number : N → Value N
    string : Text → Value N
    array : Items N → Value N
    object : Members N → Value N

  pub data Items (N : Type 0) : Type 0 where
    no_items : Items N
    item : Value N → Items N → Items N

  pub data Members (N : Type 0) : Type 0 where
    no_members : Members N
    member : Text → Value N → Members N → Members N

-- An `i64`.
pub data Integer : Type 0 where
  non_negative negative : ℕ → Integer

-- `JsonNumber`, and the numbers of Miniserde.
pub data JsonNumber (F : Type 0) : Type 0 where
  signed_number : Integer → JsonNumber F
  unsigned_number : ℕ → JsonNumber F
  float : F → JsonNumber F

pub data MiniNumber (F : Type 0) : Type 0 where
  mini_u64 : ℕ → MiniNumber F
  mini_i64 : Integer → MiniNumber F
  mini_f64 : F → MiniNumber F

abbrev pub JsonValue : Type 0 → Type 0
JsonValue F = Value (JsonNumber F)

abbrev pub MiniValue : Type 0 → Type 0
MiniValue F = Value (MiniNumber F)

pub data JsonKind : Type 0 where
  null boolean number string array object : JsonKind

pub data JsonError : Type 0 where
  type_mismatch : (expected actual : JsonKind) → JsonError
  missing_field invalid_number unsupported message : Text → JsonError

pub data JsonResult (A : Type 0) : Type 0 where
  ok : A → JsonResult A
  err : JsonError → JsonResult A

unfoldable pub then_json : {A B : Type 0} → JsonResult A → (A → JsonResult B) → JsonResult B
then_json (ok a) f = f a
then_json (err e) f = err e

abbrev pub not_finite : JsonError
not_finite = invalid_number (codes "JSON numbers must be finite")

module _ {F : Type 0} where
  unfoldable pub kind : JsonValue F → JsonKind
  kind Value.null = JsonKind.null
  kind (bool _) = boolean
  kind (Value.number _) = JsonKind.number
  kind (Value.string _) = JsonKind.string
  kind (Value.array _) = JsonKind.array
  kind (Value.object _) = JsonKind.object

  unfoldable pub as_str : JsonValue F → Option Text
  as_str (Value.string value) = some value
  as_str _ = none

  unfoldable pub as_bool : JsonValue F → Option Bool
  as_bool (bool value) = some value
  as_bool _ = none

  unfoldable pub as_u64 : JsonValue F → Option ℕ
  as_u64 (Value.number (unsigned_number value)) = some value
  as_u64 _ = none

  unfoldable pub as_array : JsonValue F → Option (Items (JsonNumber F))
  as_array (Value.array values) = some values
  as_array _ = none

  unfoldable pub as_object : JsonValue F → Option (Members (JsonNumber F))
  as_object (Value.object values) = some values
  as_object _ = none

  unfoldable pub is_null : JsonValue F → Bool
  is_null Value.null = true
  is_null _ = false

  unfoldable pub is_object : JsonValue F → Bool
  is_object (Value.object _) = true
  is_object _ = false

  -- `BTreeMap::get` and `BTreeMap::insert` on members.
  unfoldable pub get_member : Text → Members (JsonNumber F) → Option (JsonValue F)
  get_member key no_members = none
  get_member key (member k value rest) = if text_eq k key then some value else get_member key rest

  unfoldable pub insert_member :
      Text → JsonValue F → Members (JsonNumber F) → Members (JsonNumber F)
  unfolding text_lt
  insert_member key value no_members = member key value no_members
  insert_member key value (member k v rest) =
      if text_eq k key
      then member key value rest
      else if text_lt key k
      then member key value (member k v rest)
      else member k v (insert_member key value rest)

  -- `JsonValue::get`.
  unfoldable pub get : Text → JsonValue F → Option (JsonValue F)
  unfolding get_member
  get key (Value.object values) = get_member key values
  get key _ = none

  collect_members : List (Text × JsonValue F) → Members (JsonNumber F) → Members (JsonNumber F)
  unfolding insert_member
  collect_members [] members = members
  collect_members ((key, value) ∷ values) members =
      collect_members values (insert_member key value members)

  -- `JsonValue::object`.
  unfoldable pub object_of : List (Text × JsonValue F) → JsonValue F
  unfolding collect_members
  object_of values = Value.object (collect_members values no_members)

module _ {F : Type 0} (is_finite : F → Bool) where
  -- `JsonValue::number`.
  unfoldable pub checked_number : JsonNumber F → JsonResult (JsonValue F)
  checked_number (float value) =
      if is_finite value then ok (Value.number (float value)) else err not_finite
  checked_number n = ok (Value.number n)

  unfoldable pub from_number : MiniNumber F → JsonResult (JsonValue F)
  unfolding checked_number
  from_number (mini_i64 value) = ok (Value.number (signed_number value))
  from_number (mini_u64 value) = ok (Value.number (unsigned_number value))
  from_number (mini_f64 value) = checked_number (float value)

  unfoldable pub to_number : JsonNumber F → JsonResult (MiniValue F)
  to_number (signed_number value) = ok (Value.number (mini_i64 value))
  to_number (unsigned_number value) = ok (Value.number (mini_u64 value))
  to_number (float value) =
      if is_finite value then ok (Value.number (mini_f64 value)) else err not_finite

  -- The conversions stop at the first error in an array or object.
  unfoldable mutual
    unfolding from_number then_json

    pub from_miniserde : MiniValue F → JsonResult (JsonValue F)
    from_miniserde Value.null = ok Value.null
    from_miniserde (bool value) = ok (bool value)
    from_miniserde (Value.number n) = from_number n
    from_miniserde (Value.string value) = ok (Value.string value)
    from_miniserde (Value.array values) =
        then_json (from_items values) λ converted. ok (Value.array converted)
    from_miniserde (Value.object values) =
        then_json (from_members values) λ converted. ok (Value.object converted)

    pub from_items : Items (MiniNumber F) → JsonResult (Items (JsonNumber F))
    from_items no_items = ok no_items
    from_items (item value values) =
        then_json (from_miniserde value) λ v. then_json (from_items values) λ vs. ok (item v vs)

    pub from_members : Members (MiniNumber F) → JsonResult (Members (JsonNumber F))
    from_members no_members = ok no_members
    from_members (member key value values) =
        then_json (from_miniserde value)
          λ v. then_json (from_members values) λ vs. ok (member key v vs)

  unfoldable mutual
    unfolding to_number then_json

    pub to_miniserde : JsonValue F → JsonResult (MiniValue F)
    to_miniserde Value.null = ok Value.null
    to_miniserde (bool value) = ok (bool value)
    to_miniserde (Value.number n) = to_number n
    to_miniserde (Value.string value) = ok (Value.string value)
    to_miniserde (Value.array values) =
        then_json (to_items values) λ converted. ok (Value.array converted)
    to_miniserde (Value.object values) =
        then_json (to_members values) λ converted. ok (Value.object converted)

    pub to_items : Items (JsonNumber F) → JsonResult (Items (MiniNumber F))
    to_items no_items = ok no_items
    to_items (item value values) =
        then_json (to_miniserde value) λ v. then_json (to_items values) λ vs. ok (item v vs)

    pub to_members : Members (JsonNumber F) → JsonResult (Members (MiniNumber F))
    to_members no_members = ok no_members
    to_members (member key value values) =
        then_json (to_miniserde value) λ v. then_json (to_members values) λ vs. ok (member key v vs)

-- The text codec of Miniserde.
module _ {F : Type 0} (is_finite : F → Bool) (encode : MiniValue F → Text)
    (decode : Text → Option (MiniValue F)) where
  parse_value : Option (MiniValue F) → JsonResult (JsonValue F)
  parse_value none = err (message (codes "invalid JSON"))
  parse_value (some value) = from_miniserde is_finite value

  unfoldable pub parse : Text → JsonResult (JsonValue F)
  unfolding parse_value
  parse input = parse_value (decode input)

  unfoldable pub to_json_string : JsonValue F → JsonResult Text
  to_json_string value = then_json (to_miniserde is_finite value) λ mini. ok (encode mini)

  -- `indent`.
  unfoldable pub indent : ℕ → Text
  indent zero = []
  indent (suc depth) = codes "  " ++ indent depth

  item_comma : Items (JsonNumber F) → Text
  item_comma no_items = []
  item_comma (item _ _) = codes ","

  member_comma : Members (JsonNumber F) → Text
  member_comma no_members = []
  member_comma (member _ _ _) = codes ","

  bool_text : Bool → Text
  bool_text true = codes "true"
  bool_text false = codes "false"

  -- What `write_pretty` pushes for a value; an array or object that is not empty is opened and
  -- closed around its parts.
  unfoldable mutual
    unfolding to_json_string then_json indent item_comma member_comma bool_text

    pub write_pretty : JsonValue F → ℕ → JsonResult Text
    write_pretty Value.null depth = ok (codes "null")
    write_pretty (bool value) depth = ok (bool_text value)
    write_pretty (Value.number n) depth = to_json_string (Value.number n)
    write_pretty (Value.string value) depth = to_json_string (Value.string value)
    write_pretty (Value.array no_items) depth = ok (codes "[]")
    write_pretty (Value.array (item value values)) depth =
        then_json (write_items (item value values) depth)
          λ parts. ok (codes "[" ++ (parts ++ (b'\n' ∷ (indent depth ++ codes "]"))))
    write_pretty (Value.object no_members) depth = ok (codes "{}")
    write_pretty (Value.object (member key value values)) depth =
        then_json (write_members (member key value values) depth)
          λ parts. ok (codes "{" ++ (parts ++ (b'\n' ∷ (indent depth ++ codes "}"))))

    pub write_items : Items (JsonNumber F) → ℕ → JsonResult Text
    write_items no_items depth = ok []
    write_items (item value values) depth = then_json (write_pretty value (suc depth)) λ text.
        then_json (write_items values depth)
          λ rest. ok (b'\n' ∷ (indent (suc depth) ++ (text ++ (item_comma values ++ rest))))

    pub write_members : Members (JsonNumber F) → ℕ → JsonResult Text
    write_members no_members depth = ok []
    write_members (member key value values) depth =
        then_json (to_json_string (Value.string key)) λ name.
          then_json (write_pretty value (suc depth)) λ text.
            then_json (write_members values depth) λ rest. ok (
              b'\n'
              ∷ (indent (suc depth)
                  ++ (name ++ (codes ": " ++ (text ++ (member_comma values ++ rest))))))

  unfoldable pub to_json_string_pretty : JsonValue F → JsonResult Text
  to_json_string_pretty value = write_pretty value 0
