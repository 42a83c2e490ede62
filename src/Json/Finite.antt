-- ===== src/Json/Finite.antt =====
-- Which values can be converted: those whose floats are all finite.
use pi_agent_core_rs.Prelude.{Bool, true, false, ◌&&◌, ◌≡◌, refl, Bool-cases, inl, inr}
use pi_agent_core_rs.Json.{
  Value, bool, Items, no_items, item, Members, no_members, member, JsonNumber, signed_number,
  unsigned_number, float, JsonValue, MiniValue, JsonResult, ok, err, then_json, to_number,
  from_miniserde, to_miniserde, to_items, to_members, mini_f64, mini_i64, mini_u64, not_finite,
}
use pi_agent_core_rs.Json.RoundTrip.{to_miniserde_iff}

-- The conversion returns a value, or the error of a number.
abbrev pub Converts : {A : Type 0} → Bool → JsonResult A → Type 0
Converts {A} true r = (a : A) × (r ≡ ok a)
Converts false r = r ≡ err not_finite

module _ {F : Type 0} (is_finite : F → Bool) where
  abbrev number_finite : JsonNumber F → Bool
  number_finite (signed_number _) = true
  number_finite (unsigned_number _) = true
  number_finite (float x) = is_finite x

  unfoldable mutual
    pub all_finite : JsonValue F → Bool
    all_finite Value.null = true
    all_finite (bool _) = true
    all_finite (Value.number n) = number_finite n
    all_finite (Value.string _) = true
    all_finite (Value.array vs) = items_finite vs
    all_finite (Value.object vs) = members_finite vs

    pub items_finite : Items (JsonNumber F) → Bool
    items_finite no_items = true
    items_finite (item v vs) = all_finite v && items_finite vs

    pub members_finite : Members (JsonNumber F) → Bool
    members_finite no_members = true
    members_finite (member _ v vs) = all_finite v && members_finite vs

then_json-Converts :
    {A B : Type 0} (b : Bool) (r : JsonResult A) (f : A → B)
    → Converts b r
    → Converts b (then_json r (λ a. ok (f a)))
unfolding then_json
then_json-Converts true r f (a, e) = rw e (f a, refl)
then_json-Converts false r f e = rw e refl

-- Two parts, one after the other.
then_json-both :
    {A B C : Type 0} (a b : Bool) (r : JsonResult A) (s : JsonResult B) (f : A → B → C)
    → Converts a r
    → Converts b s
    → Converts (a && b) (then_json r (λ x. then_json s (λ y. ok (f x y))))
unfolding then_json
then_json-both true true r s f (x, e) (y, e') = rw (e, e') (f x y, refl)
then_json-both true false r s f (x, e) e' = rw (e, e') refl
then_json-both false b r s f e e' = rw e refl

module _ {F : Type 0} (is_finite : F → Bool) where
  to_number-Converts :
      (n : JsonNumber F) → Converts (number_finite is_finite n) (to_number is_finite n)
  unfolding to_number
  to_number-Converts (signed_number i) = (Value.number (mini_i64 i), refl)
  to_number-Converts (unsigned_number i) = (Value.number (mini_u64 i), refl)
  to_number-Converts (float x) = elim (Bool-cases (is_finite x)) [
    | inl e ↦ rw e (Value.number (mini_f64 x), refl)
    | inr e ↦ rw e refl
  ]

  mutual
    unfolding all_finite to_miniserde

    to_miniserde-Converts :
        (v : JsonValue F) → Converts (all_finite is_finite v) (to_miniserde is_finite v)
    to_miniserde-Converts Value.null = (Value.null, refl)
    to_miniserde-Converts (bool b) = (bool b, refl)
    to_miniserde-Converts (Value.number n) = to_number-Converts n
    to_miniserde-Converts (Value.string t) = (Value.string t, refl)
    to_miniserde-Converts (Value.array vs) =
        then_json-Converts (items_finite is_finite vs) _ Value.array (to_items-Converts vs)
    to_miniserde-Converts (Value.object vs) =
        then_json-Converts (members_finite is_finite vs) _ Value.object (to_members-Converts vs)

    to_items-Converts :
        (vs : Items (JsonNumber F)) → Converts (items_finite is_finite vs) (to_items is_finite vs)
    to_items-Converts no_items = (no_items, refl)
    to_items-Converts (item v vs) =
        then_json-both (all_finite is_finite v) (items_finite is_finite vs) _ _ item
          (to_miniserde-Converts v) (to_items-Converts vs)

    to_members-Converts :
        (vs : Members (JsonNumber F))
        → Converts (members_finite is_finite vs) (to_members is_finite vs)
    to_members-Converts no_members = (no_members, refl)
    to_members-Converts (member k v vs) =
        then_json-both (all_finite is_finite v) (members_finite is_finite vs) _ _ (member k)
          (to_miniserde-Converts v) (to_members-Converts vs)

-- What the conversion gives: a value that is converted back, or the error.
abbrev pub RoundTrips : {F : Type 0} → (F → Bool) → JsonValue F → Bool → Type 0
RoundTrips {F} is_finite v true =
    (w : MiniValue F) × (to_miniserde is_finite v ≡ ok w) × (from_miniserde is_finite w ≡ ok v)
RoundTrips is_finite v false = to_miniserde is_finite v ≡ err not_finite

-- A value whose floats are all finite is converted to a value of Miniserde that is converted back to it;
-- one with a float that is not finite is refused as an invalid number.
pub to_miniserde-RoundTrips :
    {F : Type 0} (is_finite : F → Bool) (v : JsonValue F)
    → RoundTrips is_finite v (all_finite is_finite v)
to_miniserde-RoundTrips is_finite v =
    back (all_finite is_finite v) (to_miniserde-Converts is_finite v)
  where
    back : (b : Bool) → Converts b (to_miniserde is_finite v) → RoundTrips is_finite v b
    back true (w, e) = (w, e, (to_miniserde_iff is_finite v w).0 e)
    back false e = e
