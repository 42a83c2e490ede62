-- ===== src/Json/RoundTrip.antt =====
-- A value that is encoded and parsed is the value again.
use pi_agent_core_rs.Prelude.{Bool, ◌≡◌, refl, Bool-cases, inl, inr, ◌↔◌}
use pi_agent_core_rs.Json.{
  Value, bool, Items, no_items, item, Members, no_members, member, JsonNumber, signed_number,
  unsigned_number, float, MiniNumber, mini_u64, mini_i64, mini_f64, JsonValue, MiniValue,
  JsonResult, ok, err, then_json, checked_number, from_number, to_number, from_miniserde,
  from_items, from_members, to_miniserde, to_items, to_members,
}

then_json-ok :
    {A B : Type 0} (r : JsonResult A) (f : A → JsonResult B) (b : B)
    → then_json r f ≡ ok b
    → (a : A) × (r ≡ ok a) × (f a ≡ ok b)
unfolding then_json
then_json-ok (ok a) f b e = (a, refl, e)
then_json-ok (err x) f b e = cc

module _ {F : Type 0} (is_finite : F → Bool) where
  to_number-inverse :
      (n : JsonNumber F) (w : MiniValue F)
      → to_number is_finite n ≡ ok w
      → from_miniserde is_finite w ≡ ok (Value.number n)
  unfolding to_number from_miniserde from_number checked_number
  to_number-inverse (signed_number i) w e =
      let h : Value.number (mini_i64 i) ≡ w = cc in rw (← h) refl
  to_number-inverse (unsigned_number i) w e =
      let h : Value.number (mini_u64 i) ≡ w = cc in rw (← h) refl
  to_number-inverse (float x) w e = elim (Bool-cases (is_finite x)) [
    | inl f ↦
        let e' = rw f at e in let h : Value.number (mini_f64 x) ≡ w = cc in rw (← h) (rw f refl)
    | inr f ↦ let e' = rw f at e in cc
  ]

  mutual
    unfolding to_miniserde from_miniserde

    to_miniserde-inverse :
        (v : Value (JsonNumber F)) (w : Value (MiniNumber F))
        → to_miniserde is_finite v ≡ ok w
        → from_miniserde is_finite w ≡ ok v
    to_miniserde-inverse Value.null w e = let h : Value.null ≡ w = cc in rw (← h) refl
    to_miniserde-inverse (bool b) w e = let h : bool b ≡ w = cc in rw (← h) refl
    to_miniserde-inverse (Value.number n) w e = to_number-inverse n w e
    to_miniserde-inverse (Value.string t) w e = let h : Value.string t ≡ w = cc in rw (← h) refl
    to_miniserde-inverse (Value.array vs) w e =
        let (ws, e', h) = then_json-ok (to_items is_finite vs) _ w e in
        let h' : Value.array ws ≡ w = cc in rw (← h') (rw (to_items-inverse vs ws e') refl)
    to_miniserde-inverse (Value.object vs) w e =
        let (ws, e', h) = then_json-ok (to_members is_finite vs) _ w e in
        let h' : Value.object ws ≡ w = cc in rw (← h') (rw (to_members-inverse vs ws e') refl)

    to_items-inverse :
        (vs : Items (JsonNumber F)) (ws : Items (MiniNumber F))
        → to_items is_finite vs ≡ ok ws
        → from_items is_finite ws ≡ ok vs
    to_items-inverse no_items ws e = let h : no_items ≡ ws = cc in rw (← h) refl
    to_items-inverse (item v vs) ws e =
        let (w, e₁, e₂) = then_json-ok (to_miniserde is_finite v) _ ws e in
        let (ws', e₃, e₄) = then_json-ok (to_items is_finite vs) _ ws e₂ in
        let h : item w ws' ≡ ws = cc in
        rw (← h) (rw (to_miniserde-inverse v w e₁, to_items-inverse vs ws' e₃) refl)

    to_members-inverse :
        (vs : Members (JsonNumber F)) (ws : Members (MiniNumber F))
        → to_members is_finite vs ≡ ok ws
        → from_members is_finite ws ≡ ok vs
    to_members-inverse no_members ws e = let h : no_members ≡ ws = cc in rw (← h) refl
    to_members-inverse (member k v vs) ws e =
        let (w, e₁, e₂) = then_json-ok (to_miniserde is_finite v) _ ws e in
        let (ws', e₃, e₄) = then_json-ok (to_members is_finite vs) _ ws e₂ in
        let h : member k w ws' ≡ ws = cc in
        rw (← h) (rw (to_miniserde-inverse v w e₁, to_members-inverse vs ws' e₃) refl)

module _ {F : Type 0} (is_finite : F → Bool) where
  from_number-inverse :
      (n : MiniNumber F) (v : JsonValue F)
      → from_number is_finite n ≡ ok v
      → to_miniserde is_finite v ≡ ok (Value.number n)
  unfolding to_number to_miniserde from_number checked_number
  from_number-inverse (mini_i64 i) v e =
      let h : Value.number (signed_number i) ≡ v = cc in rw (← h) refl
  from_number-inverse (mini_u64 i) v e =
      let h : Value.number (unsigned_number i) ≡ v = cc in rw (← h) refl
  from_number-inverse (mini_f64 x) v e = elim (Bool-cases (is_finite x)) [
    | inl f ↦ let e' = rw f at e in let h : Value.number (float x) ≡ v = cc in rw (← h) (rw f refl)
    | inr f ↦ let e' = rw f at e in cc
  ]

  mutual
    unfolding from_miniserde to_miniserde

    from_miniserde-inverse :
        (v : Value (MiniNumber F)) (w : Value (JsonNumber F))
        → from_miniserde is_finite v ≡ ok w
        → to_miniserde is_finite w ≡ ok v
    from_miniserde-inverse Value.null w e = let h : Value.null ≡ w = cc in rw (← h) refl
    from_miniserde-inverse (bool b) w e = let h : bool b ≡ w = cc in rw (← h) refl
    from_miniserde-inverse (Value.number n) w e = from_number-inverse n w e
    from_miniserde-inverse (Value.string t) w e = let h : Value.string t ≡ w = cc in rw (← h) refl
    from_miniserde-inverse (Value.array vs) w e =
        let (ws, e', h) = then_json-ok (from_items is_finite vs) _ w e in
        let h' : Value.array ws ≡ w = cc in rw (← h') (rw (from_items-inverse vs ws e') refl)
    from_miniserde-inverse (Value.object vs) w e =
        let (ws, e', h) = then_json-ok (from_members is_finite vs) _ w e in
        let h' : Value.object ws ≡ w = cc in rw (← h') (rw (from_members-inverse vs ws e') refl)

    from_items-inverse :
        (vs : Items (MiniNumber F)) (ws : Items (JsonNumber F))
        → from_items is_finite vs ≡ ok ws
        → to_items is_finite ws ≡ ok vs
    from_items-inverse no_items ws e = let h : no_items ≡ ws = cc in rw (← h) refl
    from_items-inverse (item v vs) ws e =
        let (w, e₁, e₂) = then_json-ok (from_miniserde is_finite v) _ ws e in
        let (ws', e₃, e₄) = then_json-ok (from_items is_finite vs) _ ws e₂ in
        let h : item w ws' ≡ ws = cc in
        rw (← h) (rw (from_miniserde-inverse v w e₁, from_items-inverse vs ws' e₃) refl)

    from_members-inverse :
        (vs : Members (MiniNumber F)) (ws : Members (JsonNumber F))
        → from_members is_finite vs ≡ ok ws
        → to_members is_finite ws ≡ ok vs
    from_members-inverse no_members ws e = let h : no_members ≡ ws = cc in rw (← h) refl
    from_members-inverse (member k v vs) ws e =
        let (w, e₁, e₂) = then_json-ok (from_miniserde is_finite v) _ ws e in
        let (ws', e₃, e₄) = then_json-ok (from_members is_finite vs) _ ws e₂ in
        let h : member k w ws' ≡ ws = cc in
        rw (← h) (rw (from_miniserde-inverse v w e₁, from_members-inverse vs ws' e₃) refl)

-- A value is converted to a value of Miniserde exactly if that one is converted back to it.
pub to_miniserde_iff :
    {F : Type 0} (is_finite : F → Bool) (v : JsonValue F) (w : MiniValue F)
    → (to_miniserde is_finite v ≡ ok w) ↔ (from_miniserde is_finite w ≡ ok v)
to_miniserde_iff is_finite v w =
    (to_miniserde-inverse is_finite v w, from_miniserde-inverse is_finite w v)
