-- ===== src/Tool/Truncate/Utf8.antt =====
-- tool.rs: truncation keeps a text well formed, so that no slice is cut inside a character.
use mathlib.Core.List.{append_assoc}
use pi_agent_core_rs.Prelude.{
  ℕ, zero, suc, ◌+◌, ◌-◌, ◌<◌, ◌≡◌, refl, ◌⊎◌, inl, inr, Bool, true, false, [], ◌∷◌, ◌++◌, Text,
  codes, ◌&&◌, arith, ltb, leb, if◌then◌else◌, All, length, get_elem?, min, take, drop,
  length-append, Bool-cases, take-append_right, drop-append_right, get_elem?-append_right, ltb→lt,
}
use native.Mathlib.Nat.{suc-add}
use pi_agent_core_rs.Tool.Truncate.{
  is_continuation, truncation_marker, boundary_at, is_char_boundary, lower, utf8_prefix_end, raise,
  utf8_suffix_start, around_marker, truncate_middle,
}

-- The bytes of a character that begins with `b`, by the table of UTF-8; 0 if none begins so.
abbrev pub width : ℕ → ℕ
width b =
    if ltb b 128
    then 1
    else if ltb b 194
    then 0
    else if ltb b 224
    then 2
    else if ltb b 240
    then 3
    else if ltb b 245
    then 4
    else 0

-- A sequence of characters: leading bytes, each with the continuation bytes that it announces.
pub data IsUtf8 : Text → Type 0 where
  empty : IsUtf8 []
  char :
      (b : ℕ) (bs rest : Text) {s : Text}
      → width b ≡ suc (length bs)
      → All (λ c. is_continuation c ≡ true) bs
      → s ≡ (b ∷ bs) ++ rest
      → IsUtf8 rest
      → IsUtf8 s

pub append-IsUtf8 : {s t : Text} → IsUtf8 s → IsUtf8 t → IsUtf8 (s ++ t)
append-IsUtf8 empty v = v
append-IsUtf8 {t = t} (char b bs rest w c e u) v =
    char b bs (rest ++ t) w c (rw e (append_assoc (b ∷ bs) rest t)) (append-IsUtf8 u v)

inside_char :
    (bs rest : Text) (i : ℕ)
    → All (λ c. is_continuation c ≡ true) bs
    → i < length bs
    → boundary_at (get_elem? (bs ++ rest) i) ≡ false
unfolding boundary_at
inside_char [] rest i c h = absurd (omega arith)
inside_char (b ∷ bs) rest zero c h = ground (arith, c.0)
inside_char (b ∷ bs) rest (suc i) c h = inside_char bs rest i c.1 (omega arith)

boundary_behind :
    (xs rest : Text) (j : ℕ)
    → 0 < length xs
    → is_char_boundary (xs ++ rest) (length xs + j) ≡ true
    → is_char_boundary rest j ≡ true
unfolding is_char_boundary
boundary_behind xs rest zero l h = refl
boundary_behind [] rest (suc j) l h = absurd (omega arith)
boundary_behind (x ∷ xs) rest (suc j) l h =
    let h' = rw (suc-add (length xs) (suc j), get_elem?-append_right xs rest (suc j)) at h in
    ground (arith, h', length-append xs rest)

-- A boundary is the first, or lies behind the first character and is one of the rest.
boundary_cases :
    (b : ℕ) (bs rest : Text) (i : ℕ)
    → All (λ c. is_continuation c ≡ true) bs
    → is_char_boundary ((b ∷ bs) ++ rest) i ≡ true
    → (i ≡ 0) ⊎ ((j : ℕ) × (i ≡ length (b ∷ bs) + j) × (is_char_boundary rest j ≡ true))
boundary_cases b bs rest zero c h = inl refl
boundary_cases b bs rest (suc i) c h = elim (Bool-cases (ltb i (length bs))) [
  | inl less ↦ absurd (impossible (ltb→lt _ _ less))
  | inr more ↦
      let e : suc i ≡ length (b ∷ bs) + (i - length bs) = ground arith in
      inr (i - length bs, e, boundary_behind (b ∷ bs) rest _ (omega arith) (rw e at h))
]
  where
    impossible : i < length bs → ⊥
    impossible less =
        unfold is_char_boundary in
        ground (arith, h, inside_char bs rest i c less, length-append bs rest)

take-IsUtf8 : {s : Text} (i : ℕ) → IsUtf8 s → is_char_boundary s i ≡ true → IsUtf8 (take i s)
take-IsUtf8 zero u h = empty
take-IsUtf8 (suc i) empty h = empty
take-IsUtf8 (suc i) (char b bs rest w c e u) h =
    elim (boundary_cases b bs rest (suc i) c (rw e at h)) [
      | inl z ↦ absurd (omega arith)
      | inr (j, q, hj) ↦
          let q' : i ≡ length bs + j = omega arith in
          char b bs (take j rest) w c (rw (e, q', take-append_right bs rest j)) (take-IsUtf8 j u hj)
    ]

drop-IsUtf8 : {s : Text} (i : ℕ) → IsUtf8 s → is_char_boundary s i ≡ true → IsUtf8 (drop i s)
drop-IsUtf8 zero u h = u
drop-IsUtf8 (suc i) empty h = empty
drop-IsUtf8 (suc i) (char b bs rest w c e u) h =
    elim (boundary_cases b bs rest (suc i) c (rw e at h)) [
      | inl z ↦ absurd (omega arith)
      | inr (j, q, hj) ↦
          let q' : i ≡ length bs + j = omega arith in
          rw (e, q', drop-append_right bs rest j) (drop-IsUtf8 j u hj)
    ]

lower-boundary : (value : Text) (end : ℕ) → is_char_boundary value (lower value end) ≡ true
unfolding lower
lower-boundary value zero = unfold is_char_boundary in refl
lower-boundary value (suc end) = ground (arith, lower-boundary value end)

-- The end of a prefix is a boundary, so that the slice before it does not panic.
pub utf8_prefix_end-boundary :
    (value : Text) (limit : ℕ) → is_char_boundary value (utf8_prefix_end value limit) ≡ true
unfolding utf8_prefix_end
utf8_prefix_end-boundary value limit = lower-boundary value (min limit (length value))

length-boundary : (value : Text) (n : ℕ) → n ≡ length value → is_char_boundary value n ≡ true
unfolding is_char_boundary
length-boundary value zero e = refl
length-boundary value (suc n) e = ground arith

raise-boundary :
    (value : Text) (left start : ℕ)
    → start + left ≡ length value
    → is_char_boundary value (raise value left start) ≡ true
unfolding raise
raise-boundary value zero start e = length-boundary value start (omega arith)
raise-boundary value (suc left) start e =
    ground (arith, raise-boundary value left (suc start) (omega arith))

-- So is the start of a suffix.
pub utf8_suffix_start-boundary :
    (value : Text) (limit : ℕ) → is_char_boundary value (utf8_suffix_start value limit) ≡ true
unfolding utf8_suffix_start
utf8_suffix_start-boundary value limit =
    raise-boundary value (min limit (length value)) (length value - limit) (omega arith)

-- A text of bytes below 128.
abbrev pub is_ascii : Text → Bool
is_ascii [] = true
is_ascii (b ∷ bs) = ltb b 128 && is_ascii bs

pub ascii-IsUtf8 : (s : Text) → is_ascii s ≡ true → IsUtf8 s
ascii-IsUtf8 [] h = empty
ascii-IsUtf8 (b ∷ bs) h = char b [] bs (ground arith) tt refl (ascii-IsUtf8 bs (ground arith))

marker-IsUtf8 : IsUtf8 truncation_marker
unfolding truncation_marker
marker-IsUtf8 =
    char 226 (128 ∷ 166 ∷ []) _ refl (refl, (refl, tt)) refl
      (append-IsUtf8 (ascii-IsUtf8 (codes " [truncated] ") refl)
        (char 226 (128 ∷ 166 ∷ []) [] refl (refl, (refl, tt)) refl empty))

-- A well-formed text stays well formed when it is truncated to any number of bytes.
pub truncate_middle-IsUtf8 :
    (value : Text) (limit : ℕ) → IsUtf8 value → IsUtf8 (truncate_middle value limit)
unfolding truncate_middle around_marker
truncate_middle-IsUtf8 value limit u = elim (Bool-cases (leb (length value) limit)) [
  | inl small ↦ rw small u
  | inr big ↦ rw big (elim (Bool-cases (leb limit (length truncation_marker))) [
    | inl tiny ↦ rw tiny (take-IsUtf8 _ marker-IsUtf8 (utf8_prefix_end-boundary _ limit))
    | inr room ↦ rw room (
        append-IsUtf8 (take-IsUtf8 _ u (utf8_prefix_end-boundary value _))
          (append-IsUtf8 marker-IsUtf8 (drop-IsUtf8 _ u (utf8_suffix_start-boundary value _))))
  ])
]
