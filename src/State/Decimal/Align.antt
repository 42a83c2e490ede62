-- ===== src/State/Decimal/Align.antt =====
-- state/accounting.rs: the value of a decimal sum, digit by digit.
use mathlib.Core.List.{reverse, reverse_aux, reverse-reverse}
use native.Mathlib.Nat.{one-le-pow, pow-suc, add-mul-mod_self_left, mod-eq_of_lt}
use pi_agent_core_rs.Prelude.{
  ℕ, zero, suc, ◌+◌, ◌-◌, ◌*◌, ◌/◌, ◌%◌, ◌^◌, ◌≤◌, ◌<◌, ◌≡◌, refl, ap, inl, inr, none, some,
  Option-cases, Bool, true, ◌||◌, [], ◌∷◌, ◌++◌, Text, min, arith, ◌==◌, All, length, take, drop,
}
use pi_agent_core_rs.State.Decimal.{
  split_once, point_split, columns, aligned_sum, scaled_parts, scale_of, non_negative,
  parse_exponent, decimal_parts,
}

-- The number that digits stand for, lowest digit first.
abbrev pub value : Text → ℕ
value [] = 0
value (d ∷ ds) = d - 48 + 10 * value ds

abbrev pub IsDigit : ℕ → Type 0
IsDigit d = (48 ≤ d) × (d ≤ 57)

min-suc : (a b : ℕ) → min (suc a) (suc b) ≡ suc (min a b)
min-suc a b = omega arith

-- The columns are added up to the end of the shorter number.
columns-value :
    (carry : ℕ) (ls rs : Text)
    → All IsDigit ls
    → All IsDigit rs
    → carry ≤ 1
    → let shorter = min (length ls) (length rs) in
      value (columns carry ls rs) ≡ value (take shorter ls) + value (take shorter rs) + carry
unfolding columns
columns-value carry [] rs dl dr c = ground arith
columns-value carry (l ∷ ls) [] dl dr c = ground arith
columns-value carry (l ∷ ls) (r ∷ rs) dl dr c =
    let next = (l - 48 + r - 48 + carry) / 10 in
    rw (min-suc (length ls) (length rs))
      (omega (arith, columns-value next ls rs dl.1 dr.1 (omega arith)))

-- The value of digits in their written order.
abbrev pub number : Text → ℕ
number ds = value (reverse ds)

-- The last `n` digits.
abbrev pub low_digits : ℕ → Text → Text
low_digits n ds = take n (reverse ds)

-- What the sum of two aligned digit strings stands for: the sum of as many of their low digits as the
-- shorter one has.
pub aligned_sum-value :
    (left right : Text)
    → All IsDigit (reverse left)
    → All IsDigit (reverse right)
    → let shorter = min (length (reverse left)) (length (reverse right)) in
      number (aligned_sum left right)
      ≡ value (low_digits shorter left) + value (low_digits shorter right)
unfolding aligned_sum
aligned_sum-value left right dl dr =
    rw (reverse-reverse (columns 0 (reverse left) (reverse right)))
      (omega (arith, columns-value 0 (reverse left) (reverse right) dl dr (omega arith)))

take_all : (ds : Text) (n : ℕ) → length ds ≤ n → take n ds ≡ ds
take_all [] zero h = refl
take_all [] (suc n) h = refl
take_all (d ∷ ds) zero h = absurd (omega arith)
take_all (d ∷ ds) (suc n) h = ap (◌∷◌ d) (take_all ds n (omega arith))

-- Digit strings of one length, once they are brought to one scale, are added exactly.
pub aligned_sum_exact :
    (left right : Text)
    → All IsDigit (reverse left)
    → All IsDigit (reverse right)
    → length (reverse left) ≡ length (reverse right)
    → number (aligned_sum left right) ≡ number left + number right
aligned_sum_exact left right dl dr e =
    let shorter = min (length (reverse left)) (length (reverse right)) in
    let sum = aligned_sum-value left right dl dr in
    rw
      (
        take_all (reverse left) shorter (omega arith),
        take_all (reverse right) shorter (omega arith),
      )
      at sum

value-take-lt : (n : ℕ) (ds : Text) → All IsDigit ds → value (take n ds) < 10 ^ n
value-take-lt zero ds h = omega arith
value-take-lt (suc n) [] h = one-le-pow (suc n) 10 (omega arith)
value-take-lt (suc n) (d ∷ ds) h = rw (pow-suc 10 n) (omega (arith, value-take-lt n ds h.1))

-- A number is its last `n` digits and, times their power of ten, the digits before them.
value-split : (n : ℕ) (ds : Text) → value (take n ds) + 10 ^ n * value (drop n ds) ≡ value ds
value-split zero ds = omega arith
value-split (suc n) [] = omega arith
value-split (suc n) (d ∷ ds) = rw (pow-suc 10 n) (omega (arith, value-split n ds))

value-mod : (n : ℕ) (ds : Text) → All IsDigit ds → value (take n ds) ≡ value ds % 10 ^ n
value-mod n ds h =
    rw (← value-split n ds, add-mul-mod_self_left, mod-eq_of_lt (value-take-lt n ds h)) refl

length-reverse_aux : (s t : Text) → length (reverse_aux s t) ≡ length s + length t
length-reverse_aux [] t = omega arith
length-reverse_aux (c ∷ s) t = omega (arith, length-reverse_aux s (c ∷ t))

reverse_aux-IsDigit : (s t : Text) → All IsDigit s → All IsDigit t → All IsDigit (reverse_aux s t)
reverse_aux-IsDigit [] t ds dt = dt
reverse_aux-IsDigit (c ∷ s) t ds dt = reverse_aux-IsDigit s (c ∷ t) ds.1 (ds.0, dt)

length-reverse : (s : Text) → length (reverse s) ≡ length s
length-reverse s = omega (arith, length-reverse_aux s [])

-- The digits that the loop of `decimal_add` puts out for two digit strings stand for the sum of their
-- last digits, as many as the shorter string has: whatever stands before these in the longer one, on
-- either side, is lost.
pub aligned_sum_loses :
    (left right : Text)
    → All IsDigit left
    → All IsDigit right
    → let kept = 10 ^ min (length left) (length right) in
      number (aligned_sum left right) ≡ number left % kept + number right % kept
aligned_sum_loses left right dl dr =
    let dl' = reverse_aux-IsDigit left [] dl tt in
    let dr' = reverse_aux-IsDigit right [] dr tt in
    rw
      (
        ← length-reverse left,
        ← length-reverse right,
        ← value-mod _ (reverse left) dl',
        ← value-mod _ (reverse right) dr',
      )
      (aligned_sum-value left right dl' dr')

split_once-append :
    (p : ℕ → Bool) (s t : Text) (c : ℕ)
    → split_once p s ≡ none
    → p c ≡ true
    → split_once p (s ++ (c ∷ t)) ≡ some (s, t)
unfolding split_once
split_once-append p [] t c e h = ground arith
split_once-append p (b ∷ bs) t c e h = elim (Option-cases (split_once p bs)) [
  | inl q ↦ ground (arith, q, split_once-append p bs t c q h)
  | inr ((x, y), q) ↦ ground (arith, q)
]

-- The number of digits behind the point.
abbrev pub places : Text → ℕ
places coefficient = length (point_split coefficient).1

abbrev pub is_exponent_mark : ℕ → Bool
is_exponent_mark c = c == b'e' || c == b'E'

decimal_parts_plain :
    (s : Text)
    → split_once is_exponent_mark s ≡ none
    → decimal_parts s ≡ scaled_parts s (non_negative 0)
unfolding decimal_parts
decimal_parts_plain s n = rw (n, decimal_parts) refl

decimal_parts_marked :
    (coefficient exponent : Text)
    → split_once is_exponent_mark coefficient ≡ none
    → decimal_parts (coefficient ++ (b'e' ∷ exponent))
      ≡ scaled_parts coefficient (parse_exponent exponent)
unfolding decimal_parts
decimal_parts_marked coefficient exponent n =
    rw (split_once-append is_exponent_mark coefficient exponent b'e' n refl, decimal_parts) refl

-- Where the coefficient has neither `e` nor `E` in it, and the exponent behind the mark `e` parses to a
-- non-negative number that is at least the number of digits behind the coefficient's point, the text is
-- read as the digits of the coefficient with scale 0, however large the exponent is: "1e3" reads as 1.
pub decimal_parts_forgets :
    (coefficient exponent : Text) (e : ℕ)
    → split_once is_exponent_mark coefficient ≡ none
    → parse_exponent exponent ≡ non_negative e
    → places coefficient ≤ e
    → decimal_parts (coefficient ++ (b'e' ∷ exponent)) ≡ ((decimal_parts coefficient).0, 0)
unfolding scaled_parts scale_of
decimal_parts_forgets coefficient exponent e n x h =
    rw (decimal_parts_marked coefficient exponent n, decimal_parts_plain coefficient n, x)
      (ground arith)
