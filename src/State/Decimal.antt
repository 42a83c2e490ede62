-- ===== src/State/Decimal.antt =====
-- state/accounting.rs: `decimal_add`, `decimal_parts` and `decimal_normalize` on decimal texts.
pub mod Align
use mathlib.Core.List.{reverse}
use pi_agent_core_rs.Prelude.{
  ℕ, zero, suc, ◌+◌, ◌-◌, ◌*◌, ◌/◌, ◌%◌, ◌^◌, Bool, true, false, not, ◌&&◌, ◌||◌, List, [], ◌∷◌,
  ◌++◌, Option, none, some, Text, codes, max, ltb, leb, ◌==◌, if◌then◌else◌, length, is_empty, take,
  drop, replicate, last?,
}

-- `split_once` by a set of characters: the parts before and after the first that fits.
unfoldable pub split_once : (ℕ → Bool) → Text → Option (Text × Text)
split_once p [] = none
split_once p (c ∷ cs) =
    let rest = split_once p cs in
    if p c then some ([], cs) else elim rest [ none ↦ none | some (a, b) ↦ some (c ∷ a, b) ]

-- `trim_start_matches(c)`.
unfoldable pub trim_start : ℕ → Text → Text
trim_start c [] = []
trim_start c (b ∷ bs) = let rest = trim_start c bs in if b == c then rest else b ∷ bs

-- An `i64` by its sign and its magnitude.
pub data Signed : Type 0 where
  non_negative negative : ℕ → Signed

digits_value : ℕ → Text → Option ℕ
digits_value acc [] = some acc
digits_value acc (b ∷ bs) =
    let rest = digits_value (acc * 10 + (b - 48)) bs in if leb 48 b && leb b 57 then rest else none

magnitude : Text → Option ℕ
unfolding digits_value
magnitude [] = none
magnitude (b ∷ bs) = digits_value 0 (b ∷ bs)

in_range : ℕ → Option ℕ → ℕ
in_range limit none = 0
in_range limit (some n) = if leb n limit then n else 0

-- `exponent.parse::<i64>().unwrap_or(0)`: a sign or none, digits, and 0 for all else.
unfoldable pub parse_exponent : Text → Signed
unfolding magnitude in_range
parse_exponent [] = non_negative 0
parse_exponent (b ∷ bs) =
    if b == b'-'
    then negative (in_range (2 ^ 63) (magnitude bs))
    else if b == b'+'
    then non_negative (in_range (2 ^ 63 - 1) (magnitude bs))
    else non_negative (in_range (2 ^ 63 - 1) (magnitude (b ∷ bs)))

-- `(fraction.len() as i64 - exponent).max(0)`, where the subtraction wraps as in a release build.
unfoldable pub scale_of : ℕ → Signed → ℕ
scale_of fraction (non_negative e) = fraction - e
scale_of fraction (negative e) = if ltb (fraction + e) (2 ^ 63) then fraction + e else 0

-- `coefficient.split_once('.').unwrap_or((coefficient, ""))`.
unfoldable pub point_split : Text → Text × Text
unfolding split_once
point_split coefficient = elim (split_once (λ c. c == b'.') coefficient) [
  | none ↦ (coefficient, [])
  | some parts ↦ parts
]

-- The digits without leading zeros, at least one.
coefficient_digits : Text → Text → Text
unfolding trim_start
coefficient_digits whole fraction =
    let digits = trim_start b'0' (trim_start b'+' whole ++ fraction) in
    if is_empty digits then b'0' ∷ [] else digits

-- The digits and the scale of a coefficient under an exponent.
unfoldable pub scaled_parts : Text → Signed → Text × ℕ
unfolding point_split coefficient_digits scale_of
scaled_parts coefficient exponent =
    let (whole, fraction) = point_split coefficient in
    (coefficient_digits whole fraction, scale_of (length fraction) exponent)

unfoldable pub decimal_parts : Text → Text × ℕ
unfolding scaled_parts split_once parse_exponent
decimal_parts value = elim (split_once (λ c. c == b'e' || c == b'E') value) [
  | none ↦ scaled_parts value (non_negative 0)
  | some (coefficient, exponent) ↦ scaled_parts coefficient (parse_exponent exponent)
]

-- The loop over `left.bytes().rev().zip(right.bytes().rev())`, lowest digit first; the output is that
-- of the `push` calls, the last carry included.
unfoldable pub columns : ℕ → Text → Text → Text
columns carry [] right = if carry == 0 then [] else (48 + carry) ∷ []
columns carry (l ∷ ls) [] = if carry == 0 then [] else (48 + carry) ∷ []
columns carry (l ∷ ls) (r ∷ rs) =
    let sum = l - 48 + r - 48 + carry in (48 + sum % 10) ∷ columns (sum / 10) ls rs

-- The digits of the sum of two coefficients that were brought to one scale.
unfoldable pub aligned_sum : Text → Text → Text
unfolding columns
aligned_sum left right = reverse (columns 0 (reverse left) (reverse right))

-- `while output.ends_with('0') { output.pop(); }`
unfoldable pub pop_zeros : Text → Text
unfolding trim_start
pop_zeros output = reverse (trim_start b'0' (reverse output))

-- `if output.ends_with('.') { output.pop(); }`
pop_point : Text → Text
pop_point [] = []
pop_point (b ∷ bs) = if b == b'.' then bs else b ∷ bs

unfoldable pub decimal_normalize : Text → Text
unfolding decimal_parts pop_zeros pop_point
decimal_normalize value =
    let (digits, scale) = decimal_parts value in
    let position = length digits - scale in
    let output : Text =
      if leb (length digits) scale
      then codes "0." ++ (replicate (scale - length digits) b'0' ++ digits)
      else take position digits ++ (codes "." ++ drop position digits) in
    if scale == 0 then digits else reverse (pop_point (reverse (pop_zeros output)))

-- The decimal point put into the digits of a sum.
place_point : ℕ → Text → Text
place_point scale output =
    let padded : Text =
      if leb (length output) scale
      then replicate (scale + 1 - length output) b'0' ++ output
      else output in
    let position = length padded - scale in
    if scale == 0 then output else take position padded ++ (codes "." ++ drop position padded)

unfoldable pub decimal_add : Text → Text → Text
unfolding decimal_normalize aligned_sum place_point
decimal_add lhs rhs =
    let (left_digits, left_scale) = decimal_parts lhs in
    let (right_digits, right_scale) = decimal_parts rhs in
    let scale = max left_scale right_scale in
    let left = left_digits ++ replicate (scale - left_scale) b'0' in
    let right = right_digits ++ replicate (scale - right_scale) b'0' in
    decimal_normalize (place_point scale (aligned_sum left right))
