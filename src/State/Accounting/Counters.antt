-- ===== src/State/Accounting/Counters.antt =====
-- state/accounting.rs: the token counters of an agent over a sequence of turns.
use mathlib.Core.List.{append_assoc, append-nil}
use pi_agent_core_rs.Prelude.{
  ℕ, ◌+◌, ◌≡◌, refl, Bool, ◌||◌, List, [], ◌∷◌, ◌++◌, Option, none, some, min, u64_max, sat_add,
  is_some, arith,
}
use pi_agent_core_rs.State.Types.{Usage, ModelTurnAccounting, ModelAccountingSnapshot}
use pi_agent_core_rs.State.Accounting.{
  is_reported, later, merge, or_zero, add_usage, record_turn, no_accounting, record_all,
}

pub data Counter : Type 0 where
  input output reasoning cache_read cache_write : Counter

abbrev pub read : Counter → Usage → Option ℕ
read input u = u.input_tokens
read output u = u.output_tokens
read reasoning u = u.reasoning_tokens
read cache_read u = u.cache_read_tokens
read cache_write u = u.cache_write_tokens

abbrev cons_some : Option ℕ → List ℕ → List ℕ
cons_some none ns = ns
cons_some (some n) ns = n ∷ ns

-- The values of a counter that the turns report.
abbrev pub reported : Counter → List ModelTurnAccounting → List ℕ
reported c [] = []
reported c (t ∷ ts) = cons_some (read c t.usage) (reported c ts)

abbrev pub sum : List ℕ → ℕ
sum [] = 0
sum (n ∷ ns) = n + sum ns

-- No value at all if nothing is reported, and else the sum, held at `u64::MAX`.
abbrev pub saturated : List ℕ → Option ℕ
saturated [] = none
saturated (n ∷ ns) = some (min (n + sum ns) u64_max)

add_all : Option ℕ → List ℕ → Option ℕ
add_all total [] = total
add_all total (n ∷ ns) = add_all (some (sat_add (or_zero total) n)) ns

add_all-some :
    (n : ℕ) (ns : List ℕ) → add_all (some (min n u64_max)) ns ≡ some (min (n + sum ns) u64_max)
unfolding add_all sat_add
add_all-some n [] = ground arith
add_all-some n (m ∷ ns) =
    let e : min (min n u64_max + m) u64_max ≡ min (n + m) u64_max = omega arith in
    let e' : min (n + m + sum ns) u64_max ≡ min (n + (m + sum ns)) u64_max = omega arith in
    rw (e, add_all-some (n + m) ns, e')

add_all-saturated : (ns : List ℕ) → add_all none ns ≡ saturated ns
unfolding add_all sat_add
add_all-saturated [] = refl
add_all-saturated (n ∷ ns) =
    let e : min (0 + n) u64_max ≡ min n u64_max = omega arith in rw (e, add_all-some n ns)

read-record_turn :
    (c : Counter) (s : ModelAccountingSnapshot) (t : ModelTurnAccounting)
    → read c (record_turn s t).aggregate ≡ add_usage (read c s.aggregate) (read c t.usage)
unfolding record_turn
read-record_turn input s t = refl
read-record_turn output s t = refl
read-record_turn reasoning s t = refl
read-record_turn cache_read s t = refl
read-record_turn cache_write s t = refl

add_usage-add_all :
    (total value : Option ℕ) (ns : List ℕ)
    → add_all (add_usage total value) ns ≡ add_all total (cons_some value ns)
unfolding add_usage add_all
add_usage-add_all total none ns = refl
add_usage-add_all total (some n) ns = refl

record_all-read :
    (c : Counter) (s : ModelAccountingSnapshot) (ts : List ModelTurnAccounting)
    → read c (record_all s ts).aggregate ≡ add_all (read c s.aggregate) (reported c ts)
unfolding record_all add_all
record_all-read c s [] = refl
record_all-read c s (t ∷ ts) =
    rw (record_all-read c (record_turn s t) ts, read-record_turn c s t)
      (add_usage-add_all (read c s.aggregate) (read c t.usage) (reported c ts))

record_all-turns :
    (s : ModelAccountingSnapshot) (ts : List ModelTurnAccounting)
    → (record_all s ts).turns ≡ s.turns ++ ts
unfolding record_all record_turn
record_all-turns s [] = rw append-nil
record_all-turns s (t ∷ ts) =
    rw (record_all-turns (record_turn s t) ts) (append_assoc s.turns (t ∷ []) ts)

-- After any sequence of turns on a fresh agent, the snapshot holds these turns in order, and each of
-- the five token counters is absent if no turn reported it, and otherwise the sum of what was
-- reported, held at the greatest `u64`.
pub record_all-saturated :
    (c : Counter) (ts : List ModelTurnAccounting)
    → let s = record_all no_accounting ts in
      (s.turns ≡ ts) × (read c s.aggregate ≡ saturated (reported c ts))
record_all-saturated c ts =
    (record_all-turns no_accounting ts, rw (record_all-read c no_accounting ts) (nothing c))
  where
    nothing :
        (c : Counter)
        → add_all (read c no_accounting.aggregate) (reported c ts) ≡ saturated (reported c ts)
    nothing input = add_all-saturated (reported input ts)
    nothing output = add_all-saturated (reported output ts)
    nothing reasoning = add_all-saturated (reported reasoning ts)
    nothing cache_read = add_all-saturated (reported cache_read ts)
    nothing cache_write = add_all-saturated (reported cache_write ts)

later_assoc {ℓ} : {A : Type ℓ} (a b c : Option A) → later (later a b) c ≡ later a (later b c)
later_assoc a b none = refl
later_assoc a b (some v) = refl

later-is_some {ℓ} : {A : Type ℓ} (a b : Option A) → is_some (later a b) ≡ (is_some a || is_some b)
later-is_some none none = refl
later-is_some none (some v) = refl
later-is_some (some u) none = refl
later-is_some (some u) (some v) = refl

-- One field more in a disjunction over the fields of two reports.
or_fields {ℓ} :
    {A : Type ℓ} (a b : Option A) (p q : Bool) {r : Bool}
    → r ≡ (p || q)
    → (is_some (later a b) || r) ≡ ((is_some a || p) || (is_some b || q))
or_fields a b p q k = ground (arith, later-is_some a b)

abbrev from_cache_write : Usage → Bool
from_cache_write u = is_some u.cache_write_tokens || is_some u.cost

abbrev from_cache_read : Usage → Bool
from_cache_read u = is_some u.cache_read_tokens || from_cache_write u

abbrev from_reasoning : Usage → Bool
from_reasoning u = is_some u.reasoning_tokens || from_cache_read u

abbrev from_output : Usage → Bool
from_output u = is_some u.output_tokens || from_reasoning u

-- Merging the updates of one response is associative, and a merged report has a field exactly if one
-- of its parts has one: nothing unknown becomes known.
pub merge_laws :
    (u v w : Usage)
    → (merge (merge u v) w ≡ merge u (merge v w))
      × (is_reported (merge u v) ≡ (is_reported u || is_reported v))
unfolding merge is_reported
merge_laws u v w = (
  λ i. record {
    input_tokens = later_assoc u.input_tokens v.input_tokens w.input_tokens i;
    output_tokens = later_assoc u.output_tokens v.output_tokens w.output_tokens i;
    reasoning_tokens = later_assoc u.reasoning_tokens v.reasoning_tokens w.reasoning_tokens i;
    cache_read_tokens = later_assoc u.cache_read_tokens v.cache_read_tokens w.cache_read_tokens i;
    cache_write_tokens =
        later_assoc u.cache_write_tokens v.cache_write_tokens w.cache_write_tokens i;
    cost = later_assoc u.cost v.cost w.cost i;
  },
  or_fields u.input_tokens v.input_tokens (from_output u) (from_output v) (
      or_fields u.output_tokens v.output_tokens (from_reasoning u) (from_reasoning v) (
        or_fields u.reasoning_tokens v.reasoning_tokens (from_cache_read u) (from_cache_read v) (
          or_fields u.cache_read_tokens v.cache_read_tokens (from_cache_write u)
            (from_cache_write v)
            (or_fields u.cache_write_tokens v.cache_write_tokens (is_some u.cost) (is_some v.cost)
              (later-is_some u.cost v.cost))))),
)
