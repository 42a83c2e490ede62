-- ===== src/Tests/State.antt =====
-- accounting.rs on two turns and on a pair of decimal texts.
use pi_agent_core_rs.Prelude.{ℕ, ◌+◌, ◌%◌, ◌^◌, ◌≡◌, refl, List, [], ◌∷◌, none, some, codes, arith}
use pi_agent_core_rs.State.Types.{Usage, no_usage, ModelTurnAccounting}
use pi_agent_core_rs.State.Decimal.{
  split_once, trim_start, columns, aligned_sum, scaled_parts, scale_of, non_negative,
  parse_exponent, decimal_parts, point_split, pop_zeros, decimal_normalize, decimal_add,
}
use pi_agent_core_rs.State.Decimal.Align.{number, aligned_sum_loses, decimal_parts_forgets}
use pi_agent_core_rs.State.Accounting.{record_all, no_accounting}
use pi_agent_core_rs.State.Accounting.Counters.{
  input, read, reported, saturated, record_all-saturated,
}

abbrev told : ℕ → Usage
told n = record no_usage { input_tokens = some n }

abbrev turn : ℕ → Usage → ModelTurnAccounting
turn n u = record { run_id = 1; turn_id = n; model = none; usage = u }

abbrev two_turns : List ModelTurnAccounting
two_turns = turn 1 (told 10) ∷ turn 2 no_usage ∷ turn 3 (told 5) ∷ []

record_all-saturated_example :
    ((record_all no_accounting two_turns).turns ≡ two_turns)
    × (read input (record_all no_accounting two_turns).aggregate
        ≡ saturated (reported input two_turns))
record_all-saturated_example = record_all-saturated input two_turns

-- 10 + 5, and 0.012 + 0.5 at the scale of three places.
aligned_sum_loses_example :
    number (aligned_sum (codes "10") (codes "5"))
    ≡ number (codes "10") % 10 ^ 1 + number (codes "5") % 10 ^ 1
aligned_sum_loses_example = aligned_sum_loses (codes "10") (codes "5") (omega arith) (omega arith)

short_left : decimal_add (codes "0.012") (codes "0.5") ≡ codes "0.012"
unfolding decimal_add decimal_normalize decimal_parts scaled_parts point_split scale_of split_once
    trim_start columns aligned_sum pop_zeros parse_exponent
short_left = refl

one_thousand : parse_exponent (codes "3") ≡ non_negative 3
unfolding parse_exponent
one_thousand = refl

decimal_parts_forgets_example : decimal_parts (codes "1e3") ≡ (codes "1", 0)
unfolding decimal_parts scaled_parts point_split scale_of split_once trim_start
decimal_parts_forgets_example =
    decimal_parts_forgets (codes "1") (codes "3") 3 refl one_thousand (omega arith)
