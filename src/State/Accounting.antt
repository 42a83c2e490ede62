-- ===== src/State/Accounting.antt =====
-- state/accounting.rs: merging the reports of one turn, and the aggregate over all turns. The addition
-- of costs is in `State.Decimal`.
pub mod Counters
use pi_agent_core_rs.Prelude.{
  ℕ, Bool, ◌||◌, List, [], ◌∷◌, ◌++◌, Option, none, some, Text, sat_add, is_some,
}
use pi_agent_core_rs.State.Types.{Usage, no_usage, ModelTurnAccounting, ModelAccountingSnapshot}
use pi_agent_core_rs.State.Decimal.{decimal_add}

unfoldable pub is_reported : Usage → Bool
is_reported u =
    is_some u.input_tokens
    || (is_some u.output_tokens
        || (is_some u.reasoning_tokens
            || (is_some u.cache_read_tokens || (is_some u.cache_write_tokens || is_some u.cost))))

-- `if update.field.is_some() { self.field = update.field; }`
abbrev pub later {ℓ} : {A : Type ℓ} → Option A → Option A → Option A
later old none = old
later old (some v) = some v

unfoldable pub merge : Usage → Usage → Usage
merge u update = record {
  input_tokens = later u.input_tokens update.input_tokens;
  output_tokens = later u.output_tokens update.output_tokens;
  reasoning_tokens = later u.reasoning_tokens update.reasoning_tokens;
  cache_read_tokens = later u.cache_read_tokens update.cache_read_tokens;
  cache_write_tokens = later u.cache_write_tokens update.cache_write_tokens;
  cost = later u.cost update.cost;
}

-- `total.unwrap_or(0)`.
abbrev pub or_zero : Option ℕ → ℕ
or_zero none = 0
or_zero (some n) = n

unfoldable pub add_usage : Option ℕ → Option ℕ → Option ℕ
add_usage total none = total
add_usage total (some value) = some (sat_add (or_zero total) value)

add_cost : Option Text → Option Text → Option Text
add_cost total none = total
add_cost none (some cost) = some cost
add_cost (some previous) (some cost) = some (decimal_add previous cost)

-- `ModelAccountingSnapshot::record`.
unfoldable pub record_turn : ModelAccountingSnapshot → ModelTurnAccounting → ModelAccountingSnapshot
unfolding add_cost
record_turn s t =
    let sums = s.aggregate in
    let aggregate : Usage = record {
      input_tokens = add_usage sums.input_tokens t.usage.input_tokens;
      output_tokens = add_usage sums.output_tokens t.usage.output_tokens;
      reasoning_tokens = add_usage sums.reasoning_tokens t.usage.reasoning_tokens;
      cache_read_tokens = add_usage sums.cache_read_tokens t.usage.cache_read_tokens;
      cache_write_tokens = add_usage sums.cache_write_tokens t.usage.cache_write_tokens;
      cost = add_cost sums.cost t.usage.cost;
    } in
    record { turns = s.turns ++ t ∷ []; aggregate = aggregate }

-- `ModelAccountingSnapshot::default()`.
abbrev pub no_accounting : ModelAccountingSnapshot
no_accounting = record { turns = []; aggregate = no_usage }

-- The turns of a conversation, recorded one after the other.
unfoldable pub record_all :
    ModelAccountingSnapshot → List ModelTurnAccounting → ModelAccountingSnapshot
record_all s [] = s
record_all s (t ∷ ts) = record_all (record_turn s t) ts
