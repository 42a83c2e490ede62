-- ===== src/Tests/Json.antt =====
-- json.rs of the protocol at an array of two numbers.
use pi_agent_core_rs.Prelude.{Bool, true, codes}
use pi_agent_core_rs.Json.{
  JsonValue, array, number, object, item, no_items, member, no_members, signed_number, float,
  non_negative,
}
use pi_agent_core_rs.Json.Finite.{RoundTrips, all_finite, to_miniserde-RoundTrips}

-- The Booleans stand for floats, of which `true` is finite.
abbrev numbers : JsonValue Bool
numbers = object (
    member (codes "n")
      (array (item (number (signed_number (non_negative 1))) (item (number (float true)) no_items)))
      no_members)

to_miniserde-RoundTrips_example : RoundTrips (λ b. b) numbers (all_finite (λ b. b) numbers)
to_miniserde-RoundTrips_example = to_miniserde-RoundTrips (λ b. b) numbers
