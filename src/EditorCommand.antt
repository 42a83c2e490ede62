-- ===== src/EditorCommand.antt =====
-- crates/tea-agent/src/editor.rs: `parse_editor`, on the characters of a valid text. The standard
-- library's `char::is_whitespace` is a parameter.
pub mod RoundTrip
use pi_agent_core_rs.Prelude.{
  ℕ, Bool, true, false, ◌&&◌, ◌||◌, List, [], ◌∷◌, ◌++◌, Option, none, some, Text, ◌==◌,
  if◌then◌else◌, is_empty, is_some,
}

pub data EditorError : Type 0 where
  missing_editor malformed_editor : EditorError

pub data ParsedCommand : Type 0 where
  parsed : List Text → ParsedCommand
  rejected : EditorError → ParsedCommand

-- The variables of the loop.
pub record Words : Type 0 where
  pub arguments : List Text
  pub current : Text
  pub quote : Option ℕ
  pub escaped : Bool
  pub active : Bool

abbrev pub no_words : Words
no_words = record { arguments = []; current = []; quote = none; escaped = false; active = false }

-- `current.push(character); active = true`.
unfoldable pub add_character : ℕ → Words → Words
add_character c w = record w { current = w.current ++ c ∷ []; active = true }

-- `arguments.push(std::mem::take(&mut current))`, if a word is active.
unfoldable pub end_word : Words → Words
end_word w =
    let ended : Words = record w {
      arguments = w.arguments ++ w.current ∷ [];
      current = [];
      active = false;
    } in
    if w.active then ended else w

unfoldable pub open_quote : ℕ → Words → Words
open_quote c w = record w { quote = some c; active = true }

-- The arms of the `match` behind the backslash, by the open quote.
plain_character : (ℕ → Bool) → Option ℕ → ℕ → Words → Words
unfolding add_character end_word open_quote
plain_character is_whitespace (some delimiter) c w =
    let closed : Words = record w { quote = none } in
    if delimiter == c then closed else add_character c w
plain_character is_whitespace none c w =
    if c == b'\'' || c == b'"'
    then open_quote c w
    else if is_whitespace c
    then end_word w
    else add_character c w

-- One round of the loop.
unfoldable pub step_character : (ℕ → Bool) → ℕ → Words → Words
unfolding plain_character add_character
step_character is_whitespace c w =
    let taken : Words = record (add_character c w) { escaped = false } in
    let escaping : Words = record w { escaped = true } in
    if w.escaped
    then taken
    else if c == b'\\'
    then escaping
    else plain_character is_whitespace w.quote c w

unfoldable pub scan : (ℕ → Bool) → Text → Words → Words
scan is_whitespace [] w = w
scan is_whitespace (c ∷ cs) w = scan is_whitespace cs (step_character is_whitespace c w)

first_is_empty : List Text → Bool
first_is_empty [] = false
first_is_empty (argument ∷ _) = is_empty argument

-- What follows the loop.
unfoldable pub finish_words : Words → ParsedCommand
unfolding end_word first_is_empty
finish_words w =
    let arguments = (end_word w).arguments in
    if w.escaped || is_some w.quote
    then rejected malformed_editor
    else if first_is_empty arguments
    then rejected missing_editor
    else parsed arguments

unfoldable pub parse_editor : (ℕ → Bool) → Text → ParsedCommand
parse_editor is_whitespace value = finish_words (scan is_whitespace value no_words)
