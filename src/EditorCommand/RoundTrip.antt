-- ===== src/EditorCommand/RoundTrip.antt =====
-- A command that is written with every word in double quotes is parsed back into its words.
use pi_agent_core_rs.Prelude.{
  ℕ, Bool, true, false, ◌||◌, List, [], ◌∷◌, ◌++◌, some, Text, ◌==◌, if◌then◌else◌, is_empty, inl,
  inr, ◌≡◌, refl, ◌∙◌, ap, arith, Bool-cases,
}
use mathlib.Core.List.{append-nil, append_assoc}
use pi_agent_core_rs.EditorCommand.{
  parsed, Words, no_words, add_character, end_word, open_quote, plain_character, step_character,
  scan, first_is_empty, finish_words, parse_editor,
}

-- A word with its quotes and backslashes escaped.
unfoldable pub escape : Text → Text
escape [] = []
escape (c ∷ cs) = if c == b'"' || c == b'\\' then b'\\' ∷ c ∷ escape cs else c ∷ escape cs

-- `"` … `"` and a space behind each word.
unfoldable pub quote_words : List Text → Text
quote_words [] = []
quote_words (word ∷ words) = b'"' ∷ (escape word ++ b'"' ∷ b' ' ∷ quote_words words)

module _ (is_whitespace : ℕ → Bool) where
  -- Inside the quotes.
  abbrev inside : List Text → Text → Words
  inside arguments current = record {
    arguments = arguments;
    current = current;
    quote = some b'"';
    escaped = false;
    active = true;
  }

  step_escaped :
      (c : ℕ) (rest : Text) (arguments : List Text) (current : Text)
      → scan is_whitespace (b'\\' ∷ c ∷ rest) (inside arguments current)
        ≡ scan is_whitespace rest (inside arguments (current ++ c ∷ []))
  unfolding scan step_character add_character
  step_escaped c rest arguments current = refl

  step_plain :
      (c : ℕ) (rest : Text) (arguments : List Text) (current : Text)
      → (c == b'"' || c == b'\\') ≡ false
      → scan is_whitespace (c ∷ rest) (inside arguments current)
        ≡ scan is_whitespace rest (inside arguments (current ++ c ∷ []))
  unfolding scan
  step_plain c rest arguments current e = ap (scan is_whitespace rest) (kept c arguments current e)
    where
      kept :
          (c : ℕ) (arguments : List Text) (current : Text)
          → (c == b'"' || c == b'\\') ≡ false
          → step_character is_whitespace c (inside arguments current)
            ≡ inside arguments (current ++ c ∷ [])
      kept c arguments current e =
          unfold step_character plain_character add_character in ground arith

  scan-escape :
      (word rest : Text) (arguments : List Text) (current : Text)
      → scan is_whitespace (escape word ++ rest) (inside arguments current)
        ≡ scan is_whitespace rest (inside arguments (current ++ word))
  unfolding escape
  scan-escape [] rest arguments current = rw append-nil
  scan-escape (c ∷ cs) rest arguments current =
      let more =
        scan-escape cs rest arguments (current ++ c ∷ [])
        ∙ ap (λ (t : Text). scan is_whitespace rest (inside arguments t))
            (append_assoc current _ cs) in
      elim (Bool-cases (c == b'"' || c == b'\\')) [
        | inl e ↦ rw e (step_escaped c _ arguments current ∙ more)
        | inr e ↦ rw e (step_plain c _ arguments current e ∙ more)
      ]

  -- Between two words.
  abbrev between : List Text → Words
  between arguments = record no_words { arguments = arguments }

  scan_word :
      (word rest : Text) (arguments : List Text)
      → is_whitespace b' ' ≡ true
      → scan is_whitespace (b'"' ∷ (escape word ++ b'"' ∷ b' ' ∷ rest)) (between arguments)
        ≡ scan is_whitespace rest (between (arguments ++ word ∷ []))
  scan_word word rest arguments e =
      opened ∙ scan-escape word (b'"' ∷ b' ' ∷ rest) arguments [] ∙ closed
    where
      opened :
          scan is_whitespace (b'"' ∷ (escape word ++ b'"' ∷ b' ' ∷ rest)) (between arguments)
          ≡ scan is_whitespace (escape word ++ b'"' ∷ b' ' ∷ rest) (inside arguments [])
      opened = unfold scan step_character plain_character open_quote in refl

      closed :
          scan is_whitespace (b'"' ∷ b' ' ∷ rest) (inside arguments word)
          ≡ scan is_whitespace rest (between (arguments ++ word ∷ []))
      closed = unfold scan step_character plain_character end_word in rw e

  scan-quote_words :
      (words arguments : List Text)
      → is_whitespace b' ' ≡ true
      → scan is_whitespace (quote_words words) (between arguments) ≡ between (arguments ++ words)
  unfolding quote_words
  scan-quote_words [] arguments e = unfold scan in rw append-nil
  scan-quote_words (word ∷ words) arguments e =
      scan_word word (quote_words words) arguments e
      ∙ scan-quote_words words (arguments ++ word ∷ []) e
      ∙ ap between (append_assoc arguments _ words)

-- Where the space counts as whitespace, any words of which the first is not empty are the result of
-- parsing them in double quotes, each with its quotes and backslashes escaped and a space behind.
pub parse_editor-quote_words :
    (is_whitespace : ℕ → Bool) (first : Text) (words : List Text)
    → is_whitespace b' ' ≡ true
    → is_empty first ≡ false
    → parse_editor is_whitespace (quote_words (first ∷ words)) ≡ parsed (first ∷ words)
unfolding parse_editor finish_words first_is_empty end_word
parse_editor-quote_words is_whitespace first words e h =
    rw (scan-quote_words is_whitespace (first ∷ words) [] e, h)
