-- ===== src/Tests/Terminal.antt =====
-- grid.rs, editor.rs and ui/frame_layout.rs of the terminal agent at small inputs.
use pi_agent_core_rs.Prelude.{List, [], ◌∷◌, some, Text, codes, ◌==◌, min, ◌≡◌, refl, inl, arith}
use pi_agent_core_rs.Layout.{plan_flow}
use pi_agent_core_rs.Layout.Fits.{IsStacked, plan_flow-IsStacked}
use pi_agent_core_rs.Grid.{Cell, blank, Grid, get, diff}
use pi_agent_core_rs.Grid.Paint.{paint}
use pi_agent_core_rs.Grid.Repaint.{diff_repaints}
use pi_agent_core_rs.EditorCommand.{parsed, parse_editor}
use pi_agent_core_rs.EditorCommand.RoundTrip.{quote_words, parse_editor-quote_words}

abbrev marked : Cell
marked = record blank { symbol = b'x' }

abbrev before : Grid
before = record { width = 2; height = 1; cells = blank ∷ blank ∷ [] }

abbrev after : Grid
after = record { width = 2; height = 1; cells = blank ∷ marked ∷ [] }

diff_repaints_example : get 1 0 (paint (diff after (some before)).changes before) ≡ get 1 0 after
diff_repaints_example = diff_repaints after before (some before) 1 0 refl refl refl refl (inl refl)

abbrev command : List Text
command = codes "set number" ∷ codes "\"" ∷ []

parse_editor-quote_words_example :
    parse_editor (λ c. c == b' ') (quote_words (codes "nvim" ∷ command))
    ≡ parsed (codes "nvim" ∷ command)
parse_editor-quote_words_example =
    parse_editor-quote_words (λ c. c == b' ') (codes "nvim") command refl refl

-- A transcript that does not fit into 24 rows.
plan_flow-IsStacked_example :
    let f = plan_flow 80 24 100 1 3 0 1 in IsStacked 24 f × (f.composer.height ≡ min 3 24)
plan_flow-IsStacked_example = plan_flow-IsStacked 80 24 100 1 3 0 1 (omega arith)
