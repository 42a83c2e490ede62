-- ===== src/Grid/Cells.antt =====
-- The derived equality of cells.
use pi_agent_core_rs.Prelude.{
  Bool, true, false, ◌&&◌, List, [], ◌∷◌, Option, none, some, ==_iff, get_elem?, ◌≡◌, refl, sym,
  ◌∙◌, ap, arith,
}
use pi_agent_core_rs.Grid.{
  Color, black, dark_grey, red, dark_red, green, dark_green, yellow, dark_yellow, blue, dark_blue,
  magenta, dark_magenta, cyan, dark_cyan, white, grey, Cell, color_code, colors_eq, bool_eq,
  cell_eq,
}

abbrev all_colors : List Color
all_colors =
    black ∷ dark_grey ∷ red ∷ dark_red ∷ green ∷ dark_green ∷ yellow ∷ dark_yellow ∷ blue
    ∷ dark_blue ∷ magenta ∷ dark_magenta ∷ cyan ∷ dark_cyan ∷ white ∷ grey ∷ []

listed : (c : Color) → get_elem? all_colors (color_code c) ≡ some c
listed c = elim c as (λ c. get_elem? all_colors (color_code c) ≡ some c) [
  | black ↦ refl
  | dark_grey ↦ refl
  | red ↦ refl
  | dark_red ↦ refl
  | green ↦ refl
  | dark_green ↦ refl
  | yellow ↦ refl
  | dark_yellow ↦ refl
  | blue ↦ refl
  | dark_blue ↦ refl
  | magenta ↦ refl
  | dark_magenta ↦ refl
  | cyan ↦ refl
  | dark_cyan ↦ refl
  | white ↦ refl
  | grey ↦ refl
]

color_code_injective : (c d : Color) → color_code c ≡ color_code d → c ≡ d
color_code_injective c d e = let e' = sym (listed c) ∙ ap (get_elem? all_colors) e ∙ listed d in cc

colors_eq-≡ : (c d : Option Color) → colors_eq c d ≡ true → c ≡ d
colors_eq-≡ none none e = refl
colors_eq-≡ none (some d) e = cc
colors_eq-≡ (some c) none e = cc
colors_eq-≡ (some c) (some d) e = ap some (color_code_injective c d (ground arith))

bool_eq-≡ : (a b : Bool) → bool_eq a b ≡ true → a ≡ b
bool_eq-≡ true b e = sym e
bool_eq-≡ false true e = cc
bool_eq-≡ false false e = refl

and_parts : (a b : Bool) → (a && b) ≡ true → (a ≡ true) × (b ≡ true)
and_parts true b e = (refl, e)
and_parts false b e = cc

pub cell_eq-≡ : (c d : Cell) → cell_eq c d ≡ true → c ≡ d
unfolding cell_eq
cell_eq-≡ c d e =
    let (e₁, e₂) = and_parts _ _ e in
    let (e₃, e₄) = and_parts _ _ e₂ in
    let (e₅, e₆) = and_parts _ _ e₄ in
    let s : c.symbol ≡ d.symbol = (==_iff c.symbol d.symbol).0 e₁ in
    let f = colors_eq-≡ c.style.foreground d.style.foreground e₃ in
    let b = colors_eq-≡ c.style.background d.style.background e₅ in
    let w = bool_eq-≡ c.style.bold d.style.bold e₆ in
    λ i. record { symbol = s i; style = record { foreground = f i; background = b i; bold = w i } }
