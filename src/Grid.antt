-- ===== src/Grid.antt =====
-- crates/tea-agent/src/grid.rs: the cells of a rendered frame, and the difference of two frames. A `char`
-- is its code.
pub mod Cells
pub mod Paint
pub mod Repaint
use pi_agent_core_rs.Prelude.{
  ℕ, zero, suc, ◌+◌, ◌*◌, Bool, true, false, not, ◌&&◌, ◌||◌, List, [], ◌∷◌, ◌++◌, Option, none,
  some, ◌==◌, ltb, if◌then◌else◌, get_elem?, replicate,
}

pub data Color : Type 0 where
  black dark_grey red dark_red green dark_green yellow dark_yellow : Color
  blue dark_blue magenta dark_magenta cyan dark_cyan white grey : Color

pub record Style : Type 0 where
  pub foreground : Option Color
  pub background : Option Color
  pub bold : Bool

pub record Cell : Type 0 where
  pub symbol : ℕ
  pub style : Style

-- `Cell::blank`.
abbrev pub blank : Cell
blank = record {
  symbol = b' ';
  style = record { foreground = none; background = none; bold = false };
}

pub record CellChange : Type 0 where
  pub x : ℕ
  pub y : ℕ
  pub cell : Cell

pub record FrameDiff : Type 0 where
  pub full_redraw : Bool
  pub changes : List CellChange

pub record GridError : Type 0 where
  pub x : ℕ
  pub y : ℕ
  pub width : ℕ
  pub height : ℕ

pub record Grid : Type 0 where
  pub width : ℕ
  pub height : ℕ
  pub cells : List Cell

-- `Grid::new`.
unfoldable pub new_grid : ℕ → ℕ → Grid
new_grid width height = record {
  width = width;
  height = height;
  cells = replicate (width * height) blank;
}

unfoldable pub resize : ℕ → ℕ → Grid → Grid
unfolding new_grid
resize width height g = new_grid width height

-- `self.cells.fill(Cell::blank())`.
unfoldable pub fill_blank : List Cell → List Cell
fill_blank [] = []
fill_blank (_ ∷ cells) = blank ∷ fill_blank cells

unfoldable pub clear : Grid → Grid
clear g = record g { cells = fill_blank g.cells }

unfoldable pub index : ℕ → ℕ → Grid → Option ℕ
index x y g = if ltb x g.width && ltb y g.height then some (y * g.width + x) else none

-- `get`; an index beyond the cells, on which the source panics, gives `none`.
unfoldable pub get : ℕ → ℕ → Grid → Option Cell
unfolding index
get x y g = elim (index x y g) [ none ↦ none | some i ↦ get_elem? g.cells i ]

unfoldable pub put_at : ℕ → Cell → List Cell → List Cell
put_at i cell [] = []
put_at zero cell (_ ∷ cells) = cell ∷ cells
put_at (suc i) cell (c ∷ cells) = c ∷ put_at i cell cells

-- `set`; `none` is `Ok(())`.
unfoldable pub set : ℕ → ℕ → Cell → Grid → Grid × Option GridError
unfolding index put_at
set x y cell g = elim (index x y g) [
  | none ↦ (g, some (record { x = x; y = y; width = g.width; height = g.height }))
  | some i ↦ (record g { cells = put_at i cell g.cells }, none)
]

-- The derived equalities.
abbrev color_code : Color → ℕ
color_code black = 0
color_code dark_grey = 1
color_code red = 2
color_code dark_red = 3
color_code green = 4
color_code dark_green = 5
color_code yellow = 6
color_code dark_yellow = 7
color_code blue = 8
color_code dark_blue = 9
color_code magenta = 10
color_code dark_magenta = 11
color_code cyan = 12
color_code dark_cyan = 13
color_code white = 14
color_code grey = 15

abbrev colors_eq : Option Color → Option Color → Bool
colors_eq none none = true
colors_eq (some c) (some d) = color_code c == color_code d
colors_eq _ _ = false

abbrev bool_eq : Bool → Bool → Bool
bool_eq true b = b
bool_eq false b = not b

unfoldable pub cell_eq : Cell → Cell → Bool
cell_eq c d =
    c.symbol == d.symbol
    && (colors_eq c.style.foreground d.style.foreground
        && (colors_eq c.style.background d.style.background && bool_eq c.style.bold d.style.bold))

-- `frame.get(x, y) != Some(cell)`.
differs : Option Cell → Cell → Bool
differs none cell = true
differs (some old) cell = not (cell_eq old cell)

dimensions_changed : Option Grid → Grid → Bool
dimensions_changed none g = true
dimensions_changed (some previous) g =
    not (previous.width == g.width) || not (previous.height == g.height)

-- `previous.and_then(|frame| frame.get(x, y))`.
cell_before : Option Grid → ℕ → ℕ → Option Cell
cell_before none x y = none
cell_before (some previous) x y = get x y previous

change_at : Option Cell → ℕ → ℕ → Bool → Option Cell → List CellChange → List CellChange
unfolding differs
change_at none x y redraw before rest = rest
change_at (some cell) x y redraw before rest =
    if redraw || differs before cell then record { x = x; y = y; cell = cell } ∷ rest else rest

-- The inner loop: `count` columns from `x` on.
row_changes : Grid → Option Grid → Bool → (y x count : ℕ) → List CellChange → List CellChange
unfolding change_at cell_before
row_changes g previous redraw y x zero rest = rest
row_changes g previous redraw y x (suc count) rest =
    change_at (get x y g) x y redraw (cell_before previous x y)
      (row_changes g previous redraw y (suc x) count rest)

-- The outer loop: `count` rows from `y` on.
frame_changes : Grid → Option Grid → Bool → (y count : ℕ) → List CellChange
unfolding row_changes
frame_changes g previous redraw y zero = []
frame_changes g previous redraw y (suc count) =
    row_changes g previous redraw y 0 g.width (frame_changes g previous redraw (suc y) count)

unfoldable pub diff : Grid → Option Grid → FrameDiff
unfolding dimensions_changed frame_changes
diff g previous = record {
  full_redraw = dimensions_changed previous g;
  changes = frame_changes g previous (dimensions_changed previous g) 0 g.height;
}
