-- ===== src/Grid/Repaint.antt =====
-- Painting the changes of a difference turns the previous frame into the current one.
use pi_agent_core_rs.Prelude.{
  ℕ, zero, suc, ◌+◌, ◌*◌, ◌≤◌, ◌<◌, Bool, true, false, ◌&&◌, ◌||◌, List, Option, none, some, ◌==◌,
  ==_iff, ltb, length, ◌≡◌, refl, sym, ◌∙◌, ap, arith, ◌⊎◌, inl, inr, All, Bool-cases,
}
use pi_agent_core_rs.Grid.{
  Cell, CellChange, Grid, index, get, differs, dimensions_changed, cell_before, change_at,
  row_changes, frame_changes, diff,
}
use pi_agent_core_rs.Grid.Cells.{cell_eq-≡}
use pi_agent_core_rs.Grid.Paint.{
  paint, IsTrue, SameSize, lt-get_elem?, paint-keeps, paint-IsPainted, IsPainted,
}
use native.Mathlib.Nat.{mul-le-mul_right}

module _ (g : Grid) (x y : ℕ) where
  -- Either the change at a position is among those of a row, or the cell was the same before.
  change_at-IsTrue :
      (o : Option Cell) (x' y' : ℕ) (redraw : Bool) (before : Option Cell) (rest : List CellChange)
      → get x' y' g ≡ o
      → All (IsTrue g) rest
      → All (IsTrue g) (change_at o x' y' redraw before rest)
  unfolding change_at differs
  change_at-IsTrue none x' y' redraw before rest e t = t
  change_at-IsTrue (some cell) x' y' redraw before rest e t =
      elim (Bool-cases (redraw || differs before cell)) [ inl h ↦ rw h (e, t) | inr h ↦ rw h t ]

  change_at-rest :
      (o : Option Cell) (x' y' : ℕ) (redraw : Bool) (before : Option Cell) (rest : List CellChange)
      → IsPainted g x y rest
      → IsPainted g x y (change_at o x' y' redraw before rest)
  unfolding change_at differs
  change_at-rest none x' y' redraw before rest p = p
  change_at-rest (some cell) x' y' redraw before rest p =
      elim (Bool-cases (redraw || differs before cell)) [ inl h ↦ rw h (inr p) | inr h ↦ rw h p ]

  differs-some :
      (before : Option Cell) (cell : Cell) → differs before cell ≡ false → before ≡ some cell
  unfolding differs
  differs-some none cell e = cc
  differs-some (some old) cell e = ap some (cell_eq-≡ old cell (ground arith))

  change_at-here :
      (cell : Cell) (redraw : Bool) (before : Option Cell) (rest : List CellChange)
      → IsPainted g x y (change_at (some cell) x y redraw before rest)
        ⊎ ((redraw ≡ false) × (before ≡ some cell))
  unfolding change_at
  change_at-here cell true before rest = inl (inl (refl, refl))
  change_at-here cell false before rest = elim (Bool-cases (differs before cell)) [
    | inl h ↦ inl (rw h (inl (refl, refl)))
    | inr h ↦ inr (refl, differs-some before cell h)
  ]

  module _ (previous : Option Grid) (redraw : Bool) where
    row_changes-IsTrue :
        (y' x' count : ℕ) (rest : List CellChange)
        → All (IsTrue g) rest
        → All (IsTrue g) (row_changes g previous redraw y' x' count rest)
    unfolding row_changes
    row_changes-IsTrue y' x' zero rest t = t
    row_changes-IsTrue y' x' (suc count) rest t =
        change_at-IsTrue _ x' y' redraw _ _ refl (row_changes-IsTrue y' (suc x') count rest t)

    frame_changes-IsTrue :
        (y' count : ℕ) → All (IsTrue g) (frame_changes g previous redraw y' count)
    unfolding frame_changes
    frame_changes-IsTrue y' zero = tt
    frame_changes-IsTrue y' (suc count) =
        row_changes-IsTrue y' 0 g.width _ (frame_changes-IsTrue (suc y') count)

    row_changes-rest :
        (y' x' count : ℕ) (rest : List CellChange)
        → IsPainted g x y rest
        → IsPainted g x y (row_changes g previous redraw y' x' count rest)
    unfolding row_changes
    row_changes-rest y' x' zero rest p = p
    row_changes-rest y' x' (suc count) rest p =
        change_at-rest (get x' y' g) x' y' redraw _ _ (row_changes-rest y' (suc x') count rest p)

    -- The position is painted, or needs no painting.
    abbrev Covered : Cell → List CellChange → Type 0
    Covered cell changes =
        IsPainted g x y changes ⊎ ((redraw ≡ false) × (cell_before previous x y ≡ some cell))

    row_changes-here :
        (cell : Cell) (x' count : ℕ) (rest : List CellChange)
        → get x y g ≡ some cell
        → x' ≤ x
        → x < x' + count
        → Covered cell (row_changes g previous redraw y x' count rest)
    unfolding row_changes
    row_changes-here cell x' zero rest e h h' = absurd (omega arith)
    row_changes-here cell x' (suc count) rest e h h' = elim (Bool-cases (x' == x)) [
      | inl q ↦ rw ((==_iff x' x).0 q, e) (change_at-here cell redraw (cell_before previous x y) _)
      | inr q ↦ elim (row_changes-here cell (suc x') count rest e (ground arith) (omega arith)) [
        | inl p ↦ inl (change_at-rest (get x' y g) x' y redraw _ _ p)
        | inr r ↦ inr r
      ]
    ]

    frame_changes-here :
        (cell : Cell) (y' count : ℕ)
        → get x y g ≡ some cell
        → x < g.width
        → y' ≤ y
        → y < y' + count
        → Covered cell (frame_changes g previous redraw y' count)
    unfolding frame_changes
    frame_changes-here cell y' zero e w h h' = absurd (omega arith)
    frame_changes-here cell y' (suc count) e w h h' = elim (Bool-cases (y' == y)) [
      | inl q ↦
          rw ((==_iff y' y).0 q) (row_changes-here cell 0 g.width _ e (omega arith) (omega arith))
      | inr q ↦ elim (frame_changes-here cell (suc y') count e w (ground arith) (omega arith)) [
        | inl p ↦ inl (row_changes-rest y' 0 g.width _ p)
        | inr r ↦ inr r
      ]
    ]

-- A frame has all its cells.
abbrev pub IsFull : Grid → Type 0
IsFull g = length g.cells ≡ g.width * g.height

index-lt : (x y w h : ℕ) → x < w → y < h → y * w + x < w * h
index-lt x y w h hx hy = omega (arith, mul-le-mul_right {m = suc y} {n = h} w hy)

get-inside :
    (g : Grid) (x y : ℕ)
    → IsFull g
    → x < g.width
    → y < g.height
    → (cell : Cell) × (get x y g ≡ some cell)
unfolding get index
get-inside g x y f hx hy =
    let i = y * g.width + x in
    let b : i < length g.cells = rw f (index-lt x y g.width g.height hx hy) in
    let (cell, e) = lt-get_elem? g.cells i b in (cell, ground arith)

get-outside :
    (g b : Grid) (x y : ℕ)
    → SameSize b g
    → (ltb x g.width && ltb y g.height) ≡ false
    → get x y b ≡ get x y g
unfolding get index
get-outside g b x y s e = ground (arith, s.width, s.height)

same_before :
    (g b : Grid) (previous : Option Grid) (x y : ℕ) (cell : Cell)
    → (previous ≡ some b) ⊎ (dimensions_changed previous g ≡ true)
    → dimensions_changed previous g ≡ false
    → cell_before previous x y ≡ some cell
    → get x y b ≡ some cell
unfolding cell_before
same_before g b none x y cell d n e = cc
same_before g b (some p) x y cell (inl q) n e = cc
same_before g b (some p) x y cell (inr q) n e = cc

-- If `b` is the previous frame, or the difference asks for a full redraw, then painting its changes into
-- `b`, a frame of the size of the current one, gives every position the cell that the current frame
-- has there, where both frames have all their cells.
pub diff_repaints :
    (g b : Grid) (previous : Option Grid) (x y : ℕ)
    → IsFull g
    → IsFull b
    → b.width ≡ g.width
    → b.height ≡ g.height
    → (previous ≡ some b) ⊎ ((diff g previous).full_redraw ≡ true)
    → get x y (paint (diff g previous).changes b) ≡ get x y g
unfolding diff
diff_repaints g b previous x y fg fb ew eh d =
    let s : SameSize b g = record { width = ew; height = eh; cells = rw (fb, fg, ew, eh) } in
    let redraw = dimensions_changed previous g in
    let t = frame_changes-IsTrue g x y previous redraw 0 g.height in
    elim (Bool-cases (ltb x g.width && ltb y g.height)) [
      | inr out ↦ paint-keeps g x y _ b s t (get-outside g b x y s out)
      | inl inside ↦
          let (cell, e) = get-inside g x y fg (ground arith) (ground arith) in
          elim (frame_changes-here g x y previous redraw cell 0 g.height e (ground arith)
            (omega arith) (ground arith)) [
              | inl p ↦ paint-IsPainted g x y _ b s t p
              | inr (n, q) ↦
                  paint-keeps g x y _ b s t (same_before g b previous x y cell d n q ∙ sym e)
            ]
    ]
