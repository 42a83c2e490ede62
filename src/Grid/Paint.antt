-- ===== src/Grid/Paint.antt =====
-- Painting changes into a frame.
use pi_agent_core_rs.Prelude.{
  ℕ, zero, suc, ◌+◌, ◌*◌, ◌<◌, ◌&&◌, List, [], ◌∷◌, some, ◌==◌, ltb, if◌then◌else◌, get_elem?,
  length, ◌≡◌, refl, sym, ◌∙◌, ap, arith, ◌⊎◌, inl, inr, All,
}
use pi_agent_core_rs.Grid.{Cell, CellChange, Grid, index, get, put_at, set}

-- A frame that paints changes one after the other.
unfoldable pub paint : List CellChange → Grid → Grid
paint [] g = g
paint (c ∷ changes) g = paint changes (set c.x c.y c.cell g).0

-- A cell that is written is the one that the current frame has there.
abbrev pub IsTrue : Grid → CellChange → Type 0
IsTrue g c = get c.x c.y g ≡ some c.cell

get_elem?-put_at :
    (i j : ℕ) (cell : Cell) (cells : List Cell)
    → get_elem? (put_at i cell cells) j
      ≡ (if i == j && ltb j (length cells) then some cell else get_elem? cells j)
unfolding put_at
get_elem?-put_at i j cell [] = ground arith
get_elem?-put_at zero zero cell (c ∷ cells) = ground arith
get_elem?-put_at zero (suc j) cell (c ∷ cells) = ground arith
get_elem?-put_at (suc i) zero cell (c ∷ cells) = ground arith
get_elem?-put_at (suc i) (suc j) cell (c ∷ cells) = ground (arith, get_elem?-put_at i j cell cells)

get-set :
    (x y x' y' : ℕ) (cell : Cell) (g : Grid)
    → (get x' y' (set x y cell g).0 ≡ get x' y' g) ⊎ (get x' y' (set x y cell g).0 ≡ some cell)
unfolding get set index
get-set x y x' y' cell g =
    ground (arith, get_elem?-put_at (y * g.width + x) (y' * g.width + x') cell g.cells)

-- Two frames of one size.
pub record SameSize (b g : Grid) : Type 0 where
  pub width : b.width ≡ g.width
  pub height : b.height ≡ g.height
  pub cells : length b.cells ≡ length g.cells

length-put_at :
    (i : ℕ) (cell : Cell) (cells : List Cell) → length (put_at i cell cells) ≡ length cells
unfolding put_at
length-put_at i cell [] = refl
length-put_at zero cell (c ∷ cells) = refl
length-put_at (suc i) cell (c ∷ cells) = ap suc (length-put_at i cell cells)

get_elem?-lt :
    (cells : List Cell) (i : ℕ) (cell : Cell) → get_elem? cells i ≡ some cell → i < length cells
get_elem?-lt [] i cell e = cc
get_elem?-lt (c ∷ cells) zero cell e = omega arith
get_elem?-lt (c ∷ cells) (suc i) cell e = omega (arith, get_elem?-lt cells i cell e)

pub lt-get_elem? :
    (cells : List Cell) (i : ℕ) → i < length cells → (cell : Cell) × (get_elem? cells i ≡ some cell)
lt-get_elem? [] i h = absurd (omega arith)
lt-get_elem? (c ∷ cells) zero h = (c, refl)
lt-get_elem? (c ∷ cells) (suc i) h = lt-get_elem? cells i (omega arith)

set-SameSize : (x y : ℕ) (cell : Cell) (b g : Grid) → SameSize b g → SameSize (set x y cell b).0 g
unfolding set index
set-SameSize x y cell b g s = record {
  width = ground (arith, s.width);
  height = ground (arith, s.height);
  cells = ground (arith, s.cells, length-put_at (y * b.width + x) cell b.cells);
}

set-keeps :
    (x y x' y' : ℕ) (cell : Cell) (b g : Grid)
    → SameSize b g
    → get x y g ≡ some cell
    → get x' y' b ≡ get x' y' g
    → get x' y' (set x y cell b).0 ≡ get x' y' g
unfolding get set index
set-keeps x y x' y' cell b g s e h =
    ground (
      arith,
      s.width,
      s.height,
      get_elem?-put_at (y * b.width + x) (y' * b.width + x') cell b.cells,
    )

set-writes :
    (x y : ℕ) (cell : Cell) (b g : Grid)
    → SameSize b g
    → get x y g ≡ some cell
    → get x y (set x y cell b).0 ≡ some cell
unfolding get set index
set-writes x y cell b g s e = ground (
  arith,
  s.width,
  s.height,
  s.cells,
  get_elem?-put_at (y * b.width + x) (y * b.width + x) cell b.cells,
  get_elem?-lt g.cells (y * g.width + x) cell,
)

module _ (g : Grid) (x y : ℕ) where
  pub paint-keeps :
      (changes : List CellChange) (b : Grid)
      → SameSize b g
      → All (IsTrue g) changes
      → get x y b ≡ get x y g
      → get x y (paint changes b) ≡ get x y g
  unfolding paint
  paint-keeps [] b s t h = h
  paint-keeps (c ∷ changes) b s (e, t) h =
      paint-keeps changes (set c.x c.y c.cell b).0 (set-SameSize c.x c.y c.cell b g s) t
        (set-keeps c.x c.y x y c.cell b g s e h)

  -- The position is among the changes.
  abbrev pub IsPainted : List CellChange → Type 0
  IsPainted [] = ⊥
  IsPainted (c ∷ changes) = ((c.x ≡ x) × (c.y ≡ y)) ⊎ IsPainted changes

  pub paint-IsPainted :
      (changes : List CellChange) (b : Grid)
      → SameSize b g
      → All (IsTrue g) changes
      → IsPainted changes
      → get x y (paint changes b) ≡ get x y g
  unfolding paint
  paint-IsPainted [] b s t p = elim p [ ]
  paint-IsPainted (c ∷ changes) b s (e, t) (inr p) =
      paint-IsPainted changes (set c.x c.y c.cell b).0 (set-SameSize c.x c.y c.cell b g s) t p
  paint-IsPainted (c ∷ changes) b s (e, t) (inl (ex, ey)) =
      let w = set-writes c.x c.y c.cell b g s e ∙ sym e in
      paint-keeps changes (set c.x c.y c.cell b).0 (set-SameSize c.x c.y c.cell b g s) t
        (rw (← ex, ← ey) w)
