-- ===== src/Layout.antt =====
-- crates/tea-agent/src/ui/frame_layout.rs: the regions of a frame, planned from the measured rows of its
-- contents. `u16` keeps its wrap-around; a `usize` is only compared.
pub mod Fits
use pi_agent_core_rs.Prelude.{
  ℕ, zero, suc, ◌+◌, ◌-◌, ◌%◌, ◌==◌, ltb, min, not, ◌&&◌, Bool, if◌then◌else◌,
}

abbrev pub u16_max : ℕ
u16_max = 65535

-- `n as u16`, and the sums of `u16`.
abbrev pub as_u16 : ℕ → ℕ
as_u16 n = n % 65536

-- `a.saturating_add(b)` on `u16`.
abbrev pub sat_add16 : ℕ → ℕ → ℕ
sat_add16 a b = min (a + b) u16_max

-- `u16::from(b)`.
abbrev pub row_if : Bool → ℕ
row_if b = if b then 1 else 0

pub record Rect : Type 0 where
  pub x : ℕ
  pub y : ℕ
  pub width : ℕ
  pub height : ℕ

pub record FrameLayout : Type 0 where
  pub transcript : Rect
  pub activity : Rect
  pub footer : Rect
  pub composer : Rect
  pub menu : Rect
  pub hint : Rect

-- A region over the whole width.
abbrev pub rows : ℕ → ℕ → ℕ → Rect
rows width y height = record { x = 0; y = y; width = width; height = height }

-- The branch with a menu.
unfoldable pub plan_menu : ℕ → ℕ → ℕ → ℕ → ℕ → FrameLayout
plan_menu width height transcript_rows composer_height menu_rows =
    let menu_height = as_u16 (min menu_rows (height - composer_height)) in
    let content_budget = height - as_u16 (composer_height + menu_height) in
    let transcript_height = as_u16 (min transcript_rows (content_budget - 1)) in
    let gap = row_if (not (transcript_height == 0) && ltb transcript_height content_budget) in
    let composer_y = as_u16 (transcript_height + gap) in
    let menu_y = sat_add16 composer_y composer_height in
    record {
      transcript = rows width 0 transcript_height;
      activity = rows width composer_y 0;
      footer = rows width composer_y (sat_add16 composer_height menu_height);
      composer = rows width composer_y composer_height;
      menu = rows width menu_y menu_height;
      hint = rows width (sat_add16 menu_y menu_height) 0;
    }

-- The regions of a frame without a menu, from their heights and the gaps.
unfoldable pub conversation_frame : ℕ → ℕ → ℕ → ℕ → ℕ → ℕ → ℕ → ℕ → FrameLayout
conversation_frame width height transcript_height before_composer_gap activity_height
      composer_height after_composer_gap hint_height =
    let activity_y = sat_add16 transcript_height before_composer_gap in
    let composer_y = sat_add16 activity_y activity_height in
    let hint_y = sat_add16 (sat_add16 composer_y composer_height) after_composer_gap in
    record {
      transcript = rows width 0 transcript_height;
      activity = rows width activity_y activity_height;
      footer = rows width composer_y (height - composer_y);
      composer = rows width composer_y composer_height;
      menu = rows width (sat_add16 composer_y composer_height) 0;
      hint = rows width hint_y hint_height;
    }

-- The branch without a menu.
unfoldable pub plan_conversation : ℕ → ℕ → ℕ → ℕ → ℕ → ℕ → FrameLayout
plan_conversation width height transcript_rows activity_rows composer_height hint_rows =
    let hint_height = as_u16 (min hint_rows (height - composer_height)) in
    let remaining = height - as_u16 (composer_height + hint_height) in
    let after_composer_gap = row_if (not (hint_height == 0) && not (remaining == 0)) in
    let after_gap_remaining = remaining - after_composer_gap in
    let before_composer_gap =
      row_if (not (transcript_rows == 0) && not (after_gap_remaining == 0)) in
    let content_budget = after_gap_remaining - before_composer_gap in
    let activity_height = as_u16 (min activity_rows content_budget) in
    let transcript_height = as_u16 (min transcript_rows (content_budget - activity_height)) in
    conversation_frame width height transcript_height before_composer_gap activity_height
      composer_height after_composer_gap hint_height

unfoldable pub plan_flow : ℕ → ℕ → ℕ → ℕ → ℕ → ℕ → ℕ → FrameLayout
plan_flow width height transcript_rows activity_rows composer_rows menu_rows hint_rows =
    let composer_height = as_u16 (min composer_rows height) in
    if not (menu_rows == 0)
    then plan_menu width height transcript_rows composer_height menu_rows
    else (plan_conversation width height transcript_rows activity_rows composer_height hint_rows)
