-- ===== src/Layout/Fits.antt =====
-- The regions of a planned frame stand one below the other inside the terminal.
use pi_agent_core_rs.Prelude.{
  ℕ, ◌+◌, ◌-◌, ◌==◌, min, not, ◌&&◌, Bool, true, false, if◌then◌else◌, ◌≡◌, ◌≤◌, arith, refl,
}
use pi_agent_core_rs.Layout.{
  u16_max, as_u16, row_if, Rect, FrameLayout, plan_menu, conversation_frame, plan_conversation,
  plan_flow,
}

abbrev pub bottom : Rect → ℕ
bottom r = r.y + r.height

-- The regions in their order from the top, none over another, and the footer around the last three.
pub record IsStacked (height : ℕ) (f : FrameLayout) : Type 0 where
  pub above_activity : bottom f.transcript ≤ f.activity.y
  pub above_composer : bottom f.activity ≤ f.composer.y
  pub above_menu : bottom f.composer ≤ f.menu.y
  pub above_hint : bottom f.menu ≤ f.hint.y
  pub footer_from : f.footer.y ≡ f.composer.y
  pub footer_around : bottom f.hint ≤ bottom f.footer
  pub inside : bottom f.footer ≤ height

menu-IsStacked :
    (width height transcript_rows composer_height menu_rows : ℕ)
    → height ≤ u16_max
    → composer_height ≤ height
    → IsStacked height (plan_menu width height transcript_rows composer_height menu_rows)
unfolding plan_menu
menu-IsStacked width height transcript_rows composer_height menu_rows h c = record {
  above_activity = ground arith;
  above_composer = ground arith;
  above_menu = ground arith;
  above_hint = ground arith;
  footer_from = ground arith;
  footer_around = ground arith;
  inside = ground arith;
}

-- The heights and gaps of a conversation and what is left for each.
frame-IsStacked :
    (width height transcript before activity composer after hint : ℕ)
    → height ≤ u16_max
    → transcript + before + activity + composer + after + hint ≤ height
    → IsStacked height
        (conversation_frame width height transcript before activity composer after hint)
unfolding conversation_frame
frame-IsStacked width height transcript before activity composer after hint h s = record {
  above_activity = omega arith;
  above_composer = omega arith;
  above_menu = omega arith;
  above_hint = omega arith;
  footer_from = refl;
  footer_around = omega arith;
  inside = omega arith;
}

as_u16-min-le : (m n : ℕ) → as_u16 (min m n) ≤ n
as_u16-min-le m n = ground arith

row_if-le : (b : Bool) (n : ℕ) → row_if (b && not (n == 0)) ≤ n
row_if-le true n = ground arith
row_if-le false n = ground arith

-- What is taken from a budget, piece by piece, stays within it.
pieces-le :
    (height composer hint after before activity transcript : ℕ)
    → height ≤ u16_max
    → composer ≤ height
    → hint ≤ height - composer
    → after ≤ height - as_u16 (composer + hint)
    → before ≤ height - as_u16 (composer + hint) - after
    → activity ≤ height - as_u16 (composer + hint) - after - before
    → transcript ≤ height - as_u16 (composer + hint) - after - before - activity
    → transcript + before + activity + composer + after + hint ≤ height
pieces-le height composer hint after before activity transcript h c i a b v t = omega arith

conversation-IsStacked :
    (width height transcript_rows activity_rows composer_height hint_rows : ℕ)
    → height ≤ u16_max
    → composer_height ≤ height
    → IsStacked height
        (plan_conversation width height transcript_rows activity_rows composer_height hint_rows)
unfolding plan_conversation
conversation-IsStacked width height transcript_rows activity_rows composer_height hint_rows h c =
    frame-IsStacked width height _ _ _ composer_height _ _ h (
      pieces-le height composer_height _ _ _ _ _ h c (as_u16-min-le hint_rows _) (row_if-le _ _)
        (row_if-le _ _) (as_u16-min-le activity_rows _) (as_u16-min-le transcript_rows _))

-- The same of both branches.
IsStacked-if :
    (b : Bool) (height : ℕ) (f g : FrameLayout)
    → IsStacked height f
    → IsStacked height g
    → IsStacked height (if b then f else g)
IsStacked-if true height f g x y = x
IsStacked-if false height f g x y = y

composer_height :
    (width height transcript_rows activity_rows composer_rows menu_rows hint_rows : ℕ)
    → height ≤ u16_max
    → (plan_flow width height transcript_rows activity_rows composer_rows menu_rows
        hint_rows).composer.height
      ≡ min composer_rows height
unfolding plan_flow plan_menu plan_conversation conversation_frame
composer_height width height transcript_rows activity_rows composer_rows menu_rows hint_rows h =
    grind arith

-- In a terminal whose height is a `u16` the regions of a planned frame stand one below the other in the
-- order transcript, activity, composer, menu and hint, the footer reaches from the composer around the
-- hint, all of it inside the terminal, and the composer has every row it asks for, or all of the
-- terminal.
pub plan_flow-IsStacked :
    (width height transcript_rows activity_rows composer_rows menu_rows hint_rows : ℕ)
    → height ≤ u16_max
    → let f =
        plan_flow width height transcript_rows activity_rows composer_rows menu_rows hint_rows in
      IsStacked height f × (f.composer.height ≡ min composer_rows height)
unfolding plan_flow
plan_flow-IsStacked width height transcript_rows activity_rows composer_rows menu_rows hint_rows h =
    let c = as_u16-min-le composer_rows height in
    (
      IsStacked-if (not (menu_rows == 0)) height _ _
          (menu-IsStacked width height transcript_rows _ menu_rows h c)
          (conversation-IsStacked width height transcript_rows activity_rows _ hint_rows h c),
      composer_height width height transcript_rows activity_rows composer_rows menu_rows hint_rows
          h,
    )
