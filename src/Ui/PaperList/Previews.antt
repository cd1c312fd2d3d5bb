-- ===== src/Ui/PaperList/Previews.antt =====
-- src/ui/paper_list.rs: `Preview`, the feedback while a contact with a list is held, and the gesture that
-- its end becomes.
use riddle.Prelude.{
  ◌≡◌, refl, ap, ◌∙◌, Bool, true, false, not, ◌&&◌, Option, none, some, List, [], ◌∷◌, ◌++◌,
  if◌then◌else◌, ltb, ◌==◌, length, is_empty, last?, pos, ℤ, ◌-ℤ◌, wrap_i32, i32_max, leb_ℤ, arith,
  ℕ, abs_i32,
}
use riddle.Ui.Pointer.{
  Point, HitRect, from_xywh, contains, PointerTool, is_pen, Gesture, tap, swipe, distance,
}
use riddle.Ui.PaperList.{
  PaperList, Row, Hit, on_text, on_toggle, on_card, blank, redraw_only, find_row, hit_test,
  interact,
}

-- What was hit, the rectangle, where the contact began, and whether it is inside; or the
-- points of a strike.
pub data Preview : Type 0 where
  press : PointerTool → Hit → HitRect → Point → Bool → Preview
  striking : PointerTool → Point → List Point → Preview

unfoldable pub modal_canvas_rect : HitRect
unfolding from_xywh
modal_canvas_rect = from_xywh (pos 0) (pos 0) i32_max i32_max

-- `Preview::rect`, `Preview::is_visible`
unfoldable pub preview_rect : Preview → HitRect
unfolding modal_canvas_rect
preview_rect (press tool target rect start pressed) = rect
preview_rect (striking tool start points) = modal_canvas_rect

unfoldable pub is_visible : Preview → Bool
is_visible (press tool target rect start pressed) = pressed
is_visible (striking tool start points) = ltb 1 (length points)

abbrev same_coordinate : ℤ → ℤ → Bool
same_coordinate a b = leb_ℤ a b && leb_ℤ b a

abbrev same_point : Option Point → Point → Bool
same_point none q = false
same_point (some p) q = same_coordinate p.x q.x && same_coordinate p.y q.y

abbrev pub differs : Bool → Bool → Bool
differs true b = not b
differs false b = b

-- `Preview::update`: whether the picture changed, and the preview.
unfoldable pub update : Point → Preview → Bool × Preview
update at (press tool target rect start pressed) =
    (differs pressed (contains rect at), press tool target rect start (contains rect at))
update at (striking tool start points) =
    if same_point (last? points) at
    then (false, striking tool start points)
    else (true, striking tool start (points ++ at ∷ []))

unfoldable pub no_op_gesture : PointerTool → Point → Gesture
unfolding from_xywh
no_op_gesture tool at = swipe tool at at (from_xywh at.x at.y (pos 1) (pos 1))

abbrev unwrap_or : Option Gesture → Gesture → Gesture
unwrap_or none g = g
unwrap_or (some g) h = g

unfoldable pub release_gesture : Preview → Point → Option Gesture → Gesture
unfolding no_op_gesture
release_gesture (press tool target rect start true) end classified = tap tool end
release_gesture (press tool target rect start false) end classified = no_op_gesture tool start
release_gesture (striking tool start points) end classified =
    unwrap_or classified (no_op_gesture tool start)

abbrev press_box : PointerTool → Hit → Point → Option HitRect → Option Preview
press_box tool target at none = none
press_box tool target at (some rect) = some (press tool target rect at true)

abbrev box_of : Option Row → Option HitRect
box_of none = none
box_of (some r) = r.toggle_box

abbrev card_of : Option Row → Option HitRect
card_of none = none
card_of (some r) = some r.card

abbrev numbered : ℕ → Row → Bool
numbered number r = r.number == number

abbrev begin_strike : PaperList → PointerTool → Point → Option Preview
begin_strike l tool at =
    if is_pen tool && not l.selectable && not (is_empty l.rows)
    then some (striking tool at (at ∷ []))
    else none

abbrev begin_on : PaperList → PointerTool → Point → Hit → Option Preview
begin_on l tool at (on_toggle number) =
    press_box tool (on_toggle number) at (box_of (find_row (numbered number) l.rows))
begin_on l tool at (on_card number) =
    press_box tool (on_card number) at (card_of (find_row (numbered number) l.rows))
begin_on l tool at (on_text number) = begin_strike l tool at
begin_on l tool at blank = begin_strike l tool at

unfoldable pub begin_preview : PaperList → PointerTool → Point → Option Preview
unfolding hit_test
begin_preview l tool at = begin_on l tool at (hit_test l at)

-- The points of the contact one after another.
abbrev pub run_updates : List Point → Preview → Preview
run_updates [] p = p
run_updates (at ∷ points) p = run_updates points (update at p).1

-- A gesture from a point to itself is no vertical swipe.
distance_zero : (a : ℤ) → distance a a ≡ pos 0
unfolding ◌-ℤ◌ wrap_i32
distance_zero a = let zero : (a -ℤ a) ≡ pos 0 = ground arith in ap (λ z. abs_i32 (wrap_i32 z)) zero

no_op_gesture-interact :
    (l : PaperList) (tool : PointerTool) (at : Point)
    → interact l (no_op_gesture tool at) ≡ (redraw_only, l)
unfolding interact no_op_gesture
no_op_gesture-interact l tool at = rw (distance_zero at.x, distance_zero at.y) refl

run_updates-press :
    (tool : PointerTool) (target : Hit) (rect : HitRect) (start : Point) (pressed : Bool)
    (points : List Point) (end : Point)
    → run_updates (points ++ end ∷ []) (press tool target rect start pressed)
      ≡ press tool target rect start (contains rect end)
unfolding update
run_updates-press tool target rect start pressed [] end = refl
run_updates-press tool target rect start pressed (p ∷ points) end =
    run_updates-press tool target rect start (contains rect p) points end

released :
    (l : PaperList) (tool : PointerTool) (target : Hit) (rect : HitRect) (start end : Point)
    (classified : Option Gesture) (b : Bool)
    → interact l (release_gesture (press tool target rect start b) end classified)
      ≡ (if b then interact l (tap tool end) else (redraw_only, l))
unfolding release_gesture
released l tool target rect start end classified true = refl
released l tool target rect start end classified false = no_op_gesture-interact l tool start

-- A press on a box or a card ends as a tap where it is released if the last point is in the
-- rectangle; a press that has left it changes nothing, wherever it went and however it is classified.
pub run_updates-interact :
    (l : PaperList) (tool : PointerTool) (target : Hit) (rect : HitRect) (start : Point)
    (pressed : Bool) (points : List Point) (end : Point) (classified : Option Gesture)
    → interact l (
        release_gesture
          (run_updates (points ++ end ∷ []) (press tool target rect start pressed))
          end
          classified)
      ≡ (if contains rect end then interact l (tap tool end) else (redraw_only, l))
run_updates-interact l tool target rect start pressed points end classified =
    ap (λ (p : Preview). interact l (release_gesture p end classified))
      (run_updates-press tool target rect start pressed points end)
    ∙ released l tool target rect start end classified (contains rect end)
