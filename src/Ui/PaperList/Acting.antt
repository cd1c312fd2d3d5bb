-- ===== src/Ui/PaperList/Acting.antt =====
-- What a gesture may do to an entry of a list (src/ui/paper_list.rs: `hit_test` and `interact`).
use riddle.Prelude.{
  ◌≡◌, ◌≢◌, refl, sym, ◌∙◌, Bool, true, false, not, ◌&&◌, Option, none, some, List, [], ◌∷◌, inl,
  inr, arith, Bool-cases, if_cases, ℕ, last?,
}
use mathlib.Core.Path.{subst}
use riddle.Ui.Pointer.{
  Point, HitRect, contains, intersects, PointerTool, pen, finger, is_pen, Gesture, tap, swipe,
  strike, GesturePolicy, classify, classify_contact, from_points, is_tap, is_strike, is_swipe,
  profile_of, sane,
}
use riddle.Ui.PaperList.{
  PaperList, Row, on_text, on_card, Action, delete, toggle, select, dismiss, redraw_only, find_row,
  hit_test, hit_below, hit_or_blank, tap_action, on_toggle_box, struck, strike_action, interact,
  is_vertical, segment_intersects_rect,
}

-- The row is on the paper.
pub data Among (r : Row) : List Row → Type 0 where
  here : {rows : List Row} → Among r (r ∷ rows)
  there : {q : Row} {rows : List Row} → Among r rows → Among r (q ∷ rows)

abbrev Found : (Row → Bool) → List Row → Option Row → Type 0
Found p rows none = Unit
Found p rows (some r) = Among r rows × (p r ≡ true)

later :
    (p : Row → Bool) (q : Row) (rows : List Row) (o : Option Row)
    → Found p rows o
    → Found p (q ∷ rows) o
later p q rows none h = tt
later p q rows (some r) h = (there h.0, h.1)

find_row-Found : (p : Row → Bool) (rows : List Row) → Found p rows (find_row p rows)
unfolding find_row
find_row-Found p [] = tt
find_row-Found p (q ∷ rows) = elim (Bool-cases (p q)) [
  | inl h ↦ rw h (here, h)
  | inr h ↦ rw h (later p q rows (find_row p rows) (find_row-Found p rows))
]

-- Why an action was chosen: the row it names is on the paper, and the contact is on it.
abbrev pub Justified : PaperList → Gesture → Action → Type 0
Justified l (tap tool at) (toggle number) =
    (r : Row) × Among r l.rows × (r.number ≡ number) × (on_toggle_box at r ≡ true)
Justified l (tap tool at) (select number) =
    (r : Row) × Among r l.rows
    × (r.number ≡ number)
    × (contains r.card at ≡ true)
    × (l.selectable ≡ true)
Justified l (strike tool from to bounds) (delete number) =
    (r : Row) × Among r l.rows
    × (r.number ≡ number)
    × (contains r.card from ≡ true)
    × (segment_intersects_rect from to r.text ≡ true)
    × (tool ≡ pen)
    × (l.selectable ≡ false)
Justified l g (toggle number) = ⊥
Justified l g (select number) = ⊥
Justified l g (delete number) = ⊥
Justified l g redraw_only = Unit
Justified l g dismiss = Unit

module _ (l : PaperList) (tool : PointerTool) where
  card_Justified :
      (at : Point) (o : Option Row)
      → l.selectable ≡ true
      → Found (λ r. contains r.card at) l.rows o
      → Justified l (tap tool at) (tap_action (hit_or_blank on_card o))
  card_Justified at none s h = tt
  card_Justified at (some r) s h = (r, h.0, refl, h.1, s)

  text_Justified :
      (at : Point) (o : Option Row)
      → Justified l (tap tool at) (tap_action (hit_or_blank on_text o))
  text_Justified at none = tt
  text_Justified at (some r) = tt

  tap_Justified :
      (at : Point) (o : Option Row)
      → Found (on_toggle_box at) l.rows o
      → Justified l (tap tool at) (tap_action (hit_below l at o))
  tap_Justified at (some r) h = (r, h.0, refl, h.1)
  tap_Justified at none h =
      if_cases (λ hit. Justified l (tap tool at) (tap_action hit)) l.selectable
        (λ s. card_Justified at _ s (find_row-Found (λ r. contains r.card at) l.rows))
        (λ s. text_Justified at _)

  struck_parts :
      (from to : Point) (bounds : HitRect) (r : Row)
      → struck from to bounds r ≡ true
      → (contains r.card from ≡ true) × (segment_intersects_rect from to r.text ≡ true)
  struck_parts from to bounds r h =
      both (contains r.card from) (intersects r.text bounds)
        (segment_intersects_rect from to r.text) h
    where
      both : (a b c : Bool) → (a && b && c) ≡ true → (a ≡ true) × (c ≡ true)
      both a b c h = (ground arith, ground arith)

  allowed : (t : PointerTool) (b : Bool) → (is_pen t && not b) ≡ true → (t ≡ pen) × (b ≡ false)
  allowed pen b h = (refl, ground arith)
  allowed finger b h = cc

  strike_Justified :
      (from to : Point) (bounds : HitRect) (o : Option Row)
      → (tool ≡ pen) × (l.selectable ≡ false)
      → Found (struck from to bounds) l.rows o
      → Justified l (strike tool from to bounds) (strike_action o)
  strike_Justified from to bounds none t h = tt
  strike_Justified from to bounds (some r) t h =
      let (card, crossed) = struck_parts from to bounds r h.1 in
      (r, h.0, refl, card, crossed, t.0, t.1)

-- Every action of a gesture has its reason. A toggle names a row whose box was tapped; a selection a row of
-- a selectable list whose card was tapped; a deletion a row of a list that is not selectable, where
-- a pen's strike began on its card and crosses its text. No other gesture names a row.
pub interact-Justified : (l : PaperList) (g : Gesture) → Justified l g (interact l g).0
unfolding interact hit_test
interact-Justified l (tap tool at) =
    tap_Justified l tool at (find_row (on_toggle_box at) l.rows)
      (find_row-Found (on_toggle_box at) l.rows)
interact-Justified l (strike tool from to bounds) =
    if_cases (λ (x : Action × PaperList). Justified l (strike tool from to bounds) x.0)
      (is_pen tool && not l.selectable)
      (λ t.
        strike_Justified l tool from to bounds _ (allowed l tool tool l.selectable t)
          (find_row-Found (struck from to bounds) l.rows))
      (λ t. tt)
interact-Justified l (swipe tool from to bounds) =
    if_cases (λ (x : Action × PaperList). Justified l (swipe tool from to bounds) x.0)
      (is_vertical from to) (λ v. tt) (λ v. tt)

-- The tool of a gesture.
abbrev tool_of : Gesture → PointerTool
tool_of (tap tool at) = tool
tool_of (swipe tool from to bounds) = tool
tool_of (strike tool from to bounds) = tool

abbrev ToolIs : PointerTool → Option Gesture → Type 0
ToolIs tool none = Unit
ToolIs tool (some g) = tool_of g ≡ tool

classify_contact-ToolIs :
    (policy : GesturePolicy) (tool : PointerTool) (duration : ℕ) (from : Point) (b : Option HitRect)
    (t : Option Point)
    → ToolIs tool (classify_contact tool (profile_of policy tool) duration from b t)
classify_contact-ToolIs policy tool duration from none t = tt
classify_contact-ToolIs policy tool duration from (some bounds) none = tt
classify_contact-ToolIs policy tool duration from (some bounds) (some to) =
    if_cases (ToolIs tool) (is_tap (profile_of policy tool) bounds duration) (λ h. refl)
      (λ h.
        if_cases (ToolIs tool) (is_strike tool (profile_of policy tool) bounds from to) (λ k. refl)
          (λ k.
            if_cases (ToolIs tool) (is_swipe (profile_of policy tool) from to) (λ m. refl)
              (λ m. tt)))

classify-ToolIs :
    (policy : GesturePolicy) (tool : PointerTool) (points : List Point) (duration : ℕ)
    → ToolIs tool (classify policy tool points duration)
unfolding classify
classify-ToolIs policy tool [] duration = tt
classify-ToolIs policy tool (p ∷ points) duration =
    if_cases (ToolIs tool) (not (sane (profile_of policy tool))) (λ h. tt)
      (λ h.
        classify_contact-ToolIs policy tool duration p (from_points (p ∷ points))
          (last? (p ∷ points)))

only_pen :
    (l : PaperList) (g : Gesture) (a : Action) (number : ℕ)
    → Justified l g a
    → a ≡ delete number
    → tool_of g ≡ pen
only_pen l g a number j e = pen_strike g (subst (Justified l g) e j)
  where
    pen_strike : (g : Gesture) → Justified l g (delete number) → tool_of g ≡ pen
    pen_strike (tap tool at) h = absurd h
    pen_strike (swipe tool from to bounds) h = absurd h
    pen_strike (strike tool from to bounds) (r, among, named, card, crossed, by_pen, plain) = by_pen

-- Whatever a finger draws, and with any gesture policy, no entry is deleted.
pub classify-no_finger_delete :
    (policy : GesturePolicy) (points : List Point) (duration : ℕ) (g : Gesture) (l : PaperList)
    (number : ℕ)
    → classify policy finger points duration ≡ some g
    → (interact l g).0 ≢ delete number
classify-no_finger_delete policy points duration g l number h e = pen_ne_finger (
    sym (only_pen l g (interact l g).0 number (interact-Justified l g) e)
    ∙ subst (ToolIs finger) h (classify-ToolIs policy finger points duration))
  where
    pen_ne_finger : pen ≢ finger
    pen_ne_finger k = cc
