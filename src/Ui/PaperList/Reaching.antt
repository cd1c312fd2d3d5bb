-- ===== src/Ui/PaperList/Reaching.antt =====
-- Turning the pages of a list reaches every entry (src/ui/paper_list.rs: `interact` and `redraw`).
use native.Mathlib.Nat.{div-add-mod, mod-lt}
use riddle.Prelude.{
  ℕ, ◌+◌, ◌-◌, ◌*◌, ◌/◌, ◌%◌, ◌≤◌, ◌<◌, ◌≡◌, refl, ap, ◌∙◌, Bool, true, false, List, [], ◌∷◌, ◌++◌,
  ◌==◌, min, max, zero, suc, arith, Bool-cases, inl, inr, any, pos, wrap_i32, ◌-ℤ◌,
}
use riddle.Ui.Pointer.{Gesture, Point, swipe, finger, from_xywh}
use riddle.Ui.PaperList.{PaperList, Content, div_ceil, available, redraw, interact, last_page}
use riddle.Ui.PaperList.Paging.{numbers_from, row_numbers, lt-page, redraw-IsShown}

-- The contacts with the list one after another, each followed by a redraw.
abbrev pub run_gestures : Content → List Gesture → PaperList → PaperList
run_gestures c [] l = l
run_gestures c (g ∷ gs) l = run_gestures c gs (redraw c (interact l g).1)

-- A finger's swipe of 200 pixels.
abbrev pub at_y : ℕ → Point
at_y n = record { x = pos 300; y = pos n }

abbrev pub swipe_up : Gesture
swipe_up = swipe finger (at_y 700) (at_y 500) (from_xywh (pos 300) (pos 500) (pos 1) (pos 201))

abbrev pub swipe_down : Gesture
swipe_down = swipe finger (at_y 500) (at_y 700) (from_xywh (pos 300) (pos 500) (pos 1) (pos 201))

abbrev pub repeat : ℕ → Gesture → List Gesture
repeat zero g = []
repeat (suc n) g = g ∷ repeat n g

run_gestures-append :
    (c : Content) (gs hs : List Gesture) (l : PaperList)
    → run_gestures c (gs ++ hs) l ≡ run_gestures c hs (run_gestures c gs l)
run_gestures-append c [] hs l = refl
run_gestures-append c (g ∷ gs) hs l = run_gestures-append c gs hs (redraw c (interact l g).1)

-- A list that was drawn at this page.
abbrev drawn : Content → Bool → ℕ → PaperList
drawn c selectable page =
    redraw c
      (record { rows = []; selectable = selectable; page = page; page_size = 1; total_rows = 0 })

module _ (c : Content) (selectable : Bool) (full : 1 ≤ c.entry_count) where
  abbrev size : ℕ
  size = max (available c / 78) 1

  abbrev last_one : ℕ
  last_one = div_ceil c.entry_count size - 1

  counted : (c.entry_count == 0) ≡ false
  counted = ground (arith, full)

  -- Only the page and the kind of a list matter to `redraw`.
  redraw-drawn : (l : PaperList) → redraw c l ≡ drawn c l.selectable l.page
  unfolding redraw
  redraw-drawn l = rw counted refl

  drawn-page : (page : ℕ) → (drawn c selectable page).page ≡ min page last_one
  unfolding redraw
  drawn-page page = rw counted refl

  drawn-last : (page : ℕ) → last_page (drawn c selectable page) ≡ last_one
  unfolding redraw
  drawn-last page =
      let same : max size 1 ≡ size = omega arith in
      rw counted (ap (λ k. div_ceil c.entry_count k - 1) same)

  drawn-kind : (page : ℕ) → (drawn c selectable page).selectable ≡ selectable
  unfolding redraw
  drawn-kind page = rw counted refl

  drawn-min : (page : ℕ) → drawn c selectable page ≡ drawn c selectable (min page last_one)
  unfolding redraw
  drawn-min page =
      let same : min (min page last_one) last_one ≡ min page last_one = omega arith in
      rw (counted, same) refl

  interact-up :
      (l : PaperList) → (interact l swipe_up).1 ≡ record l { page = min (l.page + 1) (last_page l) }
  unfolding interact wrap_i32 ◌-ℤ◌
  interact-up l = refl

  interact-down : (l : PaperList) → (interact l swipe_down).1 ≡ record l { page = l.page - 1 }
  unfolding interact wrap_i32 ◌-ℤ◌
  interact-down l = refl

  up_step :
      (page : ℕ)
      → page < last_one
      → redraw c (interact (drawn c selectable page) swipe_up).1 ≡ drawn c selectable (page + 1)
  up_step page h =
      let l = drawn c selectable page in
      let next : min (min page last_one + 1) last_one ≡ page + 1 = omega (arith, h) in
      ap (redraw c) (interact-up l)
      ∙ redraw-drawn (record l { page = min (l.page + 1) (last_page l) })
      ∙ ap (λ b. drawn c b (min (l.page + 1) (last_page l))) (drawn-kind page)
      ∙ ap (λ p. drawn c selectable (min (p + 1) (last_page l))) (drawn-page page)
      ∙ ap (λ p. drawn c selectable (min (min page last_one + 1) p)) (drawn-last page)
      ∙ ap (drawn c selectable) next

  down_step :
      (page : ℕ)
      → page ≤ last_one
      → redraw c (interact (drawn c selectable page) swipe_down).1 ≡ drawn c selectable (page - 1)
  down_step page h =
      let l = drawn c selectable page in
      let next : min page last_one - 1 ≡ page - 1 = omega (arith, h) in
      ap (redraw c) (interact-down l)
      ∙ redraw-drawn (record l { page = l.page - 1 })
      ∙ ap (λ b. drawn c b (l.page - 1)) (drawn-kind page)
      ∙ ap (λ p. drawn c selectable (p - 1)) (drawn-page page)
      ∙ ap (drawn c selectable) next

  ups :
      (k page : ℕ)
      → page + k ≤ last_one
      → run_gestures c (repeat k swipe_up) (drawn c selectable page) ≡ drawn c selectable (page + k)
  ups zero page h = ap (drawn c selectable) (omega arith)
  ups (suc k) page h =
      let next : page + 1 + k ≡ page + suc k = omega arith in
      ap (run_gestures c (repeat k swipe_up)) (up_step page (omega (arith, h)))
      ∙ ups k (page + 1) (omega (arith, h))
      ∙ ap (drawn c selectable) next

  downs :
      (k page : ℕ)
      → page ≤ last_one
      → run_gestures c (repeat k swipe_down) (drawn c selectable page)
        ≡ drawn c selectable (page - k)
  downs zero page h = ap (drawn c selectable) (omega arith)
  downs (suc k) page h =
      let next : page - 1 - k ≡ page - suc k = omega arith in
      ap (run_gestures c (repeat k swipe_down)) (down_step page h)
      ∙ downs k (page - 1) (omega (arith, h))
      ∙ ap (drawn c selectable) next

  -- Back to the first page, and on to the one that is wanted.
  turns :
      (page target : ℕ)
      → target ≤ last_one
      → run_gestures c
          (repeat last_one swipe_down ++ repeat target swipe_up)
          (drawn c selectable page)
        ≡ drawn c selectable target
  turns page target h =
      let first : min page last_one - last_one ≡ 0 = omega arith in
      let there : 0 + target ≡ target = omega arith in
      run_gestures-append c (repeat last_one swipe_down) (repeat target swipe_up)
        (drawn c selectable page)
      ∙ ap
          (λ l.
            run_gestures c (repeat target swipe_up) (run_gestures c (repeat last_one swipe_down) l))
          (drawn-min page)
      ∙ ap (run_gestures c (repeat target swipe_up))
          (downs last_one (min page last_one) (omega arith) ∙ ap (drawn c selectable) first)
      ∙ ups target 0 (omega (arith, h))
      ∙ ap (drawn c selectable) there

  drawn-size : (page : ℕ) → (drawn c selectable page).page_size ≡ size
  unfolding redraw
  drawn-size page = rw counted refl

  shown_rows :
      (target : ℕ)
      → target ≤ last_one
      → row_numbers (drawn c selectable target).rows
        ≡ numbers_from (target * size + 1) (min size (c.entry_count - target * size))
  shown_rows target h =
      let l = drawn c selectable target in
      let there : min target last_one ≡ target = omega (arith, h) in
      (redraw-IsShown c _).listed
      ∙ ap
          (λ p.
            numbers_from (p * l.page_size + 1) (min l.page_size (c.entry_count - p * l.page_size)))
          (drawn-page target ∙ there)
      ∙ ap (λ k. numbers_from (target * k + 1) (min k (c.entry_count - target * k)))
          (drawn-size target)

abbrev pub listed_among : ℕ → List ℕ → Bool
listed_among number numbers = any (λ m. m == number) numbers

listed-numbers_from :
    (number start count : ℕ)
    → start ≤ number
    → number < start + count
    → listed_among number (numbers_from start count) ≡ true
listed-numbers_from number start zero h k = absurd (omega arith)
listed-numbers_from number start (suc count) h k = elim (Bool-cases (start == number)) [
  | inl same ↦ rw same refl
  | inr other ↦
      rw other (listed-numbers_from number (start + 1) count (ground arith) (omega (arith, k)))
]

-- Every entry of a list can be reached: from any page there are swipes after which the row
-- of this entry is on the paper.
pub redraw-reaches :
    (c : Content) (l : PaperList) (number : ℕ)
    → 1 ≤ number
    → number ≤ c.entry_count
    → (gestures : List Gesture) × (listed_among number
          (row_numbers (run_gestures c gestures (redraw c l)).rows)
        ≡ true)
redraw-reaches c l number h k =
    let full : 1 ≤ c.entry_count = omega arith in
    let s = size c l.selectable full in
    let target = (number - 1) / s in
    let split : s * target + (number - 1) % s ≡ number - 1 = div-add-mod (number - 1) s in
    let rest : (number - 1) % s < s = mod-lt (number - 1) (omega arith) in
    let flip : target * s ≡ s * target = grind arith in
    let fits : target ≤ last_one c l.selectable full =
      lt-page c.entry_count s target (omega arith) (omega arith) in
    let gestures = repeat (last_one c l.selectable full) swipe_down ++ repeat target swipe_up in
    (
      gestures,
      ap (λ (x : PaperList). listed_among number (row_numbers (run_gestures c gestures x).rows))
            (redraw-drawn c l.selectable full l)
          ∙ ap (λ (x : PaperList). listed_among number (row_numbers x.rows))
              (turns c l.selectable full l.page target fits)
          ∙ ap (listed_among number) (shown_rows c l.selectable full target fits)
          ∙ listed-numbers_from number (target * s + 1) (min s (c.entry_count - target * s))
              (omega arith) (omega arith),
    )
