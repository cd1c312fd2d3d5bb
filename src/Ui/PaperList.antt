-- ===== src/Ui/PaperList.antt =====
-- src/ui/paper_list.rs and src/ui/paper_list/geometry.rs: the list of tasks, notes or pages on the paper.
-- What is drawn is left out; the rectangle that `blit_left` returns for the text of a row is an argument.
pub mod Paging
pub mod Acting
pub mod Reaching
pub mod Previews
use riddle.Prelude.{
  ℕ, ◌+◌, ◌-◌, ◌*◌, ◌/◌, ◌≡◌, refl, Bool, true, false, not, ◌&&◌, ◌||◌, Option, none, some, List,
  [], ◌∷◌, ◌++◌, ltb, leb, ◌==◌, if◌then◌else◌, any, is_empty, last?, length, get_elem?, min, max,
  zero, suc, ℤ, pos, negsuc, ◌+ℤ◌, ◌-ℤ◌, ◌*ℤ◌, ltb_ℤ, leb_ℤ, min_ℤ, max_ℤ, wrap_i32, wrap_i64,
  i32_max,
}
use riddle.Ui.Pointer.{
  Point, HitRect, from_xywh, width, height, contains, intersects, PointerTool, pen, finger, is_pen,
  Gesture, tap, swipe, strike, distance,
}

-- `orientation`
unfoldable pub orientation : Point → Point → Point → ℤ
orientation a b c = wrap_i64 (
    wrap_i64 (wrap_i32 (b.x -ℤ a.x) *ℤ wrap_i32 (c.y -ℤ a.y))
    -ℤ wrap_i64 (wrap_i32 (b.y -ℤ a.y) *ℤ wrap_i32 (c.x -ℤ a.x)))

unfoldable pub on_segment : Point → Point → Point → Bool
on_segment a b p =
    leb_ℤ (min_ℤ a.x b.x) p.x
    && leb_ℤ p.x (max_ℤ a.x b.x)
    && leb_ℤ (min_ℤ a.y b.y) p.y
    && leb_ℤ p.y (max_ℤ a.y b.y)

abbrev is_zero : ℤ → Bool
is_zero (pos n) = n == 0
is_zero (negsuc n) = false

abbrev is_positive : ℤ → Bool
is_positive a = ltb_ℤ (pos 0) a

abbrev differ : Bool → Bool → Bool
differ true b = not b
differ false b = b

unfoldable pub segments_intersect : Point → Point → Point → Point → Bool
unfolding orientation on_segment
segments_intersect a b c d =
    let ab_c = orientation a b c in
    let ab_d = orientation a b d in
    let cd_a = orientation c d a in
    let cd_b = orientation c d b in
    (is_zero ab_c && on_segment a b c)
    || (is_zero ab_d && on_segment a b d)
    || (is_zero cd_a && on_segment c d a)
    || (is_zero cd_b && on_segment c d b)
    || (differ (is_positive ab_c) (is_positive ab_d)
        && differ (is_positive cd_a) (is_positive cd_b))

abbrev point : ℤ → ℤ → Point
point x y = record { x = x; y = y }

abbrev before_edge : ℤ → ℤ
before_edge a = wrap_i32 (a -ℤ pos 1)

unfoldable pub segment_intersects_rect : Point → Point → HitRect → Bool
unfolding segments_intersect
segment_intersects_rect from to rect =
    let top_left = point rect.x0 rect.y0 in
    let top_right = point (before_edge rect.x1) rect.y0 in
    let bottom_left = point rect.x0 (before_edge rect.y1) in
    let bottom_right = point (before_edge rect.x1) (before_edge rect.y1) in
    if contains rect from
      || contains rect to
      || leb_ℤ (width rect) (pos 0)
      || leb_ℤ (height rect) (pos 0)
    then contains rect from || contains rect to
    else segments_intersect from to top_left top_right
      || segments_intersect from to top_right bottom_right
      || segments_intersect from to bottom_right bottom_left
      || segments_intersect from to bottom_left top_left

pub data Action : Type 0 where
  delete toggle select : ℕ → Action
  dismiss redraw_only : Action

pub data Hit : Type 0 where
  on_text on_toggle on_card : ℕ → Hit
  blank : Hit

pub record Row : Type 0 where
  pub number : ℕ
  pub card : HitRect
  pub text : HitRect
  pub toggle_box : Option HitRect

pub record PaperList : Type 0 where
  pub rows : List Row
  pub selectable : Bool
  pub page : ℕ
  pub page_size : ℕ
  pub total_rows : ℕ

-- `usize::div_ceil`, by a positive number.
abbrev pub div_ceil : ℕ → ℕ → ℕ
div_ceil n d = (n + (d - 1)) / d

-- `as i32`
abbrev as_i32 : ℕ → ℤ
as_i32 n = wrap_i32 (pos n)

abbrev pub side : ℕ
side = 80

abbrev pub list_top : ℕ
list_top = 270

abbrev pub list_bottom_pad : ℕ
list_bottom_pad = 180

-- The screen, what is to be listed, and where the text of each row was drawn.
pub record Content : Type 0 where
  pub screen_w : ℕ
  pub screen_h : ℕ
  pub entry_count : ℕ
  pub enabled : Option (List Bool)
  pub text_rect : ℕ → HitRect

abbrev pub available : Content → ℕ
available c = c.screen_h - (list_top + list_bottom_pad)

abbrev row_height : ℕ → ℕ → ℕ
row_height space visible = min (max (space / visible) 78) 170

abbrev toggle_rect : Content → ℕ → ℕ → HitRect
toggle_rect c y0 row_h =
    let size = min 54 (row_h - 20) in
    from_xywh (as_i32 (c.screen_w - (side + size + 16))) (as_i32 (y0 + (row_h - size) / 2))
      (as_i32 size) (as_i32 size)

abbrev toggle_of : Content → ℕ → ℕ → ℕ → Option (List Bool) → Option HitRect
toggle_of c index y0 row_h none = none
toggle_of c index y0 row_h (some states) = elim (get_elem? states index) [
  | none ↦ none
  | some active ↦ some (toggle_rect c y0 row_h)
]

-- The body of the loop of `redraw`.
abbrev make_row : Content → ℕ → ℕ → ℕ → Row
make_row c row_h index visible_index =
    let y0 = list_top + visible_index * row_h in
    record {
      number = index + 1;
      card =
          from_xywh (as_i32 side) (as_i32 (y0 + 5)) (as_i32 (c.screen_w - side * 2))
            (as_i32 (row_h - 10));
      text = c.text_rect index;
      toggle_box = toggle_of c index y0 row_h c.enabled;
    }

-- The rows of `count` entries, from this index.
unfoldable pub make_rows : Content → ℕ → ℕ → ℕ → ℕ → List Row
unfolding from_xywh
make_rows c row_h index visible_index zero = []
make_rows c row_h index visible_index (suc count) =
    make_row c row_h index visible_index ∷ make_rows c row_h (index + 1) (visible_index + 1) count

abbrev fill_page : Content → PaperList → ℕ → ℕ → PaperList
fill_page c l page_size page =
    let start = page * page_size in
    let visible = min (start + page_size) c.entry_count - start in
    record l {
      rows = make_rows c (row_height (available c) visible) start 0 visible;
      page = page;
      page_size = page_size;
      total_rows = c.entry_count;
    }

unfoldable pub redraw : Content → PaperList → PaperList
unfolding make_rows
redraw c l =
    let page_size = max (available c / 78) 1 in
    if c.entry_count == 0
    then record l { rows = []; page = 0; page_size = 1; total_rows = 0 }
    else fill_page c l page_size (min l.page (div_ceil c.entry_count page_size - 1))

-- `show_with_mode`
unfoldable pub show_with_mode : Content → Bool → PaperList
unfolding redraw
show_with_mode c selectable =
    redraw c
      (record { rows = []; selectable = selectable; page = 0; page_size = 1; total_rows = 0 })

-- `iter().find`
unfoldable pub find_row : (Row → Bool) → List Row → Option Row
find_row p [] = none
find_row p (r ∷ rows) = if p r then some r else find_row p rows

abbrev pub on_toggle_box : Point → Row → Bool
on_toggle_box at r = elim r.toggle_box [ none ↦ false | some box ↦ contains box at ]

abbrev hit_or_blank : (ℕ → Hit) → Option Row → Hit
hit_or_blank hit none = blank
hit_or_blank hit (some r) = hit r.number

abbrev hit_below : PaperList → Point → Option Row → Hit
hit_below l at (some r) = on_toggle r.number
hit_below l at none =
    if l.selectable
    then hit_or_blank on_card (find_row (λ r. contains r.card at) l.rows)
    else hit_or_blank on_text (find_row (λ r. contains r.text at) l.rows)

unfoldable pub hit_test : PaperList → Point → Hit
unfolding find_row
hit_test l at = hit_below l at (find_row (on_toggle_box at) l.rows)

abbrev pub tap_action : Hit → Action
tap_action (on_toggle number) = toggle number
tap_action (on_card number) = select number
tap_action (on_text number) = redraw_only
tap_action blank = dismiss

-- The row that a strike crosses.
abbrev pub struck : Point → Point → HitRect → Row → Bool
struck from to bounds r =
    contains r.card from && intersects r.text bounds && segment_intersects_rect from to r.text

abbrev pub strike_action : Option Row → Action
strike_action none = redraw_only
strike_action (some r) = delete r.number

abbrev pub last_page : PaperList → ℕ
last_page l = div_ceil l.total_rows (max l.page_size 1) - 1

-- The arm of `Gesture::Swipe`, for a swipe that is more vertical than horizontal.
abbrev pub turn_page : Point → Point → PaperList → PaperList
turn_page from to l =
    if ltb_ℤ to.y from.y
    then record l { page = min (l.page + 1) (last_page l) }
    else record l { page = l.page - 1 }

abbrev pub is_vertical : Point → Point → Bool
is_vertical from to = ltb_ℤ (distance from.x to.x) (distance from.y to.y)

unfoldable pub interact : PaperList → Gesture → Action × PaperList
unfolding hit_test segment_intersects_rect
interact l (tap tool at) = (tap_action (hit_test l at), l)
interact l (strike tool from to bounds) =
    if is_pen tool && not l.selectable
    then (strike_action (find_row (struck from to bounds) l.rows), l)
    else (redraw_only, l)
interact l (swipe tool from to bounds) =
    if is_vertical from to then (redraw_only, turn_page from to l) else (redraw_only, l)
