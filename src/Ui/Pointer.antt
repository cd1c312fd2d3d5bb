-- ===== src/Ui/Pointer.antt =====
-- src/ui/pointer.rs: rectangles for hit tests, and the classification of a contact. A duration is a
-- number of nanoseconds.
pub mod Rectangles
use riddle.Prelude.{
  ℕ, ◌*◌, ◌≡◌, refl, Bool, true, false, not, ◌&&◌, Option, none, some, List, [], ◌∷◌, ltb, leb,
  ◌==◌, if◌then◌else◌, ok_or, last?, ℤ, pos, negsuc, ◌+ℤ◌, ◌-ℤ◌, ◌*ℤ◌, ltb_ℤ, leb_ℤ, min_ℤ, max_ℤ,
  wrap_i32, clamp_i32, abs_i32,
}

pub record Point : Type 0 where
  pub x : ℤ
  pub y : ℤ

pub record HitRect : Type 0 where
  pub x0 : ℤ
  pub y0 : ℤ
  pub x1 : ℤ
  pub y1 : ℤ

abbrev pub saturating_add : ℤ → ℤ → ℤ
saturating_add a b = clamp_i32 (a +ℤ b)

abbrev pub saturating_sub : ℤ → ℤ → ℤ
saturating_sub a b = clamp_i32 (a -ℤ b)

abbrev pub saturating_mul : ℤ → ℤ → ℤ
saturating_mul a b = clamp_i32 (a *ℤ b)

unfoldable pub from_xywh : ℤ → ℤ → ℤ → ℤ → HitRect
from_xywh x y width height = record {
  x0 = x;
  y0 = y;
  x1 = saturating_add x (max_ℤ width (pos 0));
  y1 = saturating_add y (max_ℤ height (pos 0));
}

-- The body of the loop of `from_points`.
abbrev pub extend : HitRect → Point → HitRect
extend rect p = record {
  x0 = min_ℤ rect.x0 p.x;
  y0 = min_ℤ rect.y0 p.y;
  x1 = max_ℤ rect.x1 (saturating_add p.x (pos 1));
  y1 = max_ℤ rect.y1 (saturating_add p.y (pos 1));
}

unfoldable pub extend_all : HitRect → List Point → HitRect
extend_all rect [] = rect
extend_all rect (p ∷ points) = extend_all (extend rect p) points

unfoldable pub from_points : List Point → Option HitRect
unfolding from_xywh extend_all
from_points [] = none
from_points (p ∷ points) = some (extend_all (from_xywh p.x p.y (pos 1) (pos 1)) points)

abbrev pub width : HitRect → ℤ
width rect = saturating_sub rect.x1 rect.x0

abbrev pub height : HitRect → ℤ
height rect = saturating_sub rect.y1 rect.y0

abbrev pub contains : HitRect → Point → Bool
contains rect p = leb_ℤ rect.x0 p.x && ltb_ℤ p.x rect.x1 && leb_ℤ rect.y0 p.y && ltb_ℤ p.y rect.y1

abbrev pub intersects : HitRect → HitRect → Bool
intersects rect other =
    ltb_ℤ rect.x0 other.x1
    && ltb_ℤ other.x0 rect.x1
    && ltb_ℤ rect.y0 other.y1
    && ltb_ℤ other.y0 rect.y1

-- `i32::clamp(0, bound)`, for a bound that is not negative.
abbrev pub clamp_to : ℕ → ℤ → ℤ
clamp_to bound a = if ltb_ℤ a (pos 0) then pos 0 else if ltb_ℤ (pos bound) a then pos bound else a

abbrev pub clip : ℕ → ℕ → HitRect → HitRect
clip w h rect = record {
  x0 = clamp_to w rect.x0;
  y0 = clamp_to h rect.y0;
  x1 = clamp_to w rect.x1;
  y1 = clamp_to h rect.y1;
}

-- `clipped_to`, for a framebuffer whose sides are below 2 ^ 31.
unfoldable pub clipped_to : HitRect → ℕ → ℕ → Option HitRect
clipped_to rect w h =
    let clipped = clip w h rect in
    if ltb_ℤ (pos 0) (width clipped) && ltb_ℤ (pos 0) (height clipped) then some clipped else none

pub data PointerTool : Type 0 where
  pen finger : PointerTool

pub data Gesture : Type 0 where
  tap : PointerTool → Point → Gesture
  swipe strike : PointerTool → Point → Point → HitRect → Gesture

pub record ContactProfile : Type 0 where
  pub tap_slop_px : ℤ
  pub tap_max_duration : ℕ
  pub swipe_min_distance_px : ℤ
  pub strike_min_distance_px : ℤ
  pub axis_dominance : ℤ

abbrev pub sane : ContactProfile → Bool
sane p =
    leb_ℤ (pos 0) p.tap_slop_px
    && not (p.tap_max_duration == 0)
    && ltb_ℤ p.tap_slop_px p.swipe_min_distance_px
    && ltb_ℤ p.tap_slop_px p.strike_min_distance_px
    && leb_ℤ (pos 1) p.axis_dominance

pub record GesturePolicy : Type 0 where
  pub pen_profile : ContactProfile
  pub finger_profile : ContactProfile

-- `Duration::from_millis`
abbrev from_millis : ℕ → ℕ
from_millis n = n * 1000000

-- `GesturePolicy::default`
abbrev pub default_policy : GesturePolicy
default_policy = record {
  pen_profile = record {
    tap_slop_px = pos 18;
    tap_max_duration = from_millis 350;
    swipe_min_distance_px = pos 96;
    strike_min_distance_px = pos 120;
    axis_dominance = pos 2;
  };
  finger_profile = record {
    tap_slop_px = pos 32;
    tap_max_duration = from_millis 500;
    swipe_min_distance_px = pos 120;
    strike_min_distance_px = pos 150;
    axis_dominance = pos 2;
  };
}

abbrev pub profile_of : GesturePolicy → PointerTool → ContactProfile
profile_of policy pen = policy.pen_profile
profile_of policy finger = policy.finger_profile

abbrev pub is_pen : PointerTool → Bool
is_pen pen = true
is_pen finger = false

-- The distance along an axis.
abbrev pub distance : ℤ → ℤ → ℤ
distance from to = abs_i32 (wrap_i32 (to -ℤ from))

abbrev pub is_tap : ContactProfile → HitRect → ℕ → Bool
is_tap profile bounds duration =
    leb duration profile.tap_max_duration
    && leb_ℤ (saturating_sub (width bounds) (pos 1)) profile.tap_slop_px
    && leb_ℤ (saturating_sub (height bounds) (pos 1)) profile.tap_slop_px

abbrev pub is_strike : PointerTool → ContactProfile → HitRect → Point → Point → Bool
is_strike tool profile bounds from to =
    is_pen tool
    && leb_ℤ profile.strike_min_distance_px (distance from.x to.x)
    && leb_ℤ (saturating_mul (distance from.y to.y) profile.axis_dominance) (distance from.x to.x)
    && leb_ℤ (saturating_mul (height bounds) profile.axis_dominance) (width bounds)

abbrev pub is_swipe : ContactProfile → Point → Point → Bool
is_swipe profile from to =
    leb_ℤ profile.swipe_min_distance_px (max_ℤ (distance from.x to.x) (distance from.y to.y))

abbrev pub classify_contact :
    PointerTool → ContactProfile → ℕ → Point → Option HitRect → Option Point → Option Gesture
classify_contact tool profile duration from (some bounds) (some to) =
    if is_tap profile bounds duration
    then some (tap tool to)
    else if is_strike tool profile bounds from to
    then some (strike tool from to bounds)
    else if is_swipe profile from to
    then some (swipe tool from to bounds)
    else none
classify_contact tool profile duration from _ _ = none

unfoldable pub classify : GesturePolicy → PointerTool → List Point → ℕ → Option Gesture
unfolding from_points
classify policy tool [] duration = none
classify policy tool (p ∷ points) duration =
    if not (sane (profile_of policy tool))
    then none
    else classify_contact tool (profile_of policy tool) duration p (from_points (p ∷ points))
        (last? (p ∷ points))
