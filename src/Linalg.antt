-- ===== src/Linalg.antt =====
-- linalg.py: the canvas mapping, the clamps, the bound verdicts and the reach checks. A plane
-- coordinate is a pair in metres, a command has the pen depth as its third part; `none` is the
-- ValueError of a function that raises.
pub mod Sampling
pub mod Runs
pub mod Bounds
use rmp_ros2_control.Prelude.{
  ℕ, Bool, true, false, ◌&&◌, ◌||◌, Option, none, some, List, [], ◌∷◌, all, if◌then◌else◌,
}
use rmp_ros2_control.Float.{Float, lit, max, min, ◌⊕◌, ◌⊖◌, ◌⊗◌, ◌⊘◌, ◌<?◌, ◌≤?◌, ◌=?◌}

abbrev pub Coordinate : Type 0 → Type 0
Coordinate F = F × F

abbrev pub Command : Type 0 → Type 0
Command F = F × F × F

pub record Extent (F : Type 0) : Type 0 where
  pub x_min : F
  pub y_min : F
  pub x_max : F
  pub y_max : F

-- The configured motion bounds that `bound_verdicts` checks against.
pub record Limits (F : Type 0) : Type 0 where
  pub extent : Extent F
  pub working_centre : Coordinate F
  pub working_radius : F
  pub depth_min : F
  pub depth_max : F
  pub max_speed : F

pub record BoundVerdicts : Type 0 where
  pub extent_ok : Bool
  pub depth_ok : Bool
  pub working_area_ok : Bool
  pub speed_ok : Bool

-- BoundVerdicts.ok
abbrev pub verdicts_ok : BoundVerdicts → Bool
verdicts_ok v = v.extent_ok && v.depth_ok && v.working_area_ok && v.speed_ok

module _ {F : Type 0} ⦃fl : Float F⦄ where
  -- `math.dist` of two coordinates and of two commands
  abbrev pub dist_2 : Coordinate F → Coordinate F → F
  dist_2 (a, b) (c, d) = fl.dist (a ∷ b ∷ []) (c ∷ d ∷ [])

  abbrev pub dist_3 : Command F → Command F → F
  dist_3 (a, b, c) (d, e, f) = fl.dist (a ∷ b ∷ c ∷ []) (d ∷ e ∷ f ∷ [])

  -- `==` of two tuples
  abbrev pub same_coordinate : Coordinate F → Coordinate F → Bool
  same_coordinate (a, b) (c, d) = (a =? c) && (b =? d)

  abbrev pub same_command : Command F → Command F → Bool
  same_command (a, b, c) (d, e, f) = (a =? d) && (b =? e) && (c =? f)

  unfoldable pub rpy_to_quaternion : F × F × F → F × F × F × F
  rpy_to_quaternion (roll, pitch, yaw) =
      let two = lit 2 0 in
      let cr = fl.cos (roll ⊘ two) in
      let sr = fl.sin (roll ⊘ two) in
      let cp = fl.cos (pitch ⊘ two) in
      let sp = fl.sin (pitch ⊘ two) in
      let cy = fl.cos (yaw ⊘ two) in
      let sy = fl.sin (yaw ⊘ two) in
      (
        cr ⊗ cp ⊗ cy ⊕ sr ⊗ sp ⊗ sy,
        sr ⊗ cp ⊗ cy ⊖ cr ⊗ sp ⊗ sy,
        cr ⊗ sp ⊗ cy ⊕ sr ⊗ cp ⊗ sy,
        cr ⊗ cp ⊗ sy ⊖ sr ⊗ sp ⊗ cy,
      )

  unfoldable pub rotate_in_plane : Coordinate F → F → Coordinate F
  rotate_in_plane (x, y) degrees =
      let theta = fl.radians degrees in
      let cos_t = fl.cos theta in
      let sin_t = fl.sin theta in (x ⊗ cos_t ⊖ y ⊗ sin_t, x ⊗ sin_t ⊕ y ⊗ cos_t)

  unfoldable pub map_canvas_to_plane :
      Coordinate F → Coordinate F → Extent F → Option (Coordinate F)
  map_canvas_to_plane (px, py) (width, height) e =
      if (width ≤? lit 0 1) || (height ≤? lit 0 1)
      then none
      else some (
        e.x_min ⊕ px ⊘ width ⊗ (e.x_max ⊖ e.x_min),
        e.y_min ⊕ (lit 10 1 ⊖ py ⊘ height) ⊗ (e.y_max ⊖ e.y_min),
      )

  unfoldable pub map_plane_to_canvas :
      Coordinate F → Coordinate F → Extent F → Option (Coordinate F)
  map_plane_to_canvas (x, y) (width, height) e =
      if (e.x_max ≤? e.x_min) || (e.y_max ≤? e.y_min)
      then none
      else some (
        (x ⊖ e.x_min) ⊘ (e.x_max ⊖ e.x_min) ⊗ width,
        (lit 10 1 ⊖ (y ⊖ e.y_min) ⊘ (e.y_max ⊖ e.y_min)) ⊗ height,
      )

  unfoldable pub clamp_to_extent : Coordinate F → Extent F → Coordinate F
  clamp_to_extent (x, y) e = (min (max x e.x_min) e.x_max, min (max y e.y_min) e.y_max)

  unfoldable pub clamp_to_working_area : Coordinate F → Coordinate F → F → Coordinate F
  clamp_to_working_area (x, y) (cx, cy) radius =
      let dx = x ⊖ cx in
      let dy = y ⊖ cy in
      let distance = fl.hypot dx dy in
      let scale = radius ⊘ distance in
      if (distance ≤? radius) || (distance =? lit 0 1)
      then (x, y)
      else (cx ⊕ dx ⊗ scale, cy ⊕ dy ⊗ scale)

  unfoldable pub limit_displacement : Coordinate F → Coordinate F → F → Coordinate F
  limit_displacement (x, y) (lx, ly) max_step =
      let dx = x ⊖ lx in
      let dy = y ⊖ ly in
      let distance = fl.hypot dx dy in
      let scale = max_step ⊘ distance in
      if (distance ≤? max_step) || (distance =? lit 0 1)
      then (x, y)
      else (lx ⊕ dx ⊗ scale, ly ⊕ dy ⊗ scale)

  -- a plane coordinate is in the working disc
  unfoldable pub in_working_area : Coordinate F → Coordinate F → F → Bool
  in_working_area (x, y) (cx, cy) radius = fl.hypot (x ⊖ cx) (y ⊖ cy) ≤? radius

  unfoldable pub bound_verdicts : Command F → Command F → F → Limits F → BoundVerdicts
  unfolding in_working_area
  bound_verdicts (x, y, z) previous period limits = record {
    extent_ok =
        (limits.extent.x_min ≤? x)
        && (x ≤? limits.extent.x_max)
        && (limits.extent.y_min ≤? y)
        && (y ≤? limits.extent.y_max);
    depth_ok = (limits.depth_min ≤? z) && (z ≤? limits.depth_max);
    working_area_ok = in_working_area (x, y) limits.working_centre limits.working_radius;
    speed_ok =
        if period ≤? lit 0 1
        then false
        else (dist_3 (x, y, z) previous ⊘ period ≤? limits.max_speed);
  }

  unfoldable pub extent_fits_working_area : Extent F → Coordinate F → F → Bool
  unfolding in_working_area
  extent_fits_working_area e centre radius =
      all (λ corner. in_working_area corner centre radius)
        ((e.x_min, e.y_min) ∷ (e.x_min, e.y_max) ∷ (e.x_max, e.y_min) ∷ (e.x_max, e.y_max) ∷ [])

  abbrev pub reach_band_tolerance : F
  reach_band_tolerance = lit 1 9

  unfoldable pub disc_fits_reach_band : Coordinate F → F → F → F → Bool
  disc_fits_reach_band (cx, cy) radius inner outer =
      let distance = fl.hypot cx cy in
      (inner ⊖ reach_band_tolerance ≤? distance ⊖ radius)
      && (distance ⊕ radius ≤? outer ⊕ reach_band_tolerance)
