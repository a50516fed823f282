-- ===== src/RecipeLoader.antt =====
-- recipe_loader.py: recipe files, checked against the working area and anchored at the plane of the
-- operator. The geometry that is injected is that of send_cartesian_path.py. The files are a
-- parameter; so are the texts of the messages. An expression of a func segment that raises
-- something else than a ValueError, TypeError or KeyError is not modelled.
pub mod Previews
pub mod Files
pub mod Inside
pub mod Anchoring
pub mod Decimation
use rmp_ros2_control.Prelude.{
  ℕ, suc, ◌+◌, Bool, true, false, not, ◌&&◌, ◌||◌, Option, none, some, List, [], ◌∷◌, ◌++◌, map,
  Text, ◌==◌, if◌then◌else◌, ◌>>=◌,
}
use rmp_ros2_control.Float.{Float, lit, min, ◌⊕◌, ◌⊖◌, ◌⊗◌, ◌⊘◌, ◌<?◌, ◌≤?◌}
use rmp_ros2_control.Linalg.{Coordinate, Command, Extent}
use rmp_ros2_control.FileManager.{PlaneConfig}
use rmp_ros2_control.Recipe.{RecipeSegment, Defaults}
use rmp_ros2_control.Recipe.Curves.{segment_local_points}

pub data LoadError : Type 0 where
  not_a_plain_name not_found unreadable only_relative bad_segment no_scale_fits : LoadError
  leaves_working_area : LoadError

pub data Note (F : Type 0) : Type 0 where
  beyond_extent : ℕ → Note F
  no_pen_down : Note F
  draws_below : F → F → Note F

abbrev pub Polyline : Type 0 → Type 0
Polyline F = List (Coordinate F)

module _ {F : Type 0} ⦃fl : Float F⦄ where
  abbrev pub turn : F → Command F → Command F
  turn theta (x, y, z) =
      let cos_t = fl.cos theta in
      let sin_t = fl.sin theta in (x ⊗ cos_t ⊖ y ⊗ sin_t, x ⊗ sin_t ⊕ y ⊗ cos_t, z)

  -- _sample
  unfoldable pub sample : List (RecipeSegment F) → Defaults F → F → Option (List (Command F))
  sample [] defaults rotate_deg = some []
  sample (segment ∷ segments) defaults rotate_deg = do
    locals ← segment_local_points segment defaults
    rest ← sample segments defaults rotate_deg
    some (map (turn (fl.radians rotate_deg)) locals ++ rest)

  -- the points of `load` that are drawn: those below the travel height
  unfoldable pub pen_down_points : F → List (Command F) → List (Command F)
  pen_down_points safe_z [] = []
  pen_down_points safe_z ((x, y, z) ∷ points) =
      let rest = pen_down_points safe_z points in if z <? safe_z then (x, y, z) ∷ rest else rest

  abbrev pub close_polyline : Polyline F → List (Polyline F) → List (Polyline F)
  close_polyline [] polylines = polylines
  close_polyline (p ∷ current) polylines = (p ∷ current) ∷ polylines

  abbrev pub scaled : F → Command F → Coordinate F
  scaled scale (x, y, z) = (x ⊗ scale, y ⊗ scale)

  abbrev pub depth : Command F → F
  depth (x, y, z) = z

  -- the loop of `_pen_down_polylines`, with `current` so far
  unfoldable pub polylines_from : Polyline F → List (Command F) → F → F → List (Polyline F)
  polylines_from current [] scale safe_z = close_polyline current []
  polylines_from current (point ∷ points) scale safe_z =
      let drawn = depth point <? safe_z in
      let next = if drawn then current ++ scaled scale point ∷ [] else [] in
      let rest = polylines_from next points scale safe_z in
      if drawn then rest else close_polyline current rest

  unfoldable pub pen_down_polylines : List (Command F) → F → F → List (Polyline F)
  unfolding polylines_from
  pen_down_polylines unit_points scale safe_z = polylines_from [] unit_points scale safe_z

  -- one coordinate of `_fit_scale` against its bounds
  abbrev fit_axis : F → F → F → F → F
  fit_axis coordinate low high best =
      if lit 0 1 <? coordinate
      then min best (high ⊘ coordinate)
      else if coordinate <? lit 0 1
      then min best (low ⊘ coordinate)
      else best

  -- the quadratic of a point; the root is `none` where it is not positive or not real
  abbrev disc_root : F → F → F → Coordinate F → F → Option F
  disc_root x y radial (centre_x, centre_y) working_radius =
      let half_b = fl.neg (x ⊗ centre_x ⊕ y ⊗ centre_y) in
      let two = lit 2 0 in
      let constant = fl.pow centre_x two ⊕ fl.pow centre_y two ⊖ fl.pow working_radius two in
      let discriminant = half_b ⊗ half_b ⊖ radial ⊗ constant in
      let root = (fl.neg half_b ⊕ fl.sqrt discriminant) ⊘ radial in
      if discriminant <? lit 0 1 then none else if root ≤? lit 0 1 then none else some root

  abbrev fit_point : Command F → Extent F → Coordinate F → F → F → Option F
  fit_point (x, y, z) extent centre radius best =
      let within =
        fit_axis y extent.y_min extent.y_max (fit_axis x extent.x_min extent.x_max best) in
      let radial = x ⊗ x ⊕ y ⊗ y in
      let bounded = disc_root x y radial centre radius >>= λ root. some (min within root) in
      if radial ≤? lit 0 1 then some within else bounded

  unfoldable pub fit_points : List (Command F) → Extent F → Coordinate F → F → F → Option F
  unfolding min
  fit_points [] extent centre radius best = some best
  fit_points (point ∷ points) extent centre radius best = do
    best' ← fit_point point extent centre radius best
    fit_points points extent centre radius best'

  abbrev shrink : F → Option F
  shrink best =
      let less = best ⊗ (lit 10 1 ⊖ lit 1 6) in
      if not (fl.is_finite best)
      then some (lit 10 1)
      else if lit 0 1 <? less
      then some less
      else none

  -- _fit_scale
  unfoldable pub fit_scale : List (Command F) → Extent F → Coordinate F → F → Option F
  unfolding fit_points
  fit_scale pen_down extent centre radius = do
    best ← fit_points pen_down extent centre radius fl.inf
    shrink best

  abbrev pub outside_disc : Coordinate F → F → Coordinate F → Bool
  outside_disc (cx, cy) radius (x, y) = radius <? fl.hypot (x ⊖ cx) (y ⊖ cy)

  abbrev in_extent : Extent F → Coordinate F → Bool
  in_extent e (x, y) = e.x_min ≤? x && x ≤? e.x_max && e.y_min ≤? y && y ≤? e.y_max

  -- the inner loop of `_validate`: the number of points beyond the extent, or the refusal
  unfoldable pub validate_points : List (Coordinate F) → Extent F → Coordinate F → F → Option ℕ
  validate_points [] extent centre radius = some 0
  validate_points (p ∷ points) extent centre radius =
      let rest = validate_points points extent centre radius in
      if outside_disc centre radius p
      then none
      else rest >>= λ n. some (if in_extent extent p then n else suc n)

  unfoldable pub validate_polylines : List (Polyline F) → Extent F → Coordinate F → F → Option ℕ
  unfolding validate_points
  validate_polylines [] extent centre radius = some 0
  validate_polylines (l ∷ polylines) extent centre radius = do
    n ← validate_points l extent centre radius
    m ← validate_polylines polylines extent centre radius
    some (n + m)

  abbrev lowest : F → List F → F
  lowest z [] = z
  lowest z (w ∷ ws) = lowest (min z w) ws

  abbrev depth_notes : List F → F → List (Note F)
  depth_notes [] draw_z = []
  depth_notes (z ∷ depths) draw_z =
      let least = lowest z depths in if least <? draw_z then draws_below least draw_z ∷ [] else []

  abbrev path_notes : List (Polyline F) → List F → F → List (Note F)
  path_notes [] depths draw_z = no_pen_down ∷ []
  path_notes (l ∷ polylines) depths draw_z = depth_notes depths draw_z

  -- _validate: the notes, or `none` for a path that leaves the working area
  unfoldable pub validate :
      List (Polyline F)
      → List F
      → PlaneConfig F
      → Extent F
      → Coordinate F
      → F
      → Option (List (Note F))
  unfolding validate_polylines min
  validate polylines depths plane extent centre radius = do
    outside ← validate_polylines polylines extent centre radius
    some (
        (if outside == 0 then [] else beyond_extent outside ∷ [])
        ++ path_notes polylines depths plane.draw_z)
