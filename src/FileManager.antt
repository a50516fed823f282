-- ===== src/FileManager.antt =====
-- file_manager.py: the plane configuration, the framing of a drawing's runs into the recipe
-- structure that the streamed sender executes, and the file name of a saved drawing.
pub mod Framing
pub mod Names
pub mod Points
use rmp_ros2_control.Prelude.{
  ℕ, suc, ◌+◌, Bool, true, false, not, ◌&&◌, ◌||◌, Option, none, some, List, [], ◌∷◌, ◌++◌, Text,
  codes, map, leb, ◌==◌, length, last?, if◌then◌else◌, ◌>>=◌,
}
use rmp_ros2_control.Float.{Float, lit, ◌⊕◌, ◌≤?◌}
use rmp_ros2_control.Linalg.{Coordinate, Command}

pub record PlaneConfig (F : Type 0) : Type 0 where
  pub anchor_xyz : Command F
  pub anchor_rpy : Command F
  pub ready_joints : List F
  pub draw_z : F
  pub safe_z : F
  pub velocity : F
  pub acceleration : F
  pub eef_step : F
  pub retract_z : F
  pub plane_offset : Coordinate F
  pub plane_yaw_deg : F

-- A segment of a recipe as the file manager writes it: a straight line to a position, or a spline
-- through points at one depth.
pub data Segment (F : Type 0) : Type 0 where
  lin : Command F → Segment F
  through : Bool → F → ℕ → List (Coordinate F) → Segment F

-- The recipe structure, with the keys of the dictionary as fields. `coordinates` is 'relative'.
pub record Structure (F : Type 0) : Type 0 where
  pub coordinates : Text
  pub ready : List F
  pub anchor_at : Command F
  pub anchor_rpy : Command F
  pub plane_rotate : F
  pub default_z : F
  pub default_vel : F
  pub default_acc : F
  pub default_samples : ℕ
  pub eef_step : F
  pub segments : List (Segment F)

abbrev pub relative : Text
relative = codes "relative"

module _ {F : Type 0} ⦃fl : Float F⦄ where
  unfoldable pub effective_anchor : PlaneConfig F → Command F
  effective_anchor plane =
      let (x, y, z) = plane.anchor_xyz in let (dx, dy) = plane.plane_offset in (x ⊕ dx, y ⊕ dy, z)

module _ {F : Type 0} where
  abbrev pub at_depth : F → Coordinate F → Command F
  at_depth z (x, y) = (x, y, z)

  -- the drawn part of a run: a spline from three points on, lines below
  abbrev pub pen_segments : PlaneConfig F → Coordinate F → List (Coordinate F) → List (Segment F)
  pen_segments plane p rest =
      if leb 3 (length (p ∷ rest))
      then through false plane.draw_z (length (p ∷ rest)) (p ∷ rest) ∷ []
      else map (λ q. lin (at_depth plane.draw_z q)) rest

  abbrev pub final_point : Coordinate F → List (Coordinate F) → Coordinate F
  final_point p [] = p
  final_point p (q ∷ rest) = final_point q rest

  -- the body of the loop over the runs; an empty run is skipped
  unfoldable pub run_segments : PlaneConfig F → List (Coordinate F) → List (Segment F)
  run_segments plane [] = []
  run_segments plane (p ∷ rest) =
      lin (at_depth plane.safe_z p)
      ∷ lin (at_depth plane.draw_z p)
      ∷ (pen_segments plane p rest ++ lin (at_depth plane.safe_z (final_point p rest)) ∷ [])

  unfoldable pub all_segments : PlaneConfig F → List (List (Coordinate F)) → List (Segment F)
  all_segments plane [] = []
  all_segments plane (run ∷ runs) = run_segments plane run ++ all_segments plane runs

  -- `segments[-1]['xyz']` is read where the list is not empty; a spline has no such key
  unfoldable pub retract_from : PlaneConfig F → Option (Segment F) → Option (List (Segment F))
  retract_from plane none = some []
  retract_from plane (some (lin (x, y, z))) = some (lin (x, y, plane.retract_z) ∷ [])
  retract_from plane (some (through closed z samples points)) = none

module _ {F : Type 0} ⦃fl : Float F⦄ where
  -- `none` is an exception: the ValueError of the depths, or a KeyError
  unfoldable pub to_recipe_structure :
      List (List (Coordinate F)) → PlaneConfig F → Option (Structure F)
  to_recipe_structure runs plane =
      let segments = all_segments plane runs in
      if plane.safe_z ≤? plane.draw_z then none else do
        retract ← retract_from plane (last? segments)
        some (record {
          coordinates = relative;
          ready = plane.ready_joints;
          anchor_at = effective_anchor plane;
          anchor_rpy = plane.anchor_rpy;
          plane_rotate = plane.plane_yaw_deg;
          default_z = plane.draw_z;
          default_vel = plane.velocity;
          default_acc = plane.acceleration;
          default_samples = 120;
          eef_step = plane.eef_step;
          segments = segments ++ retract;
        })

-- save_recipe: the pattern [A-Za-z0-9_-]
abbrev pub is_safe : ℕ → Bool
is_safe c =
    (leb b'A' c && leb c b'Z')
    || (leb b'a' c && leb c b'z')
    || (leb b'0' c && leb c b'9')
    || (c == b'_')
    || (c == b'-')

-- `re.sub(r'[^A-Za-z0-9_-]+', '_', name)`; the flag tells that the scan is inside an unsafe run
unfoldable pub replace_unsafe : Bool → Text → Text
replace_unsafe inside [] = []
replace_unsafe inside (c ∷ rest) =
    let safe = is_safe c in
    let later = replace_unsafe (not safe) rest in
    if safe then c ∷ later else if inside then later else b'_' ∷ later

-- `.strip('_')`
unfoldable pub strip_left : Text → Text
strip_left [] = []
strip_left (c ∷ rest) = let stripped = strip_left rest in if c == b'_' then stripped else c ∷ rest

-- a character before what is left of the rest
abbrev pub before_stripped : ℕ → Text → Text
before_stripped c [] = if c == b'_' then [] else c ∷ []
before_stripped c (d ∷ more) = c ∷ d ∷ more

unfoldable pub strip_right : Text → Text
strip_right [] = []
strip_right (c ∷ rest) = before_stripped c (strip_right rest)

abbrev pub file_of : Text → Option Text
file_of [] = none
file_of (c ∷ rest) = some (codes "recipe_" ++ ((c ∷ rest) ++ codes ".yaml"))

-- the file that `save_recipe` writes in the directory; `none` is the ValueError
unfoldable pub recipe_file : Text → Option Text
unfolding replace_unsafe strip_left strip_right
recipe_file name = file_of (strip_right (strip_left (replace_unsafe false name)))
