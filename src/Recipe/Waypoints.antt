-- ===== src/Recipe/Waypoints.antt =====
-- send_cartesian_path.py: reading a recipe, its anchor, and the waypoints of all its segments. The
-- file and its YAML are a parameter, the reader, whose `none` is an OSError or a YAML error.
use rmp_ros2_control.Prelude.{
  ◌+◌, ◌&&◌, Option, none, some, List, [], ◌∷◌, ◌++◌, map, Text, codes, leb, if◌then◌else◌, ◌>>=◌,
}
use rmp_ros2_control.Float.{Float, lit, ◌⊕◌, ◌⊖◌, ◌⊗◌}
use rmp_ros2_control.Linalg.{Command}
use rmp_ros2_control.Recipe.{
  Quaternion, RecipeSegment, Defaults, OwnDefaults, Anchor, RecipeDoc, or_default, same_text,
  quat_from_rpy, orientation_from,
}
use rmp_ros2_control.Recipe.Curves.{segment_local_points}

pub data Coords : Type 0 where
  relative absolute : Coords

-- A waypoint: a position in the world and an orientation.
abbrev pub Waypoint : Type 0 → Type 0
Waypoint F = Command F × Quaternion F

-- `str.lower`, on the letters that the words 'relative' and 'absolute' have
abbrev lower : Text → Text
lower [] = []
lower (c ∷ cs) = (if leb 65 c && leb c 90 then c + 32 else c) ∷ lower cs

abbrev coords_of : Text → Option Coords
coords_of t =
    if same_text t (codes "relative")
    then some relative
    else if same_text t (codes "absolute")
    then some absolute
    else none

abbrev pub read_coords : Option Text → Option Coords
read_coords none = some relative
read_coords (some t) = coords_of (lower t)

module _ {F : Type 0} ⦃fl : Float F⦄ where
  abbrev pub sender_defaults : Defaults F
  sender_defaults = record { vel = lit 1 1; acc = lit 1 1; z = lit 0 1; samples = 120 }

  abbrev pub over_defaults : OwnDefaults F → Defaults F
  over_defaults own = record {
    vel = or_default own.own_vel (lit 1 1);
    acc = or_default own.own_acc (lit 1 1);
    z = or_default own.own_z (lit 0 1);
    samples = or_default own.own_samples 120;
  }

  abbrev checked_segments :
      RecipeDoc F
      → Coords
      → List (RecipeSegment F)
      → Option (RecipeDoc F × Coords × Defaults F × List (RecipeSegment F))
  checked_segments doc coords [] = none
  checked_segments doc coords (seg ∷ segs) =
      some (doc, coords, over_defaults doc.defaults, seg ∷ segs)

  unfoldable pub load_recipe :
      (Text → Option (RecipeDoc F))
      → Text
      → Option (RecipeDoc F × Coords × Defaults F × List (RecipeSegment F))
  load_recipe read path = do
    doc ← read path
    coords ← read_coords doc.coordinates
    checked_segments doc coords doc.segments

  unfoldable pub world_point : Command F → Command F → Coords → Command F
  world_point local start_pos absolute = local
  world_point (x, y, z) (sx, sy, sz) relative = (sx ⊕ x, sy ⊕ y, sz ⊕ z)

  -- the body of the inner loop of `build_waypoints`
  unfoldable pub place : Command F → Quaternion F → Coords → F → F → Command F → Waypoint F
  unfolding world_point
  place start_pos quat coords scale th (x, y, z) =
      let ct = fl.cos th in
      let st = fl.sin th in
      let lx = x ⊗ scale in
      let ly = y ⊗ scale in
      (world_point (lx ⊗ ct ⊖ ly ⊗ st, lx ⊗ st ⊕ ly ⊗ ct, z) start_pos coords, quat)

  unfoldable pub segment_waypoints :
      Command F
      → Quaternion F
      → Coords
      → Defaults F
      → F
      → F
      → List (RecipeSegment F)
      → Option (List (Waypoint F))
  unfolding place
  segment_waypoints start_pos start_quat coords defaults scale th [] = some []
  segment_waypoints start_pos start_quat coords defaults scale th (seg ∷ segs) = do
    quat ← orientation_from seg start_quat
    locals ← segment_local_points seg defaults
    rest ← segment_waypoints start_pos start_quat coords defaults scale th segs
    some (map (place start_pos quat coords scale th) locals ++ rest)

  unfoldable pub build_waypoints :
      List (RecipeSegment F)
      → Command F
      → Quaternion F
      → Coords
      → Defaults F
      → F
      → F
      → F
      → Option (List (Waypoint F))
  unfolding segment_waypoints
  build_waypoints segments start_pos start_quat coords defaults scale rotate_deg plane_rotate_deg =
      segment_waypoints start_pos start_quat coords defaults scale
        (fl.radians (rotate_deg ⊕ plane_rotate_deg)) segments

  abbrev anchor_quat : Option (List F) → Option (Quaternion F)
  anchor_quat none = some (lit 10 1, lit 0 1, lit 0 1, lit 0 1)
  anchor_quat (some (r ∷ p ∷ y ∷ [])) = some (quat_from_rpy r p y)
  anchor_quat (some other) = none

  abbrev posed : List F → Option (Quaternion F) → Option (Command F × Quaternion F)
  posed (x ∷ y ∷ z ∷ []) (some q) = some ((x, y, z), q)
  posed xyz q = none

  unfoldable pub anchor_pose : Anchor F → Option (Command F × Quaternion F)
  anchor_pose anchor = posed anchor.xyz (anchor_quat anchor.rpy)
