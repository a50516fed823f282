-- ===== src/Tests/Drawings.antt =====
-- The theorems on the geometry, the drawing store and the recipe structure, at concrete drawings.
use rmp_ros2_control.Prelude.{
  ◌≤◌, ◌++◌, true, false, ◌≡◌, ◌≢◌, refl, ◌⊎◌, ◌↔◌, arith, none, some, List, [], ◌∷◌, Text, codes,
  length, All,
}
use rmp_ros2_control.Prelude.Int.{ℤ, pos, negsuc}
use rmp_ros2_control.Float.{◌≤?◌}
use rmp_ros2_control.Float.Fixed.{fixed-IsOrdered, fixed, fixed_dist, fixed_sub, fixed_add}
use rmp_ros2_control.Linalg.Bounds.{InExtent, clamp_to_extent-InExtent}
use rmp_ros2_control.Linalg.{clamp_to_extent, Coordinate, in_working_area}
use rmp_ros2_control.Linalg.Runs.{split_at_working_area}
use rmp_ros2_control.Linalg.Runs.Groups.{
  ungroup, OnSide, Alternates, groups, groups_lem, drawn, left_out,
}
use rmp_ros2_control.Linalg.Runs.Splits.{split_lem, split-inside}
use rmp_ros2_control.DrawingStore.{DrawingStore, Stroke, polyline, Params, append, undo_last}
use rmp_ros2_control.DrawingStore.Bound.{
  IsBounded, appends, undoes, run, run-IsBounded, undo_last-append,
}
use rmp_ros2_control.FileManager.{
  Structure, lin, all_segments, run_segments, retract_from, at_depth, to_recipe_structure,
  replace_unsafe, strip_left, strip_right, recipe_file, effective_anchor,
}
use rmp_ros2_control.FileManager.Framing.{
  Straight, to_recipe_structure-Straight, to_recipe_structure-none_iff,
}
use rmp_ros2_control.FileManager.Points.{Lists, to_recipe_structure-All}
use rmp_ros2_control.FileManager.Names.{IsSafe, recipe_file-IsSafe}
use rmp_ros2_control.Tests.{config, plane, square}

-- in, out, and in again of a disc of 50 mm
abbrev wandering : List (Coordinate ℤ)
wandering =
    (pos 0, pos 0) ∷ (pos 10_000, pos 0) ∷ (pos 60_000, pos 0) ∷ (pos 20_000, pos 10_000) ∷ []

abbrev centre : Coordinate ℤ
centre = (pos 0, pos 0)

split_lem_example : split_at_working_area centre (pos 50_000) 2 wandering ≡ (
  drawn 2 (groups centre (pos 50_000) wandering),
  left_out 2 (groups centre (pos 50_000) wandering),
)
split_lem_example = split_lem centre (pos 50_000) 2 wandering

split-inside_example :
    All
      (λ run. All (λ p. in_working_area p centre (pos 50_000) ≡ true) run × (2 ≤ length run))
      (split_at_working_area centre (pos 50_000) 2 wandering).0
split-inside_example = split-inside centre (pos 50_000) 2 wandering

groups_lem_example :
    (ungroup (groups centre (pos 50_000) wandering) ≡ wandering)
    × All (OnSide centre (pos 50_000)) (groups centre (pos 50_000) wandering)
    × Alternates (groups centre (pos 50_000) wandering)
groups_lem_example = groups_lem centre (pos 50_000) wandering

abbrev stroke : Stroke ℤ
stroke = record { kind = polyline; points = wandering; params = Params.none_given; chained = false }

abbrev store : DrawingStore ℤ
store = record { max_samples = 10; strokes = []; sample_count = 0 }

run-IsBounded_example :
    IsBounded (run store (appends stroke ∷ appends stroke ∷ appends stroke ∷ undoes ∷ []))
run-IsBounded_example =
    run-IsBounded store (appends stroke ∷ appends stroke ∷ appends stroke ∷ undoes ∷ [])
      (record { counted = refl; bounded = omega arith })

undo_last-append_example :
    (((append store stroke).1 ≡ true) × (undo_last (append store stroke).0 ≡ (store, true)))
    ⊎ (((append store stroke).1 ≡ false) × ((append store stroke).0 ≡ store))
undo_last-append_example = undo_last-append store stroke

to_recipe_structure-none_iff_example :
    (to_recipe_structure square plane ≡ none) ↔ (plane.safe_z ≤? plane.draw_z ≡ true)
to_recipe_structure-none_iff_example = to_recipe_structure-none_iff square plane

abbrev line_runs : List (List (Coordinate ℤ))
line_runs = ((pos 0, pos 0) ∷ (pos 50_000, pos 0) ∷ []) ∷ []

abbrev line_structure : Structure ℤ
line_structure = record {
  coordinates = codes "relative";
  ready = plane.ready_joints;
  anchor_at = plane.anchor_xyz;
  anchor_rpy = plane.anchor_rpy;
  plane_rotate = pos 0;
  default_z = plane.draw_z;
  default_vel = plane.velocity;
  default_acc = plane.acceleration;
  default_samples = 120;
  eef_step = plane.eef_step;
  segments =
      lin (pos 0, pos 0, pos 20_000)
      ∷ lin (pos 0, pos 0, negsuc 4999)
      ∷ lin (pos 50_000, pos 0, negsuc 4999)
      ∷ lin (pos 50_000, pos 0, pos 20_000)
      ∷ lin (pos 50_000, pos 0, pos 80_000)
      ∷ [];
}

line_framed : to_recipe_structure line_runs plane ≡ some line_structure
unfolding to_recipe_structure all_segments run_segments retract_from effective_anchor fixed_add
line_framed = refl

to_recipe_structure-Straight_example :
    Straight (at_depth plane.safe_z (negsuc 29_999, pos 0)) line_structure.segments
to_recipe_structure-Straight_example =
    to_recipe_structure-Straight line_runs plane line_structure (negsuc 29_999, pos 0) line_framed

to_recipe_structure-All_example :
    All (Lists (λ p. in_working_area p centre (pos 150_000) ≡ true)) line_structure.segments
unfolding in_working_area fixed_dist fixed_sub
to_recipe_structure-All_example =
    to_recipe_structure-All (λ p. in_working_area p centre (pos 150_000) ≡ true) line_runs plane
      line_structure ((refl, (refl, tt)), tt) line_framed

recipe_file-IsSafe_example :
    (part : Text) × (codes "recipe_my_plan.yaml" ≡ codes "recipe_" ++ (part ++ codes ".yaml"))
    × (part ≢ [])
    × All IsSafe part
unfolding recipe_file replace_unsafe strip_left strip_right
recipe_file-IsSafe_example =
    recipe_file-IsSafe (codes "../my plan!") (codes "recipe_my_plan.yaml") refl

clamp_to_extent-InExtent_example :
    InExtent config.extent (clamp_to_extent (pos 900_000, pos 0) config.extent)
clamp_to_extent-InExtent_example =
    clamp_to_extent-InExtent fixed-IsOrdered config.extent (pos 900_000) (pos 0) (refl, refl) refl
      refl
