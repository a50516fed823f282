-- ===== src/Tests/Recipes.antt =====
-- The theorems on recipes, at small curves and at a recipe of two lines.
use rmp_ros2_control.Prelude.{
  suc, ◌≤◌, ◌<◌, ◌≡◌, refl, arith, true, false, none, some, List, [], ◌∷◌, Text, codes, Holds,
  Yields, Bool, length,
}
use rmp_ros2_control.Prelude.Int.{ℤ, pos, negsuc}
use rmp_ros2_control.Float.Fixed.{
  fixed, fixed-IsOrdered, fixed_lit, fixed_dist, fixed_sub, fixed_add, fixed_mul, fixed_div,
  fixed_sqrt,
}
use rmp_ros2_control.Float.{min}
use rmp_ros2_control.Linalg.{Coordinate}
use rmp_ros2_control.Dispatcher.{LoadedRecipe, Environment, init, LoadRequest, Control}
use rmp_ros2_control.Dispatcher.Events.{Event, run}
use rmp_ros2_control.Dispatcher.Agreement.{Agrees}
use rmp_ros2_control.Recipe.{RecipeDoc, RecipeSegment, OwnDefaults, lin}
use rmp_ros2_control.Recipe.Curves.{find_span, bspline_curve, segment_local_points}
use rmp_ros2_control.Recipe.Waypoints.{relative, over_defaults}
use rmp_ros2_control.Recipe.Spans.{Reached, Ahead, find_span_lem}
use rmp_ros2_control.Recipe.Evaluation.{bspline_curve-Complete}
use rmp_ros2_control.RecipeLoader.{
  LoadError, Note, sample as sample_segments, pen_down_points, pen_down_polylines, polylines_from,
  fit_scale, fit_points, validate, validate_points, validate_polylines,
}
use rmp_ros2_control.RecipeLoader.Decimation.{IsPreview, decimate_one-IsPreview}
use rmp_ros2_control.RecipeLoader.Previews.{decimate, decimate_one, cap_of}
use rmp_ros2_control.RecipeLoader.Files.{Files, Attempt, failed, done, load_doc}
use rmp_ros2_control.RecipeLoader.Inside.{Promises, DrawsInside, load_doc-Inside}
use rmp_ros2_control.RecipeLoader.Anchoring.{IsAnchored, loader_of, target_of, loader_of-Agrees}
use rmp_ros2_control.Tests.{config, plane, sample}

abbrev knots : List ℤ
knots = pos 0 ∷ pos 0 ∷ pos 300_000 ∷ pos 600_000 ∷ pos 1_000_000 ∷ pos 1_000_000 ∷ []

-- the span of one half is the third
find_span_lem_example :
    Yields
      (λ k. (1 ≤ k) × (k < 4) × Reached (pos 500_000) knots k × Ahead (pos 500_000) knots (suc k))
      (find_span (pos 500_000) knots 4 1)
find_span_lem_example =
    find_span_lem fixed-IsOrdered (pos 500_000) knots 4 1 (omega arith) (omega arith) refl
      (refl, refl) (refl, refl)

abbrev control_points : List (Coordinate ℤ)
control_points = (pos 0, pos 0) ∷ (pos 10_000, pos 20_000) ∷ (pos 30_000, pos 0) ∷ []

bspline_curve-Complete_example : Yields (λ c. length c ≡ 4) (bspline_curve control_points 2 4 false)
bspline_curve-Complete_example =
    bspline_curve-Complete control_points 2 4 false (omega arith) (omega arith)

abbrev pub line_to : ℤ → ℤ → ℤ → RecipeSegment ℤ
line_to x y z = record {
  shape = lin (x ∷ y ∷ z ∷ []);
  z = none;
  samples = none;
  rpy = none;
  rpy_frame = none;
}

abbrev pub own : OwnDefaults ℤ
own = record { own_vel = none; own_acc = none; own_z = none; own_samples = none }

abbrev pub lines : List (RecipeSegment ℤ)
lines =
    line_to (pos 10_000) (pos 0) (pos 20_000) ∷ line_to (pos 10_000) (pos 30_000) (negsuc 999) ∷ []

abbrev pub doc : RecipeDoc ℤ
doc = record {
  coordinates = none;
  defaults = own;
  segments = lines;
  anchor = none;
  ready = none;
  eef_step = none;
  scale = none;
  rotate = none;
  plane_rotate = none;
}

abbrev say : Note ℤ → Text
say note = codes "note"

abbrev is_done : {A : Type 0} → Attempt A → Bool
is_done (failed e) = false
is_done (done a) = true

abbrev attempt : Attempt (LoadedRecipe ℤ (RecipeDoc ℤ))
attempt =
    load_doc say (codes "line") (doc, relative, over_defaults own, lines) (target_of config) none
      false

-- The recipe of the example does load.
loads : is_done attempt ≡ true
unfolding load_doc sample_segments pen_down_points pen_down_polylines polylines_from fit_scale
    fit_points validate validate_points validate_polylines decimate decimate_one cap_of
    segment_local_points fixed_lit fixed_dist fixed_sub fixed_add fixed_mul fixed_div fixed_sqrt min
loads = refl

load_doc-Inside_example :
    Promises
      (λ recipe. DrawsInside doc (target_of config) lines (over_defaults own) recipe.scale)
      attempt
load_doc-Inside_example =
    load_doc-Inside say (codes "line") doc relative (over_defaults own) lines (target_of config)
      none false

abbrev request : LoadRequest ℤ
request = record { name = codes "line"; scale = none; fit = false }

abbrev files : Files ℤ
files = record { is_file = λ path. true; list_dir = λ path. none; read = λ path. some doc }

abbrev describe : LoadError → Text
describe e = codes "refused"

abbrev recipe_env : Environment ℤ (RecipeDoc ℤ)
recipe_env = record {
  has_stroke_route = true;
  has_recipe_loader = true;
  answer = λ cs c. true;
  stroke_active = λ cs. false;
  load = loader_of describe say files (codes "recipes" ∷ []);
}

abbrev session : List (Event ℤ)
session =
    Event.input
      (sample (Control.load_recipe request ∷ Control.set_plane (pos 1000, pos 0) none ∷ []))
    ∷ []

loader_of-Agrees_example :
    Holds (Agrees recipe_env IsAnchored plane) (run recipe_env session (init config))
loader_of-Agrees_example =
    loader_of-Agrees describe say files (codes "recipes" ∷ []) recipe_env config session

-- six points against a cap of four: every second is kept, and the last
decimate_one-IsPreview_example :
    IsPreview 4
      (pos 0, pos 0)
      (pos 5, pos 0)
      (decimate_one 4 (
        (pos 0, pos 0)
        ∷ (pos 1, pos 0)
        ∷ (pos 2, pos 0)
        ∷ (pos 3, pos 0)
        ∷ (pos 4, pos 0)
        ∷ (pos 5, pos 0)
        ∷ []))
decimate_one-IsPreview_example =
    decimate_one-IsPreview 4 (pos 0, pos 0)
      ((pos 1, pos 0) ∷ (pos 2, pos 0) ∷ (pos 3, pos 0) ∷ (pos 4, pos 0) ∷ (pos 5, pos 0) ∷ [])
      (omega arith)
