-- ===== src/Tests.antt =====
-- A concrete robot cell for the tests: the configuration, an environment whose components answer
-- yes, and drawings, in millionths of a metre. The modules below apply the theorems to it.
pub mod Dispatching
pub mod Client
pub mod Drawings
pub mod Live
pub mod Strokes
pub mod Recipes
pub mod Batches
pub mod Streaming
use rmp_ros2_control.Prelude.{Bool, true, false, ◌≡◌, refl, none, some, List, [], ◌∷◌, Text, codes}
use rmp_ros2_control.Prelude.Int.{ℤ, pos, negsuc}
use rmp_ros2_control.Float.Fixed.{
  fixed, fixed_add, fixed_sub, fixed_mul, fixed_div, fixed_dist, fixed_lit,
}
use rmp_ros2_control.Linalg.{
  Coordinate, rotate_in_plane, in_working_area, extent_fits_working_area, disc_fits_reach_band,
}
use rmp_ros2_control.FileManager.{PlaneConfig, effective_anchor}
use rmp_ros2_control.Dispatcher.{
  DispatcherConfig, Dispatcher, Environment, InputEvent, Control, loaded, init, live, draw,
}
use rmp_ros2_control.Dispatcher.Startup.{disc_centre, reach_refusal, check_startup}

abbrev pub plane : PlaneConfig ℤ
plane = record {
  anchor_xyz = (pos 350_000, pos 0, pos 200_000);
  anchor_rpy = (pos 0, pos 0, pos 0);
  ready_joints = pos 0 ∷ pos 500_000 ∷ [];
  draw_z = negsuc 4999;
  safe_z = pos 20_000;
  velocity = pos 50_000;
  acceleration = pos 100_000;
  eef_step = pos 1000;
  retract_z = pos 80_000;
  plane_offset = (pos 0, pos 0);
  plane_yaw_deg = pos 0;
}

abbrev pub config : DispatcherConfig ℤ
config = record {
  extent = record {
    x_min = negsuc 99_999;
    y_min = negsuc 99_999;
    x_max = pos 100_000;
    y_max = pos 100_000;
  };
  working_centre = (pos 0, pos 0);
  working_radius = pos 150_000;
  duplicate_threshold = pos 500;
  resample_spacing = pos 2000;
  min_run = 2;
  plane = plane;
  recipe_directory = codes "recipes";
  fine_grid = pos 10_000;
  coarse_grid = pos 50_000;
  max_samples = 5000;
  live_queue_limit = 400;
  reach_inner = pos 150_000;
  reach_outer = pos 700_000;
}

-- the document of a recipe is the offset of the plane that it is anchored at
abbrev pub env : Environment ℤ (Coordinate ℤ)
env = record {
  has_stroke_route = true;
  has_recipe_loader = true;
  answer = λ cs c. true;
  stroke_active = λ cs. false;
  load = λ request at. loaded (record {
    name = request.name;
    doc = at.plane.plane_offset;
    polylines = [];
    scale = pos 1_000_000;
    notes = [];
  });
}

abbrev pub idle : Dispatcher ℤ (Coordinate ℤ)
idle = init config

-- a stroke is being drawn in Live
abbrev pub drawing_live : Dispatcher ℤ (Coordinate ℤ)
drawing_live = record idle { mode = live; live_sub = draw; live_following = true }

abbrev pub square : List (List (Coordinate ℤ))
square =
    ((pos 0, pos 0) ∷ (pos 50_000, pos 0) ∷ (pos 50_000, pos 50_000) ∷ (pos 0, pos 50_000) ∷ [])
    ∷ []

abbrev pub sample : List (Control ℤ) → InputEvent ℤ
sample controls = record {
  pointer = (pos 200_000_000, pos 100_000_000);
  surface = (pos 800_000_000, pos 600_000_000);
  pen = true;
  follow = true;
  controls = controls;
}

pub starts : check_startup config ≡ none
unfolding check_startup extent_fits_working_area in_working_area fixed_lit fixed_dist fixed_sub
    reach_refusal disc_centre effective_anchor rotate_in_plane disc_fits_reach_band fixed_add
    fixed_mul fixed_div
starts = refl

pub within_reach : reach_refusal config plane ≡ none
unfolding extent_fits_working_area in_working_area fixed_lit fixed_dist fixed_sub reach_refusal
    disc_centre effective_anchor rotate_in_plane disc_fits_reach_band fixed_add fixed_mul fixed_div
within_reach = refl
