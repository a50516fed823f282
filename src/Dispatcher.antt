-- ===== src/Dispatcher.antt =====
-- dispatcher.py: the configuration, the state of the bridge's mode machine, the messages it
-- receives and the calls it makes. The routes, the display, the log of the calls to them and the
-- answers that come back are explicit: `calls` holds every call, newest first, and an environment
-- answers those that return something. The handlers are in the modules below.
pub mod Startup
pub mod Submission
pub mod Calibration
pub mod Recipes
pub mod Modes
pub mod Controls
pub mod Events
pub mod Induction
pub mod Invariant
pub mod Agreement
pub mod Latch
use mathlib.Core.List.{reverse}
use rmp_ros2_control.Prelude.{ℕ, Bool, true, false, Option, none, some, List, [], ◌∷◌, Text, take}
use rmp_ros2_control.Float.{Float}
use rmp_ros2_control.Linalg.{Coordinate, Command, Extent}
use rmp_ros2_control.FileManager.{PlaneConfig, Structure}

pub record DispatcherConfig (F : Type 0) : Type 0 where
  pub extent : Extent F
  pub working_centre : Coordinate F
  pub working_radius : F
  pub duplicate_threshold : F
  pub resample_spacing : F
  pub min_run : ℕ
  pub plane : PlaneConfig F
  pub recipe_directory : Text
  pub fine_grid : F
  pub coarse_grid : F
  pub max_samples : ℕ
  pub live_queue_limit : ℕ
  pub reach_inner : F
  pub reach_outer : F

pub data Mode : Type 0 where
  batch executing live : Mode

-- The sub-states of Live.
pub data LiveSub : Type 0 where
  follow draw draining : LiveSub

-- A loaded recipe; its executable document is of the type `D`.
pub record LoadedRecipe (F D : Type 0) : Type 0 where
  pub name : Text
  pub doc : D
  pub polylines : List (List (Coordinate F))
  pub scale : F
  pub notes : List Text

pub data Action : Type 0 where
  stop reset save load_recipe clear_recipe set_plane execute execute_recipe park mode other : Action

-- Why the dispatcher is stopped.
pub data Cause : Type 0 where
  no_cause operator_stop input_lost_executing : Cause
  interface_lost : Text → Cause

-- The operator's warnings, one constructor for each message.
pub data Warning : Type 0 where
  ignored_while_stopped : Action → Cause → Warning
  too_many_samples : ℕ → ℕ → Warning
  points_excluded : ℕ → Warning
  batch_only : Action → Warning
  nothing_to_execute plane_refused loading_unavailable no_recipe_loaded save_failed : Warning
  mode_locked_executing mode_locked_strokes live_unavailable nothing_to_reset reset_failed : Warning
  follow_unavailable : Warning
  load_failed note_of_recipe execution_failed route_warning chain_failed_because : Text → Warning

-- A stroke of a submitted drawing; the dispatcher reads its points alone.
abbrev pub Drawing : Type 0 → Type 0
Drawing F = List (List (Coordinate F))

pub data TargetMode : Type 0 where
  to_batch to_live : TargetMode

pub record LoadRequest (F : Type 0) : Type 0 where
  pub name : Text
  pub scale : Option F
  pub fit : Bool

-- The `name` of a save: missing, or another value that is false; a text; a value that `save_recipe`
-- raises a TypeError for.
pub data SaveName : Type 0 where
  no_name unusable_name : SaveName
  text_name : Text → SaveName

pub data Control (F : Type 0) : Type 0 where
  stop reset clear_recipe execute_recipe park unknown : Control F
  save : Drawing F → SaveName → Control F
  load_recipe : LoadRequest F → Control F
  set_plane : Coordinate F → Option F → Control F
  execute : Drawing F → Control F
  mode : TargetMode → Control F

pub record InputEvent (F : Type 0) : Type 0 where
  pub pointer : Coordinate F
  pub surface : Coordinate F
  pub pen : Bool
  pub follow : Bool
  pub controls : List (Control F)

-- The events of the routes.
pub data RouteEvent : Type 0 where
  result health : Bool → Text → RouteEvent
  warning chain_failed : Text → RouteEvent
  chain_drained other_event : RouteEvent

-- display_state
pub record Display (F D : Type 0) : Type 0 where
  pub mode : Mode
  pub stopped : Bool
  pub cause : Cause
  pub echo : Option (Coordinate F)
  pub executing : Bool
  pub warnings : List Warning
  pub preview : Option (LoadedRecipe F D)
  pub config : DispatcherConfig F

-- The calls that leave the dispatcher.
pub data Call (F D : Type 0) : Type 0 where
  live_set_intent : Command F → Call F D
  live_release live_rest live_stop live_activate live_reset : Call F D
  live_set_plane stroke_set_plane plane_changed : PlaneConfig F → Call F D
  stroke_begin stroke_add : Coordinate F → Call F D
  stroke_end stroke_handback stroke_stop stroke_reset : Call F D
  batch_execute : Structure F → Call F D
  batch_execute_doc : D → Call F D
  batch_park : List F → F → F → Call F D
  batch_stop batch_reset : Call F D
  save_file : Structure F → Text → Call F D
  display : Display F D → Call F D

pub record Dispatcher (F D : Type 0) : Type 0 where
  pub config : DispatcherConfig F
  pub mode : Mode
  pub stopped : Bool
  pub live_following : Bool
  pub live_sub : LiveSub
  pub cause : Cause
  -- newest first
  pub warnings : List Warning
  pub echo : Option (Coordinate F)
  pub loaded_recipe : Option (LoadedRecipe F D)
  pub calls : List (Call F D)

pub data Loaded (F D : Type 0) : Type 0 where
  loaded : LoadedRecipe F D → Loaded F D
  refused : Text → Loaded F D
  -- an exception other than RecipeLoadError
  load_raised : Loaded F D

-- What the injected components are and answer, given the calls made before.
pub record Environment (F D : Type 0) : Type 0 where
  pub has_stroke_route : Bool
  pub has_recipe_loader : Bool
  -- `activate()` and `reset()` of the routes, and whether the file of a save could be written
  pub answer : List (Call F D) → Call F D → Bool
  -- `stroke_route.active`
  pub stroke_active : List (Call F D) → Bool
  -- `RecipeLoader.load`
  pub load : LoadRequest F → DispatcherConfig F → Loaded F D

abbrev pub is_executing : Mode → Bool
is_executing executing = true
is_executing batch = false
is_executing live = false

abbrev pub is_batch : Mode → Bool
is_batch batch = true
is_batch executing = false
is_batch live = false

abbrev pub is_live : Mode → Bool
is_live live = true
is_live batch = false
is_live executing = false

module _ {F D : Type 0} where
  abbrev pub call : Call F D → Dispatcher F D → Dispatcher F D
  call c d = record d { calls = c ∷ d.calls }

  abbrev pub warn : Warning → Dispatcher F D → Dispatcher F D
  warn w d = record d { warnings = w ∷ d.warnings }

  unfoldable pub display_state : Dispatcher F D → Display F D
  display_state d = record {
    mode = d.mode;
    stopped = d.stopped;
    cause = d.cause;
    echo = d.echo;
    executing = is_executing d.mode;
    warnings = reverse (take 5 d.warnings);
    preview = d.loaded_recipe;
    config = d.config;
  }

  unfoldable pub push_display : Dispatcher F D → Dispatcher F D
  push_display d = call (display (display_state d)) d

  -- Dispatcher.__init__
  unfoldable pub init : DispatcherConfig F → Dispatcher F D
  init config = record {
    config = config;
    mode = batch;
    stopped = false;
    live_following = false;
    live_sub = follow;
    cause = no_cause;
    warnings = [];
    echo = none;
    loaded_recipe = none;
    calls = [];
  }
