-- ===== src/Dispatcher/Invariant.antt =====
-- The invariant of the dispatcher, handler by handler.
pub mod Always
pub mod Totality
use rmp_ros2_control.Prelude.{
  Bool, true, false, not, ◌&&◌, ◌||◌, ◌≡◌, refl, ◌∙◌, Option, none, some, List, [], ◌∷◌, Text,
  arith, if◌then◌else◌, ◌>>=◌, Bool-cases, inl, inr, Holds, Holds-bind,
}
use rmp_ros2_control.Float.{Float, ◌≤?◌}
use rmp_ros2_control.Linalg.{Coordinate}
use rmp_ros2_control.FileManager.{PlaneConfig}
use rmp_ros2_control.Dispatcher.{
  SaveName, no_name, text_name, unusable_name, DispatcherConfig, LiveSub, Cause, Control,
  InputEvent, RouteEvent, Environment, LoadRequest, Loaded, loaded, refused, load_raised,
  TargetMode, Drawing, is_live, is_executing, is_batch, push_display, init, follow, draw, draining,
  to_batch, to_live,
}
use rmp_ros2_control.Dispatcher.{Dispatcher as State}
use rmp_ros2_control.Dispatcher.Startup.{Refusal, disc_centre, reach_refusal, check_startup}
use rmp_ros2_control.Dispatcher.Submission.{
  collect_runs, submitted_runs, execute_runs, execute, save_runs, save,
}
use rmp_ros2_control.Dispatcher.Calibration.{set_plane, adopt_plane, moved_plane, refused_or, park}
use rmp_ros2_control.Dispatcher.Recipes.{load_recipe, execute_recipe, warn_notes, hold}
use rmp_ros2_control.Dispatcher.Modes.{switch_mode, reset, enter_stopped}
use rmp_ros2_control.Dispatcher.Controls.{handle_control, on_control}

abbrev pub is_follow : LiveSub → Bool
is_follow follow = true
is_follow draw = false
is_follow draining = false

module _ {F D : Type 0} ⦃fl : Float F⦄ (env : Environment F D) where
  pub record Inv (d : State F D) : Type 0 where
    -- strokes are open only in Live, never while stopped, and only with a stroke route
    pub strokes :
        is_follow d.live_sub || (is_live d.mode && (not d.stopped && env.has_stroke_route)) ≡ true
    -- the arm follows the pointer only in Live
    pub following : not d.live_following || is_live d.mode ≡ true
    -- the working disc is inside the reach band
    pub reach : reach_refusal d.config d.config.plane ≡ none
    -- the drawing depth is below the travel height
    pub depth : d.config.plane.safe_z ≤? d.config.plane.draw_z ≡ false

  pub push_display-Inv : (d : State F D) → Inv d → Inv (push_display d)
  unfolding push_display
  push_display-Inv d v = ground arith

  -- The submission changes nothing but the warnings.
  collect_runs-Inv :
      (drawing : Drawing F) (runs : List (List (Coordinate F))) (d : State F D)
      → Inv d
      → Inv (collect_runs drawing runs d).0
  unfolding collect_runs
  collect_runs-Inv [] runs d v = v
  collect_runs-Inv (stroke ∷ rest) runs d v = collect_runs-Inv rest _ _ (ground arith)

  pub submitted_runs-Inv :
      (drawing : Drawing F) (d : State F D) → Inv d → Inv (submitted_runs drawing d).0
  unfolding submitted_runs
  submitted_runs-Inv drawing d v = ground (arith, collect_runs-Inv drawing [] d v)

  execute_runs-Inv :
      (runs : Option (List (List (Coordinate F)))) (d : State F D)
      → Inv d
      → is_batch d.mode ≡ true
      → Holds Inv (execute_runs runs d)
  unfolding execute_runs
  execute_runs-Inv none d v b = v
  execute_runs-Inv (some []) d v b = ground arith
  execute_runs-Inv (some (r ∷ runs)) d v b = ground arith

  save_runs-Inv :
      (name : SaveName) (runs : Option (List (List (Coordinate F)))) (d : State F D)
      → Inv d
      → Holds Inv (save_runs env name runs d)
  unfolding save_runs
  save_runs-Inv name none d v = v
  save_runs-Inv no_name (some runs) d v = ground arith
  save_runs-Inv (text_name []) (some runs) d v = ground arith
  save_runs-Inv (text_name (c ∷ part)) (some runs) d v = ground arith
  save_runs-Inv unusable_name (some runs) d v = ground arith

  -- the submission leaves the mode and the plane
  mode-collect_runs :
      (drawing : Drawing F) (runs : List (List (Coordinate F))) (d : State F D)
      → (collect_runs drawing runs d).0.mode ≡ d.mode
  unfolding collect_runs
  mode-collect_runs [] runs d = refl
  mode-collect_runs (stroke ∷ rest) runs d = mode-collect_runs rest _ _ ∙ ground arith

  mode-submitted_runs :
      (drawing : Drawing F) (d : State F D) → (submitted_runs drawing d).0.mode ≡ d.mode
  unfolding submitted_runs
  mode-submitted_runs drawing d = ground (arith, mode-collect_runs drawing [] d)

  execute-Inv : (drawing : Drawing F) (d : State F D) → Inv d → Holds Inv (execute drawing d)
  unfolding execute
  execute-Inv drawing d v = elim (Bool-cases (is_batch d.mode)) [
    | inl e ↦ rw e (
        execute_runs-Inv (submitted_runs drawing d).1 (submitted_runs drawing d).0
          (submitted_runs-Inv drawing d v) (rw (mode-submitted_runs drawing d) e))
    | inr e ↦ rw e (ground arith)
  ]

  save-Inv :
      (drawing : Drawing F) (name : SaveName) (d : State F D)
      → Inv d
      → Holds Inv (save env drawing name d)
  unfolding save
  save-Inv drawing name d v =
      save_runs-Inv name (submitted_runs drawing d).1 _ (submitted_runs-Inv drawing d v)

  -- the refusal does not read the plane in force
  reach_refusal-plane :
      (config : DispatcherConfig F) (p q : PlaneConfig F)
      → reach_refusal (record config { plane = p }) q ≡ reach_refusal config q
  unfolding reach_refusal disc_centre
  reach_refusal-plane config p q = refl

  adopt_plane-Inv :
      (offset : Coordinate F) (yaw : Option F) (d : State F D)
      → Inv d
      → reach_refusal d.config (moved_plane offset yaw d.config.plane) ≡ none
      → Inv (adopt_plane env (moved_plane offset yaw d.config.plane) d)
  unfolding adopt_plane
  adopt_plane-Inv offset yaw d v h =
      let p = moved_plane offset yaw d.config.plane in
      ground (arith, reach_refusal-plane d.config p p)

  refused_or-Inv :
      (r : Option Refusal) (d d' : State F D)
      → Inv d
      → (r ≡ none → Inv d')
      → Inv (refused_or r d d')
  refused_or-Inv none d d' v k = k refl
  refused_or-Inv (some r) d d' v k = ground arith

  set_plane-Inv :
      (offset : Coordinate F) (yaw : Option F) (d : State F D)
      → Inv d
      → Inv (set_plane env offset yaw d)
  unfolding set_plane
  set_plane-Inv offset yaw d v = elim (Bool-cases (is_batch d.mode)) [
    | inl e ↦ rw e (refused_or-Inv _ d _ v (adopt_plane-Inv offset yaw d v))
    | inr e ↦ rw e (ground arith)
  ]

  park-Inv : (d : State F D) → Inv d → Inv (park d)
  unfolding park
  park-Inv d v = ground arith

  warn_notes-Inv : (notes : List Text) (d : State F D) → Inv d → Inv (warn_notes notes d)
  warn_notes-Inv [] d v = v
  warn_notes-Inv (note ∷ notes) d v = warn_notes-Inv notes _ (ground arith)

  hold-Inv : (o : Loaded F D) (d : State F D) → Inv d → Holds Inv (hold o d)
  hold-Inv load_raised d v = tt
  hold-Inv (refused message) d v = ground arith
  hold-Inv (loaded recipe) d v = warn_notes-Inv recipe.notes _ (ground arith)

  load_recipe-Inv :
      (request : LoadRequest F) (d : State F D) → Inv d → Holds Inv (load_recipe env request d)
  unfolding load_recipe
  load_recipe-Inv request d v = ground (arith, hold-Inv (env.load request d.config) d v)

  execute_recipe-Inv : (d : State F D) → Inv d → Inv (execute_recipe d)
  unfolding execute_recipe
  execute_recipe-Inv d v = ground arith

  switch_mode-Inv : (target : TargetMode) (d : State F D) → Inv d → Inv (switch_mode env target d)
  unfolding switch_mode
  switch_mode-Inv to_live d v = ground arith
  switch_mode-Inv to_batch d v = ground arith

  reset-Inv : (d : State F D) → Inv d → Inv (reset env d)
  unfolding reset
  reset-Inv d v = ground arith

  pub enter_stopped-Inv : (cause : Cause) (d : State F D) → Inv d → Inv (enter_stopped env cause d)
  unfolding enter_stopped
  enter_stopped-Inv cause d v = ground arith

  pub handle_control-Inv :
      (control : Control F) (d : State F D) → Inv d → Holds Inv (handle_control env control d)
  unfolding handle_control
  handle_control-Inv Control.stop d v = enter_stopped-Inv Cause.operator_stop d v
  handle_control-Inv Control.reset d v = reset-Inv d v
  handle_control-Inv Control.clear_recipe d v = ground arith
  handle_control-Inv Control.execute_recipe d v = ground (arith, execute_recipe-Inv d v)
  handle_control-Inv Control.park d v = ground (arith, park-Inv d v)
  handle_control-Inv Control.unknown d v = ground arith
  handle_control-Inv (Control.save drawing name) d v = save-Inv drawing name d v
  handle_control-Inv (Control.load_recipe request) d v = load_recipe-Inv request d v
  handle_control-Inv (Control.set_plane offset yaw) d v = set_plane-Inv offset yaw d v
  handle_control-Inv (Control.execute drawing) d v = ground (arith, execute-Inv drawing d v)
  handle_control-Inv (Control.mode target) d v = ground (arith, switch_mode-Inv target d v)
