-- ===== src/Dispatcher/Latch.antt =====
-- The stop latch over runs of events: the calls that are motion, a dispatcher that is stopped.
pub mod Stopping
pub mod Recovery
use rmp_ros2_control.Prelude.{
  Bool, true, false, not, ◌&&◌, ◌||◌, ◌≡◌, refl, Option, none, some, List, [], ◌∷◌, Text, arith,
  if◌then◌else◌, ◌>>=◌, Bool-cases, inl, inr, Holds, Holds-bind, Holds-any, All,
}
use rmp_ros2_control.Float.{Float}
use rmp_ros2_control.Linalg.{Coordinate, map_canvas_to_plane, clamp_to_extent}
use rmp_ros2_control.FileManager.{PlaneConfig}
use rmp_ros2_control.Dispatcher.{
  SaveName, no_name, text_name, unusable_name, Mode, LiveSub, Cause, Control, InputEvent,
  RouteEvent, Call, Environment, Drawing, LoadRequest, Loaded, loaded, refused, load_raised,
  is_live, is_batch, push_display, init, follow, draw, draining, batch, executing, live,
}
use rmp_ros2_control.Dispatcher.{Dispatcher as State}
use rmp_ros2_control.Dispatcher.Startup.{Refusal}
use rmp_ros2_control.Dispatcher.Submission.{collect_runs, submitted_runs, save_runs, save}
use rmp_ros2_control.Dispatcher.Calibration.{set_plane, adopt_plane, refused_or}
use rmp_ros2_control.Dispatcher.Recipes.{load_recipe, warn_notes, hold}
use rmp_ros2_control.Dispatcher.Modes.{enter_stopped}
use rmp_ros2_control.Dispatcher.Controls.{handle_control, on_control}
use rmp_ros2_control.Dispatcher.Events.{
  live_sample, on_controls, on_input_event, on_route_event, lose_input, on_input_loss, Event, input,
  route, input_loss, client_connected, step, run,
}
use rmp_ros2_control.Dispatcher.Invariant.{Inv, is_follow}

-- The calls that move the arm, let it move, or clear the controller's latch on the way to Live.
abbrev pub is_motion : {F D : Type 0} → Call F D → Bool
is_motion (Call.live_set_intent p) = true
is_motion Call.live_release = true
is_motion Call.live_activate = true
is_motion (Call.stroke_begin p) = true
is_motion (Call.stroke_add p) = true
is_motion Call.stroke_end = true
is_motion Call.stroke_handback = true
is_motion (Call.batch_execute s) = true
is_motion (Call.batch_execute_doc doc) = true
is_motion (Call.batch_park joints v a) = true
is_motion c = false

abbrev pub motion_calls : {F D : Type 0} → List (Call F D) → List (Call F D)
motion_calls [] = []
motion_calls (c ∷ cs) = let rest = motion_calls cs in if is_motion c then c ∷ rest else rest

abbrev pub is_reset : {F : Type 0} → Control F → Bool
is_reset Control.reset = true
is_reset c = false

-- An event that carries no reset of the operator.
abbrev pub WithoutReset : {F : Type 0} → Event F → Type 0
WithoutReset (input event) = All (λ c. is_reset c ≡ false) event.controls
WithoutReset (route event) = Unit
WithoutReset input_loss = Unit
WithoutReset client_connected = Unit

module _ {F D : Type 0} where
  -- Stopped, with the motion calls `m` made so far and no stroke open.
  pub record Still (m : List (Call F D)) (d : State F D) : Type 0 where
    pub stopped : d.stopped ≡ true
    pub closed : is_follow d.live_sub ≡ true
    pub moved : motion_calls d.calls ≡ m

module _ {F D : Type 0} ⦃fl : Float F⦄ (env : Environment F D) (m : List (Call F D)) where
  pub push_display-Still : (d : State F D) → Still m d → Still m (push_display d)
  unfolding push_display
  push_display-Still d v = ground arith

  collect_runs-Still :
      (drawing : Drawing F) (runs : List (List (Coordinate F))) (d : State F D)
      → Still m d
      → Still m (collect_runs drawing runs d).0
  unfolding collect_runs
  collect_runs-Still [] runs d v = v
  collect_runs-Still (stroke ∷ rest) runs d v = collect_runs-Still rest _ _ (ground arith)

  submitted_runs-Still :
      (drawing : Drawing F) (d : State F D) → Still m d → Still m (submitted_runs drawing d).0
  unfolding submitted_runs
  submitted_runs-Still drawing d v = ground (arith, collect_runs-Still drawing [] d v)

  save_runs-Still :
      (name : SaveName) (runs : Option (List (List (Coordinate F)))) (d : State F D)
      → Still m d
      → Holds (Still m) (save_runs env name runs d)
  unfolding save_runs
  save_runs-Still name none d v = v
  save_runs-Still no_name (some runs) d v = ground arith
  save_runs-Still (text_name []) (some runs) d v = ground arith
  save_runs-Still (text_name (c ∷ part)) (some runs) d v = ground arith
  save_runs-Still unusable_name (some runs) d v = ground arith

  refused_or-Still :
      (r : Option Refusal) (plane : PlaneConfig F) (d : State F D)
      → Still m d
      → Still m (refused_or r d (adopt_plane env plane d))
  unfolding adopt_plane
  refused_or-Still none plane d v = ground arith
  refused_or-Still (some r) plane d v = ground arith

  set_plane-Still :
      (offset : Coordinate F) (yaw : Option F) (d : State F D)
      → Still m d
      → Still m (set_plane env offset yaw d)
  unfolding set_plane
  set_plane-Still offset yaw d v = elim (Bool-cases (is_batch d.mode)) [
    | inl e ↦ rw e (refused_or-Still _ _ d v)
    | inr e ↦ rw e (ground arith)
  ]

  warn_notes-Still : (notes : List Text) (d : State F D) → Still m d → Still m (warn_notes notes d)
  warn_notes-Still [] d v = v
  warn_notes-Still (note ∷ notes) d v = warn_notes-Still notes _ (ground arith)

  hold-Still : (o : Loaded F D) (d : State F D) → Still m d → Holds (Still m) (hold o d)
  hold-Still load_raised d v = tt
  hold-Still (refused message) d v = ground arith
  hold-Still (loaded recipe) d v = warn_notes-Still recipe.notes _ (ground arith)

  load_recipe-Still :
      (request : LoadRequest F) (d : State F D)
      → Still m d
      → Holds (Still m) (load_recipe env request d)
  unfolding load_recipe
  load_recipe-Still request d v = ground (arith, hold-Still (env.load request d.config) d v)

  pub enter_stopped-Still :
      (cause : Cause) (d : State F D) → Still m d → Still m (enter_stopped env cause d)
  unfolding enter_stopped
  enter_stopped-Still cause d v = ground arith

  handle_control-Still :
      (control : Control F) (d : State F D)
      → is_reset control ≡ false
      → Still m d
      → Holds (Still m) (handle_control env control d)
  unfolding handle_control
  handle_control-Still Control.stop d h v = enter_stopped-Still Cause.operator_stop d v
  handle_control-Still Control.reset d h v = cc
  handle_control-Still (Control.save drawing name) d h v =
      unfold save in
      save_runs-Still name (submitted_runs drawing d).1 _ (submitted_runs-Still drawing d v)
  handle_control-Still (Control.load_recipe request) d h v = load_recipe-Still request d v
  handle_control-Still (Control.set_plane offset yaw) d h v = set_plane-Still offset yaw d v
  handle_control-Still _ d h v = ground arith

  on_controls-Still :
      (controls : List (Control F)) (d : State F D)
      → All (λ c. is_reset c ≡ false) controls
      → Still m d
      → Holds (Still m) (on_controls env controls d)
  unfolding on_controls on_control
  on_controls-Still [] d h v = v
  on_controls-Still (control ∷ rest) d h v =
      Holds-bind (Still m) (Still m) (on_control env control d) _
        (Holds-bind (Still m) (Still m) (handle_control env control d) _
          (handle_control-Still control d h.0 v) push_display-Still)
        (λ d' v'. on_controls-Still rest d' h.1 v')

  live_sample-Still :
      (p : Coordinate F) (pen follows : Bool) (d : State F D)
      → Still m d
      → Holds (Still m) (live_sample env p pen follows d)
  unfolding live_sample
  live_sample-Still p pen follows d v = ground arith

  on_route_event-Still :
      (event : RouteEvent) (d : State F D) → Still m d → Still m (on_route_event env event d)
  unfolding on_route_event
  on_route_event-Still (RouteEvent.health ok message) d v =
      ground (arith, enter_stopped-Still (Cause.interface_lost message) d v)
  on_route_event-Still (RouteEvent.result ok message) d v = ground arith
  on_route_event-Still (RouteEvent.warning message) d v = ground arith
  on_route_event-Still (RouteEvent.chain_failed message) d v = ground arith
  on_route_event-Still RouteEvent.chain_drained d v = ground arith
  on_route_event-Still RouteEvent.other_event d v = ground arith

  lose_input-Still :
      (mode : Mode) (d : State F D) → Still m d → Holds (Still m) (lose_input env mode d)
  unfolding lose_input
  lose_input-Still batch d v = v
  lose_input-Still executing d v = enter_stopped-Still Cause.input_lost_executing d v
  lose_input-Still live d v = ground arith

  step-Still :
      (event : Event F) (d : State F D)
      → WithoutReset event
      → Still m d
      → Holds (Still m) (step env event d)
  unfolding step on_input_event on_input_loss
  step-Still (input event) d h v =
      let mapped = map_canvas_to_plane event.pointer event.surface d.config.extent in
      Holds-bind (λ _. Unit) (Still m) mapped _ (Holds-any mapped)
        λ at _.
          Holds-bind (Still m) (Still m) (on_controls env event.controls _) _
            (on_controls-Still event.controls _ h (ground arith))
            (live_sample-Still (clamp_to_extent at d.config.extent) event.pen event.follow)
  step-Still (route event) d h v = on_route_event-Still event d v
  step-Still input_loss d h v =
      Holds-bind (Still m) (Still m) (lose_input env d.mode d) _ (lose_input-Still d.mode d v)
        push_display-Still
  step-Still client_connected d h v = push_display-Still d v

  pub run-Still :
      (events : List (Event F)) (d : State F D)
      → All WithoutReset events
      → Still m d
      → Holds (Still m) (run env events d)
  unfolding run
  run-Still [] d h v = v
  run-Still (event ∷ rest) d h v =
      Holds-bind (Still m) (Still m) (step env event d) _ (step-Still event d h.0 v)
        (λ d' v'. run-Still rest d' h.1 v')
