-- ===== src/Dispatcher/Events.antt =====
-- dispatcher.py: the input samples, the events of the routes, the loss of the input, and runs of
-- them. `none` is an exception that nothing catches.
use rmp_ros2_control.Prelude.{
  Bool, true, false, not, ◌&&◌, ◌||◌, Option, none, some, List, [], ◌∷◌, Text, if◌then◌else◌, ◌>>=◌,
}
use rmp_ros2_control.Float.{Float}
use rmp_ros2_control.Linalg.{
  Coordinate, map_canvas_to_plane, clamp_to_extent, clamp_to_working_area,
}
use rmp_ros2_control.Dispatcher.{
  Mode, LiveSub, Cause, Warning, Control, InputEvent, RouteEvent, Call, Environment, call, warn,
  push_display, is_executing, is_live, batch, executing, live, follow, draw, draining,
}
use rmp_ros2_control.Dispatcher.{Dispatcher as State}
use rmp_ros2_control.Dispatcher.Modes.{enter_stopped}
use rmp_ros2_control.Dispatcher.Controls.{on_control}

module _ {F D : Type 0} where
  -- without a stroke route the calls of `_finish_strokes` raise an AttributeError
  unfoldable pub finish_strokes : Environment F D → State F D → Option (State F D)
  finish_strokes env d =
      if env.has_stroke_route
      then some
          (record (call Call.stroke_handback (call Call.stroke_end d)) { live_sub = draining })
      else none

  -- _route_pen_down, where there is a stroke route
  pen_down : Coordinate F → LiveSub → State F D → State F D
  pen_down p draw d = call (Call.stroke_add p) d
  pen_down p follow d = record (call (Call.stroke_begin p) (call Call.live_rest d)) {
    live_sub = draw;
  }
  pen_down p draining d = record (call (Call.stroke_begin p) d) { live_sub = draw }

  unfoldable pub route_pen_down : Coordinate F → State F D → State F D
  unfolding pen_down
  route_pen_down p d = pen_down p d.live_sub d

  pen_up : Environment F D → Coordinate F → LiveSub → State F D → Option (State F D)
  unfolding finish_strokes
  pen_up env p follow d = some (call (Call.live_set_intent (p.0, p.1, d.config.plane.safe_z)) d)
  pen_up env p draw d = finish_strokes env d
  pen_up env p draining d = some d

  unfoldable pub route_pen_up : Environment F D → Coordinate F → State F D → Option (State F D)
  unfolding pen_up
  route_pen_up env p d = pen_up env p d.live_sub d

  -- the follow control is let go: the route that holds the motion finishes it
  disengage : Environment F D → LiveSub → State F D → Option (State F D)
  unfolding finish_strokes
  disengage env follow d = some (call Call.live_release d)
  disengage env draw d = finish_strokes env d
  disengage env draining d = finish_strokes env d

module _ {F D : Type 0} ⦃fl : Float F⦄ where
  -- a sample at `p` while the follow control is held
  unfoldable pub follow_sample :
      Environment F D → Coordinate F → Bool → State F D → Option (State F D)
  unfolding route_pen_down route_pen_up
  follow_sample env p pen d =
      let at = clamp_to_working_area p d.config.working_centre d.config.working_radius in
      let following = record d { live_following = true } in
      let depth = if pen then d.config.plane.draw_z else d.config.plane.safe_z in
      if not env.has_stroke_route
      then some (call (Call.live_set_intent (at.0, at.1, depth)) following)
      else if pen
      then some (route_pen_down at following)
      else route_pen_up env at following

  -- what a sample does to the motion, after its controls
  unfoldable pub live_sample :
      Environment F D → Coordinate F → Bool → Bool → State F D → Option (State F D)
  unfolding disengage
  live_sample env p pen follows d =
      if d.stopped || not (is_live d.mode)
      then some d
      else if follows
      then follow_sample env p pen d
      else if d.live_following
      then disengage env d.live_sub (record d { live_following = false })
      else some d

  unfoldable pub on_controls : Environment F D → List (Control F) → State F D → Option (State F D)
  on_controls env [] d = some d
  on_controls env (control ∷ rest) d = do d' ← on_control env control d; on_controls env rest d'

  unfoldable pub on_input_event : Environment F D → InputEvent F → State F D → Option (State F D)
  on_input_event env event d = do
    mapped ← map_canvas_to_plane event.pointer event.surface d.config.extent
    let p = clamp_to_extent mapped d.config.extent
    d' ← on_controls env event.controls (record d { echo = some p })
    live_sample env p event.pen event.follow d'

abbrev is_draining : LiveSub → Bool
is_draining draining = true
is_draining follow = false
is_draining draw = false

abbrev is_drawing : LiveSub → Bool
is_drawing draw = true
is_drawing follow = false
is_drawing draining = false

module _ {F D : Type 0} where
  on_drained : Environment F D → State F D → State F D
  on_drained env d =
      let drained = record d { live_sub = follow } in
      let activated = call Call.live_activate drained in
      if d.stopped || not d.live_following
      then drained
      else if env.answer d.calls Call.live_activate
      then activated
      else warn Warning.follow_unavailable activated

  abbrev warn_failure : Bool → Text → State F D → State F D
  warn_failure ok message d = if ok then d else warn (Warning.execution_failed message) d

  unfoldable pub route_event : Environment F D → RouteEvent → State F D → State F D
  unfolding on_drained enter_stopped
  route_event env (RouteEvent.result ok message) d =
      warn_failure ok message (if is_executing d.mode then record d { mode = batch } else d)
  route_event env (RouteEvent.warning message) d = warn (Warning.route_warning message) d
  route_event env (RouteEvent.health ok message) d =
      if ok then d else enter_stopped env (Cause.interface_lost message) d
  route_event env (RouteEvent.chain_failed message) d =
      warn (Warning.chain_failed_because message) d
  route_event env RouteEvent.chain_drained d =
      if is_live d.mode && is_draining d.live_sub then on_drained env d else d
  route_event env RouteEvent.other_event d = d

  unfoldable pub on_route_event : Environment F D → RouteEvent → State F D → State F D
  unfolding route_event
  on_route_event env event d = push_display (route_event env event d)

  -- the strokes that were drawn finish; then the live route falls silent
  rest_live : State F D → State F D
  rest_live d = record (call Call.live_rest d) { live_following = false }

  unfoldable pub lose_input : Environment F D → Mode → State F D → Option (State F D)
  unfolding rest_live finish_strokes enter_stopped
  lose_input env batch d = some d
  lose_input env executing d = some (enter_stopped env Cause.input_lost_executing d)
  lose_input env live d =
      if env.has_stroke_route && is_drawing d.live_sub
      then (finish_strokes env d >>= λ d'. some (rest_live d'))
      else some (rest_live d)

  unfoldable pub on_input_loss : Environment F D → State F D → Option (State F D)
  unfolding lose_input
  on_input_loss env d = do d' ← lose_input env d.mode d; some (push_display d')

-- What reaches the dispatcher on the coordination thread.
pub data Event (F : Type 0) : Type 0 where
  input : InputEvent F → Event F
  route : RouteEvent → Event F
  input_loss client_connected : Event F

module _ {F D : Type 0} ⦃fl : Float F⦄ where
  unfoldable pub step : Environment F D → Event F → State F D → Option (State F D)
  step env (input event) d = on_input_event env event d
  step env (route event) d = some (on_route_event env event d)
  step env input_loss d = on_input_loss env d
  step env client_connected d = some (push_display d)

  unfoldable pub run : Environment F D → List (Event F) → State F D → Option (State F D)
  run env [] d = some d
  run env (event ∷ rest) d = do d' ← step env event d; run env rest d'
