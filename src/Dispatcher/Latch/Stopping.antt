-- ===== src/Dispatcher/Latch/Stopping.antt =====
-- What stops the dispatcher.
use rmp_ros2_control.Prelude.{
  true, false, ◌≡◌, List, ◌∷◌, Text, arith, ◌>>=◌, subst, sym, some, Holds, Holds-bind, Holds-mono,
  All,
}
use rmp_ros2_control.Float.{Float}
use rmp_ros2_control.Dispatcher.{Cause, Control, RouteEvent, Environment, push_display, executing}
use rmp_ros2_control.Dispatcher.{Dispatcher as State}
use rmp_ros2_control.Dispatcher.Modes.{enter_stopped}
use rmp_ros2_control.Dispatcher.Controls.{handle_control, on_control}
use rmp_ros2_control.Dispatcher.Events.{
  on_route_event, lose_input, on_input_loss, Event, route, input_loss, step, run,
}
use rmp_ros2_control.Dispatcher.Invariant.{Inv}
use rmp_ros2_control.Dispatcher.Latch.{
  Still, motion_calls, WithoutReset, run-Still, push_display-Still,
}

module _ {F D : Type 0} ⦃fl : Float F⦄ (env : Environment F D) (d : State F D) where
  stop-Still :
      (cause : Cause) → Inv env d → Still (motion_calls d.calls) (enter_stopped env cause d)
  unfolding enter_stopped
  stop-Still cause v = ground arith

  stop_control-Still :
      Inv env d → Holds (Still (motion_calls d.calls)) (on_control env Control.stop d)
  unfolding on_control handle_control
  stop_control-Still v =
      push_display-Still env (motion_calls d.calls) _ (stop-Still Cause.operator_stop v)

  -- where a stop has left the dispatcher, the events that follow move nothing
  latched :
      (events : List (Event F)) (d' : State F D)
      → All WithoutReset events
      → Still (motion_calls d.calls) d'
      → Holds
          (λ e. (e.stopped ≡ true) × (motion_calls e.calls ≡ motion_calls d.calls))
          (run env events d')
  latched events d' h v =
      let m = motion_calls d.calls in
      Holds-mono (Still m) _ (run env events d') (run-Still env m events d' h v)
        (λ e w. (w.stopped, w.moved))

  -- In every state of the invariant: after the operator's stop, whatever arrives as long as it
  -- brings no reset and no exception ends the thread, the dispatcher is stopped and has commanded
  -- no motion since.
  pub stop_control_latches :
      (events : List (Event F))
      → Inv env d
      → All WithoutReset events
      → Holds
          (λ d'. (d'.stopped ≡ true) × (motion_calls d'.calls ≡ motion_calls d.calls))
          (on_control env Control.stop d >>= run env events)
  stop_control_latches events v h =
      Holds-bind (Still (motion_calls d.calls)) _ (on_control env Control.stop d) _
        (stop_control-Still v) (λ d' w. latched events d' h w)

  -- In every state of the invariant: after a route reports that its interface is lost, whatever
  -- arrives as long as it brings no reset and no exception ends the thread, the dispatcher is
  -- stopped and has commanded no motion since.
  pub interface_loss_latches :
      (events : List (Event F)) (message : Text)
      → Inv env d
      → All WithoutReset events
      → Holds
          (λ d'. (d'.stopped ≡ true) × (motion_calls d'.calls ≡ motion_calls d.calls))
          (run env (route (RouteEvent.health false message) ∷ events) d)
  unfolding run step on_route_event
  interface_loss_latches events message v h = latched events _ h (
      push_display-Still env (motion_calls d.calls) _ (stop-Still (Cause.interface_lost message) v))

  -- In a state of the invariant where a drawing executes: after the client falls silent, whatever
  -- arrives as long as it brings no reset and no exception ends the thread, the dispatcher is
  -- stopped and has commanded no motion since.
  pub input_loss_latches :
      (events : List (Event F))
      → d.mode ≡ executing
      → Inv env d
      → All WithoutReset events
      → Holds
          (λ d'. (d'.stopped ≡ true) × (motion_calls d'.calls ≡ motion_calls d.calls))
          (run env (input_loss ∷ events) d)
  unfolding run step on_input_loss lose_input
  input_loss_latches events e v h =
      subst
        (λ m.
          Holds (λ d'. (d'.stopped ≡ true) × (motion_calls d'.calls ≡ motion_calls d.calls))
            ((lose_input env m d >>= λ d'. some (push_display d')) >>= run env events))
        (sym e)
        (latched events _ h (
          push_display-Still env (motion_calls d.calls) _
            (stop-Still Cause.input_lost_executing v)))
