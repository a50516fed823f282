-- ===== src/Dispatcher/Latch/Recovery.antt =====
-- A stop of the operator and the reset that lifts it.
use rmp_ros2_control.Prelude.{Bool, true, false, ◌≡◌, List, [], ◌∷◌, ◌++◌, arith, ◌>>=◌, Holds}
use rmp_ros2_control.Float.{Float}
use rmp_ros2_control.Dispatcher.{
  Mode, Cause, Control, Call, Environment, push_display, batch, executing, live,
}
use rmp_ros2_control.Dispatcher.{Dispatcher as State}
use rmp_ros2_control.Dispatcher.Modes.{enter_stopped, reset, reset_route}
use rmp_ros2_control.Dispatcher.Controls.{handle_control, on_control}

-- the calls to the routes: everything but the displays
abbrev pub route_calls : {F D : Type 0} → List (Call F D) → List (Call F D)
route_calls [] = []
route_calls (Call.display shown ∷ cs) = route_calls cs
route_calls (c ∷ cs) = c ∷ route_calls cs

-- what a stop and a reset tell the routes, newest first: with the mode, and whether there is a stroke
-- route
abbrev pub recovery : {F D : Type 0} → Mode → Bool → List (Call F D)
recovery batch strokes = Call.batch_reset ∷ Call.batch_stop ∷ []
recovery executing strokes = Call.batch_reset ∷ Call.batch_stop ∷ []
recovery live true = Call.stroke_reset ∷ Call.stroke_stop ∷ Call.live_stop ∷ []
recovery live false = Call.live_reset ∷ Call.live_stop ∷ []

-- an execution that is stopped is abandoned
abbrev pub mode_after : Mode → Mode
mode_after batch = batch
mode_after executing = batch
mode_after live = live

module _ {F D : Type 0} ⦃fl : Float F⦄ (env : Environment F D) where
  -- After the operator's stop in a dispatcher that was not stopped, and a reset for which the routes
  -- clear the latch of the controller: the dispatcher runs again, Live stays Live and every other mode
  -- is Batch, and the routes were told just this, in order: in Batch or in an execution, the batch
  -- route to stop and to reset; in Live, the live route and then the stroke route to stop, and the
  -- stroke route to reset; in Live without a stroke route, the live route to stop and to reset.
  pub stop_then_reset :
      (mode : Mode) (strokes : Bool) (d : State F D)
      → d.mode ≡ mode
      → env.has_stroke_route ≡ strokes
      → d.stopped ≡ false
      → ((calls : List (Call F D)) (c : Call F D) → env.answer calls c ≡ true)
      → Holds
          (λ e.
            (e.stopped ≡ false)
            × (e.mode ≡ mode_after mode)
            × (route_calls e.calls ≡ recovery mode strokes ++ route_calls d.calls))
          (on_control env Control.stop d >>= on_control env Control.reset)
  unfolding on_control handle_control enter_stopped reset push_display
  stop_then_reset batch strokes d m r h answers =
      let stopped : State F D = push_display (enter_stopped env Cause.operator_stop d) in
      ground (arith, answers stopped.calls (reset_route env stopped.mode))
  stop_then_reset executing strokes d m r h answers =
      let stopped : State F D = push_display (enter_stopped env Cause.operator_stop d) in
      ground (arith, answers stopped.calls (reset_route env stopped.mode))
  stop_then_reset live true d m r h answers =
      let stopped : State F D = push_display (enter_stopped env Cause.operator_stop d) in
      ground (arith, answers stopped.calls (reset_route env stopped.mode))
  stop_then_reset live false d m r h answers =
      let stopped : State F D = push_display (enter_stopped env Cause.operator_stop d) in
      ground (arith, answers stopped.calls (reset_route env stopped.mode))
