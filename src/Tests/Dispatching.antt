-- ===== src/Tests/Dispatching.antt =====
-- The theorems on the dispatcher, at the cell of the tests.
use rmp_ros2_control.Prelude.{
  true, false, ◌≡◌, refl, none, some, List, [], ◌∷◌, codes, Holds, Returned, All, ◌>>=◌,
}
use rmp_ros2_control.Prelude.Int.{ℤ, pos}
use rmp_ros2_control.Float.Fixed.{fixed, fixed_lit}
use rmp_ros2_control.Linalg.{Coordinate}
use rmp_ros2_control.FileManager.{PlaneConfig}
use rmp_ros2_control.Dispatcher.{text_name, Control, RouteEvent, Call, batch, executing, init}
use rmp_ros2_control.Dispatcher.Submission.{submitted_runs, execute}
use rmp_ros2_control.Dispatcher.Submission.Inside.{
  ExecutesInside, Submits, execute-Inside, submitted_runs-Submits,
}
use rmp_ros2_control.Dispatcher.Controls.{on_control}
use rmp_ros2_control.Dispatcher.Events.{Event, input, route, input_loss, client_connected, run}
use rmp_ros2_control.Dispatcher.Invariant.{Inv}
use rmp_ros2_control.Dispatcher.Invariant.Always.{init-Inv}
use rmp_ros2_control.Dispatcher.Invariant.Totality.{run-Returned}
use rmp_ros2_control.Dispatcher.Latch.{WithoutReset, motion_calls}
use rmp_ros2_control.Dispatcher.Latch.Stopping.{
  stop_control_latches, interface_loss_latches, input_loss_latches,
}
use rmp_ros2_control.Dispatcher.Latch.Recovery.{route_calls, stop_then_reset}
use rmp_ros2_control.Dispatcher.Agreement.{Agrees, LoaderAnchors}
use rmp_ros2_control.Dispatcher.Agreement.Always.{init-Agrees}
use rmp_ros2_control.Bridge.{
  Act, new_bridge, bridge_run, coordinate, connects, receives, coordinates, reports, disconnects,
}
use rmp_ros2_control.Bridge.Order.{inputs_of, routes_of}
use rmp_ros2_control.Bridge.Delivery.{round-Delivers}
use rmp_ros2_control.Tests.{
  config, plane, env, idle, drawing_live, square, sample, starts, within_reach,
}

-- a session: a sample, a submission, a calibration, an execution, the end of it, a switch to Live
abbrev session : List (Event ℤ)
session =
    client_connected
    ∷ input (
        sample (
          Control.execute square
          ∷ Control.load_recipe (record { name = codes "square"; scale = none; fit = true })
          ∷ Control.set_plane (pos 10_000, pos 0) none
          ∷ Control.save square (text_name (codes "plan"))
          ∷ Control.unknown
          ∷ []))
    ∷ route (RouteEvent.result true (codes ""))
    ∷ input_loss
    ∷ []

drawing_live-Inv : Inv env drawing_live
unfolding fixed_lit init
drawing_live-Inv = record { strokes = refl; following = refl; reach = within_reach; depth = refl }

executing-Inv : Inv env (record idle { mode = executing })
unfolding fixed_lit init
executing-Inv = record { strokes = refl; following = refl; reach = within_reach; depth = refl }

init-Inv_example : Holds (Inv env) (run env session (init config))
init-Inv_example = init-Inv env config session starts

run-Returned_example : Returned (run env session drawing_live)
unfolding fixed_lit
run-Returned_example =
    run-Returned env session drawing_live drawing_live-Inv
      (tt, (((refl, refl), (tt, ((λ config. refl), (tt, (refl, (tt, tt)))))), (tt, (tt, tt))))

without_reset : All WithoutReset session
without_reset = (tt, ((refl, (refl, (refl, (refl, (refl, tt))))), (tt, (tt, tt))))

stop_control_latches_example :
    Holds
      (λ d. (d.stopped ≡ true) × (motion_calls d.calls ≡ motion_calls drawing_live.calls))
      (on_control env Control.stop drawing_live >>= run env session)
stop_control_latches_example =
    stop_control_latches env drawing_live session drawing_live-Inv without_reset

interface_loss_latches_example :
    Holds
      (λ d. (d.stopped ≡ true) × (motion_calls d.calls ≡ motion_calls drawing_live.calls))
      (run env (route (RouteEvent.health false (codes "gone")) ∷ session) drawing_live)
interface_loss_latches_example =
    interface_loss_latches env drawing_live session (codes "gone") drawing_live-Inv without_reset

input_loss_latches_example :
    Holds
      (λ d. (d.stopped ≡ true) × (motion_calls d.calls ≡ motion_calls idle.calls))
      (run env (input_loss ∷ session) (record idle { mode = executing }))
input_loss_latches_example =
    input_loss_latches env (record idle { mode = executing }) session refl executing-Inv
      without_reset

-- a drawing executes, and the arm is stopped and reset
stop_then_reset_example :
    Holds
      (λ d.
        (d.stopped ≡ false)
        × (d.mode ≡ batch)
        × (route_calls d.calls ≡ Call.batch_reset ∷ Call.batch_stop ∷ []))
      (on_control env Control.stop (record idle { mode = executing })
        >>= on_control env Control.reset)
unfolding init
stop_then_reset_example =
    stop_then_reset env executing true (record idle { mode = executing }) refl refl refl
      (λ calls c. refl)

abbrev AnchoredAt : PlaneConfig ℤ → Coordinate ℤ → Type 0
AnchoredAt at doc = doc ≡ at.plane_offset

anchors : LoaderAnchors env AnchoredAt
anchors request at recipe h = cc

init-Agrees_example : Holds (Agrees env AnchoredAt plane) (run env session (init config))
init-Agrees_example = init-Agrees env AnchoredAt config session anchors

execute-Inside_example : Holds (λ d. All (ExecutesInside config) d.calls) (execute square idle)
unfolding init
execute-Inside_example = execute-Inside square idle tt

submitted_runs-Submits_example : Submits idle (submitted_runs square idle)
submitted_runs-Submits_example = submitted_runs-Submits square idle

-- a client connects, draws a sample and falls silent
abbrev acts : List (Act ℤ)
acts =
    connects (pos 0)
    ∷ receives (some (sample (Control.execute square ∷ []))) (pos 1000)
    ∷ coordinates (pos 5000)
    ∷ reports (RouteEvent.result true (codes ""))
    ∷ receives none (pos 6000)
    ∷ coordinates (pos 10_000)
    ∷ disconnects
    ∷ coordinates (pos 15_000)
    ∷ []

round-Delivers_example :
    Holds
      (λ b.
        (inputs_of b.handed ≡ sample (Control.execute square ∷ []) ∷ [])
        × (routes_of b.handed ≡ RouteEvent.result true (codes "") ∷ [])
        × (run env b.handed idle ≡ some b.dispatcher))
      (bridge_run env acts (new_bridge (pos 500_000) idle) >>= coordinate env (pos 20_000))
round-Delivers_example = round-Delivers env (pos 500_000) acts (pos 20_000) idle
