-- ===== src/Dispatcher/Induction.antt =====
-- Invariants of the dispatcher: what each handler keeps, every run of events keeps.
use rmp_ros2_control.Prelude.{Bool, ◌≡◌, refl, List, [], ◌∷◌, some, Holds, Holds-bind, Holds-any}
use rmp_ros2_control.Float.{Float}
use rmp_ros2_control.Linalg.{Coordinate, map_canvas_to_plane, clamp_to_extent}
use rmp_ros2_control.Dispatcher.{Mode, Control, InputEvent, RouteEvent, Environment, push_display}
use rmp_ros2_control.Dispatcher.{Dispatcher as State}
use rmp_ros2_control.Dispatcher.Controls.{handle_control, on_control}
use rmp_ros2_control.Dispatcher.Events.{
  live_sample, on_controls, on_input_event, route_event, on_route_event, lose_input, on_input_loss,
  Event, input, route, input_loss, client_connected, step, run,
}

module _ {F D : Type 0} ⦃fl : Float F⦄ (env : Environment F D) (P : State F D → Type 0) where
  -- Every handler keeps the property.
  pub record Keeps : Type 0 where
    pub pushes : (d : State F D) → P d → P (push_display d)
    pub echoes : (p : Coordinate F) (d : State F D) → P d → P (record d { echo = some p })
    pub handles :
        (control : Control F) (d : State F D) → P d → Holds P (handle_control env control d)
    pub samples :
        (p : Coordinate F) (pen follows : Bool) (d : State F D)
        → P d
        → Holds P (live_sample env p pen follows d)
    pub routes : (event : RouteEvent) (d : State F D) → P d → P (route_event env event d)
    pub loses :
        (mode : Mode) (d : State F D) → d.mode ≡ mode → P d → Holds P (lose_input env mode d)

module _ {F D : Type 0} ⦃fl : Float F⦄ (env : Environment F D) (P : State F D → Type 0)
    (keeps : Keeps env P) where
  pub on_control-Keeps :
      (control : Control F) (d : State F D) → P d → Holds P (on_control env control d)
  unfolding on_control
  on_control-Keeps control d v =
      Holds-bind P P (handle_control env control d) _ (keeps.handles control d v) keeps.pushes

  pub on_controls-Keeps :
      (controls : List (Control F)) (d : State F D) → P d → Holds P (on_controls env controls d)
  unfolding on_controls
  on_controls-Keeps [] d v = v
  on_controls-Keeps (control ∷ rest) d v =
      Holds-bind P P (on_control env control d) _ (on_control-Keeps control d v)
        (on_controls-Keeps rest)

  pub on_input_event-Keeps :
      (event : InputEvent F) (d : State F D) → P d → Holds P (on_input_event env event d)
  unfolding on_input_event
  on_input_event-Keeps event d v =
      let mapped = map_canvas_to_plane event.pointer event.surface d.config.extent in
      Holds-bind (λ _. Unit) P mapped _ (Holds-any mapped)
        λ at _.
          let p = clamp_to_extent at d.config.extent in
          Holds-bind P P (on_controls env event.controls _) _
            (on_controls-Keeps event.controls _ (keeps.echoes p d v))
            (keeps.samples p event.pen event.follow)

  pub step-Keeps : (event : Event F) (d : State F D) → P d → Holds P (step env event d)
  unfolding step on_route_event on_input_loss
  step-Keeps (input event) d v = on_input_event-Keeps event d v
  step-Keeps (route event) d v = keeps.pushes _ (keeps.routes event d v)
  step-Keeps input_loss d v =
      Holds-bind P P (lose_input env d.mode d) _ (keeps.loses d.mode d refl v) keeps.pushes
  step-Keeps client_connected d v = keeps.pushes d v

  pub run-Keeps : (events : List (Event F)) (d : State F D) → P d → Holds P (run env events d)
  unfolding run
  run-Keeps [] d v = v
  run-Keeps (event ∷ rest) d v =
      Holds-bind P P (step env event d) _ (step-Keeps event d v) (run-Keeps rest)
