-- ===== src/Bridge/Delivery.antt =====
-- A round of the coordination loop hands over all that is queued.
use rmp_ros2_control.Prelude.{
  suc, ◌+◌, ◌%◌, ◌==◌, ◌≡◌, refl, false, sym, ◌∙◌, ap, not, ◌&&◌, some, List, [], ◌∷◌, ◌++◌,
  append-nil, length, arith, Holds, Holds-bind, Holds-any, Holds-mono, Option, none, ◌>>=◌,
}
use rmp_ros2_control.Float.{Float}
use rmp_ros2_control.Dispatcher.{RouteEvent, Environment}
use rmp_ros2_control.Dispatcher.{Dispatcher as State}
use rmp_ros2_control.Dispatcher.Events.{Event, step, run, route, input_loss}
use rmp_ros2_control.Bridge.{
  Bridge, new_bridge, input_lost, hand, hand_routes, drain_inputs, greet, drain, watchdog_tick,
  coordinate, Act, bridge_run,
}
use rmp_ros2_control.Bridge.Order.{
  InOrder, inputs_of, routes_of, Holds-if, bridge_run-InOrder, coordinate-InOrder,
}
use rmp_ros2_control.Bridge.Arrivals.{
  messages, reports_of, Same, Arrived, coordinate-Same, bridge_run-Arrived,
}
use rmp_ros2_control.Bridge.Emptying.{drain_inputs-Empties}

Holds-both :
    {A : Type 0} (P Q : A → Type 0) (m : Option A)
    → Holds P m
    → Holds Q m
    → Holds (λ a. P a × Q a) m
Holds-both P Q none h k = tt
Holds-both P Q (some a) h k = (h, k)

module _ {F D : Type 0} where
  record Emptied (b : Bridge F D) : Type 0 where
    no_inputs : b.events ≡ []
    no_routes : b.route_events ≡ []

module _ {F D : Type 0} ⦃fl : Float F⦄ (env : Environment F D) where
  hand-Emptied : (e : Event F) (b : Bridge F D) → Emptied b → Holds Emptied (hand env e b)
  unfolding hand
  hand-Emptied e b v =
      Holds-bind (λ _. Unit) _ (step env e b.dispatcher) _ (Holds-any _)
        (λ d _. record { no_inputs = v.no_inputs; no_routes = v.no_routes })

  hand_routes-Emptied :
      (es : List RouteEvent) (b : Bridge F D) → Emptied b → Holds Emptied (hand_routes env es b)
  unfolding hand_routes
  hand_routes-Emptied [] b v = v
  hand_routes-Emptied (e ∷ es) b v =
      Holds-bind Emptied _ (hand env (route e) b) _ (hand-Emptied (route e) b v)
        (hand_routes-Emptied es)

  drain-Emptied : (b : Bridge F D) → Holds Emptied (drain env b)
  unfolding drain
  drain-Emptied b =
      Holds-bind (λ _. Unit) _ (greet env b) _ (Holds-any _)
        (λ g _.
          Holds-bind (λ r. r.events ≡ []) _ (drain_inputs (suc (length g.events)) env g) _
            (drain_inputs-Empties env (suc (length g.events)) g (omega arith))
            (λ r e.
              hand_routes-Emptied r.route_events (record r { route_events = [] })
                (record { no_inputs = e; no_routes = refl })))

  coordinate-Emptied : (now : F) (b : Bridge F D) → Holds Emptied (coordinate env now b)
  unfolding coordinate watchdog_tick
  coordinate-Emptied now b = Holds-bind Emptied _ (drain env b) _ (drain-Emptied b) (λ d w.
      let u : Emptied (record d { ticks = d.ticks + 1 }) = record {
        no_inputs = w.no_inputs;
        no_routes = w.no_routes;
      } in
      let noted : Bridge F D = record d {
        ticks = d.ticks + 1;
        input_was_lost = input_lost now d;
      } in
      let n : Emptied noted = record { no_inputs = w.no_inputs; no_routes = w.no_routes } in
      Holds-if ((d.ticks + 1) % 4 == 0) Emptied _ _
        (Holds-if (input_lost now d && not d.input_was_lost) Emptied _ _
          (hand-Emptied input_loss noted n) n)
        u)

  -- the parts of what is handed over, where nothing is queued
  handed_all :
      {A : Type 0} (handed queue all : List A)
      → queue ≡ []
      → handed ++ [] ++ queue ≡ all
      → handed ≡ all
  handed_all handed queue all e h =
      sym (append-nil handed)
      ∙ sym (append-nil (handed ++ []))
      ∙ ap (λ q. handed ++ [] ++ q) (sym e)
      ∙ h

  -- Whatever the client, the routes and the clock do, as long as no exception ends the coordination
  -- thread: after the next round of the coordination loop the inputs that were handed to the
  -- dispatcher are exactly the messages that decode and that came while a session was open, in
  -- order, and the route events that were handed to it are exactly those that the routes reported,
  -- in order; and the dispatcher is where its run of the events handed to it leads from the start.
  pub round-Delivers :
      (timeout : F) (acts : List (Act F)) (now : F) (start : State F D)
      → Holds
          (λ b.
            (inputs_of b.handed ≡ messages false acts)
            × (routes_of b.handed ≡ reports_of acts)
            × (run env b.handed start ≡ some b.dispatcher))
          (bridge_run env acts (new_bridge timeout start) >>= coordinate env now)
  round-Delivers timeout acts now start =
      let o : Bridge F D = new_bridge timeout start in
      Holds-bind (λ b. InOrder env start [] [] b × Arrived acts o b) _ (bridge_run env acts o) _
        (Holds-both _ _ (bridge_run env acts o) (bridge_run-InOrder env timeout acts start)
          (bridge_run-Arrived env acts o))
        (λ b v.
          Holds-mono (λ c. InOrder env start [] [] c × (Emptied c × Same b c)) _
            (coordinate env now b)
            (Holds-both _ _ (coordinate env now b) (coordinate-InOrder env start now b v.0) (
              Holds-both _ _ (coordinate env now b) (coordinate-Emptied now b) (
                coordinate-Same env b now b
                  (record { received = refl; reported = refl; is_open = refl }))))
            (λ c (w, (e, k)). (
              handed_all (inputs_of c.handed) c.events c.received e.no_inputs w.inputs_kept
                  ∙ k.received
                  ∙ v.1.received,
              handed_all (routes_of c.handed) c.route_events c.reported e.no_routes w.routes_kept
                  ∙ k.reported
                  ∙ v.1.reported,
              w.ran,
            )))
