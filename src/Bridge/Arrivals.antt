-- ===== src/Bridge/Arrivals.antt =====
-- What arrives at the queues of the bridge, read off from what happens.
use rmp_ros2_control.Prelude.{
  ℕ, zero, suc, ◌+◌, ◌%◌, ◌==◌, ◌≡◌, refl, sym, ◌∙◌, ap, Bool, true, false, not, ◌&&◌, none, some,
  List, [], ◌∷◌, ◌++◌, append_assoc, append-nil, length, take, drop, ltb, Holds, Holds-bind,
  Holds-any, Holds-mono, arith,
}
use rmp_ros2_control.Float.{Float}
use rmp_ros2_control.Dispatcher.{InputEvent, RouteEvent, Environment}
use rmp_ros2_control.Dispatcher.Events.{Event, step, input, route, input_loss, client_connected}
use rmp_ros2_control.Bridge.{
  Bridge, connect, receive, disconnect, report, input_lost, hand, hand_inputs, hand_routes,
  drain_inputs, greet, drain, watchdog_tick, coordinate, Act, act, bridge_run, connects, receives,
  disconnects, reports, coordinates,
}
use rmp_ros2_control.Bridge.Order.{Holds-if}

-- the messages that decode while a session is open, which it is at first or not
abbrev pub messages : {F : Type 0} → Bool → List (Act F) → List (InputEvent F)
messages is_open [] = []
messages is_open (connects now ∷ acts) = messages true acts
messages is_open (receives none now ∷ acts) = messages is_open acts
messages true (receives (some e) now ∷ acts) = e ∷ messages true acts
messages false (receives (some e) now ∷ acts) = messages false acts
messages is_open (disconnects ∷ acts) = messages false acts
messages is_open (reports e ∷ acts) = messages is_open acts
messages is_open (coordinates now ∷ acts) = messages is_open acts

-- the events of the routes
abbrev pub reports_of : {F : Type 0} → List (Act F) → List RouteEvent
reports_of [] = []
reports_of (connects now ∷ acts) = reports_of acts
reports_of (receives m now ∷ acts) = reports_of acts
reports_of (disconnects ∷ acts) = reports_of acts
reports_of (reports e ∷ acts) = e ∷ reports_of acts
reports_of (coordinates now ∷ acts) = reports_of acts

module _ {F D : Type 0} where
  -- nothing has arrived
  pub record Same (b c : Bridge F D) : Type 0 where
    pub received : c.received ≡ b.received
    pub reported : c.reported ≡ b.reported
    pub is_open : c.session_open ≡ b.session_open

  pub record Arrived (acts : List (Act F)) (b c : Bridge F D) : Type 0 where
    pub received : c.received ≡ b.received ++ messages b.session_open acts
    pub reported : c.reported ≡ b.reported ++ reports_of acts

module _ {F D : Type 0} ⦃fl : Float F⦄ (env : Environment F D) (o : Bridge F D) where
  hand-Same : (e : Event F) (b : Bridge F D) → Same o b → Holds (Same o) (hand env e b)
  unfolding hand
  hand-Same e b v =
      Holds-bind (λ _. Unit) _ (step env e b.dispatcher) _ (Holds-any _)
        (λ d _. record { received = v.received; reported = v.reported; is_open = v.is_open })

  hand_inputs-Same :
      (es : List (InputEvent F)) (b : Bridge F D) → Same o b → Holds (Same o) (hand_inputs env es b)
  unfolding hand_inputs
  hand_inputs-Same [] b v = v
  hand_inputs-Same (e ∷ es) b v =
      Holds-bind (Same o) _ (hand env (input e) b) _ (hand-Same (input e) b v) (hand_inputs-Same es)

  hand_routes-Same :
      (es : List RouteEvent) (b : Bridge F D) → Same o b → Holds (Same o) (hand_routes env es b)
  unfolding hand_routes
  hand_routes-Same [] b v = v
  hand_routes-Same (e ∷ es) b v =
      Holds-bind (Same o) _ (hand env (route e) b) _ (hand-Same (route e) b v) (hand_routes-Same es)

  drain_inputs-Same :
      (fuel : ℕ) (b : Bridge F D) → Same o b → Holds (Same o) (drain_inputs fuel env b)
  unfolding drain_inputs
  drain_inputs-Same zero b v = v
  drain_inputs-Same (suc fuel) b v =
      Holds-bind (Same o) _
        (hand_inputs env (take 64 b.events) (record b { events = drop 64 b.events })) _
        (hand_inputs-Same (take 64 b.events) _
          (record { received = v.received; reported = v.reported; is_open = v.is_open }))
        (λ b' w.
          Holds-if (ltb (length (take 64 b.events)) 64) (Same o) _ _ w
            (drain_inputs-Same fuel b' w))

  greet-Same : (b : Bridge F D) → Same o b → Holds (Same o) (greet env b)
  unfolding greet
  greet-Same b v =
      let seen : Bridge F D = record b { session_was_open = b.session_open } in
      let w : Same o seen = record {
        received = v.received;
        reported = v.reported;
        is_open = v.is_open;
      } in
      Holds-if (b.session_open && not b.session_was_open) (Same o) _ _
        (hand-Same client_connected seen w) w

  drain-Same : (b : Bridge F D) → Same o b → Holds (Same o) (drain env b)
  unfolding drain
  drain-Same b v = Holds-bind (Same o) _ (greet env b) _ (greet-Same b v) (λ g w.
      Holds-bind (Same o) _ (drain_inputs (suc (length g.events)) env g) _
        (drain_inputs-Same (suc (length g.events)) g w)
        (λ r u.
          hand_routes-Same r.route_events (record r { route_events = [] })
            (record { received = u.received; reported = u.reported; is_open = u.is_open })))

  pub coordinate-Same :
      (now : F) (b : Bridge F D) → Same o b → Holds (Same o) (coordinate env now b)
  unfolding coordinate watchdog_tick
  coordinate-Same now b v = Holds-bind (Same o) _ (drain env b) _ (drain-Same b v) (λ d w.
      let ticked : Bridge F D = record d { ticks = d.ticks + 1 } in
      let noted : Bridge F D = record d {
        ticks = d.ticks + 1;
        input_was_lost = input_lost now d;
      } in
      let u : Same o ticked = record {
        received = w.received;
        reported = w.reported;
        is_open = w.is_open;
      } in
      let n : Same o noted = record {
        received = w.received;
        reported = w.reported;
        is_open = w.is_open;
      } in
      Holds-if ((d.ticks + 1) % 4 == 0) (Same o) _ _
        (Holds-if (input_lost now d && not d.input_was_lost) (Same o) _ _
          (hand-Same input_loss noted n) n)
        u)

module _ {F D : Type 0} ⦃fl : Float F⦄ (env : Environment F D) where
  act-Arrived :
      (a : Act F) (acts : List (Act F)) (b : Bridge F D)
      → Holds (λ c. (d : Bridge F D) → Arrived acts c d → Arrived (a ∷ acts) b d) (act env a b)
  unfolding act connect receive disconnect report
  act-Arrived (connects now) acts b = λ d v. ground arith
  act-Arrived (receives none now) acts b =
      λ d v. record { received = v.received; reported = v.reported }
  act-Arrived (receives (some e) now) acts b =
      λ d v. ground (arith, append_assoc b.received (e ∷ []) (messages true acts))
  act-Arrived disconnects acts b = λ d v. record { received = v.received; reported = v.reported }
  act-Arrived (reports e) acts b = λ d v. record {
    received = v.received;
    reported = v.reported ∙ append_assoc b.reported (e ∷ []) (reports_of acts);
  }
  act-Arrived (coordinates now) acts b =
      Holds-mono (Same b) _ (coordinate env now b)
        (coordinate-Same env b now b (record { received = refl; reported = refl; is_open = refl }))
        (λ c w d v. record {
          received =
              v.received
              ∙ ap (λ l. l ++ messages c.session_open acts) w.received
              ∙ ap (λ x. b.received ++ messages x acts) w.is_open;
          reported = v.reported ∙ ap (λ l. l ++ reports_of acts) w.reported;
        })

  pub bridge_run-Arrived :
      (acts : List (Act F)) (b : Bridge F D) → Holds (Arrived acts b) (bridge_run env acts b)
  unfolding bridge_run
  bridge_run-Arrived [] b = record {
    received = sym (append-nil b.received);
    reported = sym (append-nil b.reported);
  }
  bridge_run-Arrived (a ∷ acts) b =
      Holds-bind (λ c. (d : Bridge F D) → Arrived acts c d → Arrived (a ∷ acts) b d) _ (act env a b)
        _ (act-Arrived a acts b)
        (λ c k. Holds-mono (Arrived acts c) _ (bridge_run env acts c) (bridge_run-Arrived acts c) k)
