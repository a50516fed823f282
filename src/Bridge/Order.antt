-- ===== src/Bridge/Order.antt =====
-- The bridge hands everything to the dispatcher, in the order in which it came.
use rmp_ros2_control.Prelude.{
  ℕ, zero, suc, ◌+◌, ◌≡◌, refl, sym, ◌∙◌, ap, Bool, true, false, not, ◌&&◌, Option, none, some,
  List, [], ◌∷◌, ◌++◌, append_assoc, append-nil, length, take, drop, take-append-drop, ltb, Holds,
  Holds-bind, Holds-eq, Bool-cases, inl, inr, if◌then◌else◌, ◌>>=◌, ◌==◌, ◌%◌,
}
use rmp_ros2_control.Float.{Float}
use rmp_ros2_control.Dispatcher.{InputEvent, RouteEvent, Environment}
use rmp_ros2_control.Dispatcher.{Dispatcher as State}
use rmp_ros2_control.Dispatcher.Events.{
  Event, step, run, input, route, input_loss, client_connected,
}
use rmp_ros2_control.Bridge.{
  Bridge, new_bridge, connect, receive, disconnect, report, input_lost, hand, hand_inputs,
  hand_routes, drain_inputs, greet, drain, watchdog_tick, coordinate, Act, act, bridge_run,
  connects, receives, disconnects, reports, coordinates,
}

abbrev pub inputs_of : {F : Type 0} → List (Event F) → List (InputEvent F)
inputs_of [] = []
inputs_of (input e ∷ es) = e ∷ inputs_of es
inputs_of (route e ∷ es) = inputs_of es
inputs_of (input_loss ∷ es) = inputs_of es
inputs_of (client_connected ∷ es) = inputs_of es

abbrev pub routes_of : {F : Type 0} → List (Event F) → List RouteEvent
routes_of [] = []
routes_of (input e ∷ es) = routes_of es
routes_of (route e ∷ es) = e ∷ routes_of es
routes_of (input_loss ∷ es) = routes_of es
routes_of (client_connected ∷ es) = routes_of es

module _ {F : Type 0} where
  inputs_of-append : (xs ys : List (Event F)) → inputs_of (xs ++ ys) ≡ inputs_of xs ++ inputs_of ys
  inputs_of-append [] ys = refl
  inputs_of-append (input e ∷ xs) ys = ap (λ l. e ∷ l) (inputs_of-append xs ys)
  inputs_of-append (route e ∷ xs) ys = inputs_of-append xs ys
  inputs_of-append (input_loss ∷ xs) ys = inputs_of-append xs ys
  inputs_of-append (client_connected ∷ xs) ys = inputs_of-append xs ys

  routes_of-append : (xs ys : List (Event F)) → routes_of (xs ++ ys) ≡ routes_of xs ++ routes_of ys
  routes_of-append [] ys = refl
  routes_of-append (input e ∷ xs) ys = routes_of-append xs ys
  routes_of-append (route e ∷ xs) ys = ap (λ l. e ∷ l) (routes_of-append xs ys)
  routes_of-append (input_loss ∷ xs) ys = routes_of-append xs ys
  routes_of-append (client_connected ∷ xs) ys = routes_of-append xs ys

module _ {F D : Type 0} ⦃fl : Float F⦄ (env : Environment F D) (start : State F D) where
  -- the dispatcher is where its run of the handed events is; what was received is handed in order or
  -- still queued, some of it in hand
  pub record InOrder (inputs : List (InputEvent F)) (routes : List RouteEvent) (b : Bridge F D)
      : Type 0 where
    pub ran : run env b.handed start ≡ some b.dispatcher
    pub inputs_kept : inputs_of b.handed ++ inputs ++ b.events ≡ b.received
    pub routes_kept : routes_of b.handed ++ routes ++ b.route_events ≡ b.reported

bind_assoc :
    {A B C : Type 0} (m : Option A) (f : A → Option B) (g : B → Option C) (h : A → Option C)
    → ((a : A) → h a ≡ f a >>= g)
    → m >>= h ≡ m >>= f >>= g
bind_assoc none f g h e = refl
bind_assoc (some a) f g h e = e a

bind_some : {A : Type 0} (m : Option A) → m >>= (λ a. some a) ≡ m
bind_some none = refl
bind_some (some a) = refl

pub Holds-if :
    {A : Type 0} (c : Bool) (P : A → Type 0) (m n : Option A)
    → Holds P m
    → Holds P n
    → Holds P (if c then m else n)
Holds-if true P m n h k = h
Holds-if false P m n h k = k

either : {A : Type 0} (c : Bool) (P : A → Type 0) (x y : A) → P x → P y → P (if c then x else y)
either true P x y h k = h
either false P x y h k = k

-- a queue that grows at its end
queued :
    {A : Type 0} (handed queue all : List A) (x : A)
    → handed ++ [] ++ queue ≡ all
    → handed ++ [] ++ (queue ++ x ∷ []) ≡ all ++ x ∷ []
queued handed queue all x e =
    sym (append_assoc (handed ++ []) queue (x ∷ [])) ∙ ap (λ l. l ++ x ∷ []) e

module _ {F D : Type 0} ⦃fl : Float F⦄ (env : Environment F D) where
  run-append :
      (xs ys : List (Event F)) (d : State F D) → run env (xs ++ ys) d ≡ run env xs d >>= run env ys
  unfolding run
  run-append [] ys d = refl
  run-append (x ∷ xs) ys d =
      bind_assoc (step env x d) (run env xs) (run env ys) _ (λ d'. run-append xs ys d')

  run-snoc :
      (xs : List (Event F)) (e : Event F) (d0 d : State F D)
      → run env xs d0 ≡ some d
      → run env (xs ++ e ∷ []) d0 ≡ step env e d
  unfolding run
  run-snoc xs e d0 d r =
      run-append xs (e ∷ []) d0 ∙ ap (λ m. m >>= run env (e ∷ [])) r ∙ bind_some (step env e d)

  -- one event more, of one of the four kinds
  hand-InOrder :
      (start : State F D) (event : Event F) (inputs inputs' : List (InputEvent F))
      (routes routes' : List RouteEvent) (b : Bridge F D)
      → inputs_of (event ∷ []) ++ inputs' ≡ inputs
      → routes_of (event ∷ []) ++ routes' ≡ routes
      → InOrder env start inputs routes b
      → Holds (InOrder env start inputs' routes') (hand env event b)
  unfolding hand
  hand-InOrder start event inputs inputs' routes routes' b i r v =
      Holds-bind (λ d. step env event b.dispatcher ≡ some d) _ (step env event b.dispatcher) _
        (Holds-eq _ (step env event b.dispatcher) (λ d e. e))
        (λ d e. record {
          ran = run-snoc b.handed event start b.dispatcher v.ran ∙ e;
          inputs_kept =
              ap (λ l. l ++ inputs' ++ b.events) (inputs_of-append b.handed (event ∷ []))
              ∙ ap (λ l. l ++ b.events)
                  (append_assoc (inputs_of b.handed) (inputs_of (event ∷ [])) inputs'
                    ∙ ap (λ l. inputs_of b.handed ++ l) i)
              ∙ v.inputs_kept;
          routes_kept =
              ap (λ l. l ++ routes' ++ b.route_events) (routes_of-append b.handed (event ∷ []))
              ∙ ap (λ l. l ++ b.route_events)
                  (append_assoc (routes_of b.handed) (routes_of (event ∷ [])) routes'
                    ∙ ap (λ l. routes_of b.handed ++ l) r)
              ∙ v.routes_kept;
        })

  hand_inputs-InOrder :
      (start : State F D) (events : List (InputEvent F)) (routes : List RouteEvent) (b : Bridge F D)
      → InOrder env start events routes b
      → Holds (InOrder env start [] routes) (hand_inputs env events b)
  unfolding hand_inputs
  hand_inputs-InOrder start [] routes b v = v
  hand_inputs-InOrder start (e ∷ events) routes b v =
      Holds-bind (InOrder env start events routes) _ (hand env (input e) b) _
        (hand-InOrder start (input e) (e ∷ events) events routes routes b refl refl v)
        (λ b' w. hand_inputs-InOrder start events routes b' w)

  hand_routes-InOrder :
      (start : State F D) (events : List RouteEvent) (b : Bridge F D)
      → InOrder env start [] events b
      → Holds (InOrder env start [] []) (hand_routes env events b)
  unfolding hand_routes
  hand_routes-InOrder start [] b v = v
  hand_routes-InOrder start (e ∷ events) b v =
      Holds-bind (InOrder env start [] events) _ (hand env (route e) b) _
        (hand-InOrder start (route e) [] [] (e ∷ events) events b refl refl v)
        (λ b' w. hand_routes-InOrder start events b' w)

  take_batch :
      (start : State F D) (routes : List RouteEvent) (b : Bridge F D)
      → InOrder env start [] routes b
      → InOrder env start (take 64 b.events) routes (record b { events = drop 64 b.events })
  take_batch start routes b v = record {
    ran = v.ran;
    inputs_kept =
        append_assoc (inputs_of b.handed) (take 64 b.events) (drop 64 b.events)
        ∙ ap (λ l. inputs_of b.handed ++ l) (take-append-drop 64 b.events)
        ∙ ap (λ l. l ++ b.events) (sym (append-nil (inputs_of b.handed)))
        ∙ v.inputs_kept;
    routes_kept = v.routes_kept;
  }

  drain_inputs-InOrder :
      (fuel : ℕ) (start : State F D) (routes : List RouteEvent) (b : Bridge F D)
      → InOrder env start [] routes b
      → Holds (InOrder env start [] routes) (drain_inputs fuel env b)
  unfolding drain_inputs
  drain_inputs-InOrder zero start routes b v = v
  drain_inputs-InOrder (suc fuel) start routes b v =
      Holds-bind (InOrder env start [] routes) _
        (hand_inputs env (take 64 b.events) (record b { events = drop 64 b.events })) _
        (hand_inputs-InOrder start (take 64 b.events) routes _ (take_batch start routes b v))
        (λ b' w. elim (Bool-cases (ltb (length (take 64 b.events)) 64)) [
          | inl t ↦ rw t w
          | inr t ↦ rw t (drain_inputs-InOrder fuel start routes b' w)
        ])

  greet-InOrder :
      (start : State F D) (b : Bridge F D)
      → InOrder env start [] [] b
      → Holds (InOrder env start [] []) (greet env b)
  unfolding greet
  greet-InOrder start b v =
      let seen = record b { session_was_open = b.session_open } in
      let w : InOrder env start [] [] seen = record {
        ran = v.ran;
        inputs_kept = v.inputs_kept;
        routes_kept = v.routes_kept;
      } in
      Holds-if (b.session_open && not b.session_was_open) _ _ _
        (hand-InOrder start client_connected [] [] [] [] seen refl refl w) w

  drain-InOrder :
      (start : State F D) (b : Bridge F D)
      → InOrder env start [] [] b
      → Holds (InOrder env start [] []) (drain env b)
  unfolding drain
  drain-InOrder start b v =
      Holds-bind (InOrder env start [] []) _ (greet env b) _ (greet-InOrder start b v) (λ g w.
        Holds-bind (InOrder env start [] []) _ (drain_inputs (suc (length g.events)) env g) _
          (drain_inputs-InOrder (suc (length g.events)) start [] g w)
          (λ r u.
            hand_routes-InOrder start r.route_events (record r { route_events = [] })
              (record {
                ran = u.ran;
                inputs_kept = u.inputs_kept;
                routes_kept =
                    append-nil (routes_of r.handed ++ r.route_events)
                    ∙ ap (λ l. l ++ r.route_events) (sym (append-nil (routes_of r.handed)))
                    ∙ u.routes_kept;
              })))

  watchdog_tick-InOrder :
      (start : State F D) (now : F) (b : Bridge F D)
      → InOrder env start [] [] b
      → Holds (InOrder env start [] []) (watchdog_tick env now b)
  unfolding watchdog_tick
  watchdog_tick-InOrder start now b v =
      let noted = record b { input_was_lost = input_lost now b } in
      let w : InOrder env start [] [] noted = record {
        ran = v.ran;
        inputs_kept = v.inputs_kept;
        routes_kept = v.routes_kept;
      } in
      Holds-if (input_lost now b && not b.input_was_lost) _ _ _
        (hand-InOrder start input_loss [] [] [] [] noted refl refl w) w

  pub coordinate-InOrder :
      (start : State F D) (now : F) (b : Bridge F D)
      → InOrder env start [] [] b
      → Holds (InOrder env start [] []) (coordinate env now b)
  unfolding coordinate
  coordinate-InOrder start now b v =
      Holds-bind (InOrder env start [] []) _ (drain env b) _ (drain-InOrder start b v) (λ d w.
        let ticked = record d { ticks = d.ticks + 1 } in
        let u : InOrder env start [] [] ticked = record {
          ran = w.ran;
          inputs_kept = w.inputs_kept;
          routes_kept = w.routes_kept;
        } in
        Holds-if ((d.ticks + 1) % 4 == 0) _ _ _ (watchdog_tick-InOrder start now ticked u) u)

  act-InOrder :
      (start : State F D) (a : Act F) (b : Bridge F D)
      → InOrder env start [] [] b
      → Holds (InOrder env start [] []) (act env a b)
  unfolding act connect receive disconnect report
  act-InOrder start (connects now) b v =
      either b.session_open (InOrder env start [] []) _ _ v
        (record { ran = v.ran; inputs_kept = v.inputs_kept; routes_kept = v.routes_kept })
  act-InOrder start (receives none now) b v = v
  act-InOrder start (receives (some e) now) b v =
      either b.session_open (InOrder env start [] []) _ _
        (record {
          ran = v.ran;
          inputs_kept = queued (inputs_of b.handed) b.events b.received e v.inputs_kept;
          routes_kept = v.routes_kept;
        })
        v
  act-InOrder start disconnects b v = record {
    ran = v.ran;
    inputs_kept = v.inputs_kept;
    routes_kept = v.routes_kept;
  }
  act-InOrder start (reports event) b v = record {
    ran = v.ran;
    inputs_kept = v.inputs_kept;
    routes_kept = queued (routes_of b.handed) b.route_events b.reported event v.routes_kept;
  }
  act-InOrder start (coordinates now) b v = coordinate-InOrder start now b v

  acts-InOrder :
      (start : State F D) (acts : List (Act F)) (b : Bridge F D)
      → InOrder env start [] [] b
      → Holds (InOrder env start [] []) (bridge_run env acts b)
  unfolding bridge_run
  acts-InOrder start [] b v = v
  acts-InOrder start (a ∷ acts) b v =
      Holds-bind (InOrder env start [] []) _ (act env a b) _ (act-InOrder start a b v)
        (λ b' w. acts-InOrder start acts b' w)

  -- Whatever the client, the routes and the clock do, as long as no exception ends the coordination
  -- thread: the dispatcher of the bridge is where its run of the events handed to it leads from the
  -- start, and the inputs handed to it, then those still queued, are the messages of the session that
  -- decode, in order, none lost and none doubled; and so with the events of the routes.
  pub bridge_run-InOrder :
      (timeout : F) (acts : List (Act F)) (start : State F D)
      → Holds (InOrder env start [] []) (bridge_run env acts (new_bridge timeout start))
  unfolding run
  bridge_run-InOrder timeout acts start =
      acts-InOrder start acts (new_bridge timeout start)
        (record { ran = refl; inputs_kept = refl; routes_kept = refl })
