-- ===== src/Bridge.antt =====
-- bridge.py and ui_comms.py: the session of the client, the queues, and the coordination loop that
-- hands what they hold to the dispatcher. The transport thread and the routes act between two
-- rounds of the loop; a message comes decoded, or as the error of protocol.py. `none` is an exception.
pub mod Order
pub mod Emptying
pub mod Arrivals
pub mod Delivery
use rmp_ros2_control.Prelude.{
  ℕ, zero, suc, ◌+◌, ◌%◌, ◌==◌, Bool, true, false, not, ◌&&◌, Option, none, some, List, [], ◌∷◌,
  ◌++◌, length, take, drop, ltb, if◌then◌else◌, ◌>>=◌,
}
use rmp_ros2_control.Float.{Float, ◌⊖◌, ◌<?◌}
use rmp_ros2_control.Dispatcher.{InputEvent, RouteEvent, Environment}
use rmp_ros2_control.Dispatcher.{Dispatcher as State}
use rmp_ros2_control.Dispatcher.Events.{Event, step, input, route, input_loss, client_connected}

-- UiComms and DrawPlaneBridge. `handed` is what was handed to the dispatcher so far, and `received`
-- and `reported` what the queues have ever held; nothing reads them.
pub record Bridge (F D : Type 0) : Type 0 where
  pub dispatcher : State F D
  pub input_timeout : F
  pub events : List (InputEvent F)
  pub session_open : Bool
  pub last_input : Option F
  pub route_events : List RouteEvent
  pub session_was_open : Bool
  pub input_was_lost : Bool
  pub ticks : ℕ
  pub handed : List (Event F)
  pub received : List (InputEvent F)
  pub reported : List RouteEvent

abbrev pub new_bridge : {F D : Type 0} → F → State F D → Bridge F D
new_bridge timeout d = record {
  dispatcher = d;
  input_timeout = timeout;
  events = [];
  session_open = false;
  last_input = none;
  route_events = [];
  session_was_open = false;
  input_was_lost = false;
  ticks = 0;
  handed = [];
  received = [];
  reported = [];
}

module _ {F : Type 0} ⦃fl : Float F⦄ where
  abbrev pub silent : Option F → Bool → F → F → Bool
  silent none is_open timeout now = false
  silent (some last) is_open timeout now = if not is_open then true else timeout <? (now ⊖ last)

module _ {F D : Type 0} ⦃fl : Float F⦄ where
  -- a client connects; a second session is refused
  unfoldable pub connect : F → Bridge F D → Bridge F D
  connect now b =
      if b.session_open then b else record b { session_open = true; last_input = some now }

  -- a message of the session; one that does not decode is dropped
  unfoldable pub receive : Option (InputEvent F) → F → Bridge F D → Bridge F D
  receive none now b = b
  receive (some event) now b =
      if b.session_open
      then record b {
        last_input = some now;
        events = b.events ++ event ∷ [];
        received = b.received ++ event ∷ [];
      }
      else b

  unfoldable pub disconnect : Bridge F D → Bridge F D
  disconnect b = record b { session_open = false }

  -- the `on_event` of a route
  unfoldable pub report : RouteEvent → Bridge F D → Bridge F D
  report event b = record b {
    route_events = b.route_events ++ event ∷ [];
    reported = b.reported ++ event ∷ [];
  }

  -- UiComms.input_lost
  unfoldable pub input_lost : F → Bridge F D → Bool
  input_lost now b = silent b.last_input b.session_open b.input_timeout now

  -- a call of the dispatcher
  unfoldable pub hand : Environment F D → Event F → Bridge F D → Option (Bridge F D)
  hand env event b = do
    d ← step env event b.dispatcher
    some (record b { dispatcher = d; handed = b.handed ++ event ∷ [] })

  unfoldable pub hand_inputs :
      Environment F D → List (InputEvent F) → Bridge F D → Option (Bridge F D)
  unfolding hand
  hand_inputs env [] b = some b
  hand_inputs env (event ∷ events) b = hand env (input event) b >>= hand_inputs env events

  unfoldable pub hand_routes : Environment F D → List RouteEvent → Bridge F D → Option (Bridge F D)
  unfolding hand
  hand_routes env [] b = some b
  hand_routes env (event ∷ events) b = hand env (route event) b >>= hand_routes env events

  -- the loop over the batches of 64, with fuel
  unfoldable pub drain_inputs : ℕ → Environment F D → Bridge F D → Option (Bridge F D)
  unfolding hand_inputs
  drain_inputs zero env b = some b
  drain_inputs (suc fuel) env b =
      let batch = take 64 b.events in
      hand_inputs env batch (record b { events = drop 64 b.events }) >>= λ b'.
      let rest = drain_inputs fuel env b' in if ltb (length batch) 64 then some b' else rest

  -- a fresh client gets the whole state
  unfoldable pub greet : Environment F D → Bridge F D → Option (Bridge F D)
  unfolding hand
  greet env b =
      let seen = record b { session_was_open = b.session_open } in
      if b.session_open && not b.session_was_open then hand env client_connected seen else some seen

  -- _drain; a batch more than the queue holds is fuel enough
  unfoldable pub drain : Environment F D → Bridge F D → Option (Bridge F D)
  unfolding greet drain_inputs hand_routes
  drain env b = do
    greeted ← greet env b
    read ← drain_inputs (suc (length greeted.events)) env greeted
    hand_routes env read.route_events (record read { route_events = [] })

  -- _watchdog_tick: the loss is reported once, at its beginning
  unfoldable pub watchdog_tick : Environment F D → F → Bridge F D → Option (Bridge F D)
  unfolding input_lost hand
  watchdog_tick env now b =
      let lost = input_lost now b in
      let noted = record b { input_was_lost = lost } in
      if lost && not b.input_was_lost then hand env input_loss noted else some noted

  -- a round of _coordination_loop
  unfoldable pub coordinate : Environment F D → F → Bridge F D → Option (Bridge F D)
  unfolding drain watchdog_tick
  coordinate env now b = do
    drained ← drain env b
    let ticks = drained.ticks + 1
    let ticked = record drained { ticks = ticks }
    if ticks % 4 == 0 then watchdog_tick env now ticked else some ticked

pub data Act (F : Type 0) : Type 0 where
  connects : F → Act F
  receives : Option (InputEvent F) → F → Act F
  disconnects : Act F
  reports : RouteEvent → Act F
  coordinates : F → Act F

module _ {F D : Type 0} ⦃fl : Float F⦄ where
  unfoldable pub act : Environment F D → Act F → Bridge F D → Option (Bridge F D)
  unfolding connect receive disconnect report coordinate
  act env (connects now) b = some (connect now b)
  act env (receives message now) b = some (receive message now b)
  act env disconnects b = some (disconnect b)
  act env (reports event) b = some (report event b)
  act env (coordinates now) b = coordinate env now b

  unfoldable pub bridge_run : Environment F D → List (Act F) → Bridge F D → Option (Bridge F D)
  unfolding act
  bridge_run env [] b = some b
  bridge_run env (a ∷ acts) b = act env a b >>= bridge_run env acts
