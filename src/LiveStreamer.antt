-- ===== src/LiveStreamer.antt =====
-- live_streamer.py: the live route, which follows the pointer. A tick of the live thread takes one
-- step along the queued waypoints. A method of the coordination thread is one step on the state; a
-- tick is several, since it lets go of the lock in between, and `phase` is how far the tick is and
-- what its local variables hold. What leaves the route is logged in `outputs`, newest first.
pub mod Motion
pub mod Guard
pub mod Queue
pub mod Silence
use rmp_ros2_control.Prelude.{
  ℕ, Bool, true, false, not, ◌&&◌, ◌||◌, Option, none, some, List, [], ◌∷◌, ◌++◌, Text, length, leb,
  last?, if◌then◌else◌,
}
use rmp_ros2_control.Float.{Float, lit, max, min, ◌⊕◌, ◌⊖◌, ◌⊗◌, ◌⊘◌, ◌<?◌, ◌≤?◌, ◌=?◌}
use rmp_ros2_control.Linalg.{
  Command, Limits, BoundVerdicts, dist_3, rotate_in_plane, bound_verdicts, verdicts_ok,
}
use rmp_ros2_control.FileManager.{PlaneConfig, effective_anchor}
use rmp_ros2_control.Dispatcher.{DispatcherConfig}

-- The services of the streaming node and of the controller.
pub data Service : Type 0 where
  wait_reset reset_fault wait_switch switch_to_pose wait_pause unpause wait_stop stop_motion :
      Service

pub data Output (F : Type 0) : Type 0 where
  -- a command and the pose it is published as
  pose : Command F → Command F → Output F
  service : Service → Output F
  queue_full : ℕ → Output F
  guard_tripped : BoundVerdicts → Output F
  stop_failed : Text → Output F

-- The clients, if there is a control node, and what a service answers after the outputs so far.
pub record Services (F : Type 0) : Type 0 where
  pub has_control : Bool
  pub answer : List (Output F) → Service → Bool
  -- the exception of the stop call
  pub stop_error : List (Output F) → Option Text

-- How far the live thread is in its tick: between two ticks; in the loop of `_advance`, with the
-- target, the last command, the command reached so far and the budget left; with a command to
-- publish; with a command that is published and not yet recorded.
pub data Phase (F : Type 0) : Type 0 where
  between_ticks : Phase F
  walking : Command F → Command F → Command F → F → Phase F
  reached published : Command F → Phase F

pub record LiveStreamer (F : Type 0) : Type 0 where
  pub config : DispatcherConfig F
  pub tick_period : F
  pub limits : Limits F
  pub max_step : F
  pub queue_spacing : F
  pub queue_limit : ℕ
  pub queue : List (Command F)
  pub target : Option (Command F)
  pub last : Option (Command F)
  pub active : Bool
  pub at_rest : Bool
  pub releasing : Bool
  pub settle_started : Option F
  pub queue_warned : Bool
  pub phase : Phase F
  pub outputs : List (Output F)

module _ {F : Type 0} ⦃fl : Float F⦄ where
  unfoldable pub plane_to_world : Command F → Command F → F → Command F
  plane_to_world (ax, ay, az) (x, y, z) plane_yaw_deg =
      let turned = rotate_in_plane (x, y) plane_yaw_deg in
      let (tx, ty) = if plane_yaw_deg =? lit 0 1 then (x, y) else turned in
      (ax ⊕ tx, ay ⊕ ty, az ⊕ z)

  abbrev pub settle_seconds : F
  settle_seconds = lit 12 1

  abbrev pub step_limit : F
  step_limit = lit 5 4

  -- LiveTargetStreamer.__init__
  unfoldable pub new_streamer : DispatcherConfig F → F → LiveStreamer F
  new_streamer config tick_period = record {
    config = config;
    tick_period = tick_period;
    limits = record {
      extent = config.extent;
      working_centre = config.working_centre;
      working_radius = config.working_radius;
      depth_min = min config.plane.draw_z config.plane.safe_z;
      depth_max = max config.plane.draw_z config.plane.safe_z;
      max_speed = config.plane.velocity;
    };
    max_step = min (config.plane.velocity ⊗ tick_period) step_limit;
    queue_spacing = config.resample_spacing;
    queue_limit = config.live_queue_limit;
    queue = [];
    target = none;
    last = none;
    active = false;
    at_rest = true;
    releasing = false;
    settle_started = none;
    queue_warned = false;
    phase = between_ticks;
    outputs = [];
  }

-- `a or b` of two values of which only None is false
abbrev pub or_else : {A : Type 0} → Option A → Option A → Option A
or_else none b = b
or_else (some a) b = some a

module _ {F : Type 0} where
  abbrev pub emit : Output F → LiveStreamer F → LiveStreamer F
  emit o s = record s { outputs = o ∷ s.outputs }

  abbrev pub request : Service → LiveStreamer F → LiveStreamer F
  request r s = emit (Output.service r) s

  abbrev pub tail : LiveStreamer F → Option (Command F)
  tail s = or_else (last? s.queue) (or_else s.target s.last)

  unfoldable pub rest : LiveStreamer F → LiveStreamer F
  rest s = record s {
    queue = [];
    target = none;
    at_rest = true;
    releasing = false;
    settle_started = none;
  }

  unfoldable pub deactivate : LiveStreamer F → LiveStreamer F
  deactivate s = record s {
    active = false;
    queue = [];
    target = none;
    at_rest = true;
    last = none;
    releasing = false;
    settle_started = none;
  }

  unfoldable pub set_plane : PlaneConfig F → LiveStreamer F → LiveStreamer F
  set_plane plane s = record s { config = record s.config { plane = plane } }

  -- `none` where the stop call returned
  abbrev report_stop : Option Text → LiveStreamer F → LiveStreamer F
  report_stop none s = s
  report_stop (some error) s = emit (Output.stop_failed error) s

  unfoldable pub stop : Services F → LiveStreamer F → LiveStreamer F
  unfolding deactivate
  stop services s =
      let off = deactivate s in
      let waited = request Service.wait_stop off in
      let called = request Service.stop_motion waited in
      if not services.has_control
      then off
      else report_stop (services.stop_error off.outputs)
          (if services.answer off.outputs Service.wait_stop then called else waited)

  -- the switch to the pose command type and the start of the streaming node
  abbrev start_node : Services F → LiveStreamer F → LiveStreamer F × Bool
  start_node services s =
      let waited = request Service.wait_switch s in
      let switched = request Service.switch_to_pose waited in
      let waited_pause = request Service.wait_pause switched in
      let unpaused = request Service.unpause waited_pause in
      if not (services.answer s.outputs Service.wait_switch)
      then (waited, false)
      else if not (services.answer waited.outputs Service.switch_to_pose)
      then (switched, false)
      else if not (services.answer switched.outputs Service.wait_pause)
      then (waited_pause, false)
      else (unpaused, services.answer waited_pause.outputs Service.unpause)

  abbrev begin_session : LiveStreamer F × Bool → LiveStreamer F × Bool
  begin_session (s, false) = (s, false)
  begin_session (s, true) = (
    record s {
      active = true;
      queue = [];
      target = none;
      last = none;
      at_rest = true;
      queue_warned = false;
    },
    true,
  )

  unfoldable pub activate : Services F → LiveStreamer F → LiveStreamer F × Bool
  activate services s =
      let waited = request Service.wait_reset s in
      let cleared = request Service.reset_fault waited in
      let ready = if services.answer s.outputs Service.wait_reset then cleared else waited in
      if services.has_control then begin_session (start_node services ready) else (s, false)

  unfoldable pub reset : Services F → LiveStreamer F → LiveStreamer F × Bool
  reset services s =
      let waited = request Service.wait_reset s in
      let called = request Service.reset_fault waited in
      if not services.has_control
      then (s, false)
      else if services.answer s.outputs Service.wait_reset
      then (called, services.answer waited.outputs Service.reset_fault)
      else (waited, false)
