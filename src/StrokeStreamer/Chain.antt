-- ===== src/StrokeStreamer/Chain.antt =====
-- stroke_streamer.py: the state of the drawing route, the calls of the coordination thread, the
-- submission of a goal and the end of a chain.
use rmp_ros2_control.Prelude.{
  ℕ, Bool, true, false, ◌||◌, Option, none, some, List, [], ◌∷◌, Text, codes, ltb, if◌then◌else◌,
}
use rmp_ros2_control.Float.{Float, lit, max, ◌⊗◌}
use rmp_ros2_control.Linalg.{Coordinate, Command}
use rmp_ros2_control.FileManager.{PlaneConfig}
use rmp_ros2_control.StrokeStreamer.{
  StrokeIntake, new_intake, begin_stroke, add_point, end_stroke, set_intake_plane, clear_intake,
  pending,
}

-- What the planner makes of a window; `J` is the type of a joint state.
pub record Planned (J : Type 0) : Type 0 where
  pub positions : List J
  pub end_joints : J

-- What the planning of a window comes to, an exception included.
pub data Planning (J : Type 0) : Type 0 where
  found : Planned J → Planning J
  not_found planning_raised : Planning J

-- What becomes of a goal: it is accepted, and takes as long as it says after the retiming; it could
-- not be submitted; or its retiming or submission raises an exception.
pub data Submission (F : Type 0) : Type 0 where
  accepted : F → Submission F
  rejected submission_raised : Submission F

-- How a call of a trigger service ends.
pub data TriggerReply : Type 0 where
  no_client unavailable no_response : TriggerReply
  replied : Bool → TriggerReply

-- What leaves the route: calls and events.
pub data StrokeOutput (F J : Type 0) : Type 0 where
  -- a goal that was accepted and one that was not: its number, and whether it lets the firmware's
  -- move end
  goal refused_goal : ℕ → Planned J → Option (List J) → Bool → StrokeOutput F J
  plan : List (Command F) → J → StrokeOutput F J
  stop_call reset_call settled drained : StrokeOutput F J
  chain_opened chain_closed chain_drained stopped_health : StrokeOutput F J
  chain_failed warned : Text → StrokeOutput F J
  -- the warning of the handler in `_run`
  caught : StrokeOutput F J

-- The planner, the sender's pipeline and the controller, as they answer after the outputs so far.
pub record StrokeServices (F J : Type 0) : Type 0 where
  pub read_joints : List (StrokeOutput F J) → Option J
  pub plan_goal : List (StrokeOutput F J) → List (Command F) → J → Planning J
  pub submitted : List (StrokeOutput F J) → Submission F
  pub drain : List (StrokeOutput F J) → Bool
  pub reset_service : List (StrokeOutput F J) → TriggerReply
  pub stop_service : List (StrokeOutput F J) → TriggerReply

pub record StrokeStreamer (F J : Type 0) : Type 0 where
  pub plane : PlaneConfig F
  pub intake : StrokeIntake F
  pub goal_seconds : F
  pub cartesian_speed : F
  pub chain_close_margin : F
  pub stop_flag : Bool
  pub session_requested : Bool
  pub busy : Bool
  pub handback : Bool
  pub retry_after : F
  -- an exception is on its way to the handler of `_run`
  pub raised : Bool
  pub outputs : List (StrokeOutput F J)

module _ {F J : Type 0} ⦃fl : Float F⦄ where
  -- StrokeChainStreamer.__init__, with its default goal length and margin
  unfoldable pub new_stroke_streamer : PlaneConfig F → F → ℕ → StrokeStreamer F J
  new_stroke_streamer plane spacing limit = record {
    plane = plane;
    intake = new_intake plane spacing limit;
    goal_seconds = lit 20 1;
    cartesian_speed = max (lit 1 3) (lit 25 2 ⊗ plane.velocity);
    chain_close_margin = lit 75 2;
    stop_flag = false;
    session_requested = false;
    busy = false;
    handback = false;
    retry_after = lit 0 1;
    raised = false;
    outputs = [];
  }

module _ {F J : Type 0} where
  abbrev pub put : StrokeOutput F J → StrokeStreamer F J → StrokeStreamer F J
  put o s = record s { outputs = o ∷ s.outputs }

  unfoldable pub stroke_begin : Coordinate F → StrokeStreamer F J → StrokeStreamer F J
  stroke_begin p s =
      if s.stop_flag
      then s
      else record s { handback = false; intake = begin_stroke p s.intake; session_requested = true }

  unfoldable pub stroke_set_plane : PlaneConfig F → StrokeStreamer F J → StrokeStreamer F J
  stroke_set_plane plane s = record s { plane = plane; intake = set_intake_plane plane s.intake }

  abbrev pub raise : StrokeStreamer F J → StrokeStreamer F J
  raise s = record s { raised = true }

  -- _call_trigger: the call, where the service is there, and whether it succeeded
  abbrev pub call_trigger :
      StrokeOutput F J → TriggerReply → StrokeStreamer F J → StrokeStreamer F J × Bool
  call_trigger c no_client s = (s, false)
  call_trigger c unavailable s =
      (put (StrokeOutput.warned (codes "controller service unavailable")) s, false)
  call_trigger c no_response s = (put (StrokeOutput.warned (codes "no response")) (put c s), false)
  call_trigger c (replied success) s = (put c s, success)

  -- stop; nothing reads whether the service could be called
  unfoldable pub stroke_stop : StrokeServices F J → StrokeStreamer F J → StrokeStreamer F J
  stroke_stop services s =
      (call_trigger StrokeOutput.stop_call (services.stop_service s.outputs) (record s {
        stop_flag = true;
        intake = clear_intake s.intake;
        session_requested = false;
      })).0

  unfoldable pub stroke_reset : StrokeServices F J → StrokeStreamer F J → StrokeStreamer F J × Bool
  stroke_reset services s =
      let (called, success) =
        call_trigger StrokeOutput.reset_call (services.reset_service s.outputs) s in
      if s.busy
      then (put (StrokeOutput.warned (codes "reset refused")) s, false)
      else if success
      then (record called { stop_flag = false }, true)
      else (called, false)

  abbrev pub is_active : StrokeStreamer F J → Bool
  is_active s = s.busy || (s.session_requested || ltb 0 (pending s.intake))

  -- _fail_chain
  unfoldable pub fail_chain : StrokeServices F J → Text → StrokeStreamer F J → StrokeStreamer F J
  fail_chain services message s =
      let called =
        (call_trigger StrokeOutput.stop_call (services.stop_service s.outputs)
          (record s { stop_flag = true })).0 in
      let stopped = if s.stop_flag then s else called in
      let failed =
        put (StrokeOutput.chain_failed message)
          (record stopped { intake = clear_intake stopped.intake }) in
      if s.stop_flag then failed else put StrokeOutput.stopped_health failed

  abbrev pub conclude :
      StrokeServices F J
      → ℕ
      → Planned J
      → Option (List J)
      → Bool
      → Submission F
      → StrokeStreamer F J
      → StrokeStreamer F J × Option F
  conclude services index planned next final (accepted duration) s =
      (put (StrokeOutput.goal index planned next final) s, some duration)
  conclude services index planned next final rejected s = (
    fail_chain services (codes "a goal could not be submitted")
        (put (StrokeOutput.refused_goal index planned next final) s),
    none,
  )
  conclude services index planned next final submission_raised s = (raise s, none)

  -- _submit, with the duration of the goal where it was accepted
  unfoldable pub submit :
      StrokeServices F J
      → ℕ
      → Planned J
      → Option (List J)
      → Bool
      → StrokeStreamer F J
      → StrokeStreamer F J × Option F
  submit services index planned next final s =
      conclude services index planned next final (services.submitted s.outputs) s

  -- the pipeline drains and the arm settles
  abbrev pub drain_chain : StrokeServices F J → StrokeStreamer F J → StrokeStreamer F J
  drain_chain services s =
      let done = put StrokeOutput.drained s in
      let told =
        if services.drain s.outputs || s.stop_flag
        then done
        else put (StrokeOutput.warned (codes "a goal did not succeed")) done in
      put StrokeOutput.chain_closed (put StrokeOutput.settled told)

  abbrev pub after_final : StrokeServices F J → StrokeStreamer F J × Option F → StrokeStreamer F J
  after_final services (s, none) = s
  after_final services (s, some duration) = drain_chain services s

  -- _close_chain
  unfoldable pub close_chain :
      StrokeServices F J → ℕ → Planned J → StrokeStreamer F J → StrokeStreamer F J
  close_chain services index planned s =
      if s.stop_flag
      then drain_chain services s
      else after_final services (submit services index planned none true s)

module _ {F J : Type 0} ⦃fl : Float F⦄ where
  unfoldable pub stroke_add : Coordinate F → StrokeStreamer F J → StrokeStreamer F J
  stroke_add p s =
      let (intake, known) = add_point p s.intake in
      if s.stop_flag
      then s
      else if known
      then record s { intake = intake; session_requested = true }
      else stroke_begin p s

  unfoldable pub stroke_end : StrokeStreamer F J → StrokeStreamer F J
  stroke_end s = record s { intake = end_stroke s.intake }

  unfoldable pub request_handback : StrokeStreamer F J → StrokeStreamer F J
  request_handback s = record s { intake = end_stroke s.intake; handback = true }
