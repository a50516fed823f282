-- ===== src/StreamedSender/Chain.antt =====
-- send_cartesian_path_streamed.py: planning a goal, the parameter of the controller, the goals in
-- flight, and the chain of goals. The planner and the controller are a parameter that answers, given
-- the calls made before; so are the polls that fit into a wait, the last of which is past the
-- deadline. `none` is an exception.
pub mod Loop
pub mod Sending
pub mod Closing
pub mod Ending
use rmp_ros2_control.Prelude.{
  ℕ, zero, suc, ◌+◌, Bool, true, false, not, ◌&&◌, ◌||◌, Option, none, some, List, [], ◌∷◌, ◌++◌,
  length, last?, leb, if◌then◌else◌, ◌>>=◌,
}
use rmp_ros2_control.Float.{Float, lit, max, ◌⊖◌, ◌<?◌}
use rmp_ros2_control.Recipe.Waypoints.{Waypoint}
use rmp_ros2_control.StreamedSender.Retiming.{
  Joints, MotionLimits, Retimed, zip_with, retime_goal_window,
}

-- The answer of /compute_cartesian_path; `unplanned` is no response or an error code.
pub data PlanReply (F : Type 0) : Type 0 where
  unplanned : PlanReply F
  planned : F → List (Joints F) → PlanReply F

-- PlannedGoal
pub record PlannedGoal (F : Type 0) : Type 0 where
  pub positions : List (Joints F)
  pub end_joints : Joints F

-- A goal that the controller accepted, with the value that its parameter had.
pub record SentGoal (F : Type 0) : Type 0 where
  pub finalizes : Option Bool
  pub times : List F
  pub positions : List (Joints F)
  pub velocities : List (Joints F)

pub data StreamCall (F : Type 0) : Type 0 where
  plan_request : List (Waypoint F) → Joints F → StreamCall F
  set_parameter : Bool → StreamCall F
  send_request : SentGoal F → StreamCall F

-- What a poll finds of a goal: not done, or done, and whether it succeeded.
abbrev pub Poll : Type 0
Poll = ℕ → Option Bool

pub record Cell (F : Type 0) : Type 0 where
  pub plan : List (StreamCall F) → PlanReply F
  pub set_finalize : List (StreamCall F) → Bool
  pub accepts : List (StreamCall F) → Bool
  pub pacing : List (StreamCall F) → List Poll
  pub draining : List (StreamCall F) → List Poll
  pub max_inflight : ℕ

-- FinalizeSwitch and GoalPipeline, with the goals that were accepted, newest first
pub record Streaming (F : Type 0) : Type 0 where
  pub current : Option Bool
  pub in_flight : List ℕ
  pub failed : Bool
  pub sent : List (SentGoal F)
  pub calls : List (StreamCall F)

abbrev pub new_streaming : {F : Type 0} → Streaming F
new_streaming = record { current = none; in_flight = []; failed = false; sent = []; calls = [] }

abbrev pub same_flag : Option Bool → Bool → Bool
same_flag none v = false
same_flag (some true) v = v
same_flag (some false) v = not v

abbrev pub still_pending : Poll → List ℕ → List ℕ
still_pending poll [] = []
still_pending poll (g ∷ goals) = keep (poll g) g (still_pending poll goals)
  where
    keep : Option Bool → ℕ → List ℕ → List ℕ
    keep none g rest = g ∷ rest
    keep (some ok) g rest = rest

abbrev any_failed : Poll → List ℕ → Bool
any_failed poll [] = false
any_failed poll (g ∷ goals) = bad (poll g) || any_failed poll goals
  where
    bad : Option Bool → Bool
    bad none = false
    bad (some ok) = not ok

abbrev pub is_empty : List ℕ → Bool
is_empty [] = true
is_empty (g ∷ goals) = false

module _ {F : Type 0} where
  -- FinalizeSwitch.set_finalize
  unfoldable pub set_finalize : Cell F → Bool → Streaming F → Streaming F × Bool
  set_finalize cell value s =
      let calls = set_parameter value ∷ s.calls in
      if same_flag s.current value
      then (s, true)
      else if cell.set_finalize calls
      then (record s { calls = calls; current = some value }, true)
      else (record s { calls = calls }, false)

  -- GoalPipeline._poll
  unfoldable pub poll_once : Poll → Streaming F → Streaming F
  poll_once poll s = record s {
    in_flight = still_pending poll s.in_flight;
    failed = s.failed || any_failed poll s.in_flight;
  }

  abbrev pub waits : ℕ → Streaming F → Bool
  waits max_inflight s = leb max_inflight (length s.in_flight) && not s.failed

  -- the pacing loop of `submit`; false is its timeout
  unfoldable pub pace : ℕ → List Poll → Streaming F → Streaming F × Bool
  unfolding poll_once
  pace max_inflight [] s = (s, not (waits max_inflight s))
  pace max_inflight (p ∷ []) s = if waits max_inflight s then (poll_once p s, false) else (s, true)
  pace max_inflight (p ∷ q ∷ polls) s =
      let rest = pace max_inflight (q ∷ polls) (poll_once p s) in
      if waits max_inflight s then rest else (s, true)

  abbrev pub accept : ℕ → SentGoal F → Streaming F → Streaming F
  accept index goal s = record s {
    in_flight = s.in_flight ++ index ∷ [];
    sent = goal ∷ s.sent;
    calls = send_request goal ∷ s.calls;
  }

  -- `submit` after the pacing
  abbrev pub dispatch : Cell F → ℕ → SentGoal F → Streaming F × Bool → Streaming F × Bool
  dispatch cell index goal (s, false) = (s, false)
  dispatch cell index goal (s, true) =
      if s.failed
      then (s, false)
      else if cell.accepts (send_request goal ∷ s.calls)
      then (accept index goal s, true)
      else (record s { failed = true; calls = send_request goal ∷ s.calls }, false)

  -- GoalPipeline.submit
  unfoldable pub submit : Cell F → ℕ → SentGoal F → Streaming F → Streaming F × Bool
  unfolding pace
  submit cell index goal s =
      dispatch cell index goal (pace cell.max_inflight (cell.pacing s.calls) s)

  -- GoalPipeline.drain
  unfoldable pub drain : List Poll → Streaming F → Streaming F × Bool
  unfolding poll_once
  drain [] s = (s, is_empty s.in_flight && not s.failed)
  drain (p ∷ polls) s =
      let rest = drain polls (poll_once p s) in
      if is_empty s.in_flight then (s, not s.failed) else rest

module _ {F : Type 0} ⦃fl : Float F⦄ where
  abbrev largest : List F → F
  largest [] = lit 0 1
  largest (x ∷ []) = fl.abs x
  largest (x ∷ y ∷ xs) = max (fl.abs x) (largest (y ∷ xs))

  unfoldable pub seam_error : Joints F → Joints F → F
  unfolding max
  seam_error previous current = largest (zip_with (λ a b. b ⊖ a) previous current)

  abbrev pub with_end : List (Joints F) → Joints F → Option (PlannedGoal F)
  with_end positions end = some (record { positions = positions; end_joints = end })

  abbrev pub gated : Joints F → PlanReply F → Option (PlannedGoal F)
  gated start unplanned = none
  gated start (planned fraction []) = none
  gated start (planned fraction (p ∷ positions)) =
      if fraction <? lit 999 3
      then none
      else if lit 1 2 <? seam_error start p
      then none
      else last? (p ∷ positions) >>= with_end (p ∷ positions)

  -- GoalPlanner.plan_goal; `none` is a goal that failed to plan
  unfoldable pub plan_goal :
      Cell F → List (Waypoint F) → Joints F → Streaming F → Streaming F × Option (PlannedGoal F)
  unfolding seam_error
  plan_goal cell slice start s =
      let calls = plan_request slice start ∷ s.calls in
      (record s { calls = calls }, gated start (cell.plan calls))
