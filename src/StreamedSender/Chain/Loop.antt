-- ===== src/StreamedSender/Chain/Loop.antt =====
-- send_cartesian_path_streamed.py: `stream_goals`.
use rmp_ros2_control.Prelude.{
  ℕ, suc, Bool, true, false, Option, none, some, List, [], ◌∷◌, if◌then◌else◌,
}
use rmp_ros2_control.Float.{Float, lit}
use rmp_ros2_control.Recipe.Waypoints.{Waypoint}
use rmp_ros2_control.StreamedSender.Retiming.{Joints, MotionLimits, Retimed, retime_goal_window}
use rmp_ros2_control.StreamedSender.Chain.{
  Cell, Streaming, SentGoal, PlannedGoal, set_finalize, submit, drain, plan_goal,
}

-- How `stream_goals` ends: with exit code 0 or 1, or with an exception of the retiming.
pub data Exit : Type 0 where
  exit_ok exit_error exit_raised : Exit

abbrev pub exit_of : Bool → Exit
exit_of true = exit_ok
exit_of false = exit_error

module _ {F : Type 0} ⦃fl : Float F⦄ where
  abbrev positions_of : Option (PlannedGoal F) → Option (List (Joints F))
  positions_of none = none
  positions_of (some goal) = some goal.positions

  abbrev is_none : Option (PlannedGoal F) → Bool
  is_none none = true
  is_none (some goal) = false

  -- a retimed goal with the parameter that is set
  abbrev pub message : Option Bool → List (Joints F) → Retimed F → SentGoal F
  message current positions r = record {
    finalizes = current;
    times = r.times;
    positions = positions;
    velocities = r.velocities;
  }

  -- the parameter, then the goal
  abbrev pub submit_if :
      Cell F → ℕ → List (Joints F) → Retimed F → Streaming F × Bool → Streaming F × Bool
  submit_if cell index positions r (s, false) = (s, false)
  submit_if cell index positions r (s, true) = submit cell index (message s.current positions r) s

  unfoldable pub emit :
      Cell F → ℕ → List (Joints F) → Bool → Retimed F → Streaming F → Streaming F × Bool
  unfolding set_finalize submit
  emit cell index positions is_final r s =
      submit_if cell index positions r (set_finalize cell is_final s)

  -- after the final goal
  abbrev pub finish : Cell F → Streaming F × Bool → Streaming F × Exit
  finish cell (s, false) = (s, exit_error)
  finish cell (s, true) =
      let drained = drain (cell.draining s.calls) s in (drained.0, exit_of drained.1)

  abbrev pub send_final :
      Cell F → ℕ → List (Joints F) → Option (Retimed F) → Streaming F → Streaming F × Exit
  send_final cell index positions none s = (s, exit_raised)
  send_final cell index positions (some r) s = finish cell (emit cell index positions true r s)

  -- the round of a goal that is not the last one, then the others
  abbrev pub go_on :
      (Retimed F → Streaming F → Streaming F × Exit)
      → Retimed F
      → Streaming F × Bool
      → Streaming F × Exit
  go_on others r (s, false) = (s, exit_error)
  go_on others r (s, true) = others r s

  abbrev pub send_open :
      Cell F
      → ℕ
      → List (Joints F)
      → (Retimed F → Streaming F → Streaming F × Exit)
      → Option (Retimed F)
      → Streaming F
      → Streaming F × Exit
  send_open cell index positions others none s = (s, exit_raised)
  send_open cell index positions others (some r) s =
      go_on others r (emit cell index positions false r s)

  -- a goal and what was planned after it; a failed plan closes the chain
  abbrev pub chain_round :
      Cell F
      → MotionLimits F
      → ℕ
      → PlannedGoal F
      → F
      → Option (Joints F)
      → (PlannedGoal F → Retimed F → Streaming F → Streaming F × Exit)
      → Streaming F × Option (PlannedGoal F)
      → Streaming F × Exit
  chain_round cell limits index goal speed entry others (s, none) =
      send_final cell index goal.positions
        (retime_goal_window goal.positions none limits speed entry) s
  chain_round cell limits index goal speed entry others (s, some following) =
      send_open cell index goal.positions (others following)
        (retime_goal_window goal.positions (some following.positions) limits speed entry) s

  -- a broken pipeline plans nothing more
  abbrev pub plan_following :
      Cell F
      → PlannedGoal F
      → List (Waypoint F)
      → Streaming F
      → Streaming F × Option (PlannedGoal F)
  plan_following cell goal slice s =
      let asked = plan_goal cell slice goal.end_joints s in if s.failed then (s, none) else asked

  -- the loop of `stream_goals`
  unfoldable pub chain_from :
      Cell F
      → MotionLimits F
      → ℕ
      → PlannedGoal F
      → F
      → Option (Joints F)
      → List (List (Waypoint F))
      → Streaming F
      → Streaming F × Exit
  unfolding retime_goal_window emit drain plan_goal
  chain_from cell limits index goal speed entry [] s =
      chain_round cell limits index goal speed entry (λ f r s'. (s', exit_ok)) (s, none)
  chain_from cell limits index goal speed entry (slice ∷ slices) s =
      chain_round cell limits index goal speed entry
        (λ f r s'.
          chain_from cell limits (suc index) f r.seam_speed (some r.seam_velocity) slices s')
        (plan_following cell goal slice s)

  abbrev pub first_goal :
      Cell F
      → MotionLimits F
      → List (List (Waypoint F))
      → Streaming F × Option (PlannedGoal F)
      → Streaming F × Exit
  first_goal cell limits slices (s, none) = (s, exit_error)
  first_goal cell limits slices (s, some goal) =
      chain_from cell limits 0 goal (lit 0 1) none slices s

  unfoldable pub stream_goals :
      Cell F
      → MotionLimits F
      → List (List (Waypoint F))
      → Joints F
      → Streaming F
      → Streaming F × Exit
  unfolding chain_from plan_goal
  stream_goals cell limits [] start s = (s, exit_raised)
  stream_goals cell limits (slice ∷ slices) start s =
      first_goal cell limits slices (plan_goal cell slice start s)
