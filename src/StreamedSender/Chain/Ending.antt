-- ===== src/StreamedSender/Chain/Ending.antt =====
-- A chain of goals that ends without an error is closed.
use rmp_ros2_control.Prelude.{
  ℕ, suc, ◌≤◌, refl, inl, inr, Bool, true, false, Option, none, some, List, [], ◌∷◌, length, last?,
  arith, Bool-cases, if◌then◌else◌, ◌>>=◌,
}
use rmp_ros2_control.Float.{Float, lit, ◌<?◌}
use rmp_ros2_control.Recipe.Waypoints.{Waypoint}
use rmp_ros2_control.StreamedSender.Retiming.{Joints, MotionLimits, Retimed, retime_goal_window}
use rmp_ros2_control.StreamedSender.Chain.{
  Cell, Streaming, PlannedGoal, PlanReply, gated, plan_goal, new_streaming, planned, unplanned,
  with_end, seam_error,
}
use rmp_ros2_control.StreamedSender.Chain.Loop.{
  Exit, chain_round, plan_following, chain_from, first_goal, stream_goals,
}
use rmp_ros2_control.StreamedSender.Chain.Closing.{
  Ended, Ready, retime-Linked, send_final-Ended, send_open-Ended,
}

module _ {F : Type 0} ⦃fl : Float F⦄ where
  -- what was planned, if it was, is a path with a point
  HasPoints : Option (PlannedGoal F) → Type 0
  HasPoints none = Unit
  HasPoints (some goal) = 1 ≤ length goal.positions

  with_end-HasPoints :
      (positions : List (Joints F)) (end : Option (Joints F))
      → 1 ≤ length positions
      → HasPoints (end >>= with_end positions)
  unfolding HasPoints
  with_end-HasPoints positions none h = tt
  with_end-HasPoints positions (some e) h = h

  gated-HasPoints : (start : Joints F) (reply : PlanReply F) → HasPoints (gated start reply)
  unfolding HasPoints
  gated-HasPoints start unplanned = tt
  gated-HasPoints start (planned fraction []) = tt
  gated-HasPoints start (planned fraction (p ∷ positions)) =
      elim (Bool-cases (fraction <? lit 999 3)) [
        | inl t ↦ rw t tt
        | inr t ↦ elim (Bool-cases (lit 1 2 <? seam_error start p)) [
          | inl u ↦ rw (t, u) tt
          | inr u ↦
              rw (t, u) (with_end-HasPoints (p ∷ positions) (last? (p ∷ positions)) (omega arith))
        ]
      ]

  -- the state and the goal after planning
  Planned : Cell F → Option (Joints F) → Streaming F × Option (PlannedGoal F) → Type 0
  Planned cell entry (s, goal) = Ready cell entry s × HasPoints goal

  plan_goal-Planned :
      (cell : Cell F) (entry : Option (Joints F)) (slice : List (Waypoint F)) (start : Joints F)
      (s : Streaming F)
      → Ready cell entry s
      → Planned cell entry (plan_goal cell slice start s)
  unfolding Planned plan_goal
  plan_goal-Planned cell entry slice start s v = (
    record { unbroken = v.unbroken; continues = v.continues; bounded = v.bounded },
    gated-HasPoints start _,
  )

  plan_following-Planned :
      (cell : Cell F) (entry : Option (Joints F)) (goal : PlannedGoal F) (slice : List (Waypoint F))
      (s : Streaming F)
      → Ready cell entry s
      → Planned cell entry (plan_following cell goal slice s)
  unfolding Planned HasPoints
  plan_following-Planned cell entry goal slice s v =
      either_way s.failed _ _ (v, tt) (plan_goal-Planned cell entry slice goal.end_joints s v)
    where
      either_way :
          (failed : Bool) (a b : Streaming F × Option (PlannedGoal F))
          → Planned cell entry a
          → Planned cell entry b
          → Planned cell entry (if failed then a else b)
      either_way true a b h k = h
      either_way false a b h k = k

  chain_round-Ended :
      (cell : Cell F) (limits : MotionLimits F) (index : ℕ) (goal : PlannedGoal F) (speed : F)
      (entry : Option (Joints F))
      (others : PlannedGoal F → Retimed F → Streaming F → Streaming F × Exit)
      (tried : Streaming F × Option (PlannedGoal F))
      → 1 ≤ length goal.positions
      → Planned cell entry tried
      → ((f : PlannedGoal F) (r : Retimed F) (s' : Streaming F)
          → 1 ≤ length f.positions
          → Ready cell (some r.seam_velocity) s'
          → Ended cell.max_inflight (others f r s'))
      → Ended cell.max_inflight (chain_round cell limits index goal speed entry others tried)
  unfolding Planned HasPoints
  chain_round-Ended cell limits index goal speed entry others (s, none) h v k =
      send_final-Ended cell index goal.positions entry
        (retime_goal_window goal.positions none limits speed entry) s v.0
        (retime-Linked goal.positions none limits speed entry h)
  chain_round-Ended cell limits index goal speed entry others (s, some f) h v k =
      send_open-Ended cell index goal.positions entry (others f)
        (retime_goal_window goal.positions (some f.positions) limits speed entry) s v.0
        (retime-Linked goal.positions (some f.positions) limits speed entry h)
        (λ r s' w. k f r s' v.1 w)

  chain_from-Ended :
      (cell : Cell F) (limits : MotionLimits F) (index : ℕ) (goal : PlannedGoal F) (speed : F)
      (entry : Option (Joints F)) (slices : List (List (Waypoint F))) (s : Streaming F)
      → 1 ≤ length goal.positions
      → Ready cell entry s
      → Ended cell.max_inflight (chain_from cell limits index goal speed entry slices s)
  unfolding chain_from Planned HasPoints
  chain_from-Ended cell limits index goal speed entry [] s h v =
      send_final-Ended cell index goal.positions entry
        (retime_goal_window goal.positions none limits speed entry) s v
        (retime-Linked goal.positions none limits speed entry h)
  chain_from-Ended cell limits index goal speed entry (slice ∷ slices) s h v =
      chain_round-Ended cell limits index goal speed entry
        (λ f r s'.
          chain_from cell limits (suc index) f r.seam_speed (some r.seam_velocity) slices s')
        (plan_following cell goal slice s) h (plan_following-Planned cell entry goal slice s v)
        (λ f r s' g w.
          chain_from-Ended cell limits (suc index) f r.seam_speed (some r.seam_velocity) slices s' g
            w)

  first_goal-Ended :
      (cell : Cell F) (limits : MotionLimits F) (slices : List (List (Waypoint F)))
      (tried : Streaming F × Option (PlannedGoal F))
      → Planned cell none tried
      → Ended cell.max_inflight (first_goal cell limits slices tried)
  unfolding Planned HasPoints
  first_goal-Ended cell limits slices (s, none) v = (inl v.0.unbroken, v.0.bounded)
  first_goal-Ended cell limits slices (s, some goal) v =
      chain_from-Ended cell limits 0 goal (lit 0 1) none slices s v.1 v.0

  -- For any goals, planner and controller, from a new pipeline: each accepted goal starts at the
  -- velocity with which the one before it ends, and no goal but the last finalizes the move of the
  -- firmware; where the exit code is 0 the last accepted goal does finalize it; and no more goals
  -- are in flight than the limit, however the chain ends.
  pub stream_goals-Ended :
      (cell : Cell F) (limits : MotionLimits F) (slices : List (List (Waypoint F)))
      (start : Joints F)
      → Ended cell.max_inflight (stream_goals cell limits slices start new_streaming)
  unfolding stream_goals
  stream_goals-Ended cell limits [] start = (tt, omega arith)
  stream_goals-Ended cell limits (slice ∷ slices) start =
      first_goal-Ended cell limits slices (plan_goal cell slice start new_streaming) (
        plan_goal-Planned cell none slice start new_streaming
          (record { unbroken = tt; continues = refl; bounded = omega arith }))
