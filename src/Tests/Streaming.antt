-- ===== src/Tests/Streaming.antt =====
-- The theorems on the streamed sender, at a short drawing, a joint path and a chain of two goals.
use rmp_ros2_control.Prelude.{true, some, List, [], ◌∷◌, Holds, Yields}
use rmp_ros2_control.Prelude.Int.{ℤ, pos}
use rmp_ros2_control.Float.Fixed.{fixed}
use rmp_ros2_control.Recipe.Waypoints.{Waypoint, relative, over_defaults}
use rmp_ros2_control.StreamedSender.{Placement, prepare_split}
use rmp_ros2_control.StreamedSender.Slices.Cuts.{IsSplit, prepare_split-IsSplit}
use rmp_ros2_control.StreamedSender.Retiming.{Joints, MotionLimits, retime_goal_window}
use rmp_ros2_control.StreamedSender.Retiming.Window.{IsRetimed, retime_goal_window-IsRetimed}
use rmp_ros2_control.StreamedSender.Chain.{Cell, planned, new_streaming}
use rmp_ros2_control.StreamedSender.Chain.Loop.{stream_goals}
use rmp_ros2_control.StreamedSender.Chain.Closing.{Ended}
use rmp_ros2_control.StreamedSender.Chain.Ending.{stream_goals-Ended}
use rmp_ros2_control.Tests.Recipes.{doc, lines, own}

abbrev placement : Placement ℤ
placement = record {
  scale = pos 1_000_000;
  rotate = pos 0;
  plane_rotate = pos 0;
  goal_seconds = pos 200_000;
}

prepare_split-IsSplit_example :
    Holds IsSplit (prepare_split doc relative (over_defaults own) lines placement)
prepare_split-IsSplit_example =
    prepare_split-IsSplit doc relative (over_defaults own) lines placement

abbrev limits : MotionLimits ℤ
limits = record {
  velocity_limit = pos 157_000;
  path_accel = pos 300_000;
  corner_delta_v = pos 50_000;
}

abbrev joint_path : List (Joints ℤ)
joint_path = (pos 0 ∷ []) ∷ (pos 10_000 ∷ []) ∷ (pos 30_000 ∷ []) ∷ []

retime_goal_window-IsRetimed_example :
    Yields
      (IsRetimed joint_path (some (pos 1000 ∷ [])))
      (retime_goal_window joint_path (some joint_path) limits (pos 1000) (some (pos 1000 ∷ [])))
retime_goal_window-IsRetimed_example =
    retime_goal_window-IsRetimed (pos 0 ∷ []) (pos 10_000 ∷ []) ((pos 30_000 ∷ []) ∷ [])
      (some joint_path) limits (pos 1000) (some (pos 1000 ∷ []))

-- every plan and every goal succeeds
abbrev cell : Cell ℤ
cell = record {
  plan = λ cs. planned (pos 1_000_000) ((pos 0 ∷ []) ∷ (pos 5000 ∷ []) ∷ []);
  set_finalize = λ cs. true;
  accepts = λ cs. true;
  pacing = λ cs. (λ g. some true) ∷ [];
  draining = λ cs. (λ g. some true) ∷ [];
  max_inflight = 2;
}

abbrev at_height : ℤ → Waypoint ℤ
at_height z = ((pos 0, pos 0, z), (pos 1_000_000, pos 0, pos 0, pos 0))

abbrev two_slices : List (List (Waypoint ℤ))
two_slices =
    (at_height (pos 0) ∷ at_height (pos 1000) ∷ [])
    ∷ (at_height (pos 1000) ∷ at_height (pos 0) ∷ [])
    ∷ []

stream_goals-Ended_example :
    Ended 2 (stream_goals cell limits two_slices (pos 0 ∷ []) new_streaming)
stream_goals-Ended_example = stream_goals-Ended cell limits two_slices (pos 0 ∷ [])
