-- ===== src/Tests/Live.antt =====
-- The theorems on the live route, at the cell of the tests.
use rmp_ros2_control.Prelude.{
  ◌+◌, ◌≤◌, true, false, ◌≡◌, ◌⊎◌, refl, none, some, List, [], ◌∷◌, length, take, All,
}
use rmp_ros2_control.Prelude.Int.{ℤ, pos, negsuc}
use rmp_ros2_control.Float.{◌=?◌}
use rmp_ros2_control.Float.Fixed.{
  fixed, fixed_lit, fixed_dist, fixed_sub, fixed_add, fixed_mul, fixed_div, fixed_sqrt,
}
use rmp_ros2_control.FileManager.{effective_anchor}
use rmp_ros2_control.Float.{min, max}
use rmp_ros2_control.Linalg.{Command, rotate_in_plane, bound_verdicts, in_working_area}
use rmp_ros2_control.LiveStreamer.{
  Services, LiveStreamer, Output, new_streamer, tail, stop, deactivate, activate, plane_to_world,
  reached,
}
use rmp_ros2_control.LiveStreamer.Motion.{
  Op, sets_intent, releases, activates, sets_plane, moves, set_intent, release, walk_step, judge,
  begin_tick, publish, finish_tick, thread_step, apply, run,
}
use rmp_ros2_control.LiveStreamer.Guard.{SafeOutput, limits_of, run-Allowed}
use rmp_ros2_control.LiveStreamer.Queue.{run-bounds, release_lem}
use rmp_ros2_control.LiveStreamer.Silence.{poses, OneMore, stop-silences}
use rmp_ros2_control.Tests.{config, plane}

abbrev services : Services ℤ
services = record { has_control = true; answer = λ outputs s. true; stop_error = λ outputs. none }

-- a session: the pointer moves down to the board and on, is let go, and comes back once
abbrev hover : List (Op ℤ)
hover =
    activates
    ∷ sets_intent (pos 0, pos 0, pos 20_000)
    ∷ moves (pos 0)
    ∷ moves (pos 0)
    ∷ moves (pos 0)
    ∷ moves (pos 0)
    ∷ sets_intent (pos 40, pos 0, pos 20_000)
    ∷ sets_intent (pos 5000, pos 0, pos 20_000)
    ∷ sets_intent (pos 5000, pos 0, negsuc 4999)
    ∷ moves (pos 20_000)
    ∷ releases
    ∷ moves (pos 20_000)
    ∷ sets_plane plane
    ∷ []

abbrev hovering : LiveStreamer ℤ
hovering = record (new_streamer config (pos 20_000)) {
  active = true;
  at_rest = false;
  queue = (pos 5000, pos 0, negsuc 4999) ∷ [];
  last = some (pos 0, pos 0, pos 20_000);
}

-- the pose published first
first_pose :
    poses (run services (take 6 hover) (new_streamer config (pos 20_000))).outputs
    ≡ Output.pose (pos 0, pos 0, pos 20_000) (pos 350_000, pos 0, pos 220_000) ∷ []
unfolding run apply activate set_intent thread_step begin_tick walk_step judge publish finish_tick
    bound_verdicts in_working_area fixed_lit fixed_dist fixed_sub fixed_add fixed_mul fixed_div
    fixed_sqrt plane_to_world new_streamer effective_anchor rotate_in_plane min max
first_pose = refl

run-Allowed_example :
    All
      (SafeOutput (limits_of config (pos 20_000)))
      (run services hover (new_streamer config (pos 20_000))).outputs
run-Allowed_example = run-Allowed services config (pos 20_000) hover

run-bounds_example :
    length (run services hover (new_streamer config (pos 20_000))).queue
    ≤ config.live_queue_limit + 1
run-bounds_example =
    run-bounds services config (pos 20_000) hover refl
      (tt, (tt, (tt, (tt, (tt, (tt, (tt, (tt, (tt, (tt, (tt, (tt, (refl, tt)))))))))))))

release_lem_example :
    (last : Command ℤ) × (tail (release hovering) ≡ some last)
    × (last.0 ≡ pos 5000)
    × (last.1 ≡ pos 0)
    × (hovering.config.plane.safe_z =? last.2 ≡ true)
    × ((release hovering).releasing ≡ true)
    × (take 1 (release hovering).queue ≡ hovering.queue)
unfolding new_streamer
release_lem_example = release_lem hovering (pos 5000, pos 0, negsuc 4999) refl refl refl refl

-- the stop comes after the guard of a tick, and before its pose
abbrev caught_short : LiveStreamer ℤ
caught_short = record hovering { phase = reached (pos 5, pos 0, pos 20_000) }

abbrev afterwards : List (Op ℤ)
afterwards =
    moves (pos 1) ∷ sets_intent (pos 1000, pos 0, pos 20_000) ∷ moves (pos 1) ∷ moves (pos 2) ∷ []

-- one pose more is published
late_pose : OneMore [] (poses (run services afterwards (stop services caught_short)).outputs)
unfolding run apply set_intent thread_step begin_tick publish finish_tick stop deactivate
    plane_to_world new_streamer
late_pose = (refl, refl)

stop-silences_example :
    (poses (run services afterwards (stop services caught_short)).outputs
      ≡ poses caught_short.outputs)
    ⊎ (OneMore
          (poses caught_short.outputs)
          (poses (run services afterwards (stop services caught_short)).outputs)
        × (true ≡ true))
stop-silences_example =
    stop-silences services caught_short afterwards (refl, (refl, (refl, (refl, tt))))
