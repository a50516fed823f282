-- ===== src/Tests/Strokes.antt =====
-- The theorems on the drawing route, at a short stroke; the joints of the tests are numbers.
use rmp_ros2_control.Prelude.{ℕ, suc, true, false, ◌≡◌, refl, arith, ◌⊎◌, none, some, List, [], ◌∷◌}
use rmp_ros2_control.Prelude.Int.{ℤ, pos, negsuc}
use rmp_ros2_control.Float.Fixed.{
  fixed, fixed_lit, fixed_dist, fixed_sub, fixed_add, fixed_mul, fixed_div,
}
use rmp_ros2_control.Float.{max}
use rmp_ros2_control.StrokeStreamer.{
  StrokeIntake, new_intake, add_point, end_stroke, push_bounded, take_window, cut_window,
}
use rmp_ros2_control.StrokeStreamer.Chain.{
  Planned, found, accepted, replied, unavailable, StrokeServices, StrokeStreamer,
  new_stroke_streamer, submit, close_chain, request_handback, stroke_add,
}
use rmp_ros2_control.StrokeStreamer.Session.{
  Moment, adds, hands_back, act, act_all, run_chain, chain_loop, chain_round,
}
use rmp_ros2_control.StrokeStreamer.Thread.{
  Visit, Readiness, session_loop, run_session, thread_pass, handle_exception, Settled,
  thread_pass-Settled,
}
use rmp_ros2_control.StrokeStreamer.Windows.{
  TakesNothing, TakesFront, take_window_lem, chain_loop-drains,
}
use rmp_ros2_control.Tests.{plane}

abbrev services : StrokeServices ℤ ℕ
services = record {
  read_joints = λ os. some 0;
  plan_goal =
      λ os window joints. found (record { positions = joints ∷ []; end_joints = suc joints });
  submitted = λ os. accepted (pos 1_000_000);
  drain = λ os. true;
  reset_service = λ os. replied true;
  stop_service = λ os. unavailable;
}

abbrev short_stroke : StrokeIntake ℤ
short_stroke = record (new_intake plane (pos 2000) 100) {
  points = (pos 0, pos 0, pos 20_000) ∷ (pos 0, pos 0, negsuc 4999) ∷ [];
  tail = some (pos 0, pos 0, negsuc 4999);
  stroke_open = true;
}

abbrev route_open : StrokeStreamer ℤ ℕ
route_open = record (new_stroke_streamer plane (pos 2000) 100) { intake = short_stroke }

abbrev moments : List (Moment ℤ)
moments =
    record {
      acts = adds (pos 5000, pos 0) ∷ hands_back ∷ [];
      now = pos 0;
      while_planning = [];
      sent_at = pos 10;
    }
    ∷ record { acts = []; now = pos 20; while_planning = []; sent_at = pos 30 }
    ∷ []

abbrev ready : Readiness
ready = record { available = true; settled = false }

-- a chain that comes to rest, and a round that hands the arm back
abbrev visits : List (Visit ℤ)
visits =
    record { before = []; moments = moments; planned_at = pos 0 }
    ∷ record { before = []; moments = []; planned_at = pos 0 }
    ∷ []

abbrev route_asked : StrokeStreamer ℤ ℕ
route_asked = record route_open { session_requested = true }

pass_finished : (thread_pass services ready visits (pos 5) route_asked).1 ≡ true
unfolding thread_pass handle_exception run_session session_loop run_chain chain_loop chain_round act
    act_all take_window cut_window submit close_chain add_point end_stroke push_bounded
    request_handback stroke_add new_stroke_streamer new_intake fixed_lit fixed_dist fixed_sub
    fixed_add fixed_mul fixed_div max
pass_finished = refl

thread_pass-Settled_example : Settled (thread_pass services ready visits (pos 5) route_asked).0
unfolding new_stroke_streamer
thread_pass-Settled_example =
    thread_pass-Settled services ready visits (pos 5) route_asked refl refl pass_finished

take_window_lem_example :
    TakesNothing true short_stroke (take_window (pos 2_000_000) (pos 12_500) true short_stroke)
    ⊎ TakesFront short_stroke (take_window (pos 2_000_000) (pos 12_500) true short_stroke)
take_window_lem_example = take_window_lem (pos 2_000_000) (pos 12_500) true short_stroke

abbrev handed_back : StrokeStreamer ℤ ℕ
handed_back = record route_open {
  intake = record short_stroke { stroke_open = false };
  handback = true;
}

abbrev quiet : Moment ℤ
quiet = record { acts = []; now = pos 0; while_planning = []; sent_at = pos 10 }

abbrev first : Planned ℕ
first = record { positions = 0 ∷ []; end_joints = 1 }

chain_loop-drains_example :
    (chain_loop services (quiet ∷ quiet ∷ quiet ∷ []) first 0 none handed_back).1 ≡ true
unfolding new_stroke_streamer new_intake
chain_loop-drains_example =
    chain_loop-drains services (quiet ∷ quiet ∷ quiet ∷ []) first 0 none 2 handed_back (omega arith)
      ((refl, refl), ((refl, refl), ((refl, refl), tt)))
      (record { asked = refl; lifted = refl; few = omega arith })
