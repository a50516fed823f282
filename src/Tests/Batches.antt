-- ===== src/Tests/Batches.antt =====
-- The theorems on the batch thread, at a drawing, a park move and a stop.
use rmp_ros2_control.Prelude.{◌≡◌, refl, arith, true, none, some, List, [], ◌∷◌}
use rmp_ros2_control.Prelude.Int.{ℤ, pos, negsuc}
use rmp_ros2_control.Float.Fixed.{fixed}
use rmp_ros2_control.BatchExecutor.{
  Outside, Happening, new_executor, executes, parks, stops, resets, thread_steps, answered, history,
  run_streamed, sender_args, clear_latch, trigger, stop_trigger,
}
use rmp_ros2_control.BatchExecutor.Answers.Progress.{Settled, thread_run, history-Answered}
use rmp_ros2_control.BatchExecutor.Stops.{stopped_early, stop-Lost}
use rmp_ros2_control.Tests.Recipes.{doc, line_to}

abbrev outside : Outside ℤ
outside = record {
  reply = λ cs t. answered true;
  latch_service = λ cs. true;
  move_server = λ cs. true;
  ptp = λ cs. some true;
  sender = λ cs. none;
  seconds = pos 4_000_000;
  inflight = 2;
}

abbrev two_jobs : List (Happening ℤ)
two_jobs = executes doc ∷ parks (pos 0 ∷ []) (pos 1) (pos 1) ∷ thread_steps ∷ stops ∷ resets ∷ []

history-Answered_example :
    Settled 2 (history outside (thread_run 14) (history outside two_jobs new_executor))
history-Answered_example = history-Answered outside two_jobs 14 refl (omega arith)

-- the sender runs
abbrev running : List (Happening ℤ)
running = executes doc ∷ thread_steps ∷ thread_steps ∷ thread_steps ∷ thread_steps ∷ stops ∷ []

stop-Lost_example :
    (history outside (stopped_early doc) new_executor).calls
    ≡ run_streamed (
        sender_args outside doc (
          line_to (pos 10_000) (pos 0) (pos 20_000)
          ∷ line_to (pos 10_000) (pos 30_000) (negsuc 999)
          ∷ []))
      ∷ clear_latch
      ∷ trigger stop_trigger
      ∷ []
stop-Lost_example =
    stop-Lost outside doc (line_to (pos 10_000) (pos 0) (pos 20_000))
      (line_to (pos 10_000) (pos 30_000) (negsuc 999) ∷ []) true new_executor refl refl refl refl
      refl
