-- ===== src/BatchExecutor/Stops.antt =====
-- What a stop is worth against the batch thread.
use rmp_ros2_control.Prelude.{ℕ, suc, Bool, true, false, ◌≡◌, List, [], ◌∷◌, arith}
use rmp_ros2_control.Float.{Float}
use rmp_ros2_control.Recipe.{RecipeDoc, RecipeSegment}
use rmp_ros2_control.BatchExecutor.{
  Phase, BatchCall, BatchExecutor, Outside, Happening, execute, call_trigger, stop, thread_step,
  happen, history, sender_args, waiting, ended, sending, moving, taken, working, cleared, wound_up,
  finished, trigger, clear_latch, run_streamed, ptp_to_joints, executes, stops, thread_steps,
  stop_trigger, reset_trigger, answered,
}

module _ {F : Type 0} where
  -- the calls that clear the latch
  abbrev pub clearings : List (BatchCall F) → ℕ
  clearings [] = 0
  clearings (trigger stop_trigger ∷ cs) = clearings cs
  clearings (trigger reset_trigger ∷ cs) = suc (clearings cs)
  clearings (clear_latch ∷ cs) = suc (clearings cs)
  clearings (run_streamed args ∷ cs) = clearings cs
  clearings (ptp_to_joints r v a ∷ cs) = clearings cs

  -- from the clearing of the latch to the end of the item
  abbrev pub past_latch : Phase F → Bool
  past_latch waiting = false
  past_latch ended = false
  past_latch (taken job) = false
  past_latch (working job) = false
  past_latch (cleared job) = true
  past_latch sending = true
  past_latch moving = true
  past_latch (wound_up ok message) = true
  past_latch (finished ok message) = false

module _ {F : Type 0} ⦃fl : Float F⦄ where
  -- a stop before the thread takes the drawing up, then the thread up to the call of the sender
  abbrev pub stopped_early : RecipeDoc F → List (Happening F)
  stopped_early doc =
      executes doc ∷ stops ∷ thread_steps ∷ thread_steps ∷ thread_steps ∷ thread_steps ∷ []

  -- A stop that is answered between `execute` and the moment when the batch thread takes the
  -- drawing up, from a state where the thread waits with nothing queued: the thread then clears the latch that the stop
  -- set and calls the sender, where the structure has segments and the reset service is there.
  pub stop-Lost :
      (o : Outside F) (doc : RecipeDoc F) (s : RecipeSegment F) (segments : List (RecipeSegment F))
      (ok : Bool) (b : BatchExecutor F)
      → b.phase ≡ waiting
      → b.work ≡ []
      → o.reply b.calls stop_trigger ≡ answered ok
      → o.latch_service (trigger stop_trigger ∷ b.calls) ≡ true
      → doc.segments ≡ s ∷ segments
      → (history o (stopped_early doc) b).calls
        ≡ run_streamed (sender_args o doc (s ∷ segments))
          ∷ clear_latch
          ∷ trigger stop_trigger
          ∷ b.calls
  unfolding history happen execute stop call_trigger thread_step
  stop-Lost o doc s segments ok b p w r l e = ground arith
