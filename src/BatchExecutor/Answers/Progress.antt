-- ===== src/BatchExecutor/Answers/Progress.antt =====
-- The batch thread comes to the end of its queue.
use rmp_ros2_control.Prelude.{
  ℕ, zero, suc, ◌+◌, ◌-◌, ◌*◌, ◌≤◌, false, ◌≡◌, refl, Option, none, some, List, [], ◌∷◌, arith,
}
use rmp_ros2_control.Float.{Float}
use rmp_ros2_control.Recipe.{RecipeDoc, RecipeSegment}
use rmp_ros2_control.BatchExecutor.{
  Job, Phase, BatchExecutor, Outside, Happening, new_executor, send, start, take_item, in_phase,
  thread_step, happen, history, waiting, ended, sending, moving, taken, working, cleared, wound_up,
  finished, thread_steps, execute_job, park_job,
}
use rmp_ros2_control.BatchExecutor.Answers.{
  results, jobs, sentinels, in_hand, at_end, left, submitted, shutdowns, Accounts,
  in_phase-Accounts, history-Accounts,
}

module _ {F : Type 0} ⦃fl : Float F⦄ where
  -- the steps that the thread has before it, at most
  abbrev pub steps_left : BatchExecutor F → ℕ
  steps_left b = left b.phase + 7 * jobs b.work

  take_item-steps_left :
      (work : List (Option (Job F))) (b : BatchExecutor F)
      → sentinels work ≡ 0
      → left b.phase ≡ 0
      → b.work ≡ work
      → steps_left (take_item work b) ≤ 7 * jobs work - 1
  take_item-steps_left [] b z l e = ground arith
  take_item-steps_left (none ∷ work) b z l e = absurd (omega (arith, z))
  take_item-steps_left (some job ∷ work) b z l e = ground arith

  send-steps_left :
      (o : Outside F) (doc : RecipeDoc F) (segments : List (RecipeSegment F)) (b : BatchExecutor F)
      → steps_left (send o doc segments b) ≤ 3 + 7 * jobs b.work
  send-steps_left o doc [] b = ground arith
  send-steps_left o doc (s ∷ segments) b = ground arith

  start-steps_left :
      (o : Outside F) (job : Job F) (b : BatchExecutor F)
      → steps_left (start o job b) ≤ 3 + 7 * jobs b.work
  start-steps_left o (execute_job doc) b = send-steps_left o doc doc.segments b
  start-steps_left o (park_job r s t) b = ground arith

  in_phase-steps_left :
      (o : Outside F) (phase : Phase F) (b : BatchExecutor F)
      → b.phase ≡ phase
      → sentinels b.work + at_end b.phase ≡ 0
      → steps_left (in_phase o phase b) ≤ steps_left b - 1
  in_phase-steps_left o waiting b e z =
      ground (arith, take_item-steps_left b.work b (omega (arith, z)) (ground arith) refl)
  in_phase-steps_left o ended b e z = absurd (ground arith)
  in_phase-steps_left o (taken job) b e z = ground arith
  in_phase-steps_left o (working job) b e z = ground arith
  in_phase-steps_left o (cleared job) b e z = ground (arith, start-steps_left o job b)
  in_phase-steps_left o sending b e z = ground arith
  in_phase-steps_left o moving b e z = ground arith
  in_phase-steps_left o (wound_up ok message) b e z = ground arith
  in_phase-steps_left o (finished ok message) b e z = ground arith

  abbrev pub thread_run : ℕ → List (Happening F)
  thread_run zero = []
  thread_run (suc k) = thread_steps ∷ thread_run k

  drained :
      (n k : ℕ) (o : Outside F) (b : BatchExecutor F)
      → Accounts n 0 b
      → steps_left b ≤ k
      → Accounts n 0 (history o (thread_run k) b) × (steps_left (history o (thread_run k) b) ≡ 0)
  unfolding history happen thread_step
  drained n zero o b v h = (v, omega (arith, h))
  drained n (suc k) o b v h =
      drained n k o (thread_step o b) (in_phase-Accounts n 0 o b.phase b refl v)
        (omega (arith, h, in_phase-steps_left o b.phase b refl v.sentinel))

  phase_bound : (phase : Phase F) → left phase ≤ 7 * in_hand phase
  phase_bound waiting = omega arith
  phase_bound ended = omega arith
  phase_bound sending = omega arith
  phase_bound moving = omega arith
  phase_bound (taken job) = omega arith
  phase_bound (working job) = omega arith
  phase_bound (cleared job) = omega arith
  phase_bound (wound_up ok message) = omega arith
  phase_bound (finished ok message) = omega arith

  at_rest : (phase : Phase F) → left phase ≡ 0 → at_end phase ≡ 0 → phase ≡ waiting
  at_rest waiting l z = refl
  at_rest ended l z = absurd (omega (arith, z))
  at_rest sending l z = absurd (omega (arith, l))
  at_rest moving l z = absurd (omega (arith, l))
  at_rest (taken job) l z = absurd (omega (arith, l))
  at_rest (working job) l z = absurd (omega (arith, l))
  at_rest (cleared job) l z = absurd (omega (arith, l))
  at_rest (wound_up ok message) l z = absurd (omega (arith, l))
  at_rest (finished ok message) l z = absurd (omega (arith, l))

  -- n results, and the thread waits and is not busy
  abbrev pub Settled : ℕ → BatchExecutor F → Type 0
  Settled n b = (results b.events ≡ n) × (b.phase ≡ waiting) × (b.busy ≡ false)

  answered_all : (n : ℕ) (b : BatchExecutor F) → Accounts n 0 b → steps_left b ≡ 0 → Settled n b
  answered_all n b v p =
      let rest : b.phase ≡ waiting =
        at_rest b.phase (omega (arith, p)) (omega (arith, v.sentinel)) in
      ground arith

  -- After any calls and steps from the start without a shutdown, whatever the sender, the planner
  -- and the services answer or raise: once the batch thread has made seven steps for each drawing and
  -- park move that was submitted, there is exactly one result event for each of them, and the thread
  -- waits and is not busy.
  pub history-Answered :
      (o : Outside F) (hs : List (Happening F)) (k : ℕ)
      → shutdowns hs ≡ 0
      → 7 * submitted hs ≤ k
      → Settled (submitted hs) (history o (thread_run k) (history o hs new_executor))
  history-Answered o hs k z h =
      let middle = history o hs new_executor in
      let v : Accounts (submitted hs) 0 middle = ground (
        arith,
        history-Accounts 0 0 o hs new_executor
            (record { all_answered = refl; sentinel = refl; busy_flag = refl }),
      ) in
      let (w, p) =
        drained (submitted hs) k o middle v
          (omega (arith, h, v.all_answered, phase_bound middle.phase)) in
      answered_all (submitted hs) (history o (thread_run k) middle) w p
