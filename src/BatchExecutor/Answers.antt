-- ===== src/BatchExecutor/Answers.antt =====
-- The jobs of the batch thread that are answered, in hand and queued.
pub mod Progress
use rmp_ros2_control.Prelude.{
  ℕ, zero, suc, ◌+◌, ◌-◌, ◌*◌, ◌≤◌, Bool, true, false, ◌≡◌, refl, Option, none, some, List, [], ◌∷◌,
  ◌++◌, Bool-cases, inl, inr, arith, if◌then◌else◌,
}
use rmp_ros2_control.Float.{Float}
use rmp_ros2_control.Recipe.{RecipeDoc, RecipeSegment}
use rmp_ros2_control.BatchExecutor.{
  Job, Trigger, Reply, Phase, BatchEvent, BatchExecutor, Outside, Happening, new_executor, execute,
  park, shutdown, triggered, call_trigger, stop, reset, send, start, take_item, in_phase,
  thread_step, happen, history, waiting, ended, sending, moving, taken, working, cleared, wound_up,
  finished, result, refused_reset, service_unavailable, service_silent, executes, parks, stops,
  resets, thread_steps, shuts_down, stop_trigger, reset_trigger, unavailable, no_response, answered,
  execute_job, park_job,
}

abbrev pub results : List BatchEvent → ℕ
results [] = 0
results (result ok message ∷ es) = suc (results es)
results (refused_reset ∷ es) = results es
results (service_unavailable t ∷ es) = results es
results (service_silent t ∷ es) = results es

module _ {F : Type 0} where
  abbrev pub jobs : List (Option (Job F)) → ℕ
  jobs [] = 0
  jobs (none ∷ work) = jobs work
  jobs (some job ∷ work) = suc (jobs work)

  abbrev pub sentinels : List (Option (Job F)) → ℕ
  sentinels [] = 0
  sentinels (none ∷ work) = suc (sentinels work)
  sentinels (some job ∷ work) = sentinels work

  abbrev pub in_hand : Phase F → ℕ
  in_hand waiting = 0
  in_hand ended = 0
  in_hand sending = 1
  in_hand moving = 1
  in_hand (taken job) = 1
  in_hand (working job) = 1
  in_hand (cleared job) = 1
  in_hand (wound_up ok message) = 1
  in_hand (finished ok message) = 1

  abbrev pub at_end : Phase F → ℕ
  at_end ended = 1
  at_end waiting = 0
  at_end sending = 0
  at_end moving = 0
  at_end (taken job) = 0
  at_end (working job) = 0
  at_end (cleared job) = 0
  at_end (wound_up ok message) = 0
  at_end (finished ok message) = 0

  -- the phases between `busy.set` and `busy.clear`
  abbrev pub is_busy : Phase F → Bool
  is_busy waiting = false
  is_busy ended = false
  is_busy sending = true
  is_busy moving = true
  is_busy (taken job) = false
  is_busy (working job) = true
  is_busy (cleared job) = true
  is_busy (wound_up ok message) = true
  is_busy (finished ok message) = false

  -- the steps to the end of the job in hand
  abbrev pub left : Phase F → ℕ
  left waiting = 0
  left ended = 0
  left (taken job) = 6
  left (working job) = 5
  left (cleared job) = 4
  left sending = 3
  left moving = 3
  left (wound_up ok message) = 2
  left (finished ok message) = 1

  abbrev pub submitted : List (Happening F) → ℕ
  submitted [] = 0
  submitted (executes structure ∷ hs) = suc (submitted hs)
  submitted (parks r v a ∷ hs) = suc (submitted hs)
  submitted (stops ∷ hs) = submitted hs
  submitted (resets ∷ hs) = submitted hs
  submitted (thread_steps ∷ hs) = submitted hs
  submitted (shuts_down ∷ hs) = submitted hs

  abbrev pub shutdowns : List (Happening F) → ℕ
  shutdowns [] = 0
  shutdowns (executes structure ∷ hs) = shutdowns hs
  shutdowns (parks r v a ∷ hs) = shutdowns hs
  shutdowns (stops ∷ hs) = shutdowns hs
  shutdowns (resets ∷ hs) = shutdowns hs
  shutdowns (thread_steps ∷ hs) = shutdowns hs
  shutdowns (shuts_down ∷ hs) = suc (shutdowns hs)

  -- the jobs that are answered, in hand and queued, and the flag
  pub record Accounts (n m : ℕ) (b : BatchExecutor F) : Type 0 where
    pub all_answered : results b.events + in_hand b.phase + jobs b.work ≡ n
    pub sentinel : sentinels b.work + at_end b.phase ≡ m
    pub busy_flag : b.busy ≡ is_busy b.phase

  jobs-append :
      (work : List (Option (Job F))) (job : Job F) → jobs (work ++ some job ∷ []) ≡ suc (jobs work)
  jobs-append [] job = refl
  jobs-append (none ∷ work) job = jobs-append work job
  jobs-append (some j ∷ work) job = omega (arith, jobs-append work job)

  jobs-append_none : (work : List (Option (Job F))) → jobs (work ++ none ∷ []) ≡ jobs work
  jobs-append_none [] = refl
  jobs-append_none (none ∷ work) = jobs-append_none work
  jobs-append_none (some j ∷ work) = omega (arith, jobs-append_none work)

  sentinels-append :
      (work : List (Option (Job F))) (job : Job F)
      → sentinels (work ++ some job ∷ []) ≡ sentinels work
  sentinels-append [] job = refl
  sentinels-append (none ∷ work) job = omega (arith, sentinels-append work job)
  sentinels-append (some j ∷ work) job = sentinels-append work job

  sentinels-append_none :
      (work : List (Option (Job F))) → sentinels (work ++ none ∷ []) ≡ suc (sentinels work)
  sentinels-append_none [] = refl
  sentinels-append_none (none ∷ work) = omega (arith, sentinels-append_none work)
  sentinels-append_none (some j ∷ work) = sentinels-append_none work

  triggered-Accounts :
      (n m : ℕ) (t : Trigger) (r : Reply) (b : BatchExecutor F)
      → Accounts n m b
      → Accounts n m (triggered t r b).0
  triggered-Accounts n m t unavailable b v = ground arith
  triggered-Accounts n m t no_response b v = ground arith
  triggered-Accounts n m stop_trigger (answered ok) b v = ground arith
  triggered-Accounts n m reset_trigger (answered ok) b v = ground arith

  reset-Accounts :
      (n m : ℕ) (o : Outside F) (b : BatchExecutor F) → Accounts n m b → Accounts n m (reset o b).0
  unfolding reset call_trigger
  reset-Accounts n m o b v =
      ground (arith, triggered-Accounts n m reset_trigger (o.reply b.calls reset_trigger) b v)

module _ {F : Type 0} ⦃fl : Float F⦄ where
  take_item-Accounts :
      (n m : ℕ) (work : List (Option (Job F))) (b : BatchExecutor F)
      → b.phase ≡ waiting
      → b.work ≡ work
      → Accounts n m b
      → Accounts n m (take_item work b)
  take_item-Accounts n m [] b e q v = v
  take_item-Accounts n m (none ∷ work) b e q v = ground arith
  take_item-Accounts n m (some job ∷ work) b e q v = ground arith

  pub send-Accounts :
      (n m : ℕ) (o : Outside F) (doc : RecipeDoc F) (segments : List (RecipeSegment F))
      (b : BatchExecutor F)
      → is_busy b.phase ≡ true
      → in_hand b.phase ≡ 1
      → at_end b.phase ≡ 0
      → Accounts n m b
      → Accounts n m (send o doc segments b)
  send-Accounts n m o doc [] b e i a v = ground arith
  send-Accounts n m o doc (s ∷ segments) b e i a v = ground arith

  start-Accounts :
      (n m : ℕ) (o : Outside F) (job : Job F) (b : BatchExecutor F)
      → is_busy b.phase ≡ true
      → in_hand b.phase ≡ 1
      → at_end b.phase ≡ 0
      → Accounts n m b
      → Accounts n m (start o job b)
  start-Accounts n m o (execute_job doc) b e i a v = send-Accounts n m o doc doc.segments b e i a v
  start-Accounts n m o (park_job r s t) b e i a v = ground arith

  pub in_phase-Accounts :
      (n m : ℕ) (o : Outside F) (phase : Phase F) (b : BatchExecutor F)
      → b.phase ≡ phase
      → Accounts n m b
      → Accounts n m (in_phase o phase b)
  in_phase-Accounts n m o waiting b e v = take_item-Accounts n m b.work b e refl v
  in_phase-Accounts n m o ended b e v = v
  in_phase-Accounts n m o (taken job) b e v = ground arith
  in_phase-Accounts n m o (working job) b e v = ground arith
  in_phase-Accounts n m o (cleared job) b e v =
      start-Accounts n m o job b (ground arith) (ground arith) (ground arith) v
  in_phase-Accounts n m o sending b e v = ground arith
  in_phase-Accounts n m o moving b e v = ground arith
  in_phase-Accounts n m o (wound_up ok message) b e v = ground arith
  in_phase-Accounts n m o (finished ok message) b e v = ground arith

  pub history-Accounts :
      (n m : ℕ) (o : Outside F) (hs : List (Happening F)) (b : BatchExecutor F)
      → Accounts n m b
      → Accounts (submitted hs + n) (shutdowns hs + m) (history o hs b)
  unfolding history happen execute park stop shutdown thread_step call_trigger
  history-Accounts n m o [] b v = ground arith
  history-Accounts n m o (executes doc ∷ hs) b v = ground (
    arith,
    history-Accounts (suc n) m o hs (execute doc b) (
        ground
          (arith, jobs-append b.work (execute_job doc), sentinels-append b.work (execute_job doc))),
  )
  history-Accounts n m o (parks r s t ∷ hs) b v = ground (
    arith,
    history-Accounts (suc n) m o hs (park r s t b) (
        ground
          (arith, jobs-append b.work (park_job r s t), sentinels-append b.work (park_job r s t))),
  )
  history-Accounts n m o (stops ∷ hs) b v =
      history-Accounts n m o hs (stop o b)
        (triggered-Accounts n m stop_trigger (o.reply b.calls stop_trigger) b v)
  history-Accounts n m o (resets ∷ hs) b v =
      history-Accounts n m o hs (reset o b).0 (reset-Accounts n m o b v)
  history-Accounts n m o (thread_steps ∷ hs) b v =
      history-Accounts n m o hs (thread_step o b) (in_phase-Accounts n m o b.phase b refl v)
  history-Accounts n m o (shuts_down ∷ hs) b v = ground (
    arith,
    history-Accounts n (suc m) o hs (shutdown b)
        (ground (arith, jobs-append_none b.work, sentinels-append_none b.work)),
  )
