-- ===== src/LiveStreamer/Silence.antt =====
-- The poses that the live route publishes, and the runs that start no session.
use rmp_ros2_control.Prelude.{
  Bool, true, false, ◌≡◌, refl, ◌⊎◌, List, [], ◌∷◌, arith, if◌then◌else◌, All,
}
use rmp_ros2_control.Float.{Float, ◌⊖◌}
use rmp_ros2_control.Linalg.{Command}
use rmp_ros2_control.LiveStreamer.{
  Output, Services, LiveStreamer, Phase, between_ticks, walking, reached, published, stop, rest,
  set_plane, deactivate, reset,
}
use rmp_ros2_control.LiveStreamer.Motion.{
  set_intent, release, norm_to, judge, pop_next, walk_step, begin_tick, publish, finish_tick,
  thread_step, Op, sets_intent, releases, rests, stops, activates, deactivates, resets, sets_plane,
  moves, apply, run,
}

abbrev pub is_pose : {F : Type 0} → Output F → Bool
is_pose (Output.pose command world) = true
is_pose o = false

abbrev pub poses : {F : Type 0} → List (Output F) → List (Output F)
poses [] = []
poses (o ∷ os) = let later = poses os in if is_pose o then o ∷ later else later

-- everything but the start of a session
abbrev pub is_activation : {F : Type 0} → Op F → Bool
is_activation activates = true
is_activation op = false

-- a tick that has still to publish its pose
abbrev pub is_under_way : {F : Type 0} → Phase F → Bool
is_under_way between_ticks = false
is_under_way (walking target last command budget) = true
is_under_way (reached command) = true
is_under_way (published command) = false

-- the same poses, or one more
abbrev pub OneMore : {F : Type 0} → List (Output F) → List (Output F) → Type 0
OneMore ps [] = ⊥
OneMore ps (o ∷ os) = (is_pose o ≡ true) × (os ≡ ps)

module _ {F : Type 0} ⦃fl : Float F⦄ (services : Services F) (waits : Bool)
    (ps : List (Output F)) where
  -- No session, and `ps` published so far; where a tick was under way, one pose more or a tick that
  -- may still publish it.
  record Silent (s : LiveStreamer F) : Type 0 where
    off : s.active ≡ false
    said :
        ((poses s.outputs ≡ ps) × ((is_under_way s.phase ≡ false) ⊎ (waits ≡ true)))
        ⊎ (OneMore ps (poses s.outputs) × (is_under_way s.phase ≡ false) × (waits ≡ true))

  pop_next-Silent :
      (target last : Command F) (budget : F) (queue : List (Command F)) (s : LiveStreamer F)
      → is_under_way s.phase ≡ true
      → Silent s
      → Silent (pop_next services target last budget queue s)
  unfolding judge stop deactivate
  pop_next-Silent target last budget [] s u v = ground arith
  pop_next-Silent target last budget (next ∷ queue) s u v = ground arith

  walk_step-Silent :
      (target last command : Command F) (budget : F) (s : LiveStreamer F)
      → is_under_way s.phase ≡ true
      → Silent s
      → Silent (walk_step services target last command budget s)
  unfolding walk_step judge stop deactivate
  walk_step-Silent target last command budget s u v =
      ground (arith, pop_next-Silent target last (budget ⊖ norm_to target command) s.queue s u v)

  thread_step-Silent :
      (now : F) (phase : Phase F) (s : LiveStreamer F)
      → s.phase ≡ phase
      → Silent s
      → Silent (thread_step services now phase s)
  unfolding thread_step begin_tick publish finish_tick
  thread_step-Silent now between_ticks s e v = ground arith
  thread_step-Silent now (walking target last command budget) s e v =
      walk_step-Silent target last command budget s (ground arith) v
  thread_step-Silent now (reached command) s e v = ground arith
  thread_step-Silent now (published command) s e v = ground arith

  apply-Silent :
      (op : Op F) (s : LiveStreamer F)
      → is_activation op ≡ false
      → Silent s
      → Silent (apply services op s)
  unfolding apply set_intent release rest stop deactivate reset set_plane
  apply-Silent (sets_intent target) s h v = ground arith
  apply-Silent releases s h v = ground arith
  apply-Silent rests s h v = ground arith
  apply-Silent stops s h v = ground arith
  apply-Silent activates s h v = ground arith
  apply-Silent deactivates s h v = ground arith
  apply-Silent resets s h v = ground arith
  apply-Silent (sets_plane plane) s h v = ground arith
  apply-Silent (moves now) s h v = thread_step-Silent now s.phase s refl v

  run-Silent :
      (ops : List (Op F)) (s : LiveStreamer F)
      → All (λ op. is_activation op ≡ false) ops
      → Silent s
      → Silent (run services ops s)
  unfolding run
  run-Silent [] s h v = v
  run-Silent (op ∷ ops) s h v = run-Silent ops (apply services op s) h.1 (apply-Silent op s h.0 v)

module _ {F : Type 0} ⦃fl : Float F⦄ (services : Services F) where
  Silent-said :
      (waits : Bool) (ps : List (Output F)) (s : LiveStreamer F)
      → Silent services waits ps s
      → (poses s.outputs ≡ ps) ⊎ (OneMore ps (poses s.outputs) × (waits ≡ true))
  Silent-said waits ps s v = ground arith

  -- Once stopped, in whatever state, the live route publishes no pose until it is activated again,
  -- whatever samples, releases and steps of its thread follow; but where the stop comes in the midst
  -- of a tick that has not published yet, that tick may still publish one pose, and no more.
  pub stop-silences :
      (s : LiveStreamer F) (ops : List (Op F))
      → All (λ op. is_activation op ≡ false) ops
      → (poses (run services ops (stop services s)).outputs ≡ poses s.outputs)
        ⊎ (OneMore (poses s.outputs) (poses (run services ops (stop services s)).outputs)
            × (is_under_way s.phase ≡ true))
  unfolding stop deactivate
  stop-silences s ops h = Silent-said (is_under_way s.phase) (poses s.outputs) _ (
      run-Silent services (is_under_way s.phase) (poses s.outputs) ops (stop services s) h
        (ground arith))
