-- ===== src/LiveStreamer/Queue.antt =====
-- The waypoint queue of the live route.
use rmp_ros2_control.Prelude.{
  ℕ, ◌+◌, ◌≤◌, Bool, true, false, not, ◌||◌, ◌≡◌, refl, Option, none, some, List, [], ◌∷◌, arith,
  length, length-append, last?, last?-append_one, take, take-length, take-length-append, Bool-cases,
  inl, inr, ◌⊎◌, All,
}
use rmp_ros2_control.Float.{Float, ◌=?◌, ◌<?◌}
use rmp_ros2_control.Linalg.{Command}
use rmp_ros2_control.Dispatcher.{DispatcherConfig}
use rmp_ros2_control.LiveStreamer.{
  Services, LiveStreamer, Phase, between_ticks, walking, reached, published, new_streamer, tail,
  stop, rest, set_plane, activate, deactivate, reset,
}
use rmp_ros2_control.LiveStreamer.Motion.{
  set_intent, release, norm_to, judge, pop_next, walk_step, take_target, publish, begin_tick,
  finish_tick, thread_step, lift_from, Op, sets_intent, releases, rests, stops, activates,
  deactivates, resets, sets_plane, moves, apply, run,
}

module _ {F : Type 0} ⦃fl : Float F⦄ where
  -- a change of the plane that keeps the travel height `z`
  abbrev pub KeepsHeight : F → Op F → Type 0
  KeepsHeight z (sets_plane plane) = plane.safe_z ≡ z
  KeepsHeight z op = Unit

  abbrev pub at_height : F → Option (Command F) → Bool
  at_height z none = false
  at_height z (some t) = z =? t.2

module _ {F : Type 0} ⦃fl : Float F⦄ (z : F) (limit : ℕ) where
  -- at most `limit` waypoints, or one more, which is a lift
  record Bounded (s : LiveStreamer F) : Type 0 where
    height : s.config.plane.safe_z ≡ z
    limited : s.queue_limit ≡ limit
    bound :
        (length s.queue ≤ limit)
        ⊎ ((length s.queue ≡ limit + 1) × (at_height z (last? s.queue) ≡ true))

  set_intent-Bounded :
      (target : Command F) (s : LiveStreamer F) → Bounded s → Bounded (set_intent target s)
  unfolding set_intent
  set_intent-Bounded target s v = ground (arith, length-append s.queue (target ∷ []))

  lift_from-Bounded :
      (o : Option (Command F)) (s : LiveStreamer F)
      → z =? z ≡ true
      → (length s.queue ≤ limit) ⊎ (at_height z o ≡ true)
      → Bounded s
      → Bounded (lift_from o s)
  lift_from-Bounded none s r b v = ground arith
  lift_from-Bounded (some t) s r b v = ground (
    arith,
    length-append s.queue ((t.0, t.1, s.config.plane.safe_z) ∷ []),
    last?-append_one s.queue (t.0, t.1, s.config.plane.safe_z),
  )

  -- a queue beyond the limit has the lift at its end
  tail-lifted :
      (s : LiveStreamer F) → Bounded s → (length s.queue ≤ limit) ⊎ (at_height z (tail s) ≡ true)
  tail-lifted s v = ground arith

  release-Bounded : (s : LiveStreamer F) → z =? z ≡ true → Bounded s → Bounded (release s)
  unfolding release
  release-Bounded s r v = ground (arith, lift_from-Bounded (tail s) s r (tail-lifted s v) v)

  judge-Bounded :
      (services : Services F) (command last : Command F) (s : LiveStreamer F)
      → Bounded s
      → Bounded (judge services command last s)
  unfolding judge stop deactivate
  judge-Bounded services command last s v = ground arith

  -- what is taken from the front of the queue leaves it bounded
  behind-Bounded :
      (next : Command F) (queue : List (Command F)) (phase : Phase F) (s : LiveStreamer F)
      → s.queue ≡ next ∷ queue
      → Bounded s
      → Bounded (record s { target = some next; queue = queue; phase = phase })
  behind-Bounded next queue phase s e v = ground arith

  pop_next-Bounded :
      (services : Services F) (target last : Command F) (budget : F) (queue : List (Command F))
      (s : LiveStreamer F)
      → s.queue ≡ queue
      → Bounded s
      → Bounded (pop_next services target last budget queue s)
  pop_next-Bounded services target last budget [] s e v =
      judge-Bounded services target last _
        (record { height = v.height; limited = v.limited; bound = v.bound })
  pop_next-Bounded services target last budget (next ∷ queue) s e v =
      behind-Bounded next queue _ s e v

  walk_step-Bounded :
      (services : Services F) (target last command : Command F) (budget : F) (s : LiveStreamer F)
      → Bounded s
      → Bounded (walk_step services target last command budget s)
  unfolding walk_step
  walk_step-Bounded services target last command budget s v =
      elim (Bool-cases (budget <? norm_to target command)) [
        | inl e ↦ rw e (judge-Bounded services _ last s v)
        | inr e ↦ rw e (pop_next-Bounded services target last _ s.queue s refl v)
      ]

  take_target-Bounded : (s : LiveStreamer F) → Bounded s → Bounded (take_target s.target s.queue s)
  take_target-Bounded s v = ground arith

  at_phase-Bounded :
      (phase : Phase F) (s : LiveStreamer F) → Bounded s → Bounded (record s { phase = phase })
  at_phase-Bounded phase s v = record { height = v.height; limited = v.limited; bound = v.bound }

  begin_tick-Bounded : (s : LiveStreamer F) → Bounded s → Bounded (begin_tick s)
  unfolding begin_tick
  begin_tick-Bounded s v =
      let w = take_target-Bounded s v in
      elim (Bool-cases (not s.active || s.at_rest)) [
        | inl e ↦ rw e w
        | inr e ↦ rw e (at_phase-Bounded _ _ w)
      ]

  thread_step-Bounded :
      (services : Services F) (now : F) (phase : Phase F) (s : LiveStreamer F)
      → Bounded s
      → Bounded (thread_step services now phase s)
  unfolding thread_step publish finish_tick
  thread_step-Bounded services now between_ticks s v = begin_tick-Bounded s v
  thread_step-Bounded services now (walking target last command budget) s v =
      walk_step-Bounded services target last command budget s v
  thread_step-Bounded services now (reached command) s v = record {
    height = v.height;
    limited = v.limited;
    bound = v.bound;
  }
  thread_step-Bounded services now (published command) s v = ground arith

  apply-Bounded :
      (services : Services F) (op : Op F) (s : LiveStreamer F)
      → z =? z ≡ true
      → KeepsHeight z op
      → Bounded s
      → Bounded (apply services op s)
  unfolding apply rest stop deactivate reset set_plane activate
  apply-Bounded services (sets_intent target) s r h v = set_intent-Bounded target s v
  apply-Bounded services releases s r h v = release-Bounded s r v
  apply-Bounded services rests s r h v = ground arith
  apply-Bounded services stops s r h v = ground arith
  apply-Bounded services activates s r h v = ground arith
  apply-Bounded services deactivates s r h v = ground arith
  apply-Bounded services resets s r h v = ground arith
  apply-Bounded services (sets_plane plane) s r h v = ground arith
  apply-Bounded services (moves now) s r h v = thread_step-Bounded services now s.phase s v

  run-Bounded :
      (services : Services F) (ops : List (Op F)) (s : LiveStreamer F)
      → z =? z ≡ true
      → All (KeepsHeight z) ops
      → Bounded s
      → Bounded (run services ops s)
  unfolding run
  run-Bounded services [] s r h v = v
  run-Bounded services (op ∷ ops) s r h v =
      run-Bounded services ops (apply services op s) r h.1 (apply-Bounded services op s r h.0 v)

module _ {F : Type 0} ⦃fl : Float F⦄ where
  bound-le :
      (z : F) (limit : ℕ) (s : LiveStreamer F) → Bounded z limit s → length s.queue ≤ limit + 1
  bound-le z limit s v = ground arith

  -- Where the travel height is a number and no change of the plane alters it: the queue never holds
  -- more than one waypoint beyond its limit, however often the pointer moves and is let go.
  pub run-bounds :
      (services : Services F) (config : DispatcherConfig F) (period : F) (ops : List (Op F))
      → config.plane.safe_z =? config.plane.safe_z ≡ true
      → All (KeepsHeight config.plane.safe_z) ops
      → length (run services ops (new_streamer config period)).queue ≤ config.live_queue_limit + 1
  unfolding new_streamer
  run-bounds services config period ops r h =
      bound-le config.plane.safe_z config.live_queue_limit _ (
        run-Bounded config.plane.safe_z config.live_queue_limit services ops
          (new_streamer config period) r h
          (record { height = refl; limited = refl; bound = inl (omega arith) }))

  -- Letting go of the follow control in a session that moves, with somewhere to be: the path that
  -- is queued stays, it ends at the travel height above where it ended, and the route settles.
  pub release_lem :
      (s : LiveStreamer F) (t : Command F)
      → s.active ≡ true
      → s.at_rest ≡ false
      → tail s ≡ some t
      → s.config.plane.safe_z =? s.config.plane.safe_z ≡ true
      → (last : Command F) × (tail (release s) ≡ some last)
        × (last.0 ≡ t.0)
        × (last.1 ≡ t.1)
        × (s.config.plane.safe_z =? last.2 ≡ true)
        × ((release s).releasing ≡ true)
        × (take (length s.queue) (release s).queue ≡ s.queue)
  unfolding release
  release_lem s t a r e n =
      let lift : Command F = (t.0, t.1, s.config.plane.safe_z) in
      elim (Bool-cases (s.config.plane.safe_z =? t.2)) [
        | inl same ↦
            (t, ground arith, refl, refl, same, ground arith, ground (arith, take-length s.queue))
        | inr apart ↦ (
          lift,
          ground (arith, last?-append_one s.queue lift),
          refl,
          refl,
          n,
          ground arith,
          ground (arith, take-length-append s.queue (lift ∷ [])),
        )
      ]
