-- ===== src/LiveStreamer/Guard.antt =====
-- The independent guard of the live route.
use rmp_ros2_control.Prelude.{
  true, not, ◌||◌, ◌≡◌, refl, subst, Option, none, some, List, [], ◌∷◌, arith, Bool-cases, inl, inr,
  Holds, All,
}
use rmp_ros2_control.Float.{Float, ◌<?◌}
use rmp_ros2_control.Linalg.{
  Command, Limits, BoundVerdicts, in_working_area, bound_verdicts, verdicts_ok,
}
use rmp_ros2_control.Linalg.Bounds.{InExtent, verdicts_ok-WithinLimits}
use rmp_ros2_control.Float.Order.{◌≼◌}
use rmp_ros2_control.Dispatcher.{DispatcherConfig}
use rmp_ros2_control.LiveStreamer.{
  Output, Services, LiveStreamer, Phase, between_ticks, walking, reached, published, new_streamer,
  emit, stop, rest, set_plane, activate, deactivate, reset,
}
use rmp_ros2_control.LiveStreamer.Motion.{
  norm_to, set_intent, release, judge, pop_next, walk_step, take_target, publish, begin_tick,
  finish_tick, next_phase, thread_step, Op, sets_intent, releases, rests, stops, activates,
  deactivates, resets, sets_plane, moves, apply, run,
}

module _ {F : Type 0} ⦃fl : Float F⦄ (limits : Limits F) where
  -- a place that the bounds allow, whatever the speed
  abbrev pub Allowed : Command F → Type 0
  Allowed command =
      InExtent limits.extent (command.0, command.1)
      × (limits.depth_min ≼ command.2)
      × (command.2 ≼ limits.depth_max)
      × (in_working_area (command.0, command.1) limits.working_centre limits.working_radius ≡ true)

  abbrev pub SafeOutput : Output F → Type 0
  SafeOutput (Output.pose command world) = Allowed command
  SafeOutput o = Unit

  -- a command that the thread is about to publish, or has published
  abbrev pub SafePhase : Phase F → Type 0
  SafePhase between_ticks = Unit
  SafePhase (walking target last command budget) = Unit
  SafePhase (reached command) = Allowed command
  SafePhase (published command) = Allowed command

  -- What was published, what the thread holds to be published, and the position that a hold would
  -- publish again, are allowed.
  pub record Guarded (s : LiveStreamer F) : Type 0 where
    pub kept : s.limits ≡ limits
    pub held : Holds Allowed s.last
    pub next : SafePhase s.phase
    pub sent : All SafeOutput s.outputs

  stop-Guarded :
      (services : Services F) (s : LiveStreamer F) → Guarded s → Guarded (stop services s)
  unfolding stop deactivate
  stop-Guarded services s v = ground arith

  stop_and_report-Guarded :
      (services : Services F) (verdicts : BoundVerdicts) (s : LiveStreamer F)
      → Guarded s
      → Guarded (emit (Output.guard_tripped verdicts) (stop services s))
  stop_and_report-Guarded services verdicts s v =
      let w = stop-Guarded services s v in
      record { kept = w.kept; held = w.held; next = w.next; sent = (tt, w.sent) }

  verdicts-Allowed :
      (command last : Command F) (s : LiveStreamer F)
      → Guarded s
      → verdicts_ok (bound_verdicts command last s.tick_period s.limits) ≡ true
      → Allowed command
  verdicts-Allowed command last s v e =
      let w =
        (verdicts_ok-WithinLimits s.limits s.tick_period command.0 command.1 command.2 last).0 e in
      subst
        (λ l.
          InExtent l.extent (command.0, command.1)
          × (l.depth_min ≼ command.2)
          × (command.2 ≼ l.depth_max)
          × (in_working_area (command.0, command.1) l.working_centre l.working_radius ≡ true))
        v.kept (w.extent, w.depth.0, w.depth.1, w.disc)

  at_phase-Guarded :
      (phase : Phase F) (s : LiveStreamer F)
      → SafePhase phase
      → Guarded s
      → Guarded (record s { phase = phase })
  at_phase-Guarded phase s a v = record { kept = v.kept; held = v.held; next = a; sent = v.sent }

  -- a command that is not refused is within the limits of the verdicts
  judge-Guarded :
      (services : Services F) (command last : Command F) (s : LiveStreamer F)
      → Guarded s
      → Guarded (judge services command last s)
  unfolding judge
  judge-Guarded services command last s v =
      elim (Bool-cases (verdicts_ok (bound_verdicts command last s.tick_period s.limits))) [
        | inl e ↦
            rw e (at_phase-Guarded (reached command) s (verdicts-Allowed command last s v e) v)
        | inr e ↦
            rw e (stop_and_report-Guarded services _ _ (at_phase-Guarded between_ticks s tt v))
      ]

  pop_next-Guarded :
      (services : Services F) (target last : Command F) (budget : F) (queue : List (Command F))
      (s : LiveStreamer F)
      → Guarded s
      → Guarded (pop_next services target last budget queue s)
  pop_next-Guarded services target last budget [] s v =
      judge-Guarded services target last _
        (record { kept = v.kept; held = v.held; next = v.next; sent = v.sent })
  pop_next-Guarded services target last budget (next ∷ queue) s v = record {
    kept = v.kept;
    held = v.held;
    next = tt;
    sent = v.sent;
  }

  walk_step-Guarded :
      (services : Services F) (target last command : Command F) (budget : F) (s : LiveStreamer F)
      → Guarded s
      → Guarded (walk_step services target last command budget s)
  unfolding walk_step
  walk_step-Guarded services target last command budget s v =
      elim (Bool-cases (budget <? norm_to target command)) [
        | inl e ↦ rw e (judge-Guarded services _ last s v)
        | inr e ↦ rw e (pop_next-Guarded services target last _ s.queue s v)
      ]

  take_target-Guarded : (s : LiveStreamer F) → Guarded s → Guarded (take_target s.target s.queue s)
  take_target-Guarded s v = ground arith

  activate-Guarded :
      (services : Services F) (s : LiveStreamer F) → Guarded s → Guarded (activate services s).0
  unfolding activate
  activate-Guarded services s v = ground arith

  next_phase-Safe :
      (budget : F) (target last : Option (Command F))
      → Holds Allowed last
      → SafePhase (next_phase budget target last)
  next_phase-Safe budget none none a = tt
  next_phase-Safe budget none (some l) a = a
  next_phase-Safe budget (some t) none a = tt
  next_phase-Safe budget (some t) (some l) a = tt

  begin_tick-Guarded : (s : LiveStreamer F) → Guarded s → Guarded (begin_tick s)
  unfolding begin_tick
  begin_tick-Guarded s v =
      let w = take_target-Guarded s v in
      elim (Bool-cases (not s.active || s.at_rest)) [
        | inl e ↦ rw e w
        | inr e ↦ rw e (at_phase-Guarded _ _ (next_phase-Safe _ _ s.last v.held) w)
      ]

  thread_step-Guarded :
      (services : Services F) (now : F) (phase : Phase F) (s : LiveStreamer F)
      → SafePhase phase
      → Guarded s
      → Guarded (thread_step services now phase s)
  unfolding thread_step publish finish_tick
  thread_step-Guarded services now between_ticks s a v = begin_tick-Guarded s v
  thread_step-Guarded services now (walking target last command budget) s a v =
      walk_step-Guarded services target last command budget s v
  thread_step-Guarded services now (reached command) s a v = record {
    kept = v.kept;
    held = v.held;
    next = a;
    sent = (a, v.sent);
  }
  thread_step-Guarded services now (published command) s a v = ground arith

  apply-Guarded :
      (services : Services F) (op : Op F) (s : LiveStreamer F)
      → Guarded s
      → Guarded (apply services op s)
  unfolding apply set_intent release rest deactivate reset set_plane
  apply-Guarded services (sets_intent target) s v = ground arith
  apply-Guarded services releases s v = ground arith
  apply-Guarded services rests s v = ground arith
  apply-Guarded services stops s v = stop-Guarded services s v
  apply-Guarded services activates s v = activate-Guarded services s v
  apply-Guarded services deactivates s v = ground arith
  apply-Guarded services resets s v = ground arith
  apply-Guarded services (sets_plane plane) s v = ground arith
  apply-Guarded services (moves now) s v = thread_step-Guarded services now s.phase s v.next v

  -- what a run publishes from the start on
  run-Guarded :
      (services : Services F) (ops : List (Op F)) (s : LiveStreamer F)
      → Guarded s
      → Guarded (run services ops s)
  unfolding run
  run-Guarded services [] s v = v
  run-Guarded services (op ∷ ops) s v =
      run-Guarded services ops (apply services op s) (apply-Guarded services op s v)

module _ {F : Type 0} ⦃fl : Float F⦄ where
  -- the limits that the route is built with
  abbrev pub limits_of : DispatcherConfig F → F → Limits F
  limits_of config period = (new_streamer config period).limits

  -- Whatever the dispatcher asks of the live route between the steps of its thread, and whatever
  -- the services answer: every
  -- command that it ever publishes lies in the configured extent, between the drawing depth and the
  -- travel height, and in the working disc.
  pub run-Allowed :
      (services : Services F) (config : DispatcherConfig F) (period : F) (ops : List (Op F))
      → All
          (SafeOutput (limits_of config period))
          (run services ops (new_streamer config period)).outputs
  unfolding new_streamer
  run-Allowed services config period ops =
      (run-Guarded (limits_of config period) services ops (new_streamer config period)
        (record { kept = refl; held = tt; next = tt; sent = tt })).sent
