-- ===== src/LiveStreamer/Motion.antt =====
-- live_streamer.py: the waypoint queue, the release and the tick.
use rmp_ros2_control.Prelude.{
  Bool, true, false, not, ◌&&◌, ◌||◌, Option, none, some, List, [], ◌∷◌, ◌++◌, length, leb,
  if◌then◌else◌,
}
use rmp_ros2_control.Float.{Float, lit, ◌⊕◌, ◌⊖◌, ◌⊗◌, ◌⊘◌, ◌<?◌, ◌≤?◌, ◌=?◌}
use rmp_ros2_control.Linalg.{Command, dist_3, bound_verdicts, verdicts_ok}
use rmp_ros2_control.FileManager.{PlaneConfig, effective_anchor}
use rmp_ros2_control.LiveStreamer.{
  Output, Services, LiveStreamer, Phase, between_ticks, walking, reached, published, plane_to_world,
  settle_seconds, emit, tail, stop, rest, set_plane, activate, deactivate, reset,
}

module _ {F : Type 0} ⦃fl : Float F⦄ where
  -- within the decimation spacing of the tail, at its depth
  abbrev pub is_near : Option (Command F) → Command F → F → Bool
  is_near none target spacing = false
  is_near (some t) target spacing = (t.2 =? target.2) && (dist_3 t target <? spacing)

  abbrev pub enqueue : Command F → LiveStreamer F → LiveStreamer F
  enqueue target s =
      if leb s.queue_limit (length s.queue)
      then if s.queue_warned
        then s
        else emit (Output.queue_full s.queue_limit) (record s { queue_warned = true })
      else record s { queue = s.queue ++ target ∷ [] }

  unfoldable pub set_intent : Command F → LiveStreamer F → LiveStreamer F
  set_intent target s =
      let engaged = record s { at_rest = false; releasing = false; settle_started = none } in
      if is_near (tail s) target s.queue_spacing then engaged else enqueue target engaged

  -- the lift has the tail's own x and y, so that the two differ in their depth if at all
  abbrev pub lift_from : Option (Command F) → LiveStreamer F → LiveStreamer F
  lift_from none s = record s { at_rest = true }
  lift_from (some t) s =
      let safe_z = s.config.plane.safe_z in
      record s {
        queue = if safe_z =? t.2 then s.queue else s.queue ++ (t.0, t.1, safe_z) ∷ [];
        releasing = true;
        settle_started = none;
        queue_warned = false;
      }

  unfoldable pub release : LiveStreamer F → LiveStreamer F
  release s = if not s.active || s.at_rest then s else lift_from (tail s) s

  -- the length of the way to a target, and the point a part of the way there
  abbrev pub norm_to : Command F → Command F → F
  norm_to target command =
      let dx = target.0 ⊖ command.0 in
      let dy = target.1 ⊖ command.1 in
      let dz = target.2 ⊖ command.2 in fl.sqrt (dx ⊗ dx ⊕ dy ⊗ dy ⊕ dz ⊗ dz)

  abbrev pub part_way : Command F → Command F → F → Command F
  part_way target command scale = (
    command.0 ⊕ (target.0 ⊖ command.0) ⊗ scale,
    command.1 ⊕ (target.1 ⊖ command.1) ⊗ scale,
    command.2 ⊕ (target.2 ⊖ command.2) ⊗ scale,
  )

  abbrev pub at_phase : Phase F → LiveStreamer F → LiveStreamer F
  at_phase phase s = record s { phase = phase }

  -- the end of `_advance`: the guard on the command reached
  unfoldable pub judge : Services F → Command F → Command F → LiveStreamer F → LiveStreamer F
  judge services command last s =
      let verdicts = bound_verdicts command last s.tick_period s.limits in
      if verdicts_ok verdicts
      then at_phase (reached command) s
      else emit (Output.guard_tripped verdicts) (stop services (at_phase between_ticks s))

  -- the lock in the loop of `_advance`: the next waypoint, if there is one
  abbrev pub pop_next :
      Services F → Command F → Command F → F → List (Command F) → LiveStreamer F → LiveStreamer F
  pop_next services target last budget [] s =
      judge services target last (record s { target = none })
  pop_next services target last budget (next ∷ queue) s =
      at_phase (walking next last target budget) (record s { target = some next; queue = queue })

  -- a round of the loop of `_advance`
  unfoldable pub walk_step :
      Services F → Command F → Command F → Command F → F → LiveStreamer F → LiveStreamer F
  walk_step services target last command budget s =
      let norm = norm_to target command in
      let stepped = judge services (part_way target command (budget ⊘ norm)) last s in
      let popped = pop_next services target last (budget ⊖ norm) s.queue s in
      if budget <? norm then stepped else popped

  -- `if self._target is None and self._queue`
  abbrev pub take_target : Option (Command F) → List (Command F) → LiveStreamer F → LiveStreamer F
  take_target none (next ∷ queue) s = record s { target = some next; queue = queue }
  take_target none [] s = s
  take_target (some t) queue s = s

  abbrev pub is_drained : Option (Command F) → List (Command F) → Bool
  is_drained none [] = true
  is_drained none (next ∷ queue) = false
  is_drained (some t) queue = false

  -- the settling interval after a release, at the time `now`
  abbrev pub settle : F → Option F → LiveStreamer F → LiveStreamer F
  settle now none s = record s { settle_started = some now }
  settle now (some started) s =
      if settle_seconds ≤? now ⊖ started
      then record s { at_rest = true; releasing = false; settle_started = none }
      else s

  -- `_publish_pose`, at the plane that is in force when it is called
  unfoldable pub publish : Command F → LiveStreamer F → LiveStreamer F
  publish command s =
      let plane = s.config.plane in
      let world = plane_to_world (effective_anchor plane) command plane.plane_yaw_deg in
      at_phase (published command) (emit (Output.pose command world) s)

  -- the second lock of `tick`, at the time `now`
  unfoldable pub finish_tick : F → Command F → LiveStreamer F → LiveStreamer F
  finish_tick now command s =
      let kept = at_phase between_ticks (record s { last = some command }) in
      if s.releasing && is_drained s.target s.queue then settle now s.settle_started kept else kept

  -- what the tick goes on with: the position to hold, or the way to the target
  abbrev pub next_phase : F → Option (Command F) → Option (Command F) → Phase F
  next_phase budget none none = between_ticks
  next_phase budget none (some last) = reached last
  next_phase budget (some target) none = walking target target target budget
  next_phase budget (some target) (some last) = walking target last last budget

  -- the first lock of `tick`
  unfoldable pub begin_tick : LiveStreamer F → LiveStreamer F
  begin_tick s =
      let taken = take_target s.target s.queue s in
      let phase = next_phase (lit 95 2 ⊗ s.max_step) taken.target s.last in
      if not s.active || s.at_rest then taken else at_phase phase taken

  -- what the live thread does next
  unfoldable pub thread_step : Services F → F → Phase F → LiveStreamer F → LiveStreamer F
  unfolding begin_tick walk_step publish finish_tick
  thread_step services now between_ticks s = begin_tick s
  thread_step services now (walking target last command budget) s =
      walk_step services target last command budget s
  thread_step services now (reached command) s = publish command s
  thread_step services now (published command) s = finish_tick now command s

-- The operations of the dispatcher, and a step of the live thread at a time.
pub data Op (F : Type 0) : Type 0 where
  sets_intent : Command F → Op F
  releases rests stops activates deactivates resets : Op F
  sets_plane : PlaneConfig F → Op F
  moves : F → Op F

module _ {F : Type 0} ⦃fl : Float F⦄ (services : Services F) where
  unfoldable pub apply : Op F → LiveStreamer F → LiveStreamer F
  apply (sets_intent target) s = set_intent target s
  apply releases s = release s
  apply rests s = rest s
  apply stops s = stop services s
  apply activates s = (activate services s).0
  apply deactivates s = deactivate s
  apply resets s = (reset services s).0
  apply (sets_plane plane) s = set_plane plane s
  apply (moves now) s = thread_step services now s.phase s

  unfoldable pub run : List (Op F) → LiveStreamer F → LiveStreamer F
  run [] s = s
  run (op ∷ ops) s = run ops (apply op s)
