-- ===== src/Dispatcher/Modes.antt =====
-- dispatcher.py: the switch between Batch and Live, the stop latch and the reset.
use rmp_ros2_control.Prelude.{true, false, not, ◌&&◌, if◌then◌else◌}
use rmp_ros2_control.Dispatcher.{
  Mode, Cause, Warning, TargetMode, Call, Environment, call, warn, push_display, is_executing,
  is_live, batch, executing, live, follow, to_batch, to_live,
}
use rmp_ros2_control.Dispatcher.{Dispatcher as State}

module _ {F D : Type 0} where
  -- `mode == LIVE and self._mode != LIVE`, then `mode == BATCH and self._mode == LIVE`
  enter_live : Environment F D → State F D → State F D
  enter_live env d =
      if env.answer d.calls Call.live_activate
      then record (call Call.live_activate d) { mode = live; live_sub = follow }
      else warn Warning.live_unavailable (call Call.live_activate d)

  leave_live : Environment F D → State F D → State F D
  leave_live env d =
      if env.has_stroke_route && env.stroke_active d.calls
      then warn Warning.mode_locked_strokes d
      else record (call Call.live_rest d) {
        live_following = false;
        live_sub = follow;
        mode = batch;
      }

  unfoldable pub switch_mode : Environment F D → TargetMode → State F D → State F D
  unfolding enter_live leave_live
  switch_mode env target d =
      if is_executing d.mode then warn Warning.mode_locked_executing d else elim target [
        | to_live ↦ if is_live d.mode then d else enter_live env d
        | to_batch ↦ if is_live d.mode then leave_live env d else d
      ]

  -- the route whose `reset` clears the controller's latch
  abbrev pub reset_route : Environment F D → Mode → Call F D
  reset_route env batch = Call.batch_reset
  reset_route env executing = Call.batch_reset
  reset_route env live = if env.has_stroke_route then Call.stroke_reset else Call.live_reset

abbrev pub abandoned : Mode → Mode
abandoned batch = batch
abandoned executing = batch
abandoned live = live

module _ {F D : Type 0} where
  unfoldable pub reset : Environment F D → State F D → State F D
  reset env d =
      let route = reset_route env d.mode in
      if not d.stopped
      then warn Warning.nothing_to_reset d
      else if env.answer d.calls route
      then record (call route d) {
        stopped = false;
        cause = Cause.no_cause;
        mode = abandoned d.mode;
      }
      else warn Warning.reset_failed (call route d)

  -- what the first stop does to the routes
  abbrev stop_routes : Environment F D → Mode → State F D → State F D
  stop_routes env batch d = call Call.batch_stop d
  stop_routes env executing d = call Call.batch_stop d
  stop_routes env live d =
      let told = call Call.live_stop d in
      record (if env.has_stroke_route then call Call.stroke_stop told else told) {
        live_sub = follow;
      }

  unfoldable pub enter_stopped : Environment F D → Cause → State F D → State F D
  unfolding push_display
  enter_stopped env cause d =
      let latched = record d { stopped = true; cause = cause } in
      push_display (if d.stopped then latched else stop_routes env d.mode latched)
