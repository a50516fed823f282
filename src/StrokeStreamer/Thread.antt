-- ===== src/StrokeStreamer/Thread.antt =====
-- stroke_streamer.py: the session that the stroke thread runs and a pass of its loop. A `Visit` is
-- what the coordination thread does before a round of the session, what the chain of that round
-- meets and what the clock reads after its goal 0. A session runs along a list of visits, to its
-- end or to the last visit given. An exception of the planning, the retiming or the submission of a
-- goal leaves the session and is caught by the pass. The shutdown is not modelled, nor an exception
-- of the other ROS calls, and the wake-up is what starts a pass.
use rmp_ros2_control.Prelude.{
  Bool, true, false, not, ◌&&◌, ◌||◌, List, [], ◌∷◌, codes, ltb, if◌then◌else◌, ◌≡◌, refl, arith,
}
use rmp_ros2_control.Float.{Float, ◌<?◌}
use rmp_ros2_control.StrokeStreamer.{clear_intake, pending}
use rmp_ros2_control.StrokeStreamer.Chain.{
  StrokeOutput, StrokeServices, StrokeStreamer, put, stroke_begin, stroke_add, stroke_end,
  stroke_stop, call_trigger, request_handback,
}
use rmp_ros2_control.StrokeStreamer.Session.{
  Act, begins, adds, ends, hands_back, stops, Moment, act, act_all, run_chain,
}
use rmp_ros2_control.StrokeStreamer.Finalize.{
  IsClosed, open_move, run_chain-IsClosed, stopped-IsClosed, call_trigger-stop_flag,
}

pub record Visit (F : Type 0) : Type 0 where
  pub before : List (Act F)
  pub moments : List (Moment F)
  pub planned_at : F

-- What the thread finds: the ROS side could be built, and the arm settled in time.
pub record Readiness : Type 0 where
  pub available : Bool
  pub settled : Bool

module _ {F J : Type 0} ⦃fl : Float F⦄ where
  -- the session goes on after a chain that came to its end without an exception
  abbrev after_chain :
      (StrokeStreamer F J → StrokeStreamer F J × Bool)
      → StrokeStreamer F J × Bool
      → StrokeStreamer F J × Bool
  after_chain loop (s, false) = (s, false)
  after_chain loop (s, true) = let later = loop s in if s.raised then (s, true) else later

  -- the loop of `_run_session`, and whether it came to its end; with points pending the chain takes
  -- a window, so that the missing window of `run_chain` does not occur here
  unfoldable pub session_loop :
      StrokeServices F J → List (Visit F) → StrokeStreamer F J → StrokeStreamer F J × Bool
  session_loop services [] s = (s, false)
  session_loop services (v ∷ rest) earlier =
      let s = act_all services v.before earlier in
      let chained =
        after_chain (λ s'. session_loop services rest s')
          (run_chain services v.moments v.planned_at s) in
      let polled = session_loop services rest s in
      if s.stop_flag
      then (s, true)
      else if ltb 0 (pending s.intake)
      then chained
      else if s.handback && not s.intake.stroke_open
      then (s, true)
      else polled

  -- _run_session
  unfoldable pub run_session :
      StrokeServices F J
      → Readiness
      → List (Visit F)
      → StrokeStreamer F J
      → StrokeStreamer F J × Bool
  run_session services ready visits s =
      let probed =
        if ready.settled then s else put (StrokeOutput.warned (codes "settle probe timed out")) s in
      if ready.available
      then session_loop services visits
          (put StrokeOutput.chain_opened (put StrokeOutput.settled probed))
      else (
        put (StrokeOutput.warned (codes "stroke chain unavailable"))
            (record s { intake = clear_intake s.intake }),
        true,
      )

  -- the handler of `_run`
  unfoldable pub handle_exception : StrokeStreamer F J → StrokeStreamer F J
  handle_exception s =
      if s.raised
      then put StrokeOutput.caught (record s { raised = false; intake = clear_intake s.intake })
      else s

  abbrev wind_down : StrokeStreamer F J × Bool → StrokeStreamer F J × Bool
  wind_down (s, false) = (s, false)
  wind_down (s, true) =
      (put StrokeOutput.chain_drained (record (handle_exception s) { busy = false }), true)

  -- a pass of `_run` after a wake-up, at the time `now`
  unfoldable pub thread_pass :
      StrokeServices F J
      → Readiness
      → List (Visit F)
      → F
      → StrokeStreamer F J
      → StrokeStreamer F J × Bool
  thread_pass services ready visits now s =
      if not s.session_requested || s.stop_flag
      then (s, true)
      else if now <? s.retry_after
      then (s, true)
      else wind_down
          (run_session services ready visits (record s { session_requested = false; busy = true }))

  act-IsClosed :
      (services : StrokeServices F J) (a : Act F) (s : StrokeStreamer F J)
      → IsClosed s
      → IsClosed (act services a s)
  unfolding act stroke_begin stroke_add stroke_end stroke_stop request_handback
  act-IsClosed services (begins p) s v = ground arith
  act-IsClosed services (adds p) s v = ground arith
  act-IsClosed services ends s v = v
  act-IsClosed services hands_back s v = v
  act-IsClosed services stops s v =
      let latched : StrokeStreamer F J = record s {
        stop_flag = true;
        intake = clear_intake s.intake;
        session_requested = false;
      } in
      stopped-IsClosed
        (call_trigger StrokeOutput.stop_call (services.stop_service s.outputs) latched).0
        (call_trigger-stop_flag StrokeOutput.stop_call (services.stop_service s.outputs) latched)

  act_all-IsClosed :
      (services : StrokeServices F J) (acts : List (Act F)) (s : StrokeStreamer F J)
      → IsClosed s
      → IsClosed (act_all services acts s)
  unfolding act_all
  act_all-IsClosed services [] s v = v
  act_all-IsClosed services (a ∷ rest) s v =
      act_all-IsClosed services rest (act services a s) (act-IsClosed services a s v)

  -- a result that is closed where it is final
  abbrev Closes : StrokeStreamer F J × Bool → Type 0
  Closes r = r.1 ≡ true → IsClosed r.0

  if-Closes :
      (b : Bool) (r q : StrokeStreamer F J × Bool)
      → Closes r
      → Closes q
      → Closes (if b then r else q)
  if-Closes true r q v w = v
  if-Closes false r q v w = w

  after_chain-Closes :
      (loop : StrokeStreamer F J → StrokeStreamer F J × Bool) (r : StrokeStreamer F J × Bool)
      → ((s : StrokeStreamer F J) → IsClosed s → Closes (loop s))
      → Closes r
      → Closes (after_chain loop r)
  after_chain-Closes loop (s, false) k v = v
  after_chain-Closes loop (s, true) k v = if-Closes s.raised _ _ v (k s (v refl))

  session_loop-Closes :
      (services : StrokeServices F J) (visits : List (Visit F)) (s : StrokeStreamer F J)
      → IsClosed s
      → Closes (session_loop services visits s)
  unfolding session_loop
  session_loop-Closes services [] s v = λ h. v
  session_loop-Closes services (m ∷ rest) earlier v =
      let s = act_all services m.before earlier in
      let closed : IsClosed s = act_all-IsClosed services m.before earlier v in
      if-Closes s.stop_flag _ _ (λ h. closed)
        (if-Closes (ltb 0 (pending s.intake)) _ _
          (after_chain-Closes (λ s'. session_loop services rest s')
            (run_chain services m.moments m.planned_at s)
            (λ s' w. session_loop-Closes services rest s' w)
            (run_chain-IsClosed services m.moments m.planned_at s closed))
          (if-Closes (s.handback && not s.intake.stroke_open) _ _ (λ h. closed)
            (session_loop-Closes services rest s closed)))

  run_session-Closes :
      (services : StrokeServices F J) (ready : Readiness) (visits : List (Visit F))
      (s : StrokeStreamer F J)
      → IsClosed s
      → Closes (run_session services ready visits s)
  unfolding run_session
  run_session-Closes services ready visits s v =
      if-Closes ready.available _ _ (session_loop-Closes services visits _ (ground arith)) (λ h. v)

module _ {F J : Type 0} where
  -- the last that happened is that an exception was caught and the pass ended
  abbrev pub ended_by_exception : List (StrokeOutput F J) → Bool
  ended_by_exception (StrokeOutput.chain_drained ∷ StrokeOutput.caught ∷ rest) = true
  ended_by_exception outputs = false

  -- no exception is on its way, and no move is open, or the route is stopped, or an exception was
  -- the end of the last pass
  pub record Settled (s : StrokeStreamer F J) : Type 0 where
    pub quiet : s.raised ≡ false
    pub closed : not (open_move s.outputs) || s.stop_flag || ended_by_exception s.outputs ≡ true

module _ {F J : Type 0} ⦃fl : Float F⦄ where
  wind_down-Settled :
      (r : StrokeStreamer F J × Bool)
      → (r.1 ≡ true → IsClosed r.0)
      → (wind_down r).1 ≡ true
      → Settled (wind_down r).0
  unfolding handle_exception
  wind_down-Settled (s, false) v h = cc
  wind_down-Settled (s, true) v h =
      let w : IsClosed s = v refl in record { quiet = ground arith; closed = ground arith }

  if-Settled :
      (b : Bool) (r q : StrokeStreamer F J × Bool)
      → Settled r.0
      → (q.1 ≡ true → Settled q.0)
      → (if b then r else q).1 ≡ true
      → Settled (if b then r else q).0
  if-Settled true r q v w h = v
  if-Settled false r q v w h = w h

  -- A pass of the stroke thread begins with no exception on its way, and where the last goal that
  -- was accepted lets the firmware's move end or the route is stopped. When the pass comes to its
  -- end, whatever chains its session ran, whatever the coordination thread did meanwhile and
  -- whatever the planner, the pipeline and the controller answered: no exception is on its way, and
  -- the last goal that was accepted lets the move end, or the route is stopped, or the pass ended
  -- with an exception that it caught. Whether the controller could be told of a stop is not stated.
  pub thread_pass-Settled :
      (services : StrokeServices F J) (ready : Readiness) (visits : List (Visit F)) (now : F)
      (s : StrokeStreamer F J)
      → s.raised ≡ false
      → not (open_move s.outputs) || s.stop_flag ≡ true
      → (thread_pass services ready visits now s).1 ≡ true
      → Settled (thread_pass services ready visits now s).0
  unfolding thread_pass
  thread_pass-Settled services ready visits now s q v =
      let still : Settled s = record { quiet = q; closed = ground arith } in
      if-Settled (not s.session_requested || s.stop_flag) _ _ still (
        if-Settled (now <? s.retry_after) _ _ still (
          wind_down-Settled (run_session services ready visits _)
            (run_session-Closes services ready visits _ (ground arith))))
