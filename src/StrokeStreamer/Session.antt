-- ===== src/StrokeStreamer/Session.antt =====
-- stroke_streamer.py: a chain of goals on the stroke thread. While the chain waits for a window the
-- coordination thread goes on: a `Moment` is what that does before a round of the wait and while
-- the window is planned, and what the clock reads. A chain runs along a list of moments, to its end
-- or to the last moment given.
use rmp_ros2_control.Prelude.{
  ℕ, suc, Bool, true, false, not, ◌&&◌, ◌||◌, Option, none, some, List, [], ◌∷◌, codes, leb, ltb,
  map, if◌then◌else◌,
}
use rmp_ros2_control.Float.{Float, lit, max, ◌⊕◌, ◌⊖◌, ◌<?◌}
use rmp_ros2_control.Linalg.{Coordinate, Command}
use rmp_ros2_control.FileManager.{effective_anchor}
use rmp_ros2_control.LiveStreamer.{plane_to_world}
use rmp_ros2_control.StrokeStreamer.{StrokeIntake, clear_intake, pending, take_window}
use rmp_ros2_control.StrokeStreamer.Chain.{
  Planned, Planning, found, not_found, planning_raised, raise, StrokeOutput, StrokeServices,
  StrokeStreamer, put, stroke_begin, stroke_add, stroke_end, stroke_stop, request_handback, submit,
  close_chain,
}

pub data Act (F : Type 0) : Type 0 where
  begins adds : Coordinate F → Act F
  ends hands_back stops : Act F

pub record Moment (F : Type 0) : Type 0 where
  pub acts : List (Act F)
  pub now : F
  pub while_planning : List (Act F)
  pub sent_at : F

-- How a round of the chain ends; an exception ends the chain with `raised` set.
pub data Round (F J : Type 0) : Type 0 where
  ended waits : StrokeStreamer F J → Round F J
  goes_on : StrokeStreamer F J → Planned J → F → Round F J

module _ {F : Type 0} ⦃fl : Float F⦄ where
  abbrev pub deadline_near : ℕ → Option F → F → F → Bool
  deadline_near index none now margin = false
  deadline_near index (some h) now margin = ltb 0 index && (h ⊖ margin <? now)

module _ {F J : Type 0} ⦃fl : Float F⦄ where
  unfoldable pub act : StrokeServices F J → Act F → StrokeStreamer F J → StrokeStreamer F J
  act services (begins p) s = stroke_begin p s
  act services (adds p) s = stroke_add p s
  act services ends s = stroke_end s
  act services hands_back s = request_handback s
  act services stops s = stroke_stop services s

  unfoldable pub act_all :
      StrokeServices F J → List (Act F) → StrokeStreamer F J → StrokeStreamer F J
  act_all services [] s = s
  act_all services (a ∷ rest) s = act_all services rest (act services a s)

  -- the window in the planning frame
  abbrev pub world : StrokeStreamer F J → List (Command F) → List (Command F)
  world s window =
      map (λ point. plane_to_world (effective_anchor s.plane) point s.plane.plane_yaw_deg) window

  -- the next goal is planned: the one before it may go out, and the move stays open
  abbrev pub seam :
      StrokeServices F J
      → Planned J
      → ℕ
      → Option F
      → F
      → Planned J
      → StrokeStreamer F J × Option F
      → Round F J
  seam services planned index horizon sent_at following (s, none) = ended s
  seam services planned index horizon sent_at following (s, some duration) =
      goes_on s following (max sent_at (elim horizon [ none ↦ lit 0 1 | some h ↦ h ]) ⊕ duration)

  abbrev pub after_plan :
      StrokeServices F J
      → Planned J
      → ℕ
      → Option F
      → Moment F
      → Planning J
      → StrokeStreamer F J
      → Round F J
  after_plan services planned index horizon m planning_raised s = ended (raise s)
  after_plan services planned index horizon m not_found s = ended (
      close_chain services index planned
        (put (StrokeOutput.warned (codes "a window failed to plan")) s))
  after_plan services planned index horizon m (found following) s =
      seam services planned index horizon m.sent_at following
        (submit services index planned (some following.positions) false s)

  abbrev pub with_window :
      StrokeServices F J
      → Planned J
      → ℕ
      → Option F
      → Moment F
      → Bool
      → Bool
      → Option (List (Command F)) × StrokeIntake F
      → StrokeStreamer F J
      → Round F J
  with_window services planned index horizon m near drain (none, intake) s =
      if near || (drain && leb (pending s.intake) 0)
      then ended (close_chain services index planned s)
      else waits s
  with_window services planned index horizon m near drain (some window, intake) s =
      let cut = record s { intake = intake } in
      after_plan services planned index horizon m
        (services.plan_goal s.outputs (world s window) planned.end_joints)
        (act_all services m.while_planning
          (put (StrokeOutput.plan (world s window) planned.end_joints) cut))

  -- a round of `_next_window`, and what `_run_chain` does with the window
  unfoldable pub chain_round :
      StrokeServices F J → Planned J → ℕ → Option F → Moment F → StrokeStreamer F J → Round F J
  chain_round services planned index horizon m before =
      let s = act_all services m.acts before in
      let near = deadline_near index horizon m.now s.chain_close_margin in
      let drain = s.handback && not s.intake.stroke_open in
      if s.stop_flag
      then ended (close_chain services index planned s)
      else with_window services planned index horizon m near drain
          (take_window s.goal_seconds s.cartesian_speed (near || drain) s.intake) s

  -- a round that does not end the chain is followed by the rest of the loop
  abbrev pub after_round :
      (Planned J → ℕ → Option F → StrokeStreamer F J → StrokeStreamer F J × Bool)
      → Planned J
      → ℕ
      → Option F
      → Round F J
      → StrokeStreamer F J × Bool
  after_round loop planned index horizon (ended s) = (s, true)
  after_round loop planned index horizon (waits s) = loop planned index horizon s
  after_round loop planned index horizon (goes_on s following h) =
      loop following (suc index) (some h) s

  -- the loop of `_run_chain`, and whether it came to its end
  unfoldable pub chain_loop :
      StrokeServices F J
      → List (Moment F)
      → Planned J
      → ℕ
      → Option F
      → StrokeStreamer F J
      → StrokeStreamer F J × Bool
  chain_loop services [] planned index horizon s = (s, false)
  chain_loop services (m ∷ rest) planned index horizon s =
      after_round (λ p i h s'. chain_loop services rest p i h s') planned index horizon
        (chain_round services planned index horizon m s)

  -- goal 0 is planned, or fails softly: nothing was submitted and no move is open
  abbrev pub with_first :
      StrokeServices F J
      → List (Moment F)
      → F
      → Planning J
      → StrokeStreamer F J
      → StrokeStreamer F J × Bool
  with_first services moments now planning_raised s = (raise s, true)
  with_first services moments now not_found s = (
    put (StrokeOutput.chain_failed (codes "goal 0 failed to plan"))
        (record s { retry_after = now ⊕ lit 10 1; intake = clear_intake s.intake }),
    true,
  )
  with_first services moments now (found planned) s = chain_loop services moments planned 0 none s

  -- without a window the planning raises
  abbrev pub first_window :
      StrokeServices F J
      → List (Moment F)
      → F
      → J
      → Option (List (Command F)) × StrokeIntake F
      → StrokeStreamer F J
      → StrokeStreamer F J × Bool
  first_window services moments now joints (none, intake) s = (raise s, true)
  first_window services moments now joints (some window, intake) s =
      with_first services moments now (services.plan_goal s.outputs (world s window) joints)
        (put (StrokeOutput.plan (world s window) joints) (record s { intake = intake }))

  abbrev pub from_joints :
      StrokeServices F J
      → List (Moment F)
      → F
      → Option J
      → StrokeStreamer F J
      → StrokeStreamer F J × Bool
  from_joints services moments now none s = (
    put (StrokeOutput.warned (codes "could not read joint state"))
        (record s { intake = clear_intake s.intake }),
    true,
  )
  from_joints services moments now (some joints) s =
      first_window services moments now joints
        (take_window s.goal_seconds s.cartesian_speed true s.intake) s

  -- _run_chain, where the clock reads `now` after goal 0 is planned
  unfoldable pub run_chain :
      StrokeServices F J → List (Moment F) → F → StrokeStreamer F J → StrokeStreamer F J × Bool
  run_chain services moments now s =
      from_joints services moments now (services.read_joints s.outputs) s
