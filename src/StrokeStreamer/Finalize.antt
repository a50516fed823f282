-- ===== src/StrokeStreamer/Finalize.antt =====
-- The finalize discipline of a chain: when the firmware's move is open.
use rmp_ros2_control.Prelude.{
  ℕ, suc, Bool, true, false, not, ◌||◌, ◌≡◌, refl, Text, Bool-cases, inl, inr, Option, none, some,
  List, [], ◌∷◌, arith, if◌then◌else◌,
}
use rmp_ros2_control.Float.{Float}
use rmp_ros2_control.Linalg.{Command}
use rmp_ros2_control.StrokeStreamer.{StrokeIntake}
use rmp_ros2_control.StrokeStreamer.Chain.{
  Planned, Planning, found, not_found, planning_raised, Submission, accepted, rejected,
  submission_raised, TriggerReply, no_client, unavailable, no_response, replied, call_trigger,
  conclude, drain_chain, after_final, StrokeOutput, StrokeServices, StrokeStreamer, fail_chain,
  submit, close_chain,
}
use rmp_ros2_control.StrokeStreamer.Session.{
  Moment, Round, ended, waits, goes_on, act_all, seam, after_plan, with_window, chain_round,
  after_round, chain_loop, with_first, first_window, from_joints, run_chain,
}

-- the firmware waits for a further goal: the last one accepted did not let the move end
abbrev pub open_move : {F J : Type 0} → List (StrokeOutput F J) → Bool
open_move [] = false
open_move (StrokeOutput.goal index planned next final ∷ rest) = not final
open_move (o ∷ rest) = open_move rest

module _ {F J : Type 0} where
  -- no move is open, or the route is stopped, or an exception is on its way
  abbrev pub IsClosed : StrokeStreamer F J → Type 0
  IsClosed s = not (open_move s.outputs) || s.stop_flag || s.raised ≡ true

  drain_chain-IsClosed :
      (services : StrokeServices F J) (s : StrokeStreamer F J)
      → IsClosed s
      → IsClosed (drain_chain services s)
  drain_chain-IsClosed services s v = ground arith

  pub call_trigger-stop_flag :
      (c : StrokeOutput F J) (reply : TriggerReply) (s : StrokeStreamer F J)
      → (call_trigger c reply s).0.stop_flag ≡ s.stop_flag
  call_trigger-stop_flag c no_client s = refl
  call_trigger-stop_flag c unavailable s = refl
  call_trigger-stop_flag c no_response s = refl
  call_trigger-stop_flag c (replied success) s = refl

  fail_chain-IsClosed :
      (services : StrokeServices F J) (message : Text) (s : StrokeStreamer F J)
      → IsClosed (fail_chain services message s)
  unfolding fail_chain
  fail_chain-IsClosed services message s =
      let stopping : StrokeStreamer F J = record s { stop_flag = true } in
      let reply = services.stop_service s.outputs in
      elim (Bool-cases s.stop_flag) [
        | inl e ↦ ground arith
        | inr e ↦ ground (arith, call_trigger-stop_flag StrokeOutput.stop_call reply stopping)
      ]

  pub stopped-IsClosed : (s : StrokeStreamer F J) → s.stop_flag ≡ true → IsClosed s
  stopped-IsClosed s h = ground arith

  conclude-IsClosed :
      (services : StrokeServices F J) (index : ℕ) (planned : Planned J) (next : Option (List J))
      (r : Submission F) (s : StrokeStreamer F J)
      → IsClosed (after_final services (conclude services index planned next true r s))
  conclude-IsClosed services index planned next (accepted duration) s =
      drain_chain-IsClosed services _ refl
  conclude-IsClosed services index planned next rejected s = fail_chain-IsClosed services _ _
  conclude-IsClosed services index planned next submission_raised s = ground arith

  if-IsClosed :
      (b : Bool) (r q : StrokeStreamer F J)
      → (b ≡ true → IsClosed r)
      → IsClosed q
      → IsClosed (if b then r else q)
  if-IsClosed true r q v w = v refl
  if-IsClosed false r q v w = w

  close_chain-IsClosed :
      (services : StrokeServices F J) (index : ℕ) (planned : Planned J) (s : StrokeStreamer F J)
      → IsClosed (close_chain services index planned s)
  unfolding close_chain submit
  close_chain-IsClosed services index planned s =
      if-IsClosed s.stop_flag (drain_chain services s)
        (after_final services (submit services index planned none true s))
        (λ stopped. drain_chain-IsClosed services s (ground arith))
        (conclude-IsClosed services index planned none (services.submitted s.outputs) s)

module _ {F J : Type 0} ⦃fl : Float F⦄ where
  abbrev Ends : Round F J → Type 0
  Ends (ended s) = IsClosed s
  Ends (waits s) = Unit
  Ends (goes_on s following h) = Unit

  either-Ends : (b : Bool) (r q : Round F J) → Ends r → Ends q → Ends (if b then r else q)
  either-Ends true r q v w = v
  either-Ends false r q v w = w

  -- a seam that fails has stopped the controller
  seam-Ends :
      (services : StrokeServices F J) (planned : Planned J) (index : ℕ) (horizon : Option F)
      (sent_at : F) (following : Planned J) (next : Option (List J)) (final : Bool)
      (s : StrokeStreamer F J)
      → Ends (
          seam services planned index horizon sent_at following
            (submit services index planned next final s))
  unfolding submit
  seam-Ends services planned index horizon sent_at following next final s =
      concluded (services.submitted s.outputs)
    where
      concluded :
          (r : Submission F)
          → Ends (
              seam services planned index horizon sent_at following
                (conclude services index planned next final r s))
      concluded (accepted duration) = tt
      concluded rejected = fail_chain-IsClosed services _ _
      concluded submission_raised = ground arith

  after_plan-Ends :
      (services : StrokeServices F J) (planned : Planned J) (index : ℕ) (horizon : Option F)
      (m : Moment F) (following : Planning J) (s : StrokeStreamer F J)
      → Ends (after_plan services planned index horizon m following s)
  after_plan-Ends services planned index horizon m planning_raised s = ground arith
  after_plan-Ends services planned index horizon m not_found s =
      close_chain-IsClosed services index planned _
  after_plan-Ends services planned index horizon m (found following) s =
      seam-Ends services planned index horizon m.sent_at following (some following.positions) false
        s

  with_window-Ends :
      (services : StrokeServices F J) (planned : Planned J) (index : ℕ) (horizon : Option F)
      (m : Moment F) (near drain : Bool) (r : Option (List (Command F)) × StrokeIntake F)
      (s : StrokeStreamer F J)
      → Ends (with_window services planned index horizon m near drain r s)
  with_window-Ends services planned index horizon m near drain (none, intake) s =
      ground (arith, close_chain-IsClosed services index planned s)
  with_window-Ends services planned index horizon m near drain (some window, intake) s =
      after_plan-Ends services planned index horizon m _ _

  chain_round-Ends :
      (services : StrokeServices F J) (planned : Planned J) (index : ℕ) (horizon : Option F)
      (m : Moment F) (s : StrokeStreamer F J)
      → Ends (chain_round services planned index horizon m s)
  unfolding chain_round
  chain_round-Ends services planned index horizon m before =
      let s = act_all services m.acts before in
      either-Ends s.stop_flag _ _ (close_chain-IsClosed services index planned s)
        (with_window-Ends services planned index horizon m _ _ _ s)

  after_round-IsClosed :
      (loop : Planned J → ℕ → Option F → StrokeStreamer F J → StrokeStreamer F J × Bool)
      (planned : Planned J) (index : ℕ) (horizon : Option F) (r : Round F J)
      → ((p : Planned J) (i : ℕ) (h : Option F) (s : StrokeStreamer F J)
          → (loop p i h s).1 ≡ true
          → IsClosed (loop p i h s).0)
      → Ends r
      → (after_round loop planned index horizon r).1 ≡ true
      → IsClosed (after_round loop planned index horizon r).0
  after_round-IsClosed loop planned index horizon (ended s) k v h = v
  after_round-IsClosed loop planned index horizon (waits s) k v h = k planned index horizon s h
  after_round-IsClosed loop planned index horizon (goes_on s following at) k v h =
      k following (suc index) (some at) s h

  chain_loop-IsClosed :
      (services : StrokeServices F J) (moments : List (Moment F)) (planned : Planned J) (index : ℕ)
      (horizon : Option F) (s : StrokeStreamer F J)
      → (chain_loop services moments planned index horizon s).1 ≡ true
      → IsClosed (chain_loop services moments planned index horizon s).0
  unfolding chain_loop
  chain_loop-IsClosed services [] planned index horizon s h = ground arith
  chain_loop-IsClosed services (m ∷ rest) planned index horizon s h =
      after_round-IsClosed (λ p i at s'. chain_loop services rest p i at s') planned index horizon
        (chain_round services planned index horizon m s)
        (λ p i at s' g. chain_loop-IsClosed services rest p i at s' g)
        (chain_round-Ends services planned index horizon m s) h

  with_first-IsClosed :
      (services : StrokeServices F J) (moments : List (Moment F)) (now : F) (planned : Planning J)
      (s : StrokeStreamer F J)
      → IsClosed s
      → (with_first services moments now planned s).1 ≡ true
      → IsClosed (with_first services moments now planned s).0
  with_first-IsClosed services moments now planning_raised s v h = ground arith
  with_first-IsClosed services moments now not_found s v h = ground arith
  with_first-IsClosed services moments now (found planned) s v h =
      chain_loop-IsClosed services moments planned 0 none s h

  first_window-IsClosed :
      (services : StrokeServices F J) (moments : List (Moment F)) (now : F) (joints : J)
      (r : Option (List (Command F)) × StrokeIntake F) (s : StrokeStreamer F J)
      → IsClosed s
      → (first_window services moments now joints r s).1 ≡ true
      → IsClosed (first_window services moments now joints r s).0
  first_window-IsClosed services moments now joints (none, intake) s v h = ground arith
  first_window-IsClosed services moments now joints (some window, intake) s v h =
      with_first-IsClosed services moments now _ _ v h

  from_joints-IsClosed :
      (services : StrokeServices F J) (moments : List (Moment F)) (now : F) (joints : Option J)
      (s : StrokeStreamer F J)
      → IsClosed s
      → (from_joints services moments now joints s).1 ≡ true
      → IsClosed (from_joints services moments now joints s).0
  from_joints-IsClosed services moments now none s v h = ground arith
  from_joints-IsClosed services moments now (some joints) s v h =
      first_window-IsClosed services moments now joints _ s v h

  -- When a chain comes to its end, whatever the coordination thread did meanwhile and whatever the
  -- planner, the pipeline and the controller answered: the last goal that was accepted lets the
  -- firmware's move end, or the route is stopped, or an exception ended the chain.
  pub run_chain-IsClosed :
      (services : StrokeServices F J) (moments : List (Moment F)) (now : F) (s : StrokeStreamer F J)
      → IsClosed s
      → (run_chain services moments now s).1 ≡ true
      → IsClosed (run_chain services moments now s).0
  unfolding run_chain
  run_chain-IsClosed services moments now s v h =
      from_joints-IsClosed services moments now (services.read_joints s.outputs) s v h
