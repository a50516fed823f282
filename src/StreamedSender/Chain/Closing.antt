-- ===== src/StreamedSender/Chain/Closing.antt =====
-- What a chain of goals is, and the rounds that keep it one.
use rmp_ros2_control.Prelude.{
  ℕ, zero, suc, ◌-◌, ◌≤◌, ◌<◌, ◌≡◌, refl, sym, ◌∙◌, ap, subst, ◌⊎◌, inl, inr, Bool, true, false,
  Option, none, some, List, [], ◌∷◌, length, last?, take, get_elem?, last?-take, arith, Holds,
  Holds-bind, Holds-any, Holds-eq,
}
use rmp_ros2_control.Float.{Float, lit}
use rmp_ros2_control.StreamedSender.Retiming.{
  Joints, MotionLimits, Retimed, entering, window_of, retime_positions, retime_goal_window,
}
use rmp_ros2_control.StreamedSender.Retiming.Window.{Enters, Enters-take, length-entering}
use rmp_ros2_control.StreamedSender.Chain.{Cell, Streaming, SentGoal, drain}
use rmp_ros2_control.StreamedSender.Chain.Loop.{
  Exit, message, emit, exit_of, finish, send_final, go_on, send_open, exit_ok, exit_error,
  exit_raised,
}
use rmp_ros2_control.StreamedSender.Chain.Sending.{Bounded, Emitted, drain-Kept, emit-Emitted}

get_elem?-some :
    {A : Type 0} (xs : List A) (i : ℕ) (x : A) → get_elem? xs i ≡ some x → i < length xs
get_elem?-some [] i x e = absurd (ground arith)
get_elem?-some (y ∷ xs) zero x e = omega arith
get_elem?-some (y ∷ xs) (suc i) x e = omega (arith, get_elem?-some xs i x e)

module _ {F : Type 0} where
  -- the velocity that the next goal has to start with
  abbrev pub carried : List (SentGoal F) → Option (Joints F)
  carried [] = none
  carried (g ∷ goals) = last? g.velocities

  -- newest first: every goal keeps the move of the firmware open, and starts at the velocity with
  -- which the one before it ends
  abbrev pub OpenChain : List (SentGoal F) → Type 0
  OpenChain [] = Unit
  OpenChain (g ∷ goals) =
      (g.finalizes ≡ some false) × Enters (carried goals) g.velocities × OpenChain goals

  -- the last goal finalizes the move
  abbrev pub ClosedChain : List (SentGoal F) → Type 0
  ClosedChain [] = ⊥
  ClosedChain (g ∷ goals) =
      (g.finalizes ≡ some true) × Enters (carried goals) g.velocities × OpenChain goals

  -- how a chain ends, under a limit of goals in flight
  abbrev pub Ended : ℕ → Streaming F × Exit → Type 0
  Ended most (s, exit_ok) = ClosedChain s.sent × Bounded most s
  Ended most (s, exit_error) = (OpenChain s.sent ⊎ ClosedChain s.sent) × Bounded most s
  Ended most (s, exit_raised) = OpenChain s.sent × Bounded most s

  -- a retimed goal between its seams
  abbrev pub Linked : Option (Joints F) → Retimed F → Type 0
  Linked entry r = Enters entry r.velocities × (last? r.velocities ≡ some r.seam_velocity)

module _ {F : Type 0} ⦃fl : Float F⦄ where
  linked :
      (goal : ℕ) (entry : Option (Joints F)) (velocities : List (Joints F)) (v : Joints F)
      → 1 ≤ goal
      → get_elem? (entering entry velocities) (goal - 1) ≡ some v
      → Enters entry (take goal (entering entry velocities))
        × (last? (take goal (entering entry velocities)) ≡ some v)
  linked goal entry velocities v h e =
      let vs = entering entry velocities in
      let short = get_elem?-some vs (goal - 1) v e in
      let same : goal ≡ suc (goal - 1) = omega (arith, h) in
      (
        Enters-take entry goal velocities h
            (omega (arith, short, length-entering entry velocities)),
        ap (λ n. last? (take n vs)) same ∙ last?-take (goal - 1) vs short ∙ e,
      )

  pub retime-Linked :
      (goal : List (Joints F)) (next : Option (List (Joints F))) (limits : MotionLimits F)
      (speed : F) (entry : Option (Joints F))
      → 1 ≤ length goal
      → Holds (Linked entry) (retime_goal_window goal next limits speed entry)
  unfolding retime_goal_window
  retime-Linked goal next limits speed entry h =
      Holds-bind (λ _. Unit) _ (retime_positions (window_of goal next) limits speed (lit 0 1)) _
        (Holds-any _)
        (λ r _.
          Holds-bind (λ _. Unit) _ (get_elem? r.1 (length goal - 1)) _ (Holds-any _)
            (λ s _.
              Holds-bind (λ v. get_elem? (entering entry r.2) (length goal - 1) ≡ some v) _
                (get_elem? (entering entry r.2) (length goal - 1)) _
                (Holds-eq _ (get_elem? (entering entry r.2) (length goal - 1)) (λ v e. e))
                (λ v e. linked (length goal) entry r.2 v h e)))

  finish-Ended :
      (cell : Cell F) (most : ℕ) (goal : SentGoal F) (before : List (SentGoal F))
      (emitted : Streaming F × Bool)
      → goal.finalizes ≡ some true
      → Enters (carried before) goal.velocities
      → OpenChain before
      → Emitted most goal before emitted
      → Ended most (finish cell emitted)
  finish-Ended cell most goal before (s, false) f n o e = (inl (subst OpenChain (sym e.0) o), e.1)
  finish-Ended cell most goal before (s, true) f n o e =
      let k = drain-Kept (cell.draining s.calls) s in
      let closed : ClosedChain (drain (cell.draining s.calls) s).0.sent =
        subst ClosedChain (sym (k.sent ∙ e.0)) (f, n, o) in
      let bounded = k.fewer in
      after_drain (drain (cell.draining s.calls) s).1 (drain (cell.draining s.calls) s).0 closed
        (omega (arith, bounded, e.1))
    where
      after_drain :
          (ok : Bool) (s' : Streaming F)
          → ClosedChain s'.sent
          → Bounded most s'
          → Ended most (s', exit_of ok)
      after_drain true s' c b = (c, b)
      after_drain false s' c b = (inr c, b)

  -- a chain before its next goal, which starts where the one before ended
  pub record Ready (cell : Cell F) (entry : Option (Joints F)) (s : Streaming F) : Type 0 where
    pub unbroken : OpenChain s.sent
    pub continues : carried s.sent ≡ entry
    pub bounded : Bounded cell.max_inflight s

  pub send_final-Ended :
      (cell : Cell F) (index : ℕ) (positions : List (Joints F)) (entry : Option (Joints F))
      (retimed : Option (Retimed F)) (s : Streaming F)
      → Ready cell entry s
      → Holds (Linked entry) retimed
      → Ended cell.max_inflight (send_final cell index positions retimed s)
  send_final-Ended cell index positions entry none s v h = (v.unbroken, v.bounded)
  send_final-Ended cell index positions entry (some r) s v h =
      finish-Ended cell cell.max_inflight (message (some true) positions r) s.sent
        (emit cell index positions true r s) refl
        (subst (λ e. Enters e r.velocities) (sym v.continues) h.0) v.unbroken
        (emit-Emitted cell index positions true r s v.bounded)

  go_on-Ended :
      (cell : Cell F) (goal : SentGoal F) (before : List (SentGoal F)) (r : Retimed F)
      (others : Retimed F → Streaming F → Streaming F × Exit) (emitted : Streaming F × Bool)
      → OpenChain before
      → OpenChain (goal ∷ before)
      → last? goal.velocities ≡ some r.seam_velocity
      → ((s' : Streaming F)
          → Ready cell (some r.seam_velocity) s'
          → Ended cell.max_inflight (others r s'))
      → Emitted cell.max_inflight goal before emitted
      → Ended cell.max_inflight (go_on others r emitted)
  go_on-Ended cell goal before r others (s, false) o c l k e =
      (inl (subst OpenChain (sym e.0) o), e.1)
  go_on-Ended cell goal before r others (s, true) o c l k e = k s (record {
    unbroken = subst OpenChain (sym e.0) c;
    continues = ap carried e.0 ∙ l;
    bounded = e.1;
  })

  pub send_open-Ended :
      (cell : Cell F) (index : ℕ) (positions : List (Joints F)) (entry : Option (Joints F))
      (others : Retimed F → Streaming F → Streaming F × Exit) (retimed : Option (Retimed F))
      (s : Streaming F)
      → Ready cell entry s
      → Holds (Linked entry) retimed
      → ((r : Retimed F) (s' : Streaming F)
          → Ready cell (some r.seam_velocity) s'
          → Ended cell.max_inflight (others r s'))
      → Ended cell.max_inflight (send_open cell index positions others retimed s)
  send_open-Ended cell index positions entry others none s v h k = (v.unbroken, v.bounded)
  send_open-Ended cell index positions entry others (some r) s v h k =
      go_on-Ended cell (message (some false) positions r) s.sent r others
        (emit cell index positions false r s) v.unbroken
        (refl, subst (λ e. Enters e r.velocities) (sym v.continues) h.0, v.unbroken) h.1 (k r)
        (emit-Emitted cell index positions false r s v.bounded)
