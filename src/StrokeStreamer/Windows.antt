-- ===== src/StrokeStreamer/Windows.antt =====
-- The windows of the drawing route: the cut of the intake, and the drain of a chain.
use rmp_ros2_control.Prelude.{
  ℕ, suc, ◌≤◌, ◌<◌, Bool, true, false, not, ◌&&◌, ◌||◌, ◌≡◌, refl, sym, ap, subst, ◌∙◌, Option,
  none, some, List, [], ◌∷◌, ◌++◌, length, leb, length-append, arith, if◌then◌else◌, Bool-cases,
  inl, inr, ◌⊎◌, All,
}
use rmp_ros2_control.Float.{Float, lit, ◌<?◌}
use rmp_ros2_control.Linalg.{Command}
use rmp_ros2_control.StrokeStreamer.{StrokeIntake, cut_window, time_at, take_window}
use rmp_ros2_control.StrokeStreamer.Chain.{
  Planned, Planning, found, not_found, planning_raised, Submission, accepted, rejected,
  submission_raised, conclude, StrokeOutput, StrokeServices, StrokeStreamer, put, submit,
}
use rmp_ros2_control.StrokeStreamer.Session.{
  Moment, Round, ended, waits, goes_on, act_all, deadline_near, seam, after_plan, with_window,
  after_round, chain_round, chain_loop, world,
}

module _ {F : Type 0} ⦃fl : Float F⦄ where
  cut_window-append :
      (seconds speed : F) (previous : Option (Command F)) (elapsed : F) (points : List (Command F))
      → (cut_window seconds speed previous elapsed points).1
          ++ (cut_window seconds speed previous elapsed points).2
        ≡ points
  unfolding cut_window
  cut_window-append seconds speed previous elapsed [] = refl
  cut_window-append seconds speed previous elapsed (p ∷ rest) =
      ground
        (arith, cut_window-append seconds speed (some p) (time_at speed previous p elapsed) rest)

  cut_window-some :
      (seconds speed : F) (previous : Option (Command F)) (elapsed : F) (points : List (Command F))
      → leb (length points) 0 ≡ false
      → 1 ≤ length (cut_window seconds speed previous elapsed points).1
  unfolding cut_window
  cut_window-some seconds speed previous elapsed [] h = ground arith
  cut_window-some seconds speed previous elapsed (p ∷ rest) h = ground arith

module _ {F : Type 0} where
  -- the coordination thread does nothing more
  abbrev pub IsQuiet : Moment F → Type 0
  IsQuiet m = (m.acts ≡ []) × (m.while_planning ≡ [])

  -- nothing is taken: the intake is empty or the cut was not to flush it
  pub record TakesNothing (flush : Bool) (s : StrokeIntake F)
      (r : Option (List (Command F)) × StrokeIntake F) : Type 0 where
    pub nothing : r.0 ≡ none
    pub same : r.1 ≡ s
    pub cause : (s.points ≡ []) ⊎ (flush ≡ false)

  -- a part of the front that is not empty is taken, in order, and the rest is left
  pub record TakesFront (s : StrokeIntake F) (r : Option (List (Command F)) × StrokeIntake F)
      : Type 0 where
    pub window : List (Command F)
    pub taken : r.0 ≡ some window
    pub some_point : 1 ≤ length window
    pub front : window ++ r.1.points ≡ s.points
    pub open_kept : r.1.stroke_open ≡ s.stroke_open

  no_points : (ps : List (Command F)) → leb (length ps) 0 ≡ true → ps ≡ []
  no_points [] h = refl
  no_points (p ∷ ps) h = ground arith

module _ {F : Type 0} ⦃fl : Float F⦄ where
  -- A cut takes a part of the front of the intake that is not empty, in order, and leaves the rest
  -- of it; or it takes nothing, and then the intake is empty or the cut was not to flush it.
  pub take_window_lem :
      (seconds speed : F) (flush : Bool) (s : StrokeIntake F)
      → TakesNothing flush s (take_window seconds speed flush s)
        ⊎ TakesFront s (take_window seconds speed flush s)
  unfolding take_window
  take_window_lem seconds speed flush s =
      let cut = cut_window seconds speed none (lit 0 1) s.points in
      elim (Bool-cases (leb (length s.points) 0)) [
        | inl e ↦
            rw e (inl (record { nothing = refl; same = refl; cause = inl (no_points s.points e) }))
        | inr e ↦ elim (Bool-cases ((cut.0 <? seconds) && not flush)) [
          | inl h ↦
              rw e (rw h (inl (record { nothing = refl; same = refl; cause = inr (ground arith) })))
          | inr h ↦ rw e (
              rw h (
                inr (record {
                  window = cut.1;
                  taken = refl;
                  some_point = cut_window-some seconds speed none (lit 0 1) s.points e;
                  front = cut_window-append seconds speed none (lit 0 1) s.points;
                  open_kept = refl;
                })))
        ]
      ]

module _ {F J : Type 0} ⦃fl : Float F⦄ where
  -- handed back, no stroke open, and at most `n` points left
  pub record Draining (n : ℕ) (s : StrokeStreamer F J) : Type 0 where
    pub asked : s.handback ≡ true
    pub lifted : s.intake.stroke_open ≡ false
    pub few : length s.intake.points ≤ n

  -- a round ends the chain or takes a point at least
  abbrev Shrinks : ℕ → Round F J → Type 0
  Shrinks n (ended s) = Unit
  Shrinks n (waits s) = ⊥
  Shrinks n (goes_on s following h) = (k : ℕ) × (k < n) × Draining k s

  seam-Shrinks :
      (services : StrokeServices F J) (planned : Planned J) (index : ℕ) (horizon : Option F)
      (sent_at : F) (following : Planned J) (next : Option (List J)) (k n : ℕ)
      (s : StrokeStreamer F J)
      → k < n
      → Draining k s
      → Shrinks n (
          seam services planned index horizon sent_at following
            (submit services index planned next false s))
  unfolding submit
  seam-Shrinks services planned index horizon sent_at following next k n s l v =
      concluded (services.submitted s.outputs)
    where
      concluded :
          (r : Submission F)
          → Shrinks n (
              seam services planned index horizon sent_at following
                (conclude services index planned next false r s))
      concluded (accepted duration) =
          (k, l, record { asked = v.asked; lifted = v.lifted; few = v.few })
      concluded rejected = tt
      concluded submission_raised = tt

  after_plan-Shrinks :
      (services : StrokeServices F J) (planned : Planned J) (index : ℕ) (horizon : Option F)
      (m : Moment F) (following : Planning J) (k n : ℕ) (s : StrokeStreamer F J)
      → k < n
      → Draining k s
      → Shrinks n (after_plan services planned index horizon m following s)
  after_plan-Shrinks services planned index horizon m planning_raised k n s l v = tt
  after_plan-Shrinks services planned index horizon m not_found k n s l v = tt
  after_plan-Shrinks services planned index horizon m (found following) k n s l v =
      seam-Shrinks services planned index horizon m.sent_at following (some following.positions) k n
        s l v

  with_window-Shrinks :
      (services : StrokeServices F J) (planned : Planned J) (index : ℕ) (horizon : Option F)
      (m : Moment F) (near : Bool) (r : Option (List (Command F)) × StrokeIntake F) (n : ℕ)
      (s : StrokeStreamer F J)
      → IsQuiet m
      → TakesNothing (near || true) s.intake r ⊎ TakesFront s.intake r
      → Draining n s
      → Shrinks n (with_window services planned index horizon m near true r s)
  unfolding act_all
  with_window-Shrinks services planned index horizon m near (none, intake) n s q t v = ground arith
  with_window-Shrinks services planned index horizon m near (some window, intake) n s q (inl t) v =
      ground arith
  with_window-Shrinks services planned index horizon m near (some window, intake) n s q (inr t) v =
      let cut =
        put (StrokeOutput.plan (world s window) planned.end_joints)
          (record s { intake = intake }) in
      rw q.1 (
        after_plan-Shrinks services planned index horizon m _ (length intake.points) n cut
          (omega (
            arith,
            v.few,
            t.some_point,
            length-append t.window intake.points,
            ap (λ l. length l) t.front,
          ))
          (record { asked = v.asked; lifted = t.open_kept ∙ v.lifted; few = omega arith }))

  either-Shrinks :
      (b : Bool) (n : ℕ) (r q : Round F J)
      → Shrinks n r
      → Shrinks n q
      → Shrinks n (if b then r else q)
  either-Shrinks true n r q v w = v
  either-Shrinks false n r q v w = w

  drained_window-Shrinks :
      (services : StrokeServices F J) (planned : Planned J) (index : ℕ) (horizon : Option F)
      (m : Moment F) (near drain : Bool) (n : ℕ) (s : StrokeStreamer F J)
      → drain ≡ true
      → IsQuiet m
      → Draining n s
      → Shrinks n (
          with_window services planned index horizon m near drain
            (take_window s.goal_seconds s.cartesian_speed (near || drain) s.intake)
            s)
  drained_window-Shrinks services planned index horizon m near true n s e q v =
      with_window-Shrinks services planned index horizon m near _ n s q
        (take_window_lem s.goal_seconds s.cartesian_speed (near || true) s.intake) v
  drained_window-Shrinks services planned index horizon m near false n s e q v = ground arith

  quiet_acts :
      (services : StrokeServices F J) (m : Moment F) (s : StrokeStreamer F J)
      → IsQuiet m
      → s ≡ act_all services m.acts s
  unfolding act_all
  quiet_acts services m s q = ap (λ l. act_all services l s) (sym q.0)

  chain_round-Shrinks :
      (services : StrokeServices F J) (planned : Planned J) (index : ℕ) (horizon : Option F)
      (m : Moment F) (n : ℕ) (s : StrokeStreamer F J)
      → IsQuiet m
      → Draining n s
      → Shrinks n (chain_round services planned index horizon m s)
  unfolding chain_round
  chain_round-Shrinks services planned index horizon m n before q v =
      let s = act_all services m.acts before in
      let w = subst (λ x. Draining n x) (quiet_acts services m before q) v in
      either-Shrinks s.stop_flag n _ _ tt (
        drained_window-Shrinks services planned index horizon m
          (deadline_near index horizon m.now s.chain_close_margin)
          (s.handback && not s.intake.stroke_open) n s (ground arith) q w)

  -- Once control is asked back with the pen up, and the coordination thread does nothing more, a
  -- chain with at most `n` points left comes to its end within n + 1 rounds, whatever the planner
  -- and the controller answer; an exception of
  -- theirs is such an end.
  pub chain_loop-drains :
      (services : StrokeServices F J) (moments : List (Moment F)) (planned : Planned J) (index : ℕ)
      (horizon : Option F) (n : ℕ) (s : StrokeStreamer F J)
      → n < length moments
      → All IsQuiet moments
      → Draining n s
      → (chain_loop services moments planned index horizon s).1 ≡ true
  unfolding chain_loop
  chain_loop-drains services [] planned index horizon n s l q v = ground arith
  chain_loop-drains services (m ∷ rest) planned index horizon n s l q v =
      after_round-ends (chain_round services planned index horizon m s)
        (chain_round-Shrinks services planned index horizon m n s q.0 v)
        (λ p i at k s' g w. chain_loop-drains services rest p i at k s' g q.1 w)
    where
      after_round-ends :
          (r : Round F J)
          → Shrinks n r
          → ((p : Planned J) (i : ℕ) (at : Option F) (k : ℕ) (s' : StrokeStreamer F J)
              → k < length rest
              → Draining k s'
              → (chain_loop services rest p i at s').1 ≡ true)
          → (after_round
              (λ p i at s'. chain_loop services rest p i at s')
              planned
              index
              horizon
              r).1
            ≡ true
      after_round-ends (ended s') h k = refl
      after_round-ends (waits s') h k = absurd h
      after_round-ends (goes_on s' following at) (j, less, w) k =
          k following (suc index) (some at) j s' (omega arith) w
