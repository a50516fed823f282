-- ===== src/StreamedSender/Chain/Sending.antt =====
-- One goal: the wait for room, the parameter, and what is sent.
use rmp_ros2_control.Prelude.{
  ℕ, ◌≤◌, ◌<◌, ◌≡◌, refl, sym, ap, subst, ◌⊎◌, inl, inr, Bool, true, false, Option, none, some,
  List, [], ◌∷◌, length, length-append, arith, Bool-cases,
}
use rmp_ros2_control.Float.{Float}
use rmp_ros2_control.StreamedSender.Retiming.{Joints, Retimed}
use rmp_ros2_control.StreamedSender.Chain.{
  Cell, Streaming, SentGoal, Poll, same_flag, set_finalize, still_pending, poll_once, waits, pace,
  dispatch, submit, drain, is_empty,
}
use rmp_ros2_control.StreamedSender.Chain.Loop.{message, submit_if, emit}

-- the goals in flight, against their limit
abbrev pub Bounded : {F : Type 0} → ℕ → Streaming F → Type 0
Bounded most s = length s.in_flight ≤ most

still_pending_le : (poll : Poll) (goals : List ℕ) → length (still_pending poll goals) ≤ length goals
still_pending_le poll [] = omega arith
still_pending_le poll (g ∷ goals) = ground (arith, still_pending_le poll goals)

same_flag_lem : (current : Option Bool) (v : Bool) → same_flag current v ≡ true → current ≡ some v
same_flag_lem none v h = absurd (ground arith)
same_flag_lem (some true) v h = ap some (sym h)
same_flag_lem (some false) true h = absurd (ground arith)
same_flag_lem (some false) false h = refl

module _ {F : Type 0} where
  -- what a wait keeps
  pub record Kept (s s' : Streaming F) : Type 0 where
    pub sent : s'.sent ≡ s.sent
    pub current : s'.current ≡ s.current
    pub fewer : length s'.in_flight ≤ length s.in_flight

  Kept-step : (poll : Poll) (s s' : Streaming F) → Kept (poll_once poll s) s' → Kept s s'
  unfolding poll_once
  Kept-step poll s s' k = record {
    sent = k.sent;
    current = k.current;
    fewer = omega (arith, k.fewer, still_pending_le poll s.in_flight);
  }

  Kept-self : (s : Streaming F) → Kept s s
  Kept-self s = record { sent = refl; current = refl; fewer = omega arith }

  -- room for a goal, or the pipeline has failed
  Room : ℕ → Streaming F × Bool → Type 0
  Room most (s, false) = Unit
  Room most (s, true) = (s.failed ≡ true) ⊎ (length s.in_flight < most)

  Room-now : (most : ℕ) (s : Streaming F) → waits most s ≡ false → Room most (s, true)
  unfolding Room
  Room-now most s h = ground arith

  pace-Kept :
      (most : ℕ) (polls : List Poll) (s : Streaming F)
      → Kept s (pace most polls s).0 × Room most (pace most polls s)
  unfolding pace Room
  pace-Kept most [] s = elim (Bool-cases (waits most s)) [
    | inl t ↦ rw t (Kept-self s, tt)
    | inr t ↦ rw t (Kept-self s, Room-now most s t)
  ]
  pace-Kept most (p ∷ []) s = elim (Bool-cases (waits most s)) [
    | inl t ↦ rw t (Kept-step p s (poll_once p s) (Kept-self (poll_once p s)), tt)
    | inr t ↦ rw t (Kept-self s, Room-now most s t)
  ]
  pace-Kept most (p ∷ q ∷ polls) s = elim (Bool-cases (waits most s)) [
    | inl t ↦ rw t (
        let (k, r) = pace-Kept most (q ∷ polls) (poll_once p s) in
        (Kept-step p s (pace most (q ∷ polls) (poll_once p s)).0 k, r))
    | inr t ↦ rw t (Kept-self s, Room-now most s t)
  ]

  -- the goal that was sent last, with the parameter at its value, or nothing was
  abbrev pub Emitted : ℕ → SentGoal F → List (SentGoal F) → Streaming F × Bool → Type 0
  Emitted most goal before (s, false) = (s.sent ≡ before) × Bounded most s
  Emitted most goal before (s, true) = (s.sent ≡ goal ∷ before) × Bounded most s

  dispatch-Emitted :
      (cell : Cell F) (index most : ℕ) (goal : SentGoal F) (before : List (SentGoal F))
      (r : Streaming F × Bool)
      → r.0.sent ≡ before
      → Bounded most r.0
      → Room most r
      → Emitted most goal before (dispatch cell index goal r)
  unfolding Room
  dispatch-Emitted cell index most goal before (s, false) e b m = (e, b)
  dispatch-Emitted cell index most goal before (s, true) e b m =
      ground (arith, length-append s.in_flight (index ∷ []))

  submit-Emitted :
      (cell : Cell F) (index : ℕ) (goal : SentGoal F) (s : Streaming F)
      → Bounded cell.max_inflight s
      → Emitted cell.max_inflight goal s.sent (submit cell index goal s)
  unfolding submit
  submit-Emitted cell index goal s b =
      let (k, m) = pace-Kept cell.max_inflight (cell.pacing s.calls) s in
      dispatch-Emitted cell index cell.max_inflight goal s.sent
        (pace cell.max_inflight (cell.pacing s.calls) s) k.sent (omega (arith, k.fewer, b)) m

  -- the parameter is set, or nothing was sent
  Switched : Bool → Streaming F → Streaming F × Bool → Type 0
  Switched value s (s', false) = (s'.sent ≡ s.sent) × (s'.in_flight ≡ s.in_flight)
  Switched value s (s', true) =
      (s'.sent ≡ s.sent) × (s'.in_flight ≡ s.in_flight) × (s'.current ≡ some value)

  set_finalize-Switched :
      (cell : Cell F) (value : Bool) (s : Streaming F)
      → Switched value s (set_finalize cell value s)
  unfolding set_finalize Switched
  set_finalize-Switched cell value s = elim (Bool-cases (same_flag s.current value)) [
    | inl t ↦ rw t (refl, refl, same_flag_lem s.current value t)
    | inr t ↦ rw t (ground arith)
  ]

  pub drain-Kept : (polls : List Poll) (s : Streaming F) → Kept s (drain polls s).0
  unfolding drain
  drain-Kept [] s = Kept-self s
  drain-Kept (p ∷ polls) s = elim (Bool-cases (is_empty s.in_flight)) [
    | inl t ↦ rw t (Kept-self s)
    | inr t ↦
        rw t (Kept-step p s (drain polls (poll_once p s)).0 (drain-Kept polls (poll_once p s)))
  ]

module _ {F : Type 0} ⦃fl : Float F⦄ where
  submit_if-Emitted :
      (cell : Cell F) (index : ℕ) (positions : List (Joints F)) (r : Retimed F) (value : Bool)
      (s : Streaming F) (switched : Streaming F × Bool)
      → Switched value s switched
      → Bounded cell.max_inflight s
      → Emitted cell.max_inflight
          (message (some value) positions r)
          s.sent
          (submit_if cell index positions r switched)
  unfolding Switched
  submit_if-Emitted cell index positions r value s (s', false) w b = ground arith
  submit_if-Emitted cell index positions r value s (s', true) w b =
      rw ((sym w.0), (sym w.2))
        (submit-Emitted cell index (message s'.current positions r) s'
          (subst (λ l. length l ≤ cell.max_inflight) (sym w.1) b))

  pub emit-Emitted :
      (cell : Cell F) (index : ℕ) (positions : List (Joints F)) (value : Bool) (r : Retimed F)
      (s : Streaming F)
      → Bounded cell.max_inflight s
      → Emitted cell.max_inflight
          (message (some value) positions r)
          s.sent
          (emit cell index positions value r s)
  unfolding emit
  emit-Emitted cell index positions value r s b =
      submit_if-Emitted cell index positions r value s (set_finalize cell value s)
        (set_finalize-Switched cell value s) b
