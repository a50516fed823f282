-- ===== src/StreamedSender/Retiming/Window.antt =====
-- A retimed goal is complete, and its ends carry the velocities of the seams.
use rmp_ros2_control.Prelude.{
  ℕ, zero, suc, ◌-◌, ◌≤◌, ◌≡◌, refl, ◌∙◌, ap, ◌>>=◌, Option, none, some, List, [], ◌∷◌, ◌++◌,
  length, drop, take, last?, get_elem?, get_elem?-bounded, length-append, length-take, last?-take,
  Yields, Yields-any, Yields-bind, arith,
}
use rmp_ros2_control.Float.{Float, lit, min, ◌⊕◌}
use rmp_ros2_control.StreamedSender.Retiming.{
  Joints, Interval, MotionLimits, Retimed, path_geometry, caps_after, speed_caps, forward, backward,
  slowed, speed_profile, durations, velocities_after, point_velocities, retime_positions, times_of,
  entering, finish_goal, retime_goal_window,
}

-- the first velocity is the one that the seam before carries on
abbrev pub Enters : {F : Type 0} → Option (Joints F) → List (Joints F) → Type 0
Enters none velocities = Unit
Enters (some v) velocities = get_elem? velocities 0 ≡ some v

module _ {F : Type 0} ⦃fl : Float F⦄ where
  length-path_geometry :
      (p : Joints F) (points : List (Joints F))
      → length (path_geometry (p ∷ points)) ≡ length points
  unfolding path_geometry
  length-path_geometry p [] = refl
  length-path_geometry p (q ∷ points) = omega (arith, length-path_geometry q points)

  length-caps_after :
      (limits : MotionLimits F) (s : Interval F) (intervals : List (Interval F))
      → length (caps_after limits s intervals) ≡ suc (length intervals)
  length-caps_after limits s [] = refl
  length-caps_after limits s (t ∷ intervals) = omega (arith, length-caps_after limits t intervals)

  length-speed_caps :
      (limits : MotionLimits F) (intervals : List (Interval F))
      → length (speed_caps limits intervals) ≡ suc (length intervals)
  unfolding speed_caps
  length-speed_caps limits [] = refl
  length-speed_caps limits (s ∷ intervals) = omega (arith, length-caps_after limits s intervals)

  length-forward :
      (a speed : F) (intervals : List (Interval F)) (caps : List F)
      → length caps ≡ length intervals
      → length (forward a speed intervals caps) ≡ length intervals
  unfolding forward
  length-forward a speed [] [] e = refl
  length-forward a speed (s ∷ intervals) [] e = absurd (omega (arith, e))
  length-forward a speed [] (c ∷ caps) e = absurd (omega (arith, e))
  length-forward a speed (s ∷ intervals) (c ∷ caps) e =
      omega (arith, length-forward a (min c _) intervals caps (omega (arith, e)))

  length-slowed :
      (a speed len : F) (speeds : List F) → length (slowed a speed len speeds) ≡ suc (length speeds)
  length-slowed a speed len [] = refl
  length-slowed a speed len (s ∷ speeds) = refl

  length-backward :
      (a exit speed : F) (intervals : List (Interval F)) (speeds : List F)
      → length speeds ≡ length intervals
      → length (backward a exit speed intervals speeds) ≡ suc (length intervals)
  unfolding backward
  length-backward a exit speed [] [] e = refl
  length-backward a exit speed (s ∷ intervals) [] e = absurd (omega (arith, e))
  length-backward a exit speed [] (s ∷ speeds) e = absurd (omega (arith, e))
  length-backward a exit speed (i ∷ intervals) (s ∷ speeds) e = omega (
    arith,
    length-slowed a speed i.0 (backward a exit s intervals speeds),
    length-backward a exit s intervals speeds (omega (arith, e)),
  )

  length-speed_profile :
      (a entry exit : F) (intervals : List (Interval F)) (caps : List F)
      → length caps ≡ suc (length intervals)
      → length (speed_profile a entry exit intervals caps) ≡ suc (length intervals)
  unfolding speed_profile
  length-speed_profile a entry exit intervals [] e = absurd (omega (arith, e))
  length-speed_profile a entry exit intervals (c ∷ caps) e =
      length-backward a exit (min c entry) intervals _
        (length-forward a (min c entry) intervals caps (omega (arith, e)))

  length-durations :
      (a : F) (intervals : List (Interval F)) (speeds : List F)
      → length speeds ≡ suc (length intervals)
      → length (durations a speeds intervals) ≡ length intervals
  unfolding durations
  length-durations a intervals [] e = absurd (omega (arith, e))
  length-durations a [] (s ∷ []) e = refl
  length-durations a (i ∷ intervals) (s ∷ []) e = absurd (omega (arith, e))
  length-durations a [] (s ∷ t ∷ speeds) e = absurd (omega (arith, e))
  length-durations a (i ∷ intervals) (s ∷ t ∷ speeds) e =
      omega (arith, length-durations a intervals (t ∷ speeds) (omega (arith, e)))

  length-velocities_after :
      (s : Interval F) (intervals : List (Interval F)) (speeds : List F)
      → length speeds ≡ suc (length intervals)
      → length (velocities_after s intervals speeds) ≡ suc (length intervals)
  length-velocities_after s intervals [] e = absurd (omega (arith, e))
  length-velocities_after s [] (v ∷ speeds) e = refl
  length-velocities_after s (t ∷ intervals) (v ∷ speeds) e =
      omega (arith, length-velocities_after t intervals speeds (omega (arith, e)))

  point_velocities-Complete :
      (intervals : List (Interval F)) (speeds : List F)
      → 1 ≤ length intervals
      → length speeds ≡ suc (length intervals)
      → Yields (λ v. length v ≡ suc (length intervals)) (point_velocities intervals speeds)
  unfolding point_velocities
  point_velocities-Complete [] speeds h e = absurd (omega (arith, h))
  point_velocities-Complete (s ∷ intervals) [] h e = absurd (omega (arith, e))
  point_velocities-Complete (s ∷ intervals) (v ∷ speeds) h e =
      omega (arith, length-velocities_after s intervals speeds (omega (arith, e)))

  -- as many durations as intervals, as many speeds and velocities as points
  abbrev Covers : ℕ → List F × List F × List (Joints F) → Type 0
  Covers n (ds, speeds, velocities) =
      (suc (length ds) ≡ n) × (length speeds ≡ n) × (length velocities ≡ n)

  retime_positions-Covers :
      (p q : Joints F) (points : List (Joints F)) (limits : MotionLimits F) (entry exit : F)
      → Yields
          (Covers (suc (suc (length points))))
          (retime_positions (p ∷ q ∷ points) limits entry exit)
  unfolding retime_positions
  retime_positions-Covers p q points limits entry exit =
      let intervals = path_geometry (p ∷ q ∷ points) in
      let count = length-path_geometry p (q ∷ points) in
      let caps = length-speed_caps limits intervals in
      let speeds =
        speed_profile limits.path_accel entry exit intervals (speed_caps limits intervals) in
      let many : length speeds ≡ suc (length intervals) =
        length-speed_profile limits.path_accel entry exit intervals (speed_caps limits intervals)
          caps in
      Yields-bind (λ v. length v ≡ suc (length intervals)) _ (point_velocities intervals speeds) _
        (point_velocities-Complete intervals speeds (omega (arith, count)) many)
        (λ v _ e. (
          omega (arith, count, length-durations limits.path_accel intervals speeds many),
          omega (arith, count, many),
          omega (arith, count, e),
        ))

  length-times_of : (total : F) (ds : List F) → length (times_of total ds) ≡ suc (length ds)
  length-times_of total [] = refl
  length-times_of total (d ∷ ds) = omega (arith, length-times_of (total ⊕ d) ds)

  pub length-entering :
      (entry : Option (Joints F)) (velocities : List (Joints F))
      → length (entering entry velocities) ≡ length velocities
  length-entering none velocities = refl
  length-entering (some v) [] = refl
  length-entering (some v) (w ∷ velocities) = refl

  pub Enters-take :
      (entry : Option (Joints F)) (n : ℕ) (velocities : List (Joints F))
      → 1 ≤ n
      → 1 ≤ length velocities
      → Enters entry (take n (entering entry velocities))
  Enters-take none n velocities a b = tt
  Enters-take (some v) zero velocities a b = absurd (omega (arith, a))
  Enters-take (some v) (suc n) [] a b = absurd (omega (arith, b))
  Enters-take (some v) (suc n) (w ∷ velocities) a b = refl

  -- one time and one velocity for each point of the goal, and the seams on both sides
  pub record IsRetimed (goal : List (Joints F)) (entry : Option (Joints F)) (r : Retimed F)
      : Type 0 where
    pub all_times : length r.times ≡ length goal
    pub all_velocities : length r.velocities ≡ length goal
    pub enters : Enters entry r.velocities
    pub leaves : last? r.velocities ≡ some r.seam_velocity

  -- a window that begins with the goal
  window_goal :
      (p q : Joints F) (rest points : List (Joints F)) (limits : MotionLimits F) (speed : F)
      (entry : Option (Joints F))
      → length rest ≤ length points
      → Yields (IsRetimed (p ∷ q ∷ rest) entry) (
          retime_positions (p ∷ q ∷ points) limits speed (lit 0 1)
          >>= finish_goal (p ∷ q ∷ rest) entry)
  window_goal p q rest points limits speed entry h =
      Yields-bind (Covers (suc (suc (length points)))) _
        (retime_positions (p ∷ q ∷ points) limits speed (lit 0 1)) _
        (retime_positions-Covers p q points limits speed (lit 0 1))
        (λ r _ c.
          let vs = entering entry r.2 in
          let i = length (p ∷ q ∷ rest) - 1 in
          let ei = length-entering entry r.2 in
          Yields-bind (λ _. Unit) _ (get_elem? r.1 i) _
            (Yields-any _ (get_elem?-bounded r.1 i (omega (arith, h, c.1))))
            (λ s _ _.
              Yields-bind (λ _. Unit) _ (get_elem? vs i) _
                (Yields-any _ (get_elem?-bounded vs i (omega (arith, h, ei, c.2))))
                (λ v at _.
                  let same : length (p ∷ q ∷ rest) ≡ suc i = omega arith in
                  record {
                    all_times = omega (
                      arith,
                      h,
                      c.0,
                      length-times_of (lit 0 1) (take i r.0),
                      length-take i r.0 (omega (arith, h, c.0)),
                    );
                    all_velocities =
                        length-take (length (p ∷ q ∷ rest)) vs (omega (arith, h, ei, c.2));
                    enters =
                        Enters-take entry (length (p ∷ q ∷ rest)) r.2 (omega arith)
                          (omega (arith, c.2));
                    leaves =
                        ap (λ n. last? (take n vs)) same
                        ∙ last?-take i vs (omega (arith, h, ei, c.2))
                        ∙ at;
                  })))

  -- A goal of at least two points, with or without a goal planned after it: the retiming succeeds with
  -- one time and one velocity for each point of the goal, the first velocity is the entry velocity
  -- where there is one, and the last one is the seam velocity that is carried into the next goal.
  pub retime_goal_window-IsRetimed :
      (p q : Joints F) (rest : List (Joints F)) (next : Option (List (Joints F)))
      (limits : MotionLimits F) (entry_speed : F) (entry : Option (Joints F))
      → Yields
          (IsRetimed (p ∷ q ∷ rest) entry)
          (retime_goal_window (p ∷ q ∷ rest) next limits entry_speed entry)
  unfolding retime_goal_window
  retime_goal_window-IsRetimed p q rest none limits entry_speed entry =
      window_goal p q rest rest limits entry_speed entry (omega arith)
  retime_goal_window-IsRetimed p q rest (some next) limits entry_speed entry =
      window_goal p q rest (rest ++ drop 1 next) limits entry_speed entry
        (omega (arith, length-append rest (drop 1 next)))
