-- ===== src/StreamedSender/Retiming.antt =====
-- send_cartesian_path_streamed.py: the retiming of a joint path. A path is its points; between two of
-- them is an interval with a length and a direction. `x ** 2` is the product. The indices that the code
-- walks are the places of the lists here, and a cap of none is an interval that lowers no speed.
pub mod Window
use rmp_ros2_control.Prelude.{
  ℕ, zero, suc, ◌-◌, Bool, true, false, ◌||◌, Option, none, some, List, [], ◌∷◌, ◌++◌, map, length,
  drop, take, get_elem?, if◌then◌else◌, ◌>>=◌,
}
use rmp_ros2_control.Float.{Float, lit, max, min, ◌⊕◌, ◌⊖◌, ◌⊗◌, ◌⊘◌, ◌<?◌, ◌≤?◌}

abbrev pub Joints : Type 0 → Type 0
Joints F = List F

-- the length of an interval and its unit direction
abbrev pub Interval : Type 0 → Type 0
Interval F = F × Joints F

abbrev pub zip_with : {A B C : Type 0} → (A → B → C) → List A → List B → List C
zip_with f [] ys = []
zip_with f (x ∷ xs) [] = []
zip_with f (x ∷ xs) (y ∷ ys) = f x y ∷ zip_with f xs ys

-- The limits of `retime_positions`.
pub record MotionLimits (F : Type 0) : Type 0 where
  pub velocity_limit : F
  pub path_accel : F
  pub corner_delta_v : F

-- what is sent of a retimed goal, and what its seam carries on
pub record Retimed (F : Type 0) : Type 0 where
  pub times : List F
  pub velocities : List (Joints F)
  pub seam_speed : F
  pub seam_velocity : Joints F

module _ {F : Type 0} ⦃fl : Float F⦄ where
  abbrev sum_squares : Joints F → F
  sum_squares [] = lit 0 1
  sum_squares (x ∷ xs) = x ⊗ x ⊕ sum_squares xs

  abbrev norm : Joints F → F
  norm v = fl.sqrt (sum_squares v)

  abbrev scaled : F → Joints F → Joints F
  scaled c v = map (λ x. x ⊗ c) v

  abbrev interval_of : Joints F → Joints F → Interval F
  interval_of p q =
      let step = zip_with (λ a b. b ⊖ a) p q in
      let len = norm step in
      if lit 1 12 <? len then (len, map (λ x. x ⊘ len) step) else (len, map (λ x. lit 0 1) step)

  -- joint_path_geometry
  unfoldable pub path_geometry : List (Joints F) → List (Interval F)
  path_geometry [] = []
  path_geometry (p ∷ []) = []
  path_geometry (p ∷ q ∷ points) = interval_of p q ∷ path_geometry (q ∷ points)

  abbrev dot : Joints F → Joints F → F
  dot [] ys = lit 0 1
  dot (x ∷ xs) [] = lit 0 1
  dot (x ∷ xs) (y ∷ ys) = x ⊗ y ⊕ dot xs ys

  -- the largest absolute entry
  abbrev largest : Joints F → F
  largest [] = lit 0 1
  largest (x ∷ []) = fl.abs x
  largest (x ∷ y ∷ xs) = max (fl.abs x) (largest (y ∷ xs))

  -- `none` is the infinite cap of a gentle join
  unfoldable pub junction_cap : Joints F → Joints F → F → Option F
  unfolding max min
  junction_cap dir_in dir_out corner_delta_v =
      let cos_theta = min (max (dot dir_in dir_out) (fl.neg (lit 10 1))) (lit 10 1) in
      let velocity_step = largest (zip_with (λ a b. b ⊖ a) dir_in dir_out) in
      if fl.cos (fl.radians (lit 15 0)) ≤? cos_theta
      then none
      else some (corner_delta_v ⊘ max velocity_step (lit 1 9))

  abbrev interval_cap : F → Interval F → Option F
  interval_cap velocity_limit (len, dir) =
      if len ≤? lit 1 12 then none else some (velocity_limit ⊘ max (largest dir) (lit 1 9))

  abbrev pub lower : F → Option F → F
  lower bound none = bound
  lower bound (some c) = min bound c

  abbrev corner_cap : MotionLimits F → Interval F → Interval F → Option F
  corner_cap limits (len, dir) (len', dir') =
      if len ≤? lit 1 5 || len' ≤? lit 1 5
      then none
      else junction_cap dir dir' limits.corner_delta_v

  abbrev inner_cap : MotionLimits F → Interval F → Interval F → F
  inner_cap limits s t =
      lower
        (lower (lower fl.inf (interval_cap limits.velocity_limit s))
          (interval_cap limits.velocity_limit t))
        (corner_cap limits s t)

  abbrev pub caps_after : MotionLimits F → Interval F → List (Interval F) → List F
  caps_after limits s [] = lower fl.inf (interval_cap limits.velocity_limit s) ∷ []
  caps_after limits s (t ∷ intervals) = inner_cap limits s t ∷ caps_after limits t intervals

  -- point_speed_caps
  unfoldable pub speed_caps : MotionLimits F → List (Interval F) → List F
  unfolding junction_cap max min
  speed_caps limits [] = fl.inf ∷ []
  speed_caps limits (s ∷ intervals) =
      lower fl.inf (interval_cap limits.velocity_limit s) ∷ caps_after limits s intervals

  abbrev reachable : F → F → F → F
  reachable path_accel speed len = fl.sqrt (speed ⊗ speed ⊕ lit 20 1 ⊗ path_accel ⊗ len)

  -- the forward pass, after a point with its speed
  unfoldable pub forward : F → F → List (Interval F) → List F → List F
  unfolding min
  forward path_accel speed intervals [] = []
  forward path_accel speed [] (bound ∷ caps) = []
  forward path_accel speed ((len, dir) ∷ intervals) (bound ∷ caps) =
      let next = min bound (reachable path_accel speed len) in
      next ∷ forward path_accel next intervals caps

  abbrev pub slowed : F → F → F → List F → List F
  slowed path_accel speed len [] = speed ∷ []
  slowed path_accel speed len (next ∷ speeds) =
      min speed (reachable path_accel next len) ∷ next ∷ speeds

  -- the exit speed, then the backward pass
  unfoldable pub backward : F → F → F → List (Interval F) → List F → List F
  unfolding min
  backward path_accel exit_speed speed intervals [] = min speed exit_speed ∷ []
  backward path_accel exit_speed speed [] (s ∷ speeds) = []
  backward path_accel exit_speed speed ((len, dir) ∷ intervals) (s ∷ speeds) =
      slowed path_accel speed len (backward path_accel exit_speed s intervals speeds)

  -- forward_backward_speeds
  unfoldable pub speed_profile : F → F → F → List (Interval F) → List F → List F
  unfolding forward backward min
  speed_profile path_accel entry_speed exit_speed intervals [] = []
  speed_profile path_accel entry_speed exit_speed intervals (bound ∷ caps) =
      let first = min bound entry_speed in
      backward path_accel exit_speed first intervals (forward path_accel first intervals caps)

  abbrev pub duration : F → F → F → F → F
  duration path_accel len before after =
      let pair_speed = before ⊕ after in
      if len ≤? lit 1 12
      then lit 2 3
      else if pair_speed ≤? lit 1 9
      then max (lit 2 3) (lit 20 1 ⊗ fl.sqrt (len ⊘ path_accel))
      else max (lit 2 3) (lit 20 1 ⊗ len ⊘ pair_speed)

  -- speeds_to_durations
  unfoldable pub durations : F → List F → List (Interval F) → List F
  unfolding max
  durations path_accel [] intervals = []
  durations path_accel (s ∷ []) intervals = []
  durations path_accel (s ∷ t ∷ speeds) [] = []
  durations path_accel (s ∷ t ∷ speeds) ((len, dir) ∷ intervals) =
      duration path_accel len s t ∷ durations path_accel (t ∷ speeds) intervals

  -- a velocity at a speed in a blended direction
  abbrev pub along : Joints F → F → Joints F
  along blended speed =
      let n = norm blended in
      if lit 1 12 <? n then map (λ x. x ⊘ n ⊗ speed) blended else map (λ x. lit 0 1) blended

  abbrev pub weighted : Interval F → Joints F
  weighted (len, dir) = scaled len dir

  abbrev pub velocities_after : Interval F → List (Interval F) → List F → List (Joints F)
  velocities_after s intervals [] = []
  velocities_after s [] (speed ∷ speeds) = along (weighted s) speed ∷ []
  velocities_after s (t ∷ intervals) (speed ∷ speeds) =
      along (zip_with fl.add (weighted s) (weighted t)) speed ∷ velocities_after t intervals speeds

  -- point_joint_velocities; a path of one point has no direction to blend, which raises
  unfoldable pub point_velocities : List (Interval F) → List F → Option (List (Joints F))
  point_velocities [] speeds = none
  point_velocities (s ∷ intervals) [] = none
  point_velocities (s ∷ intervals) (speed ∷ speeds) =
      some (along (weighted s) speed ∷ velocities_after s intervals speeds)

  -- retime_positions
  unfoldable pub retime_positions :
      List (Joints F) → MotionLimits F → F → F → Option (List F × List F × List (Joints F))
  unfolding path_geometry speed_caps speed_profile durations point_velocities
  retime_positions positions limits entry_speed exit_speed =
      let intervals = path_geometry positions in
      let caps = speed_caps limits intervals in
      let speeds = speed_profile limits.path_accel entry_speed exit_speed intervals caps in
      point_velocities intervals speeds >>= λ velocities.
      some (durations limits.path_accel speeds intervals, speeds, velocities)

  abbrev pub times_of : F → List F → List F
  times_of total [] = total ∷ []
  times_of total (d ∷ ds) = total ∷ times_of (total ⊕ d) ds

  abbrev pub window_of : List (Joints F) → Option (List (Joints F)) → List (Joints F)
  window_of goal none = goal
  window_of goal (some next) = goal ++ drop 1 next

  abbrev pub entering : Option (Joints F) → List (Joints F) → List (Joints F)
  entering none velocities = velocities
  entering (some v) [] = []
  entering (some v) (w ∷ velocities) = v ∷ velocities

  -- the slice of the goal in its retimed window
  abbrev pub finish_goal :
      List (Joints F) → Option (Joints F) → List F × List F × List (Joints F) → Option (Retimed F)
  finish_goal goal entry_velocity (durations, speeds, window_velocities) = do
    let velocities = entering entry_velocity window_velocities
    seam_speed ← get_elem? speeds (length goal - 1)
    seam_velocity ← get_elem? velocities (length goal - 1)
    some (record {
      times = times_of (lit 0 1) (take (length goal - 1) durations);
      velocities = take (length goal) velocities;
      seam_speed = seam_speed;
      seam_velocity = seam_velocity;
    })

  -- retime_goal_window
  unfoldable pub retime_goal_window :
      List (Joints F)
      → Option (List (Joints F))
      → MotionLimits F
      → F
      → Option (Joints F)
      → Option (Retimed F)
  unfolding retime_positions
  retime_goal_window goal next limits entry_speed entry_velocity =
      retime_positions (window_of goal next) limits entry_speed (lit 0 1)
      >>= finish_goal goal entry_velocity
