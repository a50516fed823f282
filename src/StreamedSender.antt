-- ===== src/StreamedSender.antt =====
-- send_cartesian_path_streamed.py: where the waypoints of a recipe are cut into goals. `none` is an
-- exception.
pub mod Slices
pub mod Retiming
pub mod Chain
use rmp_ros2_control.Prelude.{
  ℕ, zero, suc, ◌+◌, ◌-◌, Bool, true, false, not, ◌&&◌, Option, none, some, List, [], ◌∷◌, ◌++◌,
  length, last?, take, drop, ltb, get_elem?, range_from, if◌then◌else◌, ◌>>=◌,
}
use rmp_ros2_control.Prelude.Int.{ℤ, pos, negsuc}
use rmp_ros2_control.Float.{Float, lit, max, ◌⊕◌, ◌⊖◌, ◌⊗◌, ◌⊘◌, ◌<?◌, ◌≤?◌}
use rmp_ros2_control.Linalg.{Command}
use rmp_ros2_control.Recipe.{RecipeSegment, RecipeDoc, Defaults, Quaternion, Anchor}
use rmp_ros2_control.Recipe.Curves.{segment_local_points, collect}
use rmp_ros2_control.Recipe.Waypoints.{
  Coords, Waypoint, relative, absolute, build_waypoints, anchor_pose,
}

abbrev count : ℤ → ℕ
count (pos n) = n
count (negsuc n) = 0

abbrev pub after_last : ℕ → Option ℕ → Bool
after_last cut none = true
after_last cut (some last) = ltb last cut

-- the guard under which a cut is kept, of a list with so many waypoints
unfoldable pub keep_cut : ℕ → ℕ → List ℕ → List ℕ
keep_cut points cut cuts =
    if ltb 0 cut && ltb cut (points - 1) && after_last cut (last? cuts)
    then cuts ++ cut ∷ []
    else cuts

module _ {F : Type 0} ⦃fl : Float F⦄ where
  abbrev step_length : Command F → Command F → F
  step_length (x, y, z) (x', y', z') =
      let dx = x' ⊖ x in let dy = y' ⊖ y in let dz = z' ⊖ z in fl.sqrt (dx ⊗ dx ⊕ dy ⊗ dy ⊕ dz ⊗ dz)

  -- cartesian_step_lengths
  unfoldable pub step_lengths : List (Waypoint F) → List F
  step_lengths [] = []
  step_lengths (w ∷ []) = []
  step_lengths (w ∷ v ∷ ws) = step_length w.0 v.0 ∷ step_lengths (v ∷ ws)

  abbrev pub running : F → F → List F → List F
  running total speed [] = total ∷ []
  running total speed (d ∷ ds) = total ∷ running (total ⊕ d ⊘ speed) speed ds

  -- estimate_waypoint_times
  unfoldable pub waypoint_times : List (Waypoint F) → F → List F
  unfolding step_lengths max
  waypoint_times waypoints cartesian_speed =
      running (lit 0 1) (max cartesian_speed (lit 1 9)) (step_lengths waypoints)

  -- segment_start_indices
  unfoldable pub segment_starts : ℕ → List (RecipeSegment F) → Defaults F → Option (List ℕ)
  segment_starts cursor [] defaults = some []
  segment_starts cursor (segment ∷ segments) defaults = do
    points ← segment_local_points segment defaults
    starts ← segment_starts (cursor + length points) segments defaults
    some (cursor ∷ starts)

  -- np.searchsorted, of an ascending array
  abbrev search_sorted : List F → F → ℕ
  search_sorted [] target = 0
  search_sorted (t ∷ times) target =
      let rest = search_sorted times target in if t <? target then suc rest else 0

  -- a start of a segment, with its time
  abbrev pub timed_start : List F → ℕ → Option (ℕ × F)
  timed_start times start = do t ← get_elem? times start; some (start, t)

  abbrev distance : F → ℕ × F → F
  distance target boundary = fl.abs (boundary.1 ⊖ target)

  -- np.argmin: the first of the nearest
  abbrev nearest : F → ℕ × F → List (ℕ × F) → ℕ × F
  nearest target best [] = best
  nearest target best (b ∷ bs) =
      nearest target (if distance target b <? distance target best then b else best) bs

  abbrev snapped : F → F → ℕ → List (ℕ × F) → ℕ
  snapped target goal_seconds cut [] = cut
  snapped target goal_seconds cut (b ∷ bs) =
      let near = nearest target b bs in
      if distance target near ≤? goal_seconds ⊘ lit 2 0 then near.0 else cut

  -- the loop over the goals
  unfoldable pub cut_loop : List F → List (ℕ × F) → F → F → ℕ → List ℕ → List ℕ → List ℕ
  unfolding keep_cut
  cut_loop times boundaries goal_seconds total goals [] cuts = cuts
  cut_loop times boundaries goal_seconds total goals (goal ∷ rest) cuts =
      let target = total ⊗ lit goal 0 ⊘ lit goals 0 in
      let cut = snapped target goal_seconds (search_sorted times target) boundaries in
      cut_loop times boundaries goal_seconds total goals rest (keep_cut (length times) cut cuts)

  -- the cuts of a drawing that is longer than one goal
  abbrev pub cuts_of : List F → List ℕ → F → F → Option (List ℕ)
  cuts_of times starts goal_seconds total =
      let goals = count (fl.ceil (total ⊘ goal_seconds)) in
      let targets = range_from 1 (goals - 1) in
      collect (timed_start times) starts >>= λ boundaries.
      some (cut_loop times boundaries goal_seconds total goals targets [])

  -- split_cut_indices
  unfoldable pub split_cuts : List F → List ℕ → F → Option (List ℕ)
  unfolding cut_loop
  split_cuts times starts goal_seconds = last? times >>= λ total.
      if total ≤? goal_seconds then some [] else cuts_of times starts goal_seconds total

-- `waypoints[bounds[k]:bounds[k + 1] + 1]`, for each k
unfoldable pub pieces : {A : Type 0} → List A → List ℕ → List (List A)
pieces ws [] = []
pieces ws (b ∷ []) = []
pieces ws (b ∷ c ∷ bounds) = take (c + 1 - b) (drop b ws) ∷ pieces ws (c ∷ bounds)

-- slice_goal_waypoints
unfoldable pub slice_goals : {A : Type 0} → List A → List ℕ → List (List A)
unfolding pieces
slice_goals ws cuts = pieces ws (0 ∷ (cuts ++ (length ws - 1) ∷ []))

-- the arguments that the geometry takes
pub record Placement (F : Type 0) : Type 0 where
  pub scale : F
  pub rotate : F
  pub plane_rotate : F
  pub goal_seconds : F

module _ {F : Type 0} ⦃fl : Float F⦄ where
  abbrev origin : Command F × Quaternion F
  origin = ((lit 0 1, lit 0 1, lit 0 1), (lit 10 1, lit 0 1, lit 0 1, lit 0 1))

  abbrev pub start_pose : Option (Anchor F) → Coords → Option (Command F × Quaternion F)
  start_pose (some anchor) relative = anchor_pose anchor
  start_pose (some anchor) absolute = some origin
  start_pose none coords = some origin

  -- an empty drawing has no array of points to measure
  abbrev pub some_waypoints : List (Waypoint F) → Option (List (Waypoint F))
  some_waypoints [] = none
  some_waypoints (w ∷ ws) = some (w ∷ ws)

  unfoldable pub prepare_split :
      RecipeDoc F
      → Coords
      → Defaults F
      → List (RecipeSegment F)
      → Placement F
      → Option (List (Waypoint F) × List (List (Waypoint F)) × List ℕ × List F)
  unfolding waypoint_times segment_starts split_cuts slice_goals max
  prepare_split doc coords defaults segments at = do
    start ← start_pose doc.anchor coords
    built ←
        build_waypoints segments start.0 start.1 coords defaults at.scale at.rotate at.plane_rotate
    starts ← segment_starts 0 segments defaults
    waypoints ← some_waypoints built
    let times = waypoint_times waypoints (max (lit 1 3) (lit 25 2 ⊗ defaults.vel))
    cuts ← split_cuts times starts at.goal_seconds
    some (waypoints, slice_goals waypoints cuts, cuts, times)
