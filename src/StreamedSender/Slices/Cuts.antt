-- ===== src/StreamedSender/Slices/Cuts.antt =====
-- The goals of a drawing are its waypoints, joined at the waypoints that they share.
use rmp_ros2_control.Prelude.{
  ℕ, suc, ◌-◌, ◌<◌, true, ◌&&◌, ◌≡◌, refl, Option, none, some, List, [], ◌∷◌, ◌++◌, length, last?,
  range_from, ltb, ltb→lt, Holds, Holds-bind, Holds-any, ◌⊎◌, Bool-cases, inl, inr, arith, ◌>>=◌,
  subst,
}
use rmp_ros2_control.Float.{Float, lit, max, ◌⊕◌, ◌⊘◌, ◌≤?◌}
use rmp_ros2_control.Recipe.Curves.{collect}
use rmp_ros2_control.Recipe.{RecipeSegment, RecipeDoc, Defaults}
use rmp_ros2_control.Recipe.Waypoints.{Coords, Waypoint, build_waypoints}
use rmp_ros2_control.StreamedSender.{
  slice_goals, keep_cut, cut_loop, split_cuts, after_last, prepare_split, Placement, waypoint_times,
  step_lengths, segment_starts, running, timed_start, count, start_pose, some_waypoints,
}
use rmp_ros2_control.StreamedSender.Slices.{
  Between, rejoined, Seamed, rejoined-pieces, pieces-Seamed,
}

above_first :
    (low high cut d : ℕ) (cuts : List ℕ)
    → Between low high (d ∷ cuts)
    → Holds (λ l. l < cut) (last? (d ∷ cuts))
    → low < cut
above_first low high cut d [] b e = omega (arith, b.0, e)
above_first low high cut d (c ∷ cuts) b e = omega (arith, b.0, above_first d high cut c cuts b.2 e)

Between-append :
    (low high cut : ℕ) (cuts : List ℕ)
    → Between low high cuts
    → low < cut
    → cut < high
    → Holds (λ l. l < cut) (last? cuts)
    → Between low high (cuts ++ cut ∷ [])
Between-append low high cut [] b l h e = (l, h, tt)
Between-append low high cut (c ∷ []) b l h e = (b.0, b.1, (e, h, tt))
Between-append low high cut (c ∷ d ∷ cuts) b l h e =
    (b.0, b.1, Between-append c high cut (d ∷ cuts) b.2 (above_first c high cut d cuts b.2 e) h e)

after_last_lem :
    (cut : ℕ) (last : Option ℕ) → after_last cut last ≡ true → Holds (λ l. l < cut) last
after_last_lem cut none h = tt
after_last_lem cut (some l) h = ltb→lt l cut h

keep_cut-Between :
    (points cut : ℕ) (cuts : List ℕ)
    → Between 0 (points - 1) cuts
    → Between 0 (points - 1) (keep_cut points cut cuts)
unfolding keep_cut
keep_cut-Between points cut cuts b =
    elim (Bool-cases (ltb 0 cut && ltb cut (points - 1) && after_last cut (last? cuts))) [
      | inl t ↦ rw t (
          Between-append 0 (points - 1) cut cuts b (ground arith) (ground arith)
            (after_last_lem cut (last? cuts) (ground arith)))
      | inr t ↦ rw t b
    ]

module _ {F : Type 0} ⦃fl : Float F⦄ where
  cut_loop-Between :
      (times : List F) (boundaries : List (ℕ × F)) (goal_seconds total : F) (goals : ℕ)
      (rest cuts : List ℕ)
      → Between 0 (length times - 1) cuts
      → Between 0 (length times - 1) (cut_loop times boundaries goal_seconds total goals rest cuts)
  unfolding cut_loop
  cut_loop-Between times boundaries goal_seconds total goals [] cuts b = b
  cut_loop-Between times boundaries goal_seconds total goals (goal ∷ rest) cuts b =
      cut_loop-Between times boundaries goal_seconds total goals rest _
        (keep_cut-Between (length times) _ cuts b)

  split_cuts-Between :
      (times : List F) (starts : List ℕ) (goal_seconds : F)
      → Holds (Between 0 (length times - 1)) (split_cuts times starts goal_seconds)
  unfolding split_cuts
  split_cuts-Between times starts goal_seconds =
      Holds-bind (λ _. Unit) _ (last? times) _ (Holds-any (last? times))
        (λ total _. elim (Bool-cases (total ≤? goal_seconds)) [
          | inl t ↦ rw t tt
          | inr t ↦ rw t (
              Holds-bind (λ _. Unit) _ (collect (timed_start times) starts) _
                (Holds-any (collect (timed_start times) starts))
                (λ boundaries _.
                  cut_loop-Between times boundaries goal_seconds total
                    (count (fl.ceil (total ⊘ goal_seconds)))
                    (range_from 1 (count (fl.ceil (total ⊘ goal_seconds)) - 1)) [] tt))
        ])

  length-step_lengths :
      (w : Waypoint F) (ws : List (Waypoint F)) → length (step_lengths (w ∷ ws)) ≡ length ws
  unfolding step_lengths
  length-step_lengths w [] = refl
  length-step_lengths w (v ∷ ws) = omega (arith, length-step_lengths v ws)

  length-running :
      (total speed : F) (ds : List F) → length (running total speed ds) ≡ suc (length ds)
  length-running total speed [] = refl
  length-running total speed (d ∷ ds) = omega (arith, length-running (total ⊕ d ⊘ speed) speed ds)

  length-waypoint_times :
      (w : Waypoint F) (ws : List (Waypoint F)) (speed : F)
      → length (waypoint_times (w ∷ ws) speed) ≡ suc (length ws)
  unfolding waypoint_times
  length-waypoint_times w ws speed = omega (
    arith,
    length-running (lit 0 1) (max speed (lit 1 9)) (step_lengths (w ∷ ws)),
    length-step_lengths w ws,
  )

  -- the goals of a drawing against its waypoints
  abbrev pub IsSplit : List (Waypoint F) × List (List (Waypoint F)) × List ℕ × List F → Type 0
  IsSplit (ws, goals, cuts, times) = (rejoined goals ≡ ws) × ((length ws ≡ 1) ⊎ Seamed goals)

  sliced :
      (w : Waypoint F) (ws : List (Waypoint F)) (times : List F) (cuts : List ℕ)
      → Between 0 (length (w ∷ ws) - 1) cuts
      → IsSplit (w ∷ ws, slice_goals (w ∷ ws) cuts, cuts, times)
  unfolding slice_goals
  sliced w [] times cuts b = (rejoined-pieces (w ∷ []) 0 cuts (omega arith) b, inl refl)
  sliced w (v ∷ ws) times cuts b = (
    rejoined-pieces (w ∷ v ∷ ws) 0 cuts (omega arith) b,
    inr (pieces-Seamed (w ∷ v ∷ ws) 0 cuts (omega arith) b),
  )

  cut_waypoints :
      (ws : List (Waypoint F)) (speed goal_seconds : F) (starts : List ℕ)
      → Holds IsSplit (
          some_waypoints ws >>= λ waypoints.
          split_cuts (waypoint_times waypoints speed) starts goal_seconds >>= λ cuts.
          some (waypoints, slice_goals waypoints cuts, cuts, waypoint_times waypoints speed))
  cut_waypoints [] speed goal_seconds starts = tt
  cut_waypoints (w ∷ ws) speed goal_seconds starts =
      let times = waypoint_times (w ∷ ws) speed in
      Holds-bind (Between 0 (length times - 1)) _ (split_cuts times starts goal_seconds) _
        (split_cuts-Between times starts goal_seconds)
        (λ cuts b.
          sliced w ws times cuts
            (subst (λ n. Between 0 (n - 1) cuts) (length-waypoint_times w ws speed) b))

  -- Whatever `prepare_split` returns, for any recipe: the goals, joined at the waypoints that they share,
  -- are the waypoints of the drawing in order, none lost and none doubled; and unless the drawing is
  -- one waypoint, each goal has at least two waypoints and begins with the last one of the goal before.
  pub prepare_split-IsSplit :
      (doc : RecipeDoc F) (coords : Coords) (defaults : Defaults F)
      (segments : List (RecipeSegment F)) (at : Placement F)
      → Holds IsSplit (prepare_split doc coords defaults segments at)
  unfolding prepare_split
  prepare_split-IsSplit doc coords defaults segments at =
      Holds-bind (λ _. Unit) _ (start_pose doc.anchor coords) _ (Holds-any _)
        (λ start _.
          Holds-bind (λ _. Unit) _
            (build_waypoints segments start.0 start.1 coords defaults at.scale at.rotate
              at.plane_rotate)
            _ (Holds-any _)
            (λ built _.
              Holds-bind (λ _. Unit) _ (segment_starts 0 segments defaults) _ (Holds-any _)
                (λ starts _.
                  cut_waypoints built (max (lit 1 3) (fl.mul (lit 25 2) defaults.vel))
                    at.goal_seconds starts)))
