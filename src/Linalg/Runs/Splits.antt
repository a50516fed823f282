-- ===== src/Linalg/Runs/Splits.antt =====
-- `split_at_working_area` and its reference, the groups of a stroke.
use rmp_ros2_control.Prelude.{
  ℕ, ◌≤◌, Bool, true, false, some, List, [], ◌∷◌, ◌++◌, ◌≡◌, refl, arith, length, All, append_assoc,
  append-nil, if◌then◌else◌, Bool-cases, inl, inr,
}
use rmp_ros2_control.Float.{Float}
use rmp_ros2_control.Linalg.{Coordinate, in_working_area}
use rmp_ros2_control.Linalg.Runs.{Split, close_run, split_step, split_loop, split_at_working_area}
use rmp_ros2_control.Linalg.Runs.Groups.{
  Group, same, join, groups, drawn, left_out, is_drawn, drawn_inside, groups_lem,
}

module _ {F : Type 0} where
  -- the loop's state once a run is open
  abbrev running :
      List (List (Coordinate F))
      → List (List (Coordinate F))
      → Bool
      → List (Coordinate F)
      → Coordinate F
      → Split F
  running ins exs b run p = record {
    in_runs = ins;
    excluded = exs;
    current = run ++ p ∷ [];
    current_inside = some b;
  }

  join-join :
      (b c : Bool) (run : List (Coordinate F)) (p : Coordinate F) (gs : List (Group F))
      → join b run (join c (p ∷ []) gs)
        ≡ (if same b c then join b (run ++ p ∷ []) gs else (b, run) ∷ join c (p ∷ []) gs)
  join-join true true run p [] = refl
  join-join true true run p ((true, next) ∷ gs) = rw append_assoc
  join-join true true run p ((false, next) ∷ gs) = refl
  join-join true false run p [] = refl
  join-join true false run p ((true, next) ∷ gs) = refl
  join-join true false run p ((false, next) ∷ gs) = refl
  join-join false true run p [] = refl
  join-join false true run p ((true, next) ∷ gs) = refl
  join-join false true run p ((false, next) ∷ gs) = refl
  join-join false false run p [] = refl
  join-join false false run p ((false, next) ∷ gs) = rw append_assoc
  join-join false false run p ((true, next) ∷ gs) = refl

  abbrev results : ℕ → Split F → List (List (Coordinate F)) × List (List (Coordinate F))
  results min_run s = ((close_run min_run s).in_runs, (close_run min_run s).excluded)

  -- a run that was open is closed: it counts as the group it is
  close_run_lem :
      (min_run : ℕ) (ins exs : List (List (Coordinate F))) (b : Bool) (first : Coordinate F)
      (run : List (Coordinate F))
      → close_run min_run
          (record { in_runs = ins; excluded = exs; current = first ∷ run; current_inside = some b })
        ≡ record {
          in_runs = ins ++ drawn min_run ((b, first ∷ run) ∷ []);
          excluded = exs ++ left_out min_run ((b, first ∷ run) ∷ []);
          current = first ∷ run;
          current_inside = some b;
        }
  unfolding close_run
  close_run_lem min_run ins exs b first run =
      elim (Bool-cases (is_drawn min_run (b, first ∷ run))) [
        | inl e ↦ rw e (rw append-nil)
        | inr e ↦ rw e (rw append-nil)
      ]

  drawn-append :
      (min_run : ℕ) (g : Group F) (gs : List (Group F))
      → drawn min_run (g ∷ gs) ≡ drawn min_run (g ∷ []) ++ drawn min_run gs
  drawn-append min_run g gs = ground arith

  left_out-append :
      (min_run : ℕ) (g : Group F) (gs : List (Group F))
      → left_out min_run (g ∷ gs) ≡ left_out min_run (g ∷ []) ++ left_out min_run gs
  left_out-append min_run g gs = ground arith

  split_step_lem :
      (min_run : ℕ) (ins exs : List (List (Coordinate F))) (b c : Bool) (first p : Coordinate F)
      (run : List (Coordinate F))
      → split_step min_run p c
          (record { in_runs = ins; excluded = exs; current = first ∷ run; current_inside = some b })
        ≡ (if same b c
            then record {
              in_runs = ins;
              excluded = exs;
              current = first ∷ (run ++ p ∷ []);
              current_inside = some b;
            }
            else record {
              in_runs = ins ++ drawn min_run ((b, first ∷ run) ∷ []);
              excluded = exs ++ left_out min_run ((b, first ∷ run) ∷ []);
              current = p ∷ [];
              current_inside = some c;
            })
  unfolding split_step
  split_step_lem min_run ins exs true true first p run = refl
  split_step_lem min_run ins exs true false first p run = rw close_run_lem
  split_step_lem min_run ins exs false true first p run = rw append-nil
  split_step_lem min_run ins exs false false first p run = refl

module _ {F : Type 0} ⦃fl : Float F⦄ (centre : Coordinate F) (radius : F) (min_run : ℕ) where
  split_loop_lem :
      (stroke : List (Coordinate F)) (ins exs : List (List (Coordinate F))) (b : Bool)
      (first : Coordinate F) (run : List (Coordinate F))
      → let gs = join b (first ∷ run) (groups centre radius stroke) in
        results min_run (
          split_loop centre radius min_run stroke (record {
            in_runs = ins;
            excluded = exs;
            current = first ∷ run;
            current_inside = some b;
          }))
        ≡ (ins ++ drawn min_run gs, exs ++ left_out min_run gs)
  unfolding split_loop
  split_loop_lem [] ins exs b first run = rw close_run_lem
  split_loop_lem (p ∷ rest) ins exs b first run =
      let c = in_working_area p centre radius in
      let g : Group F = (b, first ∷ run) in
      let later = join c (p ∷ []) (groups centre radius rest) in
      rw (split_step_lem, join-join)
        (elim (Bool-cases (same b c)) [
          | inl e ↦ rw e (split_loop_lem rest ins exs b first (run ++ p ∷ []))
          | inr e ↦ rw e (
              rw (drawn-append min_run g later, left_out-append min_run g later)
                (rw (← append_assoc, ← append_assoc)
                  (split_loop_lem rest (ins ++ drawn min_run (g ∷ []))
                    (exs ++ left_out min_run (g ∷ [])) c p [])))
        ])

  -- The loop computes its reference: the runs to draw are the groups of consecutive points inside
  -- the working area with at least `min_run` points, and every other group is excluded, in order.
  pub split_lem :
      (stroke : List (Coordinate F))
      → split_at_working_area centre radius min_run stroke ≡ (
        drawn min_run (groups centre radius stroke),
        left_out min_run (groups centre radius stroke),
      )
  unfolding split_at_working_area
  split_lem [] = refl
  split_lem (p ∷ rest) = split_loop_lem rest [] [] (in_working_area p centre radius) p []

  -- Every run to draw has at least `min_run` points and each of them passes the test of the working
  -- area, whatever floats the stroke holds.
  pub split-inside :
      (stroke : List (Coordinate F))
      → All
          (λ run. All (λ p. in_working_area p centre radius ≡ true) run × (min_run ≤ length run))
          (split_at_working_area centre radius min_run stroke).0
  split-inside stroke =
      rw split_lem (drawn_inside centre radius min_run _ (groups_lem centre radius stroke).1)
