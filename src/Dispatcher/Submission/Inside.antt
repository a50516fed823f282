-- ===== src/Dispatcher/Submission/Inside.antt =====
-- Where a submitted drawing takes the arm.
use rmp_ros2_control.Prelude.{
  ◌≤◌, true, ◌≡◌, refl, subst, Option, none, some, List, [], ◌∷◌, arith, length, ltb, sum_of, map,
  All, All-append, Bool-cases, inl, inr, Holds, Holds-eq, Holds-bind,
}
use rmp_ros2_control.Float.{Float}
use rmp_ros2_control.Linalg.{Coordinate, in_working_area, clamp_to_extent}
use rmp_ros2_control.Linalg.Runs.Splits.{split-inside}
use rmp_ros2_control.FileManager.{to_recipe_structure}
use rmp_ros2_control.FileManager.Points.{Lists, to_recipe_structure-All}
use rmp_ros2_control.Dispatcher.{DispatcherConfig, Call, Drawing, is_batch}
use rmp_ros2_control.Dispatcher.{Dispatcher as State}
use rmp_ros2_control.Dispatcher.Submission.{
  stroke_runs, collect_runs, submitted_runs, execute_runs, execute,
}

module _ {F : Type 0} ⦃fl : Float F⦄ (config : DispatcherConfig F) where
  -- a point passes the test of the configured working area
  abbrev pub Inside : Coordinate F → Type 0
  Inside p = in_working_area p config.working_centre config.working_radius ≡ true

  -- a run worth a pen touch
  abbrev pub Drawable : List (Coordinate F) → Type 0
  Drawable run = All Inside run × (config.min_run ≤ length run)

  -- a call that executes a structure lists points of the working area alone
  abbrev pub ExecutesInside : {D : Type 0} → Call F D → Type 0
  ExecutesInside (Call.batch_execute s) = All (Lists Inside) s.segments
  ExecutesInside c = Unit

module _ {F : Type 0} ⦃fl : Float F⦄ where
  -- the runs of a stroke may be drawn, whatever floats its points are
  stroke_runs-Drawable :
      (config : DispatcherConfig F) (stroke : List (Coordinate F))
      → All (Drawable config) (stroke_runs config stroke).0
  stroke_runs-Drawable config stroke =
      split-inside config.working_centre config.working_radius config.min_run
        (map (λ p. clamp_to_extent p config.extent) stroke)

  insides :
      (config : DispatcherConfig F) (runs : List (List (Coordinate F)))
      → All (Drawable config) runs
      → All (All (Inside config)) runs
  insides config [] h = tt
  insides config (run ∷ runs) h = (h.0.0, insides config runs h.1)

module _ {F D : Type 0} ⦃fl : Float F⦄ where
  -- the collection keeps a configuration and calls that the state has
  collect_runs-Drawable :
      (config : DispatcherConfig F) (calls : List (Call F D)) (drawing : Drawing F)
      (runs : List (List (Coordinate F))) (d : State F D)
      → d.config ≡ config
      → d.calls ≡ calls
      → All (Drawable config) runs
      → All (Drawable config) (collect_runs drawing runs d).1
        × ((collect_runs drawing runs d).0.config ≡ config)
        × ((collect_runs drawing runs d).0.calls ≡ calls)
  unfolding collect_runs
  collect_runs-Drawable config calls [] runs d e f h = (h, e, f)
  collect_runs-Drawable config calls (stroke ∷ rest) runs d e f h =
      collect_runs-Drawable config calls rest _ _ (ground arith) (ground arith) (
        All-append (Drawable config) runs (stroke_runs d.config stroke).0 h (
          subst (λ c. All (Drawable c) (stroke_runs d.config stroke).0) e
            (stroke_runs-Drawable d.config stroke)))

  -- what a submission yields
  abbrev pub Submits : State F D → State F D × Option (List (List (Coordinate F))) → Type 0
  Submits d r =
      Holds (All (Drawable d.config)) r.1 × (r.0.config ≡ d.config) × (r.0.calls ≡ d.calls)

  -- A submission that is accepted yields runs of the working area alone, each long enough to draw;
  -- the configuration and the calls made stay.
  pub submitted_runs-Submits :
      (drawing : Drawing F) (d : State F D) → Submits d (submitted_runs drawing d)
  unfolding submitted_runs
  submitted_runs-Submits drawing d =
      elim (Bool-cases (ltb d.config.max_samples (sum_of (λ stroke. length stroke) drawing))) [
        | inl e ↦ rw e (tt, refl, refl)
        | inr e ↦ rw e (collect_runs-Drawable d.config d.calls drawing [] d refl refl tt)
      ]

  execute_runs-Inside :
      (config : DispatcherConfig F) (runs : Option (List (List (Coordinate F)))) (d : State F D)
      → Holds (All (Drawable config)) runs
      → All (ExecutesInside config) d.calls
      → Holds (λ d'. All (ExecutesInside config) d'.calls) (execute_runs runs d)
  unfolding execute_runs
  execute_runs-Inside config none d h k = k
  execute_runs-Inside config (some []) d h k = k
  execute_runs-Inside config (some (r ∷ runs)) d h k =
      let o = to_recipe_structure (r ∷ runs) d.config.plane in
      Holds-bind (λ s. All (Lists (Inside config)) s.segments) _ o _
        (Holds-eq _ o λ s.
          to_recipe_structure-All (Inside config) (r ∷ runs) d.config.plane s
            (insides config (r ∷ runs) h))
        (λ s g. (g, k))

  -- Where the structures executed so far list points of the working area alone and no exception is raised, they
  -- still do after a submitted drawing is executed: every end of a line and every point that a
  -- curve is to go through passes the test of the working area, whatever floats the client submits.
  -- Nothing is said of a curve between its points.
  pub execute-Inside :
      (drawing : Drawing F) (d : State F D)
      → All (ExecutesInside d.config) d.calls
      → Holds (λ d'. All (ExecutesInside d.config) d'.calls) (execute drawing d)
  unfolding execute
  execute-Inside drawing d k = elim (Bool-cases (is_batch d.mode)) [
    | inl e ↦
        let (runs, same_config, same_calls) = submitted_runs-Submits drawing d in
        rw e (
          execute_runs-Inside d.config (submitted_runs drawing d).1 (submitted_runs drawing d).0
            runs (rw same_calls k))
    | inr e ↦ rw e k
  ]
