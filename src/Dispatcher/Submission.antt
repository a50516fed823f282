-- ===== src/Dispatcher/Submission.antt =====
-- dispatcher.py: a submitted drawing, executed or saved. `none` is an exception that nothing catches.
pub mod Inside
use rmp_ros2_control.Prelude.{
  Bool, true, false, Option, none, some, List, [], ◌∷◌, ◌++◌, map, Text, codes, length, ltb, sum_of,
  if◌then◌else◌, ◌>>=◌,
}
use rmp_ros2_control.Float.{Float}
use rmp_ros2_control.Linalg.{Coordinate, clamp_to_extent}
use rmp_ros2_control.Linalg.Runs.{split_at_working_area}
use rmp_ros2_control.FileManager.{Structure, to_recipe_structure, recipe_file}
use rmp_ros2_control.Dispatcher.{
  DispatcherConfig, Action, Warning, Drawing, Call, Environment, call, warn, is_batch, executing,
  SaveName, no_name, text_name, unusable_name,
}
use rmp_ros2_control.Dispatcher.{Dispatcher as State}

module _ {F : Type 0} ⦃fl : Float F⦄ where
  -- the points of a stroke, clamped again, and its runs
  abbrev pub stroke_runs :
      DispatcherConfig F
      → List (Coordinate F)
      → List (List (Coordinate F)) × List (List (Coordinate F))
  stroke_runs config stroke =
      split_at_working_area config.working_centre config.working_radius config.min_run
        (map (λ p. clamp_to_extent p config.extent) stroke)

module _ {F : Type 0} where
  abbrev pub any_point : List (List (Coordinate F)) → Bool
  any_point [] = false
  any_point ([] ∷ runs) = any_point runs
  any_point ((p ∷ run) ∷ runs) = true

module _ {F D : Type 0} ⦃fl : Float F⦄ where
  -- the loop over the strokes, with the runs found so far
  unfoldable pub collect_runs :
      Drawing F → List (List (Coordinate F)) → State F D → State F D × List (List (Coordinate F))
  collect_runs [] runs d = (d, runs)
  collect_runs (stroke ∷ rest) runs d =
      let (in_runs, excluded) = stroke_runs d.config stroke in
      collect_runs rest (runs ++ in_runs) (
        if any_point excluded
        then warn (Warning.points_excluded (sum_of (λ run. length run) excluded)) d
        else d)

  unfoldable pub submitted_runs :
      Drawing F → State F D → State F D × Option (List (List (Coordinate F)))
  submitted_runs drawing d =
      let total = sum_of (λ stroke. length stroke) drawing in
      let (d', runs) = collect_runs drawing [] d in
      if ltb d.config.max_samples total
      then (warn (Warning.too_many_samples total d.config.max_samples) d, none)
      else (d', some runs)

  -- what `_execute` does with the runs of the submission
  unfoldable pub execute_runs : Option (List (List (Coordinate F))) → State F D → Option (State F D)
  execute_runs none d = some d
  execute_runs (some []) d = some (warn Warning.nothing_to_execute d)
  execute_runs (some (run ∷ runs)) d = do
    structure ← to_recipe_structure (run ∷ runs) d.config.plane
    some (call (Call.batch_execute structure) (record d { mode = executing }))

  unfoldable pub execute : Drawing F → State F D → Option (State F D)
  execute drawing d =
      let (d', runs) = submitted_runs drawing d in
      let done = execute_runs runs d' in
      if is_batch d.mode then done else some (warn (Warning.batch_only Action.execute) d)

-- `control.get('name') or 'drawing'`; `none` is the TypeError that nothing catches
abbrev name_or_drawing : SaveName → Option Text
name_or_drawing no_name = some (codes "drawing")
name_or_drawing (text_name []) = some (codes "drawing")
name_or_drawing (text_name (c ∷ name)) = some (c ∷ name)
name_or_drawing unusable_name = none

module _ {F D : Type 0} ⦃fl : Float F⦄ where
  -- the two exceptions of `save_recipe` are caught
  abbrev write_file : Environment F D → Structure F → Option Text → State F D → State F D
  write_file env structure none d = warn Warning.save_failed d
  write_file env structure (some file) d =
      let c = Call.save_file structure file in
      if env.answer d.calls c then call c d else warn Warning.save_failed (call c d)

  unfoldable pub save_runs :
      Environment F D
      → SaveName
      → Option (List (List (Coordinate F)))
      → State F D
      → Option (State F D)
  save_runs env name none d = some d
  save_runs env name (some runs) d = do
    structure ← to_recipe_structure runs d.config.plane
    part ← name_or_drawing name
    some (write_file env structure (recipe_file part) d)

  unfoldable pub save : Environment F D → Drawing F → SaveName → State F D → Option (State F D)
  save env drawing name d = let (d', runs) = submitted_runs drawing d in save_runs env name runs d'
