-- ===== src/Linalg/Runs.antt =====
-- linalg.py: `split_at_working_area`, its loop with the state that the code keeps.
pub mod Groups
pub mod Splits
use rmp_ros2_control.Prelude.{
  ℕ, Bool, true, false, not, ◌&&◌, Option, none, some, List, [], ◌∷◌, ◌++◌, length, leb,
  if◌then◌else◌,
}
use rmp_ros2_control.Float.{Float}
use rmp_ros2_control.Linalg.{Coordinate, in_working_area}

-- the locals of the loop
pub record Split (F : Type 0) : Type 0 where
  pub in_runs : List (List (Coordinate F))
  pub excluded : List (List (Coordinate F))
  pub current : List (Coordinate F)
  pub current_inside : Option Bool

-- `inside == current_inside`, which is False against None
abbrev pub same_side : Bool → Option Bool → Bool
same_side inside none = false
same_side true (some b) = b
same_side false (some b) = not b

-- the truth value of `current_inside`
abbrev pub truth : Option Bool → Bool
truth none = false
truth (some b) = b

module _ {F : Type 0} where
  -- `if current:` the finished run goes to the one list or the other
  close_run : ℕ → Split F → Split F
  close_run min_run s = elim s.current [
    | [] ↦ s
    | p ∷ rest ↦
        if truth s.current_inside && leb min_run (length s.current)
        then record s { in_runs = s.in_runs ++ s.current ∷ [] }
        else record s { excluded = s.excluded ++ s.current ∷ [] }
  ]

  split_step : ℕ → Coordinate F → Bool → Split F → Split F
  unfolding close_run
  split_step min_run point inside s =
      if same_side inside s.current_inside
      then record s { current = s.current ++ point ∷ [] }
      else record (close_run min_run s) { current = point ∷ []; current_inside = some inside }

module _ {F : Type 0} ⦃fl : Float F⦄ (centre : Coordinate F) (radius : F) (min_run : ℕ) where
  split_loop : List (Coordinate F) → Split F → Split F
  split_loop [] s = s
  split_loop (point ∷ rest) s =
      split_loop rest (split_step min_run point (in_working_area point centre radius) s)

  -- `(in_runs, excluded)`
  unfoldable pub split_at_working_area :
      List (Coordinate F) → List (List (Coordinate F)) × List (List (Coordinate F))
  unfolding split_loop split_step close_run
  split_at_working_area stroke =
      let final = close_run min_run (
        split_loop stroke
          (record { in_runs = []; excluded = []; current = []; current_inside = none })) in
      (final.in_runs, final.excluded)
