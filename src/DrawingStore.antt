-- ===== src/DrawingStore.antt =====
-- drawing_store.py: the ordered strokes of the current drawing. A stroke keeps its kind, its sampled
-- points, the defining parameters of a primitive and whether it continues the stroke before it.
pub mod Bound
use rmp_ros2_control.Prelude.{
  ℕ, zero, suc, ◌+◌, ◌-◌, Bool, true, false, Option, none, some, List, [], ◌∷◌, ◌++◌, length, ltb,
  leb, last?, but_last, if◌then◌else◌,
}
use rmp_ros2_control.Linalg.{Coordinate}

-- `unknown` is any other text
pub data Kind : Type 0 where
  polyline line arc unknown : Kind

pub data Params (F : Type 0) : Type 0 where
  none_given : Params F
  two_points : Coordinate F → Coordinate F → Params F
  three_points : Coordinate F → Coordinate F → Coordinate F → Params F

pub record Stroke (F : Type 0) : Type 0 where
  pub kind : Kind
  pub points : List (Coordinate F)
  pub params : Params F
  pub chained : Bool

pub record DrawingStore (F : Type 0) : Type 0 where
  pub max_samples : ℕ
  pub strokes : List (Stroke F)
  pub sample_count : ℕ

module _ {F : Type 0} where
  -- Stroke.__post_init__: `none` is the ValueError
  unfoldable pub new_stroke : Kind → List (Coordinate F) → Params F → Bool → Option (Stroke F)
  new_stroke unknown points params chained = none
  new_stroke kind [] params chained = none
  new_stroke kind (p ∷ rest) params chained =
      some (record { kind = kind; points = p ∷ rest; params = params; chained = chained })

  -- DrawingStore.__init__; a bound that is not positive raises
  unfoldable pub new_store : ℕ → Option (DrawingStore F)
  new_store zero = none
  new_store (suc n) = some (record { max_samples = suc n; strokes = []; sample_count = 0 })

  unfoldable pub append : DrawingStore F → Stroke F → DrawingStore F × Bool
  append s stroke =
      if ltb s.max_samples (s.sample_count + length stroke.points) then (s, false) else (
        record s {
          strokes = s.strokes ++ stroke ∷ [];
          sample_count = s.sample_count + length stroke.points;
        },
        true,
      )

  unfoldable pub undo_last : DrawingStore F → DrawingStore F × Bool
  undo_last s = elim (last? s.strokes) [
    | none ↦ (s, false)
    | some removed ↦ (
      record s {
        strokes = but_last s.strokes;
        sample_count = s.sample_count - length removed.points;
      },
      true,
    )
  ]

  unfoldable pub clear : DrawingStore F → DrawingStore F
  clear s = record s { strokes = []; sample_count = 0 }
