-- ===== src/RecipeLoader/Previews.antt =====
-- recipe_loader.py: the decimation of the preview.
use rmp_ros2_control.Prelude.{
  ℕ, zero, suc, ◌+◌, ◌-◌, ◌*◌, ◌/◌, List, [], ◌∷◌, ◌++◌, length, leb, ltb, sum_of, if◌then◌else◌,
}
use rmp_ros2_control.Float.{Float}
use rmp_ros2_control.Linalg.{Coordinate, same_coordinate}
use rmp_ros2_control.RecipeLoader.{Polyline}

-- PREVIEW_POLYLINE_CAP and PREVIEW_TOTAL_CAP
abbrev pub polyline_cap : ℕ
polyline_cap = 200

abbrev pub total_cap : ℕ
total_cap = 1500

-- `l[::stride]`: an entry, then the next one `skip` further on
abbrev pub every : {A : Type 0} → ℕ → ℕ → List A → List A
every stride skip [] = []
every stride zero (x ∷ xs) = x ∷ every stride (stride - 1) xs
every stride (suc skip) (x ∷ xs) = every stride skip xs

abbrev pub min_ℕ : ℕ → ℕ → ℕ
min_ℕ a b = if leb a b then a else b

abbrev pub max_ℕ : ℕ → ℕ → ℕ
max_ℕ a b = if leb a b then b else a

unfoldable pub cap_of : ℕ → ℕ → ℕ → ℕ
cap_of total polylines points =
    let budget = min_ℕ total_cap (polyline_cap * polylines) in
    if ltb total_cap total then max_ℕ 2 (budget * points / total) else polyline_cap

module _ {F : Type 0} ⦃fl : Float F⦄ where
  abbrev pub final : Coordinate F → List (Coordinate F) → Coordinate F
  final p [] = p
  final p (q ∷ rest) = final q rest

  -- `kept`, with the end of the polyline if it is not there
  abbrev pub with_end : Coordinate F → List (Coordinate F) → Coordinate F → List (Coordinate F)
  with_end p kept end =
      if same_coordinate (final p kept) end then p ∷ kept else p ∷ (kept ++ end ∷ [])

  -- a polyline against its cap
  unfoldable pub decimate_one : ℕ → Polyline F → Polyline F
  decimate_one cap [] = []
  decimate_one cap (p ∷ rest) =
      let points = length (p ∷ rest) in
      let stride = (points + cap - 1) / cap in
      if leb points cap
      then p ∷ rest
      else with_end p (every stride (stride - 1) rest) (final p rest)

  abbrev decimate_all : ℕ → ℕ → List (Polyline F) → List (Polyline F)
  decimate_all total polylines [] = []
  decimate_all total polylines (l ∷ ls) =
      decimate_one (cap_of total polylines (length l)) l ∷ decimate_all total polylines ls

  -- _decimate
  unfoldable pub decimate : List (Polyline F) → List (Polyline F)
  unfolding decimate_one cap_of
  decimate polylines = decimate_all (sum_of length polylines) (length polylines) polylines
