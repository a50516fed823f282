-- ===== src/Linalg/Sampling.antt =====
-- linalg.py: sampling of lines and arcs, removal of duplicates, resampling at a uniform spacing.
use mathlib.Core.Option
use rmp_ros2_control.Prelude.{
  ℕ, zero, suc, ◌+◌, ◌-◌, Option, none, some, List, [], ◌∷◌, ◌++◌, map, range_from, last?, but_last,
  if◌then◌else◌,
}
use rmp_ros2_control.Prelude.Int.{ℤ, pos, negsuc}
use rmp_ros2_control.Float.{Float, lit, ◌⊕◌, ◌⊖◌, ◌⊗◌, ◌⊘◌, ◌<?◌, ◌≤?◌, ◌=?◌}
use rmp_ros2_control.Linalg.{Coordinate, dist_2, same_coordinate}

-- `max(1, math.ceil(x))`
abbrev pub at_least_one : ℤ → ℕ
at_least_one (pos zero) = 1
at_least_one (pos (suc n)) = suc n
at_least_one (negsuc n) = 1

module _ {F : Type 0} ⦃fl : Float F⦄ where
  -- `steps = max(1, math.ceil(length / spacing))`
  unfoldable pub steps_for : F → F → ℕ
  steps_for length spacing = at_least_one (fl.ceil (length ⊘ spacing))

  abbrev along : F → F → ℕ → ℕ → F
  along a b i steps = a ⊕ (b ⊖ a) ⊗ lit i 0 ⊘ lit steps 0

  unfoldable pub sample_line : Coordinate F → Coordinate F → F → Option (List (Coordinate F))
  sample_line (ax, ay) (bx, by) spacing =
      let length = dist_2 (ax, ay) (bx, by) in
      let steps = steps_for length spacing in
      if spacing ≤? lit 0 1
      then none
      else if length =? lit 0 1
      then some ((ax, ay) ∷ [])
      else some (map (λ i. (along ax bx i steps, along ay by i steps)) (range_from 0 (steps + 1)))

  unfoldable pub circumcentre : Coordinate F → Coordinate F → Coordinate F → Option (Coordinate F)
  circumcentre (ax, ay) (bx, by) (cx, cy) =
      let d = lit 20 1 ⊗ (ax ⊗ (by ⊖ cy) ⊕ bx ⊗ (cy ⊖ ay) ⊕ cx ⊗ (ay ⊖ by)) in
      let a2 = ax ⊗ ax ⊕ ay ⊗ ay in
      let b2 = bx ⊗ bx ⊕ by ⊗ by in
      let c2 = cx ⊗ cx ⊕ cy ⊗ cy in
      if fl.abs d <? lit 1 12
      then none
      else some (
        (a2 ⊗ (by ⊖ cy) ⊕ b2 ⊗ (cy ⊖ ay) ⊕ c2 ⊗ (ay ⊖ by)) ⊘ d,
        (a2 ⊗ (cx ⊖ bx) ⊕ b2 ⊗ (ax ⊖ cx) ⊕ c2 ⊗ (bx ⊖ ax)) ⊘ d,
      )

  -- the points of `sample_arc` about a centre that exists
  sample_about : Coordinate F → Coordinate F → Coordinate F → Coordinate F → F → List (Coordinate F)
  sample_about centre first second third spacing =
      let radius = dist_2 centre first in
      let angle = λ (p : Coordinate F). fl.atan2 (p.1 ⊖ centre.1) (p.0 ⊖ centre.0) in
      let a1 = angle first in
      let turn = lit 20 1 ⊗ fl.pi in
      let ccw_total = fl.remainder (angle third ⊖ a1) turn in
      let ccw_mid = fl.remainder (angle second ⊖ a1) turn in
      let sweep = if ccw_mid ≤? ccw_total then ccw_total else ccw_total ⊖ turn in
      let arc_length = fl.abs sweep ⊗ radius in
      let steps = steps_for arc_length spacing in
      let at = λ (i : ℕ). a1 ⊕ sweep ⊗ lit i 0 ⊘ lit steps 0 in
      if arc_length =? lit 0 1
      then first ∷ []
      else map (λ i. (centre.0 ⊕ radius ⊗ fl.cos (at i), centre.1 ⊕ radius ⊗ fl.sin (at i)))
          (range_from 0 (steps + 1))

  unfoldable pub sample_arc :
      Coordinate F → Coordinate F → Coordinate F → F → Option (List (Coordinate F))
  unfolding sample_about
  sample_arc first second third spacing =
      if spacing ≤? lit 0 1 then none else elim (circumcentre first second third) [
        | none ↦ sample_line first third spacing
        | some centre ↦ some (sample_about centre first second third spacing)
      ]

  -- the loop of `remove_duplicates`, with `kept[-1]` as its state; what it appends
  unfoldable pub keep_apart : F → Coordinate F → List (Coordinate F) → List (Coordinate F)
  keep_apart threshold last [] = []
  keep_apart threshold last (p ∷ rest) =
      let keep = threshold ≤? dist_2 p last in
      let later = keep_apart threshold (if keep then p else last) rest in
      if keep then p ∷ later else later

  -- the last entry of a list that is not empty, given its head
  abbrev pub end_of : Coordinate F → List (Coordinate F) → Coordinate F
  end_of p [] = p
  end_of p (q ∷ rest) = end_of q rest

  -- the final point is kept unless it equals `kept[-1]`
  unfoldable pub keep_end :
      List (Coordinate F) → Coordinate F → Option (Coordinate F) → List (Coordinate F)
  keep_end kept last none = kept
  keep_end kept last (some p) = if same_coordinate p last then kept else kept ++ p ∷ []

  unfoldable pub remove_duplicates : List (Coordinate F) → F → List (Coordinate F)
  remove_duplicates [] threshold = []
  remove_duplicates (first ∷ rest) threshold =
      let later = keep_apart threshold first (but_last rest) in
      keep_end (first ∷ later) (end_of first later) (last? rest)

  -- the segments of a polyline with their lengths
  unfoldable pub segments_of : List (Coordinate F) → List (Coordinate F × Coordinate F × F)
  segments_of [] = []
  segments_of (a ∷ []) = []
  segments_of (a ∷ b ∷ rest) = (a, b, dist_2 a b) ∷ segments_of (b ∷ rest)

  -- `sum(lengths)`, from the left as Python adds
  unfoldable pub total_length : F → List (Coordinate F × Coordinate F × F) → F
  total_length acc [] = acc
  total_length acc ((a, b, l) ∷ rest) = total_length (acc ⊕ l) rest

  -- the inner `while`: skip the segments that end before the target
  unfoldable pub advance :
      F → List (Coordinate F × Coordinate F × F) → F → List (Coordinate F × Coordinate F × F) × F
  advance target [] consumed = ([], consumed)
  advance target ((a, b, l) ∷ rest) consumed =
      let skipped = advance target rest (consumed ⊕ l) in
      if consumed ⊕ l <? target then skipped else ((a, b, l) ∷ rest, consumed)

  -- the point at arc length `distance` into a segment
  unfoldable pub on_segment : Coordinate F × Coordinate F × F → F → Coordinate F
  on_segment (a, b, l) distance =
      let fraction = distance ⊘ l in (a.0 ⊕ (b.0 ⊖ a.0) ⊗ fraction, a.1 ⊕ (b.1 ⊖ a.1) ⊗ fraction)

  -- the samples i, i + 1, … of the outer loop; `none` is the IndexError past the last segment
  unfoldable pub sample_at :
      F → List ℕ → List (Coordinate F × Coordinate F × F) → F → Option (List (Coordinate F))
  unfolding advance on_segment
  sample_at step [] segments consumed = some []
  sample_at step (i ∷ rest) segments consumed =
      let target = lit i 0 ⊗ step in
      let (left, c) = advance target segments consumed in
      let later = sample_at step rest left c in
      elim left [
        | [] ↦ none
        | segment ∷ more ↦ Option.map (λ out. on_segment segment (target ⊖ c) ∷ out) later
      ]

  resample : F → List (Coordinate F) → Option (List (Coordinate F))
  unfolding segments_of total_length sample_at steps_for
  resample spacing [] = some []
  resample spacing (a ∷ []) = some (a ∷ [])
  resample spacing (a ∷ b ∷ rest) =
      let segments = segments_of (a ∷ b ∷ rest) in
      let total = total_length (lit 0 0) segments in
      let steps = steps_for total spacing in
      let inner = sample_at (total ⊘ lit steps 0) (range_from 1 (steps - 1)) segments (lit 0 1) in
      if total =? lit 0 1
      then some (a ∷ [])
      else Option.map (λ out. a ∷ (out ++ end_of b rest ∷ [])) inner

  -- `none` is an exception
  unfoldable pub resample_uniform : List (Coordinate F) → F → Option (List (Coordinate F))
  unfolding resample
  resample_uniform stroke spacing = if spacing ≤? lit 0 1 then none else resample spacing stroke
