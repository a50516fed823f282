-- ===== src/FileManager/Framing.antt =====
-- How the file manager frames the runs of a drawing.
use rmp_ros2_control.Prelude.{
  append-nil, ◌↔◌, true, ◌≡◌, refl, ◌⊎◌, inl, inr, none, some, List, [], ◌∷◌, ◌++◌, map,
  append_assoc, arith, length, leb, last?, Bool-cases, ◌∙◌,
}
use rmp_ros2_control.Float.{Float, ◌≤?◌}
use rmp_ros2_control.Linalg.{Coordinate, Command}
use rmp_ros2_control.FileManager.{
  PlaneConfig, Segment, lin, through, Structure, at_depth, pen_segments, final_point, run_segments,
  all_segments, retract_from, to_recipe_structure,
}

module _ {F : Type 0} where
  -- A move to a position keeps the place on the plane or the height; a spline starts where the tool
  -- is and keeps its height.
  abbrev pub Straight : Command F → List (Segment F) → Type 0
  Straight at [] = Unit
  Straight at (lin to ∷ rest) = (((at.0 ≡ to.0) × (at.1 ≡ to.1)) ⊎ (at.2 ≡ to.2)) × Straight to rest
  Straight at (through closed z samples [] ∷ rest) = ⊥
  Straight at (through closed z samples (p ∷ ps) ∷ rest) =
      (at_depth z p ≡ at) × Straight (at_depth z (final_point p ps)) rest

module _ {F : Type 0} (plane : PlaneConfig F) where
  -- the lines of a short run, at the drawing depth
  lines-Straight :
      (p : Coordinate F) (rest : List (Coordinate F)) (later : List (Segment F))
      → Straight (at_depth plane.draw_z (final_point p rest)) later
      → Straight (at_depth plane.draw_z p) (map (λ q. lin (at_depth plane.draw_z q)) rest ++ later)
  lines-Straight p [] later h = h
  lines-Straight p (q ∷ rest) later h = (inr refl, lines-Straight q rest later h)

  pen-Straight :
      (p : Coordinate F) (rest : List (Coordinate F)) (later : List (Segment F))
      → Straight (at_depth plane.draw_z (final_point p rest)) later
      → Straight (at_depth plane.draw_z p) (pen_segments plane p rest ++ later)
  pen-Straight p rest later h = elim (Bool-cases (leb 3 (length (p ∷ rest)))) [
    | inl e ↦ rw e (refl, h)
    | inr e ↦ rw e (lines-Straight p rest later h)
  ]

  run-Straight :
      (q p : Coordinate F) (rest : List (Coordinate F)) (later : List (Segment F))
      → Straight (at_depth plane.safe_z (final_point p rest)) later
      → Straight (at_depth plane.safe_z q) (run_segments plane (p ∷ rest) ++ later)
  unfolding run_segments
  run-Straight q p rest later h = (
    inr refl,
    (
      inl (refl, refl),
      rw append_assoc (
          pen-Straight p rest (lin (at_depth plane.safe_z (final_point p rest)) ∷ later)
            (inl (refl, refl), h)),
    ),
  )

  run_segments-nil : run_segments plane [] ≡ []
  unfolding run_segments
  run_segments-nil = refl

  -- where the tool is after the runs, from `q` on
  abbrev end_point : Coordinate F → List (List (Coordinate F)) → Coordinate F
  end_point q [] = q
  end_point q ([] ∷ runs) = end_point q runs
  end_point q ((p ∷ rest) ∷ runs) = end_point (final_point p rest) runs

  all-Straight :
      (q : Coordinate F) (runs : List (List (Coordinate F))) (later : List (Segment F))
      → Straight (at_depth plane.safe_z (end_point q runs)) later
      → Straight (at_depth plane.safe_z q) (all_segments plane runs ++ later)
  unfolding all_segments
  all-Straight q [] later h = h
  all-Straight q ([] ∷ runs) later h = rw run_segments-nil (all-Straight q runs later h)
  all-Straight q ((p ∷ rest) ∷ runs) later h =
      rw (append_assoc (run_segments plane (p ∷ rest)))
        (run-Straight q p rest _ (all-Straight (final_point p rest) runs later h))

  last?-append :
      (xs : List (Segment F)) (y : Segment F) (ys : List (Segment F))
      → last? (xs ++ y ∷ ys) ≡ last? (y ∷ ys)
  last?-append [] y ys = refl
  last?-append (x ∷ []) y ys = refl
  last?-append (x ∷ z ∷ xs) y ys = last?-append (z ∷ xs) y ys

  last?-append_some :
      (xs ys : List (Segment F)) {y : Segment F} → last? ys ≡ some y → last? (xs ++ ys) ≡ some y
  last?-append_some xs [] e = cc
  last?-append_some xs (z ∷ zs) e = last?-append xs z zs ∙ e

  last?-run :
      (p : Coordinate F) (rest : List (Coordinate F))
      → last? (run_segments plane (p ∷ rest))
        ≡ some (lin (at_depth plane.safe_z (final_point p rest)))
  unfolding run_segments
  last?-run p rest =
      last?-append
        (lin (at_depth plane.safe_z p) ∷ lin (at_depth plane.draw_z p) ∷ pen_segments plane p rest)
        (lin (at_depth plane.safe_z (final_point p rest))) []

  -- the segments are none, or end with the lift at the end of the last run
  last?-all :
      (q : Coordinate F) (runs : List (List (Coordinate F)))
      → ((all_segments plane runs ≡ []) × (end_point q runs ≡ q))
        ⊎ (last? (all_segments plane runs) ≡ some (lin (at_depth plane.safe_z (end_point q runs))))
  unfolding all_segments
  last?-all q [] = inl (refl, refl)
  last?-all q ([] ∷ runs) = rw run_segments-nil (last?-all q runs)
  last?-all q ((p ∷ rest) ∷ runs) = elim (last?-all (final_point p rest) runs) [
    | inl (none_left, at_end) ↦ inr (rw (none_left, at_end, append-nil) (last?-run p rest))
    | inr e ↦ inr (last?-append_some (run_segments plane (p ∷ rest)) (all_segments plane runs) e)
  ]

  -- what the retraction appends, and that it is a move straight up
  retract-Straight :
      (q : Coordinate F) (runs : List (List (Coordinate F)))
      → (up : List (Segment F)) × (retract_from plane (last? (all_segments plane runs)) ≡ some up)
        × Straight (at_depth plane.safe_z (end_point q runs)) up
  unfolding retract_from
  retract-Straight q runs = elim (last?-all q runs) [
    | inl (e, _) ↦ ([], rw e, tt)
    | inr e ↦ (lin (at_depth plane.retract_z (end_point q runs)) ∷ [], rw e, (inl (refl, refl), tt))
  ]

  retract-total :
      (runs : List (List (Coordinate F)))
      → (up : List (Segment F)) × (retract_from plane (last? (all_segments plane runs)) ≡ some up)
  unfolding retract_from all_segments
  retract-total [] = ([], refl)
  retract-total ([] ∷ runs) = rw run_segments-nil (retract-total runs)
  retract-total ((p ∷ rest) ∷ runs) =
      let (up, e, _) = retract-Straight p ((p ∷ rest) ∷ runs) in (up, e)

module _ {F : Type 0} ⦃fl : Float F⦄ (runs : List (List (Coordinate F)))
    (plane : PlaneConfig F) where
  -- The framing raises exactly where the drawing depth is not below the travel height.
  pub to_recipe_structure-none_iff :
      (to_recipe_structure runs plane ≡ none) ↔ (plane.safe_z ≤? plane.draw_z ≡ true)
  unfolding to_recipe_structure
  to_recipe_structure-none_iff =
      let (up, e) = retract-total plane runs in ((λ h. ground arith), λ h. ground arith)

  pub segments_lem :
      (s : Structure F) (up : List (Segment F))
      → retract_from plane (last? (all_segments plane runs)) ≡ some up
      → to_recipe_structure runs plane ≡ some s
      → s.segments ≡ all_segments plane runs ++ up
  unfolding to_recipe_structure
  segments_lem s up e h = ground arith

  -- From any place at the travel height, the structure moves the tool only straight over the plane
  -- or straight up and down, and each spline starts where the tool is: the pen is never dragged
  -- sideways while it changes its height.
  pub to_recipe_structure-Straight :
      (s : Structure F) (q : Coordinate F)
      → to_recipe_structure runs plane ≡ some s
      → Straight (at_depth plane.safe_z q) s.segments
  to_recipe_structure-Straight s q h =
      let (up, e, straight) = retract-Straight plane q runs in
      rw (segments_lem s up e h) (all-Straight plane q runs up straight)
