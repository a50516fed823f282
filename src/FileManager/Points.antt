-- ===== src/FileManager/Points.antt =====
-- The points that a recipe structure lists. The curve that the sender lays through the points of a
-- `through` segment is not among them.
use rmp_ros2_control.Prelude.{
  subst, some-injective, ◌≡◌, refl, Option, none, some, List, [], ◌∷◌, map, arith, length, leb,
  last?, All, All-append, Bool-cases, inl, inr,
}
use rmp_ros2_control.Float.{Float}
use rmp_ros2_control.Linalg.{Coordinate}
use rmp_ros2_control.FileManager.{
  PlaneConfig, Segment, lin, through, Structure, at_depth, pen_segments, final_point, run_segments,
  all_segments, retract_from, to_recipe_structure,
}
use rmp_ros2_control.FileManager.Framing.{segments_lem}

module _ {F : Type 0} (P : Coordinate F → Type 0) where
  -- all the points that a segment lists: its end, or the points that its curve goes through
  abbrev pub Lists : Segment F → Type 0
  Lists (lin (x, y, z)) = P (x, y)
  Lists (through closed z samples points) = All P points

  final_point-All :
      (p : Coordinate F) (rest : List (Coordinate F)) → P p → All P rest → P (final_point p rest)
  final_point-All p [] h k = h
  final_point-All p (q ∷ rest) h k = final_point-All q rest k.0 k.1

  lines-All :
      (z : F) (rest : List (Coordinate F))
      → All P rest
      → All Lists (map (λ q. lin (at_depth z q)) rest)
  lines-All z [] h = tt
  lines-All z (q ∷ rest) h = (h.0, lines-All z rest h.1)

  module _ (plane : PlaneConfig F) where
    pen-All :
        (p : Coordinate F) (rest : List (Coordinate F))
        → P p
        → All P rest
        → All Lists (pen_segments plane p rest)
    pen-All p rest h k = elim (Bool-cases (leb 3 (length (p ∷ rest)))) [
      | inl e ↦ rw e ((h, k), tt)
      | inr e ↦ rw e (lines-All plane.draw_z rest k)
    ]

    run-All : (run : List (Coordinate F)) → All P run → All Lists (run_segments plane run)
    unfolding run_segments
    run-All [] h = tt
    run-All (p ∷ rest) h = (
      h.0,
      (
        h.0,
        All-append Lists (pen_segments plane p rest) _ (pen-All p rest h.0 h.1)
            (final_point-All p rest h.0 h.1, tt),
      ),
    )

    all_segments-All :
        (runs : List (List (Coordinate F))) → All (All P) runs → All Lists (all_segments plane runs)
    unfolding all_segments
    all_segments-All [] h = tt
    all_segments-All (run ∷ runs) h =
        All-append Lists (run_segments plane run) _ (run-All run h.0) (all_segments-All runs h.1)

    last?-All :
        (segments : List (Segment F)) {s : Segment F}
        → last? segments ≡ some s
        → All Lists segments
        → Lists s
    last?-All [] e h = cc
    last?-All (x ∷ []) {s} e h = subst Lists (some-injective _ _ e) h.0
    last?-All (x ∷ y ∷ rest) e h = last?-All (y ∷ rest) e h.1

    retract-All :
        (o : Option (Segment F)) {up : List (Segment F)}
        → ((s : Segment F) → o ≡ some s → Lists s)
        → retract_from plane o ≡ some up
        → All Lists up
    unfolding retract_from
    retract-All none h e = subst (All Lists) (some-injective _ _ e) tt
    retract-All (some (lin (x, y, z))) h e = subst (All Lists) (some-injective _ _ e) (h _ refl, tt)
    retract-All (some (through closed z samples points)) h e = cc

module _ {F : Type 0} ⦃fl : Float F⦄ (P : Coordinate F → Type 0) where
  retract_of :
      (runs : List (List (Coordinate F))) (plane : PlaneConfig F) (s : Structure F)
      → to_recipe_structure runs plane ≡ some s
      → (up : List (Segment F)) × (retract_from plane (last? (all_segments plane runs)) ≡ some up)
  unfolding to_recipe_structure
  retract_of runs plane s h = ground arith

  -- What holds of every point of the runs holds of every point that the structure lists: the end of
  -- each line and each point that a curve is to go through. Nothing is said of a curve between them.
  pub to_recipe_structure-All :
      (runs : List (List (Coordinate F))) (plane : PlaneConfig F) (s : Structure F)
      → All (All P) runs
      → to_recipe_structure runs plane ≡ some s
      → All (Lists P) s.segments
  to_recipe_structure-All runs plane s h e =
      let (up, r) = retract_of runs plane s e in
      let all = all_segments-All P plane runs h in
      rw (segments_lem runs plane s up r e) (
        All-append (Lists P) (all_segments plane runs) up all (
          retract-All P plane (last? (all_segments plane runs))
            (λ last q. last?-All P plane (all_segments plane runs) q all) r))
