-- ===== src/SurfaceModel/Contents.antt =====
-- The payload of a drawing: its entries and its points.
use rmp_ros2_control.Prelude.{
  ℕ, suc, ◌≡◌, refl, sym, ap, subst, append_assoc, last?, Option, none, some, List, [], ◌∷◌, ◌++◌,
  length, if◌then◌else◌, Bool-cases, inl, inr, ◌⊎◌,
}
use rmp_ros2_control.Float.{Float, ◌≤?◌}
use rmp_ros2_control.Linalg.{Coordinate, dist_2}
use rmp_ros2_control.DrawingStore.{Kind, Stroke}
use rmp_ros2_control.SurfaceModel.{Submitted}
use rmp_ros2_control.SurfaceModel.Requests.{after_seam, payload, payload_from}

module _ {F : Type 0} where
  -- how many strokes of a drawing begin an entry of the payload
  abbrev pub separate : List (Stroke F) → ℕ
  separate [] = 0
  separate (stroke ∷ rest) = if stroke.chained then separate rest else suc (separate rest)

  -- the points of a drawing and of a payload, in order
  abbrev pub stroke_points : List (Stroke F) → List (Coordinate F)
  stroke_points [] = []
  stroke_points (stroke ∷ rest) = stroke.points ++ stroke_points rest

  abbrev pub payload_points : List (Submitted F) → List (Coordinate F)
  payload_points [] = []
  payload_points (entry ∷ rest) = entry.points ++ payload_points rest

  -- the first sequence is the second with points left out
  abbrev pub Subsequence : List (Coordinate F) → List (Coordinate F) → Type 0
  Subsequence xs [] = xs ≡ []
  Subsequence xs (y ∷ ys) =
      Subsequence xs ys ⊎ ((rest : List (Coordinate F)) × (xs ≡ y ∷ rest) × Subsequence rest ys)

  Subsequence-refl : (xs : List (Coordinate F)) → Subsequence xs xs
  Subsequence-refl [] = refl
  Subsequence-refl (x ∷ xs) = inr (xs, refl, Subsequence-refl xs)

  Subsequence-trans :
      (xs ys zs : List (Coordinate F)) → Subsequence xs ys → Subsequence ys zs → Subsequence xs zs
  Subsequence-trans xs ys [] h k = subst (λ l. Subsequence xs l) k h
  Subsequence-trans xs ys (z ∷ zs) h (inl k) = inl (Subsequence-trans xs ys zs h k)
  Subsequence-trans xs ys (z ∷ zs) h (inr (r, e, k)) = elim (subst (λ l. Subsequence xs l) e h) [
    | inl h' ↦ inl (Subsequence-trans xs r zs h' k)
    | inr (r', e', h') ↦ inr (r', e', Subsequence-trans r' r zs h' k)
  ]

  Subsequence-append :
      (ps xs ys : List (Coordinate F)) → Subsequence xs ys → Subsequence (ps ++ xs) (ps ++ ys)
  Subsequence-append [] xs ys h = h
  Subsequence-append (p ∷ ps) xs ys h = inr (ps ++ xs, refl, Subsequence-append ps xs ys h)

  Subsequence-widen :
      (xs ys zs : List (Coordinate F)) → Subsequence xs ys → Subsequence (xs ++ zs) (ys ++ zs)
  Subsequence-widen xs [] zs h = subst (λ l. Subsequence (l ++ zs) zs) (sym h) (Subsequence-refl zs)
  Subsequence-widen xs (y ∷ ys) zs (inl h) = inl (Subsequence-widen xs ys zs h)
  Subsequence-widen xs (y ∷ ys) zs (inr (r, e, h)) =
      inr (r ++ zs, ap (λ l. l ++ zs) e, Subsequence-widen r ys zs h)

module _ {F : Type 0} ⦃fl : Float F⦄ where
  payload_from-length :
      (threshold : F) (merged : Submitted F) (strokes : List (Stroke F))
      → length (payload_from threshold merged strokes) ≡ suc (separate strokes)
  unfolding payload_from
  payload_from-length threshold merged [] = refl
  payload_from-length threshold merged (stroke ∷ rest) = elim (Bool-cases stroke.chained) [
    | inl e ↦ rw e (
        payload_from-length threshold
          (record {
            kind = Kind.polyline;
            points = merged.points ++ after_seam threshold (last? merged.points) stroke.points;
          })
          rest)
    | inr e ↦ rw e (
        ap suc (
          payload_from-length threshold (record { kind = stroke.kind; points = stroke.points })
            rest))
  ]

  -- A drawing is submitted as one entry for its first stroke and one for every later stroke that is
  -- not chained to the stroke before it.
  pub payload-length :
      (threshold : F) (first : Stroke F) (rest : List (Stroke F))
      → length (payload threshold (first ∷ rest)) ≡ suc (separate rest)
  unfolding payload
  payload-length threshold first rest = payload_from-length threshold _ rest

  -- the points at most lose their seams
  after_seam-Subsequence :
      (threshold : F) (tail : Option (Coordinate F)) (points : List (Coordinate F))
      → Subsequence (after_seam threshold tail points) points
  after_seam-Subsequence threshold none points = Subsequence-refl points
  after_seam-Subsequence threshold (some tail) [] = refl
  after_seam-Subsequence threshold (some tail) (p ∷ rest) =
      elim (Bool-cases (dist_2 p tail ≤? threshold)) [
        | inl e ↦ rw e (inl (Subsequence-refl rest))
        | inr e ↦ rw e (inr (rest, refl, Subsequence-refl rest))
      ]

  payload_from-Subsequence :
      (threshold : F) (merged : Submitted F) (strokes : List (Stroke F))
      → Subsequence
          (payload_points (payload_from threshold merged strokes))
          (merged.points ++ stroke_points strokes)
  unfolding payload_from
  payload_from-Subsequence threshold merged [] = Subsequence-refl (merged.points ++ [])
  payload_from-Subsequence threshold merged (stroke ∷ rest) =
      let added = after_seam threshold (last? merged.points) stroke.points in
      elim (Bool-cases stroke.chained) [
        | inl e ↦ rw e (
            Subsequence-trans _ _ _
              (payload_from-Subsequence threshold
                (record { kind = Kind.polyline; points = merged.points ++ added }) rest)
              (subst (λ l. Subsequence l (merged.points ++ (stroke.points ++ stroke_points rest)))
                (sym (append_assoc merged.points added (stroke_points rest)))
                (Subsequence-append merged.points _ _ (
                  Subsequence-widen added stroke.points (stroke_points rest)
                    (after_seam-Subsequence threshold (last? merged.points) stroke.points)))))
        | inr e ↦ rw e (
            Subsequence-append merged.points _ _ (
              payload_from-Subsequence threshold
                (record { kind = stroke.kind; points = stroke.points }) rest))
      ]

  -- The payload of a drawing invents no point and keeps their order: read in sequence, its points
  -- are those of the strokes with points left out.
  pub payload-Subsequence :
      (threshold : F) (strokes : List (Stroke F))
      → Subsequence (payload_points (payload threshold strokes)) (stroke_points strokes)
  unfolding payload
  payload-Subsequence threshold [] = refl
  payload-Subsequence threshold (stroke ∷ rest) = payload_from-Subsequence threshold _ rest
