-- ===== src/RecipeLoader/Decimation.antt =====
-- What the decimation of a preview keeps.
use native.Mathlib.Nat.{div-add-mod, mod-lt, lt_of_mul-lt-mul_left}
use rmp_ros2_control.Prelude.{
  ℕ, zero, suc, ◌+◌, ◌-◌, ◌*◌, ◌/◌, ◌≤◌, ◌<◌, true, ◌≡◌, refl, ◌⊎◌, inl, inr, List, [], ◌∷◌, ◌++◌,
  length, length-append, leb, leb→le, Bool-cases, arith,
}
use rmp_ros2_control.Float.{Float}
use rmp_ros2_control.Linalg.{Coordinate, same_coordinate}
use rmp_ros2_control.RecipeLoader.{Polyline}
use rmp_ros2_control.RecipeLoader.Previews.{every, final, with_end, decimate_one}

length-every :
    {A : Type 0} (stride skip : ℕ) (xs : List A)
    → skip < stride
    → stride * length (every stride skip xs) + skip < length xs + stride
length-every stride skip [] h = omega arith
length-every stride zero (x ∷ xs) h =
    omega (arith, length-every stride (stride - 1) xs (omega arith))
length-every stride (suc skip) (x ∷ xs) h = omega (arith, length-every stride skip xs (omega arith))

stride_covers : (points cap : ℕ) → 1 ≤ cap → points ≤ (points + cap - 1) / cap * cap
stride_covers points cap h =
    omega (arith, div-add-mod (points + cap - 1) cap, mod-lt (points + cap - 1) h)

positive_factor : (a b : ℕ) → 1 ≤ a * b → 1 ≤ a
positive_factor zero b h = absurd (omega arith)
positive_factor (suc a) b h = omega arith

kept_few :
    {A : Type 0} (rest : List A) (cap : ℕ)
    → 1 ≤ cap
    → length
        (every ((suc (length rest) + cap - 1) / cap) ((suc (length rest) + cap - 1) / cap - 1) rest)
      < cap
kept_few rest cap h =
    let points = suc (length rest) in
    let stride = (points + cap - 1) / cap in
    let covers = stride_covers points cap h in
    let positive : 1 ≤ stride = positive_factor stride cap (omega (arith, covers)) in
    lt_of_mul-lt-mul_left stride
      (omega (arith, covers, length-every stride (stride - 1) rest (omega arith)))

module _ {F : Type 0} ⦃fl : Float F⦄ where
  -- the first point, an end that is the last point or `==` it, and one point more than the cap at most
  abbrev pub IsPreview : ℕ → Coordinate F → Coordinate F → Polyline F → Type 0
  IsPreview cap p end [] = ⊥
  IsPreview cap p end (q ∷ kept) =
      (q ≡ p)
      × ((final q kept ≡ end) ⊎ (same_coordinate (final q kept) end ≡ true))
      × (length (q ∷ kept) ≤ suc cap)

  final-append :
      (p : Coordinate F) (xs : List (Coordinate F)) (y : Coordinate F) → final p (xs ++ y ∷ []) ≡ y
  final-append p [] y = refl
  final-append p (x ∷ xs) y = final-append x xs y

  with_end-IsPreview :
      (cap : ℕ) (p end : Coordinate F) (kept : List (Coordinate F))
      → length kept < cap
      → IsPreview cap p end (with_end p kept end)
  with_end-IsPreview cap p end kept h = elim (Bool-cases (same_coordinate (final p kept) end)) [
    | inl t ↦ rw t (refl, inr t, omega arith)
    | inr t ↦
        rw t (refl, inl (final-append p kept end), omega (arith, length-append kept (end ∷ [])))
  ]

  -- A polyline with a point, against a cap of at least 1: what is kept begins with the first point, ends
  -- with the last one or with a point that is `==` it, and has at most one point more than the cap.
  pub decimate_one-IsPreview :
      (cap : ℕ) (p : Coordinate F) (rest : List (Coordinate F))
      → 1 ≤ cap
      → IsPreview cap p (final p rest) (decimate_one cap (p ∷ rest))
  unfolding decimate_one
  decimate_one-IsPreview cap p rest h = elim (Bool-cases (leb (length (p ∷ rest)) cap)) [
    | inl t ↦ rw t (refl, inl refl, omega (arith, leb→le (length (p ∷ rest)) cap t))
    | inr t ↦ rw t (
        with_end-IsPreview cap p (final p rest)
          (every ((suc (length rest) + cap - 1) / cap) ((suc (length rest) + cap - 1) / cap - 1)
            rest)
          (kept_few rest cap h))
  ]
