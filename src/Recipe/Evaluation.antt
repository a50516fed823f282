-- ===== src/Recipe/Evaluation.antt =====
-- De Boor's algorithm reads no knot and no control point out of range.
use rmp_ros2_control.Prelude.{
  ℕ, zero, suc, ◌+◌, ◌-◌, ◌≤◌, ◌<◌, Bool, true, false, Option, List, [], ◌∷◌, ◌++◌, map, length,
  ltb, take, last?, get_elem?, get_elem?-bounded, range_from, length-range_from, length-append,
  length-map, if◌then◌else◌, ◌≡◌, refl, arith, Yields, Yields-eq, Yields-any, Yields-bind, All,
}
use rmp_ros2_control.Float.{Float, lit}
use rmp_ros2_control.Linalg.{Coordinate}
use rmp_ros2_control.Recipe.{linspace, from_step}
use rmp_ros2_control.Recipe.Curves.{
  collect, weight, deboor_round, deboor_rounds, deboor, find_span, clamped_knots, closed_curve,
  open_curve, bspline_curve, min_ℕ,
}
use rmp_ros2_control.Recipe.Spans.{find_span-InRange}

collect-Complete :
    {A B : Type 0} (f : A → Option B) (xs : List A)
    → All (λ x. Yields (λ _. Unit) (f x)) xs
    → Yields (λ ys. length ys ≡ length xs) (collect f xs)
collect-Complete f [] h = refl
collect-Complete f (x ∷ xs) h =
    Yields-bind (λ _. Unit) _ (f x) _ h.0
      (λ y _ _.
        Yields-bind _ _ (collect f xs) _ (collect-Complete f xs h.1) (λ ys _ e. omega (arith, e)))

All-range_from :
    (P : ℕ → Type 0) (i n : ℕ) → ((j : ℕ) → i ≤ j → j < i + n → P j) → All P (range_from i n)
All-range_from P i zero h = tt
All-range_from P i (suc n) h = (
  h i (omega arith) (omega arith),
  All-range_from P (suc i) n (λ j a b. h j (omega arith) (omega arith)),
)

All-always : {A : Type 0} (P : A → Type 0) (xs : List A) → ((x : A) → P x) → All P xs
All-always P [] h = tt
All-always P (x ∷ xs) h = (h x, All-always P xs h)

last?-Present : {A : Type 0} (xs : List A) → length xs ≡ 1 → Yields (λ _. Unit) (last? xs)
last?-Present [] e = absurd (omega (arith, e))
last?-Present (x ∷ []) e = tt
last?-Present (x ∷ y ∷ xs) e = absurd (omega (arith, e))

on_test :
    {A : Type 0} (b : Bool) (P : A → Type 0) (m n : Option A)
    → Yields P m
    → Yields P n
    → Yields P (if b then m else n)
on_test true P m n h k = h
on_test false P m n h k = k

module _ (F : Type 0) ⦃fl : Float F⦄ where
  length-clamped_knots : (num p : ℕ) → p < num → length (clamped_knots {F = F} num p) ≡ num + p + 1
  unfolding clamped_knots
  length-clamped_knots num p h =
      let first : List F = map (λ i. lit 0 1) (range_from 0 (p + 1)) in
      let middle : List F =
        map (λ i. fl.div (lit i 0) (lit (num - p - 1 + 1) 0)) (range_from 1 (num - p - 1)) in
      let last : List F = map (λ i. lit 10 1) (range_from 0 (p + 1)) in
      omega (
        arith,
        length-append first (middle ++ last),
        length-append middle last,
        length-map {B = F} (λ i. lit 0 1) (range_from 0 (p + 1)),
        length-map (λ i. fl.div (lit i 0) (lit (num - p - 1 + 1) 0)) (range_from 1 (num - p - 1)),
        length-map {B = F} (λ i. lit 10 1) (range_from 0 (p + 1)),
        length-range_from 0 (p + 1),
        length-range_from 1 (num - p - 1),
      )

module _ {F : Type 0} ⦃fl : Float F⦄ where
  length-from_step : (a b step : F) (i n : ℕ) → length (from_step a b step i n) ≡ n
  length-from_step a b step i zero = refl
  length-from_step a b step i (suc zero) = refl
  length-from_step a b step i (suc (suc n)) =
      omega (arith, length-from_step a b step (suc i) (suc n))

  length-linspace : (a b : F) (n : ℕ) → length (linspace a b n) ≡ n
  unfolding linspace
  length-linspace a b zero = refl
  length-linspace a b (suc zero) = refl
  length-linspace a b (suc (suc n)) = length-from_step _ _ _ 0 (suc (suc n))

  weight-Present :
      (u : F) (knots : List F) (k p r j : ℕ)
      → k + p < length knots
      → p ≤ k
      → 1 ≤ r
      → r ≤ j
      → j ≤ p
      → Yields (λ _. Unit) (weight u knots k p r j)
  weight-Present u knots k p r j h a b c d =
      Yields-bind (λ _. Unit) _ (get_elem? knots (k - p + j + p + 1 - r)) _
        (Yields-any _ (get_elem?-bounded knots _ (omega arith)))
        (λ _ _ _.
          Yields-bind (λ _. Unit) _ (get_elem? knots (k - p + j)) _
            (Yields-any _ (get_elem?-bounded knots _ (omega arith))) (λ _ _ _. tt))

  deboor_round-Complete :
      (u : F) (knots : List F) (k p r j n : ℕ) (d : List (Coordinate F))
      → k + p < length knots
      → p ≤ k
      → 1 ≤ r
      → r ≤ j
      → length d ≡ suc n
      → j + n ≤ p + 1
      → Yields (λ d'. length d' ≡ n) (deboor_round u knots k p r j d)
  unfolding deboor_round
  deboor_round-Complete u knots k p r j n [] h a b c e g = absurd (omega (arith, e))
  deboor_round-Complete u knots k p r j n (x ∷ []) h a b c e g = omega (arith, e)
  deboor_round-Complete u knots k p r j zero (x ∷ y ∷ rest) h a b c e g = absurd (omega (arith, e))
  deboor_round-Complete u knots k p r j (suc n) (x ∷ y ∷ rest) h a b c e g =
      Yields-bind (λ _. Unit) _ (weight u knots k p r j) _
        (weight-Present u knots k p r j h a b c (omega arith))
        (λ w _ _.
          Yields-bind (λ d'. length d' ≡ n) _ (deboor_round u knots k p r (suc j) (y ∷ rest)) _
            (deboor_round-Complete u knots k p r (suc j) n (y ∷ rest) h a b (omega arith)
              (omega (arith, e)) (omega arith))
            (λ d' _ l. omega (arith, l)))

  deboor_rounds-Complete :
      (u : F) (knots : List F) (k p n r : ℕ) (d : List (Coordinate F))
      → k + p < length knots
      → p ≤ k
      → 1 ≤ r
      → r + n ≡ p + 1
      → length d ≡ suc n
      → Yields (λ d'. length d' ≡ 1) (deboor_rounds u knots k p n r d)
  unfolding deboor_rounds
  deboor_rounds-Complete u knots k p zero r d h a b e l = l
  deboor_rounds-Complete u knots k p (suc n) r d h a b e l =
      Yields-bind (λ d'. length d' ≡ suc n) _ (deboor_round u knots k p r r d) _
        (deboor_round-Complete u knots k p r r (suc n) d h a b (omega arith) l (omega (arith, e)))
        (λ d' _ l'.
          deboor_rounds-Complete u knots k p n (suc r) d' h a (omega arith) (omega (arith, e)) l')

  deboor-Present :
      (u : F) (knots : List F) (ctrl : List (Coordinate F)) (p : ℕ)
      → p < length ctrl
      → length ctrl + p ≤ length knots
      → 1 ≤ p
      → Yields (λ _. Unit) (deboor u knots ctrl p)
  unfolding deboor
  deboor-Present u knots ctrl p h l o =
      Yields-bind (λ k. (p ≤ k) × (k < length ctrl)) _ (find_span u knots (length ctrl) p) _
        (find_span-InRange u knots (length ctrl) p (omega arith) h)
        (λ k _ s.
          Yields-bind (λ d. length d ≡ length (range_from 0 (p + 1))) _
            (collect _ (range_from 0 (p + 1))) _
            (collect-Complete _ _ (
              All-range_from _ 0 (p + 1) (λ j _ b.
                Yields-any _ (get_elem?-bounded ctrl (k - p + j) (omega (arith, s.0, s.1))))))
            (λ d _ e.
              Yields-bind (λ d'. length d' ≡ 1) _ (deboor_rounds u knots k p p 1 d) _
                (deboor_rounds-Complete u knots k p p 1 d (omega (arith, s.1)) s.0 (omega arith)
                  (omega arith) (omega (arith, e, length-range_from 0 (p + 1))))
                (λ d' _ e'. last?-Present d' e')))

  open_curve-Complete :
      (ctrl : List (Coordinate F)) (p samples : ℕ)
      → p < length ctrl
      → 1 ≤ p
      → Yields (λ c. length c ≡ samples) (open_curve ctrl p samples)
  open_curve-Complete ctrl p samples h o =
      Yields-eq (λ c. length c ≡ length (linspace {F = F} (lit 0 1) (lit 10 1) samples))
        (λ c. length c ≡ samples) _
        (collect-Complete (λ u. deboor u (clamped_knots (length ctrl) p) ctrl p) _
          (All-always _ _ (λ u.
            deboor-Present u (clamped_knots (length ctrl) p) ctrl p h
              (omega (arith, length-clamped_knots F (length ctrl) p h)) o)))
        (λ c _ e. omega (arith, e, length-linspace (lit 0 1) (lit 10 1) samples))

  closed_curve-Complete :
      (ctrl : List (Coordinate F)) (p samples : ℕ)
      → p < length ctrl
      → 1 ≤ p
      → Yields (λ c. length c ≡ samples) (closed_curve ctrl p samples)
  closed_curve-Complete ctrl p samples h o =
      let cp = ctrl ++ take p ctrl in
      let range = range_from 0 (length cp + p + 1) in
      Yields-eq (λ c. length c ≡ length (linspace {F = F} (lit p 0) (lit (length cp) 0) samples))
        (λ c. length c ≡ samples) _
        (collect-Complete (λ u. deboor u (map (λ i. lit i 0) range) cp p) _
          (All-always _ _ (λ u.
            deboor-Present u (map (λ i. lit i 0) range) cp p
              (omega (arith, length-append ctrl (take p ctrl)))
              (omega (
                arith,
                length-map {B = F} (λ i. lit i 0) range,
                length-range_from 0 (length cp + p + 1),
              ))
              o)))
        (λ c _ e. omega (arith, e, length-linspace (lit p 0) (lit (length cp) 0) samples))

  -- With at least two control points and a degree of at least 1, `bspline_curve`, open or closed,
  -- raises nothing: no knot or control point is read out of range, the bisection ends, and the curve has exactly the
  -- number of samples asked for.
  pub bspline_curve-Complete :
      (ctrl : List (Coordinate F)) (degree samples : ℕ) (closed : Bool)
      → 2 ≤ length ctrl
      → 1 ≤ degree
      → Yields (λ c. length c ≡ samples) (bspline_curve ctrl degree samples closed)
  unfolding bspline_curve
  bspline_curve-Complete ctrl degree samples closed h o =
      let p = min_ℕ degree (length ctrl - 1) in
      let low : 1 ≤ p = ground arith in
      let high : p < length ctrl = ground arith in
      let a : ltb (length ctrl) 2 ≡ false = ground arith in
      let b : ltb p 1 ≡ false = ground arith in
      rw (a, b)
        (on_test closed _ _ _ (closed_curve-Complete ctrl p samples high low)
          (open_curve-Complete ctrl p samples high low))
