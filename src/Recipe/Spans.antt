-- ===== src/Recipe/Spans.antt =====
-- The knot span that `_find_span` bisects for.
use rmp_ros2_control.Prelude.{
  ℕ, zero, suc, ◌+◌, ◌-◌, ◌/◌, ◌≤◌, ◌<◌, true, false, Option, none, some, List, length, leb,
  get_elem?, get_elem?-bounded, if◌then◌else◌, ◌>>=◌, ◌≡◌, ◌≢◌, inl, inr, refl, arith, Bool-cases,
  Yields, Yields-eq, Yields-any, Yields-bind, sym, subst,
}
use rmp_ros2_control.Float.{Float, ◌<?◌, ◌≤?◌}
use rmp_ros2_control.Float.Order.{IsNumber, IsOrdered}
use rmp_ros2_control.Recipe.Curves.{span_loop, clamped_span, find_span}

module _ {F : Type 0} ⦃fl : Float F⦄ where
  -- u is not below the knot i; u is below it
  abbrev pub Reached : F → List F → ℕ → Type 0
  Reached u knots i = Yields (λ k. u <? k ≡ false) (get_elem? knots i)

  abbrev pub Ahead : F → List F → ℕ → Type 0
  Ahead u knots i = Yields (λ k. u <? k ≡ true) (get_elem? knots i)

  -- a span of the bisection from lo to hi: u is in it where it is between the knots of the ends
  pub record IsSpan (u : F) (knots : List F) (lo hi k : ℕ) : Type 0 where
    pub low : lo ≤ k
    pub high : k < hi
    pub within : Reached u knots lo → Ahead u knots hi → Reached u knots k × Ahead u knots (suc k)

  narrow_low :
      (u : F) (knots : List F) (lo mid hi k : ℕ)
      → lo ≤ mid
      → Reached u knots mid
      → IsSpan u knots mid hi k
      → IsSpan u knots lo hi k
  narrow_low u knots lo mid hi k le r s = record {
    low = omega (arith, s.low);
    high = s.high;
    within = λ _ a. s.within r a;
  }

  narrow_high :
      (u : F) (knots : List F) (lo mid hi k : ℕ)
      → mid ≤ hi
      → Ahead u knots mid
      → IsSpan u knots lo mid k
      → IsSpan u knots lo hi k
  narrow_high u knots lo mid hi k le a s = record {
    low = s.low;
    high = omega (arith, s.high);
    within = λ r _. s.within r a;
  }

  -- the two halves of a round
  halves :
      (u : F) (knots : List F) (lo mid hi : ℕ) (at : F) (lower upper : Option ℕ)
      → lo ≤ mid
      → mid ≤ hi
      → get_elem? knots mid ≡ some at
      → Yields (IsSpan u knots lo mid) lower
      → Yields (IsSpan u knots mid hi) upper
      → Yields (IsSpan u knots lo hi) (if u <? at then lower else upper)
  halves u knots lo mid hi at lower upper a b e l r = elim (Bool-cases (u <? at)) [
    | inl t ↦ rw t (Yields-eq _ _ lower l (λ k _. narrow_high u knots lo mid hi k b (rw e t)))
    | inr t ↦ rw t (Yields-eq _ _ upper r (λ k _. narrow_low u knots lo mid hi k a (rw e t)))
  ]

  at_middle :
      (u : F) (knots : List F) (lo mid hi : ℕ) (m : Option F) (lower upper : Option ℕ)
      → lo ≤ mid
      → mid ≤ hi
      → m ≢ none
      → get_elem? knots mid ≡ m
      → Yields (IsSpan u knots lo mid) lower
      → Yields (IsSpan u knots mid hi) upper
      → Yields (IsSpan u knots lo hi) (m >>= λ k. if u <? k then lower else upper)
  at_middle u knots lo mid hi none lower upper a b n e l r = absurd (n refl)
  at_middle u knots lo mid hi (some k) lower upper a b n e l r =
      halves u knots lo mid hi k lower upper a b e l r

  alone : (u : F) (knots : List F) (lo hi : ℕ) → suc lo ≡ hi → IsSpan u knots lo hi lo
  alone u knots lo hi e = record {
    low = omega arith;
    high = omega (arith, e);
    within = λ r a. (r, subst (λ i. Ahead u knots i) (sym e) a);
  }

  pub span_loop_lem :
      (fuel : ℕ) (u : F) (knots : List F) (lo hi : ℕ)
      → lo < hi
      → hi < length knots
      → hi ≤ lo + fuel
      → Yields (IsSpan u knots lo hi) (span_loop fuel u knots lo hi)
  unfolding span_loop
  span_loop_lem zero u knots lo hi h k e = absurd (omega arith)
  span_loop_lem (suc fuel) u knots lo hi h k e = elim (Bool-cases (leb (hi - lo) 1)) [
    | inl t ↦ let same : suc lo ≡ hi = ground arith in rw t (alone u knots lo hi same)
    | inr t ↦
        let gap : suc (suc lo) ≤ hi = ground arith in
        rw t (
          at_middle u knots lo ((lo + hi) / 2) hi (get_elem? knots ((lo + hi) / 2)) _ _
            (omega arith) (omega arith) (get_elem?-bounded knots ((lo + hi) / 2) (omega arith)) refl
            (span_loop_lem fuel u knots lo ((lo + hi) / 2) (omega arith) (omega arith)
              (omega arith))
            (span_loop_lem fuel u knots ((lo + hi) / 2) hi (omega arith) (omega arith)
              (omega arith)))
  ]

  in_clamp :
      (u high low : F) (num p : ℕ) (found : Option ℕ) (Q : ℕ → Type 0)
      → (high ≤? u ≡ true → Q (num - 1))
      → (u ≤? low ≡ true → Q p)
      → Yields Q found
      → Yields Q (clamped_span u high low num p found)
  in_clamp u high low num p found Q a b c = elim (Bool-cases (high ≤? u)) [
    | inl t ↦ rw t (a t)
    | inr t ↦ elim (Bool-cases (u ≤? low)) [ inl s ↦ rw (t, s) (b s) | inr s ↦ rw (t, s) c ]
  ]

  -- the branches of `_find_span`, each for a property of the span
  by_branches :
      (u : F) (knots : List F) (num p : ℕ) (Q : ℕ → Type 0)
      → num < length knots
      → p < num
      → ((k : F) → get_elem? knots num ≡ some k → k ≤? u ≡ true → Q (num - 1))
      → ((k : F) → get_elem? knots p ≡ some k → u ≤? k ≡ true → Q p)
      → ((k : ℕ) → IsSpan u knots p num k → Q k)
      → Yields Q (find_span u knots num p)
  unfolding find_span
  by_branches u knots num p Q h k a b c =
      Yields-bind (λ _. Unit) Q (get_elem? knots num) _
        (Yields-any _ (get_elem?-bounded knots num h))
        (λ high e _.
          Yields-bind (λ _. Unit) Q (get_elem? knots p) _
            (Yields-any _ (get_elem?-bounded knots p (omega arith)))
            (λ low e' _. in_clamp u high low num p _ Q (a high e) (b low e') (
              Yields-eq _ Q _ (span_loop_lem (suc num) u knots p num k h (omega arith))
                (λ i _ s. c i s))))

  -- `_find_span` always finds a span from the degree p to the last control point.
  pub find_span-InRange :
      (u : F) (knots : List F) (num p : ℕ)
      → num < length knots
      → p < num
      → Yields (λ k. (p ≤ k) × (k < num)) (find_span u knots num p)
  find_span-InRange u knots num p h k =
      by_branches u knots num p _ h k (λ _ _ _. (omega arith, omega arith))
        (λ _ _ _. (omega arith, omega arith)) (λ k s. (s.low, s.high))

module _ {F : Type 0} ⦃fl : Float F⦄ where
  -- u is strictly after the knot i; u is strictly before it
  abbrev pub After : F → List F → ℕ → Type 0
  After u knots i = Yields (λ k. (IsNumber k) × (u ≤? k ≡ false)) (get_elem? knots i)

  abbrev pub Before : F → List F → ℕ → Type 0
  Before u knots i = Yields (λ k. (IsNumber k) × (k ≤? u ≡ false)) (get_elem? knots i)

  -- what is known of an entry, at that entry
  known : (P : F → Type 0) (m : Option F) (k : F) → m ≡ some k → Yields P m → P k
  known P m k e h = subst (Yields P) e h

  -- Of numbers that IEEE comparisons order: where the parameter is strictly between the knots p and
  -- num_ctrl, the degree p is below num_ctrl and there are more knots than control points, `_find_span` returns a span k from p to
  -- num_ctrl - 1 with knots[k] <= u < knots[k + 1], and never runs out of halvings.
  pub find_span_lem :
      (ord : IsOrdered F) (u : F) (knots : List F) (num p : ℕ)
      → p < num
      → num < length knots
      → IsNumber u
      → After u knots p
      → Before u knots num
      → Yields
          (λ k. (p ≤ k) × (k < num) × Reached u knots k × Ahead u knots (suc k))
          (find_span u knots num p)
  find_span_lem ord u knots num p h k n after before =
      by_branches u knots num p _ k h (λ at e t. absurd (ground (arith, (known _ _ at e before).1)))
        (λ at e t. absurd (ground (arith, (known _ _ at e after).1)))
        (λ i s.
          let (r, a) =
            s.within
              (Yields-eq _ _ (get_elem? knots p) after
                (λ x _ y. ground (arith, ord.lt-eq-not-le u x n y.0, ord.le_total u x n y.0)))
              (Yields-eq _ _ (get_elem? knots num) before
                (λ x _ y. ground (arith, ord.lt-eq-not-le u x n y.0))) in
          (s.low, s.high, r, a))
