-- ===== src/Recipe/Curves.antt =====
-- send_cartesian_path.py: the curves, B-splines by De Boor's algorithm and centripetal Catmull-Rom
-- splines, and the local points of a segment. `none` is an exception, an IndexError included. The
-- division by zero of a span whose parameter step is absorbed by rounding is not modelled.
use rmp_ros2_control.Prelude.{
  ℕ, zero, suc, ◌+◌, ◌-◌, ◌*◌, ◌/◌, ◌%◌, ◌==◌, Bool, Option, none, some, List, [], ◌∷◌, ◌++◌, map,
  length, leb, ltb, take, last?, get_elem?, range_from, if◌then◌else◌, ◌>>=◌,
}
use rmp_ros2_control.Float.{Float, lit, ◌⊕◌, ◌⊖◌, ◌⊗◌, ◌⊘◌, ◌<?◌, ◌≤?◌, ◌=?◌}
use rmp_ros2_control.Linalg.{Coordinate, Command}
use rmp_ros2_control.Recipe.{
  Shape, RecipeSegment, Defaults, or_default, linspace, malformed, unknown, lin, func, bspline,
  through,
}

-- a list of results, or the first exception
abbrev pub collect : {A B : Type 0} → (A → Option B) → List A → Option (List B)
collect f [] = some []
collect f (x ∷ xs) = do y ← f x; ys ← collect f xs; some (y ∷ ys)

abbrev pub min_ℕ : ℕ → ℕ → ℕ
min_ℕ a b = if leb a b then a else b

module _ {F : Type 0} ⦃fl : Float F⦄ where
  -- _clamped_knots, where there are more control points than the degree
  unfoldable pub clamped_knots : ℕ → ℕ → List F
  clamped_knots num_ctrl p =
      let interior = num_ctrl - p - 1 in
      map (λ i. lit 0 1) (range_from 0 (p + 1))
      ++ (map (λ i. lit i 0 ⊘ lit (interior + 1) 0) (range_from 1 interior)
          ++ map (λ i. lit 10 1) (range_from 0 (p + 1)))

  -- the bisection of `_find_span`, with fuel; `none` is also the fuel run out
  unfoldable pub span_loop : ℕ → F → List F → ℕ → ℕ → Option ℕ
  span_loop zero u knots lo hi = none
  span_loop (suc fuel) u knots lo hi =
      let mid = (lo + hi) / 2 in
      let lower = span_loop fuel u knots lo mid in
      let upper = span_loop fuel u knots mid hi in
      if leb (hi - lo) 1
      then some lo
      else do k ← get_elem? knots mid; if u <? k then lower else upper

  -- the ends of the knots, before the bisection
  abbrev pub clamped_span : F → F → F → ℕ → ℕ → Option ℕ → Option ℕ
  clamped_span u high low num_ctrl p found =
      if high ≤? u then some (num_ctrl - 1) else if u ≤? low then some p else found

  -- _find_span; `num_ctrl` halvings are more than enough
  unfoldable pub find_span : F → List F → ℕ → ℕ → Option ℕ
  unfolding span_loop
  find_span u knots num_ctrl p = do
    high ← get_elem? knots num_ctrl
    low ← get_elem? knots p
    clamped_span u high low num_ctrl p (span_loop (suc num_ctrl) u knots p num_ctrl)

  abbrev pub mix : F → Coordinate F → Coordinate F → Coordinate F
  mix a (x, y) (x', y') = ((lit 10 1 ⊖ a) ⊗ x ⊕ a ⊗ x', (lit 10 1 ⊖ a) ⊗ y ⊕ a ⊗ y')

  -- the weight of round r at the entry j
  abbrev pub weight : F → List F → ℕ → ℕ → ℕ → ℕ → Option F
  weight u knots k p r j = do
    let i = k - p + j
    above ← get_elem? knots (i + p + 1 - r)
    below ← get_elem? knots i
    let denom = above ⊖ below
    some (if denom =? lit 0 1 then lit 0 1 else (u ⊖ below) ⊘ denom)

  -- a round of `_deboor`: the new d[j] from the old d[j - 1] and d[j], which heads the list. The
  -- entries below r are not read again and are left out.
  unfoldable pub deboor_round :
      F → List F → ℕ → ℕ → ℕ → ℕ → List (Coordinate F) → Option (List (Coordinate F))
  deboor_round u knots k p r j [] = some []
  deboor_round u knots k p r j (x ∷ []) = some []
  deboor_round u knots k p r j (x ∷ y ∷ rest) = do
    a ← weight u knots k p r j
    more ← deboor_round u knots k p r (suc j) (y ∷ rest)
    some (mix a x y ∷ more)

  unfoldable pub deboor_rounds :
      F → List F → ℕ → ℕ → ℕ → ℕ → List (Coordinate F) → Option (List (Coordinate F))
  deboor_rounds u knots k p zero r d = some d
  deboor_rounds u knots k p (suc n) r d = do
    d' ← deboor_round u knots k p r r d
    deboor_rounds u knots k p n (suc r) d'

  -- _deboor
  unfoldable pub deboor : F → List F → List (Coordinate F) → ℕ → Option (Coordinate F)
  unfolding deboor_rounds deboor_round find_span
  deboor u knots ctrl p = do
    k ← find_span u knots (length ctrl) p
    d ← collect (λ j. get_elem? ctrl (k - p + j)) (range_from 0 (p + 1))
    left ← deboor_rounds u knots k p p 1 d
    last? left

  -- the periodic curve wraps p control points over uniform knots
  abbrev pub closed_curve : List (Coordinate F) → ℕ → ℕ → Option (List (Coordinate F))
  closed_curve ctrl p samples =
      let cp = ctrl ++ take p ctrl in
      let m = length cp in
      let knots = map (λ i. lit i 0) (range_from 0 (m + p + 1)) in
      collect (λ u. deboor u knots cp p) (linspace (lit p 0) (lit m 0) samples)

  abbrev pub open_curve : List (Coordinate F) → ℕ → ℕ → Option (List (Coordinate F))
  open_curve ctrl p samples =
      collect (λ u. deboor u (clamped_knots (length ctrl) p) ctrl p)
        (linspace (lit 0 1) (lit 10 1) samples)

  unfoldable pub bspline_curve : List (Coordinate F) → ℕ → ℕ → Bool → Option (List (Coordinate F))
  unfolding deboor clamped_knots
  bspline_curve ctrl degree samples closed =
      let p = min_ℕ degree (length ctrl - 1) in
      if ltb (length ctrl) 2
      then none
      else if ltb p 1
      then none
      else if closed
      then closed_curve ctrl p samples
      else open_curve ctrl p samples

  abbrev add_point : Coordinate F → Coordinate F → Coordinate F
  add_point (x, y) (x', y') = (x ⊕ x', y ⊕ y')

  abbrev times : F → Coordinate F → Coordinate F
  times c (x, y) = (c ⊗ x, c ⊗ y)

  -- next_t, guarded against coincident points
  abbrev next_t : F → F → Coordinate F → Coordinate F → F
  next_t alpha t (ax, ay) (bx, by) =
      let dx = bx ⊖ ax in
      let dy = by ⊖ ay in
      let d = fl.pow (fl.sqrt (dx ⊗ dx ⊕ dy ⊗ dy)) alpha in
      t ⊕ (if lit 1 12 <? d then d else lit 1 12)

  -- a point between two, by the parameter
  abbrev between : F → F → F → Coordinate F → Coordinate F → Coordinate F
  between t from to p q =
      add_point (times ((to ⊖ t) ⊘ (to ⊖ from)) p) (times ((t ⊖ from) ⊘ (to ⊖ from)) q)

  -- _cr_span
  unfoldable pub cr_span :
      Coordinate F → Coordinate F → Coordinate F → Coordinate F → ℕ → F → List (Coordinate F)
  cr_span p0 p1 p2 p3 n alpha =
      let t0 = lit 0 1 in
      let t1 = next_t alpha t0 p0 p1 in
      let t2 = next_t alpha t1 p1 p2 in
      let t3 = next_t alpha t2 p2 p3 in
      map
        (λ s.
          let t = t1 ⊕ (t2 ⊖ t1) ⊗ (lit s 0 ⊘ lit n 0) in
          let a1 = between t t0 t1 p0 p1 in
          let a2 = between t t1 t2 p1 p2 in
          let a3 = between t t2 t3 p2 p3 in
          let b1 = between t t0 t2 a1 a2 in let b2 = between t t1 t3 a2 a3 in between t t1 t2 b1 b2)
        (range_from 0 n)

  -- the spans between the second and the last but one of the extended points
  unfoldable pub cr_spans : ℕ → F → List (Coordinate F) → List (Coordinate F)
  unfolding cr_span
  cr_spans per alpha (a ∷ b ∷ c ∷ d ∷ rest) =
      cr_span a b c d per alpha ++ cr_spans per alpha (b ∷ c ∷ d ∷ rest)
  cr_spans per alpha few = []

-- `int(round(a / b))`, half to even
unfoldable pub round_div : ℕ → ℕ → ℕ
round_div a b =
    let q = a / b in
    let r = a % b in
    if ltb (2 * r) b then q else if ltb b (2 * r) then suc q else if q % 2 == 0 then q else suc q

abbrev max_ℕ : ℕ → ℕ → ℕ
max_ℕ a b = if leb a b then b else a

abbrev pub span_count : ℕ → Bool → ℕ
span_count points closed = if closed then points else points - 1

unfoldable pub per_span : ℕ → ℕ → ℕ
unfolding round_div
per_span samples spans = max_ℕ 2 (round_div samples spans)

module _ {F : Type 0} ⦃fl : Float F⦄ where
  -- the points with their phantom ends, and the end that the curve includes
  abbrev pub extended :
      Coordinate F → Coordinate F → Coordinate F → List (Coordinate F) → Bool → List (Coordinate F)
  extended p q end rest closed =
      if closed then end ∷ ((p ∷ q ∷ rest) ++ p ∷ q ∷ []) else p ∷ ((p ∷ q ∷ rest) ++ end ∷ [])

  abbrev pub end_point : Coordinate F → List (Coordinate F) → Coordinate F
  end_point p [] = p
  end_point p (q ∷ rest) = end_point q rest

  unfoldable pub catmull_rom : List (Coordinate F) → ℕ → Bool → Option (List (Coordinate F))
  unfolding cr_spans per_span
  catmull_rom [] samples closed = none
  catmull_rom (p ∷ []) samples closed = none
  catmull_rom (p ∷ q ∷ rest) samples closed =
      let end = end_point q rest in
      let spans = span_count (length (p ∷ q ∷ rest)) closed in
      some (
        cr_spans (per_span samples spans) (lit 5 1) (extended p q end rest closed)
        ++ (if closed then p else end) ∷ [])

  -- sample_func
  abbrev on_range :
      List F → Option (F → Option (F × F × Option F)) → ℕ → Option (List (F × F × Option F))
  on_range (t0 ∷ t1 ∷ []) (some f) samples = collect f (linspace t0 t1 samples)
  on_range range f samples = none

  unfoldable pub sample_func :
      List F → Option (F → Option (F × F × Option F)) → ℕ → Option (List (F × F × Option F))
  sample_func range f samples = on_range range f samples

  -- _resolve_z
  abbrev resolve_z : F → F × F × Option F → Command F
  resolve_z seg_z (x, y, z) = (x, y, or_default z seg_z)

  abbrev pub at_z : F → Coordinate F → Command F
  at_z z (x, y) = (x, y, z)

  abbrev shape_points : Shape F → F → ℕ → Option (List (Command F))
  shape_points (lin (x ∷ y ∷ z ∷ [])) seg_z samples = some ((x, y, z) ∷ [])
  shape_points (lin other) seg_z samples = none
  shape_points (func range f) seg_z samples = do
    points ← sample_func range f samples
    some (map (resolve_z seg_z) points)
  shape_points (bspline points degree closed) seg_z samples = do
    curve ← bspline_curve points degree samples closed
    some (map (at_z seg_z) curve)
  shape_points (through points closed) seg_z samples = do
    curve ← catmull_rom points samples closed
    some (map (at_z seg_z) curve)
  shape_points malformed seg_z samples = none
  shape_points unknown seg_z samples = none

  unfoldable pub segment_local_points : RecipeSegment F → Defaults F → Option (List (Command F))
  segment_local_points seg defaults =
      shape_points seg.shape (or_default seg.z defaults.z) (or_default seg.samples defaults.samples)
