-- ===== src/StreamedSender/Slices.antt =====
-- Pieces of a list that share their ends.
pub mod Cuts
use rmp_ros2_control.Prelude.{
  ℕ, zero, suc, ◌+◌, ◌-◌, ◌≤◌, ◌<◌, true, ◌&&◌, ◌≡◌, refl, Option, none, some, List, [], ◌∷◌, ◌++◌,
  length, last?, get_elem?, range_from, take, drop, ltb, ltb→lt, Holds, Holds-bind, Holds-any, ◌⊎◌,
  Bool-cases, inl, inr, arith, length-take, length-drop, last?-take, take-append-drop, ◌>>=◌, sym,
  ◌∙◌, ap, subst,
}
use rmp_ros2_control.Float.{Float, lit, max, ◌⊕◌, ◌⊘◌, ◌≤?◌}
use rmp_ros2_control.Recipe.Curves.{collect}
use rmp_ros2_control.Recipe.{RecipeSegment, RecipeDoc, Defaults}
use rmp_ros2_control.Recipe.Waypoints.{Coords, Waypoint, build_waypoints}
use rmp_ros2_control.StreamedSender.{
  pieces, slice_goals, keep_cut, cut_loop, split_cuts, after_last, prepare_split, Placement,
  waypoint_times, step_lengths, segment_starts, running, timed_start, count, start_pose,
  some_waypoints,
}

-- ascending after a bound, and below the other
abbrev pub Between : ℕ → ℕ → List ℕ → Type 0
Between low high [] = Unit
Between low high (c ∷ cs) = (low < c) × (c < high) × Between c high cs

-- the goals joined: of each goal after the first, all but the waypoint that it shares
abbrev pub rejoined : {A : Type 0} → List (List A) → List A
rejoined [] = []
rejoined (g ∷ []) = g
rejoined (g ∷ h ∷ gs) = g ++ drop 1 (rejoined (h ∷ gs))

-- each goal has a motion, and the next one begins with its last waypoint
abbrev pub Seamed : {A : Type 0} → List (List A) → Type 0
Seamed [] = Unit
Seamed (g ∷ []) = 2 ≤ length g
Seamed (g ∷ h ∷ gs) = (2 ≤ length g) × (last? g ≡ get_elem? h 0) × Seamed (h ∷ gs)

module _ {A : Type 0} where
  drop-drop : (m n k : ℕ) (xs : List A) → k ≡ n + m → drop m (drop n xs) ≡ drop k xs
  drop-drop m zero k xs e = ground arith
  drop-drop m (suc n) zero xs e = absurd (omega (arith, e))
  drop-drop zero (suc n) (suc k) [] e = refl
  drop-drop (suc m) (suc n) (suc k) [] e = refl
  drop-drop m (suc n) (suc k) (x ∷ xs) e = drop-drop m n k xs (omega (arith, e))

  take-all : (n : ℕ) (xs : List A) → n ≡ length xs → take n xs ≡ xs
  take-all zero [] e = refl
  take-all zero (x ∷ xs) e = absurd (omega (arith, e))
  take-all (suc n) [] e = refl
  take-all (suc n) (x ∷ xs) e = ap (λ l. x ∷ l) (take-all n xs (omega (arith, e)))

  get_elem?-drop : (n i k : ℕ) (xs : List A) → k ≡ n + i → get_elem? (drop n xs) i ≡ get_elem? xs k
  get_elem?-drop zero i k xs e = ground arith
  get_elem?-drop (suc n) i zero xs e = absurd (omega (arith, e))
  get_elem?-drop (suc n) i (suc k) [] e = refl
  get_elem?-drop (suc n) i (suc k) (x ∷ xs) e = get_elem?-drop n i k xs (omega (arith, e))

  get_elem?-take : (n : ℕ) (xs : List A) → get_elem? (take (suc n) xs) 0 ≡ get_elem? xs 0
  get_elem?-take n [] = refl
  get_elem?-take n (x ∷ xs) = refl

  pieces-cons :
      (ws : List A) (low : ℕ) (cuts : List ℕ) (last : ℕ) (g : List A)
      → rejoined (g ∷ pieces ws (low ∷ (cuts ++ last ∷ [])))
        ≡ g ++ drop 1 (rejoined (pieces ws (low ∷ (cuts ++ last ∷ []))))
  unfolding pieces
  pieces-cons ws low [] last g = refl
  pieces-cons ws low (c ∷ cuts) last g = refl

  -- from a bound on, to the end
  pub rejoined-pieces :
      (ws : List A) (low : ℕ) (cuts : List ℕ)
      → low < length ws
      → Between low (length ws - 1) cuts
      → rejoined (pieces ws (low ∷ (cuts ++ (length ws - 1) ∷ []))) ≡ drop low ws
  unfolding pieces
  rejoined-pieces ws low [] l h =
      take-all (length ws - 1 + 1 - low) (drop low ws) (omega (arith, length-drop low ws))
  rejoined-pieces ws low (c ∷ cuts) l h =
      let g = take (c + 1 - low) (drop low ws) in
      let next = rejoined-pieces ws c cuts (omega (arith, h.1)) h.2 in
      pieces-cons ws c cuts (length ws - 1) g
      ∙ ap (λ l. g ++ drop 1 l) next
      ∙ ap (λ l. g ++ l)
          (drop-drop 1 c (c + 1) ws refl
            ∙ sym (drop-drop (c + 1 - low) low (c + 1) ws (omega (arith, h.0))))
      ∙ take-append-drop (c + 1 - low) (drop low ws)

  pieces-share :
      (ws : List A) (low c next : ℕ)
      → low < c
      → c < next
      → next < length ws
      → last? (take (c + 1 - low) (drop low ws)) ≡ get_elem? (take (next + 1 - c) (drop c ws)) 0
  pieces-share ws low c next a b l =
      let first : c + 1 - low ≡ suc (c - low) = omega arith in
      let second : next + 1 - c ≡ suc (next - c) = omega arith in
      rw (first, second)
        (last?-take (c - low) (drop low ws) (omega (arith, length-drop low ws))
          ∙ get_elem?-drop low (c - low) c ws (omega arith)
          ∙ sym (get_elem?-drop c 0 c ws (omega arith))
          ∙ sym (get_elem?-take (next - c) (drop c ws)))

  piece_length :
      (ws : List A) (low c : ℕ)
      → low < c
      → c < length ws
      → 2 ≤ length (take (c + 1 - low) (drop low ws))
  piece_length ws low c a l = omega (
    arith,
    length-drop low ws,
    length-take (c + 1 - low) (drop low ws) (omega (arith, length-drop low ws)),
  )

  pub pieces-Seamed :
      (ws : List A) (low : ℕ) (cuts : List ℕ)
      → suc low < length ws
      → Between low (length ws - 1) cuts
      → Seamed (pieces ws (low ∷ (cuts ++ (length ws - 1) ∷ [])))
  unfolding pieces
  pieces-Seamed ws low [] l h = piece_length ws low (length ws - 1) (omega arith) (omega arith)
  pieces-Seamed ws low (c ∷ []) l h = (
    piece_length ws low c h.0 (omega (arith, h.1)),
    pieces-share ws low c (length ws - 1) h.0 h.1 (omega arith),
    pieces-Seamed ws c [] (omega (arith, h.1)) tt,
  )
  pieces-Seamed ws low (c ∷ d ∷ cuts) l h = (
    piece_length ws low c h.0 (omega (arith, h.1)),
    pieces-share ws low c d h.0 (h.2).0 (omega (arith, (h.2).1)),
    pieces-Seamed ws c (d ∷ cuts) (omega (arith, h.1)) h.2,
  )
