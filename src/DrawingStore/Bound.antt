-- ===== src/DrawingStore/Bound.antt =====
-- The retention bound of the drawing store, and undo.
use rmp_ros2_control.Prelude.{
  ℕ, ◌+◌, ◌≤◌, ◌≡◌, ◌⊎◌, refl, true, false, Option, none, some, List, [], ◌∷◌, ◌++◌, arith, length,
  last?, but_last, sum_of, sum_of-append, last?-append_one,
}
use rmp_ros2_control.DrawingStore.{Stroke, DrawingStore, append, undo_last, clear}

pub data Op (F : Type 0) : Type 0 where
  appends : Stroke F → Op F
  undoes clears : Op F

module _ {F : Type 0} where
  abbrev pub points_of : Stroke F → ℕ
  points_of s = length s.points

  -- The count is that of the points retained, and within the bound.
  pub record IsBounded (s : DrawingStore F) : Type 0 where
    pub counted : s.sample_count ≡ sum_of points_of s.strokes
    pub bounded : s.sample_count ≤ s.max_samples

  abbrev pub apply : DrawingStore F → Op F → DrawingStore F
  apply s (appends stroke) = (append s stroke).0
  apply s undoes = (undo_last s).0
  apply s clears = clear s

  abbrev pub run : DrawingStore F → List (Op F) → DrawingStore F
  run s [] = s
  run s (op ∷ ops) = run (apply s op) ops

  -- The newest entry and the others make up the whole.
  sum_of-but_last :
      (l : List (Stroke F)) (x : Stroke F)
      → last? l ≡ some x
      → sum_of points_of l ≡ sum_of points_of (but_last l) + points_of x
  sum_of-but_last [] x e = cc
  sum_of-but_last (y ∷ []) x e = ground arith
  sum_of-but_last (y ∷ z ∷ l) x e = omega (arith, sum_of-but_last (z ∷ l) x e)

  append-IsBounded : (s : DrawingStore F) (x : Stroke F) → IsBounded s → IsBounded (append s x).0
  unfolding append
  append-IsBounded s x v = ground (arith, sum_of-append points_of s.strokes (x ∷ []))

  undo_last-IsBounded : (s : DrawingStore F) → IsBounded s → IsBounded (undo_last s).0
  unfolding undo_last
  undo_last-IsBounded s v = undone (last? s.strokes) refl
    where
      undone : (o : Option (Stroke F)) → last? s.strokes ≡ o → IsBounded (undo_last s).0
      undone none e = rw (e, undo_last) v
      undone (some x) e =
          rw (e, undo_last)
            (record {
              counted = omega (arith, sum_of-but_last s.strokes x e, v.counted);
              bounded = omega (arith, v.bounded);
            })

  apply-IsBounded : (s : DrawingStore F) (op : Op F) → IsBounded s → IsBounded (apply s op)
  unfolding clear
  apply-IsBounded s (appends x) v = append-IsBounded s x v
  apply-IsBounded s undoes v = undo_last-IsBounded s v
  apply-IsBounded s clears v = ground arith

  -- From a store whose count is right: however strokes are appended, undone and cleared, the count stays that of the points retained
  -- and within the bound of the store.
  pub run-IsBounded : (s : DrawingStore F) (ops : List (Op F)) → IsBounded s → IsBounded (run s ops)
  run-IsBounded s [] v = v
  run-IsBounded s (op ∷ ops) v = run-IsBounded (apply s op) ops (apply-IsBounded s op v)

  but_last-append_one : (l : List (Stroke F)) (x : Stroke F) → but_last (l ++ x ∷ []) ≡ l
  but_last-append_one [] x = refl
  but_last-append_one (y ∷ []) x = refl
  but_last-append_one (y ∷ z ∷ l) x = ground (arith, but_last-append_one (z ∷ l) x)

  -- Undoing a stroke that was retained gives the store back; a refused stroke changed nothing.
  pub undo_last-append :
      (s : DrawingStore F) (x : Stroke F)
      → (((append s x).1 ≡ true) × (undo_last (append s x).0 ≡ (s, true)))
        ⊎ (((append s x).1 ≡ false) × ((append s x).0 ≡ s))
  unfolding append undo_last
  undo_last-append s x =
      ground (arith, last?-append_one s.strokes x, but_last-append_one s.strokes x)
