-- ===== src/Linalg/Runs/Groups.antt =====
-- The reference for `split_at_working_area`: the stroke cut into maximal groups of points on one
-- side of the working area, of which the long inside ones are drawn.
use rmp_ros2_control.Prelude.{
  ℕ, ◌≤◌, Bool, true, false, not, ◌&&◌, List, [], ◌∷◌, ◌++◌, ◌≡◌, refl, ap, ◌∙◌, length, leb,
  leb→le, All, All-append, append_assoc, if◌then◌else◌, Bool-cases, inl, inr,
}
use rmp_ros2_control.Float.{Float}
use rmp_ros2_control.Linalg.{Coordinate, in_working_area}

abbrev pub same : Bool → Bool → Bool
same true b = b
same false b = not b

-- a side and the points on it
abbrev pub Group : Type 0 → Type 0
Group F = Bool × List (Coordinate F)

module _ {F : Type 0} where
  -- a group put before others, merged with the first if that is on the same side
  abbrev pub join : Bool → List (Coordinate F) → List (Group F) → List (Group F)
  join b run [] = (b, run) ∷ []
  join b run ((c, next) ∷ gs) =
      if same b c then (b, run ++ next) ∷ gs else (b, run) ∷ (c, next) ∷ gs

  abbrev pub is_drawn : ℕ → Group F → Bool
  is_drawn min_run g = g.0 && leb min_run (length g.1)

  abbrev pub drawn : ℕ → List (Group F) → List (List (Coordinate F))
  drawn min_run [] = []
  drawn min_run (g ∷ gs) =
      let rest = drawn min_run gs in if is_drawn min_run g then g.1 ∷ rest else rest

  abbrev pub left_out : ℕ → List (Group F) → List (List (Coordinate F))
  left_out min_run [] = []
  left_out min_run (g ∷ gs) =
      let rest = left_out min_run gs in if is_drawn min_run g then rest else g.1 ∷ rest

  abbrev pub ungroup : List (Group F) → List (Coordinate F)
  ungroup [] = []
  ungroup (g ∷ gs) = g.1 ++ ungroup gs

  -- neighbours are on different sides
  abbrev pub Alternates : List (Group F) → Type 0
  Alternates [] = Unit
  Alternates (g ∷ []) = Unit
  Alternates (g ∷ h ∷ gs) = (same g.0 h.0 ≡ false) × Alternates (h ∷ gs)

  ungroup-join :
      (b : Bool) (run : List (Coordinate F)) (gs : List (Group F))
      → ungroup (join b run gs) ≡ run ++ ungroup gs
  ungroup-join b run [] = refl
  ungroup-join b run ((c, next) ∷ gs) = elim (Bool-cases (same b c)) [
    | inl e ↦ rw e (append_assoc run next (ungroup gs))
    | inr e ↦ rw e
  ]

module _ {F : Type 0} ⦃fl : Float F⦄ (centre : Coordinate F) (radius : F) where
  abbrev pub groups : List (Coordinate F) → List (Group F)
  groups [] = []
  groups (p ∷ rest) = join (in_working_area p centre radius) (p ∷ []) (groups rest)

  -- all the points of a group are on its side
  abbrev pub OnSide : Group F → Type 0
  OnSide g = All (λ p. in_working_area p centre radius ≡ g.0) g.1

  ungroup-groups : (stroke : List (Coordinate F)) → ungroup (groups stroke) ≡ stroke
  ungroup-groups [] = refl
  ungroup-groups (p ∷ rest) =
      ungroup-join (in_working_area p centre radius) (p ∷ []) (groups rest)
      ∙ ap (λ l. p ∷ l) (ungroup-groups rest)

  join-OnSide :
      (b : Bool) (run : List (Coordinate F)) (gs : List (Group F))
      → OnSide (b, run)
      → All OnSide gs
      → All OnSide (join b run gs)
  join-OnSide b run [] h k = (h, tt)
  join-OnSide true run ((true, next) ∷ gs) h k = (All-append _ run next h k.0, k.1)
  join-OnSide false run ((false, next) ∷ gs) h k = (All-append _ run next h k.0, k.1)
  join-OnSide true run ((false, next) ∷ gs) h k = (h, k)
  join-OnSide false run ((true, next) ∷ gs) h k = (h, k)

  groups-OnSide : (stroke : List (Coordinate F)) → All OnSide (groups stroke)
  groups-OnSide [] = tt
  groups-OnSide (p ∷ rest) = join-OnSide _ (p ∷ []) (groups rest) (refl, tt) (groups-OnSide rest)

  join-Alternates :
      (b : Bool) (run : List (Coordinate F)) (gs : List (Group F))
      → Alternates gs
      → Alternates (join b run gs)
  join-Alternates b run [] h = tt
  join-Alternates true run ((true, next) ∷ []) h = tt
  join-Alternates true run ((true, next) ∷ g ∷ gs) h = h
  join-Alternates false run ((false, next) ∷ []) h = tt
  join-Alternates false run ((false, next) ∷ g ∷ gs) h = h
  join-Alternates true run ((false, next) ∷ gs) h = (refl, h)
  join-Alternates false run ((true, next) ∷ gs) h = (refl, h)

  groups-Alternates : (stroke : List (Coordinate F)) → Alternates (groups stroke)
  groups-Alternates [] = tt
  groups-Alternates (p ∷ rest) = join-Alternates _ (p ∷ []) (groups rest) (groups-Alternates rest)

  -- The groups of a stroke are the stroke cut up: in order they spell the stroke, each holds points
  -- of one side of the working area alone, and neighbours are on different sides.
  pub groups_lem :
      (stroke : List (Coordinate F))
      → (ungroup (groups stroke) ≡ stroke) × All OnSide (groups stroke) × Alternates (groups stroke)
  groups_lem stroke = (ungroup-groups stroke, groups-OnSide stroke, groups-Alternates stroke)

  pub drawn_inside :
      (min_run : ℕ) (gs : List (Group F))
      → All OnSide gs
      → All
          (λ run. All (λ p. in_working_area p centre radius ≡ true) run × (min_run ≤ length run))
          (drawn min_run gs)
  drawn_inside min_run [] h = tt
  drawn_inside min_run ((false, run) ∷ gs) h = drawn_inside min_run gs h.1
  drawn_inside min_run ((true, run) ∷ gs) h = elim (Bool-cases (leb min_run (length run))) [
    | inl e ↦ rw e ((h.0, leb→le min_run (length run) e), drawn_inside min_run gs h.1)
    | inr e ↦ rw e (drawn_inside min_run gs h.1)
  ]
