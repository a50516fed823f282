-- ===== src/RecipeLoader/Inside.antt =====
-- What `_validate` lets pass is in the working area.
use rmp_ros2_control.Prelude.{
  Bool, true, false, ◌≡◌, refl, Option, none, some, List, [], ◌∷◌, ◌++◌, map, Text, Holds,
  Holds-bind, Holds-eq, All, Bool-cases, inl, inr, arith,
}
use rmp_ros2_control.Float.{Float, lit, ◌<?◌}
use rmp_ros2_control.Linalg.{Coordinate, Command, Extent}
use rmp_ros2_control.Recipe.{RecipeSegment, Defaults, RecipeDoc, or_default}
use rmp_ros2_control.Recipe.Waypoints.{Coords}
use rmp_ros2_control.RecipeLoader.{
  LoadError, Note, Polyline, sample, pen_down_points, pen_down_polylines, polylines_from, scaled,
  close_polyline, fit_scale, validate, validate_points, validate_polylines, depth, outside_disc,
  bad_segment, leaves_working_area,
}
use rmp_ros2_control.RecipeLoader.Files.{
  Attempt, failed, done, or_fail, ◌>>=◌, LoadTarget, require_relative, choose_scale, load_doc,
}

-- what an attempt promises of its result
abbrev pub Promises : {A : Type 0} → (A → Type 0) → Attempt A → Type 0
Promises P (failed e) = Unit
Promises P (done a) = P a

pub Promises-bind :
    {A B : Type 0} (P : A → Type 0) (Q : B → Type 0) (m : Attempt A) (f : A → Attempt B)
    → Promises P m
    → ((a : A) → P a → Promises Q (f a))
    → Promises Q (m >>= f)
Promises-bind P Q (failed e) f h k = tt
Promises-bind P Q (done a) f h k = k a h

pub Promises-any : {A : Type 0} (m : Attempt A) → Promises (λ _. Unit) m
Promises-any (failed e) = tt
Promises-any (done a) = tt

pub Promises-mono :
    {A : Type 0} (P Q : A → Type 0) (m : Attempt A)
    → Promises P m
    → ((a : A) → P a → Q a)
    → Promises Q m
Promises-mono P Q (failed e) h k = tt
Promises-mono P Q (done a) h k = k a h

pub Promises-or_fail :
    {A : Type 0} (P : A → Type 0) (e : LoadError) (m : Option A)
    → Holds P m
    → Promises P (or_fail e m)
Promises-or_fail P e none h = tt
Promises-or_fail P e (some a) h = h

Holds-at : {A : Type 0} (P : A → Type 0) (m : Option A) (a : A) → m ≡ some a → P a → Holds P m
Holds-at P m a e h = rw e h

module _ {F : Type 0} ⦃fl : Float F⦄ (centre : Coordinate F) (radius : F) where
  abbrev pub Within : Coordinate F → Type 0
  Within p = outside_disc centre radius p ≡ false

  validate_points-Within :
      (points : List (Coordinate F)) (e : Extent F)
      → Holds (λ _. All Within points) (validate_points points e centre radius)
  unfolding validate_points
  validate_points-Within [] e = tt
  validate_points-Within (p ∷ points) e = elim (Bool-cases (outside_disc centre radius p)) [
    | inl t ↦ rw t tt
    | inr t ↦ rw t (
        Holds-bind (λ _. All Within points) _ (validate_points points e centre radius) _
          (validate_points-Within points e) (λ n h. (refl, h)))
  ]

  validate_polylines-Within :
      (polylines : List (Polyline F)) (e : Extent F)
      → Holds (λ _. All (All Within) polylines) (validate_polylines polylines e centre radius)
  unfolding validate_polylines
  validate_polylines-Within [] e = tt
  validate_polylines-Within (l ∷ polylines) e =
      Holds-bind (λ _. All Within l) _ (validate_points l e centre radius) _
        (validate_points-Within l e)
        (λ n h.
          Holds-bind (λ _. All (All Within) polylines) _
            (validate_polylines polylines e centre radius) _ (validate_polylines-Within polylines e)
            (λ m k. (h, k)))

  -- where a point is drawn: below the travel height, at the scale
  abbrev pub Drawn : F → F → Command F → Type 0
  Drawn scale safe_z point =
      depth point <? safe_z ≡ true → outside_disc centre radius (scaled scale point) ≡ false

  closed_lem :
      (current : List (Coordinate F)) (polylines : List (Polyline F))
      → All (All Within) (close_polyline current polylines)
      → All Within current × All (All Within) polylines
  closed_lem [] polylines h = (tt, h)
  closed_lem (p ∷ current) polylines h = h

  All-first : (xs ys : List (Coordinate F)) → All Within (xs ++ ys) → All Within xs × All Within ys
  All-first [] ys h = (tt, h)
  All-first (x ∷ xs) ys h = let (a, b) = All-first xs ys h.1 in ((h.0, a), b)

  polylines_from-Drawn :
      (current : List (Coordinate F)) (points : List (Command F)) (scale safe_z : F)
      → All (All Within) (polylines_from current points scale safe_z)
      → All Within current × All (Drawn scale safe_z) points
  unfolding polylines_from
  polylines_from-Drawn current [] scale safe_z h = ((closed_lem current [] h).0, tt)
  polylines_from-Drawn current (point ∷ points) scale safe_z h =
      elim (Bool-cases (depth point <? safe_z)) [
        | inl t ↦
            let (a, b) =
              polylines_from-Drawn (current ++ scaled scale point ∷ []) points scale safe_z
                (rw t at h) in
            let (c, d) = All-first current (scaled scale point ∷ []) a in (c, ((λ _. d.0), b))
        | inr t ↦
            let (c, d) = closed_lem current (polylines_from [] points scale safe_z) (rw t at h) in
            (c, ((λ s. ground arith), (polylines_from-Drawn [] points scale safe_z d).1))
      ]

module _ {F : Type 0} ⦃fl : Float F⦄ where
  -- the sampled points of a document, that the loader checks and previews
  abbrev pub DrawsInside :
      RecipeDoc F → LoadTarget F → List (RecipeSegment F) → Defaults F → F → Type 0
  DrawsInside doc at segments defaults scale =
      Holds (All (Drawn at.centre at.radius scale at.plane.safe_z))
        (sample segments defaults (or_default doc.rotate (lit 0 1)))

  checks : List (Command F) → F → LoadTarget F → Option (List (Note F))
  checks points scale at =
      validate (pen_down_polylines points scale at.plane.safe_z)
        (map depth (pen_down_points at.plane.safe_z points)) at.plane at.extent at.centre at.radius

  validated :
      (points : List (Command F)) (scale : F) (at : LoadTarget F)
      → Holds
          (λ _. All (Drawn at.centre at.radius scale at.plane.safe_z) points)
          (checks points scale at)
  unfolding checks validate pen_down_polylines
  validated points scale at =
      let safe_z = at.plane.safe_z in
      Holds-bind
        (λ _. All (All (Within at.centre at.radius)) (polylines_from [] points scale safe_z)) _
        (validate_polylines (polylines_from [] points scale safe_z) at.extent at.centre at.radius) _
        (validate_polylines-Within at.centre at.radius (polylines_from [] points scale safe_z)
          at.extent)
        (λ _ h. (polylines_from-Drawn at.centre at.radius [] points scale safe_z h).1)

  -- What `load` returns for a recipe that was read: each point of its segments that is drawn, below the travel height, at the
  -- scale that is written into the document, is not outside the working area.
  pub load_doc-Inside :
      (say : Note F → Text) (name : Text) (doc : RecipeDoc F) (coords : Coords)
      (defaults : Defaults F) (segments : List (RecipeSegment F)) (at : LoadTarget F)
      (scale : Option F) (fit : Bool)
      → Promises
          (λ recipe. DrawsInside doc at segments defaults recipe.scale)
          (load_doc say name (doc, coords, defaults, segments) at scale fit)
  unfolding load_doc checks
  load_doc-Inside say name doc coords defaults segments at scale fit =
      let sampled = sample segments defaults (or_default doc.rotate (lit 0 1)) in
      Promises-bind (λ _. Unit) _ (require_relative coords) _ (Promises-any _)
        (λ _ _.
          Promises-bind (λ points. sampled ≡ some points) _ (or_fail bad_segment sampled) _
            (Promises-or_fail _ bad_segment sampled (Holds-eq _ sampled (λ points e. e)))
            (λ points e.
              let fitting =
                fit_scale (pen_down_points at.plane.safe_z points) at.extent at.centre at.radius in
              Promises-bind (λ _. Unit) _ (choose_scale scale fit fitting doc.scale) _
                (Promises-any _)
                (λ effective _.
                  Promises-bind
                    (λ _. All (Drawn at.centre at.radius effective at.plane.safe_z) points) _
                    (or_fail leaves_working_area (checks points effective at)) _
                    (Promises-or_fail _ leaves_working_area (checks points effective at)
                      (validated points effective at))
                    (λ notes h.
                      Holds-at (All (Drawn at.centre at.radius effective at.plane.safe_z)) sampled
                        points e h))))
