-- ===== src/SurfaceModel/Retained.antt =====
-- The drawing that the client retains, over the operations of the view and of the transport.
pub mod Always
use rmp_ros2_control.Prelude.{
  ◌+◌, Bool, true, false, not, ◌&&◌, ◌||◌, ◌≡◌, refl, Option, none, some, List, [], ◌∷◌, ◌++◌, Text,
  arith, if◌then◌else◌, ◌>>=◌, Bool-cases, inl, inr, Holds, Holds-bind, Holds-any, Holds-eq,
}
use rmp_ros2_control.Float.{Float}
use rmp_ros2_control.Linalg.{Coordinate}
use rmp_ros2_control.Linalg.Sampling.{remove_duplicates, resample_uniform}
use rmp_ros2_control.DrawingStore.{
  Kind, Params, Stroke, DrawingStore, new_stroke, new_store, append, undo_last, clear,
}
use rmp_ros2_control.DrawingStore.Bound.{IsBounded, appends, undoes, clears, run-IsBounded}
use rmp_ros2_control.SurfaceModel.{
  ClientConfig, ClientDisplay, SurfaceModel, Notice, stroke_refused, primitive_refused, Tool,
  freehand, line, arc, dismiss_recipe, recipe_loaded, plane_of_pointer, chain_anchor, new_model,
}
use rmp_ros2_control.SurfaceModel.Capture.{
  append_or, chain_to, keep_conditioned, terminate_stroke, primitive, finish_primitive, seed_clicks,
  collect_click, capture_point, config_of, set_pointer, set_pen, use_pen, freehand_pen,
}

module _ {F : Type 0} where
  -- the client's store, if there is one, keeps its count and its bound
  abbrev pub Retains : SurfaceModel F → Type 0
  Retains s = Holds (λ store. IsBounded store) s.store

  pub bind-Retains :
      {A : Type 0} (m : Option A) (f : A → Option (SurfaceModel F))
      → ((a : A) → Holds Retains (f a))
      → Holds Retains (m >>= f)
  bind-Retains none f h = tt
  bind-Retains (some a) f h = h a

  abbrev bump : SurfaceModel F → SurfaceModel F
  bump s = record s { revision = s.revision + 1 }

  bump-Retains :
      (m : Option (SurfaceModel F)) → Holds Retains m → Holds Retains (m >>= λ k. some (bump k))
  bump-Retains none h = tt
  bump-Retains (some s) h = h

  append_or-Retains :
      (refusal : Notice) (x : Stroke F) (store : Option (DrawingStore F)) (s : SurfaceModel F)
      → Holds (λ st. IsBounded st) store
      → Holds Retains (append_or refusal x store s)
  append_or-Retains refusal x none s v = tt
  append_or-Retains refusal x (some store) s v = run-IsBounded store (appends x ∷ []) v

module _ {F : Type 0} ⦃fl : Float F⦄ where
  chain_to-Retains :
      (anchor : Option (Coordinate F)) (p : Coordinate F) (rest : List (Coordinate F))
      (s : SurfaceModel F)
      → Retains s
      → Retains (chain_to anchor p rest s).2
  chain_to-Retains none p rest s v = v
  chain_to-Retains (some a) p rest s v = ground arith

  keep_conditioned-Retains :
      (points : List (Coordinate F)) (s : SurfaceModel F)
      → Retains s
      → Holds Retains (keep_conditioned points s)
  unfolding keep_conditioned
  keep_conditioned-Retains [] s v = v
  keep_conditioned-Retains (p ∷ []) s v = v
  keep_conditioned-Retains (p ∷ q ∷ rest) s v =
      let (points, chained, told) = chain_to (chain_anchor s) p (q ∷ rest) s in
      let w = chain_to-Retains (chain_anchor s) p (q ∷ rest) s v in
      bind-Retains (new_stroke Kind.polyline points Params.none_given chained)
        (λ stroke. append_or stroke_refused stroke told.store told)
        (λ stroke. append_or-Retains stroke_refused stroke told.store told w)

  pub terminate_stroke-Retains :
      (s : SurfaceModel F) → Retains s → Holds Retains (terminate_stroke s)
  unfolding terminate_stroke
  terminate_stroke-Retains s v =
      let conditioned = λ (at : ClientConfig F).
        resample_uniform (remove_duplicates s.capture at.duplicate_threshold) at.resample_spacing in
      let kept =
        λ (points : List (Coordinate F)). keep_conditioned points (record s { capture = [] }) in
      bind-Retains (config_of s.display)
        (λ at. conditioned at >>= λ points. kept points >>= λ k. some (bump k))
        (λ at.
          bind-Retains (conditioned at) (λ points. kept points >>= λ k. some (bump k))
            (λ points. bump-Retains (kept points) (keep_conditioned-Retains points _ v)))

  finish_primitive-Retains :
      (x : Option (Stroke F)) (s : SurfaceModel F)
      → Retains s
      → Holds Retains (finish_primitive x s)
  finish_primitive-Retains none s v = v
  finish_primitive-Retains (some x) s v =
      let cleared = record s { clicks = []; clicks_seeded = false } in
      bump-Retains (append_or primitive_refused x s.store cleared)
        (append_or-Retains primitive_refused x s.store cleared v)

  seed_clicks-Retains :
      (clicks : List (Coordinate F)) (anchor : Option (Coordinate F)) (s : SurfaceModel F)
      → Retains s
      → Retains (seed_clicks clicks anchor s)
  seed_clicks-Retains clicks anchor s v = ground arith

  pub collect_click-Retains : (s : SurfaceModel F) → Retains s → Holds Retains (collect_click s)
  unfolding collect_click
  collect_click-Retains s v =
      let seeded = seed_clicks s.clicks (chain_anchor s) s in
      let w = seed_clicks-Retains s.clicks (chain_anchor s) s v in
      let clicked = λ (p : Coordinate F). record seeded { clicks = seeded.clicks ++ p ∷ [] } in
      let made = λ (p : Coordinate F) (at : ClientConfig F).
        primitive s.tool (clicked p).clicks at.resample_spacing (clicked p).clicks_seeded in
      bind-Retains (plane_of_pointer s)
        (λ p. config_of s.display >>= λ at. made p at >>= λ x. finish_primitive x (clicked p))
        (λ p.
          bind-Retains (config_of s.display)
            (λ at. made p at >>= λ x. finish_primitive x (clicked p))
            (λ at.
              bind-Retains (made p at) (λ x. finish_primitive x (clicked p))
                (λ x. finish_primitive-Retains x (clicked p) w)))
