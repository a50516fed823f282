-- ===== src/SurfaceModel/Retained/Always.antt =====
-- The drawing that the client retains, after any run of operations.
use rmp_ros2_control.Prelude.{
  ℕ, zero, suc, ◌++◌, Bool, true, false, refl, Option, none, some, List, [], ◌∷◌, arith, ◌>>=◌,
  Holds, Holds-bind,
}
use rmp_ros2_control.Float.{Float}
use rmp_ros2_control.DrawingStore.{DrawingStore, new_store, clear}
use rmp_ros2_control.DrawingStore.Bound.{IsBounded, undoes, run-IsBounded}
use rmp_ros2_control.SurfaceModel.{
  SurfaceModel, Notice, Tool, freehand, line, arc, nothing_to_execute, nothing_to_save,
  ClientControl, Submitted, dismiss_recipe, recipe_loaded, plane_of_pointer, new_model,
}
use rmp_ros2_control.SurfaceModel.Capture.{
  capture_point, set_pointer, set_pen, use_pen, freehand_pen,
}
use rmp_ros2_control.SurfaceModel.Requests.{
  Target, recipe, drawing, select_tool, set_chain, undo, undo_in, clear_canvas, clear_drawing,
  execute_target, execute_on, submit_or, request_execute, request_save, drawing_payload,
  request_set_plane, request_load_recipe, request_mode, request_clear_recipe, apply_display,
  store_for,
}
use rmp_ros2_control.SurfaceModel.Steps.{
  ViewOp, sets_surface, sets_pointer, sets_follow, sets_chain, sets_connected, sets_pen, selects,
  undoes as undoes_stroke, parks, stops, resets, executes_recipe, clears_recipe,
  clears as clears_canvas, executes, asks_target, saves, asks_mode, sets_plane, loads, shows,
  view_step, view_run,
}
use rmp_ros2_control.SurfaceModel.Retained.{
  Retains, bind-Retains, terminate_stroke-Retains, collect_click-Retains,
}

module _ {F : Type 0} where
  undo_in-Retains :
      (store : Option (DrawingStore F)) (s : SurfaceModel F)
      → Holds (λ st. IsBounded st) store
      → Retains s
      → Retains (undo_in store s)
  undo_in-Retains none s h v = v
  undo_in-Retains (some store) s h v = ground (arith, run-IsBounded store (undoes ∷ []) h)

  store_for-IsBounded :
      (bound : ℕ) (store : Option (DrawingStore F))
      → Holds (λ st. IsBounded st) store
      → Holds (λ made. Holds (λ st. IsBounded st) made) (store_for bound store)
  unfolding new_store
  store_for-IsBounded bound (some store) h = h
  store_for-IsBounded zero none h = tt
  store_for-IsBounded (suc n) none h = record { counted = refl; bounded = omega arith }

module _ {F : Type 0} ⦃fl : Float F⦄ where
  clear_drawing-Retains : (s : SurfaceModel F) → Retains s → Retains (clear_drawing s)
  unfolding clear_drawing clear
  clear_drawing-Retains s v = ground arith

  capture_point-Retains : (s : SurfaceModel F) → Retains s → Holds Retains (capture_point s)
  capture_point-Retains s v =
      bind-Retains (plane_of_pointer s) (λ p. some (record s { capture = s.capture ++ p ∷ [] }))
        (λ p. v)

  freehand_pen-Retains :
      (down was_down : Bool) (s : SurfaceModel F)
      → Retains s
      → Holds Retains (freehand_pen down was_down s)
  freehand_pen-Retains true was_down s v = ground (arith, capture_point-Retains s v)
  freehand_pen-Retains false false s v = v
  freehand_pen-Retains false true s v = ground (arith, terminate_stroke-Retains s v)

  use_pen-Retains :
      (tool : Tool) (down was_down : Bool) (s : SurfaceModel F)
      → Retains s
      → Holds Retains (use_pen tool down was_down s)
  use_pen-Retains freehand down was_down s v = freehand_pen-Retains down was_down s v
  use_pen-Retains line down was_down s v = ground (arith, collect_click-Retains s v)
  use_pen-Retains arc down was_down s v = ground (arith, collect_click-Retains s v)

  dismiss_recipe-Retains :
      (now : F) (s : SurfaceModel F) → Retains s → Retains (dismiss_recipe now s)
  unfolding dismiss_recipe recipe_loaded
  dismiss_recipe-Retains now s v = ground arith

  set_pen-Retains :
      (now : F) (down : Bool) (s : SurfaceModel F) → Retains s → Holds Retains (set_pen now down s)
  unfolding set_pen
  set_pen-Retains now down s v =
      let held = record s { pen = down } in
      ground (
        arith,
        use_pen-Retains s.tool down s.pen held v,
        use_pen-Retains s.tool down s.pen (dismiss_recipe now held)
            (dismiss_recipe-Retains now held v),
      )

  execute_target-Retains :
      (now : F) (s : SurfaceModel F) → Retains s → Retains (execute_target now s).0
  unfolding execute_target recipe_loaded
  execute_target-Retains now s v = ground arith

  submit_or-Retains :
      (refusal : Notice) (control : List (Submitted F) → ClientControl F)
      (payload : Option (List (Submitted F))) (s : SurfaceModel F)
      → Retains s
      → Holds Retains (payload >>= λ p. some (submit_or refusal control p s))
  submit_or-Retains refusal control none s v = tt
  submit_or-Retains refusal control (some []) s v = v
  submit_or-Retains refusal control (some (p ∷ rest)) s v = v

  execute_on-Retains :
      (target : Option Target) (s : SurfaceModel F)
      → Retains s
      → Holds Retains (execute_on target s)
  execute_on-Retains none s v = v
  execute_on-Retains (some (recipe name)) s v = v
  execute_on-Retains (some drawing) s v =
      submit_or-Retains nothing_to_execute (λ drawn. ClientControl.execute drawn)
        (drawing_payload s) s v

  view_step-Retains :
      (op : ViewOp F) (s : SurfaceModel F) → Retains s → Holds Retains (view_step op s)
  unfolding view_step set_pointer select_tool set_chain undo clear_canvas request_execute
      request_save request_set_plane request_load_recipe request_mode request_clear_recipe
      apply_display
  view_step-Retains (sets_surface size) s v = v
  view_step-Retains (sets_pointer p) s v =
      ground (arith, capture_point-Retains (record s { pointer = p }) v)
  view_step-Retains (sets_follow engaged) s v = v
  view_step-Retains (sets_chain on) s v = v
  view_step-Retains (sets_connected connected) s v = v
  view_step-Retains (sets_pen now down) s v = set_pen-Retains now down s v
  view_step-Retains (selects tool) s v = v
  view_step-Retains undoes_stroke s v = undo_in-Retains s.store s v v
  view_step-Retains parks s v = v
  view_step-Retains stops s v = v
  view_step-Retains resets s v = v
  view_step-Retains executes_recipe s v = v
  view_step-Retains clears_recipe s v = v
  view_step-Retains (clears_canvas now) s v =
      dismiss_recipe-Retains now (clear_drawing s) (clear_drawing-Retains s v)
  view_step-Retains (executes now) s v =
      execute_on-Retains (execute_target now s).1 (execute_target now s).0
        (execute_target-Retains now s v)
  view_step-Retains (asks_target now) s v = execute_target-Retains now s v
  view_step-Retains (saves name) s v =
      submit_or-Retains nothing_to_save (λ drawn. ClientControl.save name drawn) (drawing_payload s)
        s v
  view_step-Retains (asks_mode mode) s v = v
  view_step-Retains (sets_plane dx dy yaw) s v = v
  view_step-Retains (loads now name scale fit) s v = ground (arith, clear_drawing-Retains s v)
  view_step-Retains (shows display) s v =
      ground (arith, store_for-IsBounded display.config.max_samples s.store v)

  run-Retains :
      (ops : List (ViewOp F)) (s : SurfaceModel F) → Retains s → Holds Retains (view_run ops s)
  unfolding view_run
  run-Retains [] s v = v
  run-Retains (op ∷ ops) s v =
      Holds-bind Retains Retains (view_step op s) (λ s'. view_run ops s') (view_step-Retains op s v)
        (λ s' w. run-Retains ops s' w)

  -- Whatever the view and the transport do from the start on, as long as no exception is raised: the
  -- store of the client counts the points it retains and is within its bound.
  pub view_run-Retains : (ops : List (ViewOp F)) → Holds Retains (view_run ops new_model)
  unfolding new_model
  view_run-Retains ops = run-Retains ops new_model tt
