-- ===== src/SurfaceModel/Queue.antt =====
-- The control queue of the client, over the operations of the view.
use mathlib.Core.Option
use rmp_ros2_control.Prelude.{
  ℕ, ◌+◌, Bool, true, false, ◌≡◌, refl, ap, Option, none, some, List, [], ◌∷◌, ◌++◌, append_assoc,
  append-nil, sym, ◌∙◌, Text, arith, ◌>>=◌,
}
use rmp_ros2_control.Float.{Float}
use rmp_ros2_control.Linalg.{Coordinate}
use rmp_ros2_control.Linalg.Sampling.{remove_duplicates, resample_uniform}
use rmp_ros2_control.SurfaceModel.{
  ClientConfig, Submitted, Notice, nothing_to_execute, nothing_to_save, freehand, line, arc, Tool,
  ClientControl, SurfaceModel, dismiss_recipe, recipe_loaded, plane_of_pointer, chain_anchor,
  is_capturing,
}
use rmp_ros2_control.SurfaceModel.Capture.{
  set_pointer, set_pen, use_pen, freehand_pen, config_of, capture_point, keep_conditioned,
  terminate_stroke, collect_click,
}
use rmp_ros2_control.SurfaceModel.Requests.{
  select_tool, set_chain, undo, clear_canvas, clear_drawing, execute_target, request_execute,
  request_save, request_set_plane, request_load_recipe, request_mode, request_clear_recipe,
  apply_display, Target, recipe, drawing, submit_or, execute_on, drawing_payload, requeue_controls,
  snapshot,
}
use rmp_ros2_control.SurfaceModel.Steps.{
  ViewOp, sets_surface, sets_pointer, sets_follow, sets_chain, sets_connected, sets_pen, selects,
  undoes, parks, stops, resets, executes_recipe, clears_recipe, clears, executes, asks_target,
  saves, asks_mode, sets_plane, loads, shows, view_step, view_run,
}

module _ {F : Type 0} ⦃fl : Float F⦄ (front : List (ClientControl F)) (number : ℕ) where
  -- the model with `front` before its controls, and another sequence number
  abbrev before : SurfaceModel F → SurfaceModel F
  before s = record s { controls = front ++ s.controls; seq = number }

  dismiss_recipe-before :
      (now : F) (s : SurfaceModel F) → dismiss_recipe now (before s) ≡ before (dismiss_recipe now s)
  unfolding dismiss_recipe recipe_loaded
  dismiss_recipe-before now s =
      ground (arith, append_assoc front s.controls (ClientControl.clear_recipe ∷ []))

  capture_point-before :
      (s : SurfaceModel F) → capture_point (before s) ≡ Option.map before (capture_point s)
  unfolding plane_of_pointer
  capture_point-before s = ground arith

  keep_conditioned-before :
      (points : List (Coordinate F)) (s : SurfaceModel F)
      → keep_conditioned points (before s) ≡ Option.map before (keep_conditioned points s)
  unfolding keep_conditioned chain_anchor
  keep_conditioned-before [] s = refl
  keep_conditioned-before (p ∷ []) s = refl
  keep_conditioned-before (p ∷ q ∷ rest) s = ground arith

  abbrev bump : SurfaceModel F → SurfaceModel F
  bump s = record s { revision = s.revision + 1 }

  bump-before :
      (m : Option (SurfaceModel F))
      → (Option.map before m >>= λ k. some (bump k)) ≡ Option.map before (m >>= λ k. some (bump k))
  bump-before none = refl
  bump-before (some k) = refl

  conditioned-before :
      (m : Option (List (Coordinate F))) (s : SurfaceModel F)
      → (m >>= λ c. keep_conditioned c (before s) >>= λ k. some (bump k))
        ≡ Option.map before (m >>= λ c. keep_conditioned c s >>= λ k. some (bump k))
  conditioned-before none s = refl
  conditioned-before (some c) s =
      rw (keep_conditioned-before c s) (bump-before (keep_conditioned c s))

  configured-before :
      (config : Option (ClientConfig F)) (s : SurfaceModel F) (capture : List (Coordinate F))
      → (config >>= λ at.
          resample_uniform (remove_duplicates capture at.duplicate_threshold) at.resample_spacing
          >>= λ c. keep_conditioned c (before s) >>= λ k. some (bump k))
        ≡ Option.map before (
            config >>= λ at.
            resample_uniform (remove_duplicates capture at.duplicate_threshold) at.resample_spacing
            >>= λ c. keep_conditioned c s >>= λ k. some (bump k))
  configured-before none s capture = refl
  configured-before (some at) s capture = conditioned-before _ s

  terminate_stroke-before :
      (s : SurfaceModel F) → terminate_stroke (before s) ≡ Option.map before (terminate_stroke s)
  unfolding terminate_stroke
  terminate_stroke-before s =
      configured-before (config_of s.display) (record s { capture = [] }) s.capture

  collect_click-before :
      (s : SurfaceModel F) → collect_click (before s) ≡ Option.map before (collect_click s)
  unfolding collect_click plane_of_pointer chain_anchor
  collect_click-before s = ground arith

  freehand_pen-before :
      (down was_down : Bool) (s : SurfaceModel F)
      → freehand_pen down was_down (before s) ≡ Option.map before (freehand_pen down was_down s)
  unfolding is_capturing
  freehand_pen-before true was_down s = ground (arith, capture_point-before s)
  freehand_pen-before false false s = refl
  freehand_pen-before false true s = ground (arith, terminate_stroke-before s)

  use_pen-before :
      (tool : Tool) (down was_down : Bool) (s : SurfaceModel F)
      → use_pen tool down was_down (before s) ≡ Option.map before (use_pen tool down was_down s)
  use_pen-before freehand down was_down s = freehand_pen-before down was_down s
  use_pen-before line down was_down s = ground (arith, collect_click-before s)
  use_pen-before arc down was_down s = ground (arith, collect_click-before s)

  set_pen-before :
      (now : F) (down : Bool) (s : SurfaceModel F)
      → set_pen now down (before s) ≡ Option.map before (set_pen now down s)
  unfolding set_pen
  set_pen-before now down s =
      let held = record s { pen = down } in
      ground (
        arith,
        dismiss_recipe-before now held,
        use_pen-before s.tool down s.pen held,
        use_pen-before s.tool down s.pen (dismiss_recipe now held),
      )

  submit_or-before :
      (refusal : Notice) (control : List (Submitted F) → ClientControl F)
      (payload : Option (List (Submitted F))) (s : SurfaceModel F)
      → (payload >>= λ p. some (submit_or refusal control p (before s)))
        ≡ Option.map before (payload >>= λ p. some (submit_or refusal control p s))
  submit_or-before refusal control none s = refl
  submit_or-before refusal control (some []) s = refl
  submit_or-before refusal control (some (p ∷ rest)) s = rw append_assoc refl

  execute_on-before :
      (target : Option Target) (s : SurfaceModel F)
      → execute_on target (before s) ≡ Option.map before (execute_on target s)
  unfolding drawing_payload
  execute_on-before none s = refl
  execute_on-before (some (recipe name)) s = rw append_assoc refl
  execute_on-before (some drawing) s =
      submit_or-before nothing_to_execute (λ drawn. ClientControl.execute drawn) (drawing_payload s)
        s

  execute_target-before :
      (now : F) (s : SurfaceModel F)
      → execute_target now (before s) ≡ (before (execute_target now s).0, (execute_target now s).1)
  unfolding execute_target recipe_loaded
  execute_target-before now s = ground arith

  request_execute-before :
      (now : F) (s : SurfaceModel F)
      → request_execute now (before s) ≡ Option.map before (request_execute now s)
  unfolding request_execute
  request_execute-before now s =
      rw (execute_target-before now s)
        (execute_on-before (execute_target now s).1 (execute_target now s).0)

  request_save-before :
      (name : Text) (s : SurfaceModel F)
      → request_save name (before s) ≡ Option.map before (request_save name s)
  unfolding request_save drawing_payload
  request_save-before name s =
      submit_or-before nothing_to_save (λ drawn. ClientControl.save name drawn) (drawing_payload s)
        s

  step-before :
      (op : ViewOp F) (s : SurfaceModel F)
      → view_step op (before s) ≡ Option.map before (view_step op s)
  unfolding view_step set_pointer is_capturing apply_display select_tool set_chain undo clear_canvas
      clear_drawing dismiss_recipe recipe_loaded execute_target request_set_plane
      request_load_recipe request_mode request_clear_recipe
  step-before (sets_surface size) s = refl
  step-before (sets_pointer p) s = ground (arith, capture_point-before (record s { pointer = p }))
  step-before (sets_follow engaged) s = refl
  step-before (sets_chain on) s = refl
  step-before (sets_connected connected) s = refl
  step-before (sets_pen now down) s = set_pen-before now down s
  step-before (selects tool) s = refl
  step-before undoes s = ground arith
  step-before parks s = rw append_assoc refl
  step-before stops s = rw append_assoc refl
  step-before resets s = rw append_assoc refl
  step-before executes_recipe s = rw append_assoc refl
  step-before clears_recipe s = rw append_assoc refl
  step-before (clears now) s = ap some (dismiss_recipe-before now (clear_drawing s))
  step-before (executes now) s = request_execute-before now s
  step-before (asks_target now) s = ground arith
  step-before (saves name) s = request_save-before name s
  step-before (asks_mode mode) s = rw append_assoc refl
  step-before (sets_plane dx dy yaw) s = rw append_assoc refl
  step-before (loads now name scale fit) s =
      ground (arith, append_assoc front s.controls (ClientControl.load_recipe name scale fit ∷ []))
  step-before (shows display) s = ground arith

  rest-before :
      (f : SurfaceModel F → Option (SurfaceModel F)) (m : Option (SurfaceModel F))
      → ((s : SurfaceModel F) → f (before s) ≡ Option.map before (f s))
      → (Option.map before m >>= f) ≡ Option.map before (m >>= f)
  rest-before f none h = refl
  rest-before f (some s) h = h s

  run-before :
      (ops : List (ViewOp F)) (s : SurfaceModel F)
      → view_run ops (before s) ≡ Option.map before (view_run ops s)
  unfolding view_run
  run-before [] s = refl
  run-before (op ∷ ops) s =
      rw (step-before op s)
        (rest-before (λ s'. view_run ops s') (view_step op s) (λ s'. run-before ops s'))

module _ {F : Type 0} ⦃fl : Float F⦄ where
  requeue-before :
      (front : List (ClientControl F)) (n : ℕ) (m : Option (SurfaceModel F))
      → Option.map (requeue_controls front) (Option.map (before [] n) m)
        ≡ Option.map (before front n) m
  unfolding requeue_controls
  requeue-before front n none = refl
  requeue-before front n (some s) = refl

  -- A send that fails loses nothing: when the controls of a snapshot are put back after it, the
  -- model is what the operations of the view in between, whichever they are, make of the model with
  -- only its sequence number advanced.
  pub requeue-snapshot :
      (ops : List (ViewOp F)) (s : SurfaceModel F)
      → Option.map (requeue_controls (snapshot s).0.controls) (view_run ops (snapshot s).1)
        ≡ view_run ops (record s { seq = s.seq + 1 })
  unfolding snapshot
  requeue-snapshot ops s =
      let n = s.seq + 1 in
      let sent = (snapshot s).1 in
      ap (Option.map (requeue_controls s.controls)) (run-before [] n ops sent)
      ∙ requeue-before s.controls n (view_run ops sent)
      ∙ sym (run-before s.controls n ops sent)
      ∙ ap (λ cs. view_run ops (record s { controls = cs; seq = n })) (append-nil s.controls)
