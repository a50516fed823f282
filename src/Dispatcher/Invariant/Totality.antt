-- ===== src/Dispatcher/Invariant/Totality.antt =====
-- The exceptions that leave the dispatcher.
use rmp_ros2_control.Prelude.{
  Bool, true, false, ◌≡◌, refl, Option, none, some, List, [], ◌∷◌, arith, Bool-cases, inl, inr,
  Holds-any, Returned, Returned-bind, All,
}
use rmp_ros2_control.Float.{Float, lit, ◌≤?◌}
use rmp_ros2_control.Linalg.{Coordinate, Extent, map_canvas_to_plane, clamp_to_extent}
use rmp_ros2_control.FileManager.{PlaneConfig, to_recipe_structure}
use rmp_ros2_control.FileManager.Framing.{to_recipe_structure-none_iff}
use rmp_ros2_control.Dispatcher.{
  DispatcherConfig, LoadRequest, Loaded, loaded, refused, load_raised, SaveName, no_name, text_name,
  unusable_name, Mode, Control, InputEvent, Environment, Drawing, is_batch, batch, executing, live,
}
use rmp_ros2_control.Dispatcher.{Dispatcher as State}
use rmp_ros2_control.Dispatcher.Submission.{execute_runs, execute, save_runs, save}
use rmp_ros2_control.Dispatcher.Recipes.{hold, load_recipe}
use rmp_ros2_control.Dispatcher.Controls.{handle_control, on_control}
use rmp_ros2_control.Dispatcher.Events.{
  follow_sample, live_sample, on_controls, on_input_event, lose_input, on_input_loss, Event, input,
  route, input_loss, client_connected, step, run,
}
use rmp_ros2_control.Dispatcher.Invariant.{Inv, submitted_runs-Inv, handle_control-Inv}
use rmp_ros2_control.Dispatcher.Invariant.Always.{Keeps-Inv, lose_input-Inv}
use rmp_ros2_control.Dispatcher.Induction.{on_control-Keeps, on_controls-Keeps, step-Keeps}

module _ {F : Type 0} ⦃fl : Float F⦄ where
  -- the surface of a sample has a positive width and height
  abbrev pub HasSurface : InputEvent F → Type 0
  HasSurface event = (event.surface.0 ≤? lit 0 1 ≡ false) × (event.surface.1 ≤? lit 0 1 ≡ false)

abbrev pub raises : {F D : Type 0} → Loaded F D → Bool
raises load_raised = true
raises (loaded recipe) = false
raises (refused message) = false

abbrev pub is_usable : SaveName → Bool
is_usable unusable_name = false
is_usable no_name = true
is_usable (text_name part) = true

module _ {F D : Type 0} ⦃fl : Float F⦄ (env : Environment F D) where
  -- a save has a name that is a text or missing, and the loader returns what a load asks for or
  -- refuses it
  abbrev pub IsServable : Control F → Type 0
  IsServable (Control.save drawing name) = is_usable name ≡ true
  IsServable (Control.load_recipe request) =
      (config : DispatcherConfig F) → raises (env.load request config) ≡ false
  IsServable control = Unit

  abbrev pub IsMappable : Event F → Type 0
  IsMappable (input event) = HasSurface event × All IsServable event.controls
  IsMappable (route event) = Unit
  IsMappable input_loss = Unit
  IsMappable client_connected = Unit

  structure-Returned :
      (runs : List (List (Coordinate F))) (plane : PlaneConfig F)
      → plane.safe_z ≤? plane.draw_z ≡ false
      → Returned (to_recipe_structure runs plane)
  structure-Returned runs plane h = ground (arith, (to_recipe_structure-none_iff runs plane).0)

  execute_runs-Returned :
      (runs : Option (List (List (Coordinate F)))) (d : State F D)
      → Inv env d
      → Returned (execute_runs runs d)
  unfolding execute_runs
  execute_runs-Returned none d v = tt
  execute_runs-Returned (some []) d v = tt
  execute_runs-Returned (some (r ∷ runs)) d v =
      ground (arith, structure-Returned (r ∷ runs) d.config.plane v.depth)

  save_runs-Returned :
      (name : SaveName) (runs : Option (List (List (Coordinate F)))) (d : State F D)
      → is_usable name ≡ true
      → Inv env d
      → Returned (save_runs env name runs d)
  unfolding save_runs
  save_runs-Returned name none d h v = tt
  save_runs-Returned no_name (some runs) d h v =
      ground (arith, structure-Returned runs d.config.plane v.depth)
  save_runs-Returned (text_name []) (some runs) d h v =
      ground (arith, structure-Returned runs d.config.plane v.depth)
  save_runs-Returned (text_name (c ∷ part)) (some runs) d h v =
      ground (arith, structure-Returned runs d.config.plane v.depth)
  save_runs-Returned unusable_name (some runs) d h v = cc

  hold-Returned : (o : Loaded F D) (d : State F D) → raises o ≡ false → Returned (hold o d)
  hold-Returned load_raised d h = cc
  hold-Returned (refused message) d h = tt
  hold-Returned (loaded recipe) d h = tt

  load_recipe-Returned :
      (request : LoadRequest F) (d : State F D)
      → raises (env.load request d.config) ≡ false
      → Returned (load_recipe env request d)
  unfolding load_recipe
  load_recipe-Returned request d h = ground (arith, hold-Returned (env.load request d.config) d h)

  execute-Returned :
      (drawing : Drawing F) (d : State F D) → Inv env d → Returned (execute drawing d)
  unfolding execute
  execute-Returned drawing d v = elim (Bool-cases (is_batch d.mode)) [
    | inl e ↦ rw e (execute_runs-Returned _ _ (submitted_runs-Inv env drawing d v))
    | inr e ↦ rw e tt
  ]

  save-Returned :
      (drawing : Drawing F) (name : SaveName) (d : State F D)
      → is_usable name ≡ true
      → Inv env d
      → Returned (save env drawing name d)
  unfolding save
  save-Returned drawing name d h v =
      save_runs-Returned name _ _ h (submitted_runs-Inv env drawing d v)

  handle_control-Returned :
      (control : Control F) (d : State F D)
      → IsServable control
      → Inv env d
      → Returned (handle_control env control d)
  unfolding handle_control
  handle_control-Returned (Control.save drawing name) d h v = save-Returned drawing name d h v
  handle_control-Returned (Control.load_recipe request) d h v =
      load_recipe-Returned request d (h d.config)
  handle_control-Returned (Control.execute drawing) d h v =
      ground (arith, execute-Returned drawing d v)
  handle_control-Returned _ d h v = ground arith

  on_control-Returned :
      (control : Control F) (d : State F D)
      → IsServable control
      → Inv env d
      → Returned (on_control env control d)
  unfolding on_control
  on_control-Returned control d h v =
      Returned-bind (Inv env) (handle_control env control d) _
        (handle_control-Returned control d h v) (handle_control-Inv env control d v) (λ d' v'. tt)

  on_controls-Returned :
      (controls : List (Control F)) (d : State F D)
      → All IsServable controls
      → Inv env d
      → Returned (on_controls env controls d)
  unfolding on_controls
  on_controls-Returned [] d h v = tt
  on_controls-Returned (control ∷ rest) d h v =
      Returned-bind (Inv env) (on_control env control d) _ (on_control-Returned control d h.0 v)
        (on_control-Keeps env (Inv env) (Keeps-Inv env) control d v)
        (λ d' w. on_controls-Returned rest d' h.1 w)

  live_sample-Returned :
      (p : Coordinate F) (pen follows : Bool) (d : State F D)
      → Inv env d
      → Returned (live_sample env p pen follows d)
  unfolding live_sample follow_sample
  live_sample-Returned p pen follows d v = ground arith

  -- The exact condition under which a sample can be mapped.
  map_canvas-Returned :
      (pointer surface : Coordinate F) (extent : Extent F)
      → surface.0 ≤? lit 0 1 ≡ false
      → surface.1 ≤? lit 0 1 ≡ false
      → Returned (map_canvas_to_plane pointer surface extent)
  unfolding map_canvas_to_plane
  map_canvas-Returned pointer surface extent h k = ground arith

  on_input_event-Returned :
      (event : InputEvent F) (d : State F D)
      → Inv env d
      → IsMappable (input event)
      → Returned (on_input_event env event d)
  unfolding on_input_event
  on_input_event-Returned event d v h =
      let mapped = map_canvas_to_plane event.pointer event.surface d.config.extent in
      Returned-bind (λ _. Unit) mapped _
        (map_canvas-Returned event.pointer event.surface d.config.extent h.0.0 h.0.1)
        (Holds-any mapped)
        λ m _.
          Returned-bind (Inv env) (on_controls env event.controls _) _
            (on_controls-Returned event.controls _ h.1 (ground arith))
            (on_controls-Keeps env (Inv env) (Keeps-Inv env) event.controls _ (ground arith))
            (live_sample-Returned (clamp_to_extent m d.config.extent) event.pen event.follow)

  lose_input-Returned :
      (m : Mode) (d : State F D) → d.mode ≡ m → Inv env d → Returned (lose_input env m d)
  unfolding lose_input
  lose_input-Returned batch d e v = tt
  lose_input-Returned executing d e v = tt
  lose_input-Returned live d e v = ground arith

  on_input_loss-Returned : (d : State F D) → Inv env d → Returned (on_input_loss env d)
  unfolding on_input_loss
  on_input_loss-Returned d v =
      Returned-bind (Inv env) (lose_input env d.mode d) _ (lose_input-Returned d.mode d refl v)
        (lose_input-Inv env d.mode d refl v) (λ d' v'. tt)

  step-Returned :
      (event : Event F) (d : State F D) → Inv env d → IsMappable event → Returned (step env event d)
  unfolding step
  step-Returned (input event) d v h = on_input_event-Returned event d v h
  step-Returned (route event) d v h = tt
  step-Returned input_loss d v h = on_input_loss-Returned d v
  step-Returned client_connected d v h = tt

  -- From a state in its invariant, no run of events raises an exception as long as each sample's
  -- surface has a positive width and height, each save has a name that is a text or missing, and the
  -- loader returns a recipe or refuses it where one is asked for.
  pub run-Returned :
      (events : List (Event F)) (d : State F D)
      → Inv env d
      → All IsMappable events
      → Returned (run env events d)
  unfolding run
  run-Returned [] d v h = tt
  run-Returned (event ∷ rest) d v h =
      Returned-bind (Inv env) (step env event d) _ (step-Returned event d v h.0)
        (step-Keeps env (Inv env) (Keeps-Inv env) event d v) (λ d' v'. run-Returned rest d' v' h.1)
