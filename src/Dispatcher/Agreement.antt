-- ===== src/Dispatcher/Agreement.antt =====
-- Where the board is: the planes that the dispatcher and the other components hold, and the one
-- that the loaded recipe is anchored at.
pub mod Always
use rmp_ros2_control.Prelude.{
  Bool, true, false, not, ◌&&◌, ◌||◌, ◌≡◌, refl, ◌⊎◌, Option, none, some, List, [], ◌∷◌, Text,
  arith, if◌then◌else◌, ◌>>=◌, Bool-cases, inl, inr, Holds, Holds-bind, Holds-any,
}
use rmp_ros2_control.Float.{Float}
use rmp_ros2_control.Linalg.{Coordinate}
use rmp_ros2_control.FileManager.{PlaneConfig}
use rmp_ros2_control.Dispatcher.{
  SaveName, no_name, text_name, unusable_name, DispatcherConfig, Mode, LiveSub, Cause, Control,
  RouteEvent, Call, Environment, Drawing, LoadedRecipe, LoadRequest, Loaded, loaded, refused,
  load_raised, TargetMode, is_live, is_batch, push_display, init, to_batch, to_live, batch,
  executing, live,
}
use rmp_ros2_control.Dispatcher.{Dispatcher as State}
use rmp_ros2_control.Dispatcher.Startup.{Refusal}
use rmp_ros2_control.Dispatcher.Submission.{
  collect_runs, submitted_runs, execute_runs, execute, save_runs, save,
}
use rmp_ros2_control.Dispatcher.Calibration.{set_plane, adopt_plane, refused_or, park}
use rmp_ros2_control.Dispatcher.Recipes.{load_recipe, warn_notes, hold, execute_recipe}
use rmp_ros2_control.Dispatcher.Modes.{switch_mode, reset, enter_stopped}
use rmp_ros2_control.Dispatcher.Controls.{handle_control}
use rmp_ros2_control.Dispatcher.Events.{
  live_sample, follow_sample, route_event, lose_input, Event, run,
}
use rmp_ros2_control.Dispatcher.Induction.{Keeps, run-Keeps}

-- The plane that a call hands to each holder.
abbrev pub to_live_route : {F D : Type 0} → Call F D → Option (PlaneConfig F)
to_live_route (Call.live_set_plane p) = some p
to_live_route c = none

abbrev pub to_stroke_route : {F D : Type 0} → Call F D → Option (PlaneConfig F)
to_stroke_route (Call.stroke_set_plane p) = some p
to_stroke_route c = none

abbrev pub to_bridge : {F D : Type 0} → Call F D → Option (PlaneConfig F)
to_bridge (Call.plane_changed p) = some p
to_bridge c = none

abbrev newest : {F : Type 0} → Option (PlaneConfig F) → PlaneConfig F → PlaneConfig F
newest none p = p
newest (some q) p = q

module _ {F D : Type 0} where
  -- the plane that a holder works with: the last one handed to it, or the one it was built with
  abbrev pub held_plane :
      (Call F D → Option (PlaneConfig F)) → PlaneConfig F → List (Call F D) → PlaneConfig F
  held_plane pick built [] = built
  held_plane pick built (c ∷ cs) = newest (pick c) (held_plane pick built cs)

  abbrev pub Anchors :
      (PlaneConfig F → D → Type 0) → PlaneConfig F → Option (LoadedRecipe F D) → Type 0
  Anchors Anchored plane none = Unit
  Anchors Anchored plane (some recipe) = Anchored plane recipe.doc

  -- the dispatcher, the two live routes and the bridge, all built with `built`
  pub record Agrees (env : Environment F D) (Anchored : PlaneConfig F → D → Type 0)
      (built : PlaneConfig F) (d : State F D) : Type 0 where
    pub live_route : held_plane to_live_route built d.calls ≡ d.config.plane
    pub stroke_route :
        (env.has_stroke_route ≡ false) ⊎ (held_plane to_stroke_route built d.calls ≡ d.config.plane)
    pub bridge : held_plane to_bridge built d.calls ≡ d.config.plane
    pub recipe : Anchors Anchored d.config.plane d.loaded_recipe

module _ {F D : Type 0} (env : Environment F D) (Anchored : PlaneConfig F → D → Type 0) where
  -- What the loader promises: a recipe it returns is anchored at the plane it was given.
  abbrev pub LoaderAnchors : Type 0
  LoaderAnchors =
      (request : LoadRequest F) (config : DispatcherConfig F) (recipe : LoadedRecipe F D)
      → env.load request config ≡ loaded recipe
      → Anchored config.plane recipe.doc

module _ {F D : Type 0} ⦃fl : Float F⦄ (env : Environment F D)
    (Anchored : PlaneConfig F → D → Type 0) (built : PlaneConfig F) where
  abbrev pub P : State F D → Type 0
  P = Agrees env Anchored built

  pub push_display-Agrees : (d : State F D) → P d → P (push_display d)
  unfolding push_display
  push_display-Agrees d v = ground arith

  collect_runs-Agrees :
      (drawing : Drawing F) (runs : List (List (Coordinate F))) (d : State F D)
      → P d
      → P (collect_runs drawing runs d).0
  unfolding collect_runs
  collect_runs-Agrees [] runs d v = v
  collect_runs-Agrees (stroke ∷ rest) runs d v = collect_runs-Agrees rest _ _ (ground arith)

  pub submitted_runs-Agrees :
      (drawing : Drawing F) (d : State F D) → P d → P (submitted_runs drawing d).0
  unfolding submitted_runs
  submitted_runs-Agrees drawing d v = ground (arith, collect_runs-Agrees drawing [] d v)

  pub execute_runs-Agrees :
      (runs : Option (List (List (Coordinate F)))) (d : State F D)
      → P d
      → Holds P (execute_runs runs d)
  unfolding execute_runs
  execute_runs-Agrees none d v = v
  execute_runs-Agrees (some []) d v = ground arith
  execute_runs-Agrees (some (r ∷ runs)) d v = ground arith

  pub save_runs-Agrees :
      (name : SaveName) (runs : Option (List (List (Coordinate F)))) (d : State F D)
      → P d
      → Holds P (save_runs env name runs d)
  unfolding save_runs
  save_runs-Agrees name none d v = v
  save_runs-Agrees no_name (some runs) d v = ground arith
  save_runs-Agrees (text_name []) (some runs) d v = ground arith
  save_runs-Agrees (text_name (c ∷ part)) (some runs) d v = ground arith
  save_runs-Agrees unusable_name (some runs) d v = ground arith

  refused_or-Agrees :
      (r : Option Refusal) (plane : PlaneConfig F) (d : State F D)
      → P d
      → P (refused_or r d (adopt_plane env plane d))
  unfolding adopt_plane
  refused_or-Agrees none plane d v = ground arith
  refused_or-Agrees (some r) plane d v = ground arith

  pub set_plane-Agrees :
      (offset : Coordinate F) (yaw : Option F) (d : State F D)
      → P d
      → P (set_plane env offset yaw d)
  unfolding set_plane
  set_plane-Agrees offset yaw d v = elim (Bool-cases (is_batch d.mode)) [
    | inl e ↦ rw e (refused_or-Agrees _ _ d v)
    | inr e ↦ rw e (ground arith)
  ]

  warn_notes-Agrees : (notes : List Text) (d : State F D) → P d → P (warn_notes notes d)
  warn_notes-Agrees [] d v = v
  warn_notes-Agrees (note ∷ notes) d v = warn_notes-Agrees notes _ (ground arith)

  hold-Agrees :
      (o : Loaded F D) (request : LoadRequest F) (d : State F D)
      → LoaderAnchors env Anchored
      → env.load request d.config ≡ o
      → P d
      → Holds P (hold o d)
  hold-Agrees load_raised request d anchors e v = tt
  hold-Agrees (refused message) request d anchors e v = ground arith
  hold-Agrees (loaded recipe) request d anchors e v = warn_notes-Agrees recipe.notes _ (record {
    live_route = v.live_route;
    stroke_route = v.stroke_route;
    bridge = v.bridge;
    recipe = anchors request d.config recipe e;
  })

  pub load_recipe-Agrees :
      (request : LoadRequest F) (d : State F D)
      → LoaderAnchors env Anchored
      → P d
      → Holds P (load_recipe env request d)
  unfolding load_recipe
  load_recipe-Agrees request d anchors v =
      ground (arith, hold-Agrees (env.load request d.config) request d anchors refl v)

  pub enter_stopped-Agrees : (cause : Cause) (d : State F D) → P d → P (enter_stopped env cause d)
  unfolding enter_stopped
  enter_stopped-Agrees cause d v = ground arith
