-- ===== src/RecipeLoader/Anchoring.antt =====
-- Where the loader puts a recipe, and the dispatcher with this loader.
use rmp_ros2_control.Prelude.{Bool, ◌≡◌, refl, Option, some, List, Text, Holds, map, subst}
use rmp_ros2_control.Float.{Float, lit}
use rmp_ros2_control.FileManager.{PlaneConfig, effective_anchor}
use rmp_ros2_control.Dispatcher.{
  LoadedRecipe, LoadRequest, Loaded, loaded, refused, load_raised, DispatcherConfig, Environment,
  init,
}
use rmp_ros2_control.Dispatcher.Events.{Event, run}
use rmp_ros2_control.Dispatcher.Agreement.{Agrees, LoaderAnchors}
use rmp_ros2_control.Dispatcher.Agreement.Always.{init-Agrees}
use rmp_ros2_control.Recipe.{RecipeSegment, Defaults, RecipeDoc, or_default}
use rmp_ros2_control.Recipe.Waypoints.{Coords}
use rmp_ros2_control.Recipe.Waypoints.{load_recipe as read_recipe}
use rmp_ros2_control.RecipeLoader.{
  LoadError, Note, sample, pen_down_points, pen_down_polylines, fit_scale, validate, depth,
  bad_segment, leaves_working_area, unreadable,
}
use rmp_ros2_control.RecipeLoader.Files.{
  Attempt, failed, done, or_fail, Files, LoadTarget, triple, require_relative, choose_scale,
  reanchored, resolve, load_doc, load,
}
use rmp_ros2_control.RecipeLoader.Inside.{Promises, Promises-bind, Promises-any, Promises-mono}

module _ {F : Type 0} ⦃fl : Float F⦄ where
  -- the document starts at the ready pose and is drawn on the plane
  pub record IsAnchored (plane : PlaneConfig F) (doc : RecipeDoc F) : Type 0 where
    pub anchor :
        doc.anchor
        ≡ some
            (record { xyz = triple (effective_anchor plane); rpy = some (triple plane.anchor_rpy) })
    pub plane_rotate : doc.plane_rotate ≡ some plane.plane_yaw_deg
    pub ready : doc.ready ≡ some plane.ready_joints

  -- what is drawn is as authored
  pub record IsVerbatim (doc : RecipeDoc F) (recipe : LoadedRecipe F (RecipeDoc F)) : Type 0 where
    pub segments : recipe.doc.segments ≡ doc.segments
    pub defaults : recipe.doc.defaults ≡ doc.defaults
    pub rotate : recipe.doc.rotate ≡ doc.rotate
    pub eef_step : recipe.doc.eef_step ≡ doc.eef_step
    pub scale : recipe.doc.scale ≡ some recipe.scale

  -- What `load` returns for a recipe that was read: the document has the anchor, the rotation and
  -- the ready pose of the plane in place of its own and the scale that the result names, and the
  -- authored segments, defaults, rotation and step.
  pub load_doc-IsAnchored :
      (say : Note F → Text) (name : Text) (doc : RecipeDoc F) (coords : Coords)
      (defaults : Defaults F) (segments : List (RecipeSegment F)) (at : LoadTarget F)
      (scale : Option F) (fit : Bool)
      → Promises
          (λ recipe. IsAnchored at.plane recipe.doc × IsVerbatim doc recipe)
          (load_doc say name (doc, coords, defaults, segments) at scale fit)
  unfolding load_doc reanchored
  load_doc-IsAnchored say name doc coords defaults segments at scale fit =
      Promises-bind (λ _. Unit) _ (require_relative coords) _ (Promises-any _)
        (λ _ _.
          Promises-bind (λ _. Unit) _
            (or_fail bad_segment (sample segments defaults (or_default doc.rotate (lit 0 1)))) _
            (Promises-any _)
            (λ points _.
              let pen_down = pen_down_points at.plane.safe_z points in
              let fitting = fit_scale pen_down at.extent at.centre at.radius in
              Promises-bind (λ _. Unit) _ (choose_scale scale fit fitting doc.scale) _
                (Promises-any _)
                (λ effective _.
                  let polylines = pen_down_polylines points effective at.plane.safe_z in
                  Promises-bind (λ _. Unit) _
                    (or_fail leaves_working_area (
                      validate polylines (map depth pen_down) at.plane at.extent at.centre
                        at.radius))
                    _ (Promises-any _)
                    (λ notes _. (
                      record { anchor = refl; plane_rotate = refl; ready = refl },
                      record {
                        segments = refl;
                        defaults = refl;
                        rotate = refl;
                        eef_step = refl;
                        scale = refl;
                      },
                    )))))

  load-IsAnchored :
      (say : Note F → Text) (files : Files F) (directories : List Text) (name : Text)
      (at : LoadTarget F) (scale : Option F) (fit : Bool)
      → Promises
          (λ recipe. IsAnchored at.plane recipe.doc)
          (load say files directories name at scale fit)
  unfolding load
  load-IsAnchored say files directories name at scale fit =
      Promises-bind (λ _. Unit) _ (resolve files.is_file directories name) _ (Promises-any _)
        (λ path _.
          Promises-bind (λ _. Unit) _ (or_fail unreadable (read_recipe files.read path)) _
            (Promises-any _)
            (λ parsed _.
              Promises-mono _ _ (load_doc say name parsed at scale fit)
                (load_doc-IsAnchored say name parsed.0 parsed.1 parsed.2 parsed.3 at scale fit)
                (λ recipe h. h.0)))

  abbrev pub target_of : DispatcherConfig F → LoadTarget F
  target_of config = record {
    plane = config.plane;
    extent = config.extent;
    centre = config.working_centre;
    radius = config.working_radius;
  }

  abbrev pub outcome :
      (LoadError → Text) → Attempt (LoadedRecipe F (RecipeDoc F)) → Loaded F (RecipeDoc F)
  outcome describe (failed e) = refused (describe e)
  outcome describe (done recipe) = loaded recipe

  -- the call of `_load_recipe` in the dispatcher
  unfoldable pub loader_of :
      (LoadError → Text)
      → (Note F → Text)
      → Files F
      → List Text
      → LoadRequest F
      → DispatcherConfig F
      → Loaded F (RecipeDoc F)
  unfolding load
  loader_of describe say files directories request config =
      outcome describe
        (load say files directories request.name (target_of config) request.scale request.fit)

  AtPlane : PlaneConfig F → Loaded F (RecipeDoc F) → Type 0
  AtPlane plane (loaded recipe) = IsAnchored plane recipe.doc
  AtPlane plane (refused message) = Unit
  AtPlane plane load_raised = Unit

  outcome-AtPlane :
      (describe : LoadError → Text) (plane : PlaneConfig F)
      (a : Attempt (LoadedRecipe F (RecipeDoc F)))
      → Promises (λ r. IsAnchored plane r.doc) a
      → AtPlane plane (outcome describe a)
  unfolding AtPlane
  outcome-AtPlane describe plane (failed e) h = tt
  outcome-AtPlane describe plane (done r) h = h

  loader_of-Anchors :
      (describe : LoadError → Text) (say : Note F → Text) (files : Files F)
      (directories : List Text) (env : Environment F (RecipeDoc F))
      → LoaderAnchors (record env { load = loader_of describe say files directories }) IsAnchored
  unfolding AtPlane loader_of
  loader_of-Anchors describe say files directories env request config recipe e =
      let at = target_of config in
      let attempt = load say files directories request.name at request.scale request.fit in
      let safe = load-IsAnchored say files directories request.name at request.scale request.fit in
      subst (AtPlane config.plane) e (outcome-AtPlane describe config.plane attempt safe)

  -- The dispatcher with the recipe loader as its loader, whatever the files and the other components
  -- are: after any run of events from the start, as long as no exception ends the thread, the live
  -- route, the stroke route if there is one, and the bridge hold the plane of the dispatcher, and the
  -- document of a recipe that is loaded has the anchor, the rotation and the ready pose of that
  -- plane.
  pub loader_of-Agrees :
      (describe : LoadError → Text) (say : Note F → Text) (files : Files F)
      (directories : List Text) (env : Environment F (RecipeDoc F)) (config : DispatcherConfig F)
      (events : List (Event F))
      → Holds
          (Agrees
            (record env { load = loader_of describe say files directories })
            IsAnchored
            config.plane)
          (run
            (record env { load = loader_of describe say files directories })
            events
            (init config))
  loader_of-Agrees describe say files directories env config events =
      init-Agrees (record env { load = loader_of describe say files directories }) IsAnchored config
        events (loader_of-Anchors describe say files directories env)
