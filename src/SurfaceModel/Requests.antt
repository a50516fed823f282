-- ===== src/SurfaceModel/Requests.antt =====
-- surface_client.py: the drawing commands, the requests that queue controls, the display that
-- arrives and the snapshot that is sent.
use rmp_ros2_control.Prelude.{
  ℕ, ◌+◌, Bool, true, false, ◌&&◌, Option, none, some, List, [], ◌∷◌, ◌++◌, Text, last?, ◌==◌,
  if◌then◌else◌, ◌>>=◌,
}
use rmp_ros2_control.Float.{Float, lit, ◌⊕◌, ◌⊘◌, ◌≤?◌}
use rmp_ros2_control.Linalg.{Coordinate, dist_2}
use rmp_ros2_control.DrawingStore.{Kind, Stroke, DrawingStore, new_store, undo_last, clear}
use rmp_ros2_control.SurfaceModel.{
  ClientConfig, ClientDisplay, Tool, Submitted, ClientControl, Notice, SurfaceModel, is_some,
  queue_control, has_strokes, recipe_loaded, dismiss_recipe, nothing_to_undo, nothing_to_execute,
  nothing_to_save,
}
use rmp_ros2_control.SurfaceModel.Capture.{config_of}

abbrev pub same_text : Text → Text → Bool
same_text [] [] = true
same_text [] (d ∷ ds) = false
same_text (c ∷ cs) [] = false
same_text (c ∷ cs) (d ∷ ds) = (c == d) && same_text cs ds

module _ {F : Type 0} where
  unfoldable pub select_tool : Tool → SurfaceModel F → SurfaceModel F
  select_tool tool s = record s { tool = tool; clicks = []; clicks_seeded = false; capture = [] }

  unfoldable pub set_chain : Bool → SurfaceModel F → SurfaceModel F
  set_chain on s = record s { chain = on; clicks = []; clicks_seeded = false }

  abbrev undone : DrawingStore F × Bool → SurfaceModel F → SurfaceModel F
  undone (store, false) s = record s { status = nothing_to_undo }
  undone (store, true) s = record s { store = some store; revision = s.revision + 1 }

  abbrev pub undo_in : Option (DrawingStore F) → SurfaceModel F → SurfaceModel F
  undo_in none s = record s { status = nothing_to_undo }
  undo_in (some store) s = undone (undo_last store) s

  unfoldable pub undo : SurfaceModel F → SurfaceModel F
  undo s = undo_in s.store s

  abbrev cleared : Option (DrawingStore F) → Option (DrawingStore F)
  cleared none = none
  cleared (some store) = some (clear store)

  unfoldable pub clear_drawing : SurfaceModel F → SurfaceModel F
  clear_drawing s = record s {
    store = cleared s.store;
    clicks = [];
    clicks_seeded = false;
    capture = [];
    revision = s.revision + 1;
  }

abbrev answers : Option (Option Text) → Text → Bool
answers none name = false
answers (some none) name = false
answers (some (some given)) name = same_text given name

-- What one send carries
pub record Snapshot (F : Type 0) : Type 0 where
  pub seq : ℕ
  pub pointer : Coordinate F
  pub surface : Coordinate F
  pub pen : Bool
  pub follow : Bool
  pub controls : List (ClientControl F)

-- What Execute would run.
pub data Target : Type 0 where
  recipe : Text → Target
  drawing : Target

module _ {F : Type 0} ⦃fl : Float F⦄ where
  -- SurfaceModel.clear
  unfoldable pub clear_canvas : F → SurfaceModel F → SurfaceModel F
  unfolding clear_drawing
  clear_canvas now s = dismiss_recipe now (clear_drawing s)

  abbrev target_of : Option Text → Option (DrawingStore F) → Option Target
  target_of (some name) store = some (recipe name)
  target_of none store = if has_strokes store then some drawing else none

  -- _execute_target_locked, with the state that it leaves
  unfoldable pub execute_target : F → SurfaceModel F → SurfaceModel F × Option Target
  execute_target now s = let (s', name) = recipe_loaded now s in (s', target_of name s'.store)

  -- the points that a chained stroke adds after the tail
  abbrev pub after_seam : F → Option (Coordinate F) → List (Coordinate F) → List (Coordinate F)
  after_seam threshold none points = points
  after_seam threshold (some tail) [] = []
  after_seam threshold (some tail) (p ∷ rest) =
      if dist_2 p tail ≤? threshold then rest else p ∷ rest

  -- the loop of `_drawing_payload_locked`; `merged` is the entry that a stroke may still join
  unfoldable pub payload_from : F → Submitted F → List (Stroke F) → List (Submitted F)
  payload_from threshold merged [] = merged ∷ []
  payload_from threshold merged (stroke ∷ rest) =
      let points = merged.points ++ after_seam threshold (last? merged.points) stroke.points in
      let joined = payload_from threshold (record { kind = Kind.polyline; points = points }) rest in
      let fresh =
        payload_from threshold (record { kind = stroke.kind; points = stroke.points }) rest in
      if stroke.chained then joined else merged ∷ fresh

  unfoldable pub payload : F → List (Stroke F) → List (Submitted F)
  unfolding payload_from
  payload threshold [] = []
  payload threshold (stroke ∷ rest) =
      payload_from threshold (record { kind = stroke.kind; points = stroke.points }) rest

  abbrev pub payload_of :
      Option (DrawingStore F) → Option (ClientConfig F) → Option (List (Submitted F))
  payload_of none config = some []
  payload_of (some store) none = none
  payload_of (some store) (some config) = some (payload config.duplicate_threshold store.strokes)

  -- _drawing_payload_locked; `none` is an exception
  unfoldable pub drawing_payload : SurfaceModel F → Option (List (Submitted F))
  drawing_payload s = payload_of s.store (config_of s.display)

  -- a request with a payload, or its notice where there is none
  abbrev pub submit_or :
      Notice
      → (List (Submitted F) → ClientControl F)
      → List (Submitted F)
      → SurfaceModel F
      → SurfaceModel F
  submit_or refusal control [] s = record s { status = refusal }
  submit_or refusal control (p ∷ rest) s = queue_control (control (p ∷ rest)) s

  abbrev pub execute_on : Option Target → SurfaceModel F → Option (SurfaceModel F)
  execute_on none s = some (record s { status = nothing_to_execute })
  execute_on (some (recipe name)) s = some (queue_control ClientControl.execute_recipe s)
  execute_on (some drawing) s = do
    payload ← drawing_payload s
    some (submit_or nothing_to_execute (λ drawn. ClientControl.execute drawn) payload s)

  unfoldable pub request_execute : F → SurfaceModel F → Option (SurfaceModel F)
  request_execute now s = let (s', target) = execute_target now s in execute_on target s'

  unfoldable pub request_save : Text → SurfaceModel F → Option (SurfaceModel F)
  request_save name s = do
    payload ← drawing_payload s
    some (submit_or nothing_to_save (λ drawn. ClientControl.save name drawn) payload s)

  -- millimetres on the way in, metres on the wire
  unfoldable pub request_set_plane : F → F → F → SurfaceModel F → SurfaceModel F
  request_set_plane dx_mm dy_mm yaw s =
      let thousand = lit 10000 1 in
      queue_control (ClientControl.set_plane (dx_mm ⊘ thousand, dy_mm ⊘ thousand) yaw) s

  abbrev pub pending_timeout : F
  pending_timeout = lit 30 1

  unfoldable pub request_load_recipe : F → Text → Option F → Bool → SurfaceModel F → SurfaceModel F
  unfolding clear_drawing
  request_load_recipe now name scale fit s =
      let emptied = if has_strokes s.store then clear_drawing s else s in
      queue_control (ClientControl.load_recipe name scale fit) (record emptied {
        recipe_pending = some (name, now ⊕ pending_timeout);
        recipe_dismissed = false;
      })

module _ {F : Type 0} where
  unfoldable pub request_mode : Text → SurfaceModel F → SurfaceModel F
  request_mode mode s =
      queue_control (ClientControl.mode mode)
        (record s { capture = []; clicks = []; clicks_seeded = false; follow = false })

  unfoldable pub request_clear_recipe : SurfaceModel F → SurfaceModel F
  request_clear_recipe s =
      queue_control ClientControl.clear_recipe
        (record s { recipe_pending = none; recipe_dismissed = true })

  unfoldable pub requeue_controls : List (ClientControl F) → SurfaceModel F → SurfaceModel F
  requeue_controls controls s = record s { controls = controls ++ s.controls }

  abbrev still_pending : Option (Option Text) → Option (Text × F) → Option (Text × F)
  still_pending preview none = none
  still_pending preview (some (name, deadline)) =
      if answers preview name then none else some (name, deadline)

  -- the store is made when the first display arrives; a bound that is not positive raises
  abbrev pub store_for : ℕ → Option (DrawingStore F) → Option (Option (DrawingStore F))
  store_for bound (some store) = some (some store)
  store_for bound none = do made ← new_store bound; some (some made)

  unfoldable pub apply_display : ClientDisplay F → SurfaceModel F → Option (SurfaceModel F)
  apply_display shown s = do
    store ← store_for shown.config.max_samples s.store
    some (record s {
      display = some shown;
      recipe_pending = still_pending shown.preview s.recipe_pending;
      recipe_dismissed = if is_some shown.preview then s.recipe_dismissed else false;
      store = store;
    })

  unfoldable pub snapshot : SurfaceModel F → Snapshot F × SurfaceModel F
  snapshot s = (
    record {
      seq = s.seq;
      pointer = s.pointer;
      surface = s.surface;
      pen = s.pen;
      follow = s.follow;
      controls = s.controls;
    },
    record s { controls = []; seq = s.seq + 1 },
  )

  -- close_controls
  abbrev stop_if_executing : Option (ClientDisplay F) → List (ClientControl F)
  stop_if_executing none = []
  stop_if_executing (some shown) = if shown.executing then ClientControl.stop ∷ [] else []

  unfoldable pub close_controls : SurfaceModel F → List (ClientControl F)
  close_controls s = stop_if_executing s.display
