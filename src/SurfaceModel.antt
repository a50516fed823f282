-- ===== src/SurfaceModel.antt =====
-- surface_client.py: SurfaceModel, the state that the client's view and its transport share. A
-- method is one step, as its lock makes it; `now` is the monotonic clock where it is read. The
-- display is what the bridge sends, so that it has its config block whenever there is one.
pub mod Capture
pub mod Requests
pub mod Steps
pub mod Queue
pub mod Contents
pub mod Retained
use rmp_ros2_control.Prelude.{
  ℕ, ◌+◌, Bool, true, false, not, ◌&&◌, ◌||◌, Option, none, some, List, [], ◌∷◌, ◌++◌, Text, codes,
  last?, if◌then◌else◌, ◌>>=◌,
}
use rmp_ros2_control.Float.{Float, lit, ◌⊕◌, ◌<?◌}
use rmp_ros2_control.Linalg.{Coordinate, Extent, map_canvas_to_plane, clamp_to_extent}
use rmp_ros2_control.DrawingStore.{Kind, DrawingStore, Stroke}

-- The config block of the display.
pub record ClientConfig (F : Type 0) : Type 0 where
  pub extent : Extent F
  pub duplicate_threshold : F
  pub resample_spacing : F
  pub max_samples : ℕ
  pub plane_offset : Coordinate F
  pub plane_yaw_deg : F

-- What the client reads of a display; a preview may lack its name.
pub record ClientDisplay (F : Type 0) : Type 0 where
  pub config : ClientConfig F
  pub live : Bool
  pub executing : Bool
  pub preview : Option (Option Text)

pub data Tool : Type 0 where
  freehand line arc : Tool

-- A stroke of the payload.
pub record Submitted (F : Type 0) : Type 0 where
  pub kind : Kind
  pub points : List (Coordinate F)

pub data ClientControl (F : Type 0) : Type 0 where
  stop reset park execute_recipe clear_recipe : ClientControl F
  execute : List (Submitted F) → ClientControl F
  save : Text → List (Submitted F) → ClientControl F
  mode : Text → ClientControl F
  set_plane : Coordinate F → F → ClientControl F
  load_recipe : Text → Option F → Bool → ClientControl F

pub data Notice : Type 0 where
  no_notice too_short not_chained stroke_refused primitive_refused : Notice
  nothing_to_undo nothing_to_execute nothing_to_save : Notice

pub record SurfaceModel (F : Type 0) : Type 0 where
  pub seq : ℕ
  pub pointer : Coordinate F
  pub surface : Coordinate F
  pub pen : Bool
  pub follow : Bool
  pub controls : List (ClientControl F)
  pub display : Option (ClientDisplay F)
  pub connected : Bool
  pub store : Option (DrawingStore F)
  pub tool : Tool
  pub capture : List (Coordinate F)
  pub clicks : List (Coordinate F)
  pub chain : Bool
  pub clicks_seeded : Bool
  pub revision : ℕ
  pub status : Notice
  -- the name and the deadline of a load in flight
  pub recipe_pending : Option (Text × F)
  pub recipe_dismissed : Bool

-- `bool(...)` of an optional value
abbrev pub is_some : {A : Type 0} → Option A → Bool
is_some none = false
is_some (some a) = true

-- `preview.get('name') or 'recipe'`
abbrev preview_name : Option (Option Text) → Option Text
preview_name none = none
preview_name (some none) = some (codes "recipe")
preview_name (some (some [])) = some (codes "recipe")
preview_name (some (some (c ∷ name))) = some (c ∷ name)

abbrev pub is_freehand : Tool → Bool
is_freehand freehand = true
is_freehand line = false
is_freehand arc = false

module _ {F : Type 0} where
  abbrev pub shows_live : Option (ClientDisplay F) → Bool
  shows_live none = false
  shows_live (some shown) = shown.live

  abbrev pub queue_control : ClientControl F → SurfaceModel F → SurfaceModel F
  queue_control c s = record s { controls = s.controls ++ c ∷ [] }

  abbrev pub strokes_of : Option (DrawingStore F) → List (Stroke F)
  strokes_of none = []
  strokes_of (some store) = store.strokes

  -- `self._store is not None and len(self._store)`
  abbrev pub has_strokes : Option (DrawingStore F) → Bool
  has_strokes store = is_some (last? (strokes_of store))

  -- the preview that the display shows, unless it is dismissed
  abbrev pub shown_recipe : Option (ClientDisplay F) → Bool → Option Text
  shown_recipe none dismissed = none
  shown_recipe (some shown) dismissed = if dismissed then none else preview_name shown.preview

module _ {F : Type 0} ⦃fl : Float F⦄ where
  -- SurfaceModel.__init__
  unfoldable pub new_model : SurfaceModel F
  new_model = record {
    seq = 0;
    pointer = (lit 0 1, lit 0 1);
    surface = (lit 8000 1, lit 8000 1);
    pen = false;
    follow = false;
    controls = [];
    display = none;
    connected = false;
    store = none;
    tool = freehand;
    capture = [];
    clicks = [];
    chain = false;
    clicks_seeded = false;
    revision = 0;
    status = no_notice;
    recipe_pending = none;
    recipe_dismissed = false;
  }

  -- _plane_of_pointer_locked; `none` is an exception, also that of using the None it returns before
  -- the first display
  unfoldable pub plane_of_pointer : SurfaceModel F → Option (Coordinate F)
  plane_of_pointer s = do
    shown ← s.display
    mapped ← map_canvas_to_plane s.pointer s.surface shown.config.extent
    some (clamp_to_extent mapped shown.config.extent)

  -- the deadline of a load in flight is checked, then the preview
  abbrev recipe_after : F → Option (Text × F) → SurfaceModel F → SurfaceModel F × Option Text
  recipe_after now none s = (s, shown_recipe s.display s.recipe_dismissed)
  recipe_after now (some (name, deadline)) s =
      if now <? deadline
      then (s, some name)
      else (record s { recipe_pending = none }, shown_recipe s.display s.recipe_dismissed)

  -- _recipe_loaded_locked, with the state that it leaves
  unfoldable pub recipe_loaded : F → SurfaceModel F → SurfaceModel F × Option Text
  recipe_loaded now s = recipe_after now s.recipe_pending s

  abbrev dismiss_loaded : SurfaceModel F × Option Text → SurfaceModel F
  dismiss_loaded (s, none) = s
  dismiss_loaded (s, some name) =
      queue_control ClientControl.clear_recipe
        (record s { recipe_pending = none; recipe_dismissed = true })

  unfoldable pub dismiss_recipe : F → SurfaceModel F → SurfaceModel F
  unfolding recipe_loaded
  dismiss_recipe now s = dismiss_loaded (recipe_loaded now s)

module _ {F : Type 0} where
  -- _capturing_locked
  unfoldable pub is_capturing : SurfaceModel F → Bool
  is_capturing s = is_some s.store && is_freehand s.tool && not (shows_live s.display)

  -- _chain_anchor_locked
  abbrev last_point : Option (Stroke F) → Option (Coordinate F)
  last_point none = none
  last_point (some stroke) = last? stroke.points

  unfoldable pub chain_anchor : SurfaceModel F → Option (Coordinate F)
  chain_anchor s = if s.chain then last_point (last? (strokes_of s.store)) else none
