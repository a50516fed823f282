-- ===== src/SurfaceModel/Capture.antt =====
-- surface_client.py: the pen, the pointer, the conditioning of a captured stroke and the clicks of a
-- primitive. `none` is an exception.
use rmp_ros2_control.Prelude.{
  ◌+◌, Bool, true, false, not, ◌&&◌, ◌||◌, Option, none, some, List, [], ◌∷◌, ◌++◌, if◌then◌else◌,
  ◌>>=◌,
}
use rmp_ros2_control.Float.{Float, lit, ◌≤?◌}
use rmp_ros2_control.Linalg.{Coordinate, dist_2}
use rmp_ros2_control.Linalg.Sampling.{sample_line, sample_arc, remove_duplicates, resample_uniform}
use rmp_ros2_control.DrawingStore.{Kind, Params, Stroke, DrawingStore, new_stroke, append}
use rmp_ros2_control.SurfaceModel.{
  ClientConfig, ClientDisplay, Tool, SurfaceModel, Notice, is_some, shows_live, plane_of_pointer,
  dismiss_recipe, is_capturing, chain_anchor, freehand, line, arc, too_short, not_chained,
  stroke_refused, primitive_refused,
}

module _ {F : Type 0} where
  abbrev pub config_of : Option (ClientDisplay F) → Option (ClientConfig F)
  config_of none = none
  config_of (some shown) = some shown.config

  -- `self._store.append`, with the notice of a refusal; without a store it raises
  abbrev pub append_or :
      Notice → Stroke F → Option (DrawingStore F) → SurfaceModel F → Option (SurfaceModel F)
  append_or refusal stroke none s = none
  append_or refusal stroke (some store) s =
      let (store', kept) = append store stroke in
      some (record s { store = some store'; status = if kept then s.status else refusal })

module _ {F : Type 0} ⦃fl : Float F⦄ where
  abbrev pub chain_tolerance : F
  chain_tolerance = lit 5 3

  -- the points, whether they continue the stroke before, and the model with its notice
  abbrev pub chain_to :
      Option (Coordinate F)
      → Coordinate F
      → List (Coordinate F)
      → SurfaceModel F
      → List (Coordinate F) × Bool × SurfaceModel F
  chain_to none p rest s = (p ∷ rest, false, s)
  chain_to (some anchor) p rest s =
      if dist_2 anchor p ≤? chain_tolerance
      then (anchor ∷ rest, true, s)
      else (p ∷ rest, false, record s { status = not_chained })

  -- what becomes of the conditioned points
  unfoldable pub keep_conditioned : List (Coordinate F) → SurfaceModel F → Option (SurfaceModel F)
  keep_conditioned [] s = some (record s { status = too_short })
  keep_conditioned (p ∷ []) s = some (record s { status = too_short })
  keep_conditioned (p ∷ q ∷ rest) s = do
    let (points, chained, told) = chain_to (chain_anchor s) p (q ∷ rest) s
    stroke ← new_stroke Kind.polyline points Params.none_given chained
    append_or stroke_refused stroke told.store told

  unfoldable pub terminate_stroke : SurfaceModel F → Option (SurfaceModel F)
  terminate_stroke s = do
    config ← config_of s.display
    conditioned ←
        resample_uniform (remove_duplicates s.capture config.duplicate_threshold)
          config.resample_spacing
    kept ← keep_conditioned conditioned (record s { capture = [] })
    some (record kept { revision = kept.revision + 1 })

  -- the stroke of a primitive once it has its clicks
  unfoldable pub primitive : Tool → List (Coordinate F) → F → Bool → Option (Option (Stroke F))
  primitive line (a ∷ b ∷ rest) spacing seeded = do
    points ← sample_line a b spacing
    stroke ← new_stroke Kind.line points (Params.two_points a b) seeded
    some (some stroke)
  primitive arc (a ∷ b ∷ c ∷ rest) spacing seeded = do
    points ← sample_arc a b c spacing
    stroke ← new_stroke Kind.arc points (Params.three_points a b c) seeded
    some (some stroke)
  primitive freehand clicks spacing seeded = none
  primitive tool clicks spacing seeded = some none

  abbrev pub finish_primitive : Option (Stroke F) → SurfaceModel F → Option (SurfaceModel F)
  finish_primitive none s = some s
  finish_primitive (some stroke) s = do
    kept ←
        append_or primitive_refused stroke s.store (record s { clicks = []; clicks_seeded = false })
    some (record kept { revision = kept.revision + 1 })

  -- the start that a first click inherits
  abbrev pub seed_clicks :
      List (Coordinate F) → Option (Coordinate F) → SurfaceModel F → SurfaceModel F
  seed_clicks [] (some anchor) s = record s { clicks = anchor ∷ []; clicks_seeded = true }
  seed_clicks [] none s = s
  seed_clicks (p ∷ rest) anchor s = s

  unfoldable pub collect_click : SurfaceModel F → Option (SurfaceModel F)
  collect_click s = do
    let seeded = seed_clicks s.clicks (chain_anchor s) s
    p ← plane_of_pointer s
    config ← config_of s.display
    let clicked = record seeded { clicks = seeded.clicks ++ p ∷ [] }
    stroke ← primitive s.tool clicked.clicks config.resample_spacing clicked.clicks_seeded
    finish_primitive stroke clicked

  -- `self._capture.append(self._plane_of_pointer_locked())`
  abbrev pub capture_point : SurfaceModel F → Option (SurfaceModel F)
  capture_point s = do p ← plane_of_pointer s; some (record s { capture = s.capture ++ p ∷ [] })

  unfoldable pub set_pointer : Coordinate F → SurfaceModel F → Option (SurfaceModel F)
  set_pointer p s =
      let moved = record s { pointer = p } in
      if s.pen && is_capturing moved then capture_point moved else some moved

  -- the pen on the freehand tool, and on a primitive's
  abbrev pub freehand_pen : Bool → Bool → SurfaceModel F → Option (SurfaceModel F)
  freehand_pen true was_down s = if is_capturing s then capture_point s else some s
  freehand_pen false false s = some s
  freehand_pen false true s = elim s.capture [ [] ↦ some s | p ∷ rest ↦ terminate_stroke s ]

  abbrev pub use_pen : Tool → Bool → Bool → SurfaceModel F → Option (SurfaceModel F)
  use_pen freehand down was_down s = freehand_pen down was_down s
  use_pen line down was_down s = if down && not was_down then collect_click s else some s
  use_pen arc down was_down s = if down && not was_down then collect_click s else some s

  unfoldable pub set_pen : F → Bool → SurfaceModel F → Option (SurfaceModel F)
  set_pen now down s =
      let held = record s { pen = down } in
      let ready = if down && not s.pen then dismiss_recipe now held else held in
      if not (is_some s.store) || shows_live s.display
      then some held
      else use_pen s.tool down s.pen ready
