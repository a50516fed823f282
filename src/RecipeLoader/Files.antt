-- ===== src/RecipeLoader/Files.antt =====
-- recipe_loader.py: the names of the recipe files, and `load`.
use rmp_ros2_control.Prelude.{
  ℕ, Bool, true, false, not, ◌&&◌, ◌||◌, Option, none, some, List, [], ◌∷◌, ◌++◌, map, Text, codes,
  ◌==◌, if◌then◌else◌, ltb,
}
use rmp_ros2_control.Float.{Float, lit}
use rmp_ros2_control.Linalg.{Coordinate, Command, Extent}
use rmp_ros2_control.FileManager.{PlaneConfig, effective_anchor}
use rmp_ros2_control.Dispatcher.{LoadedRecipe}
use rmp_ros2_control.Recipe.{RecipeSegment, Defaults, RecipeDoc, or_default, same_text}
use rmp_ros2_control.Recipe.Waypoints.{Coords, relative, absolute}
use rmp_ros2_control.Recipe.Waypoints.{load_recipe as read_recipe}
use rmp_ros2_control.RecipeLoader.{
  LoadError, Note, sample, pen_down_points, pen_down_polylines, fit_scale, validate, depth,
  not_a_plain_name, not_found, unreadable, only_relative, bad_segment, no_scale_fits,
  leaves_working_area,
}
use rmp_ros2_control.RecipeLoader.Previews.{decimate}

-- What the loader asks of the file system: `os.path.isfile`, `os.listdir` (`none` is an OSError)
-- and the reader of a YAML file.
pub record Files (F : Type 0) : Type 0 where
  pub is_file : Text → Bool
  pub list_dir : Text → Option (List Text)
  pub read : Text → Option (RecipeDoc F)

-- a result, or a RecipeLoadError
pub data Attempt (A : Type 0) : Type 0 where
  failed : LoadError → Attempt A
  done : A → Attempt A

infixl 5 ◌>>=◌
abbrev pub ◌>>=◌ : {A B : Type 0} → Attempt A → (A → Attempt B) → Attempt B
failed e >>= f = failed e
done a >>= f = f a

abbrev pub or_fail : {A : Type 0} → LoadError → Option A → Attempt A
or_fail e none = failed e
or_fail e (some a) = done a

-- os.sep
abbrev slash : ℕ
slash = 47

abbrev has_slash : Text → Bool
has_slash [] = false
has_slash (c ∷ cs) = c == slash || has_slash cs

-- `'..' in name`
abbrev has_dots : Text → Bool
has_dots [] = false
has_dots (c ∷ []) = false
has_dots (c ∷ d ∷ cs) = (c == 46 && d == 46) || has_dots (d ∷ cs)

abbrev is_empty : Text → Bool
is_empty [] = true
is_empty (c ∷ cs) = false

-- `name` without `.yaml` at its end, if it has it
abbrev pub stem : Text → Option Text
stem [] = none
stem (c ∷ cs) = if same_text (c ∷ cs) (codes ".yaml") then some [] else stem_after c (stem cs)
  where
    stem_after : ℕ → Option Text → Option Text
    stem_after c none = none
    stem_after c (some t) = some (c ∷ t)

abbrev with_suffix : Text → Option Text → Text
with_suffix name none = name ++ codes ".yaml"
with_suffix name (some t) = name

abbrev pub filename : Text → Text
filename name = with_suffix name (stem name)

abbrev ends_in_slash : Text → Bool
ends_in_slash [] = true
ends_in_slash (c ∷ []) = c == slash
ends_in_slash (c ∷ d ∷ cs) = ends_in_slash (d ∷ cs)

-- os.path.join, of a directory and a plain name
abbrev pub join : Text → Text → Text
join directory name =
    if ends_in_slash directory then directory ++ name else directory ++ slash ∷ name

abbrev pub is_plain : Text → Bool
is_plain name = not (is_empty name || has_slash name || has_dots name)

abbrev pub first_file : (Text → Bool) → Text → List Text → Attempt Text
first_file is_file name [] = failed not_found
first_file is_file name (directory ∷ directories) =
    let rest = first_file is_file name directories in
    if is_file (join directory name) then done (join directory name) else rest

-- _resolve
unfoldable pub resolve : (Text → Bool) → List Text → Text → Attempt Text
resolve is_file directories name =
    if is_plain name
    then first_file is_file (filename name) directories
    else failed not_a_plain_name

-- the order of `sorted`, by code points
abbrev text_lt : Text → Text → Bool
text_lt s [] = false
text_lt [] (d ∷ ds) = true
text_lt (c ∷ cs) (d ∷ ds) = ltb c d || (c == d && text_lt cs ds)

abbrev insert : Text → List Text → List Text
insert t [] = t ∷ []
insert t (u ∷ us) =
    let rest = insert t us in
    if same_text t u then u ∷ us else if text_lt t u then t ∷ u ∷ us else u ∷ rest

abbrev insert_stem : Option Text → List Text → List Text
insert_stem none names = names
insert_stem (some t) names = insert t names

abbrev entry_names : Option (List Text) → List Text → List Text
entry_names none names = names
entry_names (some []) names = names
entry_names (some (e ∷ es)) names = insert_stem (stem e) (entry_names (some es) names)

-- list_names
unfoldable pub list_names : (Text → Option (List Text)) → List Text → List Text
list_names list_dir [] = []
list_names list_dir (directory ∷ directories) =
    entry_names (list_dir directory) (list_names list_dir directories)

abbrev pub require_relative : Coords → Attempt Unit
require_relative relative = done tt
require_relative absolute = failed only_relative

-- what `load` was asked for, with the bounds of the plane
pub record LoadTarget (F : Type 0) : Type 0 where
  pub plane : PlaneConfig F
  pub extent : Extent F
  pub centre : Coordinate F
  pub radius : F

module _ {F : Type 0} ⦃fl : Float F⦄ where
  abbrev pub choose_scale : Option F → Bool → Option F → Option F → Attempt F
  choose_scale (some scale) fit fitting authored = done scale
  choose_scale none true fitting authored = or_fail no_scale_fits fitting
  choose_scale none false fitting authored = done (or_default authored (lit 10 1))

  abbrev pub triple : Command F → List F
  triple (x, y, z) = x ∷ y ∷ z ∷ []

  -- the document that is executed: the authored one on the plane, at the effective scale
  unfoldable pub reanchored : RecipeDoc F → PlaneConfig F → F → RecipeDoc F
  reanchored doc plane effective = record doc {
    anchor =
        some
          (record { xyz = triple (effective_anchor plane); rpy = some (triple plane.anchor_rpy) });
    plane_rotate = some plane.plane_yaw_deg;
    ready = some plane.ready_joints;
    scale = some effective;
  }

  -- the part of `load` after the recipe is read
  unfoldable pub load_doc :
      (Note F → Text)
      → Text
      → RecipeDoc F × Coords × Defaults F × List (RecipeSegment F)
      → LoadTarget F
      → Option F
      → Bool
      → Attempt (LoadedRecipe F (RecipeDoc F))
  unfolding sample pen_down_points fit_scale pen_down_polylines validate reanchored decimate
  load_doc say name (doc, coords, defaults, segments) at scale fit = do
    _ ← require_relative coords
    unit_points ← or_fail bad_segment (sample segments defaults (or_default doc.rotate (lit 0 1)))
    let pen_down = pen_down_points at.plane.safe_z unit_points
    effective ← choose_scale scale fit (fit_scale pen_down at.extent at.centre at.radius) doc.scale
    let polylines = pen_down_polylines unit_points effective at.plane.safe_z
    notes ←
        or_fail leaves_working_area
          (validate polylines (map depth pen_down) at.plane at.extent at.centre at.radius)
    done (record {
      name = name;
      doc = reanchored doc at.plane effective;
      polylines = decimate polylines;
      scale = effective;
      notes = map say notes;
    })

  -- load
  unfoldable pub load :
      (Note F → Text)
      → Files F
      → List Text
      → Text
      → LoadTarget F
      → Option F
      → Bool
      → Attempt (LoadedRecipe F (RecipeDoc F))
  unfolding resolve load_doc
  load say files directories name at scale fit = do
    path ← resolve files.is_file directories name
    parsed ← or_fail unreadable (read_recipe files.read path)
    load_doc say name parsed at scale fit
