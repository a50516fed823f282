-- ===== src/Dispatcher/Recipes.antt =====
-- dispatcher.py: loading and executing a recipe of the bridge. `none` is an exception that nothing
-- catches.
use rmp_ros2_control.Prelude.{not, Option, none, some, List, [], ◌∷◌, Text, if◌then◌else◌}
use rmp_ros2_control.Dispatcher.{
  LoadedRecipe, Action, Warning, LoadRequest, Call, Environment, Loaded, loaded, refused,
  load_raised, call, warn, is_batch, executing,
}
use rmp_ros2_control.Dispatcher.{Dispatcher as State}

module _ {F D : Type 0} where
  abbrev pub warn_notes : List Text → State F D → State F D
  warn_notes [] d = d
  warn_notes (note ∷ notes) d = warn_notes notes (warn (Warning.note_of_recipe note) d)

  abbrev pub hold : Loaded F D → State F D → Option (State F D)
  hold load_raised d = none
  hold (refused message) d = some (warn (Warning.load_failed message) d)
  hold (loaded recipe) d = some (warn_notes recipe.notes (record d { loaded_recipe = some recipe }))

  unfoldable pub load_recipe : Environment F D → LoadRequest F → State F D → Option (State F D)
  load_recipe env request d =
      if not (is_batch d.mode)
      then some (warn (Warning.batch_only Action.load_recipe) d)
      else if not env.has_recipe_loader
      then some (warn Warning.loading_unavailable d)
      else hold (env.load request d.config) d

  abbrev pub execute_loaded : Option (LoadedRecipe F D) → State F D → State F D
  execute_loaded none d = warn Warning.no_recipe_loaded d
  execute_loaded (some recipe) d =
      call (Call.batch_execute_doc recipe.doc) (record d { mode = executing })

  unfoldable pub execute_recipe : State F D → State F D
  execute_recipe d =
      if is_batch d.mode
      then execute_loaded d.loaded_recipe d
      else warn (Warning.batch_only Action.execute_recipe) d
