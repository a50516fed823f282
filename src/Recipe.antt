-- ===== src/Recipe.antt =====
-- send_cartesian_path.py: a recipe as the YAML file holds it, the orientation of a segment and the
-- points of a segment in the drawing plane. `none` is an exception. The YAML reader is not modelled:
-- a document comes with its values read, and a value of a type that the code cannot use is absent.
pub mod Curves
pub mod Waypoints
pub mod Spans
pub mod Evaluation
use rmp_ros2_control.Prelude.{
  ℕ, zero, suc, ◌==◌, Bool, true, false, Option, none, some, List, [], ◌∷◌, Text, codes,
  if◌then◌else◌, ◌>>=◌,
}
use rmp_ros2_control.Float.{Float, lit, ◌⊕◌, ◌⊖◌, ◌⊗◌, ◌⊘◌}
use rmp_ros2_control.Linalg.{Coordinate, Command}

-- The quaternion (w, x, y, z).
abbrev pub Quaternion : Type 0 → Type 0
Quaternion F = F × F × F × F

-- What a segment is drawn as; `malformed` is no mapping with a type.
pub data Shape (F : Type 0) : Type 0 where
  malformed unknown : Shape F
  lin : List F → Shape F
  -- the range of t, and the compiled expressions x, y and z if they are there
  func : List F → Option (F → Option (F × F × Option F)) → Shape F
  bspline : List (Coordinate F) → ℕ → Bool → Shape F
  through : List (Coordinate F) → Bool → Shape F

pub record RecipeSegment (F : Type 0) : Type 0 where
  pub shape : Shape F
  pub z : Option F
  pub samples : Option ℕ
  pub rpy : Option (List F)
  pub rpy_frame : Option Text

-- DEFAULTS, and the `defaults` of a document, which replace some of them
pub record Defaults (F : Type 0) : Type 0 where
  pub vel : F
  pub acc : F
  pub z : F
  pub samples : ℕ

pub record OwnDefaults (F : Type 0) : Type 0 where
  pub own_vel : Option F
  pub own_acc : Option F
  pub own_z : Option F
  pub own_samples : Option ℕ

pub record Anchor (F : Type 0) : Type 0 where
  pub xyz : List F
  pub rpy : Option (List F)

pub record RecipeDoc (F : Type 0) : Type 0 where
  pub coordinates : Option Text
  pub defaults : OwnDefaults F
  pub segments : List (RecipeSegment F)
  pub anchor : Option (Anchor F)
  pub ready : Option (List F)
  pub eef_step : Option F
  pub scale : Option F
  pub rotate : Option F
  pub plane_rotate : Option F

abbrev pub or_default : {A : Type 0} → Option A → A → A
or_default none a = a
or_default (some b) a = b

module _ {F : Type 0} ⦃fl : Float F⦄ where
  unfoldable pub quat_from_rpy : F → F → F → Quaternion F
  quat_from_rpy roll pitch yaw =
      let two = lit 2 0 in
      let cr = fl.cos (roll ⊘ two) in
      let sr = fl.sin (roll ⊘ two) in
      let cp = fl.cos (pitch ⊘ two) in
      let sp = fl.sin (pitch ⊘ two) in
      let cy = fl.cos (yaw ⊘ two) in
      let sy = fl.sin (yaw ⊘ two) in
      (
        cr ⊗ cp ⊗ cy ⊕ sr ⊗ sp ⊗ sy,
        sr ⊗ cp ⊗ cy ⊖ cr ⊗ sp ⊗ sy,
        cr ⊗ sp ⊗ cy ⊕ sr ⊗ cp ⊗ sy,
        cr ⊗ cp ⊗ sy ⊖ sr ⊗ sp ⊗ cy,
      )

  unfoldable pub quat_mul : Quaternion F → Quaternion F → Quaternion F
  quat_mul (aw, ax, ay, az) (bw, bx, by, bz) = (
    aw ⊗ bw ⊖ ax ⊗ bx ⊖ ay ⊗ by ⊖ az ⊗ bz,
    aw ⊗ bx ⊕ ax ⊗ bw ⊕ ay ⊗ bz ⊖ az ⊗ by,
    aw ⊗ by ⊖ ax ⊗ bz ⊕ ay ⊗ bw ⊕ az ⊗ bx,
    aw ⊗ bz ⊕ ax ⊗ by ⊖ ay ⊗ bx ⊕ az ⊗ bw,
  )

-- rpy_frame; the default is 'start'
pub data RpyFrame : Type 0 where
  world start other_frame : RpyFrame

abbrev pub same_text : Text → Text → Bool
same_text [] [] = true
same_text [] (d ∷ ds) = false
same_text (c ∷ cs) [] = false
same_text (c ∷ cs) (d ∷ ds) = if c == d then same_text cs ds else false

abbrev frame_of : Option Text → RpyFrame
frame_of none = start
frame_of (some t) =
    if same_text t (codes "world")
    then world
    else if same_text t (codes "start")
    then start
    else other_frame

module _ {F : Type 0} ⦃fl : Float F⦄ where
  abbrev turned : RpyFrame → Quaternion F → Quaternion F → Option (Quaternion F)
  turned world q start_quat = some q
  turned start q start_quat = some (quat_mul start_quat q)
  turned other_frame q start_quat = none

  abbrev oriented : Option (List F) → RpyFrame → Quaternion F → Option (Quaternion F)
  oriented none frame start_quat = some start_quat
  oriented (some (r ∷ p ∷ y ∷ [])) frame start_quat = turned frame (quat_from_rpy r p y) start_quat
  oriented (some other) frame start_quat = none

  unfoldable pub orientation_from : RecipeSegment F → Quaternion F → Option (Quaternion F)
  orientation_from seg start_quat = oriented seg.rpy (frame_of seg.rpy_frame) start_quat

  -- np.linspace
  abbrev pub from_step : F → F → F → ℕ → ℕ → List F
  from_step a b step i zero = []
  from_step a b step i (suc zero) = b ∷ []
  from_step a b step i (suc (suc n)) = (lit i 0 ⊗ step ⊕ a) ∷ from_step a b step (suc i) (suc n)

  unfoldable pub linspace : F → F → ℕ → List F
  linspace a b zero = []
  linspace a b (suc zero) = a ∷ []
  linspace a b (suc (suc n)) = from_step a b ((b ⊖ a) ⊘ lit (suc n) 0) 0 (suc (suc n))
