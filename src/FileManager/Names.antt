-- ===== src/FileManager/Names.antt =====
-- The file names of saved drawings.
use rmp_ros2_control.Prelude.{
  ℕ, Bool, true, false, ◌≡◌, ◌≢◌, some, [], ◌∷◌, ◌++◌, Text, codes, All, Bool-cases, inl, inr, refl,
  if◌then◌else◌, ◌==◌,
}
use rmp_ros2_control.FileManager.{
  is_safe, before_stripped, file_of, replace_unsafe, strip_left, strip_right, recipe_file,
}

abbrev pub IsSafe : ℕ → Type 0
IsSafe c = is_safe c ≡ true

replace_unsafe-IsSafe : (inside : Bool) (name : Text) → All IsSafe (replace_unsafe inside name)
unfolding replace_unsafe
replace_unsafe-IsSafe inside [] = tt
replace_unsafe-IsSafe inside (c ∷ rest) = elim (Bool-cases (is_safe c)) [
  | inl e ↦ rw e (e, replace_unsafe-IsSafe false rest)
  | inr e ↦ rw e (unsafe inside (replace_unsafe-IsSafe true rest))
]
  where
    unsafe :
        (b : Bool)
        → All IsSafe (replace_unsafe true rest)
        → All IsSafe (if b then replace_unsafe true rest else b'_' ∷ replace_unsafe true rest)
    unsafe true h = h
    unsafe false h = (refl, h)

strip_left-IsSafe : (name : Text) → All IsSafe name → All IsSafe (strip_left name)
unfolding strip_left
strip_left-IsSafe [] h = tt
strip_left-IsSafe (c ∷ rest) h = elim (Bool-cases (c == b'_')) [
  | inl e ↦ rw e (strip_left-IsSafe rest h.1)
  | inr e ↦ rw e h
]

before_stripped-IsSafe :
    (c : ℕ) (later : Text) → IsSafe c → All IsSafe later → All IsSafe (before_stripped c later)
before_stripped-IsSafe c [] h k = elim (Bool-cases (c == b'_')) [
  | inl e ↦ rw e tt
  | inr e ↦ rw e (h, tt)
]
before_stripped-IsSafe c (d ∷ more) h k = (h, k)

strip_right-IsSafe : (name : Text) → All IsSafe name → All IsSafe (strip_right name)
unfolding strip_right
strip_right-IsSafe [] h = tt
strip_right-IsSafe (c ∷ rest) h =
    before_stripped-IsSafe c (strip_right rest) h.0 (strip_right-IsSafe rest h.1)

file_of-IsSafe :
    (part file : Text)
    → All IsSafe part
    → file_of part ≡ some file
    → (part : Text) × (file ≡ codes "recipe_" ++ (part ++ codes ".yaml"))
      × (part ≢ [])
      × All IsSafe part
file_of-IsSafe [] file h e = cc
file_of-IsSafe (c ∷ rest) file h e = (c ∷ rest, cc, λ q. cc, h)

-- Whatever the operator types, the file that a drawing is saved under is `recipe_`, a part of
-- letters, digits, `_` and `-` that is not empty, and `.yaml`: no separator, no dot of a parent.
pub recipe_file-IsSafe :
    (name file : Text)
    → recipe_file name ≡ some file
    → (part : Text) × (file ≡ codes "recipe_" ++ (part ++ codes ".yaml"))
      × (part ≢ [])
      × All IsSafe part
unfolding recipe_file
recipe_file-IsSafe name file e =
    file_of-IsSafe (strip_right (strip_left (replace_unsafe false name))) file
      (strip_right-IsSafe _ (strip_left-IsSafe _ (replace_unsafe-IsSafe false name))) e
