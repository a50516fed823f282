-- ===== src/Prelude.antt =====
-- The names that the other modules share: the libraries', passed on, and those of the children.
pub mod Tests
pub mod Lists
pub mod Int
pub use Tests.*
pub use Lists.*
pub use Prim.Native.Nat.{ℕ, zero, suc, ◌+◌, ◌-◌, ◌*◌, ◌/◌, ◌%◌, ◌^◌, ◌≤◌, ◌<◌}
use Prim.Native.Char.{code}
pub use Prim.Native.String.{String}
pub use mathlib.Core.Path.{◌≡◌, refl, sym, ap, ◌∙◌, subst}
pub use mathlib.Core.Logic.{◌≢◌, ◌↔◌, ◌⊎◌, inl, inr}
pub use mathlib.Core.Bool.{Bool, true, false, not, ◌&&◌, ◌||◌}
pub use mathlib.Core.Option.{Option, none, some, some-injective}
pub use mathlib.Core.List.{List, [], ◌∷◌, ◌++◌, map, append_assoc, append-nil}
pub use native.Mathlib.Omega.{arith}

-- A chain of steps that may raise: `none` is an exception.
infixl 5 ◌>>=◌ ◌>>◌
abbrev pub ◌>>=◌ {ℓ κ} : {A : Type ℓ} {B : Type κ} → Option A → (A → Option B) → Option B
none >>= f = none
some a >>= f = f a

abbrev pub ◌>>◌ {ℓ κ} : {A : Type ℓ} {B : Type κ} → Option A → Option B → Option B
m >> n = m >>= λ _. n

-- Text is the list of its code points.
abbrev pub Text : Type 0
Text = List ℕ

abbrev pub codes : String → Text
codes String.[] = []
codes (String.◌∷◌ c s) = code c ∷ codes s

-- A property of what a step returns, if it returns.
abbrev pub Holds {ℓ κ} : {A : Type ℓ} → (A → Type κ) → Option A → Type κ
Holds P none = Unit
Holds P (some a) = P a

pub Holds-bind {ℓ κ μ} :
    {A : Type ℓ} {B : Type κ} (P : A → Type μ) (Q : B → Type μ) (m : Option A) (f : A → Option B)
    → Holds P m
    → ((a : A) → P a → Holds Q (f a))
    → Holds Q (m >>= f)
Holds-bind P Q none f h k = tt
Holds-bind P Q (some a) f h k = k a h

pub Holds-any {ℓ} : {A : Type ℓ} (m : Option A) → Holds (λ _. Unit {0}) m
Holds-any none = tt
Holds-any (some a) = tt

-- A step returns: it raises no exception.
abbrev pub Returned {ℓ} : {A : Type ℓ} → Option A → Type 0
Returned none = ⊥
Returned (some a) = Unit

pub Returned-bind {ℓ κ μ} :
    {A : Type ℓ} {B : Type κ} (P : A → Type μ) (m : Option A) (f : A → Option B)
    → Returned m
    → Holds P m
    → ((a : A) → P a → Returned (f a))
    → Returned (m >>= f)
Returned-bind P none f r h k = absurd r
Returned-bind P (some a) f r h k = k a h

pub Holds-mono {ℓ κ μ} :
    {A : Type ℓ} (P : A → Type κ) (Q : A → Type μ) (m : Option A)
    → Holds P m
    → ((a : A) → P a → Q a)
    → Holds Q m
Holds-mono P Q none h k = tt
Holds-mono P Q (some a) h k = k a h

pub Holds-eq {ℓ κ} :
    {A : Type ℓ} (P : A → Type κ) (m : Option A) → ((a : A) → m ≡ some a → P a) → Holds P m
Holds-eq P none h = tt
Holds-eq P (some a) h = h a refl

-- A step returns, and what it returns has a property.
abbrev pub Yields {ℓ} : {A : Type ℓ} → (A → Type 0) → Option A → Type 0
Yields P none = ⊥
Yields P (some a) = P a

pub Yields-bind {ℓ κ} :
    {A : Type ℓ} {B : Type κ} (P : A → Type 0) (Q : B → Type 0) (m : Option A) (f : A → Option B)
    → Yields P m
    → ((a : A) → m ≡ some a → P a → Yields Q (f a))
    → Yields Q (m >>= f)
Yields-bind P Q none f h k = absurd h
Yields-bind P Q (some a) f h k = k a refl h

pub Yields-any {ℓ} : {A : Type ℓ} (m : Option A) → m ≢ none → Yields (λ _. Unit) m
Yields-any none h = absurd (h refl)
Yields-any (some a) h = tt

pub Yields-eq {ℓ} :
    {A : Type ℓ} (P : A → Type 0) (Q : A → Type 0) (m : Option A)
    → Yields P m
    → ((a : A) → m ≡ some a → P a → Q a)
    → Yields Q m
Yields-eq P Q none h k = absurd h
Yields-eq P Q (some a) h k = k a refl h
