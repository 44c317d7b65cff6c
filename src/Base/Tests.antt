-- ===== src/Base/Tests.antt =====
-- Boolean tests on numbers, as the C conditions use them, and the conditional expression.
use Prim.Native.Nat.{ℕ, ◌<◌, ◌≤◌, ◌+◌, compare, Ordering}
use mathlib.Core.Path.{◌≡◌, refl}
use mathlib.Core.Logic.{◌⊎◌, inl, inr, ◌≢◌}
use mathlib.Core.Bool.{Bool, true, false, ◌&&◌, ◌||◌}
use mathlib.Core.Option.{Option, none, some}
use mathlib.Core.List.{List, [], ◌∷◌}
use native.Mathlib.Omega.{arith}

abbrev pub ltb : ℕ → ℕ → Bool
ltb a b = elim (compare a b) [ Ordering.lt ↦ true | _ ↦ false ]

abbrev pub leb : ℕ → ℕ → Bool
leb a b = elim (compare a b) [ Ordering.gt ↦ false | _ ↦ true ]

infix 50 ◌==◌
abbrev pub ◌==◌ : ℕ → ℕ → Bool
a == b = elim (compare a b) [ Ordering.eq ↦ true | _ ↦ false ]

infix 1 if◌then◌else◌
abbrev pub if◌then◌else◌ {ℓ} : {A : Type ℓ} → Bool → A → A → A
if true then x else y = x
if false then x else y = y

-- `strcmp (a, b) == 0` on the bytes before the terminator.
abbrev pub bytes_eq : List ℕ → List ℕ → Bool
bytes_eq [] [] = true
bytes_eq [] (y ∷ ys) = false
bytes_eq (x ∷ xs) [] = false
bytes_eq (x ∷ xs) (y ∷ ys) = x == y && bytes_eq xs ys

pub Bool-cases : (b : Bool) → (b ≡ true) ⊎ (b ≡ false)
Bool-cases true = inl refl
Bool-cases false = inr refl

-- A property of both branches, each with its test's result, is one of the conditional.
pub if_rule {ℓ κ} :
    {A : Type ℓ} (P : A → Type κ) (c : Bool) (x y : A)
    → (c ≡ true → P x)
    → (c ≡ false → P y)
    → P (if c then x else y)
if_rule P true x y t f = t refl
if_rule P false x y t f = f refl

pub if_true {ℓ} : {A : Type ℓ} (c : Bool) (x y : A) → c ≡ true → (if c then x else y) ≡ x
if_true true x y h = refl
if_true false x y h = cc

pub if_false {ℓ} : {A : Type ℓ} (c : Bool) (x y : A) → c ≡ false → (if c then x else y) ≡ y
if_false true x y h = cc
if_false false x y h = refl

-- A property of the second component of a pair, such as the state beside a result.
abbrev pub Second {ℓ} : {A B : Type 0} → (B → Type ℓ) → A × B → Type ℓ
Second P r = P r.1

abbrev pub Middle {ℓ} : {A B C : Type 0} → (B → Type ℓ) → A × B × C → Type ℓ
Middle P r = P r.1

pub Option-cases {ℓ} : {A : Type ℓ} (o : Option A) → (o ≡ none) ⊎ ((a : A) × (o ≡ some a))
Option-cases none = inl refl
Option-cases (some a) = inr (a, refl)

pub lt→ltb : (a b : ℕ) → a < b → ltb a b ≡ true
lt→ltb a b h = ground arith

pub le→ltb_false : (a b : ℕ) → a ≤ b → ltb b a ≡ false
le→ltb_false a b h = ground arith

pub lt-cases : (a b : ℕ) → (a < b) ⊎ (b ≤ a)
lt-cases a b = ground arith

pub add_zero : (a : ℕ) → a + 0 ≡ a
add_zero a = omega arith

pub some≢none {ℓ} : {A : Type ℓ} {o : Option A} {a : A} → o ≡ some a → o ≢ none
some≢none p q = cc

pub eq_self : (a : ℕ) → (a == a) ≡ true
eq_self a = ground arith

pub eq_sound : (a b : ℕ) → (a == b) ≡ true → a ≡ b
eq_sound a b h = ground arith

pub eq_ne : (a b : ℕ) → a ≢ b → (a == b) ≡ false
eq_ne a b h = ground arith

pub bytes_eq_self : (xs : List ℕ) → bytes_eq xs xs ≡ true
bytes_eq_self [] = refl
bytes_eq_self (x ∷ xs) = ground (arith, bytes_eq_self xs, eq_self x)

pub bytes_eq_sound : (xs ys : List ℕ) → bytes_eq xs ys ≡ true → xs ≡ ys
bytes_eq_sound [] [] h = refl
bytes_eq_sound [] (y ∷ ys) h = cc
bytes_eq_sound (x ∷ xs) [] h = cc
bytes_eq_sound (x ∷ xs) (y ∷ ys) h = ground (arith, bytes_eq_sound xs ys)

pub bytes_eq_ne : (xs ys : List ℕ) → xs ≢ ys → bytes_eq xs ys ≡ false
bytes_eq_ne xs ys ne = elim (Bool-cases (bytes_eq xs ys)) [
  | inl t ↦ absurd (ne (bytes_eq_sound xs ys t))
  | inr f ↦ f
]

-- A relation of two conditionals on one test holds if it holds of each branch.
pub if_both {ℓ κ} :
    {A B : Type ℓ} (P : A → B → Type κ) (c : Bool) (x y : A) (u v : B)
    → (c ≡ true → P x u)
    → (c ≡ false → P y v)
    → P (if c then x else y) (if c then u else v)
if_both P true x y u v t f = t refl
if_both P false x y u v t f = f refl

pub true-false : true ≢ false
true-false e = cc

pub first_true : (a b : Bool) → (a && b) ≡ true → a ≡ true
first_true true b h = refl
first_true false b h = cc

pub or_true : (a b : Bool) → b ≡ true → (a || b) ≡ true
or_true true b h = refl
or_true false b h = h

pub true_or : (a b : Bool) → a ≡ true → (a || b) ≡ true
true_or true b h = refl
true_or false b h = cc

pub second_true : (a b : Bool) → (a && b) ≡ true → b ≡ true
second_true true b h = h
second_true false b h = cc

pub eq_false : (a b : ℕ) → (a == b) ≡ false → a ≢ b
eq_false a b f = λ e. ground arith
