-- ===== src/Base/Slots.antt =====
-- The search that every fixed table of the program does: the first slot that passes a test, and
-- the number of the slots that pass it.
use Prim.Native.Nat.{ℕ, zero, suc, ◌+◌, ◌≤◌, ◌<◌}
use mathlib.Core.Path.{◌≡◌, refl}
use mathlib.Core.Bool.{Bool, true, false, not}
use mathlib.Core.Option.{Option, none, some}
use mathlib.Core.Logic.{inl, inr}
use mathlib.Core.List.{List, [], ◌∷◌}
use native.Mathlib.Omega.{arith}
use esp32_c6_gateway_os.Base.Tests.{if◌then◌else◌, Option-cases}
use esp32_c6_gateway_os.Base.Lists.{length, get_or, set, replicate}

abbrev pub shift : Option ℕ → Option ℕ
shift none = none
shift (some i) = some (suc i)

abbrev pub one_if : Bool → ℕ
one_if true = 1
one_if false = 0

module _ {ℓ} {A : Type ℓ} (p : A → Bool) where
  -- The index at which `for (i = 0; i < N; i++) if (p (a[i])) break;` stops, if it does.
  unfoldable pub find_index : List A → Option ℕ
  find_index [] = none
  find_index (x ∷ xs) = if p x then some 0 else shift (find_index xs)

  unfoldable pub count_if : List A → ℕ
  count_if [] = 0
  count_if (x ∷ xs) = one_if (p x) + count_if xs

  pub find_index-lt : (xs : List A) (i : ℕ) → find_index xs ≡ some i → i < length xs
  unfolding find_index
  find_index-lt [] i h = cc
  find_index-lt (x ∷ xs) zero h = omega arith
  find_index-lt (x ∷ xs) (suc i) h = ground (arith, find_index-lt xs i)

  -- The slot found passes the test.
  pub find_index_sound :
      (xs : List A) (d : A) (i : ℕ) → find_index xs ≡ some i → p (get_or xs i d) ≡ true
  unfolding find_index
  find_index_sound [] d i h = cc
  find_index_sound (x ∷ xs) d zero h = ground arith
  find_index_sound (x ∷ xs) d (suc i) h = ground (arith, find_index_sound xs d i)

  pub find_index-none : (xs : List A) → find_index xs ≡ none → count_if xs ≡ 0
  unfolding find_index count_if
  find_index-none [] h = refl
  find_index-none (x ∷ xs) h = ground (arith, find_index-none xs)

  pub count_if-zero : (xs : List A) → count_if xs ≡ 0 → find_index xs ≡ none
  unfolding find_index count_if
  count_if-zero [] h = refl
  count_if-zero (x ∷ xs) h = ground (arith, count_if-zero xs)

  pub count_if-zero_at :
      (xs : List A) (i : ℕ) (d : A) → count_if xs ≡ 0 → i < length xs → p (get_or xs i d) ≡ false
  unfolding count_if
  count_if-zero_at [] i d h lt = absurd (omega arith)
  count_if-zero_at (x ∷ xs) zero d h lt = ground arith
  count_if-zero_at (x ∷ xs) (suc i) d h lt = count_if-zero_at xs i d (omega arith) (omega arith)

  pub count_if-le-length : (xs : List A) → count_if xs ≤ length xs
  unfolding count_if
  count_if-le-length [] = omega arith
  count_if-le-length (x ∷ xs) = ground (arith, count_if-le-length xs)

  pub count_if-lt-length :
      (xs : List A) (i : ℕ) (d : A)
      → i < length xs
      → p (get_or xs i d) ≡ false
      → count_if xs < length xs
  unfolding count_if
  count_if-lt-length [] i d h f = absurd (omega arith)
  count_if-lt-length (x ∷ xs) zero d h f = ground (arith, count_if-le-length xs)
  count_if-lt-length (x ∷ xs) (suc i) d h f = ground (arith, count_if-lt-length xs i d)

  pub count_if-set :
      (xs : List A) (i : ℕ) (v d : A)
      → i < length xs
      → count_if (set xs i v) + one_if (p (get_or xs i d)) ≡ count_if xs + one_if (p v)
  unfolding count_if
  count_if-set [] i v d h = absurd (omega arith)
  count_if-set (x ∷ xs) zero v d h = omega arith
  count_if-set (x ∷ xs) (suc i) v d h = omega (arith, count_if-set xs i v d)

  pub count_if-replicate : (n : ℕ) (x : A) → p x ≡ false → count_if (replicate n x) ≡ 0
  unfolding count_if
  count_if-replicate zero x h = refl
  count_if-replicate (suc n) x h = ground (arith, count_if-replicate n x h)

  -- A slot that is filled where no slot passed is the one found.
  pub find_index-set_new :
      (xs : List A) (i : ℕ) (v : A)
      → find_index xs ≡ none
      → i < length xs
      → p v ≡ true
      → find_index (set xs i v) ≡ some i
  unfolding find_index
  find_index-set_new [] i v n h t = absurd (omega arith)
  find_index-set_new (x ∷ xs) zero v n h t = ground arith
  find_index-set_new (x ∷ xs) (suc i) v n h t = ground (arith, find_index-set_new xs i v)

  -- A write that leaves the test of its slot as it was leaves the search as it was.
  pub find_index-set_same :
      (xs : List A) (i : ℕ) (v d : A)
      → p (get_or xs i d) ≡ p v
      → find_index (set xs i v) ≡ find_index xs
  unfolding find_index
  find_index-set_same [] i v d e = refl
  find_index-set_same (x ∷ xs) zero v d e = rw e
  find_index-set_same (x ∷ xs) (suc i) v d e = rw (find_index-set_same xs i v d e)

-- A search for a free slot fails only where every slot is taken.
pub find_index-not-none {ℓ} :
    {A : Type ℓ} (p q : A → Bool) (xs : List A)
    → ((x : A) → q x ≡ not (p x))
    → find_index q xs ≡ none
    → count_if p xs ≡ length xs
unfolding find_index count_if
find_index-not-none p q [] e h = refl
find_index-not-none p q (x ∷ xs) e h = ground (arith, e x, find_index-not-none p q xs e)

pub find_index-not-some {ℓ} :
    {A : Type ℓ} (p q : A → Bool) (xs : List A)
    → ((x : A) → q x ≡ not (p x))
    → count_if p xs < length xs
    → (i : ℕ) × (find_index q xs ≡ some i)
find_index-not-some p q xs e h = elim (Option-cases (find_index q xs)) [
  | inl n ↦ absurd (omega (arith, find_index-not-none p q xs e n))
  | inr found ↦ found
]
