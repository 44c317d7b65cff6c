-- ===== src/Base/Windows.antt =====
-- The first elements of an array that is written, as a table with a count of its entries is.
use Prim.Native.Nat.{ℕ, zero, suc, ◌≤◌, ◌<◌}
use mathlib.Core.Path.{◌≡◌, refl, ap}
use mathlib.Core.Bool.{Bool, true, false}
use mathlib.Core.Option.{none, some}
use mathlib.Core.List.{List, [], ◌∷◌, ◌++◌}
use native.Mathlib.Omega.{arith}
use esp32_c6_gateway_os.Base.Lists.{length, get_or, set, take}
use esp32_c6_gateway_os.Base.Slots.{find_index}

pub take-set {ℓ} :
    {A : Type ℓ} (n : ℕ) (xs : List A) (i : ℕ) (v : A) → take n (set xs i v) ≡ set (take n xs) i v
take-set zero xs i v = refl
take-set (suc n) [] i v = refl
take-set (suc n) (x ∷ xs) zero v = refl
take-set (suc n) (x ∷ xs) (suc i) v = ap (λ ys. x ∷ ys) (take-set n xs i v)

pub take-set_end {ℓ} :
    {A : Type ℓ} (n : ℕ) (xs : List A) (v : A)
    → n < length xs
    → take (suc n) (set xs n v) ≡ take n xs ++ (v ∷ [])
take-set_end n [] v h = absurd (omega arith)
take-set_end zero (x ∷ xs) v h = refl
take-set_end (suc n) (x ∷ xs) v h = ap (λ ys. x ∷ ys) (take-set_end n xs v (omega arith))

pub length-take_le {ℓ} : {A : Type ℓ} (n : ℕ) (xs : List A) → n ≤ length xs → length (take n xs) ≡ n
length-take_le zero xs h = refl
length-take_le (suc n) [] h = absurd (omega arith)
length-take_le (suc n) (x ∷ xs) h = ap suc (length-take_le n xs (omega arith))

pub get_or-take {ℓ} :
    {A : Type ℓ} (n : ℕ) (xs : List A) (i : ℕ) (d : A)
    → i < n
    → get_or (take n xs) i d ≡ get_or xs i d
get_or-take zero xs i d h = absurd (omega arith)
get_or-take (suc n) [] i d h = refl
get_or-take (suc n) (x ∷ xs) zero d h = refl
get_or-take (suc n) (x ∷ xs) (suc i) d h = get_or-take n xs i d (omega arith)

module _ {ℓ} {A : Type ℓ} (p : A → Bool) where
  pub find_index-append_hit :
      (xs : List A) (v : A)
      → find_index p xs ≡ none
      → p v ≡ true
      → find_index p (xs ++ (v ∷ [])) ≡ some (length xs)
  unfolding find_index
  find_index-append_hit [] v none_before hit = ground arith
  find_index-append_hit (x ∷ xs) v none_before hit = ground (arith, find_index-append_hit xs v)

  pub find_index-append_miss :
      (xs : List A) (v : A) → p v ≡ false → find_index p (xs ++ (v ∷ [])) ≡ find_index p xs
  unfolding find_index
  find_index-append_miss [] v miss = ground arith
  find_index-append_miss (x ∷ xs) v miss = rw (find_index-append_miss xs v miss) refl

  pub find_index-append_old :
      (xs ys : List A) (i : ℕ) → find_index p xs ≡ some i → find_index p (xs ++ ys) ≡ some i
  unfolding find_index
  find_index-append_old [] ys i h = cc
  find_index-append_old (x ∷ xs) ys zero h = ground arith
  find_index-append_old (x ∷ xs) ys (suc i) h = ground (arith, find_index-append_old xs ys i)
