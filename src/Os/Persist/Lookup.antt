-- ===== src/Os/Persist/Lookup.antt =====
-- The search of os/src/os_persist.c (host) for a key in its write buffer, and the paths of keys.
use mathlib.Core.List.{append_cancel_left, append_cancel_right}
use esp32_c6_gateway_os.Base.{
  ℕ, List, [], length, count_if, Bool, get_or, take, ◌≤◌, ◌<◌, ◌≡◌, ◌≢◌, arith, take_all, none,
  true, false, suc, ap, ◌∷◌, set, sym, some, refl, zero, ◌∙◌, if_true, if_false, bytes_eq,
  Bool-cases, inl, bytes_eq_sound, inr, bytes_eq_self, count_if-set, one_if, count_if-zero_at,
  codes,
}
use esp32_c6_gateway_os.Os.Persist.Types.{Entry, key_to_path, zero_entry}
use esp32_c6_gateway_os.Os.Persist.Ops.{find_entry, holds, is_unused}

unfoldable pub is_used : Entry → Bool
is_used x = x.valid

abbrev pub ShortKeys : List Entry → Type 0
ShortKeys xs = (k : ℕ) → length (get_or xs k zero_entry).key ≤ 31

abbrev pub Distinct : List Entry → Type 0
Distinct xs = (key : List ℕ) → count_if (holds key) xs ≤ 1

take-short {ℓ} : {A : Type ℓ} (n : ℕ) (xs : List A) → length (take n xs) < n → take n xs ≡ xs
take-short zero xs h = absurd (omega arith)
take-short (suc n) [] h = refl
take-short (suc n) (x ∷ xs) h = ap (λ ys. x ∷ ys) (take-short n xs (omega arith))

-- A short key has its path to itself.
pub key_to_path_ne : (a b : List ℕ) → length a ≤ 31 → a ≢ b → key_to_path a ≢ key_to_path b
unfolding key_to_path
key_to_path_ne a b short ne same = ne (sym a_is ∙ halves ∙ b_is)
  where
    halves : take 32 a ≡ take 32 b
    halves =
        append_cancel_right _ _ (codes ".bin")
          (append_cancel_left (codes "/tmp/bridge_persist/") _ _ same)

    a_is : take 32 a ≡ a
    a_is = take_all 32 a (omega arith)

    b_is : take 32 b ≡ b
    b_is = take-short 32 b (omega (arith, ap length (sym a_is ∙ halves)))

pub find_entry-none :
    (key : List ℕ) (xs : List Entry) → count_if (holds key) xs ≡ 0 → find_entry key xs ≡ none
unfolding find_entry count_if
find_entry-none key [] h = refl
find_entry-none key (x ∷ xs) h = ground (arith, find_entry-none key xs)

pub find_entry-unused :
    (key : List ℕ) (xs : List Entry) → count_if is_used xs ≡ 0 → find_entry key xs ≡ none
unfolding find_entry count_if is_used holds
find_entry-unused key [] h = refl
find_entry-unused key (x ∷ xs) h = ground (arith, find_entry-unused key xs)

one_in_set :
    (p : Entry → Bool) (xs : List Entry) (i : ℕ) (v : Entry)
    → i < length xs
    → p v ≡ true
    → 1 ≤ count_if p (set xs i v)
unfolding count_if
one_in_set p [] i v lt h = absurd (omega arith)
one_in_set p (x ∷ xs) zero v lt h = ground arith
one_in_set p (x ∷ xs) (suc i) v lt h = ground (arith, one_in_set p xs i v)

pub find_entry-set_hit :
    (key : List ℕ) (xs : List Entry) (i : ℕ) (v : Entry)
    → i < length xs
    → holds key v ≡ true
    → count_if (holds key) (set xs i v) ≤ 1
    → find_entry key (set xs i v) ≡ some v
unfolding find_entry count_if
find_entry-set_hit key [] i v lt h u = absurd (omega arith)
find_entry-set_hit key (x ∷ xs) zero v lt h u = ground arith
find_entry-set_hit key (x ∷ xs) (suc i) v lt h u =
    ground (arith, find_entry-set_hit key xs i v, one_in_set (holds key) xs i v)

pub find_entry-set_miss :
    (key : List ℕ) (xs : List Entry) (i : ℕ) (v : Entry)
    → holds key (get_or xs i zero_entry) ≡ false
    → holds key v ≡ false
    → find_entry key (set xs i v) ≡ find_entry key xs
unfolding find_entry
find_entry-set_miss key [] i v f h = refl
find_entry-set_miss key (x ∷ xs) zero v f h = ground arith
find_entry-set_miss key (x ∷ xs) (suc i) v f h = ground (arith, find_entry-set_miss key xs i v f h)

pub find_entry-hit :
    (key : List ℕ) (x : Entry) (xs : List Entry)
    → holds key x ≡ true
    → find_entry key (x ∷ xs) ≡ some x
unfolding find_entry
find_entry-hit key x xs h = if_true (holds key x) _ _ h

pub find_entry-miss :
    (key : List ℕ) (x : Entry) (xs : List Entry)
    → holds key x ≡ false
    → find_entry key (x ∷ xs) ≡ find_entry key xs
unfolding find_entry
find_entry-miss key x xs h = if_false (holds key x) _ _ h

pub holds_used : (key : List ℕ) (x : Entry) → x.valid ≡ true → holds key x ≡ bytes_eq x.key key
unfolding holds
holds_used key x h = rw h refl

pub holds_free : (key : List ℕ) (x : Entry) → x.valid ≡ false → holds key x ≡ false
unfolding holds
holds_free key x h = ground arith

pub Distinct-tail : (x : Entry) (xs : List Entry) → Distinct (x ∷ xs) → Distinct xs
unfolding count_if
Distinct-tail x xs one key = omega (arith, one key)

pub ShortKeys-cons :
    (x : Entry) (xs : List Entry) → length x.key ≤ 31 → ShortKeys xs → ShortKeys (x ∷ xs)
ShortKeys-cons x xs h t zero = h
ShortKeys-cons x xs h t (suc k) = t k

pub holds-le-used : (key : List ℕ) (xs : List Entry) → count_if (holds key) xs ≤ count_if is_used xs
unfolding count_if holds is_used
holds-le-used key [] = omega arith
holds-le-used key (x ∷ xs) = ground (arith, holds-le-used key xs)

-- An entry holds no key but its own.
pub holds_other : (key : List ℕ) (x : Entry) → x.key ≢ key → holds key x ≡ false
unfolding holds
holds_other key x ne = elim (Bool-cases (bytes_eq x.key key)) [
  | inl t ↦ absurd (ne (bytes_eq_sound x.key key t))
  | inr f ↦ ground (arith, f)
]

pub holds_key : (key : List ℕ) (x : Entry) → holds key x ≡ true → x.key ≡ key
unfolding holds
holds_key key x h = bytes_eq_sound x.key key (ground arith)

pub holds-is_used : (key : List ℕ) (x : Entry) → holds key x ≡ true → is_used x ≡ true
unfolding holds is_used
holds-is_used key x h = ground arith

pub used_entry : (x : Entry) → x.valid ≡ true → is_used x ≡ true
unfolding is_used
used_entry x h = h

pub free_entry : (x : Entry) → x.valid ≡ false → is_used x ≡ false
unfolding is_used
free_entry x h = h

pub unused_entry : (x : Entry) → is_unused x ≡ true → x.valid ≡ false
unused_entry x h = ground arith

pub unused_at_zero :
    (xs : List Entry)
    → 0 < length xs
    → count_if is_used xs ≡ 0
    → (get_or xs 0 zero_entry).valid ≡ false
unfolding is_used
unused_at_zero xs lt none_used = count_if-zero_at is_used xs 0 zero_entry none_used lt

-- A write into a slot that held this key or none: the key is then held once, and other keys stay.
module _ (xs : List Entry) (i : ℕ) (x : Entry) (lt : i < length xs)
    (others : (key : List ℕ) → x.key ≢ key → holds key (get_or xs i zero_entry) ≡ false) where
  pub set-Distinct : Distinct xs → count_if (holds x.key) (set xs i x) ≤ 1 → Distinct (set xs i x)
  set-Distinct one own key = elim (Bool-cases (bytes_eq x.key key)) [
    | inl t ↦ rw (sym (bytes_eq_sound x.key key t)) own
    | inr f ↦ omega (
      arith,
      one key,
      count_if-set (holds key) xs i x zero_entry lt,
      ap one_if (others key (differs key f)),
      ap one_if (holds_other key x (differs key f)),
    )
  ]
    where
      differs : (key : List ℕ) → bytes_eq x.key key ≡ false → x.key ≢ key
      differs key f same = cc (sym f ∙ ap (λ k. bytes_eq k key) same ∙ bytes_eq_self key)
