-- ===== src/Base/Tables.antt =====
-- A fixed array of slots, each free or taken, with a key in each taken slot, as the registry, the
-- capability cache and the interviews keep them: filling a free slot, freeing one, rewriting one.
use Prim.Native.Nat.{ℕ, ◌+◌, ◌≤◌, ◌<◌}
use mathlib.Core.Path.{◌≡◌, ◌∙◌, sym}
use mathlib.Core.Logic.{◌≢◌, inl, inr}
use mathlib.Core.Bool.{Bool, true, false, not, ◌&&◌}
use mathlib.Core.Option.{none, some}
use mathlib.Core.List.{List}
use native.Mathlib.Omega.{arith}
use esp32_c6_gateway_os.Base.Tests.{◌==◌, eq_self, lt-cases}
use esp32_c6_gateway_os.Base.Lists.{
  length, length-replicate, replicate, get_or, set, length-set, set-ge,
}
use esp32_c6_gateway_os.Base.Slots.{
  find_index, count_if, find_index-lt, find_index_sound, find_index-none, count_if-zero,
  count_if-le-length, count_if-lt-length, count_if-set, count_if-replicate, find_index-set_new,
  find_index-set_same,
}

module _ {A : Type 0} (taken : A → Bool) (key : A → ℕ) where
  abbrev pub has : ℕ → A → Bool
  has k x = taken x && key x == k

  abbrev pub vacant : A → Bool
  vacant x = not (taken x)

  -- An array of `n` slots in which `c` are taken, and no two of these under one key.
  pub record IsTable (n c : ℕ) (xs : List A) : Type 0 where
    pub size : length xs ≡ n
    pub counted : c ≡ count_if taken xs
    pub unique : (k : ℕ) → count_if (has k) xs ≤ 1

  pub replicate-IsTable : (n : ℕ) (x : A) → taken x ≡ false → IsTable n 0 (replicate n x)
  replicate-IsTable n x f = record {
    size = length-replicate n x;
    counted = sym (count_if-replicate taken n x f);
    unique = λ k. omega (arith, count_if-replicate (has k) n x (ground arith));
  }

  module _ {n c : ℕ} (xs : List A) (t : IsTable n c xs) (d : A) where
    pub count_in : c ≤ n
    count_in = omega (arith, t.size, t.counted, count_if-le-length taken xs)

    -- A new key in a free slot.
    module _ (i : ℕ) (v : A) (free : find_index vacant xs ≡ some i)
        (new : find_index (has (key v)) xs ≡ none) (live : taken v ≡ true) where
      in_range : i < length xs
      in_range = find_index-lt vacant xs i free

      was_free : taken (get_or xs i d) ≡ false
      was_free = ground (arith, find_index_sound vacant xs d i free)

      pub fill-lt : c < n
      fill-lt = omega (arith, t.size, t.counted, count_if-lt-length taken xs i d in_range was_free)

      unique_fill : (k : ℕ) → count_if (has k) (set xs i v) ≤ 1
      unique_fill k = ground (
        arith,
        t.unique k,
        was_free,
        find_index-none (has (key v)) xs new,
        count_if-set (has k) xs i v d in_range,
        count_if-set (has (key v)) xs i v d in_range,
      )

      pub fill-IsTable : (c' : ℕ) → c' ≡ c + 1 → IsTable n c' (set xs i v)
      fill-IsTable c' e = record {
        size = length-set xs i v ∙ t.size;
        counted = ground (arith, t.counted, was_free, count_if-set taken xs i v d in_range);
        unique = unique_fill;
      }

      pub find-fill_self : find_index (has (key v)) (set xs i v) ≡ some i
      find-fill_self =
          find_index-set_new (has (key v)) xs i v new in_range (ground (arith, eq_self (key v)))

      pub find-fill_ne :
          (k : ℕ) → key v ≢ k → find_index (has k) (set xs i v) ≡ find_index (has k) xs
      find-fill_ne k ne = find_index-set_same (has k) xs i v d (ground (arith, was_free))

    -- A taken slot is freed.
    module _ (i k : ℕ) (v : A) (found : find_index (has k) xs ≡ some i)
        (dead : taken v ≡ false) where
      was_taken : (taken (get_or xs i d) ≡ true) × (key (get_or xs i d) ≡ k)
      was_taken = ground (arith, find_index_sound (has k) xs d i found)

      found_lt : i < length xs
      found_lt = find_index-lt (has k) xs i found

      unique_clear : (j : ℕ) → count_if (has j) (set xs i v) ≤ 1
      unique_clear j = ground (arith, t.unique j, count_if-set (has j) xs i v d found_lt)

      counted_clear : count_if taken (set xs i v) + 1 ≡ c
      counted_clear = ground (arith, t.counted, was_taken, count_if-set taken xs i v d found_lt)

      pub clear-pos : 0 < c
      clear-pos = omega (arith, counted_clear)

      pub clear-IsTable : (c' : ℕ) → c' + 1 ≡ c → IsTable n c' (set xs i v)
      clear-IsTable c' e = record {
        size = length-set xs i v ∙ t.size;
        counted = omega (arith, counted_clear);
        unique = unique_clear;
      }

      pub find-clear_self : find_index (has k) (set xs i v) ≡ none
      find-clear_self =
          count_if-zero (has k) (set xs i v) (
            ground
              (arith, was_taken, eq_self k, t.unique k, count_if-set (has k) xs i v d found_lt))

      pub find-clear_ne : (j : ℕ) → k ≢ j → find_index (has j) (set xs i v) ≡ find_index (has j) xs
      find-clear_ne j ne = find_index-set_same (has j) xs i v d (ground (arith, was_taken))

    -- A slot is rewritten, its key kept.
    module _ (i : ℕ) (v : A) (same : taken v ≡ taken (get_or xs i d))
        (same_key : key v ≡ key (get_or xs i d)) where
      pub find-keep : (k : ℕ) → find_index (has k) (set xs i v) ≡ find_index (has k) xs
      find-keep k = find_index-set_same (has k) xs i v d (ground arith)

      keep_in : i < length xs → IsTable n c (set xs i v)
      keep_in lt = record {
        size = length-set xs i v ∙ t.size;
        counted = ground (arith, t.counted, count_if-set taken xs i v d lt);
        unique = λ k. ground (arith, t.unique k, count_if-set (has k) xs i v d lt);
      }

      pub keep-IsTable : IsTable n c (set xs i v)
      keep-IsTable = elim (lt-cases i (length xs)) [
        | inl lt ↦ keep_in lt
        | inr ge ↦ rw (set-ge xs i v ge) t
      ]
