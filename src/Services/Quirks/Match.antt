-- ===== src/Services/Quirks/Match.antt =====
-- Which entry of services/src/quirks.c `quirks_find` finds.
use esp32_c6_gateway_os.Base.{
  ℕ, List, Bool, [], ◌∷◌, some, true, false, ◌≡◌, ◌++◌, inl, ◌⊎◌, inr, Bool-cases, bytes_eq_self,
  bytes_eq, bytes_eq_n-append, arith, find_index, bytes_eq_sound, ◌<◌, bytes_eq_n-prefix, length,
  get_or, suc, zero, refl, find_index-lt, find_index_sound, if◌then◌else◌, sym, ◌∙◌, ◌==◌, ap,
  Option, none,
}
use esp32_c6_gateway_os.Services.Quirks.Table.{
  Entry, matches, quirks_table, find, entry_at, count, zero_entry,
}

-- What an entry says it is for: its manufacturer, and its model or the beginning of the model.
abbrev pub Fits : List ℕ → List ℕ → Entry → Type 0
Fits manufacturer model e =
    (e.manufacturer ≡ manufacturer)
    × (((e.prefix_match ≡ true) × (rest : List ℕ) × (model ≡ e.model ++ rest))
        ⊎ ((e.prefix_match ≡ false) × (model ≡ e.model)))

module _ (m d : List ℕ) (e : Entry) where
  matches-Fits : matches m d e ≡ true → Fits m d e
  unfolding matches
  matches-Fits h = elim (Bool-cases (bytes_eq e.manufacturer m)) [
    | inr other ↦ absurd (ground arith)
    | inl same ↦ (
      bytes_eq_sound e.manufacturer m same,
      elim (Bool-cases e.prefix_match) [
        | inl prefix ↦ let r = bytes_eq_n-prefix d e.model (ground arith) in inl (prefix, r.0, r.1)
        | inr whole ↦ inr (whole, bytes_eq_sound d e.model (ground arith))
      ],
    )
  ]

  Fits-matches : Fits m d e → matches m d e ≡ true
  unfolding matches
  Fits-matches (same, inl (prefix, rest, p)) =
      rw (same, prefix, p, bytes_eq_self m) (bytes_eq_n-append e.model rest)
  Fits-matches (same, inr (whole, p)) = rw (same, whole, p, bytes_eq_self m) (bytes_eq_self e.model)

-- The first slot that passes a test is the only one.
find_index_only {ℓ} :
    {A : Type ℓ} (p : A → Bool) (xs : List A) (i : ℕ) (d : A)
    → i < length xs
    → p (get_or xs i d) ≡ true
    → ((j : ℕ) → j < length xs → p (get_or xs j d) ≡ true → j ≡ i)
    → find_index p xs ≡ some i
unfolding find_index
find_index_only p [] i d lt hit only = absurd (omega arith)
find_index_only p (x ∷ xs) zero d lt hit only = rw hit refl
find_index_only p (x ∷ xs) (suc i) d lt hit only = elim (Bool-cases (p x)) [
  | inl before ↦ absurd (omega (arith, only 0 (omega arith) before))
  | inr miss ↦
      rw
        (
          miss,
          find_index_only p xs i d (omega arith) hit
              (λ j l h. omega (arith, only (suc j) (omega arith) h)),
        )
        refl
]

-- The entry of the table for a manufacturer, told by the first byte of the name.
entry_number : List ℕ → ℕ
entry_number name =
    let b = get_or name 0 0 in
    if b == 68 then 0 else if b == 73 then 1 else if b == 76 then 2 else 3

entry_number-manufacturer : (i : ℕ) → i < count → entry_number (entry_at i).manufacturer ≡ i
unfolding entry_number count quirks_table
entry_number-manufacturer zero h = refl
entry_number-manufacturer (suc zero) h = refl
entry_number-manufacturer (suc (suc zero)) h = refl
entry_number-manufacturer (suc (suc (suc zero))) h = refl
entry_number-manufacturer (suc (suc (suc (suc i)))) h = absurd (omega arith)

-- No two entries of the table are for one manufacturer.
manufacturer_once :
    (i j : ℕ)
    → i < count
    → j < count
    → (entry_at i).manufacturer ≡ (entry_at j).manufacturer
    → i ≡ j
manufacturer_once i j li lj same =
    sym (entry_number-manufacturer i li) ∙ ap entry_number same ∙ entry_number-manufacturer j lj

module _ (m d : List ℕ) (i : ℕ) where
  -- `quirks_find` finds an entry exactly if it is in the table and fits the device.
  pub find-Fits :
      (find (some m) (some d) ≡ some i → (i < count) × Fits m d (entry_at i))
      × ((i < count) × Fits m d (entry_at i) → find (some m) (some d) ≡ some i)
  unfolding find count
  find-Fits = (
    λ h. (
      find_index-lt (matches m d) quirks_table i h,
      matches-Fits m d (entry_at i) (find_index_sound (matches m d) quirks_table zero_entry i h),
    ),
    λ (lt, fits).
        find_index_only (matches m d) quirks_table i zero_entry lt
          (Fits-matches m d (entry_at i) fits)
          (λ j l h. manufacturer_once j i l lt ((matches-Fits m d (entry_at j) h).0 ∙ sym fits.0)),
  )

pub find-lt : (m d : Option (List ℕ)) (i : ℕ) → find m d ≡ some i → i < count
unfolding find count
find-lt none d i h = cc
find-lt (some m) none i h = cc
find-lt (some m) (some d) i h = find_index-lt (matches m d) quirks_table i h
