-- ===== src/Os/Fibre/Rotation.antt =====
-- The round of `find_next_ready` (os/src/os_fibre.c) through the chain, on any test of the fibres.
use esp32_c6_gateway_os.Base.{
  ℕ, Bool, some, none, true, false, if◌then◌else◌, ◌<◌, leb, arith, ◌==◌, ◌≡◌, Option, ◌+◌, ◌-◌,
  suc, ◌≤◌, ◌⊎◌, lt-cases, inl, if_rule, zero, inr, ap, refl, ◌∙◌, ◌≢◌,
}
use esp32_c6_gateway_os.Os.Fibre.Ops.{scan, around}

-- How many pointers it takes from a start to a fibre.
abbrev pub distance : ℕ → ℕ → ℕ → ℕ
distance n start i = if leb i start then start - i else start + n - i

module _ (n start : ℕ) (in_chain : start < n) where
  pub distance-lt : (i : ℕ) → i < n → distance n start i < n
  distance-lt i h = ground arith

  around-lt : (i : ℕ) → i < n → around n i < n
  unfolding around
  around-lt zero h = omega arith
  around-lt (suc i) h = omega arith

  around-start : (i : ℕ) → i < n → (around n i == start) ≡ true → suc (distance n start i) ≡ n
  unfolding around
  around-start zero h e = ground arith
  around-start (suc i) h e = ground arith

  around_next :
      (i : ℕ)
      → i < n
      → (around n i == start) ≡ false
      → distance n start (around n i) ≡ suc (distance n start i)
  unfolding around
  around_next zero h e = ground arith
  around_next (suc i) h e = ground arith

  distance-inj : (i j : ℕ) → i < n → j < n → distance n start i ≡ distance n start j → i ≡ j
  distance-inj i j hi hj e = ground arith

  -- Going on after a fibre brings every other fibre that is no nearer closer.
  pub distance_after :
      (i j : ℕ)
      → i < n
      → j < n
      → i ≢ j
      → distance n start i ≤ distance n start j
      → distance n (around n i) j < distance n start j
  unfolding around
  distance_after zero j hi hj ne le = ground arith
  distance_after (suc i) j hi hj ne le = ground arith

  module _ (runs : ℕ → Bool) where
    -- The loop found the nearest fibre that runs, or there is none.
    abbrev pub IsNearest : ℕ → Type 0
    IsNearest i =
        (i < n)
        × (runs i ≡ true)
        × ((j : ℕ) → j < n → runs j ≡ true → distance n start i ≤ distance n start j)

    abbrev pub Ends : Option (Option ℕ) → Type 0
    Ends o =
        ((o ≡ some none) × ((j : ℕ) → j < n → runs j ≡ false))
        ⊎ ((i : ℕ) × (o ≡ some (some i)) × IsNearest i)

    -- No fibre nearer than this one runs.
    abbrev Passed : ℕ → Type 0
    Passed i = (j : ℕ) → j < n → distance n start j < distance n start i → runs j ≡ false

    pass_one :
        (i : ℕ)
        → i < n
        → runs i ≡ false
        → Passed i
        → (j : ℕ) → j < n
        → distance n start j ≤ distance n start i
        → runs j ≡ false
    pass_one i h miss passed j hj le = elim (lt-cases (distance n start j) (distance n start i)) [
      | inl lt ↦ passed j hj lt
      | inr ge ↦ ap runs (distance-inj j i hj h (omega arith)) ∙ miss
    ]

    found-IsNearest : (i : ℕ) → i < n → runs i ≡ true → Passed i → IsNearest i
    found-IsNearest i h hit passed = (
      h,
      hit,
      λ j hj runs_j. elim (lt-cases (distance n start j) (distance n start i)) [
        | inl lt ↦ absurd (ground (arith, passed j hj lt))
        | inr ge ↦ ge
      ],
    )

    scan-Ends :
        (rounds i : ℕ)
        → i < n
        → rounds + distance n start i ≡ n
        → Passed i
        → Ends (scan runs n start rounds i)
    unfolding scan
    scan-Ends zero i h e passed = absurd (omega (arith, distance-lt i h))
    scan-Ends (suc rounds) i h e passed =
        if_rule Ends (runs i) _ _ (λ hit. inr (i, refl, found-IsNearest i h hit passed))
          (λ miss.
            if_rule Ends (around n i == start) _ _
              (λ last. inl (
                refl,
                λ j hj.
                    pass_one i h miss passed j hj
                      (omega (arith, around-start i h last, distance-lt j hj)),
              ))
              (λ more.
                scan-Ends rounds (around n i) (around-lt i h) (omega (arith, around_next i h more))
                  (λ j hj lt. pass_one i h miss passed j hj (omega (arith, around_next i h more)))))

    distance_self : distance n start start ≡ 0
    distance_self = ground arith

    -- As many rounds as there are fibres are enough.
    pub scan_round : Ends (scan runs n start n start)
    scan_round =
        scan-Ends n start in_chain (omega (arith, distance_self))
          (λ j h lt. absurd (omega (arith, distance_self)))
