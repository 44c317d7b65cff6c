-- ===== src/Os/Fibre/Choice.antt =====
-- The choice of the next fibre (`find_next_ready` of os/src/os_fibre.c).
use esp32_c6_gateway_os.Base.{
  ℕ, List, Bool, [], ◌∷◌, some, none, true, Option, ◌<◌, length, ltb, ◌≡◌, ◌-◌, arith, suc, ap,
  get_or, refl, zero, ◌∙◌,
}
use esp32_c6_gateway_os.Os.Fibre.State.{Fibre, Sched, below, is_sleeping, zero_fibre}
use esp32_c6_gateway_os.Os.Fibre.Ops.{
  around, after_current, wake_all, find_next_ready, or_head, scan_from, can_run, woken,
}
use esp32_c6_gateway_os.Os.Fibre.Rotation.{Ends, scan_round}

-- There is a fibre, and the current one is a fibre.
abbrev pub points_in : Option ℕ → ℕ → Bool
points_in none n = true
points_in (some c) n = ltb c n

pub record IsChain (s : Sched) : Type 0 where
  pub some_fibre : 0 < length s.fibres
  pub in_chain : points_in s.current (length s.fibres) ≡ true

-- Where the second loop starts: after the current fibre, at the head before the first.
abbrev pub first_place : ℕ → Option ℕ → ℕ
first_place n none = n - 1
first_place n (some c) = around n c

first_place-lt : (n : ℕ) (o : Option ℕ) → 0 < n → points_in o n ≡ true → first_place n o < n
unfolding around
first_place-lt n none h p = omega arith
first_place-lt n (some zero) h p = omega arith
first_place-lt n (some (suc c)) h p = ground arith

below_pos : (n : ℕ) → 0 < n → below n ≡ some (n - 1)
below_pos zero h = absurd (omega arith)
below_pos (suc n) h = ap some (omega arith)

after_current-first :
    (s : Sched) (o : Option ℕ)
    → 0 < length s.fibres
    → after_current s o ≡ some (first_place (length s.fibres) o)
unfolding after_current or_head around
after_current-first s none h = below_pos (length s.fibres) h
after_current-first s (some zero) h = below_pos (length s.fibres) h
after_current-first s (some (suc c)) h = refl

pub length-wake_all : (now : ℕ) (fs : List Fibre) → length (wake_all now fs) ≡ length fs
unfolding wake_all
length-wake_all now [] = refl
length-wake_all now (f ∷ fs) = ap suc (length-wake_all now fs)

pub get_or-wake_all :
    (now : ℕ) (fs : List Fibre) (i : ℕ)
    → get_or (wake_all now fs) i zero_fibre ≡ woken now (get_or fs i zero_fibre)
unfolding wake_all is_sleeping
get_or-wake_all now [] i = refl
get_or-wake_all now (f ∷ fs) zero = refl
get_or-wake_all now (f ∷ fs) (suc i) = get_or-wake_all now fs i

-- The scheduler after the first loop.
abbrev pub awake : Sched → Sched
awake s = record s { fibres = wake_all s.ticks s.fibres }

abbrev pub place : Sched → ℕ
place s = first_place (length s.fibres) s.current

module _ (s : Sched) (v : IsChain s) where
  pub place-lt : place s < length s.fibres
  place-lt = first_place-lt (length s.fibres) s.current v.some_fibre v.in_chain

  pub find_next_ready-Ends :
      Ends (length s.fibres) (place s) place-lt (can_run (awake s)) (find_next_ready s).0
  unfolding find_next_ready scan_from
  find_next_ready-Ends =
      let n : ℕ = length s.fibres in
      let size : length (wake_all s.ticks s.fibres) ≡ n = length-wake_all s.ticks s.fibres in
      let at : after_current (awake s) s.current ≡ some (place s) =
        after_current-first (awake s) s.current (omega (arith, size, v.some_fibre))
        ∙ ap (λ k. some (first_place k s.current)) size in
      rw (at, size) (scan_round n (place s) place-lt (can_run (awake s)))
