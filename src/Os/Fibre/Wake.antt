-- ===== src/Os/Fibre/Wake.antt =====
-- When a fibre that sleeps (`os_sleep` of os/src/os_fibre.c) can run again.
use esp32_c6_gateway_os.Base.{
  ℕ, ◌<◌, ◌^◌, sub32, ◌≡◌, ◌==◌, add32, ◌-◌, arith, ◌+◌, ◌||◌, ◌%◌, leb, true, Bool, if◌then◌else◌,
  some, length, false, ap, refl, if_false, not, ◌∙◌, get_or-set_self,
}
use esp32_c6_gateway_os.Os.Fibre.State.{
  Fibre, Sched, sleeping, is_ready, is_sleeping, ready, fibre_at, zero_fibre,
}
use esp32_c6_gateway_os.Os.Fibre.Ops.{sleep, slept, woken, due}
use esp32_c6_gateway_os.Os.Fibre.Choice.{awake, get_or-wake_all}

-- The difference of the ticks, as an `int32_t`, is not positive exactly when the time has passed.
module _ (t ms k : ℕ) (tick : t < 2 ^ 32) (short : ms < 2 ^ 31) (soon : k < 2 ^ 31) where
  late : ℕ
  late = sub32 (add32 t (ms % 2 ^ 32)) (add32 t k)

  before : k < ms → late ≡ ms - k
  unfolding late
  before h = omega arith

  at_time : k ≡ ms → late ≡ 0
  unfolding late
  at_time h = omega arith

  after : ms < k → late ≡ ms + 2 ^ 32 - k
  unfolding late
  after h = omega arith

  due_after : (late == 0 || leb (2 ^ 31) late) ≡ leb ms k
  due_after = ground (arith, before, at_time, after)

asleep : Fibre → ℕ → Fibre
asleep f wake = record f { state = sleeping; wake_tick = wake; context_valid = true }

ready_if :
    (b : Bool) (f : Fibre) (wake : ℕ)
    → is_ready (if b then record (asleep f wake) { state = ready } else asleep f wake).state ≡ b
unfolding is_ready asleep
ready_if true f wake = refl
ready_if false f wake = refl

module _ (s : Sched) (c ms k : ℕ) where
  -- The scheduler so many ticks after the call of `os_sleep`.
  abbrev pub after_ticks : Sched
  after_ticks = record (sleep s ms) { ticks = add32 s.ticks k }

  slept_fibre :
      s.running ≡ true
      → s.current ≡ some c
      → c < length s.fibres
      → 0 < ms
      → fibre_at (sleep s ms) c ≡ asleep (fibre_at s c) (add32 s.ticks (ms % 2 ^ 32))
  unfolding sleep slept asleep
  slept_fibre on cur lt pos =
      ap (λ r. fibre_at r c)
        (if_false (not s.running) _ _ (ap not on)
          ∙ if_false (ms == 0) _ _ (ground arith)
          ∙ ap (λ o. slept s o ms) cur)
      ∙ get_or-set_self s.fibres c _ zero_fibre lt

  pub sleep-wakes :
      s.running ≡ true
      → s.current ≡ some c
      → c < length s.fibres
      → s.ticks < 2 ^ 32
      → 0 < ms
      → ms < 2 ^ 31
      → k < 2 ^ 31
      → is_ready (fibre_at (awake after_ticks) c).state ≡ leb ms k
  unfolding is_sleeping asleep late
  sleep-wakes on cur lt tick pos short soon =
      let wake : ℕ = add32 s.ticks (ms % 2 ^ 32) in
      ap (λ g. is_ready g.state)
        (get_or-wake_all (add32 s.ticks k) (sleep s ms).fibres c
          ∙ ap (woken (add32 s.ticks k)) (slept_fibre on cur lt pos))
      ∙ ready_if (due (add32 s.ticks k) (asleep (fibre_at s c) wake)) (fibre_at s c) wake
      ∙ due_after s.ticks ms k tick short soon
