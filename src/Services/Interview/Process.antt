-- ===== src/Services/Interview/Process.antt =====
-- `interview_process` of services/src/interview.c, over all the contexts and over many turns.
use esp32_c6_gateway_os.Base.{
  ℕ, List, get_or, IsTable, length, ◌≡◌, count_if, ◌≤◌, ◌-◌, ◌+◌, ◌∷◌, [], refl, true, one_if,
  arith, Bool-cases, inl, suc, inr, ap, zero, count_in, ◌∙◌, if_rule, not, sym,
}
use esp32_c6_gateway_os.Services.Interview.State.{
  Interview, zero_interview, is_active, max_interviews, is_of,
}
use esp32_c6_gateway_os.Services.Registry.Types.{Limits, Registry}
use esp32_c6_gateway_os.Services.Interview.Steps.{IsLive, rank}
use esp32_c6_gateway_os.Services.Interview.Ops.{
  World, process_contexts, process_context, processed, process,
}
use esp32_c6_gateway_os.Services.Registry.Valid.{IsValid, Fits}
use esp32_c6_gateway_os.Os.Event.State.{Bus}
use esp32_c6_gateway_os.Os.Types.{Env}
use esp32_c6_gateway_os.Services.Interview.Advance.{Turn}
use esp32_c6_gateway_os.Services.Interview.Timeouts.{Turned, process_context-Turned}

abbrev pub AllLive : List Interview → Type 0
AllLive cs = (k : ℕ) → IsLive (get_or cs k zero_interview)

module _ (l : Limits) where
  -- At most one interview of a device, their number in `active_count`, each at a stage that it can
  -- leave, over a valid registry.
  pub record IsConsistent (w : World) : Type 0 where
    pub table :
        IsTable is_active (λ c. c.ieee_addr) max_interviews w.svc.active_count w.svc.interviews
    pub live : AllLive w.svc.interviews
    pub registry : IsValid l w.reg

  -- What a turn makes of the contexts.
  abbrev pub Processed : List Interview → ℕ → List Interview × ℕ × Registry × Bus → Type 0
  Processed cs active_count (cs', active_count', r', b') =
      (length cs' ≡ length cs)
      × AllLive cs'
      × ((k : ℕ) → rank (get_or cs' k zero_interview) ≤ rank (get_or cs k zero_interview) - 1)
      × (active_count' + count_if is_active cs ≡ active_count + count_if is_active cs')
      × ((key : ℕ) → count_if (is_of key) cs' ≤ count_if (is_of key) cs)
      × IsValid l r'

  module _ (fits : Fits l) (e : Env) where
    abbrev turn : Interview → ℕ → Registry → Bus → Turn
    turn c active_count r b = record { ctx = c; active_count = active_count; reg = r; bus = b }

    -- A context whose address stays and that does not become active is found under no new key.
    found_less :
        (c c' : Interview) (key : ℕ)
        → c'.ieee_addr ≡ c.ieee_addr
        → (c'.active ≡ true → c.active ≡ true)
        → one_if (is_of key c') ≤ one_if (is_of key c)
    found_less c c' key same off = elim (Bool-cases c'.active) [
      | inl t ↦ ground (arith, t, off t, same)
      | inr f ↦ ground (arith, f)
    ]

    Processed-cons :
        (c : Interview) (cs : List Interview) (active_count : ℕ) (r : Registry) (b : Bus)
        (t' : Turn) (cs' : List Interview) (active_count' : ℕ) (r' : Registry) (b' : Bus)
        → Turned l fits e (turn c active_count r b) t'
        → Processed cs t'.active_count (cs', active_count', r', b')
        → Processed (c ∷ cs) active_count (t'.ctx ∷ cs', active_count', r', b')
    unfolding count_if
    Processed-cons c cs active_count r b t' cs' active_count' r' b' (less, live, key, count, on, v)
          (size, lives, ranks, counts, keys, v') =
        (
          ap suc size,
          all_live,
          all_ranks,
          omega (arith, count, counts),
          (λ k. omega (arith, keys k, found_less c t'.ctx k key on)),
          v',
        )
      where
        all_live : AllLive (t'.ctx ∷ cs')
        all_live zero = live
        all_live (suc k) = lives k

        all_ranks :
            (k : ℕ)
            → rank (get_or (t'.ctx ∷ cs') k zero_interview)
              ≤ rank (get_or (c ∷ cs) k zero_interview) - 1
        all_ranks zero = less
        all_ranks (suc k) = ranks k

    head_counted :
        (c : Interview) (cs : List Interview) (active_count : ℕ)
        → count_if is_active (c ∷ cs) ≤ active_count
        → one_if c.active ≤ active_count
    unfolding count_if
    head_counted c cs active_count h = omega arith

    next_counted :
        (c : Interview) (cs : List Interview) (active_count : ℕ) (r : Registry) (b : Bus)
        (t' : Turn)
        → count_if is_active (c ∷ cs) ≤ active_count
        → active_count ≤ 4
        → Turned l fits e (turn c active_count r b) t'
        → (t'.active_count ≤ 4) × (count_if is_active cs ≤ t'.active_count)
    unfolding count_if
    next_counted c cs active_count r b t' h few (less, live, key, count, on, v) = (
      elim (Bool-cases t'.ctx.active) [
        | inl t ↦ omega (arith, count, ap one_if t, ap one_if (on t))
        | inr f ↦ omega (arith, count, ap one_if f)
      ],
      omega (arith, count),
    )

    process_contexts-Processed :
        (cs : List Interview) (active_count : ℕ) (r : Registry) (b : Bus)
        → AllLive cs
        → count_if is_active cs ≤ active_count
        → active_count ≤ 4
        → IsValid l r
        → Processed cs active_count (process_contexts l e cs active_count r b)
    unfolding process_contexts
    process_contexts-Processed [] active_count r b live counted few v =
        (refl, live, λ k. omega arith, refl, λ key. omega arith, v)
    process_contexts-Processed (c ∷ cs) active_count r b live counted few v =
        let t : Turn = turn c active_count r b in
        let t' : Turn = process_context l e t in
        let step : Turned l fits e t t' =
          process_context-Turned l fits e t (live 0) (head_counted c cs active_count counted) few
            v in
        let (bound, enough) = next_counted c cs active_count r b t' counted few step in
        let rest : List Interview × ℕ × Registry × Bus =
          process_contexts l e cs t'.active_count t'.reg t'.bus in
        Processed-cons c cs active_count r b t' rest.0 rest.1 rest.2 rest.3 step (
          process_contexts-Processed cs t'.active_count t'.reg t'.bus (λ k. live (suc k)) enough
            bound step.5)

    module _ (w : World) (i : IsConsistent w) where
      counted : count_if is_active w.svc.interviews ≤ w.svc.active_count
      counted = omega (arith, i.table.counted)

      few : w.svc.active_count ≤ 4
      few =
          omega
            (arith, count_in is_active (λ c. c.ieee_addr) w.svc.interviews i.table zero_interview)

      result :
          Processed w.svc.interviews w.svc.active_count
            (process_contexts l e w.svc.interviews w.svc.active_count w.reg w.bus)
      result =
          process_contexts-Processed w.svc.interviews w.svc.active_count w.reg w.bus i.live counted
            few i.registry

      Processed-IsConsistent :
          (p : List Interview × ℕ × Registry × Bus)
          → Processed w.svc.interviews w.svc.active_count p
          → IsConsistent (processed l w p)
      Processed-IsConsistent (cs, n, r, b) (size, live, ranks, count, keys, v) = record {
        table = record {
          size = size ∙ i.table.size;
          counted = omega (arith, count, i.table.counted);
          unique = λ k. omega (arith, keys k, i.table.unique k);
        };
        live = live;
        registry = v;
      }

      pub process-IsConsistent : IsConsistent (process l e w)
      unfolding process
      process-IsConsistent =
          if_rule IsConsistent (not w.svc.initialized) _ _ (λ _. i)
            (λ _. Processed-IsConsistent _ result)

      -- A turn takes from each interview one of the turns before it.
      abbrev Less : World → Type 0
      Less w' =
          ((k : ℕ)
            → rank (get_or w'.svc.interviews k zero_interview)
              ≤ rank (get_or w.svc.interviews k zero_interview) - 1)
          × (w'.svc.initialized ≡ true)

      pub process-rank :
          w.svc.initialized ≡ true
          → ((k : ℕ)
              → rank (get_or (process l e w).svc.interviews k zero_interview)
                ≤ rank (get_or w.svc.interviews k zero_interview) - 1)
            × ((process l e w).svc.initialized ≡ true)
      unfolding process
      process-rank on =
          if_rule Less (not w.svc.initialized) _ _ (λ f. cc (sym f ∙ ap not on))
            (λ _. (result.2, on))
