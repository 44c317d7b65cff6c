-- ===== src/Services/Capability/Reported.antt =====
-- The outcome of `cap_handle_attribute_report` of services/src/capability.c.
use esp32_c6_gateway_os.Base.{
  inl, inr, le_bytes, ◌++◌, ℕ, List, some, none, true, ◌≤◌, ◌≡◌, length, if_false, not, ◌≢◌, ap,
  ◌⊎◌, ◌∙◌, ◌==◌, if_true, eq_ne, sym, subst, refl, Option,
}
use esp32_c6_gateway_os.Services.Capability.Types.{
  NodeCaps, CapId, cap_number, CapState, Service, Floats, cluster_map,
}
use esp32_c6_gateway_os.Services.Capability.Compute.{find_cache, cache_at}
use esp32_c6_gateway_os.Services.Capability.Report.{
  get_state, state_in, state_of, find_cap_in_cache, cap_at, reported_cap, handle_attribute_report,
  reported, report_in, new_value, report_cap, emit_state_changed,
}
use esp32_c6_gateway_os.Services.Capability.State.{
  cache_found, written_self, written_at, written, find-written,
}
use esp32_c6_gateway_os.Os.Types.{pad_bytes, Err, ok, not_found, Env}
use esp32_c6_gateway_os.Os.Event.State.{Bus, event_cap_state_changed}
use esp32_c6_gateway_os.Os.Event.Publish.{emit}
use esp32_c6_gateway_os.Services.Capability.Expected.{
  Reports, Reports-mapped, Unmapped, Unmapped-unknown, meaning,
}

-- Each array of capabilities holds those that count.
abbrev pub IsSized : Service → Type 0
IsSized s = (i : ℕ) → (cache_at s i).cap_count ≤ length (cache_at s i).caps

-- The capability that a report of this attribute is about.
abbrev pub mapped : ℕ → ℕ → CapId
mapped cluster_id attr_id = reported_cap cluster_id attr_id cluster_map

module _ (fl : Floats) (e : Env) (s : Service) (b : Bus) (node_addr cluster_id attr_id : ℕ)
    (value : List ℕ) (on : s.initialized ≡ true) (sized : IsSized s) where
  abbrev report : Err × Service × Bus
  report = handle_attribute_report fl e s b node_addr cluster_id attr_id (some value)

  get_state-on :
      (t : Service) (a : ℕ) (id : CapId)
      → t.initialized ≡ true
      → get_state t a id ≡ state_in t (find_cache t a) id
  unfolding get_state
  get_state-on t a id h = if_false (not t.initialized) _ _ (ap not h)

  report-mapped :
      cap_number (mapped cluster_id attr_id) ≢ 0
      → report
        ≡ report_in fl e s b node_addr (mapped cluster_id attr_id) value (find_cache s node_addr)
  unfolding handle_attribute_report
  report-mapped is_mapped =
      if_false (not s.initialized) _ _ (ap not on)
      ∙ if_false (cap_number (mapped cluster_id attr_id) == 0) _ _
          (eq_ne (cap_number (mapped cluster_id attr_id)) 0 is_mapped)

  report-unmapped : cap_number (mapped cluster_id attr_id) ≡ 0 → report ≡ (ok, s, b)
  unfolding handle_attribute_report
  report-unmapped z =
      if_false (not s.initialized) _ _ (ap not on)
      ∙ if_true (cap_number (mapped cluster_id attr_id) == 0) _ _ (ap (λ n. n == 0) z)

  -- The report of a capability that the node has, with its new value: the state that is read back
  -- has it, with the time and the flag, all others are as before, and one event tells of it.
  abbrev pub Updates : CapId → List ℕ → CapState → Err × Service × Bus → Type 0
  Updates id new old (err, s', b') =
      (err ≡ ok)
      × (get_state s' node_addr id
          ≡ (ok, some (record old { value = new; timestamp = e.now; valid = true })))
      × ((a : ℕ) (other : CapId)
          → (a ≢ node_addr) ⊎ (cap_number other ≢ cap_number id)
          → get_state s' a other ≡ get_state s a other)
      × (b'
          ≡ (emit e b event_cap_state_changed
              (le_bytes 8 node_addr ++ le_bytes 4 (cap_number id) ++ new ++ pad_bytes e 44 4)).1)

  report_found :
      (i k : ℕ) (old : CapState)
      → find_cache s node_addr ≡ some i
      → find_cap_in_cache (cache_at s i) (mapped cluster_id attr_id) ≡ some k
      → cap_at (cache_at s i) k ≡ old
      → Updates
          (mapped cluster_id attr_id)
          (new_value fl (mapped cluster_id attr_id) value)
          old
          (report_in fl e s b node_addr (mapped cluster_id attr_id) value (some i))
  unfolding report_in report_cap emit_state_changed
  report_found i k old found cap is_old =
      let new : List ℕ = new_value fl (mapped cluster_id attr_id) value in
      let x : CapState = reported e (cap_at (cache_at s i) k) new in
      rw cap (
        refl,
        get_state-on (written s i k x) node_addr (mapped cluster_id attr_id) on
            ∙ written_self s node_addr (mapped cluster_id attr_id) i k x found cap refl (sized i)
            ∙ ap (λ o. (ok, some (reported e o new))) is_old,
        (λ a id other.
            get_state-on (written s i k x) a id on
            ∙ ap (λ o. state_in (written s i k x) o id)
                (find-written s node_addr (mapped cluster_id attr_id) i k x found cap refl (sized i)
                  a)
            ∙ written_at s node_addr (mapped cluster_id attr_id) i k x found cap refl (sized i) a id
                (find_cache s a) refl other
            ∙ sym (get_state-on s a id on)),
        refl,
      )

  cap_missing :
      (i : ℕ) (o : Option ℕ)
      → state_of (cache_at s i) o ≡ (not_found, none)
      → report_cap fl e s b node_addr (mapped cluster_id attr_id) value i o ≡ (not_found, s, b)
  unfolding state_of report_cap
  cap_missing i none h = refl
  cap_missing i (some k) h = cc

  report_missing :
      (o : Option ℕ)
      → state_in s o (mapped cluster_id attr_id) ≡ (not_found, none)
      → report_in fl e s b node_addr (mapped cluster_id attr_id) value o ≡ (not_found, s, b)
  unfolding state_in report_in
  report_missing none h = refl
  report_missing (some i) h =
      cap_missing i (find_cap_in_cache (cache_at s i) (mapped cluster_id attr_id)) h

  -- The two ways in which `cap_get_state` can answer.
  state_of-cases :
      (c : NodeCaps) (o : Option ℕ)
      → (state_of c o ≡ (not_found, none)) ⊎ ((old : CapState) × (state_of c o ≡ (ok, some old)))
  unfolding state_of
  state_of-cases c none = inl refl
  state_of-cases c (some k) = inr (_, refl)

  state_in-cases :
      (o : Option ℕ) (id : CapId)
      → (state_in s o id ≡ (not_found, none))
        ⊎ ((old : CapState) × (state_in s o id ≡ (ok, some old)))
  unfolding state_in
  state_in-cases none id = inl refl
  state_in-cases (some i) id = state_of-cases (cache_at s i) (find_cap_in_cache (cache_at s i) id)

  report_known :
      (old : CapState)
      → cap_number (mapped cluster_id attr_id) ≢ 0
      → state_in s (find_cache s node_addr) (mapped cluster_id attr_id) ≡ (ok, some old)
      → Updates
          (mapped cluster_id attr_id)
          (new_value fl (mapped cluster_id attr_id) value)
          old
          report
  report_known old is_mapped got =
      let (i, k, found, cap, is_old) =
        cache_found s node_addr (mapped cluster_id attr_id) old (find_cache s node_addr) refl got in
      subst
        (Updates (mapped cluster_id attr_id) (new_value fl (mapped cluster_id attr_id) value) old)
        (sym (
          report-mapped is_mapped
          ∙ ap (report_in fl e s b node_addr (mapped cluster_id attr_id) value) found))
        (report_found i k old found cap is_old)

  -- What a report with a meaning does: nothing, where the node has not the capability.
  abbrev pub Reported : CapId → List ℕ → Type 0
  Reported id new =
      ((get_state s node_addr id ≡ (not_found, none)) × (report ≡ (not_found, s, b)))
      ⊎ ((old : CapState) × (get_state s node_addr id ≡ (ok, some old)) × Updates id new old report)

  mapped-Reported :
      cap_number (mapped cluster_id attr_id) ≢ 0
      → Reported (mapped cluster_id attr_id) (new_value fl (mapped cluster_id attr_id) value)
  mapped-Reported is_mapped =
      elim (state_in-cases (find_cache s node_addr) (mapped cluster_id attr_id)) [
        | inl missing ↦ inl (
          get_state-on s node_addr (mapped cluster_id attr_id) on ∙ missing,
          report-mapped is_mapped ∙ report_missing (find_cache s node_addr) missing,
        )
        | inr (old, got) ↦ inr (
          old,
          get_state-on s node_addr (mapped cluster_id attr_id) on ∙ got,
          report_known old is_mapped got,
        )
      ]

  -- `cap_handle_attribute_report` on an initialised service whose caches hold the capabilities that
  -- they count. A report of an attribute that means no capability returns OS_OK and changes nothing.
  -- Any other means a capability and a new value (Reports): where `cap_get_state` does not find the
  -- capability for the node, the report returns OS_ERR_NOT_FOUND and changes nothing. Where it does,
  -- the report returns OS_OK; `cap_get_state` then gives this state with the new value, the time of the
  -- call and the valid flag, and every other capability of every node as before; and one event
  -- CAP_STATE_CHANGED is emitted with the node, the capability and the new value.
  pub report-Updates :
      (Unmapped cluster_id attr_id × (report ≡ (ok, s, b)))
      ⊎ ((id : CapId) × (new : List ℕ) × Reports fl value cluster_id attr_id id new
          × Reported id new)
  report-Updates = elim (meaning fl value cluster_id attr_id) [
    | inl none_meant ↦
        inl (none_meant, report-unmapped (Unmapped-unknown cluster_id attr_id none_meant))
    | inr (id, new, means) ↦
        let (is_id, some_cap, is_new) = Reports-mapped fl value cluster_id attr_id id new means in
        inr (
          id,
          new,
          means,
          subst (Reported id) is_new (
              subst (λ i. Reported i (new_value fl i value)) is_id
                (mapped-Reported (λ z. some_cap (sym (ap cap_number is_id) ∙ z)))),
        )
  ]
