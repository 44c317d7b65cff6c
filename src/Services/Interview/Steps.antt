-- ===== src/Services/Interview/Steps.antt =====
-- What one turn of services/src/interview.c does to an interview, to the count of the active ones
-- and to the registry.
use esp32_c6_gateway_os.Base.{
  ℕ, List, [], if◌then◌else◌, ◌≡◌, true, ◌≤◌, ◌<◌, ◌-◌, ◌+◌, Option, one_if, if_rule, suc, ◌∷◌,
  some, ◌≢◌, arith, sym, ap, ◌∙◌, none, refl,
}
use esp32_c6_gateway_os.Services.Interview.State.{
  Stage, Interview, active_ep, simple_desc, basic_attr, bindings, complete, unnamed,
}
use esp32_c6_gateway_os.Services.Interview.Advance.{
  advance_interview, Turn, free_interview, add_clusters, simulate_active_endpoints,
  simulate_simple_descriptor, simulate_basic_attributes, advance_stage, advance_found, enter,
  described, with_reg, with_stage,
}
use esp32_c6_gateway_os.Services.Registry.Types.{Limits, Registry, server, NodeState}
use esp32_c6_gateway_os.Os.Types.{Env}
use esp32_c6_gateway_os.Services.Registry.Valid.{Fits, IsValid, put_node-IsValid}
use esp32_c6_gateway_os.Services.Registry.KeepPointers.{
  reg_add_endpoint-IsValid, reg_add_cluster-IsValid,
}
use esp32_c6_gateway_os.Services.Registry.Parts.{
  reg_find_endpoint, reg_add_endpoint, reg_add_cluster,
}
use esp32_c6_gateway_os.Services.Registry.Nodes.{node_at}
use esp32_c6_gateway_os.Services.Registry.Keep.{set_state-IsValid}

-- The turns that an interview at a stage has before it, at most.
abbrev pub pending : Stage → ℕ
pending Stage.init = 6
pending active_ep = 5
pending simple_desc = 4
pending basic_attr = 3
pending bindings = 2
pending complete = 1
pending Stage.failed = 0
pending unnamed = 0

abbrev pub rank : Interview → ℕ
rank c = if c.active then pending c.stage else 0

-- Between turns, an active interview is at a stage before the last.
abbrev pub IsLive : Interview → Type 0
IsLive c = c.active ≡ true → 0 < pending c.stage

module _ (l : Limits) where
  -- A turn of an active interview with `n` turns before it.
  abbrev pub Advanced : Turn → ℕ → Turn → Type 0
  Advanced t n t' =
      (rank t'.ctx ≤ n - 1)
      × IsLive t'.ctx
      × (t'.ctx.ieee_addr ≡ t.ctx.ieee_addr)
      × (t'.active_count + 1 ≡ t.active_count + one_if t'.ctx.active)
      × IsValid l t'.reg

  pub free_interview-Advanced :
      (t : Turn) (n : ℕ)
      → t.ctx.active ≡ true
      → 0 < t.active_count
      → t.active_count ≤ 4
      → IsValid l t.reg
      → Advanced t n (free_interview t)
  unfolding free_interview
  free_interview-Advanced t n on some_active few v =
      if_rule (Advanced t n) t.ctx.active _ _ (λ _. (omega arith, λ f. cc f, refl, omega arith, v))
        (λ f. cc (sym f ∙ on))

  enter-Advanced :
      (e : Env) (t : Turn) (s : Stage)
      → t.ctx.active ≡ true
      → 0 < pending s
      → IsValid l t.reg
      → Advanced t (suc (pending s)) (enter e t s)
  enter-Advanced e t s on early v = (ground arith, λ _. early, refl, omega (arith, ap one_if on), v)

  module _ (fits : Fits l) where
    add_clusters-IsValid :
        (r : Registry) (p : Option (ℕ × ℕ)) (ids : List ℕ)
        → IsValid l r
        → IsValid l (add_clusters l r p ids)
    unfolding add_clusters
    add_clusters-IsValid r p [] v = v
    add_clusters-IsValid r p (c ∷ ids) v =
        add_clusters-IsValid (reg_add_cluster l r p c server).1 p ids
          (reg_add_cluster-IsValid l fits r v p c server)

    simulate_active_endpoints-IsValid :
        (r : Registry) (p : Option ℕ) → IsValid l r → IsValid l (simulate_active_endpoints l r p)
    unfolding simulate_active_endpoints
    simulate_active_endpoints-IsValid r p v =
        reg_add_endpoint-IsValid l fits (reg_add_endpoint l r p 1 260 256).1
          (reg_add_endpoint-IsValid l fits r v p 1 260 256) p 2 260 770

    simulate_simple_descriptor-IsValid :
        (r : Registry) (p : Option ℕ) → IsValid l r → IsValid l (simulate_simple_descriptor l r p)
    unfolding simulate_simple_descriptor
    simulate_simple_descriptor-IsValid r p v =
        add_clusters-IsValid _ _ _ (add_clusters-IsValid r (reg_find_endpoint l r p 1) _ v)

    simulate_basic_attributes-IsValid :
        (r : Registry) (p : Option ℕ) → IsValid l r → IsValid l (simulate_basic_attributes l r p)
    unfolding simulate_basic_attributes
    simulate_basic_attributes-IsValid r none v = v
    simulate_basic_attributes-IsValid r (some i) v =
        put_node-IsValid l r i (described l (node_at l r i)) v refl refl (v.each i)

    module _ (e : Env) (t : Turn) (on : t.ctx.active ≡ true) (some_active : 0 < t.active_count)
        (few : t.active_count ≤ 4) (v : IsValid l t.reg) where
      advance_stage-Advanced :
          (p : Option ℕ) (s : Stage)
          → t.ctx.stage ≡ s
          → s ≢ unnamed
          → Advanced t (pending s) (advance_stage l e t p s)
      unfolding advance_stage
      advance_stage-Advanced p Stage.init at named = enter-Advanced e t active_ep on (omega arith) v
      advance_stage-Advanced p active_ep at named =
          enter-Advanced e (with_reg l t _) simple_desc on (omega arith)
            (simulate_active_endpoints-IsValid t.reg _ v)
      advance_stage-Advanced p simple_desc at named =
          enter-Advanced e (with_reg l t _) basic_attr on (omega arith)
            (simulate_simple_descriptor-IsValid t.reg _ v)
      advance_stage-Advanced p basic_attr at named =
          enter-Advanced e (with_reg l t _) bindings on (omega arith)
            (simulate_basic_attributes-IsValid t.reg _ v)
      advance_stage-Advanced p bindings at named =
          (ground arith, λ _. omega arith, refl, omega (arith, ap one_if on), v)
      advance_stage-Advanced p complete at named =
          free_interview-Advanced _ 1 on some_active few
            (set_state-IsValid l t.reg v p NodeState.ready)
      advance_stage-Advanced p Stage.failed at named =
          free_interview-Advanced _ 0 on some_active few
            (set_state-IsValid l t.reg v p NodeState.stale)
      advance_stage-Advanced p unnamed at named = absurd (named refl)

      advance_found-Advanced :
          (p : Option ℕ)
          → t.ctx.stage ≢ unnamed
          → Advanced t (pending t.ctx.stage) (advance_found l e t p)
      unfolding advance_found
      advance_found-Advanced none named =
          free_interview-Advanced (with_stage t Stage.failed) _ on some_active few v
      advance_found-Advanced (some i) named = advance_stage-Advanced (some i) t.ctx.stage refl named

      pub advance_interview-Advanced :
          t.ctx.stage ≢ unnamed → Advanced t (pending t.ctx.stage) (advance_interview l e t)
      unfolding advance_interview
      advance_interview-Advanced named = advance_found-Advanced _ named
