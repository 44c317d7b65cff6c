-- ===== src/Services/HaDisc/State.antt =====
-- services/ha_disc/ha_disc.c: the nodes that wait to be published.
use esp32_c6_gateway_os.Base.{
  ℕ, List, Bool, some, none, true, false, replicate, get_or, Option, find_index, set, vacant, has,
  add32,
}
use esp32_c6_gateway_os.Services.Registry.Types.{Registry}
use esp32_c6_gateway_os.Adapters.Mqtt.State.{Adapter}
use esp32_c6_gateway_os.Services.Capability.Types.{Service}

abbrev pub max_pending : ℕ
max_pending = 32

-- `ha_pending_t`
pub record Pending : Type 0 where
  pub node_addr : ℕ
  pub pending : Bool

-- The static `service`.
pub record HaDisc : Type 0 where
  pub initialized : Bool
  pub pending : List Pending
  pub pending_count : ℕ

abbrev pub zero_pending : Pending
zero_pending = record { node_addr = 0; pending = false }

unfoldable pub no_pending : List Pending
no_pending = replicate max_pending zero_pending

abbrev pub zero_ha_disc : HaDisc
zero_ha_disc = record { initialized = false; pending = no_pending; pending_count = 0 }

-- The service with those that its functions call.
pub record World : Type 0 where
  pub ha : HaDisc
  pub mqtt : Adapter
  pub reg : Registry
  pub caps : Service

abbrev pub is_pending : Pending → Bool
is_pending p = p.pending

abbrev pub pending_at : HaDisc → ℕ → Pending
pending_at h i = get_or h.pending i zero_pending

unfoldable pub take_slot : HaDisc → ℕ → Option ℕ → HaDisc
take_slot h node_addr none = h
take_slot h node_addr (some i) = record h {
  pending = set h.pending i (record { node_addr = node_addr; pending = true });
  pending_count = add32 h.pending_count 1;
}

unfoldable pub add_unless : HaDisc → ℕ → Option ℕ → HaDisc
add_unless h node_addr (some i) = h
add_unless h node_addr none =
    take_slot h node_addr (find_index (vacant is_pending (λ p. p.node_addr)) h.pending)

-- `add_pending`
unfoldable pub add_pending : HaDisc → ℕ → HaDisc
add_pending h node_addr =
    add_unless h node_addr (find_index (has is_pending (λ p. p.node_addr) node_addr) h.pending)
