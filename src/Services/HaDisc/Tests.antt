-- ===== src/Services/HaDisc/Tests.antt =====
-- Runs of services/ha_disc/ha_disc.c.
use esp32_c6_gateway_os.Base.{inl, find_index, ℕ, List, [], ◌∷◌, true, codes, replicate, refl, ◌≡◌}
use esp32_c6_gateway_os.Services.HaDisc.State.{World, HaDisc, Pending, zero_pending}
use esp32_c6_gateway_os.Services.HaDisc.Ops.{flush_pending}
use esp32_c6_gateway_os.Services.Registry.Types.{host_limits}
use esp32_c6_gateway_os.Services.Capability.Types.{zero_service}
use esp32_c6_gateway_os.Adapters.Mqtt.State.{zero_adapter, connected}
use esp32_c6_gateway_os.Services.HaDisc.Escape.{
  escape_from, json_escape_string, escape_char, escape_code,
}
use esp32_c6_gateway_os.Services.HaDisc.Ops.{check_node_has_cap}
use esp32_c6_gateway_os.Services.Capability.Types.{CapState, zero_cap, sensor_contact, cap_number}
use esp32_c6_gateway_os.Services.Capability.Compute.{find_cache}
use esp32_c6_gateway_os.Services.Capability.Report.{
  get_state, state_in, state_of, find_cap_in_cache,
}
use esp32_c6_gateway_os.Services.HaDisc.Lost.{Loses, flush_pending-Loses}
use esp32_c6_gateway_os.Services.HaDisc.Leftover.{Leaves, unpublish_node-Leaves}

abbrev text : List ℕ
text = codes "a \"lamp\" \\ hall"

-- An escape is not cut in two: the quote that has no room is left out.
cut_run : json_escape_string 4 (codes "ab\"c") ≡ codes "ab"
unfolding escape_from escape_char escape_code
cut_run = refl

-- Two nodes wait.
abbrev waits : ℕ → Pending
waits a = record { node_addr = a; pending = true }

abbrev two_wait : HaDisc
two_wait = record {
  initialized = true;
  pending = waits 17 ∷ waits 18 ∷ replicate 30 zero_pending;
  pending_count = 2;
}

abbrev offline : World
offline = record {
  ha = two_wait;
  mqtt = zero_adapter;
  reg = record { initialized = true; nodes = []; node_count = 0 };
  caps = zero_service;
}

flush_pending-Loses_example : Loses offline (flush_pending host_limits offline)
flush_pending-Loses_example = flush_pending-Loses host_limits offline refl refl refl

-- A node with a contact, over a connection.
abbrev contact : CapState
contact = record zero_cap { id = sensor_contact }

abbrev online : World
online = record offline {
  mqtt = record zero_adapter { initialized = true; state = connected };
  caps = record {
    initialized = true;
    cache = record { node_addr = 17; caps = contact ∷ []; cap_count = 1; valid = true } ∷ [];
  };
}

contact_on : check_node_has_cap host_limits online 17 sensor_contact ≡ true
unfolding get_state state_in state_of find_cache find_cap_in_cache find_index cap_number
contact_on = refl

unpublish_node-Leaves_example : Leaves host_limits online 17 sensor_contact
unpublish_node-Leaves_example =
    unpublish_node-Leaves host_limits online 17 refl refl refl sensor_contact (inl refl) contact_on
