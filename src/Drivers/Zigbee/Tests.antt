-- ===== src/Drivers/Zigbee/Tests.antt =====
-- The Zigbee adapter on concrete input: the theorems about drivers/zigbee there, and the way to the
-- state in which it takes no command.
use esp32_c6_gateway_os.Os.Types.{Env}
use esp32_c6_gateway_os.Base.{
  ℕ, List, [], ◌∷◌, true, ◌≤◌, ◌*◌, ◌+◌, ◌<◌, ◌≡◌, arith, count_if, find_index, refl, none,
  length-replicate, ◌⊎◌, some,
}
use esp32_c6_gateway_os.Drivers.Zigbee.Leak.{
  Step, steps, inits, step, signals, sends_onoff, commands_accepted,
}
use esp32_c6_gateway_os.Drivers.Zigbee.Commands.{zb_level, send_onoff, send, requested, with_slot}
use esp32_c6_gateway_os.Drivers.Zigbee.Signals.{
  formation, device_annce, app_signal_handler, zba_init, init_from,
}
use esp32_c6_gateway_os.Drivers.Zigbee.Pending.{alloc_at, pending_cmd_alloc, slot_used}
use esp32_c6_gateway_os.Drivers.Zigbee.Level.{zb_level_nearest}
use esp32_c6_gateway_os.Drivers.Zigbee.Cache.{lookup_nwk, cache_index, nwk_cache_insert, insert_at}
use esp32_c6_gateway_os.Drivers.Zigbee.State.{
  state_transition, boot, zero_pendings, max_devices, zero_entry,
}
use esp32_c6_gateway_os.Os.Event.State.{zero_bus}
use esp32_c6_gateway_os.Drivers.Zigbee.CacheView.{IsCache, Learnt, nwk_cache_insert-lookup}

abbrev env : Env
env = record { now = 7; padding = λ i. 0 }

-- The network is formed, a device announced, and it is switched on once.
abbrev session : List Step
session =
    inits true
    ∷ signals env (formation true)
    ∷ signals env (device_annce 17 3)
    ∷ sends_onoff env 17 1 true 5 true
    ∷ []

commands_accepted_example :
    let (n, a, b') = steps session (0, boot, zero_bus) in
    (n ≤ 16) × (count_if slot_used a.pending ≡ n)
commands_accepted_example = commands_accepted session zero_bus

-- The command is accepted, and its slot stays in use though its status is reported.
session_accepts : (steps session (0, boot, zero_bus)).0 ≡ 1
unfolding steps step send_onoff send requested with_slot alloc_at pending_cmd_alloc lookup_nwk
    cache_index nwk_cache_insert insert_at app_signal_handler state_transition zba_init init_from
    zero_pendings find_index
session_accepts = refl

abbrev half : ℕ
half = 50

zb_level_nearest_example :
    (zb_level half ≤ 254)
    × (zb_level half * 100 ≤ half * 254 + 50)
    × (half * 254 + 50 < zb_level half * 100 + 100)
    × (half ≡ 0 → zb_level half ≡ 0)
    × (half ≡ 100 → zb_level half ≡ 254)
zb_level_nearest_example = zb_level_nearest half (omega arith)

boot-IsCache : IsCache boot
boot-IsCache = record { size = length-replicate max_devices zero_entry; counted = omega arith }

nwk_cache_insert-lookup_example :
    let (o, a') = nwk_cache_insert env boot 17 3 in
    ((o ≡ none) × (cache_index boot 17 ≡ none) × (boot.nwk_count ≡ max_devices) × (a' ≡ boot))
    ⊎ ((i : ℕ) × (o ≡ some i) × Learnt env boot boot-IsCache 17 3 a')
nwk_cache_insert-lookup_example = nwk_cache_insert-lookup env boot boot-IsCache 17 3
