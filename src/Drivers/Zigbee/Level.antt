-- ===== src/Drivers/Zigbee/Level.antt =====
-- The level that `zba_send_level` of drivers/zigbee/zb_cmd.c sends.
use esp32_c6_gateway_os.Base.{ℕ, ◌≤◌, ◌<◌, ◌*◌, ◌+◌, ◌≡◌, arith, refl}
use esp32_c6_gateway_os.Drivers.Zigbee.Commands.{zb_level}

-- The level sent for a percentage of at most 100 is the nearest of the 255 levels of the stack, half
-- a level rounded up: no wrap-around, at most 254, and 0 and 100 go to the ends.
pub zb_level_nearest :
    (level_0_100 : ℕ)
    → level_0_100 ≤ 100
    → (zb_level level_0_100 ≤ 254)
      × (zb_level level_0_100 * 100 ≤ level_0_100 * 254 + 50)
      × (level_0_100 * 254 + 50 < zb_level level_0_100 * 100 + 100)
      × (level_0_100 ≡ 0 → zb_level level_0_100 ≡ 0)
      × (level_0_100 ≡ 100 → zb_level level_0_100 ≡ 254)
zb_level_nearest level_0_100 h =
    (omega arith, omega arith, omega arith, λ e. rw e refl, λ e. rw e refl)
