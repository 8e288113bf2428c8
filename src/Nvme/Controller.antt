-- ===== src/Nvme/Controller.antt =====
-- The controller's registers: `wait_ready`, `disable_controller`, `enable_controller` and `shutdown`
-- of nvme_driver.cpp. A `uint32_t` mask is written out where the source negates an `int`.
pub mod Ready
use mcmqhost.Prelude.{
  ℕ, ◌+◌, ◌-◌, ◌%◌, Bool, true, false, List, [], ◌∷◌, ◌==◌, if◌then◌else◌, bit_and, bit_or, ltb,
  shr, shl, u32_mod,
}
use mcmqhost.Nvme.World.{
  M, done, fail, device_io, bad_csts, unsupported_page_size, blocked, throw, ◌>>=◌, ◌>>◌, get,
  modify, link_readq, link_writel,
}

abbrev pub reg_cap : ℕ
reg_cap = 0x0000

abbrev pub reg_cc : ℕ
reg_cc = 0x0014

abbrev pub all_ones : ℕ
all_ones = u32_mod - 1

abbrev pub cc_enable : ℕ
cc_enable = 1

abbrev pub cc_shn_normal : ℕ
cc_shn_normal = shl 1 14

abbrev pub cc_shn_mask : ℕ
cc_shn_mask = shl 3 14

-- `NVME_CC_IOSQES | NVME_CC_IOCQES`.
abbrev pub cc_entry_sizes : ℕ
cc_entry_sizes = bit_or (shl 6 16) (shl 4 20)

-- The loop of `wait_ready`, over the values of the status register.
unfoldable pub poll_ready : ℕ → List ℕ → M (Unit {0})
poll_ready bit [] w = fail blocked (record w { reads = [] })
poll_ready bit (csts ∷ rest) w =
    let again = poll_ready bit rest w in
    let w' = record w { reads = rest } in
    if csts == all_ones
    then fail (device_io bad_csts) w'
    else (if bit_and csts 1 == bit then done tt w' else again)

unfoldable pub wait_ready : Bool → M (Unit {0})
unfolding poll_ready
wait_ready enabled w = poll_ready (if enabled then 1 else 0) w.reads w

-- `ctrl_config &= ~mask`.
abbrev pub clear_bits : ℕ → ℕ → ℕ
clear_bits mask config = bit_and config (all_ones - mask)

abbrev pub set_config : ℕ → M (Unit {0})
set_config config = modify (λ w. record w { ctrl_config = config })

unfoldable pub disable_controller : M (Unit {0})
unfolding wait_ready
disable_controller = do
  w ← get
  let config = clear_bits cc_enable (clear_bits cc_shn_mask w.ctrl_config)
  set_config config
  link_writel reg_cc config
  wait_ready false

unfoldable pub shutdown : M (Unit {0})
shutdown = do
  w ← get
  let config = bit_or (clear_bits cc_shn_mask w.ctrl_config) cc_shn_normal
  set_config config
  link_writel reg_cc config

-- `NVME_CAP_MPSMIN`.
abbrev pub cap_mpsmin : ℕ → ℕ
cap_mpsmin cap = shr cap 48 % 16

-- The page shift is 12, so its field is 0, as are `NVME_CC_CSS_NVM`, `NVME_CC_AMS_RR` and
-- `NVME_CC_SHN_NONE`.
unfoldable pub enable_controller : M (Unit {0})
unfolding wait_ready
enable_controller = do
  cap ← link_readq reg_cap
  modify (λ w. record w { ctrl_cap = cap })
  let config = bit_or cc_entry_sizes cc_enable
  let go = (do
    modify (λ w. record w { ctrl_page_size = shl 1 12; ctrl_config = config })
    link_writel reg_cc config
    wait_ready true)
  if ltb 12 (cap_mpsmin cap + 12) then throw (device_io unsupported_page_size) else go
