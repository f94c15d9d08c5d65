-- ===== src/Ipt/Options/Settings.antt =====
-- bin/ipt/main.cc: the settings of --config as values, how the usage text writes each, and what it sets.
use gdbserver.Base.{ℕ, ◌%◌, ◌<◌, ◌^◌, ◌≡◌, Bool, true, false, List, [], ◌∷◌, ◌++◌, Bytes, codes}
use gdbserver.Ftl.{Ftl}
use gdbserver.Ipt.Config.{AddrFilter, IptConfig}

-- The settings that are on or off.
pub data Flag : Type 0 where
  branch cyc mtc os retc tsc user : Flag

-- A setting; a range is of addresses of the process.
pub data Setting : Type 0 where
  set_flag : Flag → Bool → Setting
  set_addr0 : AddrFilter → Setting
  set_addr1 : AddrFilter → Setting
  set_addr0_range : ℕ → ℕ → Setting
  set_addr1_range : ℕ → ℕ → Setting
  set_cr3_match : ℕ → Setting
  set_cyc_thresh : ℕ → Setting
  set_mtc_freq : ℕ → Setting
  set_psb_freq : ℕ → Setting

-- The values that a setting can have.
abbrev pub IsValid : Setting → Type 0
IsValid (set_addr0_range begin end) = (begin < 2 ^ 64) × (end < 2 ^ 64)
IsValid (set_addr1_range begin end) = (begin < 2 ^ 64) × (end < 2 ^ 64)
IsValid (set_cr3_match value) = (value < 2 ^ 64) × (value % 32 ≡ 0)
IsValid (set_cyc_thresh value) = value < 2 ^ 32
IsValid (set_mtc_freq value) = value < 2 ^ 32
IsValid (set_psb_freq value) = value < 2 ^ 32
IsValid _ = Unit

unfoldable pub flag_name : Flag → Bytes
flag_name branch = codes "branch"
flag_name cyc = codes "cyc"
flag_name mtc = codes "mtc"
flag_name os = codes "os"
flag_name retc = codes "retc"
flag_name tsc = codes "tsc"
flag_name user = codes "user"

unfoldable pub write_flag : Bool → Bytes
write_flag true = codes "=on"
write_flag false = codes "=off"

unfoldable pub write_filter : AddrFilter → Bytes
write_filter AddrFilter.off = codes "off"
write_filter AddrFilter.enable = codes "enable"
write_filter AddrFilter.stop = codes "stop"

unfoldable pub apply_flag : Flag → Bool → IptConfig → IptConfig
apply_flag branch value config = record config { branch = value }
apply_flag cyc value config = record config { cyc = value }
apply_flag mtc value config = record config { mtc = value }
apply_flag os value config = record config { os = value }
apply_flag retc value config = record config { retc = value }
apply_flag tsc value config = record config { tsc = value }
apply_flag user value config = record config { user = value }

unfoldable pub apply : Setting → IptConfig → IptConfig
apply (set_flag name value) config = apply_flag name value config
apply (set_addr0 filter) config = record config { addr0 = filter }
apply (set_addr1 filter) config = record config { addr1 = filter }
apply (set_addr0_range begin end) config = record config {
  addr_range0 = record config.addr_range0 { begin = begin; end = end };
}
apply (set_addr1_range begin end) config = record config {
  addr_range1 = record config.addr_range1 { begin = begin; end = end };
}
apply (set_cr3_match value) config = record config { cr3_match = value; cr3_match_set = true }
apply (set_cyc_thresh value) config = record config { cyc_thresh = value }
apply (set_mtc_freq value) config = record config { mtc_freq = value }
apply (set_psb_freq value) config = record config { psb_freq = value }

-- Values are applied in order.
unfoldable pub apply_all : List Setting → IptConfig → IptConfig
apply_all [] config = config
apply_all (setting ∷ settings) config = apply_all settings (apply setting config)

module _ (f : Ftl) where
  unfoldable pub write_number : ℕ → Bytes
  write_number n = codes "0x" ++ f.number_to_hex n

  unfoldable pub write_range : ℕ → ℕ → Bytes
  write_range begin end = write_number begin ++ b',' ∷ write_number end

  unfoldable pub write_setting : Setting → Bytes
  write_setting (set_flag name value) = flag_name name ++ write_flag value
  write_setting (set_addr0 filter) = codes "addr0=" ++ write_filter filter
  write_setting (set_addr1 filter) = codes "addr1=" ++ write_filter filter
  write_setting (set_addr0_range begin end) = codes "addr0-range=" ++ write_range begin end
  write_setting (set_addr1_range begin end) = codes "addr1-range=" ++ write_range begin end
  write_setting (set_cr3_match value) = codes "cr3-match=" ++ write_number value
  write_setting (set_cyc_thresh value) = codes "cyc-thresh=" ++ f.number_to_decimal value
  write_setting (set_mtc_freq value) = codes "mtc-freq=" ++ f.number_to_decimal value
  write_setting (set_psb_freq value) = codes "psb-freq=" ++ f.number_to_decimal value
