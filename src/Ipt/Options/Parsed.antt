-- ===== src/Ipt/Options/Parsed.antt =====
-- bin/ipt/main.cc: ParseConfigOption on settings that are written out.
use gdbserver.Base.{
  inl, ◌≢◌, Bool, ℕ, ◌<◌, ◌^◌, ◌≡◌, ◌%◌, true, false, Option, none, some, List, [], ◌∷◌, ◌++◌,
  Bytes, ◌==◌, if◌then◌else◌, bytes_eq, codes, map, refl, arith, All,
}
use gdbserver.Ipt.Options.Masked.{bit_and-mask}
use gdbserver.Ipt.Options.Texts.{some_number, number-InPart, write_setting-IsPart}
use gdbserver.Ftl.{Ftl, FtlLaws, join, IsPart}
use gdbserver.Ipt.Config.{AddrRange, AddrFilter, IptConfig}
use gdbserver.Ipt.Options.{
  begins_with, parse_flag, parse_addr_config, hex_digits, parse_number, parse_cr3_match, parse_ends,
  parse_addr_range, parse_config, parse_configs, parse_config_option,
}
use gdbserver.Ipt.Options.Settings.{
  Flag, Setting, set_flag, set_addr0, set_addr1, set_addr0_range, set_addr1_range, set_cr3_match,
  set_cyc_thresh, set_mtc_freq, set_psb_freq, IsValid, flag_name, write_flag, write_filter,
  apply_flag, apply, apply_all, write_number, write_range, write_setting,
}

-- BeginsWith, one byte after the other.
strip : Bytes → Bytes → Option Bytes
strip s [] = some s
strip [] (p ∷ ps) = none
strip (c ∷ s) (p ∷ ps) = if c == p then strip s ps else none

begins_with-strip : (str prefix : Bytes) → begins_with str prefix ≡ strip str prefix
unfolding begins_with strip bytes_eq
begins_with-strip s [] = ground arith
begins_with-strip [] (p ∷ ps) = ground arith
begins_with-strip (c ∷ s) (p ∷ ps) = ground (arith, begins_with-strip s ps)

module _ (f : Ftl) (laws : FtlLaws f) where
  parse_number_lem : (n : ℕ) → n < 2 ^ 64 → parse_number f (write_number f n) ≡ some n
  unfolding parse_number write_number hex_digits
  parse_number_lem n h = go (f.number_to_hex n) (laws.hex_some n) (laws.u64_hex n h)
    where
      go :
          (s : Bytes)
          → s ≢ []
          → f.string_to_u64 s ≡ some n
          → parse_number f (codes "0x" ++ s) ≡ some n
      go [] some_s e = absurd (some_s refl)
      go (c ∷ s) some_s e = e

  parse_cr3_match_lem :
      (n : ℕ) → n < 2 ^ 64 → n % 32 ≡ 0 → parse_cr3_match f (write_number f n) ≡ some n
  unfolding parse_cr3_match bytes_eq write_number
  parse_cr3_match_lem n h aligned =
      let e = parse_number_lem n h in let m = bit_and-mask n in ground (arith, e, m)

  parse_addr_range_lem :
      (begin end : ℕ) (range : AddrRange)
      → begin < 2 ^ 64
      → end < 2 ^ 64
      → parse_addr_range f (write_range f begin end) range
        ≡ some (record range { begin = begin; end = end })
  unfolding parse_addr_range write_range parse_ends
  parse_addr_range_lem begin end range hb he =
      let parts : All (IsPart b',') (write_number f begin ∷ write_number f end ∷ []) =
        (part begin, (part end, tt)) in
      let e = laws.split_trimmed_join b',' (write_number f begin ∷ write_number f end ∷ []) parts in
      let b = parse_number_lem begin hb in
      let n = parse_number_lem end he in ground (arith, e, b, n)
    where
      part : (n : ℕ) → IsPart b',' (write_number f n)
      part n = (some_number f laws n, number-InPart f laws b',' n (inl (omega arith)))

  module _ (config : IptConfig) where
    parse_flag_lem :
        (name : Flag) (value : Bool)
        → parse_config f config (flag_name name ++ write_flag value)
          ≡ some (apply_flag name value config)
    unfolding parse_config flag_name write_flag apply_flag bytes_eq parse_flag begins_with
    parse_flag_lem Flag.branch true = refl
    parse_flag_lem Flag.branch false = refl
    parse_flag_lem Flag.cyc true = refl
    parse_flag_lem Flag.cyc false = refl
    parse_flag_lem Flag.mtc true = refl
    parse_flag_lem Flag.mtc false = refl
    parse_flag_lem Flag.os true = refl
    parse_flag_lem Flag.os false = refl
    parse_flag_lem Flag.retc true = refl
    parse_flag_lem Flag.retc false = refl
    parse_flag_lem Flag.tsc true = refl
    parse_flag_lem Flag.tsc false = refl
    parse_flag_lem Flag.user true = refl
    parse_flag_lem Flag.user false = refl

    -- Each of the settings, as the usage text writes it.
    parse_setting :
        (s : Setting)
        → IsValid s
        → parse_config f config (write_setting f s) ≡ some (apply s config)
    unfolding parse_config bytes_eq strip write_setting apply parse_addr_config write_filter
    parse_setting (set_flag name value) v = parse_flag_lem name value
    parse_setting (set_addr0 AddrFilter.off) v = grind (arith, begins_with-strip)
    parse_setting (set_addr0 AddrFilter.enable) v = grind (arith, begins_with-strip)
    parse_setting (set_addr0 AddrFilter.stop) v = grind (arith, begins_with-strip)
    parse_setting (set_addr1 AddrFilter.off) v = grind (arith, begins_with-strip)
    parse_setting (set_addr1 AddrFilter.enable) v = grind (arith, begins_with-strip)
    parse_setting (set_addr1 AddrFilter.stop) v = grind (arith, begins_with-strip)
    parse_setting (set_addr0_range begin end) (hb, he) =
        let e = parse_addr_range_lem begin end config.addr_range0 hb he in
        grind (arith, begins_with-strip, e)
    parse_setting (set_addr1_range begin end) (hb, he) =
        let e = parse_addr_range_lem begin end config.addr_range1 hb he in
        grind (arith, begins_with-strip, e)
    parse_setting (set_cr3_match value) (small, aligned) =
        let e = parse_cr3_match_lem value small aligned in grind (arith, begins_with-strip, e)
    parse_setting (set_cyc_thresh value) small =
        let e = laws.u32_decimal value small in grind (arith, begins_with-strip, e)
    parse_setting (set_mtc_freq value) small =
        let e = laws.u32_decimal value small in grind (arith, begins_with-strip, e)
    parse_setting (set_psb_freq value) small =
        let e = laws.u32_decimal value small in grind (arith, begins_with-strip, e)

  parse_configs-map :
      (settings : List Setting) (config : IptConfig)
      → All IsValid settings
      → parse_configs f config (map (write_setting f) settings) ≡ some (apply_all settings config)
  unfolding parse_configs apply_all
  parse_configs-map [] config v = refl
  parse_configs-map (s ∷ settings) config (v, vs) =
      rw (parse_setting config s v) (parse_configs-map settings (apply s config) vs)

  -- Of every list of settings with values that fit (64 bits for addresses and for CR3_MATCH, which has no reserved bit,
  -- and 32 bits for the thresholds and frequencies), and every configuration: the settings written as the usage text
  -- says, with semicolons between them, are read by ParseConfigOption, which applies them in their order and changes
  -- nothing else.
  pub parse_config_option-join :
      (settings : List Setting) (config : IptConfig)
      → All IsValid settings
      → parse_config_option f config (join b';' (map (write_setting f) settings))
        ≡ some (apply_all settings config)
  unfolding parse_config_option
  parse_config_option-join settings config v =
      rw (laws.split_trimmed_join b';' (map (write_setting f) settings) (parts settings))
        (parse_configs-map settings config v)
    where
      parts : (settings : List Setting) → All (IsPart b';') (map (write_setting f) settings)
      parts [] = tt
      parts (s ∷ settings) = (write_setting-IsPart f laws s, parts settings)
