-- ===== src/Ipt/Options.antt =====
-- bin/ipt/main.cc: the options that set the parameters of a trace. A value that is refused ends the program, so that
-- what was set before it does not matter: `none`.
pub mod Settings
pub mod Given
mod Masked
mod Held
mod Texts
pub mod Parsed
pub mod Aligned
use gdbserver.Base.{
  ℕ, ◌==◌, ltb, Bool, true, false, not, ◌||◌, ◌&&◌, Option, none, some, List, [], ◌∷◌, Bytes,
  bytes_eq, substr, drop, length, bit_and, if◌then◌else◌, ◌>>=◌, ◌>>◌, guard, codes,
}
use gdbserver.Ftl.{Ftl}
use gdbserver.Ipt.{Mode, cpus, threads}
use gdbserver.Ipt.Config.{AddrFilter, AddrRange, IptConfig}

-- BeginsWith: what stands behind the prefix.
unfoldable pub begins_with : Bytes → Bytes → Option Bytes
unfolding bytes_eq
begins_with str prefix =
    let prefix_size = length prefix in
    if ltb (length str) prefix_size
    then none
    else if not (bytes_eq (substr str 0 prefix_size) prefix)
    then none
    else some (drop prefix_size str)

-- ParseFlag
unfoldable pub parse_flag : Bytes → Option Bool
unfolding bytes_eq
parse_flag arg =
    if bytes_eq arg (codes "on")
    then some true
    else if bytes_eq arg (codes "off")
    then some false
    else none

-- ParseAddrConfig
unfoldable pub parse_addr_config : Bytes → Option AddrFilter
unfolding bytes_eq
parse_addr_config arg =
    if bytes_eq arg (codes "off")
    then some AddrFilter.off
    else if bytes_eq arg (codes "enable")
    then some AddrFilter.enable
    else if bytes_eq arg (codes "stop")
    then some AddrFilter.stop
    else none

-- The test of ParseNumber for a number in hexadecimal, with what stands behind its prefix.
unfoldable pub hex_digits : Bytes → Option Bytes
hex_digits (z ∷ x ∷ c ∷ s) = if z == b'0' && (x == b'x' || x == b'X') then some (c ∷ s) else none
hex_digits _ = none

-- The lower 5 bits of CR3_MATCH MSR are reserved.
abbrev pub cr3_match_reserved_mask : ℕ
cr3_match_reserved_mask = 0x1f

-- The options that have a value, and an option that may stand for itself or be followed by `on` or `off`.
abbrev pub with_value : {C : Type 0} → Bytes → Bytes → (Bytes → Option C) → Option C → Option C
with_value o prefix parse otherwise = elim (begins_with o prefix) [
  | none ↦ otherwise
  | some arg ↦ parse arg
]

abbrev pub with_parsed :
    {A C : Type 0} → Bytes → Bytes → (Bytes → Option A) → (A → C) → Option C → Option C
with_parsed o prefix parse set otherwise =
    with_value o prefix (λ arg. do value ← parse arg; some (set value)) otherwise

abbrev pub with_flag : {C : Type 0} → Bytes → Bytes → Bytes → (Bool → C) → Option C → Option C
with_flag o name prefix set otherwise =
    if bytes_eq o name then some (set true) else with_parsed o prefix parse_flag set otherwise

module _ (f : Ftl) where
  -- ParseNumber
  unfoldable pub parse_number : Bytes → Option ℕ
  parse_number arg = elim (hex_digits arg) [
    | some digits ↦ f.string_to_u64 digits
    | none ↦ f.decimal_to_u64 arg
  ]

  -- ParseCr3Match
  unfoldable pub parse_cr3_match : Bytes → Option ℕ
  parse_cr3_match arg = if bytes_eq arg (codes "off") then some 0 else (do
    value ← parse_number arg
    guard (bit_and value cr3_match_reserved_mask == 0)
    some value)

  -- The end of ParseAddrRange.
  unfoldable pub parse_ends : Bytes → Bytes → Bytes → Option AddrRange
  parse_ends elf begin end = do
    begin' ← parse_number begin
    end' ← parse_number end
    some (record { elf = elf; begin = begin'; end = end' })

  -- ParseAddrRange, of the value that the range has.
  unfoldable pub parse_addr_range : Bytes → AddrRange → Option AddrRange
  parse_addr_range arg range = elim (f.split_trimmed arg b',') [
    | [] ↦ none
    | a ∷ r ↦ elim r [
      | [] ↦ none
      | b ∷ r' ↦ elim r' [
        | [] ↦ parse_ends range.elf a b
        | c ∷ more ↦ elim more [ [] ↦ parse_ends a b c | _ ∷ _ ↦ none ]
      ]
    ]
  ]

  -- ParseFreqValue
  abbrev pub parse_freq_value : Bytes → Option ℕ
  parse_freq_value arg = f.decimal_to_u32 arg

  -- The body of the loop of ParseConfigOption.
  unfoldable pub parse_config : IptConfig → Bytes → Option IptConfig
  parse_config config o =
      with_parsed o (codes "addr0=") parse_addr_config (λ value. record config { addr0 = value })
        (with_parsed o (codes "addr0-range=") (λ arg. parse_addr_range arg config.addr_range0)
          (λ value. record config { addr_range0 = value })
          (with_parsed o (codes "addr1=") parse_addr_config
            (λ value. record config { addr1 = value })
            (with_parsed o (codes "addr1-range=") (λ arg. parse_addr_range arg config.addr_range1)
              (λ value. record config { addr_range1 = value })
              (with_flag o (codes "branch") (codes "branch=")
                (λ value. record config { branch = value })
                (with_parsed o (codes "cr3-match=") parse_cr3_match
                  (λ value. record config { cr3_match = value; cr3_match_set = true })
                  (with_flag o (codes "cyc") (codes "cyc=") (λ value. record config { cyc = value })
                    (with_parsed o (codes "cyc-thresh=") parse_freq_value
                      (λ value. record config { cyc_thresh = value })
                      (with_flag o (codes "mtc") (codes "mtc=")
                        (λ value. record config { mtc = value })
                        (with_parsed o (codes "mtc-freq=") parse_freq_value
                          (λ value. record config { mtc_freq = value })
                          (with_flag o (codes "os") (codes "os=")
                            (λ value. record config { os = value })
                            (with_parsed o (codes "psb-freq=") parse_freq_value
                              (λ value. record config { psb_freq = value })
                              (with_flag o (codes "retc") (codes "retc=")
                                (λ value. record config { retc = value })
                                (with_flag o (codes "tsc") (codes "tsc=")
                                  (λ value. record config { tsc = value })
                                  (with_flag o (codes "user") (codes "user=")
                                    (λ value. record config { user = value }) none))))))))))))))

  -- The loop of ParseConfigOption.
  unfoldable pub parse_configs : IptConfig → List Bytes → Option IptConfig
  parse_configs config [] = some config
  parse_configs config (o ∷ os) = do config' ← parse_config config o; parse_configs config' os

  -- ParseConfigOption
  unfoldable pub parse_config_option : IptConfig → Bytes → Option IptConfig
  parse_config_option config options_string =
      parse_configs config (f.split_trimmed options_string b';')
