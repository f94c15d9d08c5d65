-- ===== src/Tests/Options.antt =====
-- The command line of ipt at concrete inputs.
use gdbserver.Hex.{hex_char_to_byte}
use gdbserver.Scanf.{scan_unsigned}
use gdbserver.Base.{bytes_eq, ◌≡◌, true, some, none, List, [], ◌∷◌, codes, map, refl, arith}
use gdbserver.Scanf.{starts_digit, scan_digits}
use gdbserver.Ftl.{join}
use gdbserver.Ftl.Sample.{sample, sample_laws}
use gdbserver.Ipt.Config.{AddrFilter, IptConfig, default_config}
use gdbserver.Ipt.Options.{
  parse_flag, parse_cr3_match, hex_digits, parse_number, parse_ends, parse_addr_range,
  parse_addr_config, begins_with, parse_config, parse_configs, parse_config_option,
}
use gdbserver.Ipt.Options.Given.{
  set_output_path_prefix, config_options, set_num_buffers, set_trace_mode, set_circular,
  set_buffer_order, CommandLine, get_ipt_config,
}
use gdbserver.Ipt.Options.Settings.{
  apply_flag, apply, Flag, Setting, set_flag, set_addr0, set_addr0_range, set_cr3_match,
  set_mtc_freq, apply_all, write_setting,
}
use gdbserver.Ipt.Options.Parsed.{parse_config_option-join}
use gdbserver.Ipt.Options.Aligned.{IsAligned, get_ipt_config-IsAligned}
use gdbserver.Tests.Tracing.{config}

abbrev settings : List Setting
settings =
    set_flag Flag.cyc true
    ∷ set_addr0 AddrFilter.enable
    ∷ set_addr0_range 0x1000 0x2fff
    ∷ set_cr3_match 0x20
    ∷ set_mtc_freq 3
    ∷ []

parse_config_option-join_example :
    parse_config_option sample config (join b';' (map (write_setting sample) settings))
    ≡ some (apply_all settings config)
parse_config_option-join_example =
    parse_config_option-join sample sample_laws settings config
      (tt, (tt, ((omega arith, omega arith), ((omega arith, refl), (omega arith, tt)))))

-- As a user writes it.
settings_parsed :
    parse_config_option sample config
      (codes "cyc;addr0=enable;addr0-range=0x1000,0x2fff;cr3-match=32;mtc-freq=3")
    ≡ some (apply_all settings config)
unfolding parse_config_option parse_configs parse_config begins_with parse_addr_config
    parse_addr_range parse_ends parse_number hex_digits parse_cr3_match scan_unsigned starts_digit
    scan_digits sample apply_all apply apply_flag bytes_eq hex_char_to_byte parse_flag
settings_parsed = refl

-- A range of three parts names an ELF file, and one whose name begins another name is not taken for it.
elf_parsed :
    parse_config_option sample config (codes "addr1-range=libc,0x10,0x20;cyc-thresh=15")
    ≡ some (record config {
      addr_range1 = record { elf = codes "libc"; begin = 0x10; end = 0x20 };
      cyc_thresh = 15;
    })
unfolding parse_config_option parse_configs parse_config begins_with parse_addr_config
    parse_addr_range parse_ends parse_number hex_digits parse_cr3_match scan_unsigned starts_digit
    scan_digits sample bytes_eq hex_char_to_byte parse_flag
elf_parsed = refl

reserved_bits_refused : parse_config_option sample config (codes "cr3-match=0x21") ≡ none
unfolding parse_config_option parse_configs parse_config begins_with parse_addr_config
    parse_addr_range parse_ends parse_number hex_digits parse_cr3_match scan_unsigned starts_digit
    scan_digits sample bytes_eq hex_char_to_byte parse_flag
reserved_bits_refused = refl

-- `ipt --circular --config=cr3-match=0x40 --control start`
abbrev command_line : CommandLine
command_line = record {
  options =
      (codes "circular", [])
      ∷ (codes "config", codes "cr3-match=0x40")
      ∷ (codes "control", [])
      ∷ [];
  get_option_value = λ name. none;
  has_option = λ name. bytes_eq name (codes "circular");
  positional_args = codes "start" ∷ [];
}

abbrev given : IptConfig
given = record config { is_circular = true; cr3_match = 0x40; cr3_match_set = true }

command_line_read : get_ipt_config sample command_line config ≡ some given
unfolding parse_config_option parse_configs parse_config begins_with parse_addr_config
    parse_addr_range parse_ends parse_number hex_digits parse_cr3_match scan_unsigned starts_digit
    scan_digits sample bytes_eq hex_char_to_byte parse_flag get_ipt_config set_buffer_order
    set_circular set_trace_mode set_num_buffers config_options set_output_path_prefix default_config
command_line_read = refl

get_ipt_config-IsAligned_example : IsAligned config given
unfolding default_config
get_ipt_config-IsAligned_example =
    get_ipt_config-IsAligned sample config command_line given (refl, (λ e. refl), refl, refl)
      command_line_read
