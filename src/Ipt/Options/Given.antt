-- ===== src/Ipt/Options/Given.antt =====
-- bin/ipt/main.cc: the options of the command line (GetIptConfig).
use gdbserver.Base.{
  Bool, true, Option, none, some, List, [], ◌∷◌, Bytes, bytes_eq, if◌then◌else◌, ◌>>=◌, codes,
}
use gdbserver.Ftl.{Ftl}
use gdbserver.Ipt.{Mode, cpus, threads}
use gdbserver.Ipt.Config.{IptConfig}
use gdbserver.Ipt.Options.{parse_config_option}

-- ftl::CommandLine: the options with their values in order, the value that GetOptionValue finds, HasOption, and the
-- arguments that are no options.
pub record CommandLine : Type 0 where
  pub options : List (Bytes × Bytes)
  pub get_option_value : Bytes → Option Bytes
  pub has_option : Bytes → Bool
  pub positional_args : List Bytes

-- An option that is read if it is given.
abbrev pub if_given :
    CommandLine → Bytes → (Bytes → Option IptConfig) → IptConfig → Option IptConfig
if_given cl name set config = elim (cl.get_option_value name) [
  | none ↦ some config
  | some arg ↦ set arg
]

unfoldable pub parse_mode : Bytes → Option Mode
unfolding bytes_eq
parse_mode arg =
    if bytes_eq arg (codes "cpu")
    then some cpus
    else if bytes_eq arg (codes "thread")
    then some threads
    else none

unfoldable pub set_circular : CommandLine → IptConfig → IptConfig
set_circular cl config =
    if cl.has_option (codes "circular") then record config { is_circular = true } else config

unfoldable pub set_trace_mode : CommandLine → IptConfig → Option IptConfig
set_trace_mode cl config =
    if_given cl (codes "mode")
      (λ arg. do mode ← parse_mode arg; some (record config { mode = mode })) config

unfoldable pub set_output_path_prefix : CommandLine → IptConfig → IptConfig
set_output_path_prefix cl config = elim (cl.get_option_value (codes "output-path-prefix")) [
  | none ↦ config
  | some prefix ↦ record config { output_path_prefix = prefix }
]

module _ (f : Ftl) where
  -- The loop of GetIptConfig over the options, of which `--config` may be given several times.
  unfoldable pub config_options : IptConfig → List (Bytes × Bytes) → Option IptConfig
  config_options config [] = some config
  config_options config ((name, value) ∷ options) = do
    config' ←
        if bytes_eq name (codes "config") then parse_config_option f config value else some config
    config_options config' options

  -- The parts of GetIptConfig, one for each option.
  unfoldable pub set_buffer_order : CommandLine → IptConfig → Option IptConfig
  set_buffer_order cl config =
      if_given cl (codes "buffer-order")
        (λ arg. do order ← f.decimal_to_u64 arg; some (record config { buffer_order = order }))
        config

  unfoldable pub set_num_buffers : CommandLine → IptConfig → Option IptConfig
  set_num_buffers cl config =
      if_given cl (codes "num-buffers")
        (λ arg. do count ← f.decimal_to_u64 arg; some (record config { num_buffers = count }))
        config

  -- GetIptConfig, of what the constructor of IptConfig gives.
  unfoldable pub get_ipt_config : CommandLine → IptConfig → Option IptConfig
  get_ipt_config cl config0 = do
    config1 ← set_buffer_order cl config0
    config2 ← set_trace_mode cl (set_circular cl config1)
    config3 ← set_num_buffers cl config2
    config4 ← config_options config3 cl.options
    some (set_output_path_prefix cl config4)
