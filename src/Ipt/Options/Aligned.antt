-- ===== src/Ipt/Options/Aligned.antt =====
-- bin/ipt/main.cc: what holds of every configuration that the command line can give.
use gdbserver.Base.{
  ℕ, ◌%◌, ◌≡◌, Bool, true, false, Option, none, some, List, [], ◌∷◌, Bytes, bytes_eq, if◌then◌else◌,
  ◌>>=◌, codes, arith,
}
use gdbserver.Ftl.{Ftl}
use gdbserver.Ipt.Config.{IptConfig}
use gdbserver.Ipt.Options.{
  parse_addr_range, parse_addr_config, parse_cr3_match, parse_config, parse_configs,
  parse_config_option,
}
use gdbserver.Ipt.Options.Given.{
  parse_mode, set_trace_mode, set_num_buffers, set_output_path_prefix, set_buffer_order,
  set_circular, CommandLine, if_given, config_options, get_ipt_config,
}
use gdbserver.Ipt.Options.Masked.{bit_and-mask}
use gdbserver.Ipt.Options.Held.{
  Holds, of_none, of_some, bind-Holds, Holds-some, with_parsed-Holds, with_flag-Holds,
}

-- A configuration whose CR3_MATCH has no reserved bit, and is zero unless the command line has set it. The machine's
-- numbers are those of the configuration before.
abbrev pub IsAligned : IptConfig → IptConfig → Type 0
IsAligned config0 c =
    (c.cr3_match % 32 ≡ 0)
    × (c.cr3_match_set ≡ false → c.cr3_match ≡ 0)
    × (c.num_cpus ≡ config0.num_cpus)
    × (c.max_threads ≡ config0.max_threads)

module _ (f : Ftl) (config0 : IptConfig) where
  parse_cr3_match-aligned :
      (arg : Bytes) (value : ℕ) → parse_cr3_match f arg ≡ some value → value % 32 ≡ 0
  unfolding parse_cr3_match
  parse_cr3_match-aligned arg value h = let m = bit_and-mask in grind (arith, bit_and-mask value)

  parse_config-Holds :
      (o : Bytes) (config : IptConfig)
      → IsAligned config0 config
      → Holds (IsAligned config0) (parse_config f config o)
  unfolding parse_config
  parse_config-Holds o config h =
      with_parsed-Holds (IsAligned config0) o _ parse_addr_config (λ a. record config { addr0 = a })
        _ (λ a _ _. h)
        (with_parsed-Holds (IsAligned config0) o _
          (λ arg. parse_addr_range f arg config.addr_range0)
          (λ a. record config { addr_range0 = a }) _ (λ a _ _. h)
          (with_parsed-Holds (IsAligned config0) o _ parse_addr_config
            (λ a. record config { addr1 = a }) _ (λ a _ _. h)
            (with_parsed-Holds (IsAligned config0) o _
              (λ arg. parse_addr_range f arg config.addr_range1)
              (λ a. record config { addr_range1 = a }) _ (λ a _ _. h)
              (with_flag-Holds (IsAligned config0) o _ _ (λ a. record config { branch = a }) _
                (λ a. h)
                (with_parsed-Holds (IsAligned config0) o _ (parse_cr3_match f)
                  (λ a. record config { cr3_match = a; cr3_match_set = true }) _
                  (λ value arg e. (
                    parse_cr3_match-aligned arg value e,
                    (λ (u : true ≡ false). absurd (cc)),
                    h.2,
                    h.3,
                  ))
                  (with_flag-Holds (IsAligned config0) o _ _ (λ a. record config { cyc = a }) _
                    (λ a. h)
                    (with_parsed-Holds (IsAligned config0) o _ f.decimal_to_u32
                      (λ a. record config { cyc_thresh = a }) _ (λ a _ _. h)
                      (with_flag-Holds (IsAligned config0) o _ _ (λ a. record config { mtc = a }) _
                        (λ a. h)
                        (with_parsed-Holds (IsAligned config0) o _ f.decimal_to_u32
                          (λ a. record config { mtc_freq = a }) _ (λ a _ _. h)
                          (with_flag-Holds (IsAligned config0) o _ _ (λ a. record config { os = a })
                            _ (λ a. h)
                            (with_parsed-Holds (IsAligned config0) o _ f.decimal_to_u32
                              (λ a. record config { psb_freq = a }) _ (λ a _ _. h)
                              (with_flag-Holds (IsAligned config0) o _ _
                                (λ a. record config { retc = a }) _ (λ a. h)
                                (with_flag-Holds (IsAligned config0) o _ _
                                  (λ a. record config { tsc = a }) _ (λ a. h)
                                  (with_flag-Holds (IsAligned config0) o _ _
                                    (λ a. record config { user = a }) _ (λ a. h)
                                    of_none))))))))))))))

  then_Holds :
      (o : Option IptConfig) (k : IptConfig → Option IptConfig)
      → Holds (IsAligned config0) o
      → ((config : IptConfig) → IsAligned config0 config → Holds (IsAligned config0) (k config))
      → Holds (IsAligned config0) (o >>= k)
  then_Holds _ k of_none h = of_none
  then_Holds _ k (of_some config a) h = h config a

  if-Holds :
      (b : Bool) {x y : Option IptConfig}
      → Holds (IsAligned config0) x
      → Holds (IsAligned config0) y
      → Holds (IsAligned config0) (if b then x else y)
  if-Holds true h k = h
  if-Holds false h k = k

  if_given-Holds :
      (cl : CommandLine) (name : Bytes) (set : Bytes → Option IptConfig) (config : IptConfig)
      → ((arg : Bytes) → Holds (IsAligned config0) (set arg))
      → IsAligned config0 config
      → Holds (IsAligned config0) (if_given cl name set config)
  if_given-Holds cl name set config h k = go (cl.get_option_value name)
    where
      go :
          (arg : Option Bytes)
          → Holds
              (IsAligned config0)
              (elim arg as (λ _. Option IptConfig) [ none ↦ some config | some arg ↦ set arg ])
      go none = of_some config k
      go (some arg) = h arg

  parse_configs-Holds :
      (os : List Bytes) (config : IptConfig)
      → IsAligned config0 config
      → Holds (IsAligned config0) (parse_configs f config os)
  unfolding parse_configs
  parse_configs-Holds [] config h = of_some config h
  parse_configs-Holds (o ∷ os) config h =
      then_Holds (parse_config f config o) _ (parse_config-Holds o config h)
        (parse_configs-Holds os)

  config_options-Holds :
      (options : List (Bytes × Bytes)) (config : IptConfig)
      → IsAligned config0 config
      → Holds (IsAligned config0) (config_options f config options)
  unfolding config_options parse_config_option
  config_options-Holds [] config h = of_some config h
  config_options-Holds ((name, value) ∷ options) config h =
      then_Holds _ _
        (if-Holds (bytes_eq name (codes "config"))
          (parse_configs-Holds (f.split_trimmed value b';') config h) (of_some config h))
        (config_options-Holds options)

  given-Holds :
      (cl : CommandLine) (config : IptConfig)
      → IsAligned config0 config
      → Holds (IsAligned config0) (set_buffer_order f cl config)
        × Holds (IsAligned config0) (set_num_buffers f cl config)
        × Holds (IsAligned config0) (set_trace_mode cl config)
  unfolding set_buffer_order set_num_buffers set_trace_mode
  given-Holds cl config h = (
    if_given-Holds cl _ _ config
        (λ arg.
          bind-Holds (IsAligned config0) (f.decimal_to_u64 arg)
            (λ order. some (record config { buffer_order = order })) (λ a _. of_some _ h))
        h,
    if_given-Holds cl _ _ config
        (λ arg.
          bind-Holds (IsAligned config0) (f.decimal_to_u64 arg)
            (λ count. some (record config { num_buffers = count })) (λ a _. of_some _ h))
        h,
    if_given-Holds cl _ _ config
        (λ arg.
          bind-Holds (IsAligned config0) (parse_mode arg)
            (λ mode. some (record config { mode = mode })) (λ a _. of_some _ h))
        h,
  )

  set_circular-IsAligned :
      (cl : CommandLine) (config : IptConfig)
      → IsAligned config0 config
      → IsAligned config0 (set_circular cl config)
  unfolding set_circular
  set_circular-IsAligned cl config h = go (cl.has_option (codes "circular"))
    where
      go :
          (b : Bool)
          → IsAligned config0 (if b then record config { is_circular = true } else config)
      go true = h
      go false = h

  set_output_path_prefix-IsAligned :
      (cl : CommandLine) (config : IptConfig)
      → IsAligned config0 config
      → IsAligned config0 (set_output_path_prefix cl config)
  unfolding set_output_path_prefix
  set_output_path_prefix-IsAligned cl config h =
      go (cl.get_option_value (codes "output-path-prefix"))
    where
      go :
          (arg : Option Bytes)
          → IsAligned config0 (elim arg as (λ _. IptConfig) [
            | none ↦ config
            | some prefix ↦ record config { output_path_prefix = prefix }
          ])
      go none = h
      go (some prefix) = h

  get_ipt_config-Holds :
      (cl : CommandLine)
      → IsAligned config0 config0
      → Holds (IsAligned config0) (get_ipt_config f cl config0)
  unfolding get_ipt_config
  get_ipt_config-Holds cl h = then_Holds _ _ (given-Holds cl config0 h).0 (λ config1 h1.
      then_Holds _ _ (given-Holds cl _ (set_circular-IsAligned cl config1 h1)).2 (λ config2 h2.
        then_Holds _ _ (given-Holds cl config2 h2).1 (λ config3 h3.
          then_Holds _ _ (config_options-Holds cl.options config3 h3)
            (λ config4 h4. of_some _ (set_output_path_prefix-IsAligned cl config4 h4)))))

  -- Whatever the command line is: if GetIptConfig gives a configuration, and the one that it begins with has a value for
  -- CR3_MATCH with no reserved bit (the lower five), zero unless it is marked as set, then so has the one that it
  -- gives, which has the same numbers of cpus and of threads.
  pub get_ipt_config-IsAligned :
      (cl : CommandLine) (config : IptConfig)
      → IsAligned config0 config0
      → get_ipt_config f cl config0 ≡ some config
      → IsAligned config0 config
  get_ipt_config-IsAligned cl config h e =
      Holds-some (IsAligned config0) (get_ipt_config f cl config0) config
        (get_ipt_config-Holds cl h) e
