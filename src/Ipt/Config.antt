-- ===== src/Ipt/Config.antt =====
-- bin/ipt: the parameters of a trace (IptConfig of server.{h,cc}).
use gdbserver.Base.{
  [], ◌==◌, ℕ, ◌+◌, ◌*◌, ◌^◌, ◌%◌, ◌/◌, ◌<◌, ◌≡◌, Bool, true, false, not, Bytes, if◌then◌else◌,
  codes, arith,
}
use gdbserver.Ipt.{Mode, cpus, BufferConfig}

-- IptConfig::AddrFilter, and its number.
pub data AddrFilter : Type 0 where
  off : AddrFilter
  enable : AddrFilter
  stop : AddrFilter

unfoldable pub filter_number : AddrFilter → ℕ
filter_number off = 0
filter_number enable = 1
filter_number stop = 2

-- IptConfig::AddrRange
pub record AddrRange : Type 0 where
  pub elf : Bytes
  pub begin : ℕ
  pub end : ℕ

-- IptConfig. The two filters and ranges are fields of their own.
pub record IptConfig : Type 0 where
  pub mode : Mode
  pub num_cpus : ℕ
  pub max_threads : ℕ
  pub num_buffers : ℕ
  pub buffer_order : ℕ
  pub is_circular : Bool
  pub addr0 : AddrFilter
  pub addr1 : AddrFilter
  pub addr_range0 : AddrRange
  pub addr_range1 : AddrRange
  pub branch : Bool
  pub cr3_match : ℕ
  pub cr3_match_set : Bool
  pub cyc : Bool
  pub cyc_thresh : ℕ
  pub mtc : Bool
  pub mtc_freq : ℕ
  pub psb_freq : ℕ
  pub os : Bool
  pub user : Bool
  pub retc : Bool
  pub tsc : Bool
  pub output_path_prefix : Bytes

-- The constructor: `num_cpus` is what mx_system_get_num_cpus says. The numbers of the ranges are not set.
unfoldable pub default_config : ℕ → AddrRange → AddrRange → IptConfig
default_config num_cpus addr_range0 addr_range1 = record {
  mode = cpus;
  num_cpus = num_cpus;
  max_threads = 16;
  num_buffers = 16;
  buffer_order = 2;
  is_circular = false;
  addr0 = off;
  addr1 = off;
  addr_range0 = record addr_range0 { elf = [] };
  addr_range1 = record addr_range1 { elf = [] };
  branch = true;
  cr3_match = 0;
  cr3_match_set = false;
  cyc = false;
  cyc_thresh = 0;
  mtc = false;
  mtc_freq = 0;
  psb_freq = 0;
  os = true;
  user = true;
  retc = true;
  tsc = true;
  output_path_prefix = codes "/tmp/ptout";
}

-- `1 << bit`, if a flag is set.
unfoldable pub flag : Bool → ℕ → ℕ
flag set bit = if set then 2 ^ bit else 0

-- IptConfig::CtlMsr. The parts have no bits in common, so that `|=` adds them.
unfoldable pub ctl_msr : IptConfig → ℕ
ctl_msr c =
    flag c.cyc 1
    + flag c.os 2
    + flag c.user 3
    + flag (not (c.cr3_match == 0)) 7
    + flag c.mtc 9
    + flag c.tsc 10
    + flag (not c.retc) 11
    + flag c.branch 13
    + c.mtc_freq % 16 * 2 ^ 14
    + c.cyc_thresh % 16 * 2 ^ 19
    + c.psb_freq % 16 * 2 ^ 24
    + filter_number c.addr0 * 2 ^ 32
    + filter_number c.addr1 * 2 ^ 36

-- InitIptBufferConfig (control.cc)
unfoldable pub init_ipt_buffer_config : IptConfig → BufferConfig
init_ipt_buffer_config c = record {
  num_buffers = c.num_buffers;
  buffer_order = c.buffer_order;
  is_circular = c.is_circular;
  ctl = ctl_msr c;
  cr3_match = c.cr3_match;
  begin0 = c.addr_range0.begin;
  end0 = c.addr_range0.end;
  begin1 = c.addr_range1.begin;
  end1 = c.addr_range1.end;
}

-- A field of a register: `width` bits from a bit on.
abbrev pub field : ℕ → ℕ → ℕ → ℕ
field bit width msr = msr / 2 ^ bit % 2 ^ width

flag_small : (set : Bool) (bit : ℕ) → flag set bit ≡ flag set 0 * 2 ^ bit
unfolding flag
flag_small true bit = omega arith
flag_small false bit = omega arith

flag_bit : (set : Bool) → flag set 0 < 2
unfolding flag
flag_bit true = omega arith
flag_bit false = omega arith

filter_small : (f : AddrFilter) → filter_number f < 4
unfolding filter_number
filter_small off = omega arith
filter_small enable = omega arith
filter_small stop = omega arith

-- Of every configuration: the parts of the register that CtlMsr gives are the fields of IA32_RTIT_CTL, each at its place,
-- and all other bits of the register, also those between the fields, are zero.
pub ctl_msr_fields :
    (c : IptConfig)
    → (field 1 1 (ctl_msr c) ≡ flag c.cyc 0)
      × (field 2 1 (ctl_msr c) ≡ flag c.os 0)
      × (field 3 1 (ctl_msr c) ≡ flag c.user 0)
      × (field 7 1 (ctl_msr c) ≡ flag (not (c.cr3_match == 0)) 0)
      × (field 9 1 (ctl_msr c) ≡ flag c.mtc 0)
      × (field 10 1 (ctl_msr c) ≡ flag c.tsc 0)
      × (field 11 1 (ctl_msr c) ≡ flag (not c.retc) 0)
      × (field 13 1 (ctl_msr c) ≡ flag c.branch 0)
      × (field 14 4 (ctl_msr c) ≡ c.mtc_freq % 16)
      × (field 19 4 (ctl_msr c) ≡ c.cyc_thresh % 16)
      × (field 24 4 (ctl_msr c) ≡ c.psb_freq % 16)
      × (field 32 4 (ctl_msr c) ≡ filter_number c.addr0)
      × (field 36 4 (ctl_msr c) ≡ filter_number c.addr1)
      × (field 0 1 (ctl_msr c) ≡ 0)
      × (field 4 3 (ctl_msr c) ≡ 0)
      × (field 8 1 (ctl_msr c) ≡ 0)
      × (field 12 1 (ctl_msr c) ≡ 0)
      × (field 18 1 (ctl_msr c) ≡ 0)
      × (field 23 1 (ctl_msr c) ≡ 0)
      × (field 28 4 (ctl_msr c) ≡ 0)
      × (ctl_msr c < 2 ^ 40)
unfolding ctl_msr
ctl_msr_fields c =
    let a1 = flag_small c.cyc 1 in
    let a2 = flag_small c.os 2 in
    let a3 = flag_small c.user 3 in
    let a7 = flag_small (not (c.cr3_match == 0)) 7 in
    let a9 = flag_small c.mtc 9 in
    let a10 = flag_small c.tsc 10 in
    let a11 = flag_small (not c.retc) 11 in
    let a13 = flag_small c.branch 13 in
    let b1 = flag_bit c.cyc in
    let b2 = flag_bit c.os in
    let b3 = flag_bit c.user in
    let b7 = flag_bit (not (c.cr3_match == 0)) in
    let b9 = flag_bit c.mtc in
    let b10 = flag_bit c.tsc in
    let b11 = flag_bit (not c.retc) in
    let b13 = flag_bit c.branch in
    let f0 = filter_small c.addr0 in let f1 = filter_small c.addr1 in omega arith
