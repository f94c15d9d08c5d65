-- ===== src/Cpuid/Trace.antt =====
-- lib/debugger-utils/x86-pt.{h,cc}: the features of Processor Trace.
use gdbserver.Base.{
  ℕ, ◌/◌, ◌%◌, ◌^◌, Bool, true, false, ◌&&◌, Option, none, some, leb, if◌then◌else◌,
}
use gdbserver.Cpuid.{Instruction, Cpuid, CpuidBit, feature_test, has_bit}

-- ProcessorTraceFeatures
pub record Features : Type 0 where
  pub have_pt : Bool
  pub cr3_filtering : Bool
  pub cycle_accurate_mode : Bool
  pub ip_filtering : Bool
  pub mtc : Bool
  pub ptwrite : Bool
  pub power_events : Bool
  pub addr_cfg_max : ℕ
  pub supports_filter_ranges : Bool
  pub supports_stop_ranges : Bool
  pub num_addr_ranges : ℕ
  pub mtc_freq_mask : ℕ
  pub cycle_thresh_mask : ℕ
  pub psb_freq_mask : ℕ
  pub to_pa : Bool
  pub multiple_to_pa_entries : Bool
  pub single_range : Bool
  pub trace_transport_output : Bool
  pub payloads_are_lip : Bool
  pub tsc_ratio_num : ℕ
  pub tsc_ratio_den : ℕ

-- After memset.
abbrev pub no_features : Features
no_features = record {
  have_pt = false;
  cr3_filtering = false;
  cycle_accurate_mode = false;
  ip_filtering = false;
  mtc = false;
  ptwrite = false;
  power_events = false;
  addr_cfg_max = 0;
  supports_filter_ranges = false;
  supports_stop_ranges = false;
  num_addr_ranges = 0;
  mtc_freq_mask = 0;
  cycle_thresh_mask = 0;
  psb_freq_mask = 0;
  to_pa = false;
  multiple_to_pa_entries = false;
  single_range = false;
  trace_transport_output = false;
  payloads_are_lip = false;
  tsc_ratio_num = 0;
  tsc_ratio_den = 0;
}

-- X86_FEATURE_PT
abbrev pub feature_pt : CpuidBit
feature_pt = record { leaf_num = 0x7; word = 1; bit = 25 }

-- What subleaf 1 of leaf 0x14 says, which is read if there is a configurable mode.
unfoldable pub with_masks : Instruction → Features → Features
with_masks cpu pt =
    let leaf = cpu 0x14 0 in
    let masks = cpu 0x14 1 in
    if has_bit leaf.b 1 && leb 1 leaf.a
    then record pt {
      mtc_freq_mask = masks.a / 2 ^ 16 % 2 ^ 16;
      cycle_thresh_mask = masks.b % 2 ^ 16;
      psb_freq_mask = masks.b / 2 ^ 16 % 2 ^ 16;
      num_addr_ranges = masks.a % 4;
    }
    else pt

unfoldable pub with_bits : Instruction → Features → Features
with_bits cpu pt =
    let leaf = cpu 0x14 0 in
    record pt {
      cr3_filtering = has_bit leaf.b 0;
      cycle_accurate_mode = has_bit leaf.b 1;
      ip_filtering = has_bit leaf.b 2;
      mtc = has_bit leaf.b 3;
      ptwrite = has_bit leaf.b 4;
      power_events = has_bit leaf.b 5;
      supports_filter_ranges = leb 1 pt.addr_cfg_max;
      supports_stop_ranges = leb 2 pt.addr_cfg_max;
      to_pa = has_bit leaf.c 0;
      multiple_to_pa_entries = has_bit leaf.c 1;
      single_range = has_bit leaf.c 2;
      trace_transport_output = has_bit leaf.c 3;
      payloads_are_lip = has_bit leaf.c 31;
    }

unfoldable pub with_tsc_ratio : Instruction → Features → Features
with_tsc_ratio cpu pt =
    let ratio = cpu 0x15 0 in
    if leb 0x15 (cpu 0 0).a
    then record pt { tsc_ratio_den = ratio.a; tsc_ratio_num = ratio.b }
    else pt

-- The features of a processor that has Processor Trace.
unfoldable pub trace_features : Instruction → Features
trace_features cpu =
    let addr_cfg_max = if has_bit (cpu 0x14 0).b 2 then 2 else 0 in
    let pt = record no_features { have_pt = true; addr_cfg_max = addr_cfg_max } in
    with_tsc_ratio cpu (with_bits cpu (with_masks cpu pt))

-- The static variables: the features, once they are initialized.
abbrev pub TraceCache : Type 0
TraceCache = Option Features

-- GetProcessorTraceFeatures; `none` is a failed FTL_DCHECK.
unfoldable pub get_processor_trace_features :
    Instruction → Cpuid × TraceCache → Option ((Cpuid × TraceCache) × Features)
get_processor_trace_features cpu (s, some pt) = some ((s, some pt), pt)
get_processor_trace_features cpu (s, none) = elim (feature_test cpu feature_pt s) [
  | none ↦ none
  | some (s', has_pt) ↦
      let pt = if has_pt then trace_features cpu else no_features in some ((s', some pt), pt)
]

-- HaveProcessorTrace
unfoldable pub have_processor_trace :
    Instruction → Cpuid × TraceCache → Option ((Cpuid × TraceCache) × Bool)
have_processor_trace cpu s = elim (get_processor_trace_features cpu s) [
  | none ↦ none
  | some (s', pt) ↦ some (s', pt.have_pt)
]
