-- ===== src/Cpuid.antt =====
-- lib/debugger-utils/x86-cpuid.{h,cc}: the cached leaves of the cpuid instruction, and the feature tests.
pub mod Cached
pub mod Trace
use gdbserver.Base.{
  ℕ, zero, suc, ◌+◌, ◌*◌, ◌-◌, ◌/◌, ◌%◌, ◌^◌, Bool, true, false, not, ◌&&◌, ◌||◌, Option, none,
  some, List, [], ◌∷◌, ◌++◌, Bytes, ◌==◌, bytes_eq, ltb, leb, if◌then◌else◌, min, get_elem?, codes,
  bit_and,
}
use gdbserver.Registers.{le_bytes}

-- cpuid_leaf
pub record CpuidLeaf : Type 0 where
  pub a : ℕ
  pub b : ℕ
  pub c : ℕ
  pub d : ℕ

-- The instruction: what __cpuid_count gives for a leaf and a subleaf.
abbrev pub Instruction : Type 0
Instruction = ℕ → ℕ → CpuidLeaf

pub data Vendor : Type 0 where
  unknown : Vendor
  intel : Vendor
  amd : Vendor

-- x86_model_info
pub record ModelInfo : Type 0 where
  pub processor_type : ℕ
  pub family : ℕ
  pub model : ℕ
  pub stepping : ℕ
  pub display_family : ℕ
  pub display_model : ℕ

-- MAX_SUPPORTED_CPUID, MAX_SUPPORTED_CPUID_EXT, X86_CPUID_EXT_BASE
abbrev pub max_supported_cpuid : ℕ
max_supported_cpuid = 0x17

abbrev pub max_supported_cpuid_ext : ℕ
max_supported_cpuid_ext = 0x80000008

abbrev pub cpuid_ext_base : ℕ
cpuid_ext_base = 0x80000000

-- The static variables of the file. The arrays have 24 and 9 elements, zero at first.
pub record Cpuid : Type 0 where
  pub cpuid : List CpuidLeaf
  pub cpuid_ext : List CpuidLeaf
  pub max_cpuid : ℕ
  pub max_ext_cpuid : ℕ
  pub vendor : Vendor
  pub model_info : ModelInfo
  pub initialized : Bool

abbrev pub zero_leaf : CpuidLeaf
zero_leaf = record { a = 0; b = 0; c = 0; d = 0 }

-- BITS_SHIFT(x, high, low)
abbrev pub bits_shift : ℕ → ℕ → ℕ → ℕ
bits_shift x high low = x / 2 ^ low % 2 ^ (high - low + 1)

-- The leaves `first`, `first + 1`, ... of which `read` are asked for, in an array of `read + left`.
unfoldable pub read_leaves : Instruction → ℕ → ℕ → ℕ → List CpuidLeaf
read_leaves cpu zero zero first = []
read_leaves cpu zero (suc left) first = zero_leaf ∷ read_leaves cpu zero left first
read_leaves cpu (suc read) left first = cpu first 0 ∷ read_leaves cpu read left (suc first)

-- The text of the vendor: b, d and c of leaf 0.
unfoldable pub vendor_of : CpuidLeaf → Vendor
vendor_of leaf =
    let text = le_bytes 4 leaf.b ++ (le_bytes 4 leaf.d ++ le_bytes 4 leaf.c) in
    if bytes_eq text (codes "GenuineIntel")
    then intel
    else if bytes_eq text (codes "AuthenticAMD")
    then amd
    else unknown

-- The fields of `model_info`, an uint16_t and otherwise uint8_t.
unfoldable pub model_of : CpuidLeaf → ModelInfo
model_of leaf =
    let family = bits_shift leaf.a 11 8 in
    let model = bits_shift leaf.a 7 4 in
    record {
      processor_type = bits_shift leaf.a 13 12;
      family = family;
      model = model;
      stepping = bits_shift leaf.a 3 0;
      display_family =
          if family == 0xf then (family + bits_shift leaf.a 27 20) % 2 ^ 16 else family;
      display_model =
          if family == 0xf || family == 0x6
          then (model + bits_shift leaf.a 19 16 * 2 ^ 4) % 2 ^ 8
          else model;
    }

-- x86_get_cpuid_leaf_raw: an outer `none` is a read outside of an array, an inner one is nullptr.
unfoldable pub get_cpuid_leaf_raw : Cpuid → ℕ → Option (Option CpuidLeaf)
get_cpuid_leaf_raw s leaf =
    if ltb leaf cpuid_ext_base
    then (if ltb s.max_cpuid leaf
        then some none
        else elim (get_elem? s.cpuid leaf) [ none ↦ none | some l ↦ some (some l) ])
    else if ltb s.max_ext_cpuid leaf
    then some none
    else elim (get_elem? s.cpuid_ext (leaf - cpuid_ext_base)) [
      | none ↦ none
      | some l ↦ some (some l)
    ]

-- x86_feature_init: the highest leaves, and the leaves up to these. The loops write `max + 1`
-- elements at most, 24 and 9.
unfoldable pub read_cpuid : Instruction → Cpuid → Cpuid
read_cpuid cpu s =
    let max_cpuid = min (cpu 0 0).a max_supported_cpuid in
    let max_ext_cpuid = min (cpu cpuid_ext_base 0).a max_supported_cpuid_ext in
    let extended = max_ext_cpuid - cpuid_ext_base in
    record s {
      cpuid = cpu 0 0 ∷ read_leaves cpu max_cpuid (23 - max_cpuid) 1;
      cpuid_ext =
          cpu cpuid_ext_base 0 ∷ read_leaves cpu extended (8 - extended) (suc cpuid_ext_base);
      max_cpuid = max_cpuid;
      max_ext_cpuid = max_ext_cpuid;
      vendor = vendor_of (cpu 0 0);
    }

unfoldable pub with_model : Cpuid → Option CpuidLeaf → Cpuid
with_model s none = record s { initialized = true }
with_model s (some leaf) = record s { model_info = model_of leaf; initialized = true }

unfoldable pub feature_init : Instruction → Cpuid → Option Cpuid
feature_init cpu s =
    if s.initialized
    then some s
    else (let s' = read_cpuid cpu s in
        elim (get_cpuid_leaf_raw s' 1) [ none ↦ none | some leaf ↦ some (with_model s' leaf) ])

-- x86_get_cpuid_subleaf: not cached; `none` is a return of false.
unfoldable pub get_cpuid_subleaf : Instruction → ℕ → ℕ → Cpuid → Option (Cpuid × Option CpuidLeaf)
get_cpuid_subleaf cpu num subleaf s = elim (feature_init cpu s) [
  | none ↦ none
  | some s' ↦
      if ltb num cpuid_ext_base
      then (if ltb s'.max_cpuid num then some (s', none) else some (s', some (cpu num subleaf)))
      else if ltb s'.max_ext_cpuid num
      then some (s', none)
      else some (s', some (cpu num subleaf))
]

-- x86_get_cpuid_leaf
unfoldable pub get_cpuid_leaf : Instruction → ℕ → Cpuid → Option (Cpuid × Option CpuidLeaf)
get_cpuid_leaf cpu leaf s = elim (feature_init cpu s) [
  | none ↦ none
  | some s' ↦ elim (get_cpuid_leaf_raw s' leaf) [ none ↦ none | some l ↦ some (s', l) ]
]

-- x86_cpuid_bit
pub record CpuidBit : Type 0 where
  pub leaf_num : ℕ
  pub word : ℕ
  pub bit : ℕ

-- The register of a leaf by its number, and a bit of it.
unfoldable pub word_of : CpuidLeaf → ℕ → ℕ
word_of leaf word =
    if word == 0 then leaf.a else if word == 1 then leaf.b else if word == 2 then leaf.c else leaf.d

abbrev pub has_bit : ℕ → ℕ → Bool
has_bit x bit = x / 2 ^ bit % 2 == 1

-- x86_feature_test; `none` is a failed FTL_DCHECK.
unfoldable pub feature_test : Instruction → CpuidBit → Cpuid → Option (Cpuid × Bool)
feature_test cpu bit s =
    if leb bit.word 3 && leb bit.bit 31
    then elim (get_cpuid_leaf cpu bit.leaf_num s) [
      | none ↦ none
      | some (s', none) ↦ some (s', false)
      | some (s', some leaf) ↦ some (s', has_bit (word_of leaf bit.word) bit.bit)
    ]
    else none

-- x86_topology_enumerate: `right_shift` and `type` of the level, if it is there.
unfoldable pub topology_enumerate : Instruction → ℕ → Option (ℕ × ℕ)
topology_enumerate cpu level =
    let leaf = cpu 0xb level in
    let type = leaf.c / 2 ^ 8 % 2 ^ 8 in if type == 0 then none else some (leaf.a % 2 ^ 5, type)
