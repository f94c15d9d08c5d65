-- ===== src/Cpuid/Cached.antt =====
-- The cache of cpuid leaves against the instruction (lib/debugger-utils/x86-cpuid.cc).
use gdbserver.Base.{
  ◌&&◌, ◌∙◌, ap, ℕ, zero, suc, ◌+◌, ◌-◌, ◌≤◌, ◌<◌, ◌≡◌, Bool, true, Option, none, some, ◌∷◌, arith,
  refl, ltb, leb, if◌then◌else◌, min, get_elem?, Bool-cases, inl, inr,
}
use gdbserver.Cpuid.{
  with_model, CpuidLeaf, Instruction, Cpuid, CpuidBit, max_supported_cpuid, max_supported_cpuid_ext,
  cpuid_ext_base, read_leaves, read_cpuid, feature_init, get_cpuid_leaf_raw, get_cpuid_leaf,
  feature_test, word_of, has_bit,
}

-- A leaf that is supported: up to the highest one of its range, and of those that the arrays hold.
abbrev pub is_supported : Instruction → ℕ → Bool
is_supported cpu leaf =
    if ltb leaf cpuid_ext_base
    then leb leaf (min (cpu 0 0).a max_supported_cpuid)
    else leb leaf (min (cpu cpuid_ext_base 0).a max_supported_cpuid_ext)

-- What the instruction gives for a leaf that is supported.
abbrev pub instruction_leaf : Instruction → ℕ → Option CpuidLeaf
instruction_leaf cpu leaf = if is_supported cpu leaf then some (cpu leaf 0) else none

-- The cache, once it is filled, is that of the processor.
abbrev pub IsCached : Instruction → Cpuid → Type 0
IsCached cpu s =
    s.initialized ≡ true
    → (s.cpuid ≡ (read_cpuid cpu s).cpuid)
      × (s.cpuid_ext ≡ (read_cpuid cpu s).cpuid_ext)
      × (s.max_cpuid ≡ (read_cpuid cpu s).max_cpuid)
      × (s.max_ext_cpuid ≡ (read_cpuid cpu s).max_ext_cpuid)

get_elem?-read_leaves :
    (cpu : Instruction) (read left first i : ℕ)
    → i < read
    → get_elem? (read_leaves cpu read left first) i ≡ some (cpu (first + i) 0)
unfolding read_leaves
get_elem?-read_leaves cpu zero left first i h = absurd (omega arith)
get_elem?-read_leaves cpu (suc read) left first zero h = ap (λ n. some (cpu n 0)) (omega arith)
get_elem?-read_leaves cpu (suc read) left first (suc i) h =
    get_elem?-read_leaves cpu read left (suc first) i (omega arith)
    ∙ ap (λ n. some (cpu n 0)) (omega arith)

-- The element of an array of which the first leaf and `read` more are read.
array_element :
    (cpu : Instruction) (read left base i : ℕ)
    → i ≤ read
    → get_elem? (cpu base 0 ∷ read_leaves cpu read left (suc base)) i ≡ some (cpu (base + i) 0)
array_element cpu read left base zero h = ap (λ n. some (cpu n 0)) (omega arith)
array_element cpu read left base (suc i) h =
    get_elem?-read_leaves cpu read left (suc base) i (omega arith)
    ∙ ap (λ n. some (cpu n 0)) (omega arith)

get_cpuid_leaf_raw_lem :
    (cpu : Instruction) (leaf : ℕ) (s : Cpuid)
    → s.cpuid ≡ (read_cpuid cpu s).cpuid
    → s.cpuid_ext ≡ (read_cpuid cpu s).cpuid_ext
    → s.max_cpuid ≡ (read_cpuid cpu s).max_cpuid
    → s.max_ext_cpuid ≡ (read_cpuid cpu s).max_ext_cpuid
    → get_cpuid_leaf_raw s leaf ≡ some (instruction_leaf cpu leaf)
unfolding get_cpuid_leaf_raw read_cpuid
get_cpuid_leaf_raw_lem cpu leaf s e x m n =
    let n0 = min (cpu 0 0).a max_supported_cpuid in
    let n1 = min (cpu cpuid_ext_base 0).a max_supported_cpuid_ext in
    elim (Bool-cases (ltb leaf cpuid_ext_base)) [
      | inl low ↦ elim (Bool-cases (leb leaf n0)) [
        | inl t ↦ ground (arith, array_element cpu n0 (23 - n0) 0 leaf (ground arith))
        | inr t ↦ ground arith
      ]
      | inr high ↦ elim (Bool-cases (leb leaf n1)) [
        | inl t ↦ ground (
          arith,
          array_element cpu (n1 - cpuid_ext_base) (8 - (n1 - cpuid_ext_base)) cpuid_ext_base
              (leaf - cpuid_ext_base) (ground arith),
        )
        | inr t ↦ ground arith
      ]
    ]

filled :
    (cpu : Instruction) (s : Cpuid)
    → get_cpuid_leaf_raw (read_cpuid cpu s) 1 ≡ some (instruction_leaf cpu 1)
unfolding read_cpuid
filled cpu s = get_cpuid_leaf_raw_lem cpu 1 (read_cpuid cpu s) refl refl refl refl

with_model-IsCached :
    (cpu : Instruction) (s : Cpuid) (leaf : Option CpuidLeaf)
    → ((with_model (read_cpuid cpu s) leaf).initialized ≡ true)
      × IsCached cpu (with_model (read_cpuid cpu s) leaf)
unfolding with_model read_cpuid
with_model-IsCached cpu s none = (refl, λ _. (refl, refl, refl, refl))
with_model-IsCached cpu s (some leaf) = (refl, λ _. (refl, refl, refl, refl))

-- x86_feature_init never reads outside of an array, and fills the cache.
feature_init-IsCached :
    (cpu : Instruction) (s : Cpuid)
    → IsCached cpu s
    → (s' : Cpuid) × (feature_init cpu s ≡ some s') × (s'.initialized ≡ true) × IsCached cpu s'
unfolding feature_init
feature_init-IsCached cpu s h = elim (Bool-cases s.initialized) [
  | inl t ↦ (s, ground (arith, t), t, h)
  | inr t ↦
      let s' = read_cpuid cpu s in
      let leaf = instruction_leaf cpu 1 in
      let raw : get_cpuid_leaf_raw s' 1 ≡ some leaf = filled cpu s in
      let ends = with_model-IsCached cpu s leaf in
      (with_model s' leaf, ground (arith, t, raw), ends.0, ends.1)
]

get_cpuid_leaf_lem :
    (cpu : Instruction) (leaf : ℕ) (s : Cpuid)
    → IsCached cpu s
    → (s' : Cpuid) × (get_cpuid_leaf cpu leaf s ≡ some (s', instruction_leaf cpu leaf))
      × (s'.initialized ≡ true)
      × IsCached cpu s'
unfolding get_cpuid_leaf
get_cpuid_leaf_lem cpu leaf s h =
    let (s', e, t, h') = feature_init-IsCached cpu s h in
    let (c, x, m, n) = h' t in
    let raw = get_cpuid_leaf_raw_lem cpu leaf s' c x m n in (s', ground (arith, e, raw), t, h')

-- The registers of a leaf as x86_cpuid_bit numbers them: eax, ebx, ecx and edx.
pub data IsRegister (leaf : CpuidLeaf) : ℕ → ℕ → Type 0 where
  eax : IsRegister leaf 0 leaf.a
  ebx : IsRegister leaf 1 leaf.b
  ecx : IsRegister leaf 2 leaf.c
  edx : IsRegister leaf 3 leaf.d

word_of-IsRegister :
    {leaf : CpuidLeaf} {word value : ℕ}
    → IsRegister leaf word value
    → (word_of leaf word ≡ value) × (word ≤ 3)
unfolding word_of
word_of-IsRegister eax = (refl, omega arith)
word_of-IsRegister ebx = (refl, omega arith)
word_of-IsRegister ecx = (refl, omega arith)
word_of-IsRegister edx = (refl, omega arith)

-- Whatever the processor has, and whether the cache is filled or not: a feature test of a bit of a leaf never
-- reads outside of the arrays, leaves the cache as the processor's, and is true exactly if the leaf is supported
-- and the bit, of 0 to 31, is set in the register that the instruction gives for it: eax, ebx, ecx or edx for the
-- words 0 to 3.
pub feature_test_lem :
    (cpu : Instruction) (bit : CpuidBit) (s : Cpuid) (value : ℕ)
    → IsCached cpu s
    → IsRegister (cpu bit.leaf_num 0) bit.word value
    → bit.bit ≤ 31
    → (s' : Cpuid) × (feature_test cpu bit s
        ≡ some (s', is_supported cpu bit.leaf_num && has_bit value bit.bit))
      × (s'.initialized ≡ true)
      × IsCached cpu s'
unfolding feature_test
feature_test_lem cpu bit s value h hr hb =
    let (same, hw) = word_of-IsRegister hr in
    let (s', e, t, h') = get_cpuid_leaf_lem cpu bit.leaf_num s h in
    elim (Bool-cases (is_supported cpu bit.leaf_num)) [
      | inl q ↦ (s', ground (arith, e, same), t, h')
      | inr q ↦ (s', ground (arith, e), t, h')
    ]
