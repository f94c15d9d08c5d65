-- ===== src/Breakpoints/Overlay.antt =====
-- The program's memory behind its breakpoints.
use gdbserver.Base.{
  ◌⊎◌, ◌∙◌, sym, subst, inr, inl, Option-cases, ◌==◌, ◌≢◌, Bool-cases, refl, length, get_elem?, ℕ,
  Option, none, some, [], ◌∷◌, Bytes, ◌≡◌, arith,
}
use gdbserver.Breakpoints.{
  insert, remove, insert_software_breakpoint, remove_software_breakpoint, erase, MemoryCalls,
  MemoryLaws, SoftwareBreakpoint, BreakpointMap, int3, lookup, read, write,
}

-- No address stands twice in the map.
abbrev pub Distinct : BreakpointMap → Type 0
Distinct [] = Unit
Distinct ((a, b) ∷ rest) = (lookup a rest ≡ none) × Distinct rest

lookup-erase_ne : (a c : ℕ) (bs : BreakpointMap) → c ≢ a → lookup c (erase a bs) ≡ lookup c bs
unfolding lookup erase
lookup-erase_ne a c [] n = refl
lookup-erase_ne a c ((k, b) ∷ rest) n = ground (arith, lookup-erase_ne a c rest n)

lookup-erase_self : (a : ℕ) (bs : BreakpointMap) → Distinct bs → lookup a (erase a bs) ≡ none
unfolding lookup erase
lookup-erase_self a [] d = refl
lookup-erase_self a ((k, b) ∷ rest) (n, d) = ground (arith, lookup-erase_self a rest d)

erase-Distinct : (a : ℕ) (bs : BreakpointMap) → Distinct bs → Distinct (erase a bs)
unfolding lookup erase
erase-Distinct a [] d = tt
erase-Distinct a ((k, b) ∷ rest) (n, d) = elim (Bool-cases (k == a)) [
  | inl e ↦ rw e d
  | inr e ↦ rw e (rw (lookup-erase_ne a k rest (ground arith)) n, erase-Distinct a rest d)
]

single : (bs : Bytes) → length bs ≡ 1 → (x : ℕ) × (bs ≡ x ∷ [])
single [] h = absurd (omega arith)
single (x ∷ []) h = (x, refl)
single (x ∷ y ∷ bs) h = absurd (omega arith)

module _ {Mem : Type 0} (k : MemoryCalls Mem) (laws : MemoryLaws k) (handle : ℕ) where
  -- The byte of the program at an address: the original one where a breakpoint stands.
  abbrev pub program_byte : BreakpointMap × Mem → ℕ → Option Bytes
  program_byte (bs, m) a = elim (lookup a bs) [
    | none ↦ k.read_memory a 1 m
    | some b ↦ some b.original_bytes
  ]

  -- An entry for `a` holds one original byte, and the memory there holds Int3.
  pub record IsPlanted (m : Mem) (a : ℕ) (b : SoftwareBreakpoint) : Type 0 where
    pub address : b.address ≡ a
    pub original : ℕ
    pub one : b.original_bytes ≡ original ∷ []
    pub trap : k.read_memory a 1 m ≡ some (int3 ∷ [])

  pub record Inv (s : BreakpointMap × Mem) : Type 0 where
    pub distinct : Distinct s.0
    pub planted : (a : ℕ) (b : SoftwareBreakpoint) → lookup a s.0 ≡ some b → IsPlanted s.1 a b

  -- What a successful insertion has done.
  abbrev pub Inserted : ℕ → ℕ → BreakpointMap × Mem → BreakpointMap × Mem → Type 0
  Inserted a kind s t =
      (orig : ℕ) × (lookup a s.0 ≡ none)
      × (k.read_memory a 1 s.1 ≡ some (orig ∷ []))
      × (k.write_memory a (int3 ∷ []) s.1 ≡ some t.1)
      × (t.0 ≡ (a, record { address = a; kind = kind; original_bytes = orig ∷ [] }) ∷ s.0)

  pub insert_parts :
      (a kind : ℕ) (bs : BreakpointMap) (m : Mem) (t : BreakpointMap × Mem)
      → insert_software_breakpoint k handle a kind (bs, m) ≡ some t
      → Inserted a kind (bs, m) t
  unfolding insert_software_breakpoint insert read write
  insert_parts a kind bs m t h = elim (Option-cases (k.read_memory a 1 m)) [
    | inl e ↦ absurd (ground arith)
    | inr (bytes, e) ↦
        let (orig, one) = single bytes (laws.read_length a 1 m bytes e) in
        elim (Option-cases (k.write_memory a (int3 ∷ []) m)) [
          | inl w ↦ absurd (ground arith)
          | inr (m', w) ↦ (orig, ground arith, ground arith, ground arith, ground arith)
        ]
  ]

  -- What a successful removal has done.
  abbrev pub Removed : ℕ → BreakpointMap × Mem → BreakpointMap × Mem → Type 0
  Removed a s t =
      (b : SoftwareBreakpoint) × (orig : ℕ) × (lookup a s.0 ≡ some b)
      × (get_elem? b.original_bytes 0 ≡ some orig)
      × (k.write_memory b.address (orig ∷ []) s.1 ≡ some t.1)
      × (t.0 ≡ erase a s.0)

  pub remove_parts :
      (a : ℕ) (bs : BreakpointMap) (m : Mem) (t : BreakpointMap × Mem)
      → remove_software_breakpoint k handle a (bs, m) ≡ some t
      → Removed a (bs, m) t
  unfolding remove_software_breakpoint remove write
  remove_parts a bs m t h = elim (Option-cases (lookup a bs)) [
    | inl e ↦ absurd (ground arith)
    | inr (b, e) ↦ elim (Option-cases (get_elem? b.original_bytes 0)) [
      | inl g ↦ absurd (ground arith)
      | inr (orig, g) ↦ elim (Option-cases (k.write_memory b.address (orig ∷ []) m)) [
        | inl w ↦ absurd (ground arith)
        | inr (m', w) ↦ (b, orig, e, g, ground arith, ground arith)
      ]
    ]
  ]

  abbrev planted_at : ℕ → ℕ → ℕ → SoftwareBreakpoint
  planted_at a kind orig = record { address = a; kind = kind; original_bytes = orig ∷ [] }

  lookup_added :
      (a c : ℕ) (b x : SoftwareBreakpoint) (bs : BreakpointMap)
      → lookup c ((a, b) ∷ bs) ≡ some x
      → ((a ≡ c) × (x ≡ b)) ⊎ ((c ≢ a) × (lookup c bs ≡ some x))
  unfolding lookup
  lookup_added a c b x bs h = elim (Bool-cases (a == c)) [
    | inl e ↦ inl (ground arith, ground arith)
    | inr e ↦ inr (ground arith, ground arith)
  ]

  -- A breakpoint stays planted while another address is written.
  IsPlanted-other :
      (a byte c : ℕ) (b : SoftwareBreakpoint) (m m' : Mem)
      → k.write_memory a (byte ∷ []) m ≡ some m'
      → c ≢ a
      → IsPlanted m c b
      → IsPlanted m' c b
  IsPlanted-other a byte c b m m' w ne p = record {
    address = p.address;
    original = p.original;
    one = p.one;
    trap = laws.read_other a byte c m m' w ne ∙ p.trap;
  }

  pub Inserted-Inv : (a kind : ℕ) (s t : BreakpointMap × Mem) → Inserted a kind s t → Inv s → Inv t
  Inserted-Inv a kind s t (orig, absent, byte, wrote, map) v = record {
    distinct = subst Distinct (sym map) (absent, v.distinct);
    planted = λ c x found.
        elim (lookup_added a c (planted_at a kind orig) x s.0 (rw map at found)) [
          | inl (e, q) ↦ record {
            address = ground arith;
            original = orig;
            one = ground arith;
            trap = rw (← e) (laws.read_written a int3 s.1 t.1 wrote);
          }
          | inr (ne, old) ↦ IsPlanted-other a int3 c x s.1 t.1 wrote ne (v.planted c x old)
        ];
  }

  pub Inserted-program_byte :
      (a kind : ℕ) (s t : BreakpointMap × Mem)
      → Inserted a kind s t
      → (c : ℕ) → program_byte t c ≡ program_byte s c
  unfolding lookup
  Inserted-program_byte a kind s t (orig, absent, byte, wrote, map) c = elim (Bool-cases (a == c)) [
    | inl e ↦ ground arith
    | inr e ↦ ground (arith, laws.read_other a int3 c s.1 t.1 wrote)
  ]

  lookup_erased :
      (a c : ℕ) (x : SoftwareBreakpoint) (bs : BreakpointMap)
      → Distinct bs
      → lookup c (erase a bs) ≡ some x
      → (c ≢ a) × (lookup c bs ≡ some x)
  lookup_erased a c x bs d h = elim (Bool-cases (c == a)) [
    | inl e ↦ absurd (ground (arith, lookup-erase_self a bs d))
    | inr e ↦ (ground arith, ground (arith, lookup-erase_ne a c bs))
  ]

  -- A removal writes at the address of its entry, and the byte that was there.
  pub Removed-write :
      (a : ℕ) (s t : BreakpointMap × Mem) (r : Removed a s t)
      → Inv s
      → k.write_memory a (r.1 ∷ []) s.1 ≡ some t.1
  Removed-write a s t (b, orig, found, byte, wrote, map) v =
      rw (v.planted a b found).address at wrote

  pub Removed-Inv : (a : ℕ) (s t : BreakpointMap × Mem) → Removed a s t → Inv s → Inv t
  Removed-Inv a s t r v =
      let wrote = Removed-write a s t r v in
      record {
        distinct = subst Distinct (sym r.5) (erase-Distinct a s.0 v.distinct);
        planted = λ c x found.
            let (ne, old) = lookup_erased a c x s.0 v.distinct (rw r.5 at found) in
            IsPlanted-other a r.1 c x s.1 t.1 wrote ne (v.planted c x old);
      }

  pub Removed-program_byte :
      (a : ℕ) (s t : BreakpointMap × Mem)
      → Removed a s t
      → Inv s
      → (c : ℕ) → program_byte t c ≡ program_byte s c
  Removed-program_byte a s t r v c =
      let (b, orig, found, byte, wrote, map) = r in
      let wrote' = Removed-write a s t r v in
      let planted = v.planted a b found in
      elim (Bool-cases (c == a)) [
        | inl e ↦ ground (
          arith,
          planted.one,
          lookup-erase_self a s.0 v.distinct,
          laws.read_written a orig s.1 t.1 wrote',
        )
        | inr e ↦ ground (arith, lookup-erase_ne a c s.0, laws.read_other a orig c s.1 t.1 wrote')
      ]
