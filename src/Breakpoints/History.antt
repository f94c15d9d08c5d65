-- ===== src/Breakpoints/History.antt =====
-- Sequences of insertions and removals of software breakpoints.
use gdbserver.Base.{
  ℕ, Option, none, some, List, [], ◌∷◌, ◌≡◌, refl, ◌==◌, arith, Option-cases, Bool-cases, inl, inr,
  ◌∙◌,
}
use gdbserver.Breakpoints.{
  lookup, MemoryCalls, MemoryLaws, BreakpointMap, insert_software_breakpoint,
  remove_software_breakpoint, erase, int3,
}
use gdbserver.Breakpoints.Overlay.{
  Inv, program_byte, insert_parts, remove_parts, Removed-write, Inserted-Inv, Inserted-program_byte,
  Removed-Inv, Removed-program_byte,
}

pub data Command : Type 0 where
  insert_at : ℕ → ℕ → Command
  remove_at : ℕ → Command

abbrev kept : {A : Type 0} → A → Option A → A
kept s none = s
kept s (some t) = t

module _ {Mem : Type 0} (k : MemoryCalls Mem) (handle : ℕ) where
  -- A command that fails leaves the map and the memory as they were.
  abbrev pub apply : Command → BreakpointMap × Mem → BreakpointMap × Mem
  apply (insert_at a kind) s = kept s (insert_software_breakpoint k handle a kind s)
  apply (remove_at a) s = kept s (remove_software_breakpoint k handle a s)

  abbrev pub run : List Command → BreakpointMap × Mem → BreakpointMap × Mem
  run [] s = s
  run (c ∷ cs) s = run cs (apply c s)

module _ {Mem : Type 0} (k : MemoryCalls Mem) (laws : MemoryLaws k) (handle : ℕ) where
  abbrev Keeps : BreakpointMap × Mem → BreakpointMap × Mem → Type 0
  Keeps s t =
      Inv k laws handle t
      × ((c : ℕ) → program_byte k laws handle t c ≡ program_byte k laws handle s c)

  apply-Keeps :
      (x : Command) (s : BreakpointMap × Mem) → Inv k laws handle s → Keeps s (apply k handle x s)
  apply-Keeps (insert_at a kind) (bs, m) v =
      elim (Option-cases (insert_software_breakpoint k handle a kind (bs, m))) [
        | inl e ↦ rw e (v, λ c. refl)
        | inr (t, e) ↦
            let parts = insert_parts k laws handle a kind bs m t e in
            rw e (
              Inserted-Inv k laws handle a kind (bs, m) t parts v,
              Inserted-program_byte k laws handle a kind (bs, m) t parts,
            )
      ]
  apply-Keeps (remove_at a) (bs, m) v =
      elim (Option-cases (remove_software_breakpoint k handle a (bs, m))) [
        | inl e ↦ rw e (v, λ c. refl)
        | inr (t, e) ↦
            let parts = remove_parts k laws handle a bs m t e in
            rw e (
              Removed-Inv k laws handle a (bs, m) t parts v,
              Removed-program_byte k laws handle a (bs, m) t parts v,
            )
      ]

  -- From a state in which every breakpoint of the map is planted, no sequence of insertions and
  -- removals, each of which may fail, changes the program behind the breakpoints: at every address
  -- the original byte of the breakpoint there, or the memory where there is none, stays the same.
  -- Every breakpoint keeps exactly one original byte and has Int3 at its address, and no address
  -- stands twice in the map.
  pub run-program_byte :
      (cs : List Command) (s : BreakpointMap × Mem)
      → Inv k laws handle s
      → Inv k laws handle (run k handle cs s)
        × ((c : ℕ)
            → program_byte k laws handle (run k handle cs s) c ≡ program_byte k laws handle s c)
  run-program_byte [] s v = (v, λ c. refl)
  run-program_byte (x ∷ cs) s v =
      let (v', same) = apply-Keeps x s v in
      let (w, rest) = run-program_byte cs (apply k handle x s) v' in (w, λ c. rest c ∙ same c)

  -- From such a state, a successful insertion and the successful removal of the same breakpoint
  -- restore the map, and the byte of memory at every address.
  pub insert-remove :
      (a kind : ℕ) (s t u : BreakpointMap × Mem)
      → Inv k laws handle s
      → insert_software_breakpoint k handle a kind s ≡ some t
      → remove_software_breakpoint k handle a t ≡ some u
      → (u.0 ≡ s.0) × ((c : ℕ) → k.read_memory c 1 u.1 ≡ k.read_memory c 1 s.1)
  unfolding lookup erase
  insert-remove a kind s t u v i r =
      let inserted = insert_parts k laws handle a kind s.0 s.1 t i in
      let removed = remove_parts k laws handle a t.0 t.1 u r in
      let v' = Inserted-Inv k laws handle a kind s t inserted v in
      let wrote = Removed-write k laws handle a t u removed v' in
      let (orig, absent, byte, trap, map) = inserted in
      let (b, again, found, first, _, left) = removed in
      let restored : again ≡ orig = ground arith in
      (
        ground arith,
        λ c. elim (Bool-cases (c == a)) [
          | inl e ↦ ground (arith, laws.read_written a again t.1 u.1 wrote)
          | inr e ↦ ground (
            arith,
            laws.read_other a again c t.1 u.1 wrote,
            laws.read_other a int3 c s.1 t.1 trap,
          )
        ],
      )
