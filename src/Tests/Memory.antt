-- ===== src/Tests/Memory.antt =====
-- Breakpoints over a memory of bytes.
use gdbserver.Base.{
  subst, ℕ, zero, suc, ◌+◌, Option, none, some, [], ◌∷◌, Bytes, ◌≡◌, ◌≢◌, refl, ◌==◌, if◌then◌else◌,
  arith, length,
}
use mathlib.Core.Option.{some-injective}
use gdbserver.Breakpoints.{
  MemoryCalls, MemoryLaws, BreakpointMap, insert_software_breakpoint, remove_software_breakpoint,
  lookup, erase, insert, remove, read, write,
}
use gdbserver.Breakpoints.Overlay.{Inv, program_byte}
use gdbserver.Breakpoints.History.{run, insert_at, remove_at, run-program_byte, insert-remove}

abbrev kept : {A : Type 0} → A → Option A → A
kept s none = s
kept s (some t) = t

abbrev Memory : Type 0
Memory = ℕ → ℕ

abbrev read_from : ℕ → ℕ → Memory → Bytes
read_from a zero m = []
read_from a (suc n) m = m a ∷ read_from (a + 1) n m

abbrev write_from : ℕ → Bytes → Memory → Memory
write_from a [] m = m
write_from a (b ∷ bs) m = write_from (a + 1) bs (λ c. if c == a then b else m c)

abbrev flat : MemoryCalls Memory
flat = record {
  read_memory = λ a n m. some (read_from a n m);
  write_memory = λ a bs m. some (write_from a bs m);
}

length-read_from : (n a : ℕ) (m : Memory) → length (read_from a n m) ≡ n
length-read_from zero a m = refl
length-read_from (suc n) a m = omega (arith, length-read_from n (a + 1) m)

flat_written :
    (a b : ℕ) (m m' : Memory)
    → some (write_from a (b ∷ []) m) ≡ some m'
    → some (read_from a 1 m') ≡ some (b ∷ [])
flat_written a b m m' e =
    subst (λ x. some (read_from a 1 x) ≡ some (b ∷ [])) (some-injective _ _ e) (ground arith)

flat_other :
    (a b c : ℕ) (m m' : Memory)
    → some (write_from a (b ∷ []) m) ≡ some m'
    → c ≢ a
    → some (read_from c 1 m') ≡ some (read_from c 1 m)
flat_other a b c m m' e n =
    subst (λ x. some (read_from c 1 x) ≡ some (read_from c 1 m)) (some-injective _ _ e)
      (ground arith)

flat_laws : MemoryLaws flat
flat_laws = record {
  read_length = λ a n m bs e. ground (arith, length-read_from n a m);
  read_written = flat_written;
  read_other = flat_other;
}

abbrev program : Memory
program a = 0x90 + a

no_breakpoints-Inv : Inv flat flat_laws 7 ([], program)
unfolding lookup
no_breakpoints-Inv = record { distinct = tt; planted = λ a b e. absurd (cc) }

run-program_byte_example :
    let s =
      run flat 7
        (insert_at 2 1 ∷ insert_at 2 1 ∷ insert_at 3 9 ∷ insert_at 5 1 ∷ remove_at 2 ∷ [])
        ([], program) in
    Inv flat flat_laws 7 s
    × ((c : ℕ) → program_byte flat flat_laws 7 s c ≡ program_byte flat flat_laws 7 ([], program) c)
run-program_byte_example =
    run-program_byte flat flat_laws 7
      (insert_at 2 1 ∷ insert_at 2 1 ∷ insert_at 3 9 ∷ insert_at 5 1 ∷ remove_at 2 ∷ [])
      ([], program) no_breakpoints-Inv

abbrev planted : BreakpointMap × Memory
planted = kept ([], program) (insert_software_breakpoint flat 7 2 1 ([], program))

abbrev cleared : BreakpointMap × Memory
cleared = kept planted (remove_software_breakpoint flat 7 2 planted)

insert-remove_example :
    (cleared.0 ≡ []) × ((c : ℕ) → some (read_from c 1 cleared.1) ≡ some (read_from c 1 program))
insert-remove_example =
    insert-remove flat flat_laws 7 2 1 ([], program) planted cleared no_breakpoints-Inv inserted
      removed
  where
    inserted : insert_software_breakpoint flat 7 2 1 ([], program) ≡ some planted
    inserted = unfold insert_software_breakpoint insert read write lookup in refl

    removed : remove_software_breakpoint flat 7 2 planted ≡ some cleared
    removed =
        unfold insert_software_breakpoint insert read write lookup remove_software_breakpoint remove
          erase in
        refl
