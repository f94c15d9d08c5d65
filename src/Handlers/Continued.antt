-- ===== src/Handlers/Continued.antt =====
-- The packet C with an address.
use gdbserver.Base.{
  ℕ, true, some, ◌∷◌, ◌++◌, Bytes, ◌≡◌, ◌⊎◌, inl, inr, refl, arith, length, Lacks, find-append,
  take-append, drop-append, Option-cases, Bool-cases, ℤ, pos, negsuc,
}
use gdbserver.Ftl.{Ftl, FtlLaws}
use gdbserver.Thread.{Thread}
use gdbserver.Thread.Signals.{get_gdb_signal, signal_value}
use gdbserver.Process.{ProcessCalls, is_attached}
use gdbserver.Handlers.{Stub, perm, inval, reply_with_error, get_current_thread}
use gdbserver.Handlers.RegisterPackets.{
  handle_upper_c, continue_with_signal, continue_thread, same_signal,
}

module _ {W : Type 0} (calls : ProcessCalls W) (f : Ftl) (laws : FtlLaws f) where
  -- The packet C with an address never continues: whatever the signal and the address are, it is
  -- answered with an error, and nothing has changed. The address is taken from the semicolon on,
  -- which is no digit.
  handle_upper_c_address :
      (sig addr : Bytes) (t : Thread) (v : Stub W)
      → Lacks b';' sig
      → is_attached v.system.process ≡ some true
      → get_current_thread v ≡ some t
      → (code : ℕ) × (handle_upper_c calls f (sig ++ b';' ∷ addr) v ≡ reply_with_error f code v)
  unfolding handle_upper_c continue_with_signal continue_thread same_signal
  handle_upper_c_address sig addr t v h at current =
      let semi = find-append b';' sig addr h in
      let front = take-append (length sig) sig (b';' ∷ addr) refl in
      let back = drop-append (length sig) sig (b';' ∷ addr) refl in
      elim (Option-cases (f.string_to_int sig)) [
        | inl e ↦ (inval, ground (arith, semi, front))
        | inr (n, e) ↦ elim (signal_cases (signal_value (get_gdb_signal t))) [
          | inl (m, g) ↦ (perm, ground (arith, semi, front))
          | inr (m, g) ↦ elim (Bool-cases (same_signal n m)) [
            | inl q ↦ (inval, ground (arith, semi, front, back, laws.u64_semicolon addr))
            | inr q ↦ (perm, ground (arith, semi, front))
          ]
        ]
      ]
    where
      signal_cases : (z : ℤ) → ((m : ℕ) × (z ≡ negsuc m)) ⊎ ((m : ℕ) × (z ≡ pos m))
      signal_cases (negsuc m) = inl (m, refl)
      signal_cases (pos m) = inr (m, refl)
