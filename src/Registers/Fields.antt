-- ===== src/Registers/Fields.antt =====
-- Single registers.
use gdbserver.Base.{
  ℕ, zero, suc, ◌<◌, ◌≡◌, ◌≢◌, Bool, some, [], ◌∷◌, length, get_elem?, arith, refl,
}
use gdbserver.Registers.{
  with_tf, Gregs, set_at, set_register, get_register, get_int_register, set_single_step, le_bytes,
  num_registers, eflags,
}
use gdbserver.Registers.Words.{IsWord, le_word-le_bytes}

length-set_at : (n v : ℕ) (ws : Gregs) → length (set_at n v ws) ≡ length ws
unfolding set_at
length-set_at n v [] = refl
length-set_at zero v (w ∷ ws) = refl
length-set_at (suc n) v (w ∷ ws) = omega (arith, length-set_at n v ws)

get-set_at_self : (n v : ℕ) (ws : Gregs) → n < length ws → get_elem? (set_at n v ws) n ≡ some v
unfolding set_at
get-set_at_self n v [] h = absurd (omega arith)
get-set_at_self zero v (w ∷ ws) h = refl
get-set_at_self (suc n) v (w ∷ ws) h = get-set_at_self n v ws (omega arith)

get-set_at_other : (n m v : ℕ) (ws : Gregs) → m ≢ n → get_elem? (set_at n v ws) m ≡ get_elem? ws m
unfolding set_at
get-set_at_other n m v [] h = refl
get-set_at_other zero zero v (w ∷ ws) h = absurd (h refl)
get-set_at_other zero (suc m) v (w ∷ ws) h = refl
get-set_at_other (suc n) zero v (w ∷ ws) h = refl
get-set_at_other (suc n) (suc m) v (w ∷ ws) h = get-set_at_other n m v ws (ground arith)

-- SetRegister of one of the 18 registers, with the eight bytes of a word: the register then reads
-- as that word, every other register as before, and the set keeps its size.
set_register_lem :
    (regno v : ℕ) (gregs : Gregs)
    → length gregs ≡ num_registers
    → regno < num_registers
    → IsWord v
    → (after : Gregs) × (set_register regno (le_bytes 8 v) 8 gregs ≡ some after)
      × (get_int_register regno after ≡ some v)
      × ((other : ℕ) → other ≢ regno → get_register other 8 after ≡ get_register other 8 gregs)
      × (length after ≡ num_registers)
unfolding set_register get_register get_int_register
set_register_lem regno v gregs n h w = (
  set_at regno v gregs,
  ground (arith, le_word-le_bytes v w),
  ground (arith, get-set_at_self regno v gregs (omega arith), le_word-le_bytes v w),
  λ other ne. ground (arith, get-set_at_other regno other v gregs ne),
  ground (arith, length-set_at regno v gregs),
)

set_single_step-some :
    (enable : Bool) (gregs : Gregs) (flags : ℕ)
    → get_elem? gregs eflags ≡ some flags
    → set_single_step enable gregs ≡ set_at eflags (with_tf enable flags) gregs
unfolding set_single_step
set_single_step-some enable gregs flags e = rw (e, set_single_step) refl
