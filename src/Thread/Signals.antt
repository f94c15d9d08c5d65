-- ===== src/Thread/Signals.antt =====
-- arch-amd64.cc and arch.h: the signal of an exception.
use gdbserver.Base.{
  subst, ℕ, List, [], ◌∷◌, All, get_elem?, zero, suc, Option-cases, Bool-cases, inl, inr, ◌≤◌, ◌≡◌,
  ℤ, pos, negsuc, Bool, none, some, ◌==◌, leb, if◌then◌else◌, arith, refl,
}
use mathlib.Core.Option.{some-injective}
use gdbserver.Thread.{Thread, Context}

-- GdbSignal
pub data GdbSignal : Type 0 where
  unsupported : GdbSignal
  none_signal : GdbSignal
  int : GdbSignal
  quit : GdbSignal
  ill : GdbSignal
  trap : GdbSignal
  abrt : GdbSignal
  emt : GdbSignal
  fpe : GdbSignal
  bus : GdbSignal
  segv : GdbSignal
  urg : GdbSignal
  stop : GdbSignal
  cont : GdbSignal
  vtalrm : GdbSignal
  usr1 : GdbSignal
  usr2 : GdbSignal

unfoldable pub signal_value : GdbSignal → ℤ
signal_value unsupported = negsuc 0
signal_value none_signal = pos 0
signal_value int = pos 2
signal_value quit = pos 3
signal_value ill = pos 4
signal_value trap = pos 5
signal_value abrt = pos 6
signal_value emt = pos 7
signal_value fpe = pos 8
signal_value bus = pos 10
signal_value segv = pos 11
signal_value urg = pos 16
signal_value stop = pos 17
signal_value cont = pos 19
signal_value vtalrm = pos 26
signal_value usr1 = pos 30
signal_value usr2 = pos 31

-- The cases of ComputeGdbSignal for the vectors 0 to 21, in order.
abbrev pub signal_table : List GdbSignal
signal_table =
    fpe ∷ trap ∷ urg ∷ trap ∷ fpe ∷ segv ∷ ill ∷ fpe ∷ emt ∷ segv ∷ segv ∷ segv ∷ segv ∷ segv ∷ segv
    ∷ usr1 ∷ emt ∷ emt ∷ urg ∷ fpe ∷ vtalrm ∷ segv ∷ []

-- ComputeGdbSignal: the vectors 22 to 31 are reserved, the others are raised by software.
unfoldable pub compute_gdb_signal : ℕ → GdbSignal
compute_gdb_signal vector = elim (get_elem? signal_table vector) [
  | some signal ↦ signal
  | none ↦ if leb vector 31 then usr1 else usr2
]

-- IsSingleStepException
abbrev pub is_single_step_exception : Context → Bool
is_single_step_exception context = context.vector == 1

-- Thread::GetGdbSignal
unfoldable pub get_gdb_signal : Thread → GdbSignal
get_gdb_signal t = elim t.exception_context [
  | none ↦ unsupported
  | some context ↦ compute_gdb_signal context.vector
]

-- The number of a signal that can be reported.
abbrev pub IsReported : GdbSignal → Type 0
IsReported g = (n : ℕ) × (signal_value g ≡ pos n) × (4 ≤ n) × (n ≤ 31)

All-at :
    {A : Type 0} (P : A → Type 0) (xs : List A) (n : ℕ) (x : A)
    → All P xs
    → get_elem? xs n ≡ some x
    → P x
All-at P [] n x h e = absurd (ground arith)
All-at P (y ∷ ys) zero x (p, h) e = subst P (some-injective _ _ e) p
All-at P (y ∷ ys) (suc n) x (p, h) e = All-at P ys n x h e

ill-IsReported : IsReported ill
unfolding signal_value
ill-IsReported = (4, refl, omega arith, omega arith)

trap-IsReported : IsReported trap
unfolding signal_value
trap-IsReported = (5, refl, omega arith, omega arith)

emt-IsReported : IsReported emt
unfolding signal_value
emt-IsReported = (7, refl, omega arith, omega arith)

fpe-IsReported : IsReported fpe
unfolding signal_value
fpe-IsReported = (8, refl, omega arith, omega arith)

segv-IsReported : IsReported segv
unfolding signal_value
segv-IsReported = (11, refl, omega arith, omega arith)

urg-IsReported : IsReported urg
unfolding signal_value
urg-IsReported = (16, refl, omega arith, omega arith)

vtalrm-IsReported : IsReported vtalrm
unfolding signal_value
vtalrm-IsReported = (26, refl, omega arith, omega arith)

usr1-IsReported : IsReported usr1
unfolding signal_value
usr1-IsReported = (30, refl, omega arith, omega arith)

table-IsReported : All IsReported signal_table
table-IsReported = (
  fpe-IsReported,
  (
    trap-IsReported,
    (
      urg-IsReported,
      (
        trap-IsReported,
        (
          fpe-IsReported,
          (
            segv-IsReported,
            (
              ill-IsReported,
              (
                fpe-IsReported,
                (
                  emt-IsReported,
                  (
                    segv-IsReported,
                    (
                      segv-IsReported,
                      (
                        segv-IsReported,
                        (
                          segv-IsReported,
                          (
                            segv-IsReported,
                            (
                              segv-IsReported,
                              (
                                usr1-IsReported,
                                (
                                  emt-IsReported,
                                  (
                                    emt-IsReported,
                                    (
                                      urg-IsReported,
                                      (fpe-IsReported, (vtalrm-IsReported, (segv-IsReported, tt))),
                                    ),
                                  ),
                                ),
                              ),
                            ),
                          ),
                        ),
                      ),
                    ),
                  ),
                ),
              ),
            ),
          ),
        ),
      ),
    ),
  ),
)

-- Every exception vector is mapped to a signal from 4 (SIGILL) to 31 (SIGUSR2): the architecture is
-- never reported as unsupported, and the signal fits in the byte of a stop reply.
pub compute_gdb_signal-IsReported : (vector : ℕ) → IsReported (compute_gdb_signal vector)
unfolding compute_gdb_signal signal_value
compute_gdb_signal-IsReported vector = elim (Option-cases (get_elem? signal_table vector)) [
  | inr (g, e) ↦ rw e (All-at IsReported signal_table vector g table-IsReported e)
  | inl e ↦ elim (Bool-cases (leb vector 31)) [
    | inl b ↦ rw (e, b) (30, refl, omega arith, omega arith)
    | inr b ↦ rw (e, b) (31, refl, omega arith, omega arith)
  ]
]
