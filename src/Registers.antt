-- ===== src/Registers.antt =====
-- lib/inferior-control: the general registers of a thread (registers.{h,cc}, registers-amd64.{h,cc}).
pub mod Words
pub mod Text
pub mod Fields
use gdbserver.Base.{
  ℕ, zero, suc, ◌+◌, ◌*◌, ◌-◌, ◌/◌, ◌%◌, ◌^◌, Bool, true, false, Option, none, some, List, [], ◌∷◌,
  ◌++◌, Bytes, ◌==◌, ltb, if◌then◌else◌, length, drop, get_elem?, guard, ◌>>◌, ◌>>=◌, bit_and,
  bit_or, not,
}
use gdbserver.Hex.{encode_byte_array_string, decode_byte_array_string}

-- Amd64Register::NUM_REGISTERS, and the registers that the code names.
abbrev pub num_registers : ℕ
num_registers = 18

abbrev pub rbp : ℕ
rbp = 6

abbrev pub rsp : ℕ
rsp = 7

abbrev pub rip : ℕ
rip = 16

abbrev pub eflags : ℕ
eflags = 17

-- EFLAGS_TF_MASK
abbrev pub eflags_tf_mask : ℕ
eflags_tf_mask = 0x100

-- mx_x86_64_general_regs_t: its fields in the order of Amd64Register, each a uint64_t.
abbrev pub Gregs : Type 0
Gregs = List ℕ

-- The bytes of a field in memory, the least significant one first.
unfoldable pub le_bytes : ℕ → ℕ → Bytes
le_bytes zero word = []
le_bytes (suc n) word = word % 256 ∷ le_bytes n (word / 256)

unfoldable pub le_word : Bytes → ℕ
le_word [] = 0
le_word (b ∷ bs) = b + 256 * le_word bs

-- The struct as bytes, and bytes copied over the struct.
unfoldable pub bytes_of : Gregs → Bytes
bytes_of [] = []
bytes_of (w ∷ ws) = le_bytes 8 w ++ bytes_of ws

unfoldable pub words_of : ℕ → Bytes → Gregs
words_of zero bs = []
words_of (suc n) (a ∷ b ∷ c ∷ d ∷ e ∷ f ∷ g ∷ h ∷ bs) =
    le_word (a ∷ b ∷ c ∷ d ∷ e ∷ f ∷ g ∷ h ∷ []) ∷ words_of n bs
words_of (suc n) bs = []

-- The field of a register replaced.
unfoldable pub set_at : ℕ → ℕ → Gregs → Gregs
set_at n v [] = []
set_at zero v (w ∷ ws) = v ∷ ws
set_at (suc n) v (w ∷ ws) = w ∷ set_at n v ws

-- The constructor's memset.
abbrev pub zero_gregs : Gregs
zero_gregs = 0 ∷ 0 ∷ 0 ∷ 0 ∷ 0 ∷ 0 ∷ 0 ∷ 0 ∷ 0 ∷ 0 ∷ 0 ∷ 0 ∷ 0 ∷ 0 ∷ 0 ∷ 0 ∷ 0 ∷ 0 ∷ []

-- GetRegsetAsString of regset 0
unfoldable pub get_regset_as_string : Gregs → Bytes
get_regset_as_string gregs = encode_byte_array_string (bytes_of gregs)

-- SetRegsetFromString, of a regset of 144 bytes: `none` leaves it as it was and returns false.
unfoldable pub set_regset_from_string : Bytes → Option Gregs
set_regset_from_string value = do
  let bytes = decode_byte_array_string value
  guard (length bytes == 144)
  some (words_of num_registers bytes)

-- GetRegister with a buffer of `buf_size` bytes, for a register number that is not negative.
unfoldable pub get_register : ℕ → ℕ → Gregs → Option Bytes
get_register regno buf_size gregs = do
  guard (ltb regno num_registers)
  guard (buf_size == 8)
  w ← get_elem? gregs regno
  some (le_bytes 8 w)

-- GetRegisterAsString: a bad number gives the empty text.
unfoldable pub get_register_as_string : ℕ → Gregs → Bytes
get_register_as_string regno gregs =
    if ltb regno num_registers
    then (elim (get_elem? gregs regno) [
      | none ↦ []
      | some w ↦ encode_byte_array_string (le_bytes 8 w)
    ])
    else []

-- SetRegister with a value of `value_size` bytes.
unfoldable pub set_register : ℕ → Bytes → ℕ → Gregs → Option Gregs
set_register regno value value_size gregs = do
  guard (ltb regno num_registers)
  guard (value_size == 8)
  some (set_at regno (le_word value) gregs)

-- GetIntRegister, where GetRegister succeeds.
unfoldable pub get_int_register : ℕ → Gregs → Option ℕ
get_int_register regno gregs = do bytes ← get_register regno 8 gregs; some (le_word bytes)

-- GetPC, GetSP, GetFP
abbrev pub get_pc : Gregs → Option ℕ
get_pc gregs = get_int_register rip gregs

abbrev pub get_sp : Gregs → Option ℕ
get_sp gregs = get_int_register rsp gregs

abbrev pub get_fp : Gregs → Option ℕ
get_fp gregs = get_int_register rbp gregs

-- SetSingleStep: rflags |= TF, or rflags &= ~TF.
unfoldable pub with_tf : Bool → ℕ → ℕ
with_tf enable rflags =
    if enable then bit_or rflags eflags_tf_mask else bit_and rflags (2 ^ 64 - 1 - eflags_tf_mask)

unfoldable pub set_single_step : Bool → Gregs → Gregs
set_single_step enable gregs = elim (get_elem? gregs eflags) [
  | none ↦ gregs
  | some rflags ↦ set_at eflags (with_tf enable rflags) gregs
]
