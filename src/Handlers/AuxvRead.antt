-- ===== src/Handlers/AuxvRead.antt =====
-- What qXfer (bin/debugserver/cmd-handler.cc) reads of the auxiliary vector.
use gdbserver.Base.{
  ap, ℕ, zero, suc, ◌+◌, ◌*◌, ◌-◌, ◌≤◌, ◌<◌, ◌≡◌, Option, none, some, [], ◌∷◌, ◌++◌, Bytes, refl,
  arith, length, take, drop, get_elem?, length-append,
}
use gdbserver.Dso.{Dso}
use gdbserver.Ftl.{Ftl}
use gdbserver.Registers.{le_bytes}
use gdbserver.Registers.Words.{length-le_bytes}
use gdbserver.Handlers.{Stub, respond_with}
use gdbserver.Handlers.Auxv.{
  entry_bytes, exec_entries, auxv_bytes, stack_byte, copy_bytes, response_length, auxv_reply,
}

get_elem?-drop :
    (xs : Bytes) (i : ℕ)
    → i < length xs
    → (b : ℕ) × (get_elem? xs i ≡ some b) × (drop i xs ≡ b ∷ drop (suc i) xs)
get_elem?-drop [] i h = absurd (omega arith)
get_elem?-drop (x ∷ xs) zero h = (x, refl, refl)
get_elem?-drop (x ∷ xs) (suc i) h = get_elem?-drop xs i (omega arith)

get_elem?-none : (xs : Bytes) (i : ℕ) → length xs ≤ i → get_elem? xs i ≡ none
get_elem?-none [] i h = refl
get_elem?-none (x ∷ xs) zero h = absurd (omega arith)
get_elem?-none (x ∷ xs) (suc i) h = get_elem?-none xs i (omega arith)

stack_byte-set :
    (auxv : Bytes) (behind : ℕ → ℕ) (k b : ℕ)
    → get_elem? auxv k ≡ some b
    → stack_byte auxv behind k ≡ b
unfolding stack_byte
stack_byte-set auxv behind k b e = ground (arith, e)

stack_byte-behind :
    (auxv : Bytes) (behind : ℕ → ℕ) (k : ℕ)
    → length auxv ≤ k
    → stack_byte auxv behind k ≡ behind (k - length auxv)
unfolding stack_byte
stack_byte-behind auxv behind k h = ground (arith, get_elem?-none auxv k h)

stack_byte-nil : (behind : ℕ → ℕ) (k : ℕ) → stack_byte [] behind k ≡ behind k
unfolding stack_byte
stack_byte-nil behind k = ap behind (omega arith)

copy_set :
    (auxv : Bytes) (behind : ℕ → ℕ) (n from : ℕ)
    → from + n ≤ length auxv
    → copy_bytes auxv behind n from ≡ take n (drop from auxv)
unfolding copy_bytes
copy_set auxv behind zero from h = refl
copy_set auxv behind (suc n) from h =
    let (b, e, d) = get_elem?-drop auxv from (omega arith) in
    rw (stack_byte-set auxv behind from b e)
      (rw d (ap (◌∷◌ b) (copy_set auxv behind n (suc from) (omega arith))))

copy_behind :
    (auxv : Bytes) (behind : ℕ → ℕ) (n from : ℕ)
    → length auxv ≤ from
    → copy_bytes auxv behind n from ≡ copy_bytes [] behind n (from - length auxv)
unfolding copy_bytes
copy_behind auxv behind zero from h = refl
copy_behind auxv behind (suc n) from h =
    let rest = copy_behind auxv behind n (suc from) (omega arith) in
    let next : suc from - length auxv ≡ suc (from - length auxv) = omega arith in
    rw (stack_byte-behind auxv behind from h) (
      rw (stack_byte-nil behind (from - length auxv))
        (ap (◌∷◌ (behind (from - length auxv))) (rw next at rest)))

length-entry_bytes : (key value : ℕ) → length (entry_bytes key value) ≡ 16
unfolding entry_bytes
length-entry_bytes key value = omega (
  arith,
  length-append (le_bytes 8 key) (le_bytes 8 value),
  length-le_bytes 8 key,
  length-le_bytes 8 value,
)

length-auxv_bytes : (base : ℕ) (exec : Option Dso) → length (auxv_bytes base exec) ≤ 96
unfolding auxv_bytes exec_entries
length-auxv_bytes base none = omega (
  arith,
  length-append (entry_bytes 7 base) (entry_bytes 0 0),
  length-entry_bytes 7 base,
  length-entry_bytes 0 0,
)
length-auxv_bytes base (some e) = omega (
  arith,
  length-append (entry_bytes 7 base) (exec_entries (some e) ++ entry_bytes 0 0),
  length-append (exec_entries (some e)) (entry_bytes 0 0),
  length-append (entry_bytes 9 e.entry)
      (entry_bytes 3 e.phdr ++ (entry_bytes 4 e.phentsize ++ entry_bytes 5 e.phnum)),
  length-append (entry_bytes 3 e.phdr) (entry_bytes 4 e.phentsize ++ entry_bytes 5 e.phnum),
  length-append (entry_bytes 4 e.phentsize) (entry_bytes 5 e.phnum),
  length-entry_bytes 7 base,
  length-entry_bytes 9 e.entry,
  length-entry_bytes 3 e.phdr,
  length-entry_bytes 4 e.phentsize,
  length-entry_bytes 5 e.phnum,
  length-entry_bytes 0 0,
)

-- Where no more bytes are asked for than the vector has: at offset 0, qXfer answers with the first
-- bytes of the vector, as many as are asked for; and at an offset of 6 to 160, which the check of the
-- offset lets pass, none of the bytes in the answer is of the vector: all of them are what the stack
-- holds behind it.
pub auxv_reply_offset :
    {W : Type 0} (f : Ftl) (base : ℕ) (exec : Option Dso) (behind : ℕ → ℕ) (offset size : ℕ)
    (v : Stub W)
    → 6 ≤ offset
    → offset ≤ 160
    → size ≤ length (auxv_bytes base exec)
    → (auxv_reply f (auxv_bytes base exec) behind 0 size v
        ≡ respond_with (b'l' ∷ take size (auxv_bytes base exec)) v)
      × (auxv_reply f (auxv_bytes base exec) behind offset size v
          ≡ respond_with
              (b'l'
                ∷ copy_bytes [] behind
                    (response_length (length (auxv_bytes base exec)) offset size)
                    (16 * offset - length (auxv_bytes base exec)))
              v)
unfolding auxv_reply response_length
auxv_reply_offset f base exec behind offset size v h k l =
    let n = length-auxv_bytes base exec in
    (
      ground (arith, copy_set (auxv_bytes base exec) behind size 0 (omega arith)),
      ground (
        arith,
        copy_behind (auxv_bytes base exec) behind
            (response_length (length (auxv_bytes base exec)) offset size) (16 * offset)
            (omega arith),
      ),
    )
