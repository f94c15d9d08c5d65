-- ===== src/ByteBlock.antt =====
-- lib/debugger-utils: byte blocks (byte-block.h), their implementation by a file (byte-block-file.cc),
-- and ReadString (util-mx.cc).

use gdbserver.Base.{
  ◌++◌, ℕ, zero, suc, ◌+◌, ◌%◌, ◌^◌, Bool, true, false, Option, none, some, [], ◌∷◌, Bytes, ◌==◌,
  is_empty, if◌then◌else◌, length,
}

-- ByteBlock::Read, on an object that does not change: an address and a length; `none` is a return
-- of false.
abbrev pub ByteBlock : Type 0
ByteBlock = ℕ → ℕ → Option Bytes

-- lseek, read and write on a file descriptor. `read` gives what was read, which may be less than
-- was asked for; `none` is an error. `write` gives the file afterwards, and how much was written. The
-- result of lseek is as a uint64_t, and 2 ^ 64 - 1 for an error.
pub record FileCalls (F : Type 0) : Type 0 where
  pub lseek : ℕ → F → ℕ × F
  pub read : ℕ → F → Option Bytes
  pub write : Bytes → F → F × Option ℕ

module _ {F : Type 0} (calls : FileCalls F) where
  -- lseek, and the test of its result.
  unfoldable pub seek : ℕ → F → Option F
  seek address file =
      let (place, file') = calls.lseek address file in if place == address then some file' else none

  -- FileByteBlock::Read
  unfoldable pub file_read : F → ByteBlock
  file_read file address size = elim (seek address file) [
    | none ↦ none
    | some file' ↦ elim (calls.read size file') [
      | none ↦ none
      | some bytes ↦ if size == length bytes then some bytes else none
    ]
  ]

  -- FileByteBlock::Write
  unfoldable pub file_write : ℕ → Bytes → F → F × Bool
  file_write address buffer file =
      if is_empty buffer then (file, true) else elim (seek address file) [
        | none ↦ (file, false)
        | some file' ↦
            let (after, written) = calls.write buffer file' in
            elim written [ none ↦ (after, false) | some n ↦ (after, length buffer == n) ]
      ]

-- ReadString, for a buffer of `max` bytes: what stands in the buffer before the final null byte, and
-- the result. It reads byte by byte, and does not look for a null byte.
unfoldable pub read_string : ByteBlock → ℕ → ℕ → Bytes × Bool
read_string m vaddr zero = ([], true)
read_string m vaddr (suc zero) = ([], true)
read_string m vaddr (suc (suc max)) =
    let rest = read_string m ((vaddr + 1) % 2 ^ 64) (suc max) in
    elim (m vaddr 1) [ none ↦ ([], false) | some byte ↦ (byte ++ rest.0, rest.1) ]

-- The buffer as a C string.
unfoldable pub c_string : Bytes → Bytes
c_string [] = []
c_string (c ∷ s) = let rest = c_string s in if c == 0 then [] else c ∷ rest
