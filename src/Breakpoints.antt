-- ===== src/Breakpoints.antt =====
-- lib/inferior-control: software breakpoints (breakpoint.{h,cc}, breakpoint-amd64.cc) over the memory
-- of a process (memory-process.cc).
pub mod Overlay
pub mod History
use gdbserver.Base.{
  ℕ, Bool, true, false, not, Option, none, some, List, [], ◌∷◌, Bytes, ◌==◌, if◌then◌else◌, ◌>>=◌,
  ◌>>◌, guard, length, is_empty, get_elem?, is_none, ◌≡◌, ◌≢◌,
}

-- mx_process_read_memory and mx_process_write_memory: `none` is an error status. A write returns
-- the memory as it is afterwards.
pub record MemoryCalls (Mem : Type 0) : Type 0 where
  pub read_memory : ℕ → ℕ → Mem → Option Bytes
  pub write_memory : ℕ → Bytes → Mem → Option Mem

-- A read gives as many bytes as were asked for; a written byte is read back, and no other changes.
pub record MemoryLaws {Mem : Type 0} (k : MemoryCalls Mem) : Type 0 where
  pub read_length : (a n : ℕ) (m : Mem) (bs : Bytes) → k.read_memory a n m ≡ some bs → length bs ≡ n
  pub read_written :
      (a b : ℕ) (m m' : Mem)
      → k.write_memory a (b ∷ []) m ≡ some m'
      → k.read_memory a 1 m' ≡ some (b ∷ [])
  pub read_other :
      (a b c : ℕ) (m m' : Mem)
      → k.write_memory a (b ∷ []) m ≡ some m'
      → c ≢ a
      → k.read_memory c 1 m' ≡ k.read_memory c 1 m

-- A block of bytes that was written is read back.
pub record BlockLaws {Mem : Type 0} (k : MemoryCalls Mem) : Type 0 where
  pub read_block :
      (a : ℕ) (bs : Bytes) (m m' : Mem)
      → k.write_memory a bs m ≡ some m'
      → k.read_memory a (length bs) m' ≡ some bs

-- kInt3
abbrev pub int3 : ℕ
int3 = 0xCC

-- SoftwareBreakpoint
pub record SoftwareBreakpoint : Type 0 where
  pub address : ℕ
  pub kind : ℕ
  pub original_bytes : Bytes

-- SoftwareBreakpoint::IsInserted
abbrev pub is_inserted : SoftwareBreakpoint → Bool
is_inserted b = not (is_empty b.original_bytes)

-- ProcessBreakpointSet::breakpoints_, a map from addresses.
abbrev pub BreakpointMap : Type 0
BreakpointMap = List (ℕ × SoftwareBreakpoint)

unfoldable pub lookup : ℕ → BreakpointMap → Option SoftwareBreakpoint
lookup a [] = none
lookup a ((k, b) ∷ rest) = if k == a then some b else lookup a rest

unfoldable pub erase : ℕ → BreakpointMap → BreakpointMap
erase a [] = []
erase a ((k, b) ∷ rest) = if k == a then rest else (k, b) ∷ erase a rest

module _ {Mem : Type 0} (k : MemoryCalls Mem) (handle : ℕ) where
  -- ProcessMemory::Read. A read with no handle fails a DCHECK, and the system call otherwise.
  unfoldable pub read : ℕ → ℕ → Mem → Option Bytes
  read address length m = do guard (not (handle == 0)); k.read_memory address length m

  -- ProcessMemory::Write
  unfoldable pub write : ℕ → Bytes → Mem → Option Mem
  write address buffer m = do
    guard (not (handle == 0))
    if length buffer == 0 then some m else k.write_memory address buffer m

  -- SoftwareBreakpoint::Insert: `none` is a return of false, which changes nothing.
  unfoldable pub insert : SoftwareBreakpoint → Mem → Option (SoftwareBreakpoint × Mem)
  insert b m = do
    guard (not (is_inserted b))
    guard (b.kind == 1)
    bytes ← read b.address 1 m
    orig ← get_elem? bytes 0
    m' ← write b.address (int3 ∷ []) m
    some (record b { original_bytes = orig ∷ [] }, m')

  -- SoftwareBreakpoint::Remove: the first of the original bytes is written back.
  unfoldable pub remove : SoftwareBreakpoint → Mem → Option (SoftwareBreakpoint × Mem)
  remove b m = do
    guard (is_inserted b)
    orig ← get_elem? b.original_bytes 0
    m' ← write b.address (orig ∷ []) m
    some (record b { original_bytes = [] }, m')

  -- ProcessBreakpointSet::InsertSoftwareBreakpoint. A breakpoint that could not be inserted is
  -- destroyed without a write, since it is not inserted.
  unfoldable pub insert_software_breakpoint :
      ℕ → ℕ → BreakpointMap × Mem → Option (BreakpointMap × Mem)
  insert_software_breakpoint address kind (bs, m) = do
    guard (is_none (lookup address bs))
    (b, m') ← insert (record { address = address; kind = kind; original_bytes = [] }) m
    some ((address, b) ∷ bs, m')

  -- ProcessBreakpointSet::RemoveSoftwareBreakpoint. What is erased is not inserted any more, so
  -- that its destructor writes nothing.
  unfoldable pub remove_software_breakpoint : ℕ → BreakpointMap × Mem → Option (BreakpointMap × Mem)
  remove_software_breakpoint address (bs, m) = do
    found ← lookup address bs
    (b, m') ← remove found m
    some (erase address bs, m')
