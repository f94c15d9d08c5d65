-- ===== src/Ipt/Written.antt =====
-- The trace files and the buffers (bin/ipt/control.cc, WriteBufferData).
use gdbserver.Base.{
  if◌then◌else◌, subst, ℕ, zero, suc, ◌+◌, ◌*◌, ◌-◌, ◌<◌, ◌≤◌, ◌≡◌, Bool, true, false, Option, none,
  some, [], ◌++◌, Bytes, ◌==◌, min, arith, refl, length, take, take-nil, sym, ap, ◌∙◌, append-nil,
  Bool-cases, inl, inr, ◌^◌,
}
use native.Mathlib.Nat.{mul-le-mul_left}
use gdbserver.Ipt.{BufferConfig, Devices}
use gdbserver.Ipt.Dump.{
  Outcome, finished, failed, int_to_size, write_bytes, write_buffers, finish_file, buffer_size,
  bytes_left, write_buffer_data,
}
use gdbserver.Ipt.Copied.{CopyLaws, take_both, Wrote, Wrote-append, write_bytes-Wrote}

module _ {W : Type 0} (devices : Devices W) (ipt_fd fd descriptor : ℕ)
    (laws : CopyLaws devices ipt_fd fd descriptor) where
  -- The bytes of `count` buffers from `i` on.
  abbrev pub all_bytes : ℕ → ℕ → Bytes
  all_bytes zero i = []
  all_bytes (suc count) i = laws.buffer i ++ all_bytes count (i + 1)

  Wrote-handle :
      (w w' : W) (bytes : Bytes) (left : ℕ) (x : W × Outcome)
      → laws.file w' ≡ laws.file w
      → Wrote devices ipt_fd fd descriptor laws (laws.file w') bytes left x
      → Wrote devices ipt_fd fd descriptor laws (laws.file w) bytes left x
  Wrote-handle w w' bytes left (v, finished l) e (h, k) = (h ∙ ap (λ y. y ++ bytes) e, k)
  Wrote-handle w w' bytes left (v, failed status) e h = h

  module _ (size : ℕ) (full : (i : ℕ) → length (laws.buffer i) ≡ size) where
    -- The rest of a round of the loop over the buffers, for what the inner loop gave.
    abbrev goes_on : ℕ → ℕ → ℕ → W × Outcome → W × Outcome
    goes_on count i vmo (w, outcome) = elim outcome as (λ _. W × Outcome) [
      | failed status ↦ (devices.close_handle vmo w, failed status)
      | finished left ↦
          write_buffers devices count ipt_fd fd descriptor size (i + 1) left
            (devices.close_handle vmo w)
    ]

    goes_on-Wrote :
        (count i vmo left : ℕ) (before : Bytes) (x : W × Outcome)
        → Wrote devices ipt_fd fd descriptor laws before
            (take (min size left) (laws.buffer i))
            (left - size)
            x
        → ((l : ℕ) (w : W)
            → Wrote devices ipt_fd fd descriptor laws
                (laws.file w)
                (take l (all_bytes count (i + 1)))
                (l - count * size)
                (write_buffers devices count ipt_fd fd descriptor size (i + 1) l w))
        → Wrote devices ipt_fd fd descriptor laws before
            (take left (all_bytes (suc count) i))
            (left - suc count * size)
            (goes_on count i vmo x)
    goes_on-Wrote count i vmo left before (w, failed status) h later = h
    goes_on-Wrote count i vmo left before (w, finished l) (h, k) later =
        let w' = devices.close_handle vmo w in
        let f : laws.file w' ≡ before ++ take (min size left) (laws.buffer i) =
          laws.close_handle vmo w ∙ h in
        let b : take (min size left) (laws.buffer i) ++ take l (all_bytes count (i + 1))
            ≡ take left (all_bytes (suc count) i) =
          rw k (sym (rw (full i) at (take_both left (laws.buffer i) (all_bytes count (i + 1))))) in
        Wrote-append devices ipt_fd fd descriptor laws before _ _ _ _ _ _ b (rw k (omega arith))
          (rw f at (later l w'))

    write_buffers-Wrote :
        (count i left : ℕ) (w : W)
        → Wrote devices ipt_fd fd descriptor laws
            (laws.file w)
            (take left (all_bytes count i))
            (left - count * size)
            (write_buffers devices count ipt_fd fd descriptor size i left w)
    unfolding write_buffers
    write_buffers-Wrote zero i left w =
        rw (take-nil left) (sym (append-nil (laws.file w)), omega arith)
    write_buffers-Wrote (suc count) i left w = elim (Bool-cases (left == 0)) [
      | inl e ↦
          let z : left ≡ 0 = ground arith in
          let k : left ≡ left - suc count * size = omega arith in
          rw e (rw z (sym (append-nil (laws.file w))), k)
      | inr e ↦
          let (vmo, q, same) = laws.get_buffer_handle i w in
          let w1 = (devices.get_buffer_handle ipt_fd descriptor i w).0 in
          let x = write_bytes devices size fd vmo 0 size left w1 in
          let bytes = rw same at (
            write_bytes-Wrote devices ipt_fd fd descriptor laws size vmo 0 size left w1
              (omega arith)) in
          rw e (
            rw q (
              goes_on-Wrote count i vmo left (laws.file w) x
                (Wrote-handle w w1 _ _ x (laws.handle_file i w) bytes)
                (λ l w'. write_buffers-Wrote count (i + 1) l w')))
    ]

    -- How WriteBufferData ends: the file has exactly these bytes if the status is NO_ERROR, and the assert only fails if
    -- there are more bytes than the buffers hold.
    abbrev pub EndsWith : ℕ → ℕ → Option (W × Bool) → Type 0
    EndsWith count left none = count * size < left
    EndsWith count left (some (w, true)) =
        (laws.file w ≡ take left (all_bytes count 0)) × (left ≤ count * size)
    EndsWith count left (some (w, false)) = Unit {0}

    finish_file-EndsWith :
        (count left : ℕ) (x : W × Outcome)
        → Wrote devices ipt_fd fd descriptor laws []
            (take left (all_bytes count 0))
            (left - count * size)
            x
        → EndsWith count left (finish_file devices fd x)
    unfolding finish_file
    finish_file-EndsWith count left (w, failed true) h = absurd (ground (arith, h))
    finish_file-EndsWith count left (w, failed false) h = tt
    finish_file-EndsWith count left (w, finished l) (h, k) = elim (Bool-cases (l == 0)) [
      | inl e ↦ rw e (laws.close_file w ∙ h, ground arith)
      | inr e ↦ rw e (ground arith)
    ]

-- The world after the first calls of WriteBufferData.
module _ {W : Type 0} (devices : Devices W) (path : Bytes) (ipt_fd descriptor : ℕ) (w : W) where
  abbrev pub with_config : W
  with_config = (devices.get_buffer_config ipt_fd descriptor w).0

  abbrev pub with_info : W
  with_info = (devices.get_buffer_info ipt_fd descriptor with_config).0

  abbrev pub with_file : W
  with_file = (devices.create_file path with_info).0

int_to_size_lem : (n : ℕ) → n < 2 ^ 31 → int_to_size n ≡ n
unfolding int_to_size
int_to_size_lem n h = ground arith

-- What is to be written of buffers of some size.
abbrev pub traced : BufferConfig → ℕ → ℕ → ℕ
traced config size capture_end =
    if config.is_circular then config.num_buffers * size else capture_end

-- The product of an uint32_t and an int that is not negative.
product_below : (n s : ℕ) → n < 2 ^ 32 → s < 2 ^ 31 → n * s < 2 ^ 64
product_below n s h k = omega (arith, mul-le-mul_left {m = s} {n = 2 ^ 31} n (omega arith))

bytes_left_lem :
    {W : Type 0} (devices : Devices W) (page_size : ℕ) (config : BufferConfig)
    (size capture_end : ℕ)
    → buffer_size devices page_size config ≡ size
    → size < 2 ^ 31
    → config.num_buffers < 2 ^ 32
    → bytes_left devices page_size config capture_end ≡ traced config size capture_end
bytes_left_lem devices page_size config size capture_end e s n =
    let below : config.num_buffers * size < 2 ^ 64 = product_below config.num_buffers size n s in
    elim (Bool-cases config.is_circular) [
      | inl c ↦ rw c (rw e (omega (arith, below)))
      | inr c ↦ rw c refl
    ]

-- The buffers of a descriptor are as the kernel describes them, all of them can be had, and the file can be created;
-- there are less than 2^32, and a buffer's size fits an int. WriteBufferData then returns NO_ERROR only if the file
-- holds exactly what was traced: all buffers one after the other if they are circular, and up to capture_end if not.
-- Its assert fails only if that is more than they hold.
pub write_buffer_data-EndsWith :
    {W : Type 0} (devices : Devices W) (ipt_fd fd descriptor : ℕ)
    (laws : CopyLaws devices ipt_fd fd descriptor) (page_size : ℕ) (path : Bytes)
    (config : BufferConfig) (capture_end : ℕ) (w : W)
    → (devices.get_buffer_config ipt_fd descriptor w).1 ≡ some config
    → (devices.get_buffer_info ipt_fd descriptor (with_config devices path ipt_fd descriptor w)).1
      ≡ some capture_end
    → (devices.create_file path (with_info devices path ipt_fd descriptor w)).1 ≡ some fd
    → laws.file (with_file devices path ipt_fd descriptor w) ≡ []
    → config.num_buffers < 2 ^ 32
    → 2 ^ config.buffer_order * page_size < 2 ^ 31
    → (full : (i : ℕ) → length (laws.buffer i) ≡ 2 ^ config.buffer_order * page_size)
    → EndsWith devices ipt_fd fd descriptor laws
        (2 ^ config.buffer_order * page_size)
        full
        config.num_buffers
        (traced config (2 ^ config.buffer_order * page_size) capture_end)
        (write_buffer_data devices page_size path ipt_fd descriptor w)
unfolding write_buffer_data
write_buffer_data-EndsWith {W = W} devices ipt_fd fd descriptor laws page_size path config
      capture_end w c i f e few fits full =
    let w3 = with_file devices path ipt_fd descriptor w in
    let size = 2 ^ config.buffer_order * page_size in
    let left = traced config size capture_end in
    let same = int_to_size_lem size fits in
    let ends : ℕ → ℕ → Option (W × Bool) = λ size left.
      finish_file devices fd
        (write_buffers devices config.num_buffers ipt_fd fd descriptor size 0 left w3) in
    let q : write_buffer_data devices page_size path ipt_fd descriptor w ≡ ends size left =
      rw (c, write_buffer_data) (rw i (rw f refl))
      ∙ ap (λ s. ends s (bytes_left devices page_size config capture_end)) same
      ∙ ap (ends size) (bytes_left_lem devices page_size config size capture_end same fits few) in
    let start = write_buffers devices config.num_buffers ipt_fd fd descriptor size 0 left w3 in
    subst (EndsWith devices ipt_fd fd descriptor laws size full config.num_buffers left) (sym q) (
      finish_file-EndsWith devices ipt_fd fd descriptor laws size full config.num_buffers left start
        (rw e at (
          write_buffers-Wrote devices ipt_fd fd descriptor laws size full config.num_buffers 0 left
            w3)))
