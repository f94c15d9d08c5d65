-- ===== src/Ipt/Copied.antt =====
-- The inner loop of WriteBufferData and the file (bin/ipt/control.cc).
use gdbserver.Base.{
  ℕ, zero, suc, ◌+◌, ◌-◌, ◌<◌, ◌≤◌, ◌≡◌, true, false, ◌||◌, some, [], ◌∷◌, ◌++◌, Bytes, ◌==◌, min,
  arith, refl, length, take, drop, take-add, drop-add, sym, ap, ◌∙◌, append_assoc, append-nil,
  Bool-cases, Option-cases, inl, inr,
}
use gdbserver.Ipt.{Devices}
use gdbserver.Ipt.Dump.{Outcome, finished, failed, buf_size, write_bytes}

-- What is taken of two lists, one behind the other.
pub take_both :
    (n : ℕ) (xs ys : Bytes)
    → take n (xs ++ ys) ≡ take (min (length xs) n) xs ++ take (n - length xs) ys
take_both zero [] ys = refl
take_both (suc n) [] ys =
    rw (let e : min 0 (suc n) ≡ 0 = omega arith in e)
      (rw (let e : suc n - 0 ≡ suc n = omega arith in e) refl)
take_both zero (x ∷ xs) ys =
    rw (let e : min (length (x ∷ xs)) 0 ≡ 0 = omega arith in e)
      (rw (let e : 0 - length (x ∷ xs) ≡ 0 = omega arith in e) refl)
take_both (suc n) (x ∷ xs) ys =
    rw (let e : min (length (x ∷ xs)) (suc n) ≡ suc (min (length xs) n) = omega arith in e) (
      rw (let e : suc n - length (x ∷ xs) ≡ n - length xs = omega arith in e)
        (ap (◌∷◌ x) (take_both n xs ys)))

-- What the calls do, for the buffers of one descriptor and the file that they are written to: every buffer can be had,
-- a read gives the bytes that were asked for, and a write that succeeds appends.
pub record CopyLaws {W : Type 0} (devices : Devices W) (ipt_fd fd descriptor : ℕ) : Type 0 where
  pub buffer : ℕ → Bytes
  pub vmo_bytes : ℕ → Bytes
  pub file : W → Bytes
  pub get_buffer_handle :
      (i : ℕ) (w : W)
      → (vmo : ℕ) × ((devices.get_buffer_handle ipt_fd descriptor i w).1 ≡ some vmo)
        × (vmo_bytes vmo ≡ buffer i)
  pub handle_file :
      (i : ℕ) (w : W) → file (devices.get_buffer_handle ipt_fd descriptor i w).0 ≡ file w
  pub vmo_read :
      (vmo offset n : ℕ) (buf : Bytes) (w : W)
      → (devices.vmo_read vmo offset n w).1 ≡ some buf
      → buf ≡ take n (drop offset (vmo_bytes vmo))
  pub read_file : (vmo offset n : ℕ) (w : W) → file (devices.vmo_read vmo offset n w).0 ≡ file w
  pub write :
      (buf : Bytes) (w : W)
      → (devices.write fd buf w).1 ≡ true
      → file (devices.write fd buf w).0 ≡ file w ++ buf
  pub close_handle : (vmo : ℕ) (w : W) → file (devices.close_handle vmo w) ≡ file w
  pub close_file : (w : W) → file (devices.close fd w) ≡ file w

module _ {W : Type 0} (devices : Devices W) (ipt_fd fd descriptor : ℕ)
    (laws : CopyLaws devices ipt_fd fd descriptor) where
  -- A loop that comes to its end has appended these bytes, and this number of bytes is left; one that fails has an
  -- error for its status.
  abbrev pub Wrote : Bytes → Bytes → ℕ → W × Outcome → Type 0
  Wrote before bytes left (w, finished l) = (laws.file w ≡ before ++ bytes) × (l ≡ left)
  Wrote before bytes left (w, failed status) = status ≡ false

  pub Wrote-append :
      (before a b c : Bytes) (left left' : ℕ) (x : W × Outcome)
      → a ++ b ≡ c
      → left ≡ left'
      → Wrote (before ++ a) b left x
      → Wrote before c left' x
  Wrote-append before a b c left left' (w, finished l) e n (h, k) =
      (h ∙ (append_assoc before a b ∙ ap (λ y. before ++ y) e), k ∙ n)
  Wrote-append before a b c left left' (w, failed status) e n h = h

  abbrev chunk : ℕ → ℕ → ℕ
  chunk remaining left = min (min buf_size remaining) left

  -- What is still to be written is what the next round writes, and then the rest.
  chunk-append :
      (offset remaining left : ℕ) (bytes : Bytes)
      → take (chunk remaining left) (drop offset bytes)
          ++ take
              (min (remaining - chunk remaining left) (left - chunk remaining left))
              (drop (offset + chunk remaining left) bytes)
        ≡ take (min remaining left) (drop offset bytes)
  chunk-append offset remaining left bytes =
      let n = chunk remaining left in
      let m = min (remaining - n) (left - n) in
      let e : min remaining left ≡ n + m = omega arith in
      rw e (rw (drop-add offset n bytes) (sym (take-add n m (drop offset bytes))))

  pub write_bytes-Wrote :
      (fuel vmo offset remaining left : ℕ) (w : W)
      → remaining ≤ fuel
      → Wrote
          (laws.file w)
          (take (min remaining left) (drop offset (laws.vmo_bytes vmo)))
          (left - remaining)
          (write_bytes devices fuel fd vmo offset remaining left w)
  unfolding write_bytes
  write_bytes-Wrote zero vmo offset remaining left w h =
      let e : min remaining left ≡ 0 = omega arith in
      rw e (sym (append-nil (laws.file w)), omega arith)
  write_bytes-Wrote (suc fuel) vmo offset remaining left w h =
      elim (Bool-cases (remaining == 0 || left == 0)) [
        | inl e ↦
            let z : min remaining left ≡ 0 = ground arith in
            let k : left ≡ left - remaining = ground arith in
            rw e (rw z (sym (append-nil (laws.file w)), k))
        | inr e ↦
            let n = chunk remaining left in
            let pos : 0 < n = ground arith in
            elim (Option-cases (devices.vmo_read vmo offset n w).1) [
              | inl q ↦ rw e (rw q refl)
              | inr (buf, q) ↦
                  let w1 = (devices.vmo_read vmo offset n w).0 in
                  elim (Bool-cases (devices.write fd buf w1).1) [
                    | inr u ↦ rw e (rw q (rw u refl))
                    | inl u ↦
                        let w2 = (devices.write fd buf w1).0 in
                        let later =
                          write_bytes-Wrote fuel vmo (offset + n) (remaining - n) (left - n) w2
                            (omega arith) in
                        let f : laws.file w2
                            ≡ laws.file w ++ take n (drop offset (laws.vmo_bytes vmo)) =
                          laws.write buf w1 u
                          ∙ (ap (λ y. y ++ buf) (laws.read_file vmo offset n w)
                              ∙ ap (λ y. laws.file w ++ y) (laws.vmo_read vmo offset n buf w q)) in
                        rw e (
                          rw q (
                            rw u (
                              Wrote-append (laws.file w) _ _ _ _ _ _
                                (chunk-append offset remaining left (laws.vmo_bytes vmo))
                                (omega arith) (rw f at later))))
                  ]
            ]
      ]
