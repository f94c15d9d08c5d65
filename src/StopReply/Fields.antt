-- ===== src/StopReply/Fields.antt =====
-- The fields of a stop reply for a signal.
use gdbserver.StopReply.Printed.{
  Field, print_fields, read_fields, IsField, read-print_fields, print_fields-append,
}
use gdbserver.Hex.RoundTrip.{encode_byte-IsHexChar}
use gdbserver.Base.{
  ap, IsByte, if◌then◌else◌, ◌∙◌, ◌%◌, append-nil, sym, map, ℕ, ◌≤◌, false, Option, none, some,
  List, [], ◌∷◌, ◌++◌, Bytes, ◌≡◌, refl, length, arith, All, All-append, All-map, append_assoc,
  is_empty, codes, ◌≢◌, ◌>>=◌,
}
use gdbserver.Ftl.{Ftl, FtlLaws}
use gdbserver.Hex.{encode_byte_string}
use gdbserver.Hex.Digits.{IsHexChar}
use gdbserver.ThreadId.RoundTrip.{encode-Lacks}
use gdbserver.ThreadId.{encode_thread_id}
use gdbserver.StopReply.{
  add_register_values, StopReplyPacket, received_signal, stop_reply_packet, set_signal_number,
  set_thread_id, add_register_value, set_stop_reason, build, type_letter, insert_registers,
  insert_thread_id,
}

-- The fields that a stop reply is to have: the registers, the thread, and the reason if any.
abbrev pub register_field : ℕ × Bytes → Field
register_field r = record { key = encode_byte_string r.0; value = r.1 }

abbrev pub thread_field : Ftl → ℕ → ℕ → Field
thread_field f pid tid = record { key = codes "thread"; value = encode_thread_id f pid tid }

abbrev pub reason_fields : Option Bytes → List Field
reason_fields none = []
reason_fields (some reason) = record { key = reason; value = [] } ∷ []

abbrev pub with_reason : Option Bytes → StopReplyPacket → Option StopReplyPacket
with_reason none p = some p
with_reason (some reason) p = set_stop_reason reason p

insert_registers-append :
    (xs : List Bytes) (v : Bytes)
    → insert_registers (xs ++ v ∷ []) ≡ insert_registers xs ++ (v ++ b';' ∷ [])
unfolding insert_registers
insert_registers-append [] v = refl
insert_registers-append (x ∷ xs) v = simp (insert_registers-append xs v, append_assoc)

-- AddRegisterValue and its loop where no check fails.
abbrev added_register : ℕ → Bytes → StopReplyPacket → StopReplyPacket
added_register n v p = record p {
  register_values = p.register_values ++ (encode_byte_string n ++ b':' ∷ v) ∷ [];
}

unfoldable pub added : List (ℕ × Bytes) → StopReplyPacket → StopReplyPacket
added [] p = p
added ((n, v) ∷ rest) p = added rest (added_register n v p)

abbrev pub HasValue : ℕ × Bytes → Type 0
HasValue r = r.1 ≢ []

pub add_register_values-added :
    (regs : List (ℕ × Bytes)) (p : StopReplyPacket)
    → p.type ≡ received_signal
    → All HasValue regs
    → add_register_values regs p ≡ some (added regs p)
unfolding add_register_values add_register_value added
add_register_values-added [] p e h = refl
add_register_values-added ((n, []) ∷ rest) p e (h, hs) = absurd (h refl)
add_register_values-added ((n, c ∷ v) ∷ rest) p e (h, hs) =
    ground (arith, add_register_values-added rest (added_register n (c ∷ v) p) e hs)

registers_added :
    (regs : List (ℕ × Bytes)) (p : StopReplyPacket)
    → let q = added regs p in
      (q.type ≡ p.type)
      × (q.signo ≡ p.signo)
      × (q.tid_string ≡ p.tid_string)
      × (q.stop_reason ≡ p.stop_reason)
      × (insert_registers q.register_values
          ≡ insert_registers p.register_values ++ print_fields (map register_field regs))
unfolding added
registers_added [] p = (refl, refl, refl, refl, sym (append-nil _))
registers_added ((n, v) ∷ rest) p =
    let (t, s, i, r, regs) = registers_added rest (added_register n v p) in
    (
      t,
      s,
      i,
      r,
      regs
          ∙ simp (
            insert_registers-append p.register_values (encode_byte_string n ++ b':' ∷ v),
            append_assoc,
          ),
    )

-- The packet as OnArchitecturalException and OnThreadStarting build it.
abbrev pub signal_packet : Ftl → ℕ → ℕ → ℕ → List (ℕ × Bytes) → Option Bytes → Option Bytes
signal_packet f sig pid tid regs reason = do
  p ← set_thread_id f pid tid (set_signal_number sig (stop_reply_packet received_signal))
  q ← add_register_values regs p
  reply ← with_reason reason q
  build reply

-- The packet before its registers are added.
abbrev pub named : Ftl → ℕ → ℕ → ℕ → StopReplyPacket
named f sig pid tid = record {
  type = received_signal;
  signo = sig % 256;
  tid_string = encode_thread_id f pid tid;
  register_values = [];
  stop_reason = [];
}

pub set_thread_id-named :
    (f : Ftl) (sig pid tid : ℕ)
    → set_thread_id f pid tid (set_signal_number sig (stop_reply_packet received_signal))
      ≡ some (named f sig pid tid)
unfolding set_thread_id set_signal_number stop_reply_packet
set_thread_id-named f sig pid tid = refl

abbrev pub signal_fields : Ftl → ℕ → ℕ → List (ℕ × Bytes) → Option Bytes → List Field
signal_fields f pid tid regs reason =
    map register_field regs ++ (thread_field f pid tid ∷ reason_fields reason)

-- The signal number that is reported: a reason overrides it by 5.
abbrev pub reported : ℕ → Option Bytes → ℕ
reported sig none = sig % 256
reported sig (some reason) = 5

abbrev reason_text : Bytes → Bytes
reason_text stop_reason = if is_empty stop_reason then [] else stop_reason ++ b';' ∷ []

build_parts :
    (q : StopReplyPacket) (t regs : Bytes)
    → q.type ≡ received_signal
    → q.signo ≢ 0
    → q.tid_string ≡ b'p' ∷ t
    → insert_registers q.register_values ≡ regs
    → build q
      ≡ some (
          b'T'
          ∷ (encode_byte_string (if is_empty q.stop_reason then q.signo else 5)
              ++ (regs
                  ++ ((codes "thread:" ++ ((b'p' ∷ t) ++ b';' ∷ []))
                      ++ reason_text q.stop_reason))))
unfolding build insert_thread_id type_letter
build_parts q t regs e n i r = ground arith

is_empty-append : (xs ys : Bytes) (y : ℕ) → is_empty (xs ++ y ∷ ys) ≡ false
is_empty-append [] ys y = refl
is_empty-append (x ∷ xs) ys y = refl

-- The text of a stop reply for a signal.
abbrev pub signal_text : Ftl → ℕ → ℕ → ℕ → List (ℕ × Bytes) → Option Bytes → Bytes
signal_text f sig pid tid regs reason =
    b'T'
    ∷ (encode_byte_string (reported sig reason)
        ++ print_fields (signal_fields f pid tid regs reason))

pub build-added :
    (f : Ftl) (sig pid tid : ℕ) (regs : List (ℕ × Bytes))
    → sig % 256 ≢ 0
    → build (added regs (named f sig pid tid)) ≡ some (signal_text f sig pid tid regs none)
unfolding insert_registers encode_thread_id
build-added f sig pid tid regs nz =
    let start = named f sig pid tid in
    let q = added regs start in
    let (type, signo, id, reason, texts) = registers_added regs start in
    let t = f.number_to_hex pid ++ b'.' ∷ f.number_to_hex tid in
    build_parts q t (print_fields (map register_field regs)) type (λ z. nz (sym signo ∙ z)) id texts
    ∙ ap some (simp (reason, signo, print_fields-append, append_assoc, append-nil))

build-with_reason :
    (f : Ftl) (sig pid tid : ℕ) (regs : List (ℕ × Bytes)) (r : Bytes)
    → sig % 256 ≢ 0
    → build (record (added regs (named f sig pid tid)) { stop_reason = r ++ b':' ∷ [] })
      ≡ some (signal_text f sig pid tid regs (some r))
unfolding insert_registers encode_thread_id
build-with_reason f sig pid tid regs r nz =
    let start = named f sig pid tid in
    let q = added regs start in
    let (type, signo, id, reason, texts) = registers_added regs start in
    let t = f.number_to_hex pid ++ b'.' ∷ f.number_to_hex tid in
    build_parts (record q { stop_reason = r ++ b':' ∷ [] }) t
      (print_fields (map register_field regs)) type (λ z. nz (sym signo ∙ z)) id texts
    ∙ ap some (simp (is_empty-append, print_fields-append, append_assoc))

-- Every signal packet is the letter, two digits and its fields.
pub build_signal :
    (f : Ftl) (sig pid tid : ℕ) (regs : List (ℕ × Bytes)) (reason : Option Bytes)
    → sig % 256 ≢ 0
    → All HasValue regs
    → signal_packet f sig pid tid regs reason ≡ some (signal_text f sig pid tid regs reason)
unfolding set_stop_reason
build_signal f sig pid tid regs none nz h = ground (
  arith,
  set_thread_id-named f sig pid tid,
  add_register_values-added regs (named f sig pid tid) refl h,
  build-added f sig pid tid regs nz,
)
build_signal f sig pid tid regs (some r) nz h =
    let (type, _, _, _, _) = registers_added regs (named f sig pid tid) in
    ground (
      arith,
      set_thread_id-named f sig pid tid,
      add_register_values-added regs (named f sig pid tid) refl h,
      type,
      build-with_reason f sig pid tid regs r nz,
    )

-- A register of an exception report: a byte, and a value in hexadecimal digits that is not empty.
abbrev pub IsRegister : ℕ × Bytes → Type 0
IsRegister r = IsByte r.0 × (r.1 ≢ []) × All IsHexChar r.1

pub IsRegister-HasValue : (regs : List (ℕ × Bytes)) → All IsRegister regs → All HasValue regs
IsRegister-HasValue regs h = All-map (λ r (i : IsRegister r). let (_, ne, _) = i in ne) regs h

-- A reason of letters: it holds none of the separators of fields and packets.
abbrev pub IsLetter : ℕ → Type 0
IsLetter c = (b'a' ≤ c) × (c ≤ b'z')

abbrev pub IsReason : Option Bytes → Type 0
IsReason none = Unit
IsReason (some reason) = All IsLetter reason

module _ (f : Ftl) (laws : FtlLaws f) where
  registers-IsField :
      (regs : List (ℕ × Bytes)) → All IsRegister regs → All IsField (map register_field regs)
  registers-IsField [] h = tt
  registers-IsField ((n, v) ∷ rest) ((hn, _, hv), h) = (
    (
      All-map (λ c (i : IsHexChar c). ground arith) (encode_byte_string n)
          (encode_byte-IsHexChar n hn),
      All-map (λ c (i : IsHexChar c). ground arith) v hv,
    ),
    registers-IsField rest h,
  )

  reason-IsField : (reason : Option Bytes) → IsReason reason → All IsField (reason_fields reason)
  reason-IsField none h = tt
  reason-IsField (some r) h = ((All-map (λ c (i : IsLetter c). omega arith) r h, tt), tt)

  signal_fields-IsField :
      (pid tid : ℕ) (regs : List (ℕ × Bytes)) (reason : Option Bytes)
      → All IsRegister regs
      → IsReason reason
      → All IsField (signal_fields f pid tid regs reason)
  signal_fields-IsField pid tid regs reason h hr =
      All-append IsField (map register_field regs) _ (registers-IsField regs h) (
        (
          omega arith,
          encode-Lacks f laws b';' (λ h. ground arith) (omega arith) (omega arith) pid tid,
        ),
        reason-IsField reason hr,
      )

  -- Of a signal number that is not zero in a byte, registers in hexadecimal digits, none of them empty, and a reason of
  -- letters if any: no check fails when the stop reply is built, and it is `T`, the two digits of the signal number,
  -- and a text that a reader of fields takes apart into the registers in order, the thread, and the reason. A reason
  -- overrides the signal number by 5.
  pub read-build :
      (sig pid tid : ℕ) (regs : List (ℕ × Bytes)) (reason : Option Bytes)
      → sig % 256 ≢ 0
      → All IsRegister regs
      → IsReason reason
      → (text : Bytes) × (signal_packet f sig pid tid regs reason
          ≡ some (b'T' ∷ (encode_byte_string (reported sig reason) ++ text)))
        × (read_fields (length text) text ≡ some (signal_fields f pid tid regs reason))
  read-build sig pid tid regs reason nz h hr =
      let xs = signal_fields f pid tid regs reason in
      (
        print_fields xs,
        build_signal f sig pid tid regs reason nz (IsRegister-HasValue regs h),
        read-print_fields xs (length (print_fields xs))
            (signal_fields-IsField pid tid regs reason h hr) (omega arith),
      )
