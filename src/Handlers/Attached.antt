-- ===== src/Handlers/Attached.antt =====
-- Attaching, killing and detaching by packets.
use gdbserver.Base.{
  ◌∙◌, ℕ, Bool, true, false, some, List, [], ◌∷◌, Bytes, ◌≡◌, inl, inr, refl, arith, Option-cases,
  Bool-cases, ◌==◌,
}
use gdbserver.Ftl.{Ftl}
use gdbserver.Process.{ProcessCalls, System, is_attached, is_live}
use gdbserver.Process.Invariant.{
  Inv, detach-Ends, kill-Ends, is_attached-Attached, is_attached-Detached,
}
use gdbserver.Handlers.{Stub, Answer, perm, noent, inval, reply_ok, reply_with_error, after_clear}
use gdbserver.Handlers.ProcessPackets.{detach_reply, handle_upper_d, handle_v_kill}

module _ {W : Type 0} (calls : ProcessCalls W) (f : Ftl) where
  -- A handler returns, and the invariant of the process holds.
  abbrev pub Answers : Answer W → Type 0
  Answers a = (r : Stub W × List Bytes × Bool) × (a ≡ some r) × Inv r.0.system

  attached_cases : (s : System W) → Inv s → (b : Bool) × (is_attached s.process ≡ some b)
  attached_cases s v = elim v.link [
    | inl d ↦ (false, is_attached-Detached s d)
    | inr a ↦ (true, is_attached-Attached s a)
  ]

  by : {a b : Answer W} → a ≡ b → Answers b → Answers a
  by e (r, q, i) = (r, e ∙ q, i)

  error-Answers : (code : ℕ) (v : Stub W) → Inv v.system → Answers (reply_with_error f code v)
  unfolding reply_with_error
  error-Answers code v i = (_, refl, i)

  ok-Answers : (v : Stub W) → Inv v.system → Answers (reply_ok v)
  ok-Answers v i = (_, refl, i)

  detach_reply-Answers : (v : Stub W) → Inv v.system → Answers (detach_reply calls f v)
  unfolding detach_reply after_clear
  detach_reply-Answers v i =
      let (r, e, i') = detach-Ends calls v.system i in
      let (attached, at) = attached_cases v.system i in
      elim (Bool-cases attached) [
        | inr a ↦ by (ground (arith, at, e)) (error-Answers noent v i)
        | inl a ↦ elim (Bool-cases r.1) [
          | inl b ↦ by (ground (arith, at, e)) (ok-Answers (after_clear r.0) i')
          | inr b ↦ by (ground (arith, at, e)) (error-Answers perm (record v { system = r.0 }) i')
        ]
      ]

  handle_upper_d-Answers :
      (packet : Bytes) (v : Stub W) → Inv v.system → Answers (handle_upper_d calls f packet v)
  unfolding handle_upper_d
  handle_upper_d-Answers [] v i = detach_reply-Answers v i
  handle_upper_d-Answers (c ∷ rest) v i = elim (Bool-cases (c == b';')) [
    | inr n ↦ by (ground arith) (error-Answers inval v i)
    | inl n ↦ elim (Option-cases (f.string_to_u64 rest)) [
      | inl e ↦ by (ground arith) (error-Answers inval v i)
      | inr (pid, e) ↦ elim (Bool-cases (pid == v.system.process.id)) [
        | inl p ↦ by (ground arith) (detach_reply-Answers v i)
        | inr p ↦ by (ground arith) (error-Answers inval v i)
      ]
    ]
  ]

  handle_v_kill-Answers :
      (packet : Bytes) (v : Stub W) → Inv v.system → Answers (handle_v_kill calls f packet v)
  unfolding handle_v_kill after_clear
  handle_v_kill-Answers packet v i = elim (Option-cases (f.string_to_u64 packet)) [
    | inl e ↦ by (ground arith) (error-Answers inval v i)
    | inr (pid, e) ↦ elim (Bool-cases (pid == v.system.process.id)) [
      | inr p ↦ by (ground arith) (error-Answers inval v i)
      | inl p ↦ elim (Bool-cases (is_live v.system.process.state)) [
        | inr l ↦ by (ground arith) (error-Answers perm v i)
        | inl l ↦
            let (r, q, i') = kill-Ends calls v.system i in
            elim (Bool-cases r.1) [
              | inl b ↦ by (ground (arith, q)) (ok-Answers (after_clear r.0) i')
              | inr b ↦ by (ground (arith, q)) (error-Answers perm (record v { system = r.0 }) i')
            ]
      ]
    ]
  ]

  -- The packets D and vKill, whatever they hold, are answered without a failed check, and keep the
  -- invariant of the process, if it holds before.
  handle_d_and_v_kill-Answers :
      (packet : Bytes) (v : Stub W)
      → Inv v.system
      → Answers (handle_upper_d calls f packet v) × Answers (handle_v_kill calls f packet v)
  handle_d_and_v_kill-Answers packet v i =
      (handle_upper_d-Answers packet v i, handle_v_kill-Answers packet v i)
