-- ===== src/Handlers/RegisterPackets.antt =====
-- The packets c, C, g, G, H and T (cmd-handler.cc).
use gdbserver.Base.{
  ℕ, Bool, false, not, ◌||◌, none, some, [], ◌∷◌, Bytes, ◌==◌, if◌then◌else◌, ◌>>=◌, ◌>>◌, guard,
  length, take, drop, find, is_empty, ℤ, pos, negsuc, zero, suc,
}
use gdbserver.Ftl.{Ftl}
use gdbserver.ThreadId.{parse_thread_id}
use gdbserver.Registers.{get_regset_as_string, set_regset_from_string, set_register, le_bytes, rip}
use gdbserver.Thread.{Thread, is_live, refresh_general_registers, write_general_registers, resume}
use gdbserver.Thread.Signals.{get_gdb_signal, signal_value}
use gdbserver.Process.{ProcessCalls, Process, System, is_attached}
use gdbserver.Process.ThreadMap.{find_thread_by_id, pick_one_thread, ensure_thread_map_fresh}
use gdbserver.Process.Control.{start}
use gdbserver.Handlers.{
  Stub, Answer, perm, noent, inval, reply_ok, reply_with_error, unhandled, respond_with,
  get_current_thread, put_back, after_lookup,
}

-- GetUninitializedGeneralRegistersAsString: 288 zeros.
unfoldable pub zeros : ℕ → Bytes
zeros zero = []
zeros (suc n) = b'0' ∷ zeros n

-- The comparison of an int with the number of a signal.
unfoldable pub same_signal : ℤ → ℕ → Bool
same_signal (pos n) m = n == m
same_signal (negsuc n) m = false

module _ {W : Type 0} (calls : ProcessCalls W) (f : Ftl) where
  -- What c and C do with an address: the registers are read, the program counter is set, and the
  -- registers are written.
  unfoldable pub set_pc : ℕ → Thread × W → (Thread × W) × Bool
  set_pc addr s =
      let ((t, w), refreshed) = refresh_general_registers calls.thread s in
      if refreshed
      then (elim (set_register rip (le_bytes 8 addr) 8 t.gregs) [
        | none ↦ ((t, w), false)
        | some gregs ↦ write_general_registers calls.thread (record t { gregs = gregs }, w)
      ])
      else ((t, w), false)

  -- The end of c and C: the thread is resumed.
  unfoldable pub resume_reply : Thread × W → Stub W → Answer W
  resume_reply s v =
      let (s', ok) = resume calls.thread s in
      if ok then reply_ok (put_back s' v) else reply_with_error f perm (put_back s' v)

  -- The part of c and C from the address parameter on, for a thread.
  unfoldable pub continue_thread : Bytes → Thread → Stub W → Answer W
  continue_thread addr_param t v =
      if is_empty addr_param
      then resume_reply (t, v.system.world) v
      else elim (f.string_to_u64 addr_param) [
        | none ↦ reply_with_error f inval v
        | some addr ↦
            let (s, ok) = set_pc addr (t, v.system.world) in
            if ok then resume_reply s v else reply_with_error f perm (put_back s v)
      ]

  -- The end of Handle_c, with no current thread: the process is started.
  unfoldable pub start_reply : Stub W → Answer W
  start_reply v = do
    (s, started) ← start calls v.system
    if started
        then (do
          (s', picked) ← pick_one_thread calls s
          elim picked [
            | none ↦ reply_ok (record v { system = s' })
            | some t ↦ reply_ok (record { system = s'; current_thread = some t.id })
          ])
        else reply_with_error f perm (record v { system = s })

  -- Handle_c, of a process that is attached.
  unfoldable pub continue_attached : Bytes → Stub W → Answer W
  continue_attached packet v = elim (get_current_thread v) [
    | some t ↦ continue_thread packet t v
    | none ↦
        if is_empty packet
        then (do guard (not (gdbserver.Process.is_live v.system.process.state)); start_reply v)
        else elim (f.string_to_u64 packet) [
          | none ↦ reply_with_error f inval v
          | some addr ↦
              if gdbserver.Process.is_live v.system.process.state
              then none
              else reply_with_error f perm v
        ]
  ]

  -- Handle_c
  unfoldable pub handle_c : Bytes → Stub W → Answer W
  handle_c packet v = do
    attached ← is_attached v.system.process
    if attached then continue_attached packet v else reply_with_error f perm v

  -- Handle_C, for a thread: `sig[;addr]`, with the code's use of `substr(semicolon)`.
  unfoldable pub continue_with_signal : Bytes → Thread → Stub W → Answer W
  continue_with_signal packet t v =
      let semicolon : ℕ = elim (find b';' packet) [ none ↦ length packet | some n ↦ n ] in
      elim (f.string_to_int (take semicolon packet)) [
        | none ↦ reply_with_error f inval v
        | some signo ↦ elim (signal_value (get_gdb_signal t)) [
          | negsuc _ ↦ reply_with_error f perm v
          | pos thread_signo ↦
              if same_signal signo thread_signo
              then continue_thread (drop semicolon packet) t v
              else reply_with_error f perm v
        ]
      ]

  -- Handle_C
  unfoldable pub handle_upper_c : Bytes → Stub W → Answer W
  handle_upper_c packet v = do
    attached ← is_attached v.system.process
    if attached
        then (elim (get_current_thread v) [
          | none ↦ reply_with_error f perm v
          | some t ↦ continue_with_signal packet t v
        ])
        else reply_with_error f perm v

  -- Handle_g: the cached registers, or zeros where no thread is current.
  unfoldable pub handle_g : Stub W → Answer W
  handle_g v = do
    attached ← is_attached v.system.process
    let result : Bytes = elim (get_current_thread v) [
      | none ↦ zeros 288
      | some t ↦ get_regset_as_string t.gregs
    ]
    if attached
        then (if is_empty result then reply_with_error f perm v else respond_with result v)
        else reply_with_error f noent v

  -- Handle_G, for a thread.
  unfoldable pub set_registers : Bytes → Thread → Stub W → Answer W
  set_registers packet t v = elim (set_regset_from_string packet) [
    | none ↦ reply_with_error f perm v
    | some gregs ↦
        let (s, ok) =
          write_general_registers calls.thread (record t { gregs = gregs }, v.system.world) in
        if ok then reply_ok (put_back s v) else reply_with_error f perm (put_back s v)
  ]

  -- Handle_G
  unfoldable pub handle_upper_g : Bytes → Stub W → Answer W
  handle_upper_g packet v = do
    attached ← is_attached v.system.process
    if attached
        then (elim (get_current_thread v) [
          | none ↦ reply_with_error f noent v
          | some t ↦ set_registers packet t v
        ])
        else reply_with_error f noent v

  -- Handle_H, once the thread id is known: the current thread is set.
  unfoldable pub select_thread : ℕ → Stub W → Answer W
  select_thread tid v = do
    fresh ← ensure_thread_map_fresh calls v.system
    (s, found) ← if tid == 0 then pick_one_thread calls fresh else find_thread_by_id calls tid fresh
    elim found [
      | none ↦ reply_with_error f perm (after_lookup s v)
      | some t ↦ reply_ok (record { system = s; current_thread = some t.id })
    ]

  -- Handle_H; `uninit` is for ParseThreadId.
  unfoldable pub handle_upper_h : ℕ → Bytes → Stub W → Answer W
  handle_upper_h uninit [] v = reply_with_error f inval v
  handle_upper_h uninit (c ∷ []) v = reply_with_error f inval v
  handle_upper_h uninit (c ∷ d ∷ rest) v =
      if c == b'c' || c == b'g'
      then (elim (parse_thread_id f uninit (d ∷ rest)) [
        | none ↦ reply_with_error f inval v
        | some id ↦ if id.has_pid then unhandled v else elim id.tid [
          | negsuc _ ↦ reply_with_error f inval v
          | pos tid ↦
              if gdbserver.Process.is_live v.system.process.state
              then select_thread tid v
              else reply_ok (record v { current_thread = none })
        ]
      ])
      else unhandled v

  -- Handle_T
  unfoldable pub handle_upper_t : Bytes → Stub W → Answer W
  handle_upper_t packet v = do
    attached ← is_attached v.system.process
    if attached
        then (elim (f.string_to_u64 packet) [
          | none ↦ reply_with_error f inval v
          | some tid ↦ do
            (s, found) ← find_thread_by_id calls tid v.system
            let v' = after_lookup s v
            elim found [
              | none ↦ reply_with_error f noent v'
              | some t ↦ if is_live t.state then reply_ok v' else reply_with_error f noent v'
            ]
        ])
        else reply_with_error f noent v
