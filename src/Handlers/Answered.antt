-- ===== src/Handlers/Answered.antt =====
-- The number of responses of HandleCommand (bin/debugserver/cmd-handler.cc). vRun is left out: its response is sent
-- later.
use gdbserver.Handlers.Answers.{
  is_answer, handle_m_answer, handle_upper_m_answer, handle_c_answer, handle_upper_c_answer,
  handle_g_answer, handle_upper_g_answer, handle_upper_h_answer, handle_upper_t_answer,
  handle_upper_d_answer, handle_v_attach_answer, handle_v_kill_answer, handle_v_cont_answer,
  query_attached_answer, set_non_stop_answer, query_current_thread_id_answer,
  query_thread_info_answer, query_xfer_answer,
}
use gdbserver.Packet.{extract_parameters}
use gdbserver.Handlers.Dispatch.{
  behind_first, handle_command, handle_family, handle_upper_q, rcmd, Session, handle_v, thread_info,
  handle_q, Environment, on_stub,
}
use gdbserver.Handlers.Auxv.{query_xfer}
use gdbserver.Handlers.Queries.{query_attached, query_current_thread_id}
use gdbserver.Handlers.ProcessPackets.{handle_upper_d}
use gdbserver.Handlers.RegisterPackets.{
  handle_c, handle_g, handle_upper_c, handle_upper_g, handle_upper_h, handle_upper_t,
}
use gdbserver.Base.{
  codes, bytes_eq, ◌∙◌, ℕ, Bool, true, false, [], ◌∷◌, Bytes, ◌==◌, ◌≡◌, arith, refl,
}
use gdbserver.Handlers.{respond_with, reply_ok, starts_with, Stub, Answer}
use gdbserver.Handlers.MemoryPackets.{handle_m, handle_upper_m}

-- A handler of the process and its threads answers in a session as it does alone.
on_stub_answer :
    {W : Type 0} (s : Session W) (handler : Stub W → Answer W)
    → is_answer (on_stub s handler) ≡ is_answer (handler s.stub)
unfolding on_stub
on_stub_answer s handler = ground arith

run_behind :
    (c : ℕ) (rest : Bytes)
    → (c == b'v') ≡ true
    → starts_with (c ∷ rest) (codes "vRun;") ≡ false
    → starts_with rest (codes "Run;") ≡ false
unfolding starts_with bytes_eq
run_behind c rest t h = ground arith

module _ {W : Type 0} (e : Environment W) where
  handle_v_answer :
      (packet : Bytes) (v : Stub W)
      → starts_with packet (codes "Run;") ≡ false
      → is_answer (handle_v e packet v) ≡ true
  unfolding handle_v
  handle_v_answer packet v h = ground (
    arith,
    handle_v_attach_answer e.calls e.ftl (behind_first 7 packet) v,
    handle_v_cont_answer e.calls e.ftl e.uninit (behind_first 5 packet) v,
    handle_v_kill_answer e.calls e.ftl (behind_first 5 packet) v,
  )

  thread_info_answer :
      (is_first : Bool) (s : Session W) → is_answer (thread_info e is_first s) ≡ true
  unfolding thread_info
  thread_info_answer is_first s =
      ground
        (arith, query_thread_info_answer e.calls e.ftl is_first (s.stub, s.in_thread_info_sequence))

  -- A handler that answers does so in a session.
  stub_answer :
      (s : Session W) (handler : Stub W → Answer W)
      → is_answer (handler s.stub) ≡ true
      → is_answer (on_stub s handler) ≡ true
  stub_answer s handler h = on_stub_answer s handler ∙ h

  handle_q_answer :
      (prefix params : Bytes) (s : Session W) → is_answer (handle_q e prefix params s) ≡ true
  unfolding handle_q rcmd
  handle_q_answer prefix params s = ground (
    arith,
    stub_answer s (query_attached e.ftl params) (query_attached_answer e.calls e.ftl params s.stub),
    stub_answer s (query_current_thread_id e.calls e.ftl params)
        (query_current_thread_id_answer e.calls e.ftl params s.stub),
    thread_info_answer true s,
    thread_info_answer false s,
    stub_answer s (respond_with (codes "QNonStop+;qXfer:auxv:read+")) refl,
    stub_answer s (query_xfer e.ftl e.behind params)
        (query_xfer_answer e.calls e.ftl e.behind params s.stub),
  )

  handle_upper_q_answer :
      (prefix params : Bytes) (v : Stub W) → is_answer (handle_upper_q e prefix params v) ≡ true
  unfolding handle_upper_q
  handle_upper_q_answer prefix params v = ground (arith, set_non_stop_answer e.calls e.ftl params v)

  family_v_answer :
      (c : ℕ) (rest : Bytes) (s : Session W)
      → starts_with (c ∷ rest) (codes "vRun;") ≡ false
      → (c == b'v') ≡ true
      → is_answer (on_stub s (handle_v e rest)) ≡ true
  family_v_answer c rest s h t =
      stub_answer s (handle_v e rest) (handle_v_answer rest s.stub (run_behind c rest t h))

  handle_family_answer :
      (c : ℕ) (rest : Bytes) (s : Session W)
      → starts_with (c ∷ rest) (codes "vRun;") ≡ false
      → is_answer (handle_family e c rest s) ≡ true
  unfolding handle_family
  handle_family_answer c rest s h =
      let v = s.stub in
      let params = extract_parameters rest in
      ground (
        arith,
        stub_answer s reply_ok refl,
        stub_answer s (handle_c e.calls e.ftl rest) (handle_c_answer e.calls e.ftl rest v),
        stub_answer s (handle_upper_c e.calls e.ftl rest)
            (handle_upper_c_answer e.calls e.ftl rest v),
        stub_answer s (handle_upper_d e.calls e.ftl rest)
            (handle_upper_d_answer e.calls e.ftl rest v),
        stub_answer s (handle_g e.calls e.ftl) (handle_g_answer e.calls e.ftl v),
        stub_answer s (handle_upper_g e.calls e.ftl rest)
            (handle_upper_g_answer e.calls e.ftl rest v),
        stub_answer s (handle_upper_h e.calls e.ftl e.uninit rest)
            (handle_upper_h_answer e.calls e.ftl e.uninit rest v),
        stub_answer s (handle_m e.memory e.ftl rest) (handle_m_answer e.memory e.ftl rest v),
        stub_answer s (handle_upper_m e.memory e.ftl rest)
            (handle_upper_m_answer e.memory e.ftl rest v),
        handle_q_answer params.0 params.1 s,
        stub_answer s (handle_upper_q e params.0 params.1)
            (handle_upper_q_answer params.0 params.1 v),
        stub_answer s (handle_upper_t e.calls e.ftl rest)
            (handle_upper_t_answer e.calls e.ftl rest v),
        family_v_answer c rest s h,
      )

  -- Where no check of the code fails: a packet other than vRun is given one response if HandleCommand returns
  -- true, and none if it returns false.
  pub handle_command_answer :
      (packet : Bytes) (s : Session W)
      → starts_with packet (codes "vRun;") ≡ false
      → is_answer (handle_command e packet s) ≡ true
  unfolding handle_command
  handle_command_answer [] s h = refl
  handle_command_answer (c ∷ rest) s h = handle_family_answer c rest s h
