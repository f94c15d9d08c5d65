-- ===== src/Handlers/Answers.antt =====
-- The responses of the handlers of bin/debugserver/cmd-handler.cc.
use gdbserver.Handlers.Auxv.{auxv_reply, query_xfer}
use gdbserver.Handlers.Queries.{
  thread_id_reply, query_attached, query_current_thread_id, query_thread_info, set_non_stop,
}
use gdbserver.Handlers.ContinuePackets.{continue_reply, handle_v_cont}
use gdbserver.Handlers.ProcessPackets.{
  detach_reply, attach_reply, handle_upper_d, handle_v_attach, handle_v_kill,
}
use gdbserver.Handlers.RegisterPackets.{
  resume_reply, continue_thread, start_reply, select_thread, continue_attached, set_registers,
  continue_with_signal, handle_c, handle_g, handle_upper_c, handle_upper_g, handle_upper_h,
  handle_upper_t,
}
use gdbserver.Base.{
  ℕ, Bool, true, Option, none, some, List, [], ◌∷◌, Bytes, ◌==◌, ◌≡◌, arith, refl, length,
  if◌then◌else◌,
}
use gdbserver.Ftl.{Ftl}
use gdbserver.Breakpoints.{MemoryCalls}
use gdbserver.Process.{ProcessCalls}
use gdbserver.Handlers.{Stub, reply_with_error}
use gdbserver.Handlers.MemoryPackets.{
  read_reply, read_attached, handle_m, write_reply, write_params, handle_upper_m,
}

-- One response if the packet is handled, and none otherwise.
abbrev pub is_answer : {S : Type 0} → Option (S × List Bytes × Bool) → Bool
is_answer none = true
is_answer (some (s, responses, handled)) =
    if handled then length responses == 1 else length responses == 0

pub reply_with_error_answer :
    {W : Type 0} (f : Ftl) (code : ℕ) (v : Stub W) → is_answer (reply_with_error f code v) ≡ true
unfolding reply_with_error
reply_with_error_answer f code v = refl

module _ {W : Type 0} (memory : MemoryCalls W) (f : Ftl) where
  pub handle_m_answer :
      (packet : Bytes) (v : Stub W) → is_answer (handle_m memory f packet v) ≡ true
  unfolding handle_m read_attached read_reply reply_with_error
  handle_m_answer packet v = ground arith

  pub handle_upper_m_answer :
      (packet : Bytes) (v : Stub W) → is_answer (handle_upper_m memory f packet v) ≡ true
  unfolding handle_upper_m write_params write_reply reply_with_error
  handle_upper_m_answer packet v = ground arith

module _ {W : Type 0} (calls : ProcessCalls W) (f : Ftl) where
  pub handle_c_answer : (packet : Bytes) (v : Stub W) → is_answer (handle_c calls f packet v) ≡ true
  unfolding handle_c continue_attached start_reply continue_thread resume_reply reply_with_error
  handle_c_answer packet v = ground arith

  pub handle_upper_c_answer :
      (packet : Bytes) (v : Stub W) → is_answer (handle_upper_c calls f packet v) ≡ true
  unfolding handle_upper_c continue_with_signal continue_thread resume_reply reply_with_error
  handle_upper_c_answer packet v = ground arith

  pub handle_g_answer : (v : Stub W) → is_answer (handle_g calls f v) ≡ true
  unfolding handle_g reply_with_error
  handle_g_answer v = ground arith

  pub handle_upper_g_answer :
      (packet : Bytes) (v : Stub W) → is_answer (handle_upper_g calls f packet v) ≡ true
  unfolding handle_upper_g set_registers reply_with_error
  handle_upper_g_answer packet v = ground arith

  pub handle_upper_h_answer :
      (uninit : ℕ) (packet : Bytes) (v : Stub W)
      → is_answer (handle_upper_h calls f uninit packet v) ≡ true
  unfolding handle_upper_h select_thread reply_with_error
  handle_upper_h_answer uninit [] v = ground arith
  handle_upper_h_answer uninit (c ∷ []) v = ground arith
  handle_upper_h_answer uninit (c ∷ d ∷ rest) v = ground arith

  pub handle_upper_t_answer :
      (packet : Bytes) (v : Stub W) → is_answer (handle_upper_t calls f packet v) ≡ true
  unfolding handle_upper_t reply_with_error
  handle_upper_t_answer packet v = ground arith

  pub handle_upper_d_answer :
      (packet : Bytes) (v : Stub W) → is_answer (handle_upper_d calls f packet v) ≡ true
  unfolding handle_upper_d detach_reply reply_with_error
  handle_upper_d_answer packet v = ground arith

  pub handle_v_attach_answer :
      (packet : Bytes) (v : Stub W) → is_answer (handle_v_attach calls f packet v) ≡ true
  unfolding handle_v_attach attach_reply reply_with_error
  handle_v_attach_answer packet v = ground arith

  pub handle_v_kill_answer :
      (packet : Bytes) (v : Stub W) → is_answer (handle_v_kill calls f packet v) ≡ true
  unfolding handle_v_kill reply_with_error
  handle_v_kill_answer packet v = ground arith

  pub handle_v_cont_answer :
      (uninit : ℕ) (packet : Bytes) (v : Stub W)
      → is_answer (handle_v_cont calls f uninit packet v) ≡ true
  unfolding handle_v_cont continue_reply reply_with_error
  handle_v_cont_answer uninit packet v = ground arith

  pub query_attached_answer :
      (params : Bytes) (v : Stub W) → is_answer (query_attached f params v) ≡ true
  unfolding query_attached reply_with_error
  query_attached_answer params v = ground arith

  pub set_non_stop_answer :
      (params : Bytes) (v : Stub W) → is_answer (set_non_stop f params v) ≡ true
  unfolding set_non_stop reply_with_error
  set_non_stop_answer params v = ground arith

  pub query_current_thread_id_answer :
      (params : Bytes) (v : Stub W) → is_answer (query_current_thread_id calls f params v) ≡ true
  unfolding query_current_thread_id thread_id_reply reply_with_error
  query_current_thread_id_answer params v = ground arith

  pub query_thread_info_answer :
      (is_first : Bool) (s : Stub W × Bool)
      → is_answer (query_thread_info calls f is_first s) ≡ true
  unfolding query_thread_info reply_with_error
  query_thread_info_answer is_first (v, in_sequence) = ground arith

  pub query_xfer_answer :
      (behind : ℕ → ℕ) (params : Bytes) (v : Stub W)
      → is_answer (query_xfer f behind params v) ≡ true
  unfolding query_xfer auxv_reply reply_with_error
  query_xfer_answer behind params v = ground arith
