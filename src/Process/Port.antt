-- ===== src/Process/Port.antt =====
-- ExceptionPort::Bind and Unbind (exception-port.cc), and their use by the process.
use gdbserver.Base.{
  ℕ, ◌+◌, ◌%◌, ◌^◌, Bool, true, false, not, Option, none, some, List, [], ◌∷◌, ◌==◌, if◌then◌else◌,
  ◌>>=◌, ◌>>◌, guard, is_none,
}
use gdbserver.Process.{ProcessCalls, ExceptionPort, System}

unfoldable pub bound_handle : ℕ → List (ℕ × ℕ) → Option ℕ
bound_handle key [] = none
bound_handle key ((k, h) ∷ rest) = if k == key then some h else bound_handle key rest

unfoldable pub forget_key : ℕ → List (ℕ × ℕ) → List (ℕ × ℕ)
forget_key key [] = []
forget_key key ((k, h) ∷ rest) = if k == key then rest else (k, h) ∷ forget_key key rest

module _ {W : Type 0} (calls : ProcessCalls W) where
  -- ExceptionPort::Bind, once the next key is known.
  unfoldable pub bind_key : ℕ → ℕ → ExceptionPort → W → Option (ExceptionPort × W × ℕ)
  bind_key process_handle next_key port w =
      let (w', ok) = calls.bind_exception_port process_handle next_key w in
      let added : ExceptionPort = record {
        key_counter = next_key;
        callbacks = (next_key, process_handle) ∷ port.callbacks;
      } in
      if next_key == 0
      then some (port, w, 0)
      else if ok
      then (if is_none (bound_handle next_key port.callbacks)
          then some (added, w', next_key)
          else none)
      else some (port, w', 0)

  -- ExceptionPort::Bind: the key 0 is a failure. The key is a uint64_t, and must not be in use.
  unfoldable pub bind : ℕ → ExceptionPort → W → Option (ExceptionPort × W × ℕ)
  bind process_handle port w = do
    guard (not (process_handle == 0))
    let next_key = (port.key_counter + 1) % 2 ^ 64
    bind_key process_handle next_key port w

  -- ExceptionPort::Unbind
  unfoldable pub unbind : ℕ → ExceptionPort → W → (ExceptionPort × W) × Bool
  unbind key port w = elim (bound_handle key port.callbacks) [
    | none ↦ ((port, w), false)
    | some process_handle ↦ (
      (
        record port { callbacks = forget_key key port.callbacks },
        calls.unbind_exception_port process_handle key w,
      ),
      true,
    )
  ]

  -- Process::BindExceptionPort
  unfoldable pub bind_exception_port : System W → Option (System W × Bool)
  bind_exception_port s = do
    (port, w, key) ← bind s.process.handle s.port s.world
    let s' = record s { port = port; world = w }
    some (
        if key == 0
        then (s', false)
        else (record s' { process = record s.process { eport_key = key } }, true))

  -- Process::UnbindExceptionPort: a failure is only logged.
  unfoldable pub unbind_exception_port : System W → Option (System W)
  unbind_exception_port s = do
    guard (not (s.process.eport_key == 0))
    let ((port, w), _) = unbind s.process.eport_key s.port s.world
    some (record { process = record s.process { eport_key = 0 }; port = port; world = w })
