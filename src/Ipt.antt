-- ===== src/Ipt.antt =====
-- bin/ipt: tracing a program with Intel Processor Trace. The devices that it uses, and OpenDevices (control.cc).
-- Ipt.Config is about IptConfig (server.{h,cc}), Ipt.Control, Ipt.Threads and Ipt.Dump about the rest of control.cc,
-- and Ipt.Server about the server (server.cc).
pub mod Config
pub mod Control
pub mod Threads
pub mod Dump
pub mod Server
pub mod Closed
pub mod Kept
pub mod Copied
pub mod Written
pub mod Numerals
pub mod Listed
pub mod Options
pub mod Actions
use gdbserver.Base.{ℕ, Bool, true, false, ◌||◌, Option, none, some, Bytes, if◌then◌else◌}

-- IPT_MODE_CPUS and IPT_MODE_THREADS
pub data Mode : Type 0 where
  cpus : Mode
  threads : Mode

-- ioctl_ipt_buffer_config_t
pub record BufferConfig : Type 0 where
  pub num_buffers : ℕ
  pub buffer_order : ℕ
  pub is_circular : Bool
  pub ctl : ℕ
  pub cr3_match : ℕ
  pub begin0 : ℕ
  pub end0 : ℕ
  pub begin1 : ℕ
  pub end1 : ℕ

-- The actions of mx_ktrace_control that the code uses, the start with the mask of groups.
pub data KtraceAction : Type 0 where
  start_action : KtraceAction
  stop_action : KtraceAction

-- The files and the kernel's calls on the devices; `false` and `none` are errors. `buffer_info` gives capture_end.
pub record Devices (W : Type 0) : Type 0 where
  pub open_ipt : W → W × Option ℕ
  pub open_ktrace : W → W × Option ℕ
  pub create_file : Bytes → W → W × Option ℕ
  pub close : ℕ → W → W
  pub get_ktrace_handle : ℕ → W → W × Option ℕ
  pub close_handle : ℕ → W → W
  pub duplicate_handle : ℕ → W → W × Option ℕ
  pub set_mode : ℕ → Mode → W → W × Bool
  pub alloc_buffer : ℕ → BufferConfig → W → W × Option ℕ
  pub free_buffer : ℕ → ℕ → W → W × Bool
  pub cpu_mode_alloc : ℕ → W → W × Bool
  pub cpu_mode_start : ℕ → W → W × Bool
  pub cpu_mode_stop : ℕ → W → W × Bool
  pub cpu_mode_free : ℕ → W → W × Bool
  pub assign_buffer_thread : ℕ → ℕ → ℕ → W → W × Bool
  pub release_buffer_thread : ℕ → ℕ → ℕ → W → W × Bool
  pub ktrace_control : ℕ → KtraceAction → W → W × Bool
  pub get_buffer_config : ℕ → ℕ → W → W × Option BufferConfig
  pub get_buffer_info : ℕ → ℕ → W → W × Option ℕ
  pub get_buffer_handle : ℕ → ℕ → ℕ → W → W × Option ℕ
  pub vmo_read : ℕ → ℕ → ℕ → W → W × Option Bytes
  pub read : ℕ → ℕ → W → W × Option Bytes
  pub write : ℕ → Bytes → W → W × Bool

-- What OpenDevices gives for the pointers that are not null.
pub record Opened : Type 0 where
  pub ipt_fd : Option ℕ
  pub ktrace_fd : Option ℕ
  pub ktrace_handle : Option ℕ

module _ {W : Type 0} (devices : Devices W) where
  -- `close` of a descriptor that may be -1, which does nothing.
  unfoldable pub close_fd : Option ℕ → W → W
  close_fd none w = w
  close_fd (some fd) w = devices.close fd w

  -- The handle is closed at the end of its scope.
  unfoldable pub reset_handle : Option ℕ → W → W
  reset_handle none w = w
  reset_handle (some handle) w = devices.close_handle handle w

  -- `open`, if the descriptor is wanted: -1, or the result.
  unfoldable pub open_if : Bool → (W → W × Option ℕ) → W → W × Option (Option ℕ)
  open_if false opening w = (w, some none)
  open_if true opening w =
      let (w', fd) = opening w in (w', elim fd [ none ↦ none | some fd ↦ some (some fd) ])

  -- The handle of ktrace, if it is wanted.
  unfoldable pub handle_if : Bool → Option ℕ → W → W × Option (Option ℕ)
  handle_if false fd w = (w, some none)
  handle_if true none w = (w, none)
  handle_if true (some fd) w =
      let (w', handle) = devices.get_ktrace_handle fd w in
      (w', elim handle [ none ↦ none | some handle ↦ some (some handle) ])

  -- The end of OpenDevices: the descriptor of ktrace is closed if only the handle is wanted.
  unfoldable pub keep_ktrace : Bool → Option ℕ → Option ℕ → Option ℕ → W → W × Option Opened
  keep_ktrace true ipt_fd ktrace_fd handle w =
      (w, some (record { ipt_fd = ipt_fd; ktrace_fd = ktrace_fd; ktrace_handle = handle }))
  keep_ktrace false ipt_fd ktrace_fd handle w = (
    close_fd ktrace_fd w,
    some (record { ipt_fd = ipt_fd; ktrace_fd = none; ktrace_handle = handle }),
  )

  unfoldable pub open_ktrace_devices : Bool → Bool → Option ℕ → W → W × Option Opened
  open_ktrace_devices want_ktrace want_handle ipt_fd w =
      let (w', opened) = open_if (want_ktrace || want_handle) devices.open_ktrace w in
      elim opened [
        | none ↦ (close_fd ipt_fd w', none)
        | some ktrace_fd ↦
            let (w'', got) = handle_if want_handle ktrace_fd w' in
            elim got [
              | none ↦ (close_fd ktrace_fd (close_fd ipt_fd w''), none)
              | some handle ↦ keep_ktrace want_ktrace ipt_fd ktrace_fd handle w''
            ]
      ]

  -- OpenDevices, with which of its pointers are not null.
  unfoldable pub open_devices : Bool → Bool → Bool → W → W × Option Opened
  open_devices want_ipt want_ktrace want_handle w =
      let (w', opened) = open_if want_ipt devices.open_ipt w in
      elim opened [
        | none ↦ (w', none)
        | some ipt_fd ↦ open_ktrace_devices want_ktrace want_handle ipt_fd w'
      ]

  -- The end of the scope of what OpenDevices gave.
  unfoldable pub close_devices : Opened → W → W
  close_devices opened w =
      close_fd opened.ipt_fd (close_fd opened.ktrace_fd (reset_handle opened.ktrace_handle w))

  -- A function that begins with OpenDevices, and returns if it fails; the descriptors are closed when it returns.
  unfoldable pub with_devices :
      {A : Type 0} → Bool → Bool → Bool → A → (Opened → W → W × A) → W → W × A
  with_devices want_ipt want_ktrace want_handle failed body w =
      let (w', opened) = open_devices want_ipt want_ktrace want_handle w in
      elim opened [
        | none ↦ (w', failed)
        | some fds ↦ let (w'', result) = body fds w' in (close_devices fds w'', result)
      ]

  -- A function that opens the device of Processor Trace only.
  unfoldable pub with_ipt : {A : Type 0} → A → (ℕ → W → W × A) → W → W × A
  with_ipt failed body w =
      with_devices true false false failed
        (λ fds w'. elim fds.ipt_fd [ none ↦ (w', failed) | some fd ↦ body fd w' ]) w
