-- ===== src/Ipt/Closed.antt =====
-- Opening and closing the devices of a trace (bin/ipt/control.cc), of which each can only be opened once at a time.
use gdbserver.Base.{
  inr, ap, inl, Option-cases, ◌∙◌, subst, ℕ, ◌≡◌, Bool, true, false, ◌||◌, Option, none, some, List,
  [], ◌∷◌, ◌==◌, if◌then◌else◌, arith, refl,
}
use gdbserver.Ipt.{
  Devices, Mode, BufferConfig, KtraceAction, Opened, close_fd, reset_handle, open_if, handle_if,
  keep_ktrace, open_ktrace_devices, open_devices, close_devices,
}

-- A list without the first of its elements that is the given one.
unfoldable pub without : ℕ → List ℕ → List ℕ
without fd [] = []
without fd (d ∷ fds) = let rest = without fd fds in if fd == d then fds else d ∷ rest

-- The descriptors after an `open`.
abbrev pub with_new : Option ℕ → List ℕ → List ℕ
with_new none fds = fds
with_new (some fd) fds = fd ∷ fds

-- How the calls change the list of the open descriptors.
pub record DescriptorLaws {W : Type 0} (devices : Devices W) : Type 0 where
  pub fds : W → List ℕ
  pub open_ipt : (w : W) → fds (devices.open_ipt w).0 ≡ with_new (devices.open_ipt w).1 (fds w)
  pub open_ktrace :
      (w : W) → fds (devices.open_ktrace w).0 ≡ with_new (devices.open_ktrace w).1 (fds w)
  pub close : (fd : ℕ) (w : W) → fds (devices.close fd w) ≡ without fd (fds w)
  pub get_ktrace_handle : (fd : ℕ) (w : W) → fds (devices.get_ktrace_handle fd w).0 ≡ fds w
  pub close_handle : (handle : ℕ) (w : W) → fds (devices.close_handle handle w) ≡ fds w
  pub set_mode : (fd : ℕ) (mode : Mode) (w : W) → fds (devices.set_mode fd mode w).0 ≡ fds w
  pub alloc_buffer :
      (fd : ℕ) (config : BufferConfig) (w : W) → fds (devices.alloc_buffer fd config w).0 ≡ fds w
  pub cpu_mode_alloc : (fd : ℕ) (w : W) → fds (devices.cpu_mode_alloc fd w).0 ≡ fds w
  pub cpu_mode_start : (fd : ℕ) (w : W) → fds (devices.cpu_mode_start fd w).0 ≡ fds w
  pub cpu_mode_stop : (fd : ℕ) (w : W) → fds (devices.cpu_mode_stop fd w).0 ≡ fds w
  pub cpu_mode_free : (fd : ℕ) (w : W) → fds (devices.cpu_mode_free fd w).0 ≡ fds w
  pub ktrace_control :
      (handle : ℕ) (action : KtraceAction) (w : W)
      → fds (devices.ktrace_control handle action w).0 ≡ fds w

module _ {W : Type 0} (devices : Devices W) (laws : DescriptorLaws devices) where
  abbrev pub fds : W → List ℕ
  fds w = laws.fds w

  -- What OpenDevices has opened is what is open besides what was open before.
  abbrev pub Extends : List ℕ → Option Opened → List ℕ → Type 0
  Extends before none after = after ≡ before
  Extends before (some o) after = after ≡ with_new o.ktrace_fd (with_new o.ipt_fd before)

  close_fd-without :
      (fd : Option ℕ) (l : List ℕ) (w : W) → fds w ≡ with_new fd l → fds (close_fd devices fd w) ≡ l
  unfolding close_fd without
  close_fd-without none l w h = h
  close_fd-without (some fd) l w h = let c = laws.close fd w in rw c (rw h (ground arith))

  close_second :
      (a b : Option ℕ) (l : List ℕ) (w : W)
      → fds w ≡ with_new b (with_new a l)
      → fds (close_fd devices b (close_fd devices a w)) ≡ l
  unfolding close_fd without
  close_second none b l w h = close_fd-without b l w h
  close_second (some i) none l w h = close_fd-without (some i) l w h
  close_second (some i) (some k) l w h =
      let c = laws.close i w in
      let c' = laws.close k (devices.close i w) in rw c' (rw c (rw h (ground arith)))

  keep_ktrace-Extends :
      (want : Bool) (ipt k handle : Option ℕ) (l : List ℕ) (w : W)
      → fds w ≡ with_new k (with_new ipt l)
      → Extends l
          (keep_ktrace devices want ipt k handle w).1
          (fds (keep_ktrace devices want ipt k handle w).0)
  unfolding keep_ktrace
  keep_ktrace-Extends true ipt k handle l w h = h
  keep_ktrace-Extends false ipt k handle l w h = close_fd-without k (with_new ipt l) w h

  -- The end of OpenDevices, for the handle that is got or not.
  abbrev ends_with : Bool → Option ℕ → Option ℕ → W → Option (Option ℕ) → W × Option Opened
  ends_with want ipt k w got = elim got as (λ _. W × Option Opened) [
    | none ↦ (close_fd devices k (close_fd devices ipt w), none)
    | some handle ↦ keep_ktrace devices want ipt k handle w
  ]

  ends_with-Extends :
      (want : Bool) (ipt k : Option ℕ) (l : List ℕ) (w : W) (got : Option (Option ℕ))
      → fds w ≡ with_new k (with_new ipt l)
      → Extends l (ends_with want ipt k w got).1 (fds (ends_with want ipt k w got).0)
  ends_with-Extends want ipt k l w none h = close_second ipt k l w h
  ends_with-Extends want ipt k l w (some handle) h = keep_ktrace-Extends want ipt k handle l w h

  handle_if-fds :
      (want : Bool) (fd : Option ℕ) (w : W) → fds (handle_if devices want fd w).0 ≡ fds w
  unfolding handle_if
  handle_if-fds false fd w = refl
  handle_if-fds true none w = refl
  handle_if-fds true (some fd) w = laws.get_ktrace_handle fd w

  -- The middle of OpenDevices, for ktrace opened or not.
  abbrev goes_on : Bool → Bool → Option ℕ → W → Option (Option ℕ) → W × Option Opened
  goes_on want_ktrace want_handle ipt w opened = elim opened as (λ _. W × Option Opened) [
    | none ↦ (close_fd devices ipt w, none)
    | some k ↦
        let (w', got) = handle_if devices want_handle k w in ends_with want_ktrace ipt k w' got
  ]

  -- The descriptors after `open_if`.
  abbrev Opens : Option (Option ℕ) → List ℕ → W → Type 0
  Opens none l w = fds w ≡ l
  Opens (some fd) l w = fds w ≡ with_new fd l

  goes_on-Extends :
      (want_ktrace want_handle : Bool) (ipt : Option ℕ) (l : List ℕ) (w : W)
      (opened : Option (Option ℕ))
      → Opens opened (with_new ipt l) w
      → Extends l
          (goes_on want_ktrace want_handle ipt w opened).1
          (fds (goes_on want_ktrace want_handle ipt w opened).0)
  goes_on-Extends want_ktrace want_handle ipt l w none h = close_fd-without ipt l w h
  goes_on-Extends want_ktrace want_handle ipt l w (some k) h =
      let (w', got) = handle_if devices want_handle k w in
      ends_with-Extends want_ktrace ipt k l w' got (handle_if-fds want_handle k w ∙ h)

  open_if-Opens :
      (want : Bool) (opening : W → W × Option ℕ) (w : W)
      → (fds (opening w).0 ≡ with_new (opening w).1 (fds w))
      → Opens (open_if devices want opening w).1 (fds w) (open_if devices want opening w).0
  unfolding open_if
  open_if-Opens false opening w h = refl
  open_if-Opens true opening w h = elim (Option-cases (opening w).1) [
    | inl e ↦ rw e (h ∙ ap (λ o. with_new o (fds w)) e)
    | inr (fd, e) ↦ rw e (h ∙ ap (λ o. with_new o (fds w)) e)
  ]

  open_ktrace_devices-Extends :
      (want_ktrace want_handle : Bool) (ipt : Option ℕ) (l : List ℕ) (w : W)
      → fds w ≡ with_new ipt l
      → Extends l
          (open_ktrace_devices devices want_ktrace want_handle ipt w).1
          (fds (open_ktrace_devices devices want_ktrace want_handle ipt w).0)
  unfolding open_ktrace_devices
  open_ktrace_devices-Extends want_ktrace want_handle ipt l w h =
      let o = open_if devices (want_ktrace || want_handle) devices.open_ktrace w in
      goes_on-Extends want_ktrace want_handle ipt l o.0 o.1 (
        subst (λ m. Opens o.1 m o.0) h
          (open_if-Opens (want_ktrace || want_handle) devices.open_ktrace w (laws.open_ktrace w)))

  -- OpenDevices, for the device of Processor Trace opened or not.
  abbrev begin_with : Bool → Bool → W → Option (Option ℕ) → W × Option Opened
  begin_with want_ktrace want_handle w opened = elim opened as (λ _. W × Option Opened) [
    | none ↦ (w, none)
    | some ipt ↦ open_ktrace_devices devices want_ktrace want_handle ipt w
  ]

  begin_with-Extends :
      (want_ktrace want_handle : Bool) (l : List ℕ) (w : W) (opened : Option (Option ℕ))
      → Opens opened l w
      → Extends l
          (begin_with want_ktrace want_handle w opened).1
          (fds (begin_with want_ktrace want_handle w opened).0)
  begin_with-Extends want_ktrace want_handle l w none h = h
  begin_with-Extends want_ktrace want_handle l w (some ipt) h =
      open_ktrace_devices-Extends want_ktrace want_handle ipt l w h

  pub open_devices-Extends :
      (want_ipt want_ktrace want_handle : Bool) (w : W)
      → Extends
          (fds w)
          (open_devices devices want_ipt want_ktrace want_handle w).1
          (fds (open_devices devices want_ipt want_ktrace want_handle w).0)
  unfolding open_devices
  open_devices-Extends want_ipt want_ktrace want_handle w =
      let o = open_if devices want_ipt devices.open_ipt w in
      begin_with-Extends want_ktrace want_handle (fds w) o.0 o.1
        (open_if-Opens want_ipt devices.open_ipt w (laws.open_ipt w))

  reset_handle-fds : (handle : Option ℕ) (w : W) → fds (reset_handle devices handle w) ≡ fds w
  unfolding reset_handle
  reset_handle-fds none w = refl
  reset_handle-fds (some handle) w = laws.close_handle handle w

  pub close_devices-fds :
      (o : Opened) (l : List ℕ) (w : W)
      → fds w ≡ with_new o.ktrace_fd (with_new o.ipt_fd l)
      → fds (close_devices devices o w) ≡ l
  unfolding close_devices
  close_devices-fds o l w h = close_fd-without o.ipt_fd l _ (
      close_fd-without o.ktrace_fd (with_new o.ipt_fd l) _ (reset_handle-fds o.ktrace_handle w ∙ h))
