-- ===== src/Process/Launch.antt =====
-- Process::Initialize, both forms, with the helpers of process.cc that set up launchpad.
use gdbserver.Argv.{basename}
use gdbserver.Base.{
  ℕ, Bool, true, false, not, Option, none, some, List, [], ◌∷◌, Bytes, ◌==◌, if◌then◌else◌, ◌>>=◌,
  ◌>>◌, guard, is_empty,
}
use gdbserver.Process.{ProcessCalls, Process, System, new, starting, running, gone, set_state}

-- What both forms check first: nothing is left of an earlier run, and a process that is gone is new
-- again.
unfoldable pub revive : Process → Option Process
revive p = do
  guard (not p.launchpad)
  guard (p.handle == 0)
  guard (p.eport_key == 0)
  elim p.state [ new ↦ some p | gone ↦ set_state new p | starting ↦ none | running ↦ none ]

-- Initialize(pid), for a program that is already running.
unfoldable pub initialize_pid : ℕ → Process → Option Process
initialize_pid pid p = do p' ← revive p; some (record p' { attached_running = true; id = pid })

module _ {W : Type 0} (calls : ProcessCalls W) where
  -- SetupLaunchpad, for an argv that is not empty: whether launchpad is set up.
  unfoldable pub setup_launchpad : Bytes → List Bytes → W → W × Bool
  setup_launchpad program argv w =
      let (w1, created) = calls.launchpad_create (basename program) w in
      let (w2, args) = calls.launchpad_set_args argv w1 in
      let (w3, vdso) = calls.launchpad_add_vdso_vmo w2 in
      if not created
      then (w1, false)
      else if not args
      then (calls.launchpad_destroy w2, false)
      else if not vdso
      then (calls.launchpad_destroy w3, false)
      else (calls.launchpad_clone w3, true)

  -- LoadBinary
  unfoldable pub load_binary : Bytes → W → W × Bool
  load_binary binary_path w =
      let (w1, loaded) = calls.launchpad_elf_load binary_path w in
      if loaded then calls.launchpad_load_vdso w1 else (w1, false)

  -- The label `fail` of Initialize.
  unfoldable pub launch_failed : System W → System W × Bool
  launch_failed s = (
    record s {
      process = record s.process { id = 0; launchpad = false };
      world = calls.launchpad_destroy s.world;
    },
    false,
  )

  -- Initialize, from GetProcessId on: the base and the entry address.
  unfoldable pub read_addresses : System W → Option (System W × Bool)
  read_addresses s = do
    let id = calls.launchpad_process_id s.world
    guard (not (id == 0))
    let with_id = record s { process = record s.process { id = id } }
    elim (calls.launchpad_base_address s.world) [
      | none ↦ some (launch_failed with_id)
      | some base ↦
          let with_base = record with_id {
            process = record with_id.process { base_address = base };
          } in
          elim (calls.launchpad_entry_address s.world) [
            | none ↦ some (launch_failed with_base)
            | some entry ↦ some (
              record with_base { process = record with_base.process { entry_address = entry } },
              true,
            )
          ]
    ]

  -- Initialize, from SetupLaunchpad on.
  unfoldable pub launch : Bytes → System W → Option (System W × Bool)
  launch program s =
      let (w1, created) = setup_launchpad program s.process.argv s.world in
      let set_up : System W = record {
        process = record s.process { launchpad = true };
        port = s.port;
        world = w1;
      } in
      let (w2, loaded) = load_binary program w1 in
      if not created
      then some (record s { world = w1 }, false)
      else if not loaded
      then some (launch_failed (record set_up { world = w2 }))
      else read_addresses (record set_up { world = w2 })

  -- Initialize()
  unfoldable pub initialize : System W → Option (System W × Bool)
  initialize s = do
    revived ← revive s.process
    let fresh = record s { process = record revived { attached_running = false } }
    elim fresh.process.argv [
      | [] ↦ some (fresh, false)
      | program ∷ _ ↦ if is_empty program then some (fresh, false) else launch program fresh
    ]
