-- ===== src/Process/Loaded.antt =====
-- process.cc: what a stop at the dynamic linker's breakpoint makes of the list of DSOs.
use gdbserver.Base.{
  ℕ, ◌+◌, ◌-◌, ◌^◌, ◌%◌, ◌≤◌, ◌≡◌, ◌==◌, true, false, Option, some, List, [], ◌∷◌, Bytes, is_empty,
  codes, refl, ==_iff,
}
use gdbserver.Dso.{Dso, dso_lookup, dso_fetch_list}
use gdbserver.Dso.Order.{IsSorted, IsNearest}
use gdbserver.Dso.Chain.{Chain, dso_fetch_list-Chain}
use gdbserver.Breakpoints.{MemoryCalls}
use gdbserver.Registers.{get_pc}
use gdbserver.Thread.{Thread, refresh_general_registers}
use gdbserver.Process.{ProcessCalls, Process, System}
use gdbserver.Process.Dsos.{
  DebugInfo, debug_info_of, lookup_dso, keep_dsos, memory_block, build_at_breakpoint,
  build_refreshed, try_build_loaded_dsos_list,
}

-- The process has the list that was fetched, and the mark that no list could be built if it is empty; all else is as
-- before. The list is sorted, and LookupDso finds the nearest object in it.
abbrev pub IsLoaded : Process → Process → List Dso → ℕ → Type 0
IsLoaded p p' list pc =
    (p' ≡ record p { dsos = list; dsos_build_failed = is_empty list })
    × IsSorted list
    × IsNearest list pc (lookup_dso pc p')

keep_dsos-IsLoaded :
    (p : Process) (list : List Dso) (pc : ℕ)
    → p.dsos ≡ []
    → IsSorted list
    → IsNearest list pc (dso_lookup list pc)
    → IsLoaded p (keep_dsos list p) list pc
unfolding keep_dsos lookup_dso dso_lookup
keep_dsos-IsLoaded p [] pc e sorted nearest = rw e (refl, tt, tt)
keep_dsos-IsLoaded p (d ∷ list) pc e sorted nearest = (refl, sorted, nearest)

-- What dso_fetch_list makes of the link maps of r_debug.
abbrev pub fetched : {W : Type 0} → MemoryCalls W → System W → ℕ → DebugInfo → Option (List Dso)
fetched memory s fuel debug = dso_fetch_list fuel (memory_block memory s) debug.r_map (codes "app")

module _ {W : Type 0} (calls : ProcessCalls W) (memory : MemoryCalls W)
    (debug_addr : ℕ → W → Option ℕ) where
  build_at_breakpoint-IsLoaded :
      (fuel m n stop addr : ℕ) (debug : DebugInfo) (t : Thread) (s : System W)
      → s.process.dsos ≡ []
      → get_pc t.gregs ≡ some stop
      → (stop + 2 ^ 64 - 1) % 2 ^ 64 ≡ debug.r_brk
      → Chain (memory_block memory s) m debug.r_map n
      → n + m + 2 ≤ fuel
      → (list : List Dso) × (p : Process) × (fetched memory s fuel debug ≡ some list)
        × (build_at_breakpoint calls memory debug_addr fuel debug t s
            ≡ some (t, record s { process = p }))
        × IsLoaded s.process p list addr
  unfolding build_at_breakpoint
  build_at_breakpoint-IsLoaded fuel m n stop addr debug t s e pc brk chain h =
      let (list, all, sorted, nearest) =
        dso_fetch_list-Chain fuel m n (memory_block memory s) debug.r_map (codes "app") addr chain
          h in
      let here : ((stop + 2 ^ 64 - 1) % 2 ^ 64 == debug.r_brk) ≡ true = (==_iff _ _).1 brk in
      (
        list,
        keep_dsos list s.process,
        all,
        rw (build_at_breakpoint, pc, here, all) refl,
        keep_dsos-IsLoaded s.process list addr e sorted nearest,
      )

  -- Of a process without a list whose r_debug can be read and is filled in (version not 0), and a thread that has
  -- stopped one byte behind r_brk, where at most n link maps follow and no object fails a check with `m` of fuel: from
  -- n + m + 2 of fuel on, TryBuildLoadedDsosList returns. The registers of the thread have been read; the process has
  -- the list that dso_fetch_list makes of the link maps, sorted by falling base addresses, and the mark that no list
  -- could be built exactly if it is empty, and is as before otherwise; and LookupDso of any address gives the object
  -- that starts nearest at or below it.
  pub try_build_loaded_dsos_list-IsLoaded :
      (fuel m n address stop addr : ℕ) (bytes : Bytes) (t t' : Thread) (s : System W)
      → s.process.dsos ≡ []
      → debug_addr s.process.handle s.world ≡ some address
      → memory_block memory s address 40 ≡ some bytes
      → ((debug_info_of bytes).r_version == 0) ≡ false
      → refresh_general_registers calls.thread (t, s.world) ≡ ((t', s.world), true)
      → get_pc t'.gregs ≡ some stop
      → (stop + 2 ^ 64 - 1) % 2 ^ 64 ≡ (debug_info_of bytes).r_brk
      → Chain (memory_block memory s) m (debug_info_of bytes).r_map n
      → n + m + 2 ≤ fuel
      → (list : List Dso) × (p : Process) × (fetched memory s fuel (debug_info_of bytes)
          ≡ some list)
        × (try_build_loaded_dsos_list calls memory debug_addr fuel t s
            ≡ some (t', record s { process = p }))
        × IsLoaded s.process p list addr
  unfolding try_build_loaded_dsos_list build_refreshed
  try_build_loaded_dsos_list-IsLoaded fuel m n address stop addr bytes t t' s e a b v r pc brk chain
        h =
      let (list, p, all, built, loaded) =
        build_at_breakpoint-IsLoaded fuel m n stop addr (debug_info_of bytes) t' s e pc brk chain
          h in
      let none_yet : is_empty s.process.dsos ≡ true = rw e refl in
      (list, p, all, rw none_yet (rw a (rw b (rw v (rw r built)))), loaded)
