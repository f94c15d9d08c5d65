-- ===== src/Decoder/Callback.antt =====
-- What code DecoderState::ReadMemCallback reads for an address (lib/intel-pt-decode/decoder.cc).
use gdbserver.Base.{
  Option-cases, ℕ, ◌+◌, ◌-◌, ◌^◌, ◌%◌, ◌≡◌, ◌≢◌, inl, inr, Option, none, some, [], ◌∷◌, ◌++◌, Bytes,
  refl, length, All,
}
use gdbserver.BuildIds.{BuildId, lookup_build_id}
use gdbserver.LoadMaps.{LoadMap, lookup_load_map}
use gdbserver.Decoder.{
  tables_of, read_elf, Libraries, Process, DecoderState, process_by_cr3, lookup_process_by_cr3,
  emplace, read_from_file, read_mem_callback,
}
use gdbserver.Decoder.Found.{
  Has, Found, HasCr3, Covers, process_by_cr3-Found, lookup_load_map-Found, lookup_build_id-Found,
}

-- A call comes to its end with an outcome.
abbrev pub Ends : {A B : Type 0} → (A → B → Type 0) → Option (A × B) → Type 0
Ends {A} {B} P call = (a : A) × (b : B) × (call ≡ some (a, b)) × P a b

module _ {I S D R : Type 0} (lib : Libraries I S D R) (size cr3 addr : ℕ)
    (s : DecoderState I S D) where
  -- The length of a map, as a uint64_t.
  abbrev pub map_len : LoadMap → ℕ
  map_len m = (m.end_addr + 2 ^ 64 - m.load_addr) % 2 ^ 64

  -- The file was read into the image at the place of the map, and the image has answered; or the file has no name, or
  -- cannot be read.
  pub data FromFile (file : Bytes) (m : LoadMap) (s' : DecoderState I S D) (r : R) : Type 0 where
    unnamed : file ≡ [] → s' ≡ s → r ≡ lib.nomap → FromFile file m s' r
    unreadable :
        (image : I)
        → s.image ≡ some image
        → (lib.read_elf file m.base_addr cr3 0 (map_len m) image).1 ≡ none
        → r ≡ lib.nomap
        → FromFile file m s' r
    answered :
        (image : I)
        → s.image ≡ some image
        → (lib.read_elf file m.base_addr cr3 0 (map_len m) image).1 ≢ none
        → s'.image ≡ some (lib.read_elf file m.base_addr cr3 0 (map_len m) image).0
        → r
          ≡ lib.pt_image_read_for_callback
              (lib.read_elf file m.base_addr cr3 0 (map_len m) image).0
              size
              cr3
              addr
        → FromFile file m s' r

  -- What the callback may answer: nothing for a process that is not known, which is noted; nothing where no map of the
  -- process holds the address, or no file has the build id of the map, or the file cannot be read; or what the image
  -- has, after the file was read into it at the place of the map.
  pub data Answer (s' : DecoderState I S D) (r : R) : Type 0 where
    unknown_process :
        All (λ p. ¬ HasCr3 lib.no_cr3 (length s.processes) cr3 p) s.processes
        → s' ≡ record s { unknown_cr3s = emplace cr3 s.unknown_cr3s }
        → r ≡ lib.nomap
        → Answer s' r
    unmapped :
        (p : Process)
        → Has p s.processes
        → HasCr3 lib.no_cr3 (length s.processes) cr3 p
        → All (λ m. ¬ Covers p.pid addr m) s.load_maps
        → s' ≡ s
        → r ≡ lib.nomap
        → Answer s' r
    unknown_build_id :
        (p : Process) (m : LoadMap)
        → Has p s.processes
        → HasCr3 lib.no_cr3 (length s.processes) cr3 p
        → Has m s.load_maps
        → Covers p.pid addr m
        → All (λ b. m.build_id ≢ b.build_id) s.build_ids
        → s' ≡ s
        → r ≡ lib.nomap
        → Answer s' r
    mapped :
        (p : Process) (m : LoadMap) (b : BuildId)
        → Has p s.processes
        → HasCr3 lib.no_cr3 (length s.processes) cr3 p
        → Has m s.load_maps
        → Covers p.pid addr m
        → Has b s.build_ids
        → m.build_id ≡ b.build_id
        → FromFile b.file m s' r
        → Answer s' r

  abbrev Call : Type 0
  Call = Option (DecoderState I S D × R)

  from_file :
      (image : I) (file : Bytes) (m : LoadMap)
      → s.image ≡ some image
      → Ends (FromFile file m) (read_from_file lib size cr3 addr m file s)
  unfolding read_from_file read_elf
  from_file image [] m h = (s, lib.nomap, refl, unnamed refl refl refl)
  from_file image (c ∷ file) m h =
      let image' : I = (lib.read_elf (c ∷ file) m.base_addr cr3 0 (map_len m) image).0 in
      let s' : DecoderState I S D = record s { image = some image' } in
      elim (Option-cases (lib.read_elf (c ∷ file) m.base_addr cr3 0 (map_len m) image).1) [
        | inl e ↦ (s', lib.nomap, rw h (rw e refl), unreadable image h e refl)
        | inr (tables, e) ↦ (
          record s' { symtabs = s.symtabs ++ tables_of tables },
          lib.pt_image_read_for_callback image' size cr3 addr,
          rw h (rw e refl),
          answered image h (λ n. absurd (cc)) refl refl,
        )
      ]

  module _ (image : I) (h : s.image ≡ some image) where
    by_build_id :
        (p : Process) (m : LoadMap) (o : Option BuildId)
        → Has p s.processes
        → HasCr3 lib.no_cr3 (length s.processes) cr3 p
        → Has m s.load_maps
        → Covers p.pid addr m
        → Found (λ b. m.build_id ≡ b.build_id) s.build_ids o
        → Ends Answer (elim o as (λ _. Call) [
          | none ↦ some (s, lib.nomap)
          | some bid ↦ read_from_file lib size cr3 addr m bid.file s
        ])
    by_build_id p m none hp hc hm hv f =
        (s, lib.nomap, refl, unknown_build_id p m hp hc hm hv f refl refl)
    by_build_id p m (some b) hp hc hm hv (hb, e) =
        let (s', r, q, a) = from_file image b.file m h in
        (s', r, q, mapped p m b hp hc hm hv hb e a)

    by_map :
        (p : Process) (o : Option LoadMap)
        → Has p s.processes
        → HasCr3 lib.no_cr3 (length s.processes) cr3 p
        → Found (Covers p.pid addr) s.load_maps o
        → Ends Answer (elim o as (λ _. Call) [
          | none ↦ some (s, lib.nomap)
          | some map ↦ elim (lookup_build_id s.build_ids map.build_id) as (λ _. Call) [
            | none ↦ some (s, lib.nomap)
            | some bid ↦ read_from_file lib size cr3 addr map bid.file s
          ]
        ])
    by_map p none hp hc f = (s, lib.nomap, refl, unmapped p hp hc f refl refl)
    by_map p (some m) hp hc (hm, hv) =
        by_build_id p m (lookup_build_id s.build_ids m.build_id) hp hc hm hv
          (lookup_build_id-Found s.build_ids m.build_id)

    by_process :
        (o : Option Process)
        → Found (HasCr3 lib.no_cr3 (length s.processes) cr3) s.processes o
        → Ends Answer (elim o as (λ _. Call) [
          | none ↦ some (record s { unknown_cr3s = emplace cr3 s.unknown_cr3s }, lib.nomap)
          | some proc ↦ elim (lookup_load_map s.load_maps proc.pid addr) as (λ _. Call) [
            | none ↦ some (s, lib.nomap)
            | some map ↦ elim (lookup_build_id s.build_ids map.build_id) as (λ _. Call) [
              | none ↦ some (s, lib.nomap)
              | some bid ↦ read_from_file lib size cr3 addr map bid.file s
            ]
          ]
        ])
    by_process none f = (
      record s { unknown_cr3s = emplace cr3 s.unknown_cr3s },
      lib.nomap,
      refl,
      unknown_process f refl refl,
    )
    by_process (some p) (hp, hc) =
        by_map p (lookup_load_map s.load_maps p.pid addr) hp hc
          (lookup_load_map-Found s.load_maps p.pid addr)

    -- Once the image is allocated, ReadMemCallback never stops the program, and it gives one of these answers.
    pub read_mem_callback-Answer : Ends Answer (read_mem_callback lib size cr3 addr s)
    unfolding read_mem_callback lookup_process_by_cr3
    read_mem_callback-Answer =
        by_process (process_by_cr3 lib.no_cr3 (length s.processes) s.processes cr3)
          (process_by_cr3-Found lib.no_cr3 (length s.processes) s.processes cr3)
