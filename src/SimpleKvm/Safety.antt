-- ===== src/SimpleKvm/Safety.antt =====
-- Which memory an exit of the guest can make the hypervisor read and write.
use advance_virtualization_a.Prelude.{ℕ, ◌+◌, ◌≤◌, ◌<◌, ◌≡◌, ◌⊎◌, ◌↔◌, none, List, arith, length}
use advance_virtualization_a.Memory.{
  Bytes, u32, load, length-load, store-outside, write_ram, read_string,
}
use advance_virtualization_a.SimpleKvm.State.{
  KvmRun, exit_io, io_in, io_out, KvmEnv, Host, resume, out_of_bounds,
}
use advance_virtualization_a.SimpleKvm.Exits.{
  load_u32, handle_io, handle_exit, fill_buffer, exits_text,
}

module _ (env : KvmEnv) where
  -- The two requests that reach outside.
  abbrev pub AsksOutside : KvmRun → Host → Type 0
  AsksOutside run h =
      (run.exit_reason ≡ exit_io)
      × (((run.io_direction ≡ io_in)
            × (run.io_port ≡ 0xF3)
            × (h.mem.size < h.num_exit_hc_address + 100))
          ⊎ ((run.io_direction ≡ io_out)
              × (run.io_port ≡ 0xF2)
              × (read_string h.mem (load_u32 run.io_data) ≡ none)))

  length_buffer : (text : List ℕ) → length (load (fill_buffer env.stack text) 0 100) ≡ 100
  length_buffer text = length-load _ 0 100

  handle_io-out_of_bounds_iff :
      (run : KvmRun) (h : Host)
      → (handle_io env run h ≡ out_of_bounds) ↔ AsksOutside (record run { exit_reason = exit_io }) h
  unfolding handle_io write_ram
  handle_io-out_of_bounds_iff run h =
      ground
        (arith, length_buffer (exits_text (u32 (h.exits_due_to_io_in + 1)) h.exits_due_to_io_out))

  -- The hypervisor leaves the guest's memory exactly where the guest asks for its exit counts at an address
  -- with fewer than 100 bytes behind it, or for a string that does not end inside of the memory.
  pub handle_exit-out_of_bounds_iff :
      (run : KvmRun) (h : Host) → (handle_exit env run h ≡ out_of_bounds) ↔ AsksOutside run h
  unfolding handle_exit
  handle_exit-out_of_bounds_iff run h =
      ground (
        arith,
        handle_io-out_of_bounds_iff run (record h { total_exits = u32 (h.total_exits + 1) }),
      )

  handle_io-frame :
      (q : ℕ) (run : KvmRun) (h h' : Host) (page : Bytes)
      → (q < h.num_exit_hc_address) ⊎ (h.num_exit_hc_address + 100 ≤ q)
      → handle_io env run h ≡ resume h' page
      → (h'.mem.size ≡ h.mem.size) × (h'.mem.bytes q ≡ h.mem.bytes q)
  unfolding handle_io write_ram
  handle_io-frame q run h h' page outside e =
      let text = exits_text (u32 (h.exits_due_to_io_in + 1)) h.exits_due_to_io_out in
      let bs = load (fill_buffer env.stack text) 0 100 in
      ground (arith, length_buffer text, store-outside h.mem.bytes h.num_exit_hc_address bs q)

  -- An exit that lets the guest go on changes no byte of its memory outside of the 100 bytes that
  -- the guest announced on port 0xFF, and not the size of the memory.
  pub handle_exit-frame :
      (q : ℕ) (run : KvmRun) (h h' : Host) (page : Bytes)
      → (q < h.num_exit_hc_address) ⊎ (h.num_exit_hc_address + 100 ≤ q)
      → handle_exit env run h ≡ resume h' page
      → (h'.mem.size ≡ h.mem.size) × (h'.mem.bytes q ≡ h.mem.bytes q)
  unfolding handle_exit
  handle_exit-frame q run h h' page outside e = ground (
    arith,
    handle_io-frame q run (record h { total_exits = u32 (h.total_exits + 1) }) h' page outside,
  )
