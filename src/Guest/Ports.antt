-- ===== src/Guest/Ports.antt =====
-- What one port instruction of guest.c does to the machine, for each port that the hypervisor
-- serves.
use advance_virtualization_a.Prelude.{ℕ, ◌+◌, ◌%◌, ◌≡◌, some, List, [], ◌∷◌, ◌++◌, arith, codes}
use advance_virtualization_a.Memory.{
  u32, le_bytes, Bytes, store, load, length-le_bytes, load-store, of_le_bytes-le_bytes_four,
  read_string, write_ram, Ram,
}
use advance_virtualization_a.Memory.Decimal.{show_u32}
use advance_virtualization_a.SimpleKvm.{
  io_in, io_out, KvmEnv, Host, load_u32, store_u32, print, exits_text, fill_buffer,
  ioctl_call_kvm_translate, handle_exit,
}
use advance_virtualization_a.Guest.Machine.{Machine, io_exit, leaves, outb, outl, inl}

-- A word goes through the page whole.
pub load_u32-store_u32 : (page : Bytes) (v : ℕ) → load_u32 (store_u32 page v) ≡ u32 v
unfolding load_u32 store_u32
load_u32-store_u32 page v = rw (load_store_four) (of_le_bytes-le_bytes_four v)
  where
    load_store_four : load (store page 0 (le_bytes 4 v)) 0 4 ≡ le_bytes 4 v
    load_store_four = rw (length-le_bytes 4 v) at (load-store page 0 (le_bytes 4 v))

-- The counters after one more OUT, and after one more IN.
abbrev pub counted_out : Host → Host
counted_out h = record h {
  total_exits = u32 (h.total_exits + 1);
  exits_due_to_io_out = u32 (h.exits_due_to_io_out + 1);
}

abbrev pub counted_in : Host → Host
counted_in h = record h {
  total_exits = u32 (h.total_exits + 1);
  exits_due_to_io_in = u32 (h.exits_due_to_io_in + 1);
}

-- The machine after the instruction has written `v` and the hypervisor is at `h`.
abbrev pub wrote : Machine → Host → ℕ → Machine
wrote m h v = record m { host = h; io_page = store_u32 m.io_page v }

-- The machine with the exit of an OUT of a word, or of an IN of one.
abbrev pub at_out : ℕ → ℕ → Machine → Machine
at_out port v m = leaves (io_exit io_out port 4 (store_u32 m.io_page v)) m

abbrev pub at_in : ℕ → Machine → Machine
at_in port m = leaves (io_exit io_in port 4 m.io_page) m

module _ (env : KvmEnv) (m : Machine) (v : ℕ) where
  pub outl-gva :
      outl env 0xEE v m
      ≡ some (tt, wrote (at_out 0xEE v m) (record (counted_out m.host) { gva_value = u32 v }) v)
  unfolding outl handle_exit
  outl-gva = rw (load_u32-store_u32 m.io_page v)

  pub outl-value :
      outl env 0xF1 v m
      ≡ some (
        tt,
        wrote (at_out 0xF1 v m) (print (show_u32 (u32 v) ++ codes "\n") (counted_out m.host)) v,
      )
  unfolding outl handle_exit
  outl-value = rw (load_u32-store_u32 m.io_page v)

  pub outl-address :
      outl env 0xFF v m
      ≡ some (
        tt,
        wrote (at_out 0xFF v m) (record (counted_out m.host) { num_exit_hc_address = u32 v }) v,
      )
  unfolding outl handle_exit
  outl-address = rw (load_u32-store_u32 m.io_page v)

  pub outl-string :
      (text : List ℕ)
      → read_string m.host.mem (u32 v) ≡ some text
      → outl env 0xF2 v m ≡ some (tt, wrote (at_out 0xF2 v m) (print text (counted_out m.host)) v)
  unfolding outl handle_exit
  outl-string text e = ground (arith, load_u32-store_u32 m.io_page v)

  pub outb-byte :
      outb env 0xE9 v m
      ≡ some (
        tt,
        record (leaves (io_exit io_out 0xE9 1 (store m.io_page 0 (le_bytes 1 v))) m) {
          host = print (v % 256 ∷ []) (counted_out m.host);
          io_page = store m.io_page 0 (le_bytes 1 v);
        },
      )
  unfolding outb handle_exit le_bytes
  outb-byte = rw (load-store m.io_page 0 (v % 256 ∷ []))

module _ (env : KvmEnv) (m : Machine) where
  pub inl-hva : inl env 0xEF m ≡ (
      let (hva, h) = ioctl_call_kvm_translate env m.host.gva_value (counted_in m.host) in
      some (u32 hva, wrote (at_in 0xEF m) h hva))
  unfolding inl handle_exit
  inl-hva = rw load_u32-store_u32

  pub inl-total_exits :
      inl env 0xF4 m
      ≡ some (
        u32 (u32 (m.host.total_exits + 1)),
        wrote (at_in 0xF4 m) (counted_in m.host) (u32 (m.host.total_exits + 1)),
      )
  unfolding inl handle_exit
  inl-total_exits = rw load_u32-store_u32

  pub inl-exits :
      (ram : Ram)
      → (let text = exits_text (u32 (m.host.exits_due_to_io_in + 1)) m.host.exits_due_to_io_out in
          write_ram m.host.mem m.host.num_exit_hc_address (load (fill_buffer env.stack text) 0 100)
          ≡ some ram)
      → inl env 0xF3 m
        ≡ some (
          u32 m.host.num_exit_hc_address,
          wrote
              (at_in 0xF3 m)
              (record (counted_in m.host) { mem = ram })
              m.host.num_exit_hc_address,
        )
  unfolding inl handle_exit
  inl-exits ram e = ground (arith, load_u32-store_u32 m.io_page m.host.num_exit_hc_address)
