-- ===== src/SimpleKvm/Exits.antt =====
-- The body of the loop in `run_vm`: what the hypervisor does with one exit of the guest.
use advance_virtualization_a.Prelude.{
  ℕ, ◌+◌, Bool, true, false, ◌&&◌, Option, none, some, List, ◌∷◌, [], ◌++◌, ◌==◌, if◌then◌else◌,
  codes,
}
use advance_virtualization_a.Memory.{
  u32, u64, le_bytes, of_le_bytes, Bytes, store, load, Ram, write_ram, read_string,
}
use advance_virtualization_a.Memory.Decimal.{show_u32}
use advance_virtualization_a.SimpleKvm.State.{
  ExitReason, exit_io, exit_hlt, Direction, io_in, io_out, KvmRun, Translation, ioctl_failed,
  translated, KvmEnv, Host, Step, resume, halted, exit_failure, out_of_bounds,
}

-- `memcpy(&value, p + io.data_offset, sizeof(uint32_t))`
unfoldable pub load_u32 : Bytes → ℕ
load_u32 bytes = of_le_bytes (load bytes 0 4)

-- `memcpy(destination_address, &value, sizeof(uint32_t))`
unfoldable pub store_u32 : Bytes → ℕ → Bytes
store_u32 bytes value = store bytes 0 (le_bytes 4 value)

abbrev pub is_out : Direction → Bool
is_out io_out = true
is_out io_in = false

abbrev pub is_in : Direction → Bool
is_in io_out = false
is_in io_in = true

-- `printf` and `fwrite` to `stdout`.
abbrev pub print : List ℕ → Host → Host
print text h = record h { stdout = h.stdout ++ text }

abbrev count_out : Host → Host
count_out h = record h { exits_due_to_io_out = u32 (h.exits_due_to_io_out + 1) }

abbrev count_in : Host → Host
count_in h = record h { exits_due_to_io_in = u32 (h.exits_due_to_io_in + 1) }

-- The text that HC_numExitsByType writes.
unfoldable pub exits_text : ℕ → ℕ → List ℕ
exits_text ins outs =
    codes "IO in: " ++ (show_u32 ins ++ (codes "\nIO out: " ++ (show_u32 outs ++ codes "\n")))

-- `snprintf` into `buffer`: the text and its NUL; the rest of `buffer` stays as it was. The text
-- is shorter than the 100 bytes of `buffer` (`length-exits_text`), so it is never cut.
unfoldable pub fill_buffer : Bytes → List ℕ → Bytes
fill_buffer buffer text = store buffer 0 (text ++ 0 ∷ [])

module _ (env : KvmEnv) where
  open env use {mem_base, kvm_translate, stack}

  abbrev translation_result : Translation → Host → ℕ × Host
  translation_result ioctl_failed h = (0, h)
  translation_result (translated false _) h = (0, print (codes "Invalid GVA\n") h)
  translation_result (translated true physical) h = (u32 (u64 (physical + mem_base)), h)

  -- `kt.linear_address` is the zero-extended argument; the 64-bit sum is cut to the 32 bits of
  -- the result type.
  unfoldable pub ioctl_call_kvm_translate : ℕ → Host → ℕ × Host
  ioctl_call_kvm_translate gva h = translation_result (kvm_translate gva) h

  -- Port 0xE9: `fwrite` of `io.size` bytes.
  unfoldable pub print_bytes : KvmRun → Host → Step
  print_bytes run h = resume (print (load run.io_data 0 run.io_size) h) run.io_data

  -- Port 0xEE.
  unfoldable pub take_gva : KvmRun → Host → Step
  take_gva run h = resume (record h { gva_value = load_u32 run.io_data }) run.io_data

  -- Port 0xEF.
  unfoldable pub give_hva : KvmRun → Host → Step
  unfolding ioctl_call_kvm_translate
  give_hva run h =
      let (hva, h') = ioctl_call_kvm_translate h.gva_value h in
      resume h' (store_u32 run.io_data hva)

  -- Port 0xF1.
  unfoldable pub print_value : KvmRun → Host → Step
  print_value run h = resume (print (show_u32 (load_u32 run.io_data) ++ codes "\n") h) run.io_data

  -- Port 0xF4.
  unfoldable pub give_total_exits : KvmRun → Host → Step
  give_total_exits run h = resume h (store_u32 run.io_data h.total_exits)

  print_found : KvmRun → Host → Option (List ℕ) → Step
  print_found run h none = out_of_bounds
  print_found run h (some text) = resume (print text h) run.io_data

  -- Port 0xF2: `%s` at `vm->mem + address`.
  unfoldable pub print_string : KvmRun → Host → Step
  unfolding print_found
  print_string run h = print_found run h (read_string h.mem (load_u32 run.io_data))

  -- Port 0xFF.
  unfoldable pub take_address : KvmRun → Host → Step
  take_address run h = resume (record h { num_exit_hc_address = load_u32 run.io_data }) run.io_data

  exits_written : KvmRun → Host → Option Ram → Step
  exits_written run h none = out_of_bounds
  exits_written run h (some mem) =
      resume (record h { mem = mem }) (store_u32 run.io_data h.num_exit_hc_address)

  -- Port 0xF3: the whole `buffer` of 100 bytes is copied to the guest.
  unfoldable pub write_exits : KvmRun → Host → Step
  unfolding exits_written
  write_exits run h =
      let text = exits_text h.exits_due_to_io_in h.exits_due_to_io_out in
      exits_written run h
        (write_ram h.mem h.num_exit_hc_address (load (fill_buffer stack text) 0 100))

  -- `case KVM_EXIT_IO`, its tests in the order of the code; no test passes: the default case.
  unfoldable pub handle_io : KvmRun → Host → Step
  unfolding print_bytes take_gva give_hva print_value give_total_exits print_string take_address
      write_exits
  handle_io run h =
      let out = is_out run.io_direction in
      let inp = is_in run.io_direction in
      let port = run.io_port in
      if out && port == 0xE9
      then print_bytes run (count_out h)
      else (if out && port == 0xEE
          then take_gva run (count_out h)
          else (if inp && port == 0xEF
              then give_hva run (count_in h)
              else (if out && port == 0xF1
                  then print_value run (count_out h)
                  else (if inp && port == 0xF4
                      then give_total_exits run (count_in h)
                      else (if out && port == 0xF2
                          then print_string run (count_out h)
                          else (if out && port == 0xFF
                              then take_address run (count_out h)
                              else (if inp && port == 0xF3
                                  then write_exits run (count_in h)
                                  else exit_failure h)))))))

  dispatch : ExitReason → KvmRun → Host → Step
  unfolding handle_io
  dispatch exit_hlt run h = halted h
  dispatch exit_io run h = handle_io run h
  dispatch _ run h = exit_failure h

  -- One round of the loop, from the return of KVM_RUN on.
  unfoldable pub handle_exit : KvmRun → Host → Step
  unfolding dispatch
  handle_exit run h =
      dispatch run.exit_reason run (record h { total_exits = u32 (h.total_exits + 1) })
