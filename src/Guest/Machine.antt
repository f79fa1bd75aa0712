-- ===== src/Guest/Machine.antt =====
-- The guest's port instructions. Each leaves the guest, is handled by the hypervisor, and lets
-- the guest go on; the value goes through the `kvm_run` page that both share.
use advance_virtualization_a.Prelude.{ℕ, Option, none, some, List, [], ◌∷◌, ◌++◌}
use advance_virtualization_a.Memory.{le_bytes, Bytes, store}
use advance_virtualization_a.SimpleKvm.{
  exit_io, Direction, io_in, io_out, KvmRun, KvmEnv, Host, Step, resume, halted, exit_failure,
  out_of_bounds, load_u32, store_u32, handle_exit, RunResult, exited,
}

-- The hypervisor, the bytes at `data_offset` of the `kvm_run` page, the guest's variable `turn`, and how
-- KVM_RUN has come back so far: with the bytes of the guest's memory at each exit, and the page.
pub record Machine : Type 0 where
  pub host : Host
  pub io_page : Bytes
  pub turn : ℕ
  pub exits : List RunResult

-- `none`: the hypervisor did not let the guest go on.
abbrev pub Guest : Type 0 → Type 0
Guest A = Machine → Option (A × Machine)

abbrev pub pure : {A : Type 0} → A → Guest A
pure a m = some (a, m)

infixl 5 ◌>>=◌ ◌>>◌
abbrev pub ◌>>=◌ : {A B : Type 0} → Guest A → (A → Guest B) → Guest B
◌>>=◌ c f m = elim (c m) [ none ↦ none | some (a, m') ↦ f a m' ]

abbrev pub ◌>>◌ : {B : Type 0} → Guest (Unit {0}) → Guest B → Guest B
c >> k = c >>= λ _. k

abbrev pub io_exit : Direction → ℕ → ℕ → Bytes → KvmRun
io_exit direction port size page = record {
  exit_reason = exit_io;
  io_direction = direction;
  io_port = port;
  io_size = size;
  io_data = page;
}

-- The guest leaves KVM_RUN.
abbrev pub leaves : KvmRun → Machine → Machine
leaves run m = record m { exits = m.exits ++ exited m.host.mem.bytes run ∷ [] }

abbrev pub after_exit : Machine → Step → Option (Unit {0} × Machine)
after_exit m (resume h page) = some (tt, record m { host = h; io_page = page })
after_exit m (halted h) = none
after_exit m (exit_failure h) = none
after_exit m out_of_bounds = none

-- One exit: the hypervisor handles it, and lets the guest go on.
abbrev pub exits_with : KvmEnv → KvmRun → Guest (Unit {0})
exits_with env run m = after_exit (leaves run m) (handle_exit env run m.host)

module _ (env : KvmEnv) where
  unfoldable pub outb : ℕ → ℕ → Guest (Unit {0})
  outb port value m =
      exits_with env (io_exit io_out port 1 (store m.io_page 0 (le_bytes 1 value))) m

  unfoldable pub outl : ℕ → ℕ → Guest (Unit {0})
  outl port value m = exits_with env (io_exit io_out port 4 (store_u32 m.io_page value)) m

  read_page : Guest ℕ
  read_page m = some (load_u32 m.io_page, m)

  unfoldable pub inl : ℕ → Guest ℕ
  unfolding read_page
  inl port = do λ m. exits_with env (io_exit io_in port 4 m.io_page) m; read_page
