-- ===== src/Guest/Translate.antt =====
-- HC_gvaToHva of guest.c, through the hypervisor's two ports.
use advance_virtualization_a.Prelude.{
  ℕ, ◌+◌, ◌%◌, ◌^◌, ◌<◌, ◌≡◌, ◌↔◌, true, false, some, List, [], ◌++◌, arith, codes,
}
use mathlib.Core.List.{append-nil}
use advance_virtualization_a.Memory.{u32}
use advance_virtualization_a.SimpleKvm.{
  Translation, ioctl_failed, translated, KvmEnv, Host, ioctl_call_kvm_translate,
}
use advance_virtualization_a.Guest.Machine.{Machine}
use advance_virtualization_a.Guest.Calls.{hc_gva_to_hva}
use advance_virtualization_a.Guest.Ports.{
  counted_in, counted_out, at_in, at_out, wrote, outl-gva, inl-hva,
}

-- The value that the guest is to see, and what the hypervisor prints on the way.
abbrev pub seen_hva : KvmEnv → Translation → ℕ
seen_hva env ioctl_failed = 0
seen_hva env (translated false _) = 0
seen_hva env (translated true physical) = (physical + env.mem_base) % 2 ^ 32

abbrev pub complaint : Translation → List ℕ
complaint (translated false _) = codes "Invalid GVA\n"
complaint _ = []

-- The machine `m'` after two exits, one of each kind, that leave the guest's memory alone.
pub record TwoExits (m m' : Machine) : Type 0 where
  pub same_mem : m'.host.mem ≡ m.host.mem
  pub same_turn : m'.turn ≡ m.turn
  pub one_in : m'.host.exits_due_to_io_in ≡ u32 (m.host.exits_due_to_io_in + 1)
  pub one_out : m'.host.exits_due_to_io_out ≡ u32 (m.host.exits_due_to_io_out + 1)
  pub two_exits : m'.host.total_exits ≡ u32 (m.host.total_exits + 2)

-- The machine between the two instructions, and at the end.
abbrev between : ℕ → Machine → Machine
between gva m = wrote (at_out 0xEE gva m) (record (counted_out m.host) { gva_value = u32 gva }) gva

abbrev translation : KvmEnv → ℕ → Machine → ℕ × Host
translation env gva m = ioctl_call_kvm_translate env (u32 gva) (counted_in (between gva m).host)

abbrev finish : KvmEnv → ℕ → Machine → Machine
finish env gva m =
    wrote (at_in 0xEF (between gva m)) (translation env gva m).1 (translation env gva m).0

hc_gva_to_hva-runs :
    (env : KvmEnv) (gva : ℕ) (m : Machine)
    → hc_gva_to_hva env gva m ≡ some (u32 (translation env gva m).0, finish env gva m)
unfolding hc_gva_to_hva
hc_gva_to_hva-runs env gva m = ground (arith, outl-gva env m gva, inl-hva env (between gva m))

finish-TwoExits : (env : KvmEnv) (gva : ℕ) (m : Machine) → TwoExits m (finish env gva m)
unfolding ioctl_call_kvm_translate
finish-TwoExits env gva m = ground arith

translation-seen :
    (env : KvmEnv) (gva : ℕ) (m : Machine)
    → gva < 2 ^ 32
    → u32 (translation env gva m).0 ≡ seen_hva env (env.kvm_translate gva)
unfolding ioctl_call_kvm_translate
translation-seen env gva m lt = let e : u32 gva ≡ gva = omega arith in rw e (ground arith)

translation-complaint :
    (env : KvmEnv) (gva : ℕ) (m : Machine)
    → gva < 2 ^ 32
    → (translation env gva m).1.stdout ≡ m.host.stdout ++ complaint (env.kvm_translate gva)
unfolding ioctl_call_kvm_translate
translation-complaint env gva m lt =
    let e : u32 gva ≡ gva = omega arith in rw e (ground (arith, append-nil m.host.stdout))

-- For every 32-bit address, HC_gvaToHva comes back: with the low 32 bits of the host address where
-- KVM_TRANSLATE gives a valid physical address, and with 0 where it fails or finds none. It takes
-- one exit of each direction, leaves the guest's memory alone, and makes the host print a line
-- exactly where there is no valid translation.
pub hc_gva_to_hva_lem :
    (env : KvmEnv) (gva : ℕ) (m : Machine)
    → gva < 2 ^ 32
    → (m' : Machine) × (hc_gva_to_hva env gva m ≡ some (seen_hva env (env.kvm_translate gva), m'))
      × TwoExits m m'
      × (m'.host.stdout ≡ m.host.stdout ++ complaint (env.kvm_translate gva))
hc_gva_to_hva_lem env gva m lt = (
  finish env gva m,
  rw (← translation-seen env gva m lt) (hc_gva_to_hva-runs env gva m),
  finish-TwoExits env gva m,
  translation-complaint env gva m lt,
)

seen_hva-exact_iff :
    (env : KvmEnv) (physical : ℕ)
    → (seen_hva env (translated true physical) ≡ physical + env.mem_base)
      ↔ (physical + env.mem_base < 2 ^ 32)
seen_hva-exact_iff env physical = ground arith

-- Where the translation is valid, the value that HC_gvaToHva gives is the address at which the
-- hypervisor sees the byte exactly if that address is below 2^32.
pub hc_gva_to_hva-exact_iff :
    (env : KvmEnv) (gva physical : ℕ) (m : Machine)
    → gva < 2 ^ 32
    → env.kvm_translate gva ≡ translated true physical
    → {hva : ℕ} {m' : Machine} → hc_gva_to_hva env gva m ≡ some (hva, m')
    → (hva ≡ physical + env.mem_base) ↔ (physical + env.mem_base < 2 ^ 32)
hc_gva_to_hva-exact_iff env gva physical m lt valid runs = ground (
  arith,
  hc_gva_to_hva-runs env gva m,
  translation-seen env gva m lt,
  seen_hva-exact_iff env physical,
)
