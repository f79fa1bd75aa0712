-- ===== src/Guest/ByType.antt =====
-- HC_numExitsByType of guest.c: the text that a call leaves in its array, and how long it stays.
use advance_virtualization_a.Prelude.{
  ℕ, zero, suc, ◌+◌, ◌%◌, ◌≤◌, ◌<◌, ◌≡◌, ◌⊎◌, ◌≢◌, refl, some, List, arith, length, ◌∙◌, subst, sym,
}
use advance_virtualization_a.Memory.{u32, read_string}
use advance_virtualization_a.SimpleKvm.{KvmEnv, exits_text}
use advance_virtualization_a.Guest.Machine.{Machine, Guest, pure, ◌>>=◌}
use advance_virtualization_a.Guest.Calls.{Arrays, array_of_turn, hc_num_exits_by_type}
use advance_virtualization_a.Guest.Ports.{
  counted_in, counted_out, at_in, at_out, wrote, outl-address, inl-exits,
}
use advance_virtualization_a.Guest.Counts.{
  written, written-frame, write_ram-written, written-Holds, written-Holds_apart, length-exits_text,
  exits_text-HasNoNul, Holds, read_string-Holds,
}

-- The arrays `s0` to `s9` lie in the guest's memory, and no two of them overlap.
pub record IsLaidOut (s : Arrays) (size : ℕ) : Type 0 where
  pub inside : (i : ℕ) → i < 10 → u32 (s i) + 100 ≤ size
  pub apart :
      (i j : ℕ)
      → i < 10
      → j < 10
      → i ≢ j
      → (u32 (s i) + 100 ≤ u32 (s j)) ⊎ (u32 (s j) + 100 ≤ u32 (s i))

pub array_of_turn_lem : (s : Arrays) (t : ℕ) → t < 10 → array_of_turn s t ≡ u32 (s t)
unfolding array_of_turn
array_of_turn_lem s t lt = ground arith

-- The counts that the call reports: both of its own exits included.
abbrev pub reported : Machine → List ℕ
reported m = exits_text (u32 (m.host.exits_due_to_io_in + 1)) (u32 (m.host.exits_due_to_io_out + 1))

module _ (env : KvmEnv) (s : Arrays) (m : Machine) where
  abbrev address : ℕ
  address = array_of_turn s m.turn

  abbrev announced : Machine
  announced =
      wrote (at_out 0xFF address (record m { turn = (m.turn + 1) % 10 }))
        (record (counted_out m.host) { num_exit_hc_address = u32 address }) address

  -- The machine after the call.
  abbrev pub after_call : Machine
  after_call =
      wrote (at_in 0xF3 announced)
        (record (counted_in announced.host) {
          mem = written env (reported m) m.host.mem (u32 address);
        })
        (u32 address)

  pub u32-address : u32 address ≡ address
  unfolding array_of_turn
  u32-address = ground arith

  pub hc_num_exits_by_type-runs :
      address + 100 ≤ m.host.mem.size → hc_num_exits_by_type env s m ≡ some (address, after_call)
  unfolding hc_num_exits_by_type
  hc_num_exits_by_type-runs fits = ground (
    arith,
    u32-address,
    outl-address env (record m { turn = (m.turn + 1) % 10 }) address,
    write_ram-written env (reported m) m.host.mem (u32 address) (rw u32-address fits),
    inl-exits env announced (written env (reported m) m.host.mem (u32 address)),
  )

  -- If the array of the turn lies in memory, the call comes back with its address, the text in it
  -- names the exits counted so far, the call's own two included, the byte at any place outside of
  -- the array is as before, and the next call takes the next array.
  pub hc_num_exits_by_type_lem :
      (q : ℕ)
      → address + 100 ≤ m.host.mem.size
      → (q < address) ⊎ (address + 100 ≤ q)
      → (m' : Machine) × (hc_num_exits_by_type env s m ≡ some (address, m'))
        × (read_string m'.host.mem address ≡ some (reported m))
        × (m'.host.mem.bytes q ≡ m.host.mem.bytes q)
        × (m'.turn ≡ (m.turn + 1) % 10)
  hc_num_exits_by_type_lem q fits outside = (
    after_call,
    hc_num_exits_by_type-runs fits,
    rw u32-address (
        read_string-Holds (written env (reported m) m.host.mem address) address (reported m)
          (exits_text-HasNoNul _ _) (length-exits_text _ _)
          (written-Holds env (reported m) m.host.mem address (length-exits_text _ _) fits)),
    rw u32-address (written-frame env (reported m) m.host.mem address q outside),
    refl,
  )

module _ (env : KvmEnv) (s : Arrays) where
  -- `n` calls in a row.
  pub calls : ℕ → Guest (Unit {0})
  calls zero = pure tt
  calls (suc n) = hc_num_exits_by_type env s >>= λ _. calls n

  calls-Holds :
      (n t j : ℕ) (m : Machine) (old : List ℕ)
      → IsLaidOut s m.host.mem.size
      → t < 10
      → 0 < j
      → j + n ≤ 10
      → m.turn ≡ (t + j) % 10
      → length old ≤ 37
      → Holds m.host.mem (u32 (s t)) old
      → (m' : Machine) × (calls n m ≡ some (tt, m')) × Holds m'.host.mem (u32 (s t)) old
  unfolding calls
  calls-Holds zero t j m old laid t_lt pos room turn short h = (m, refl, h)
  calls-Holds (suc n) t j m old laid t_lt pos room turn short h =
      let here = array_of_turn_lem s m.turn (omega arith) in
      let at = u32-address env s m in
      let fits = laid.inside m.turn (omega arith) in
      let distinct : t ≢ m.turn = omega arith in
      let apart = laid.apart t m.turn t_lt (omega arith) distinct in
      let kept =
        written-Holds_apart env (reported m) m.host.mem (u32 (array_of_turn s m.turn)) (u32 (s t))
          old short (rw (at, here) apart) h in
      let (m', runs, holds) =
        calls-Holds n t (j + 1) (after_call env s m) old laid t_lt (omega arith) (omega arith)
          (omega arith) short kept in
      (m', ground (arith, hc_num_exits_by_type-runs env s m (rw here fits), runs), holds)

  -- With the arrays laid out in memory, without overlap, and `turn` below 10, the call comes back,
  -- and so do up to nine more; the text of the first call then still stands in its array.
  pub calls-read_string :
      (n : ℕ) (m : Machine)
      → IsLaidOut s m.host.mem.size
      → m.turn < 10
      → n ≤ 9
      → (m' : Machine) × (calls (suc n) m ≡ some (tt, m'))
        × (read_string m'.host.mem (array_of_turn s m.turn) ≡ some (reported m))
  unfolding calls
  calls-read_string n m laid lt few =
      let here = array_of_turn_lem s m.turn lt in
      let at = u32-address env s m in
      let fits = laid.inside m.turn lt in
      let stands =
        written-Holds env (reported m) m.host.mem (u32 (array_of_turn s m.turn))
          (length-exits_text _ _) (rw (at, here) fits) in
      let (m', runs, holds) =
        calls-Holds n m.turn 1 (after_call env s m) (reported m) laid lt (omega arith) (omega arith)
          refl (length-exits_text _ _)
          (subst (λ a. Holds (after_call env s m).host.mem a (reported m)) (at ∙ here) stands) in
      (
        m',
        ground (arith, hc_num_exits_by_type-runs env s m (rw here fits), runs),
        subst (λ a. read_string m'.host.mem a ≡ some (reported m)) (sym here)
            (read_string-Holds m'.host.mem (u32 (s m.turn)) (reported m) (exits_text-HasNoNul _ _)
              (length-exits_text _ _) holds),
      )
