-- ===== src/Lkm/Clients.antt =====
-- lkm3_test.c and lkm4_test.c: programs that allocate memory and wait for a key, while lkm3 or lkm4
-- looks at them; and lkm3_test.c together with lkm3.
use advance_virtualization_a.Prelude.{
  ℕ, zero, suc, ◌+◌, ◌-◌, ◌*◌, ◌%◌, ◌^◌, ◌<◌, ◌≡◌, ◌≢◌, inl, inr, ◌∙◌, Bool, Option, none, some,
  List, [], ◌∷◌, ◌++◌, ℤ, arith, leb, ◌==◌, if◌then◌else◌,
}
use advance_virtualization_a.PageWalk.{Task, Paging}
use advance_virtualization_a.PageWalk.Address.{frame}
use advance_virtualization_a.PageWalk.Outcome.{find_task, IsPresent, entry, page_table_walk-present}
use advance_virtualization_a.Lkm.Kernel.{Kernel, module_loaded, physical_is}
use advance_virtualization_a.Lkm.Translation.{lkm3_init, lkm3_init_lem}

-- What the programs do, as it is seen from outside: the lines that they print, and where they wait for
-- a key, with the bytes that are allocated at that time.
pub data Event : Type 0 where
  process_id : ℤ → Event
  virtual_address : ℕ → Event
  memory_allocated : ℕ → Event
  allocation_failed : Event
  waits : ℕ → Event

-- A process: the bytes that it has allocated, and what it has done.
pub record Process : Type 0 where
  pub live : ℕ
  pub events : List Event

abbrev does : Event → Process → Process
does e p = record p { events = p.events ++ e ∷ [] }

abbrev allocates : ℕ → Process → Process
allocates bytes p = record p { live = p.live + bytes }

abbrev frees : ℕ → Process → Process
frees bytes p = record p { live = p.live - bytes }

abbrev getchar : Process → Process
getchar p = does (waits p.live) p

abbrev begun : ℤ → Process
begun pid = record { live = 0; events = process_id pid ∷ [] }

-- lkm3_test.c, given what `malloc` gives; the program never uses the pointer but to print it.
unfoldable pub lkm3_test : ℤ → ℕ → Process
lkm3_test pid ptr =
    let p = begun pid in
    let p' = if ptr == 0 then p else allocates 5000 p in getchar (does (virtual_address ptr) p')

-- One round of the loop in lkm4_test.c where `malloc` succeeds.
abbrev round : ℕ → Process → Process
round i p =
    let bytes = 1024 * i * 10 * 4 in
    frees bytes (getchar (does (memory_allocated (4 * i * 10)) (allocates bytes p)))

-- The loop, given the sizes at which `malloc` succeeds; `none` means that the fuel ran out. The
-- numbers stay far below 2^31.
unfoldable pub lkm4_test_loop : ℕ → (ℕ → Bool) → ℕ → Process → Option Process
lkm4_test_loop zero malloc i p = none
lkm4_test_loop (suc fuel) malloc i p =
    let rest = lkm4_test_loop fuel malloc (i + 20) (round i p) in
    if leb i 100
    then (if malloc (1024 * i * 10 * 4) then rest else some (does allocation_failed p))
    else some p

unfoldable pub lkm4_test : ℕ → (ℕ → Bool) → ℤ → Option Process
unfolding lkm4_test_loop
lkm4_test fuel malloc pid = lkm4_test_loop fuel malloc 1 (begun pid)

-- What a reader of the program's output expects, given the sizes in KB that it asks for.
abbrev pub expected : (ℕ → Bool) → List ℕ → List Event
expected malloc [] = []
expected malloc (kb ∷ kbs) =
    if malloc (1024 * kb)
    then memory_allocated kb ∷ waits (1024 * kb) ∷ expected malloc kbs
    else allocation_failed ∷ []

-- The loop of lkm4_test.c ends, six units of fuel being enough: the program asks for 40, 840, 1640,
-- 2440 and 3240 KB in turn, up to the first request that fails; at each key it has exactly the block
-- allocated of which it has printed the size; and at its end it has freed all.
pub lkm4_test_lem :
    (fuel : ℕ) (malloc : ℕ → Bool) (pid : ℤ)
    → lkm4_test (suc (suc (suc (suc (suc (suc fuel)))))) malloc pid
      ≡ some (record {
        live = 0;
        events = process_id pid ∷ expected malloc (40 ∷ 840 ∷ 1640 ∷ 2440 ∷ 3240 ∷ []);
      })
unfolding lkm4_test
lkm4_test_lem fuel malloc pid = ground arith

-- lkm3_test.c with lkm3.c: the program prints its process id and the address of its block, and
-- waits; where lkm3 is then loaded with these two numbers, finds the process, and its tables hold an
-- entry for the address with a page below 2^31 and other than the byte 0, lkm3 logs the physical
-- address of the byte, returns 0 and gives its lock back.
pub lkm3_test-located :
    (p : Paging) (pid : ℤ) (ptr mm : ℕ) (task : Task) (tasks : List Task) (k : Kernel)
    → ptr ≢ 0
    → find_task pid tasks ≡ some task
    → task.mm ≡ some mm
    → IsPresent p ptr mm
    → entry p ptr mm < 2 ^ 64
    → frame (entry p ptr mm) < 2 ^ 31
    → 0 < frame (entry p ptr mm) + ptr % 4096
    → ((lkm3_test pid ptr).events ≡ process_id pid ∷ virtual_address ptr ∷ waits 5000 ∷ [])
      × (k' : Kernel) × (lkm3_init p pid ptr tasks k ≡ some (0, k'))
      × (k'.rcu_depth ≡ k.rcu_depth)
      × (k'.log
          ≡ (k.log ++ module_loaded ∷ []) ++ physical_is (frame (entry p ptr mm) + ptr % 4096) ∷ [])
unfolding lkm3_test
lkm3_test-located p pid ptr mm task tasks k some_ptr found has present small low some_byte =
    let walk = page_table_walk-present p ptr pid tasks task mm found has present small low in
    elim (lkm3_init_lem p pid ptr tasks k) [
      | inl (faults, _) ↦ absurd (ground arith)
      | inr (k', runs, depth, lines) ↦
          (ground arith, k', runs, depth, lines ∙ rw walk (ground arith))
    ]
