-- ===== src/Memory/Laws.antt =====
-- What a load gives after a store, and words through their bytes.
use advance_virtualization_a.Prelude.{
  ℕ, zero, suc, ◌+◌, ◌-◌, ◌/◌, ◌≤◌, ◌<◌, ◌≡◌, refl, ap, ◌≢◌, ◌⊎◌, some, none, List, [], ◌∷◌, ◌++◌,
  arith, length, get_or,
}
use advance_virtualization_a.Memory.Words.{
  u32, le_bytes, of_le_bytes, Bytes, store, load, c_string, Ram, write_ram,
}

pub length-le_bytes : (w n : ℕ) → length (le_bytes w n) ≡ w
unfolding le_bytes
length-le_bytes zero n = refl
length-le_bytes (suc w) n = ap suc (length-le_bytes w (n / 256))

pub of_le_bytes-le_bytes_four : (n : ℕ) → of_le_bytes (le_bytes 4 n) ≡ u32 n
unfolding le_bytes of_le_bytes
of_le_bytes-le_bytes_four n = omega arith

pub store-inside :
    (m : Bytes) (off : ℕ) (bs : List ℕ) (i : ℕ)
    → i < length bs
    → store m off bs (off + i) ≡ get_or bs i 0
unfolding store
store-inside m off bs i h = let e : off + i - off ≡ i = omega arith in ground arith

pub store-outside :
    (m : Bytes) (off : ℕ) (bs : List ℕ) (q : ℕ)
    → (q < off) ⊎ (off + length bs ≤ q)
    → store m off bs q ≡ m q
unfolding store
store-outside m off bs q h = ground arith

pub load-eq :
    (m : Bytes) (off : ℕ) (bs : List ℕ)
    → ((i : ℕ) → i < length bs → m (off + i) ≡ get_or bs i 0)
    → load m off (length bs) ≡ bs
unfolding load
load-eq m off [] h = refl
load-eq m off (b ∷ bs) h = cc (first, load-eq m (off + 1) bs rest)
  where
    first : m off ≡ b
    first = let e : off + 0 ≡ off = omega arith in rw e at (h 0 (omega arith))

    rest : (i : ℕ) → i < length bs → m (off + 1 + i) ≡ get_or bs i 0
    rest i p = let e : off + 1 + i ≡ off + suc i = omega arith in rw e (h (suc i) (omega arith))

pub load-store : (m : Bytes) (off : ℕ) (bs : List ℕ) → load (store m off bs) off (length bs) ≡ bs
load-store m off bs = load-eq (store m off bs) off bs (store-inside m off bs)

-- No byte of the text is NUL.
abbrev pub HasNoNul : List ℕ → Type 0
HasNoNul [] = Unit
HasNoNul (b ∷ bs) = (b ≢ 0) × HasNoNul bs

pub HasNoNul-append : (xs ys : List ℕ) → HasNoNul xs → HasNoNul ys → HasNoNul (xs ++ ys)
HasNoNul-append [] ys hx hy = hy
HasNoNul-append (x ∷ xs) ys hx hy = (hx.0, HasNoNul-append xs ys hx.1 hy)

-- A text that stands in memory with a NUL behind it is read back whole.
pub c_string-eq :
    (m : Bytes) (off fuel : ℕ) (bs : List ℕ)
    → HasNoNul bs
    → length bs < fuel
    → ((i : ℕ) → i ≤ length bs → m (off + i) ≡ get_or bs i 0)
    → c_string m off fuel ≡ some bs
unfolding c_string
c_string-eq m off zero bs nz lt h = absurd (omega arith)
c_string-eq m off (suc fuel) [] nz lt h =
    let e : off + 0 ≡ off = omega arith in
    let first : m off ≡ 0 = rw e at (h 0 (omega arith)) in rw first
c_string-eq m off (suc fuel) (b ∷ bs) nz lt h =
    ground (arith, first, c_string-eq m (off + 1) fuel bs nz.1 (omega arith) rest)
  where
    first : m off ≡ b
    first = let e : off + 0 ≡ off = omega arith in rw e at (h 0 (omega arith))

    rest : (i : ℕ) → i ≤ length bs → m (off + 1 + i) ≡ get_or bs i 0
    rest i p = let e : off + 1 + i ≡ off + suc i = omega arith in rw e (h (suc i) (omega arith))

pub length-load : (m : Bytes) (off n : ℕ) → length (load m off n) ≡ n
unfolding load
length-load m off zero = refl
length-load m off (suc n) = ap suc (length-load m (off + 1) n)

pub get_or-load : (m : Bytes) (off n i : ℕ) → i < n → get_or (load m off n) i 0 ≡ m (off + i)
unfolding load
get_or-load m off zero i h = elim h [ ]
get_or-load m off (suc n) zero h = let e : off + 0 ≡ off = omega arith in rw e
get_or-load m off (suc n) (suc i) h =
    let e : off + 1 + i ≡ off + suc i = omega arith in
    rw (← e) (get_or-load m (off + 1) n i (omega arith))

pub write_ram_fits :
    (ram : Ram) (off : ℕ) (bs : List ℕ)
    → off + length bs ≤ ram.size
    → write_ram ram off bs ≡ some (record ram { bytes = store ram.bytes off bs })
unfolding write_ram
write_ram_fits ram off bs fits = ground arith

pub write_ram_outside :
    (ram : Ram) (off : ℕ) (bs : List ℕ) → ram.size < off + length bs → write_ram ram off bs ≡ none
unfolding write_ram
write_ram_outside ram off bs over = ground arith

-- A store elsewhere leaves a load as it was.
pub load-store_apart :
    (m : Bytes) (off : ℕ) (bs : List ℕ) (a n : ℕ)
    → (a + n ≤ off) ⊎ (off + length bs ≤ a)
    → load (store m off bs) a n ≡ load m a n
unfolding load
load-store_apart m off bs a zero apart = refl
load-store_apart m off bs a (suc n) apart =
    cc (store-outside m off bs a (ground arith), load-store_apart m off bs (a + 1) n (ground arith))

-- For writes that fit into the memory.
pub ruleset ram_laws = (arith, length-le_bytes, write_ram_fits)
