-- ===== src/Matrix/Load.antt =====
-- `load_binary` of matrix.c: the file is read in pieces, each behind the one before.
pub mod Loop
use advance_virtualization_a.Prelude.{
  ℕ, zero, suc, ◌+◌, ◌-◌, ◌≤◌, ◌<◌, ◌≡◌, false, Option, none, some, List, [], ◌∷◌, ◌++◌, arith,
  length, length-append, get_or, fun_ext, is_negative, ℤ, if◌then◌else◌, ltb,
}
use advance_virtualization_a.Memory.{
  Bytes, store, store-inside, store-outside, Ram, write_ram, write_ram_fits,
}
use advance_virtualization_a.Kvm.{Result, ok, undefined, ◌>>◌, exit_if}

-- The loop, given the bytes that each `read` with a positive result brings; the first result of
-- zero or less ends it.
unfoldable pub load_pieces : List (List ℕ) → ℕ → Ram → Option Ram
load_pieces [] p ram = some ram
load_pieces (piece ∷ pieces) p ram = elim (write_ram ram p piece) [
  | none ↦ none
  | some ram' ↦ load_pieces pieces (p + length piece) ram'
]

or_undefined : Option Ram → Result Ram
or_undefined none = undefined
or_undefined (some ram) = ok ram

-- `load_binary`, given the result of `open`.
unfoldable pub load_binary : ℤ → List (List ℕ) → Ram → Result Ram
unfolding or_undefined
load_binary fd pieces ram = do exit_if (is_negative fd); or_undefined (load_pieces pieces 0 ram)

-- The bytes of the file.
unfoldable pub contents : List (List ℕ) → List ℕ
contents [] = []
contents (piece ∷ pieces) = piece ++ contents pieces

get_or-append :
    (xs ys : List ℕ) (i : ℕ)
    → get_or (xs ++ ys) i 0
      ≡ (if ltb i (length xs) then get_or xs i 0 else get_or ys (i - length xs) 0)
get_or-append [] ys i = let e : i - 0 ≡ i = omega arith in ground arith
get_or-append (x ∷ xs) ys zero = ground arith
get_or-append (x ∷ xs) ys (suc i) =
    let e : suc i - suc (length xs) ≡ i - length xs = omega arith in
    ground (arith, get_or-append xs ys i)

-- Two writes, the second behind the first, are one write.
store-store :
    (m : Bytes) (p : ℕ) (xs ys : List ℕ)
    → store (store m p xs) (p + length xs) ys ≡ store m p (xs ++ ys)
unfolding store
store-store m p xs ys = fun_ext λ q. pointwise q
  where
    pointwise : (q : ℕ) → store (store m p xs) (p + length xs) ys q ≡ store m p (xs ++ ys) q
    pointwise q =
        let e : q - p - length xs ≡ q - (p + length xs) = omega arith in
        ground (arith, length-append xs ys, get_or-append xs ys (q - p))

store-nil : (m : Bytes) (p : ℕ) → store m p [] ≡ m
unfolding store
store-nil m p = fun_ext λ q. outside q
  where
    outside : (q : ℕ) → store m p [] q ≡ m q
    outside q = ground arith

-- Loading a file in pieces from a place in the memory on, however `read` cuts it, is one copy of
-- its contents to that place; it leaves the memory exactly where that copy does.
pub load_pieces-write_ram :
    (pieces : List (List ℕ)) (p : ℕ) (ram : Ram)
    → p ≤ ram.size
    → load_pieces pieces p ram ≡ write_ram ram p (contents pieces)
unfolding load_pieces write_ram contents
load_pieces-write_ram [] p ram le = ground (arith, store-nil ram.bytes p)
load_pieces-write_ram (piece ∷ pieces) p ram le = ground (
  arith,
  store-store ram.bytes p piece (contents pieces),
  length-append piece (contents pieces),
  load_pieces-write_ram pieces (p + length piece) (record ram { bytes = store ram.bytes p piece }),
)

-- A file that can be opened and fits into the memory is loaded: its contents stand at the start,
-- and the rest of the memory is as it was.
pub load_binary_lem :
    (fd : ℤ) (pieces : List (List ℕ)) (ram : Ram) (q : ℕ)
    → is_negative fd ≡ false
    → length (contents pieces) ≤ ram.size
    → (ram' : Ram) × (load_binary fd pieces ram ≡ ok ram')
      × (ram'.bytes q ≡ (
          if ltb q (length (contents pieces)) then get_or (contents pieces) q 0 else ram.bytes q))
unfolding load_binary
load_binary_lem fd pieces ram q opened fits = (
  record ram { bytes = store ram.bytes 0 file },
  ground (arith, load_pieces-write_ram pieces 0 ram, written),
  ground (arith, inside q, store-outside ram.bytes 0 file q),
)
  where
    file : List ℕ
    file = contents pieces

    written : write_ram ram 0 file ≡ some (record ram { bytes = store ram.bytes 0 file })
    written = write_ram_fits ram 0 file (omega arith)

    inside : (i : ℕ) → i < length file → store ram.bytes 0 file i ≡ get_or file i 0
    inside i lt = let e : 0 + i ≡ i = omega arith in rw e at (store-inside ram.bytes 0 file i lt)
