-- ===== src/Matrix/Load/Loop.antt =====
-- The loop of `load_binary` against a file that `read` reads from: that it ends, and what it loads.
use mathlib.Core.List.{append-nil, append_assoc}
use advance_virtualization_a.Prelude.{
  ℕ, zero, suc, ◌+◌, ◌≤◌, ◌<◌, ◌≡◌, refl, ap, sym, ◌∙◌, inl, inr, Option, none, some, List, [], ◌∷◌,
  ◌++◌, arith, length, length-append, Option-cases,
}
use advance_virtualization_a.Memory.{Ram, write_ram}
use advance_virtualization_a.Matrix.Load.{load_pieces, contents, load_pieces-write_ram}

-- How the loop stands: its fuel has run out, it has written outside of the RAM, or it has ended.
pub data LoopEnd : Type 0 where
  out_of_fuel outside_ram : LoopEnd
  ended : Ram → LoopEnd

-- `while (1)`: `read` gives what `read(fd, p, 4096)` brings at an offset of the file, which is also
-- how far `p` has come; the empty list stands for a result of 0 or less.
unfoldable pub load_loop : ℕ → (ℕ → List ℕ) → ℕ → Ram → LoopEnd
load_loop zero read p ram = out_of_fuel
load_loop (suc fuel) read p ram = elim (read p) [
  | [] ↦ ended ram
  | byte ∷ bytes ↦ elim (write_ram ram p (byte ∷ bytes)) [
    | none ↦ outside_ram
    | some ram' ↦ load_loop fuel read (p + length (byte ∷ bytes)) ram'
  ]
]

-- The sizes in the lines that the loop prints, one for each `read` with a positive result.
unfoldable pub load_sizes : ℕ → (ℕ → List ℕ) → ℕ → List ℕ
load_sizes zero read p = []
load_sizes (suc fuel) read p = elim (read p) [
  | [] ↦ []
  | byte ∷ bytes ↦ length (byte ∷ bytes) ∷ load_sizes fuel read (p + length (byte ∷ bytes))
]

abbrev pub sum : List ℕ → ℕ
sum [] = 0
sum (n ∷ ns) = n + sum ns

-- Each is the size of a block that is not empty.
abbrev pub AllBlocks : List ℕ → Type 0
AllBlocks [] = Unit
AllBlocks (n ∷ ns) = (0 < n) × (n ≤ 4096) × AllBlocks ns

-- `read` on a regular file that nobody changes: at its end it brings nothing, and before it one
-- byte at least and 4096 at most, of those that stand there.
pub record IsReader (file : List ℕ) (read : ℕ → List ℕ) : Type 0 where
  pub at_end : (p : ℕ) → length file ≤ p → read p ≡ []
  pub before_end :
      (before rest : List ℕ) (byte : ℕ)
      → file ≡ before ++ byte ∷ rest
      → (piece after : List ℕ) × (read (length before) ≡ byte ∷ piece)
        × (length (byte ∷ piece) ≤ 4096)
        × (rest ≡ piece ++ after)

abbrev pub end_of : Option Ram → LoopEnd
end_of none = outside_ram
end_of (some ram) = ended ram

module _ (file : List ℕ) (read : ℕ → List ℕ) (reader : IsReader file read) where
  pub load_loop-pieces :
      (fuel : ℕ) (before rest : List ℕ) (ram : Ram)
      → file ≡ before ++ rest
      → length rest < fuel
      → (pieces : List (List ℕ)) × (contents pieces ≡ rest)
        × (load_loop fuel read (length before) ram
            ≡ end_of (load_pieces pieces (length before) ram))
  unfolding load_loop load_pieces contents
  load_loop-pieces zero before rest ram e lt = absurd (omega arith)
  load_loop-pieces (suc fuel) before [] ram e lt =
      let size : length file ≤ length before =
        omega (arith, ap length e, length-append before []) in
      ([], refl, rw (reader.at_end (length before) size, load_loop) refl)
  load_loop-pieces (suc fuel) before (byte ∷ rest) ram e lt =
      let (piece, after, reads, _, split) = reader.before_end before rest byte e in
      let assoc = append_assoc before (byte ∷ piece) after in
      let cut : file ≡ (before ++ byte ∷ piece) ++ after = rw (e, split, assoc) refl in
      let size : length after < fuel = omega (arith, ap length split, length-append piece after) in
      let here = length-append before (byte ∷ piece) in
      let whole : byte ∷ piece ++ after ≡ byte ∷ rest = ap (λ tail. byte ∷ tail) (sym split) in
      elim (Option-cases (write_ram ram (length before) (byte ∷ piece))) [
        | inl outside ↦ (
          (byte ∷ piece) ∷ after ∷ [],
          rw (append-nil after) whole,
          rw (reads, load_loop, load_pieces, outside) refl,
        )
        | inr (ram', written) ↦
            let (pieces, same, runs) =
              load_loop-pieces fuel (before ++ byte ∷ piece) after ram' cut size in
            (
              (byte ∷ piece) ∷ pieces,
              rw same whole,
              rw (reads, load_loop, load_pieces, written, ← here) runs,
            )
      ]

  load_sizes-blocks :
      (fuel : ℕ) (before rest : List ℕ)
      → file ≡ before ++ rest
      → length rest < fuel
      → (sum (load_sizes fuel read (length before)) ≡ length rest)
        × AllBlocks (load_sizes fuel read (length before))
  unfolding load_sizes
  load_sizes-blocks zero before rest e lt = absurd (omega arith)
  load_sizes-blocks (suc fuel) before [] e lt =
      let size : length file ≤ length before =
        omega (arith, ap length e, length-append before []) in
      rw (reader.at_end (length before) size, load_sizes) (refl, tt)
  load_sizes-blocks (suc fuel) before (byte ∷ rest) e lt =
      let (piece, after, reads, block, split) = reader.before_end before rest byte e in
      let assoc = append_assoc before (byte ∷ piece) after in
      let cut : file ≡ (before ++ byte ∷ piece) ++ after = rw (e, split, assoc) refl in
      let lengths = length-append piece after in
      let here = length-append before (byte ∷ piece) in
      let (total, blocks) =
        load_sizes-blocks fuel (before ++ byte ∷ piece) after cut
          (omega (arith, ap length split, lengths)) in
      rw (reads, load_sizes, ← here)
        (omega (arith, total, ap length split, lengths), (omega arith, block, blocks))

-- On a regular file that nobody changes, and with more rounds than the file has bytes, the loop of
-- `load_binary` ends; where the file fits into the RAM, its contents stand at the start of the RAM
-- and nothing else has changed, and where it does not fit, the loop has written outside of it. The
-- sizes that the rounds print are positive, 4096 at most, and together the size of the file.
pub load_loop-ends :
    (file : List ℕ) (read : ℕ → List ℕ) (fuel : ℕ) (ram : Ram)
    → IsReader file read
    → length file < fuel
    → (load_loop fuel read 0 ram ≡ end_of (write_ram ram 0 file))
      × (sum (load_sizes fuel read 0) ≡ length file)
      × AllBlocks (load_sizes fuel read 0)
load_loop-ends file read fuel ram reader lt =
    let (pieces, same, runs) = load_loop-pieces file read reader fuel [] file ram refl lt in
    let (total, blocks) = load_sizes-blocks file read reader fuel [] file refl lt in
    (
      runs ∙ ap end_of (rw (load_pieces-write_ram pieces 0 ram (omega arith), same) refl),
      total,
      blocks,
    )
