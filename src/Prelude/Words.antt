-- ===== src/Prelude/Words.antt =====
-- The widths of the C types, and the first limb and the others of a little-endian number.
use Prim.Native.Nat.{ℕ}
use mathlib.Core.List.{List}
use mario_js.Prelude.Lists.{get_or, drop}

-- The base of a limb, 2 ^ 32: a `uint32_t` is below it.
abbrev pub u32 : ℕ
u32 = 4294967296

abbrev pub u64 : ℕ
u64 = 18446744073709551616

-- What a loop reads at its index, with 0 past the end, and what later rounds read.
abbrev pub low : List ℕ → ℕ
low xs = get_or xs 0 0

abbrev pub rest : List ℕ → List ℕ
rest xs = drop 1 xs
