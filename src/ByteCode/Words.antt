-- ===== src/ByteCode/Words.antt =====
-- The instruction words of mario/mario.h as numbers: what INS, OP and OFF compute, and the flag of a jump
-- target.
use Prim.Native.Nat.{bit_and, bit_or}
use native.Mathlib.Nat.{pow-succ'}
use mario_js.Prelude.{ℕ, zero, suc, ◌+◌, ◌*◌, ◌/◌, ◌%◌, ◌^◌, ◌<◌, ◌≡◌, ap, ◌∙◌, arith, u32}
use mario_js.Prelude.Bits.{
  bit_and-halves, bit_or-halves, bit_and_mask, bit_or_low, bit_or-zero, bit_and-one,
}
use mario_js.ByteCode.{off_mask, opt_jmptgt, ins_word, op_of, off_of}

-- A mask with `k` zeros at its end reads the digits above them.
pub bit_and_above :
    (k x r y : ℕ) → r < 2 ^ k → bit_and (x * 2 ^ k + r) (y * 2 ^ k) ≡ bit_and x y * 2 ^ k
bit_and_above zero x r y h =
    let e : x * 2 ^ 0 + r ≡ x = omega arith in
    let f : y * 2 ^ 0 ≡ y = omega arith in rw (e, f) (omega arith)
bit_and_above (suc k) x r y h =
    let p = pow-succ' 2 k in
    let px = ap (λ (t : ℕ). x * t) p in
    let py = ap (λ (t : ℕ). y * t) p in
    let a = x * 2 ^ suc k + r in
    let b = y * 2 ^ suc k in
    let e : a / 2 ≡ x * 2 ^ k + r / 2 = omega (arith, px) in
    let f : b / 2 ≡ y * 2 ^ k = omega (arith, py) in
    let m : b % 2 ≡ 0 = omega (arith, py) in
    omega (
      arith,
      bit_and-halves a b,
      ap (λ (t : ℕ). bit_and t (b / 2)) e,
      ap (λ (t : ℕ). bit_and (x * 2 ^ k + r / 2) t) f,
      m,
      bit_and_above k x (r / 2) y (omega arith),
      ap (λ (t : ℕ). bit_and x y * t) p,
    )

-- Digits above `k` leave the low ones as they are.
pub bit_or_above :
    (k x r y : ℕ) → r < 2 ^ k → bit_or (x * 2 ^ k + r) (y * 2 ^ k) ≡ bit_or x y * 2 ^ k + r
bit_or_above zero x r y h =
    let e : x * 2 ^ 0 + r ≡ x = omega arith in
    let f : y * 2 ^ 0 ≡ y = omega arith in rw (e, f) (omega arith)
bit_or_above (suc k) x r y h =
    let p = pow-succ' 2 k in
    let px = ap (λ (t : ℕ). x * t) p in
    let py = ap (λ (t : ℕ). y * t) p in
    let a = x * 2 ^ suc k + r in
    let b = y * 2 ^ suc k in
    let e : a / 2 ≡ x * 2 ^ k + r / 2 = omega (arith, px) in
    let f : b / 2 ≡ y * 2 ^ k = omega (arith, py) in
    let m : b % 2 ≡ 0 = omega (arith, py) in
    let n : a % 2 ≡ r % 2 = omega (arith, px) in
    omega (
      arith,
      bit_or-halves a b,
      ap (λ (t : ℕ). bit_or t (b / 2)) e,
      ap (λ (t : ℕ). bit_or (x * 2 ^ k + r / 2) t) f,
      m,
      n,
      bit_or_above k x (r / 2) y (omega arith),
      ap (λ (t : ℕ). bit_or x y * t) p,
    )

bit_or-one : (a : ℕ) → bit_or a 1 ≡ a / 2 * 2 + 1
bit_or-one a = omega (arith, bit_or-halves a 1, bit_or-zero (a / 2))

pub off_of_lem : (w : ℕ) → off_of w ≡ w % 2 ^ 20
unfolding off_of
off_of_lem w = bit_and_mask 20 w

pub op_of_lem : (w : ℕ) → op_of w ≡ w / 2 ^ 20 % 256
unfolding op_of
op_of_lem w = bit_and_mask 8 (w / 2 ^ 20)

-- INS puts the low twelve bits of the operation above the low twenty of the operand.
pub ins_word_lem : (op off : ℕ) → ins_word op off ≡ op % 4096 * 2 ^ 20 + off % 2 ^ 20
unfolding ins_word
ins_word_lem op off =
    let high : op * 2 ^ 20 % u32 ≡ op % 4096 * 2 ^ 20 + 0 = omega arith in
    let top : bit_and (op * 2 ^ 20 % u32) 0xFFF00000 ≡ op % 4096 * 2 ^ 20 =
      ap (λ (t : ℕ). bit_and t 0xFFF00000) high
      ∙ bit_and_above 20 (op % 4096) 0 4095 (omega arith)
      ∙ omega (arith, bit_and_mask 12 (op % 4096)) in
    ap (λ (t : ℕ). bit_or t (bit_and off off_mask)) top
    ∙ ap (λ (t : ℕ). bit_or (op % 4096 * 2 ^ 20) t) (bit_and_mask 20 off)
    ∙ bit_or_low 20 (op % 4096) (off % 2 ^ 20) (omega arith)

-- An operation below 2 ^ 8 and an operand come back from their word, the operand modulo 2 ^ 20, and the
-- four bits of options are clear.
pub ins_word-reads :
    (op off : ℕ)
    → op < 256
    → (op_of (ins_word op off) ≡ op)
      × (off_of (ins_word op off) ≡ off % 2 ^ 20)
      × (ins_word op off < 2 ^ 28)
ins_word-reads op off h =
    let w = ins_word op off in
    let e = ins_word_lem op off in
    (omega (arith, op_of_lem w, e), omega (arith, off_of_lem w, e), omega (arith, e))

pub mark_lem : (w : ℕ) → bit_or w opt_jmptgt ≡ w / 2 ^ 30 / 2 * 2 ^ 31 + 2 ^ 30 + w % 2 ^ 30
mark_lem w =
    let e : w ≡ w / 2 ^ 30 * 2 ^ 30 + w % 2 ^ 30 = omega arith in
    ap (λ (t : ℕ). bit_or t opt_jmptgt) e
    ∙ bit_or_above 30 (w / 2 ^ 30) (w % 2 ^ 30) 1 (omega arith)
    ∙ omega (arith, bit_or-one (w / 2 ^ 30))

pub is_marked_lem : (w : ℕ) → bit_and w opt_jmptgt ≡ w / 2 ^ 30 % 2 * 2 ^ 30
is_marked_lem w =
    let e : w ≡ w / 2 ^ 30 * 2 ^ 30 + w % 2 ^ 30 = omega arith in
    ap (λ (t : ℕ). bit_and t opt_jmptgt) e
    ∙ bit_and_above 30 (w / 2 ^ 30) (w % 2 ^ 30) 1 (omega arith)
    ∙ omega (arith, bit_and-one (w / 2 ^ 30))
