-- ===== src/Tests/CacheRuns.antt =====
-- Number literals of mario/mario.c that run with a cache of constants.
use mario_js.Prelude.{ℕ, refl, ap, true, inr, [], ◌∷◌, arith}
use mario_js.Prelude.Int.{pos}
use mario_js.ByteCode.{ins_word}
use mario_js.ByteCode.Instr
use mario_js.ByteCode.Words.{ins_word-reads}
use mario_js.ByteCode.Literals.Machine.{Vm, int}
use mario_js.ByteCode.Literals.Repeat.{Stands, short, Repeats}
use mario_js.ByteCode.Literals.Repeat.Turns.{step-Repeats}
use mario_js.ByteCode.Literals.Others.{Keeps, step-Keeps}

-- Two small numbers, and a cache with one place.
abbrev two_numbers : Vm
two_numbers = record {
  pc = 0;
  code = ins_word Instr.int_s 7 ∷ ins_word Instr.int_s 9 ∷ [];
  stack = [];
  var_cache = [];
  cache_size = 1;
}

seven-Stands :
    Stands true two_numbers.code two_numbers.var_cache two_numbers.cache_size 0 (int (pos 7)) 1
seven-Stands =
    let (is_op, is_off, clear) = ins_word-reads Instr.int_s 7 (omega arith) in
    short is_op (ap (λ (t : ℕ). int (pos t)) {x = 7} (omega (arith, is_off))) refl

nine-Stands :
    Stands true two_numbers.code two_numbers.var_cache two_numbers.cache_size 1 (int (pos 9)) 1
nine-Stands =
    let (is_op, is_off, clear) = ins_word-reads Instr.int_s 9 (omega arith) in
    short is_op (ap (λ (t : ℕ). int (pos t)) {x = 9} (omega (arith, is_off))) refl

step-Repeats_example : Repeats true two_numbers 0 (int (pos 7)) 1
step-Repeats_example =
    step-Repeats true two_numbers (int (pos 7)) 1 (omega arith) (omega arith) (omega arith)
      seven-Stands

step-Keeps_example : Keeps true two_numbers (int (pos 7)) 1 1 (int (pos 9)) 1
step-Keeps_example =
    step-Keeps true two_numbers (int (pos 7)) 1 (omega arith) (omega arith) (omega arith) 1 1
      (int (pos 9)) (inr (omega arith)) seven-Stands nine-Stands
