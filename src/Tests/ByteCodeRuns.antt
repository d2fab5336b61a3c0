-- ===== src/Tests/ByteCodeRuns.antt =====
-- The bytecode buffer of mario/mario.c on concrete words and strings.
use mario_js.Prelude.{
  ℕ, ◌-◌, ◌^◌, ◌≤◌, ◌<◌, ◌≡◌, ◌⊎◌, refl, true, false, List, [], ◌∷◌, ◌++◌, length, length-replicate,
  get_or, replicate, ltb, if◌then◌else◌, Option, none, some, arith,
}
use mario_js.Prelude.Int.{pos}
use mario_js.HashMap.{hash_map_get}
use mario_js.ByteCode.{ByteCode, off_mask, bc_init, ins_word, bc_add, bc_getstrindex}
use mario_js.ByteCode.Instr
use mario_js.ByteCode.Emit.{code, IsValid, Emits, bc_add-Emits}
use mario_js.ByteCode.Marks.{scan_start, bc_mark_jump_targets, bc_pop_elidable}
use mario_js.ByteCode.Marks.Flags.{Flags, Jumps, flag_at, bc_mark_jump_targets-Flags}
use mario_js.ByteCode.Strings.{Interns, bc_init-IsIndexed, bc_getstrindex-Interns}
use mario_js.ByteCode.Literals.{Conversions, bc_gen_str}
use mario_js.ByteCode.Literals.Machine.{Vm, step}
use mario_js.ByteCode.Literals.Numbers.Decimal.{value}
use mario_js.ByteCode.Literals.Run.{Pushes, number, bc_gen_str-Pushes}

abbrev zeros : ℕ → List ℕ
zeros n = replicate n 0

zeros-sized : (n : ℕ) → length (zeros n) ≡ n
zeros-sized n = length-replicate n 0

abbrev no_slots : ℕ → List (Option (List ℕ))
no_slots n = replicate n none

no_slots-sized : (n : ℕ) → length (no_slots n) ≡ n
no_slots-sized n = length-replicate {A = Option (List ℕ)} n none

-- A buffer of three words: an open word, and two POPs.
abbrev three_words : ByteCode
three_words = record {
  cindex = 3;
  mstr_table = record { items = none; max_slots = 0; size = 0 };
  mstr_index = record { buckets = []; size = 0 };
  code_buf = ins_word Instr.jmp 2 ∷ ins_word Instr.pop 0 ∷ ins_word Instr.pop 0 ∷ [];
  buf_size = 3;
  jmptgt_marked = 0;
  skip_strtab = false;
}

three_words-IsValid : IsValid three_words
three_words-IsValid = record { sized = refl; fits = omega arith }

bc_add-Emits_example : Emits three_words (bc_add zeros three_words 7) (code three_words ++ (7 ∷ []))
bc_add-Emits_example =
    bc_add-Emits zeros zeros-sized three_words 7 three_words-IsValid (omega arith)

bc_mark_jump_targets-Flags_example :
    Flags three_words.code_buf (bc_mark_jump_targets three_words).code_buf
    × ((bc_mark_jump_targets three_words).cindex ≡ 3)
    × ((bc_mark_jump_targets three_words).jmptgt_marked ≡ 3)
    × ((k t : ℕ)
        → scan_start three_words ≤ k
        → k < 3
        → Jumps k (get_or three_words.code_buf k 0) t
        → t < 3
        → (flag_at (bc_mark_jump_targets three_words).code_buf t ≡ 1)
          × (bc_pop_elidable (bc_mark_jump_targets three_words).code_buf t ≡ false))
bc_mark_jump_targets-Flags_example =
    bc_mark_jump_targets-Flags three_words (omega arith) (omega arith)

bc_getstrindex-Interns_example :
    ((bc_init.mstr_table.size < off_mask)
        ⊎ ((h : ℕ) × (hash_map_get true bc_init.mstr_index (97 ∷ []) ≡ some h))
      → Interns true bc_init
          (97 ∷ [])
          (bc_getstrindex no_slots true bc_init (97 ∷ [])).0
          (bc_getstrindex no_slots true bc_init (97 ∷ [])).1
        × (bc_getstrindex no_slots true (bc_getstrindex no_slots true bc_init (97 ∷ [])).0 (97 ∷ [])
            ≡ bc_getstrindex no_slots true bc_init (97 ∷ [])))
    × (bc_init.mstr_table.size ≡ off_mask
        → hash_map_get true bc_init.mstr_index (97 ∷ []) ≡ none
        → bc_getstrindex no_slots true bc_init (97 ∷ []) ≡ (bc_init, off_mask))
unfolding bc_init
bc_getstrindex-Interns_example =
    bc_getstrindex-Interns true no_slots no_slots-sized bc_init (bc_init-IsIndexed true) (97 ∷ [])
      refl refl

-- Conversions that saturate as the C library's do on decimal digits.
abbrev decimal : Conversions
decimal = record {
  strtoull = λ s. (0, false);
  strtoll =
      λ s. if ltb (value s) (2 ^ 63) then (pos (value s), false) else (pos (2 ^ 63 - 1), true);
  strtod = λ s. 0;
}

-- "42"
abbrev forty_two : List ℕ
forty_two = 52 ∷ 50 ∷ []

abbrev with_literal : ByteCode
with_literal = bc_gen_str decimal zeros no_slots true true three_words Instr.int forty_two

abbrev at_literal : Vm
at_literal = record {
  pc = 3;
  code = with_literal.code_buf;
  stack = [];
  var_cache = [];
  cache_size = 4;
}

bc_gen_str-Pushes_example :
    (words : List ℕ) × Emits three_words with_literal (code three_words ++ words)
    × Pushes at_literal (number 42 0) with_literal.cindex (step true at_literal)
bc_gen_str-Pushes_example =
    bc_gen_str-Pushes decimal zeros no_slots true true (λ s d. refl) (λ s. omega arith) zeros-sized
      three_words three_words-IsValid (omega arith) forty_two
      ((omega arith, omega arith), ((omega arith, omega arith), tt)) at_literal refl refl
