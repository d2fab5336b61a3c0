-- ===== src/ByteCode/Literals/Repeat.antt =====
-- A number literal that the machine of mario/mario.c runs again and again, whatever its cache of constants does.
pub mod Nils
pub mod Turns
use mario_js.Prelude.{
  ℕ, zero, suc, ◌+◌, ◌-◌, ◌*◌, ◌/◌, ◌%◌, ◌^◌, ◌≤◌, ◌<◌, ◌≡◌, ◌≢◌, refl, ap, sym, subst, ◌∙◌, ◌⊎◌,
  Bool, true, false, Bool-cases, inl, inr, List, [], ◌∷◌, length, length-set, get_or, get_or-set,
  set, ltb, leb, ◌==◌, if◌then◌else◌, Option, none, some, arith, u32, u64,
}
use mario_js.Prelude.Int.{pos}
use mario_js.ByteCode.{op_of, off_of}
use mario_js.ByteCode.Instr
use mario_js.ByteCode.Words.{op_of_lem}
use mario_js.ByteCode.Literals.{int_of_word}
use mario_js.ByteCode.Literals.Machine.{
  Value, Vm, int, int64, float64, try_var_cache, nil_if, nil_two_if, vm_push, handle_int,
  handle_int_s, payload, handle_wide, handle_int64, handle_float64, handle_cache, entry_at,
  push_entry, step,
}
use mario_js.ByteCode.Literals.Cache.{
  word, op_of-low, off_of-low, Touches, Outcome, missed, stored, set-outside, set-here,
  try_var_cache-Outcome,
}

unfoldable pub then_on : Option Vm → (Vm → Option Vm) → Option Vm
then_on none f = none
then_on (some vm) f = f vm

-- The machine after `k` turns.
unfoldable pub run : Bool → ℕ → Vm → Option Vm
run low_first zero vm = some vm
run low_first (suc k) vm = then_on (step low_first vm) (run low_first k)

abbrev pub pair : Bool → ℕ → ℕ → ℕ
pair low_first first second = if low_first then first + second * u32 else second + first * u32

-- The `n` words at `p` are a literal of the value: as the compiler emits it, with flags or without, or as the
-- cache of constants rewrote it.
pub data Stands (low_first : Bool) (code : List ℕ) (entries : List Value) (size p : ℕ) (v : Value)
    (n : ℕ) : Type 0 where
  short :
      op_of (get_or code p 0) ≡ Instr.int_s
      → v ≡ int (pos (off_of (get_or code p 0)))
      → n ≡ 1
      → Stands low_first code entries size p v n
  plain :
      op_of (get_or code p 0) ≡ Instr.int
      → v ≡ int (int_of_word u32 (get_or code (p + 1) 0))
      → n ≡ 2
      → Stands low_first code entries size p v n
  long :
      op_of (get_or code p 0) ≡ Instr.int64
      → v ≡ int64 (int_of_word u64 (pair low_first (get_or code (p + 1) 0) (get_or code (p + 2) 0)))
      → n ≡ 3
      → Stands low_first code entries size p v n
  double :
      op_of (get_or code p 0) ≡ Instr.float64
      → v ≡ float64 (pair low_first (get_or code (p + 1) 0) (get_or code (p + 2) 0))
      → n ≡ 3
      → Stands low_first code entries size p v n
  constant :
      op_of (get_or code p 0) ≡ Instr.cache
      → entry_at entries (off_of (get_or code p 0)) ≡ some v
      → (size == 0) ≡ false
      → 0 < n
      → ((j : ℕ) → p < j → j < p + n → op_of (get_or code j 0) ≡ Instr.nil)
      → Stands low_first code entries size p v n

-- The literal at `p` ran: its value is pushed, pc is behind its words, which still are that literal, and no
-- other word and no entry of the cache changed.
pub record Ran (low_first : Bool) (vm vm' : Vm) (p : ℕ) (v : Value) (n : ℕ) : Type 0 where
  pub goes : vm'.pc ≡ p + n
  pub pushed : vm'.stack ≡ v ∷ vm.stack
  pub same_size : vm'.cache_size ≡ vm.cache_size
  pub same_length : length vm'.code ≡ length vm.code
  pub outside : (j : ℕ) → (j < p) ⊎ (p + n ≤ j) → word vm' j ≡ word vm j
  pub entries :
      (i : ℕ) (x : Value) → entry_at vm.var_cache i ≡ some x → entry_at vm'.var_cache i ≡ some x
  pub stands : Stands low_first vm'.code vm'.var_cache vm'.cache_size p v n

-- Some turns run the literal.
abbrev pub Repeats : Bool → Vm → ℕ → Value → ℕ → Type 0
Repeats low_first vm p v n =
    (k : ℕ) × (vm' : Vm) × (run low_first k vm ≡ some vm') × Ran low_first vm vm' p v n
