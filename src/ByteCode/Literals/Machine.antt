-- ===== src/ByteCode/Literals/Machine.antt =====
-- The handlers of mario/mario.c that push a number (handle_int, handle_int_s, handle_int64, handle_float64,
-- handle_cache) with the cache of constants behind them (try_var_cache, var_cache).
--
-- A pushed variable is its value; reference counts are not kept. The cache is the list of its entries in use,
-- none of which is released while the code runs.
use Prim.Native.Nat.{bit_and, bit_or}
use mario_js.Prelude.{
  ℕ, zero, suc, ◌+◌, ◌-◌, ◌*◌, ◌%◌, Bool, true, false, List, [], ◌∷◌, ◌++◌, length, get_or, set,
  leb, ◌==◌, if◌then◌else◌, Option, none, some, u32, u64,
}
use mario_js.Prelude.Int.{ℤ, pos}
use mario_js.ByteCode.{ins_word, op_of, off_of}
use mario_js.ByteCode.Instr
use mario_js.ByteCode.Literals.{int_of_word}

pub data Value : Type 0 where
  int : ℤ → Value
  int64 : ℤ → Value
  float64 : ℕ → Value

pub record Vm : Type 0 where
  pub pc : ℕ
  pub code : List ℕ
  pub stack : List Value
  pub var_cache : List Value
  pub cache_size : ℕ

abbrev pub opt_cache : ℕ
opt_cache = 0x80000000

abbrev pub vm_push : Vm → Value → Vm
vm_push vm v = record vm { stack = v ∷ vm.stack }

-- The index that the value gets in the cache, or none where that is full.
unfoldable pub var_cache : Vm → Value → Vm × Option ℕ
var_cache vm v =
    if leb vm.cache_size (length vm.var_cache)
    then (vm, none)
    else (record vm { var_cache = vm.var_cache ++ (v ∷ []) }, some (length vm.var_cache))

-- What follows the store in the cache, at the word `at`.
unfoldable pub cached : ℕ → Vm × Option ℕ → Vm × Bool
cached at (vm, none) = (vm, false)
cached at (vm, some index) =
    (record vm { code = set vm.code at (ins_word Instr.cache index) }, true)

unfoldable pub try_var_cache : Vm → ℕ → Value → Vm × Bool
unfolding var_cache cached
try_var_cache vm at v =
    let ins = get_or vm.code at 0 in
    if vm.cache_size == 0
    then (vm, false)
    else if bit_and ins opt_cache == 0
    then (record vm { code = set vm.code at (bit_or ins opt_cache) }, false)
    else cached at (var_cache vm v)

-- `if(try_var_cache(…)) code[at] = INSTR_NIL`, and with the next word
unfoldable pub nil_if : Vm × Bool → ℕ → Vm
nil_if (vm, hit) at = if hit then record vm { code = set vm.code at Instr.nil } else vm

unfoldable pub nil_two_if : Vm × Bool → ℕ → Vm
nil_two_if (vm, hit) at =
    if hit then record vm { code = set (set vm.code at Instr.nil) (at + 1) Instr.nil } else vm

unfoldable pub handle_int : Vm → Vm
handle_int vm =
    let v = int (int_of_word u32 (get_or vm.code vm.pc 0)) in
    let next = record vm { pc = (vm.pc + 1) % u32 } in
    vm_push (nil_if (try_var_cache next (next.pc - 2) v) (next.pc - 1)) v

unfoldable pub handle_int_s : Vm → ℕ → Vm
handle_int_s vm offset = let v = int (pos offset) in vm_push (try_var_cache vm (vm.pc - 1) v).0 v

-- The 64 bits that stand in the two words at pc.
unfoldable pub payload : Bool → Vm → ℕ
payload low_first vm =
    let first = get_or vm.code vm.pc 0 in
    let second = get_or vm.code (vm.pc + 1) 0 in
    if low_first then first + second * u32 else second + first * u32

-- handle_int64 and handle_float64, which differ in the variable that they make of the payload.
unfoldable pub handle_wide : Bool → (ℕ → Value) → Vm → Vm
unfolding payload
handle_wide low_first make vm =
    let v = make (payload low_first vm) in
    let next = record vm { pc = (vm.pc + 2) % u32 } in
    vm_push (nil_two_if (try_var_cache next (next.pc - 3) v) (next.pc - 2)) v

unfoldable pub handle_int64 : Bool → Vm → Vm
unfolding handle_wide
handle_int64 low_first vm = handle_wide low_first (λ w. int64 (int_of_word u64 w)) vm

unfoldable pub handle_float64 : Bool → Vm → Vm
unfolding handle_wide
handle_float64 low_first vm = handle_wide low_first float64 vm

abbrev pub entry_at : List Value → ℕ → Option Value
entry_at [] i = none
entry_at (v ∷ vs) zero = some v
entry_at (v ∷ vs) (suc i) = entry_at vs i

-- An index that is not in use is not modelled.
abbrev pub push_entry : Option Value → Vm → Option Vm
push_entry none vm = none
push_entry (some v) vm = some (vm_push vm v)

unfoldable pub handle_cache : Vm → ℕ → Option Vm
handle_cache vm offset =
    if vm.cache_size == 0 then some vm else push_entry (entry_at vm.var_cache offset) vm

-- One turn of vm_run on the instructions above; the others are not modelled.
unfoldable pub step : Bool → Vm → Option Vm
step low_first vm =
    let ins = get_or vm.code vm.pc 0 in
    let next = record vm { pc = (vm.pc + 1) % u32 } in
    if op_of ins == Instr.int
    then some (handle_int next)
    else if op_of ins == Instr.int_s
    then some (handle_int_s next (off_of ins))
    else if op_of ins == Instr.int64
    then some (handle_int64 low_first next)
    else if op_of ins == Instr.float64
    then some (handle_float64 low_first next)
    else if op_of ins == Instr.cache
    then handle_cache next (off_of ins)
    else if op_of ins == Instr.nil
    then some next
    else none
