-- ===== src/ByteCode/Marks.antt =====
-- The scan for jump targets of mario/mario.c (bc_mark_jump_targets) and the test that it serves
-- (bc_pop_elidable).
pub mod Flags
use Prim.Native.Nat.{bit_and, bit_or}
use mario_js.Prelude.{
  ℕ, zero, suc, ◌+◌, ◌-◌, ◌%◌, Bool, not, ◌&&◌, ◌||◌, List, [], ◌∷◌, length, get_or, set, ltb, ◌==◌,
  if◌then◌else◌, Option, none, some, u32,
}
use mario_js.ByteCode.{ByteCode, off_mask, opt_jmptgt, op_of, off_of}
use mario_js.ByteCode.Instr

-- The instructions that jump ahead, but for TRY and BLOCK.
abbrev pub is_forward : ℕ → Bool
is_forward op =
    op == Instr.jmp
    || op == Instr.njmp
    || op == Instr.scor
    || op == Instr.scand
    || op == Instr.nullish

-- Where the instruction at `i` with this operation and operand jumps to; a reserved word and any other
-- instruction jump nowhere.
unfoldable pub target_of : ℕ → ℕ → ℕ → Option ℕ
target_of i op off =
    if off == off_mask
    then none
    else if is_forward op
    then some ((i + off) % u32)
    else if op == Instr.jmpb || op == Instr.njmpb
    then some (if ltb i off then 0 else i - off)
    else if op == Instr.try || op == Instr.block
    then some ((i + off) % u32)
    else none

unfoldable pub jump_target : ℕ → ℕ → Option ℕ
jump_target i ins = target_of i (op_of ins) (off_of ins)

-- `code_buf[tgt] |= INSTR_OPT_JMPTGT`, for a target inside the code.
unfoldable pub mark_slot : ℕ → Option ℕ → List ℕ → List ℕ
mark_slot cindex none code = code
mark_slot cindex (some tgt) code =
    if ltb tgt cindex then set code tgt (bit_or (get_or code tgt 0) opt_jmptgt) else code

-- The loop from `i` on, with the words left.
unfoldable pub mark_loop : ℕ → ℕ → ℕ → List ℕ → List ℕ
mark_loop zero i cindex code = code
mark_loop (suc left) i cindex code =
    mark_loop left (i + 1) cindex (mark_slot cindex (jump_target i (get_or code i 0)) code)

-- Where the scan starts.
unfoldable pub scan_start : ByteCode → ℕ
scan_start bc = if ltb bc.cindex bc.jmptgt_marked then 0 else bc.jmptgt_marked

unfoldable pub bc_mark_jump_targets : ByteCode → ByteCode
bc_mark_jump_targets bc =
    let start = scan_start bc in
    if length bc.code_buf == 0
    then bc
    else if start == bc.cindex
    then record bc { jmptgt_marked = start }
    else record bc {
      code_buf = mark_loop (bc.cindex - start) start bc.cindex bc.code_buf;
      jmptgt_marked = bc.cindex;
    }

unfoldable pub bc_pop_elidable : List ℕ → ℕ → Bool
bc_pop_elidable code pc =
    op_of (get_or code pc 0) == Instr.pop && bit_and (get_or code pc 0) opt_jmptgt == 0
