-- ===== src/ByteCode.antt =====
-- The bytecode buffer of the engine (bytecode_t, mario/mario.h and mario/mario.c): instruction words, the
-- table of strings with its index, and what the compiler emits and patches.
--
-- A word is a number below 2 ^ 32; the buffer is the list of its allocated words, empty while it is NULL. A
-- string is the list of its bytes. The table is a pointer array and the index a hash map whose value is
-- the position plus one. The fields of the source map (MARIO_SRCMAP) are a debugging aid and not kept.
pub mod Instr
pub mod Words
pub mod Emit
pub mod Strings
pub mod Literals
pub mod Marks
pub mod Jumps
use mario_js.Prelude.{
  ℕ, zero, suc, ◌+◌, ◌-◌, ◌*◌, ◌/◌, ◌%◌, ◌^◌, Bool, true, false, not, ◌&&◌, ◌||◌, List, [], ◌∷◌,
  ◌++◌, length, get_or, set, take, drop, ltb, leb, ◌==◌, if◌then◌else◌, Option, none, some, u32,
  u64,
}
use mario_js.Prelude.Int.{ℤ, pos, negsuc, pos_part, neg_part}
use Prim.Native.Nat.{bit_and, bit_or}
use mario_js.ByteCode.Instr
use mario_js.Array.{MArray, array_add}
use mario_js.HashMap.{HashMap, hash_map_get, hash_map_add_fresh}

abbrev pub illegal_pc : ℕ
illegal_pc = 0xFFFFFFFF

abbrev pub opt_jmptgt : ℕ
opt_jmptgt = 0x40000000

abbrev pub off_mask : ℕ
off_mask = 0x0FFFFF

-- The macros INS, OP and OFF; the first argument of INS is an opr_code_t, sixteen bits wide.
unfoldable pub ins_word : ℕ → ℕ → ℕ
ins_word op off = bit_or (bit_and (op * 2 ^ 20 % u32) 0xFFF00000) (bit_and off off_mask)

unfoldable pub op_of : ℕ → ℕ
op_of ins = bit_and (ins / 2 ^ 20) 0xFF

unfoldable pub off_of : ℕ → ℕ
off_of ins = bit_and ins off_mask

pub record ByteCode : Type 0 where
  pub cindex : ℕ
  pub mstr_table : MArray (List ℕ)
  pub mstr_index : HashMap ℕ
  pub code_buf : List ℕ
  pub buf_size : ℕ
  pub jmptgt_marked : ℕ
  pub skip_strtab : Bool

unfoldable pub bc_init : ByteCode
bc_init = record {
  cindex = 0;
  mstr_table = record { items = none; max_slots = 0; size = 0 };
  mstr_index = record { buckets = []; size = 0 };
  code_buf = [];
  buf_size = 0;
  jmptgt_marked = 0;
  skip_strtab = false;
}

-- The distance of a jump, whichever way it goes.
unfoldable pub jump_offset : ℕ → ℕ → ℕ
jump_offset anchor target = if ltb anchor target then target - anchor else anchor - target

-- What new blocks of memory hold (mario_malloc), and whether char is signed.
module _ (fresh_words : ℕ → List ℕ) where
  -- The buffer that bc_add writes to: a larger copy where the old one is full.
  unfoldable pub room_for : ByteCode → ByteCode
  room_for bc =
      let size = (bc.cindex + bc.cindex / 2 + 3232) % u32 in
      let new_buf = fresh_words size in
      let copied =
        if ltb 0 bc.cindex && ltb 0 (length bc.code_buf)
        then take bc.cindex bc.code_buf ++ drop bc.cindex new_buf
        else new_buf in
      if leb bc.buf_size bc.cindex then record bc { code_buf = copied; buf_size = size } else bc

  unfoldable pub bc_add : ByteCode → ℕ → ByteCode
  bc_add bc ins =
      let roomy = room_for bc in
      record roomy {
        code_buf = set roomy.code_buf roomy.cindex ins;
        cindex = (roomy.cindex + 1) % u32;
      }

  -- The position of the reserved word.
  unfoldable pub bc_reserve : ByteCode → ByteCode × ℕ
  bc_reserve bc =
      let bc' = bc_add bc (ins_word Instr.nil off_mask) in (bc', (bc'.cindex + u32 - 1) % u32)

  unfoldable pub bc_gen_imm : ByteCode → ℕ → ℕ → ByteCode
  bc_gen_imm bc instr imm = bc_add bc (ins_word instr imm)

  unfoldable pub bc_add_instr : ByteCode → ℕ → ℕ → ℕ → ByteCode
  bc_add_instr bc anchor op target =
      let to = if target == illegal_pc then bc.cindex else target in
      bc_add bc (ins_word op (jump_offset anchor to))

unfoldable pub bc_set_instr : ByteCode → ℕ → ℕ → ℕ → ByteCode
bc_set_instr bc anchor op target =
    let to = if target == illegal_pc then bc.cindex else target in
    record bc { code_buf = set bc.code_buf anchor (ins_word op (jump_offset anchor to)) }

-- `code_buf[off - num] = code_buf[off]` for the words left from `off` on
unfoldable pub shift_words : ℕ → ℕ → ℕ → List ℕ → List ℕ
shift_words zero off num code = code
shift_words (suc left) off num code =
    shift_words left (off + 1) num (set code (off - num) (get_or code off 0))

unfoldable pub bc_remove_instr : ByteCode → ℕ → ℕ → ByteCode
bc_remove_instr bc from num = record bc {
  code_buf = shift_words (bc.cindex - (from + num)) (from + num) num bc.code_buf;
  cindex = bc.cindex - num;
  jmptgt_marked = 0;
}

abbrev pub is_empty_str : List ℕ → Bool
is_empty_str [] = true
is_empty_str (c ∷ cs) = false

module _ (fresh_slots : ℕ → List (Option (List ℕ))) (char_signed : Bool) where
  -- A full table gives OFF_MASK, with a message once.
  unfoldable pub bc_addstr : ByteCode → List ℕ → ByteCode × ℕ
  bc_addstr bc str =
      let sz = bc.mstr_table.size in
      if leb off_mask sz then (bc, off_mask) else (
        record bc {
          mstr_table = array_add fresh_slots bc.mstr_table (some str);
          mstr_index = hash_map_add_fresh char_signed bc.mstr_index str (sz + 1);
        },
        sz,
      )

  -- What follows the lookup of a string.
  unfoldable pub index_found : Option ℕ → ByteCode → List ℕ → ByteCode × ℕ
  index_found (some hit) bc str = (bc, hit - 1)
  index_found none bc str = bc_addstr bc str

  unfoldable pub bc_getstrindex : ByteCode → List ℕ → ByteCode × ℕ
  bc_getstrindex bc str =
      if bc.skip_strtab
      then (bc, off_mask)
      else if is_empty_str str
      then (bc, off_mask)
      else index_found (hash_map_get char_signed bc.mstr_index str) bc str

  -- NULL and the empty string leave OFF_MASK in the operand.
  unfoldable pub bc_bytecode : ByteCode → ℕ → List ℕ → ByteCode × ℕ
  bc_bytecode bc instr str =
      let (bc', i) = bc_getstrindex bc str in
      if is_empty_str str then (bc, ins_word instr off_mask) else (bc', ins_word instr i)
