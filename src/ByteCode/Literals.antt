-- ===== src/ByteCode/Literals.antt =====
-- The literals of mario/mario.c: what bc_gen_str emits for a number or a string, and the handlers of the
-- machine that read a number back (handle_int, handle_int_s, handle_int64, handle_float64, handle_cache).
--
-- A float64 is its 64-bit pattern. The conversions of the C library are parameters. Where the host stores the
-- low half of a 64-bit number first, `low_first` is true.
pub mod Machine
pub mod Numbers
pub mod Run
pub mod Cache
pub mod Repeat
pub mod Others
use mario_js.Prelude.{
  ℕ, zero, suc, ◌+◌, ◌-◌, ◌*◌, ◌/◌, ◌%◌, ◌^◌, Bool, true, false, not, ◌&&◌, ◌||◌, List, [], ◌∷◌,
  ◌++◌, length, get_or, set, ltb, leb, ◌==◌, if◌then◌else◌, Option, none, some, u32, u64,
}
use Prim.Native.Nat.{bit_and, bit_or}
use mario_js.Prelude.Int.{ℤ, pos, negsuc}
use mario_js.ByteCode.{
  ByteCode, off_mask, ins_word, op_of, off_of, bc_add, bc_bytecode, is_empty_str,
}
use mario_js.ByteCode.Instr

-- The two's complement of an int64_t, and the int that a word is.
abbrev pub word64 : ℤ → ℕ
word64 (pos n) = n % u64
word64 (negsuc n) = u64 - 1 - n % u64

abbrev pub int_of_word : ℕ → ℕ → ℤ
int_of_word bound w = if ltb w (bound / 2) then pos w else negsuc (bound - 1 - w)

-- What the C library's conversions of a text give: strtoull in base 16 and strtoll in base 10, each with
-- whether errno is ERANGE, and strtod.
pub record Conversions : Type 0 where
  pub strtoull : List ℕ → ℕ × Bool
  pub strtoll : List ℕ → ℤ × Bool
  pub strtod : List ℕ → ℕ

-- The instruction that a literal gets, its 32-bit operand, and its 64-bit payload.
pub record Literal : Type 0 where
  pub instr : ℕ
  pub i : ℕ
  pub wide : ℕ

-- `str[0] == '0' && (str[1] == 'x' || str[1] == 'X')`
unfoldable pub is_hex : List ℕ → Bool
is_hex (z ∷ x ∷ cs) = z == b'0' && (x == b'x' || x == b'X')
is_hex cs = false

-- The fast lane: the value of at most the first `left` digits, and the text behind them.
unfoldable pub fast_digits : ℕ → List ℕ → ℕ → ℕ × List ℕ
fast_digits zero str v = (v, str)
fast_digits (suc left) [] v = (v, [])
fast_digits (suc left) (c ∷ cs) v =
    let further = fast_digits left cs ((v * 10 + (c - b'0')) % u32) in
    if leb b'0' c && leb c b'9' then further else (v, c ∷ cs)

module _ (lib : Conversions) where
  unfoldable pub hex_literal : List ℕ → Literal
  hex_literal str =
      let (h, erange) = lib.strtoull str in
      if erange || ltb 0x7FFFFFFFFFFFFFFF h
      then record { instr = Instr.float64; i = 0; wide = lib.strtod str }
      else if ltb 0x7FFFFFFF h
      then record { instr = Instr.int64; i = 0; wide = h }
      else record { instr = Instr.int; i = h; wide = 0 }

  -- `ll < -2147483648LL || ll > 2147483647LL`
  abbrev pub beyond_int : ℤ → Bool
  beyond_int (pos n) = ltb 2147483647 n
  beyond_int (negsuc n) = leb 2147483648 n

  unfoldable pub long_literal : List ℕ → Literal
  long_literal str =
      let (ll, erange) = lib.strtoll str in
      if erange
      then record { instr = Instr.float64; i = 0; wide = lib.strtod str }
      else if beyond_int ll
      then record { instr = Instr.int64; i = 0; wide = word64 ll }
      else record { instr = Instr.int; i = word64 ll % u32; wide = word64 ll }

  unfoldable pub decimal_literal : List ℕ → Literal
  decimal_literal str =
      let (v, behind) = fast_digits 9 str 0 in
      if is_empty_str behind
      then record { instr = Instr.int; i = v; wide = 0 }
      else long_literal str

  unfoldable pub literal_of : ℕ → List ℕ → Literal
  literal_of instr str =
      if instr == Instr.int
      then if is_hex str then hex_literal str else decimal_literal str
      else if instr == Instr.float
      then record { instr = Instr.float64; i = 0; wide = lib.strtod str }
      else record { instr = instr; i = 0; wide = 0 }

abbrev pub first_word : Bool → ℕ → ℕ
first_word low_first wide = if low_first then wide % u32 else wide / u32 % u32

abbrev pub second_word : Bool → ℕ → ℕ
second_word low_first wide = if low_first then wide / u32 % u32 else wide % u32

module _ (fresh_words : ℕ → List ℕ) (low_first : Bool) where
  -- What follows the instruction's word.
  unfoldable pub bc_add_payload : ByteCode → Literal → ByteCode
  bc_add_payload bc literal =
      let wide =
        bc_add fresh_words (bc_add fresh_words bc (first_word low_first literal.wide))
          (second_word low_first literal.wide) in
      if literal.instr == Instr.int
      then if ltb literal.i off_mask
        then record bc {
          code_buf = set bc.code_buf (bc.cindex - 1) (ins_word Instr.int_s literal.i);
        }
        else bc_add fresh_words bc literal.i
      else if literal.instr == Instr.int64 || literal.instr == Instr.float64
      then wide
      else bc

-- The new buffer; the C function also returns its cindex.
unfoldable pub bc_gen_str :
    Conversions
    → (ℕ → List ℕ)
    → (ℕ → List (Option (List ℕ)))
    → Bool
    → Bool
    → ByteCode
    → ℕ
    → List ℕ
    → ByteCode
bc_gen_str lib fresh_words fresh_slots char_signed low_first bc instr str =
    let literal = literal_of lib instr str in
    let s = if instr == Instr.int || instr == Instr.float then [] else str in
    let (named, ins) = bc_bytecode fresh_slots char_signed bc literal.instr s in
    bc_add_payload fresh_words low_first (bc_add fresh_words named ins) literal

unfoldable pub bc_gen_int :
    (ℕ → List ℕ) → (ℕ → List (Option (List ℕ))) → Bool → ByteCode → ℕ → ℕ → ByteCode
bc_gen_int fresh_words fresh_slots char_signed bc instr i =
    let (named, ins) = bc_bytecode fresh_slots char_signed bc instr [] in
    bc_add fresh_words (bc_add fresh_words named ins) i

unfoldable pub bc_gen :
    Conversions
    → (ℕ → List ℕ)
    → (ℕ → List (Option (List ℕ)))
    → Bool
    → Bool
    → ByteCode
    → ℕ
    → ByteCode
bc_gen lib fresh_words fresh_slots char_signed low_first bc instr =
    bc_gen_str lib fresh_words fresh_slots char_signed low_first bc instr []

-- The argument `s` is the word of the C int.
unfoldable pub bc_gen_short :
    (ℕ → List ℕ) → (ℕ → List (Option (List ℕ))) → Bool → ByteCode → ℕ → ℕ → ByteCode
bc_gen_short fresh_words fresh_slots char_signed bc instr s =
    let (named, ins) = bc_bytecode fresh_slots char_signed bc instr [] in
    bc_add fresh_words named (bit_or (bit_and ins 0xFFF0000) (bit_and s off_mask))
