-- ===== src/Lexer/Token.antt =====
-- lex_get_basic_token of mario/lex/mario_lex.c: names, private names, numbers and double-quoted strings.
--
-- A loop over the text has rounds left, and `none` means that they ran out; it starts with one more than
-- the bytes of the source.
pub mod Moves
pub mod Taken
pub mod Idents
pub mod Numbers
pub mod Strings
pub mod Ends
pub mod Names
use mario_js.Prelude.{
  ℕ, zero, suc, ◌+◌, ◌-◌, Bool, true, false, not, ◌&&◌, ◌||◌, List, ◌++◌, length, take, ◌==◌,
  if◌then◌else◌, Option, none, some,
}
use mathlib.Core.Option
use mario_js.Lexer.{
  Lex, lex_id, lex_int, lex_float, lex_str, lex_bigint, byte_at, byte_before_end, lex_get_nextch,
  add_char, is_numeric, is_hexadecimal, is_alpha, is_id_utf8, is_id_start, is_id_cont, run,
  remaining, advance_span,
}
use mario_js.Lexer.Escape.{lex_read_u_escape, lex_read_escape}

-- mstr_append_span of the bytes at the read head
unfoldable pub append_span : Lex → ℕ → Lex
append_span lex span = record lex { tk_str = lex.tk_str ++ take span (remaining lex) }

-- The fast lane over the bytes that pass a test. Where the read head is past the terminator, which a name with
-- an unfinished `\u` at the end of the source makes it, the code reads outside the source, and the model
-- reads nothing.
unfoldable pub take_run : (ℕ → Bool) → Lex → Lex
take_run p lex = let span = run p (remaining lex) in advance_span (append_span lex span) span

unfoldable pub ident_loop : ℕ → Lex → Option Lex
ident_loop zero lex = none
ident_loop (suc rounds) lex =
    let l = take_run is_id_cont lex in
    let more : Option Lex = elim (lex_read_u_escape (lex_get_nextch l)) [
      | none ↦ none
      | some e ↦ ident_loop rounds (lex_get_nextch e)
    ] in
    if l.curr_ch == b'\\' && l.next_ch == b'u' then more else some l

-- `lex->tk = ...` behind a loop
abbrev pub set_tk : ℕ → Lex → Lex
set_tk tk lex = record lex { tk = tk }

abbrev pub all_rounds : Lex → ℕ
all_rounds lex = length lex.data_bytes + 1

unfoldable pub name_token : Lex → Option Lex
name_token lex = Option.map (set_tk lex_id) (ident_loop (all_rounds lex) lex)

unfoldable pub private_token : Lex → Option Lex
private_token lex = name_token (lex_get_nextch (add_char lex b'#'))

-- A run of digits with single underscores ahead of further ones; `isHex` widens the digits.
abbrev pub is_digit : Bool → ℕ → Bool
is_digit hex c = if hex then is_hexadecimal c else is_numeric c

unfoldable pub digits_loop : ℕ → Bool → Lex → Option Lex
digits_loop zero hex lex = none
digits_loop (suc rounds) hex lex =
    let l = take_run (is_digit hex) lex in
    let more = digits_loop rounds hex (lex_get_nextch l) in
    if l.curr_ch == b'_' && (is_numeric l.next_ch || (hex && is_hexadecimal l.next_ch))
    then more
    else some l

unfoldable pub digits_from : Bool → Lex → Option Lex
digits_from hex lex = digits_loop (all_rounds lex) hex lex

-- The current character goes to the token's text.
unfoldable pub keep_char : Lex → Lex
keep_char lex = lex_get_nextch (add_char lex lex.curr_ch)

-- `.` and the digits behind it
unfoldable pub fraction_part : Bool → Lex → Option Lex
fraction_part hex lex =
    if not hex && lex.curr_ch == b'.'
    then digits_from false (lex_get_nextch (add_char (set_tk lex_float lex) b'.'))
    else some lex

unfoldable pub exponent_part : Bool → Lex → Lex
exponent_part hex lex =
    let e = keep_char (set_tk lex_float lex) in
    let signed = if e.curr_ch == b'-' then keep_char e else e in
    if not hex && (lex.curr_ch == b'e' || lex.curr_ch == b'E')
    then take_run is_numeric signed
    else lex

unfoldable pub bigint_suffix : Lex → Lex
bigint_suffix lex =
    if lex.tk == lex_int
      && lex.curr_ch == b'n'
      && not (is_alpha lex.next_ch)
      && not (is_numeric lex.next_ch)
    then lex_get_nextch (set_tk lex_bigint lex)
    else lex

-- The number behind a leading `0`, with the flag of the `x`.
unfoldable pub number_rest : Lex → Option Lex
number_rest lex =
    let hex = lex.curr_ch == b'x' in
    let start = set_tk lex_int (if hex then keep_char lex else lex) in
    elim (digits_from hex start) [
      | none ↦ none
      | some whole ↦ Option.map (λ l. bigint_suffix (exponent_part hex l)) (fraction_part hex whole)
    ]

unfoldable pub number_token : Lex → Option Lex
number_token lex = number_rest (if lex.curr_ch == b'0' then keep_char lex else lex)

-- A byte of a string that is neither its end nor an escape.
abbrev pub is_plain : ℕ → Bool
is_plain c = not (c == 0) && not (c == b'"') && not (c == b'\\')

-- `data_pos += span` with the two characters read again
unfoldable pub jump_span : Lex → ℕ → Lex
jump_span lex span =
    let ahead = lex.data_pos + span in
    record lex {
      data_pos = ahead;
      curr_ch = byte_at lex (ahead - 2);
      next_ch = byte_before_end lex (ahead - 1);
    }

unfoldable pub plain_span : Lex → Lex
plain_span lex = let span = run is_plain (remaining lex) in jump_span (append_span lex span) span

unfoldable pub string_loop : ℕ → Lex → Option Lex
string_loop zero lex = none
string_loop (suc rounds) lex =
    let escaped : Option Lex = elim (lex_read_escape (lex_get_nextch lex)) [
      | none ↦ none
      | some e ↦ string_loop rounds (lex_get_nextch e)
    ] in
    let plain = string_loop rounds (plain_span lex) in
    if lex.curr_ch == 0 || lex.curr_ch == b'"'
    then some lex
    else if lex.curr_ch == b'\\'
    then escaped
    else plain

unfoldable pub string_token : Lex → Option Lex
string_token lex =
    Option.map (λ l. set_tk lex_str (lex_get_nextch l))
      (string_loop (all_rounds lex) (lex_get_nextch lex))

-- The tests of the four branches, on the two characters of the read head.
unfoldable pub starts_name : ℕ → ℕ → Bool
starts_name c n = is_id_start c || (c == b'\\' && n == b'u')

unfoldable pub starts_private : ℕ → ℕ → Bool
starts_private c n = c == b'#' && (is_alpha n || n == b'$' || is_id_utf8 n)

unfoldable pub starts_number : ℕ → ℕ → Bool
starts_number c n = is_numeric c || (c == b'.' && is_numeric n)

unfoldable pub lex_get_basic_token : Lex → Option Lex
lex_get_basic_token lex =
    if starts_name lex.curr_ch lex.next_ch
    then name_token lex
    else if starts_private lex.curr_ch lex.next_ch
    then private_token lex
    else if starts_number lex.curr_ch lex.next_ch
    then number_token lex
    else if lex.curr_ch == b'"'
    then string_token lex
    else some lex
