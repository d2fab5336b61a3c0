-- ===== src/Lexer/Escape.antt =====
-- String escapes of mario/lex/mario_lex.c: lex_hexval, lex_read_u_escape and lex_read_escape. Loops over a
-- bounded number of digits recur on the digits left; the loop of `\u{...}` runs on the bytes of the text.
pub mod Unicode
use mario_js.Prelude.{
  ℕ, zero, suc, ◌+◌, ◌-◌, ◌*◌, ◌%◌, ◌^◌, Bool, true, false, not, ◌&&◌, List, length, ltb, leb, ◌==◌,
  if◌then◌else◌, Option, none, some, u32,
}
use mathlib.Core.Option
use mario_js.Lexer.{Lex, lex_get_nextch, add_char}
use mario_js.Lexer.Utf.{lex_add_codepoint}

-- `none` is -1.
unfoldable pub lex_hexval : ℕ → Option ℕ
lex_hexval c =
    if leb b'0' c && leb c b'9'
    then some (c - b'0')
    else if leb b'a' c && leb c b'f'
    then some (c - b'a' + 10)
    else if leb b'A' c && leb c b'F'
    then some (c - b'A' + 10)
    else none

-- lex_add_codepoint on the token's text
abbrev pub add_codepoint : ℕ → Lex → Lex
add_codepoint cp lex = record lex { tk_str = lex_add_codepoint lex.tk_str cp }

-- The digits of `\u{...}` with rounds left; `none` means that they ran out.
unfoldable pub brace_loop : ℕ → ℕ → Lex → Option (ℕ × Lex)
brace_loop zero cp lex = none
brace_loop (suc rounds) cp lex = elim (lex_hexval lex.curr_ch) [
  | none ↦ some (cp, lex)
  | some v ↦ brace_loop rounds ((cp * 16 + v) % u32) (lex_get_nextch lex)
]

-- The loop that takes as many digits as are left, with what it read, the state on the last character that
-- it looked at, and the digits that it still missed.
unfoldable pub digit_loop : ℕ → ℕ → Lex → ℕ × Lex × ℕ
digit_loop zero cp lex = (cp, lex, 0)
digit_loop (suc left) cp lex = elim (lex_hexval lex.curr_ch) [
  | none ↦ (cp, lex, suc left)
  | some v ↦
      let read = (cp * 16 + v) % u32 in
      let more = digit_loop left read (lex_get_nextch lex) in
      if left == 0 then (read, lex, 0) else more
]

-- `if(cp > 0x10FFFF) cp = 0xFFFD`
unfoldable pub clamp_codepoint : ℕ → ℕ
clamp_codepoint cp = if ltb 0x10FFFF cp then 0xFFFD else cp

-- The end of `\uXXXX`: a high surrogate looks for its partner, and without one the head goes back.
unfoldable pub end_u_escape : ℕ → Lex → Lex
end_u_escape cp lex =
    let slash = lex_get_nextch lex in
    let u = lex_get_nextch slash in
    let (lo, last, missing) = digit_loop 4 0 (lex_get_nextch u) in
    if leb 0xD800 cp
      && leb cp 0xDBFF
      && slash.curr_ch == b'\\'
      && u.curr_ch == b'u'
      && missing == 0
      && leb 0xDC00 lo
      && leb lo 0xDFFF
    then add_codepoint ((0x10000 + (cp - 0xD800) * 2 ^ 10 + (lo - 0xDC00)) % u32) last
    else add_codepoint cp lex

unfoldable pub lex_read_u_escape : Lex → Option Lex
lex_read_u_escape lex =
    let first = lex_get_nextch lex in
    let (cp, last, missing) = digit_loop 4 0 first in
    if first.curr_ch == b'{'
    then Option.map (λ (x : ℕ × Lex). add_codepoint (clamp_codepoint x.0) x.1)
        (brace_loop (length lex.data_bytes + 1) 0 (lex_get_nextch first))
    else some (end_u_escape cp last)

unfoldable pub is_octal : ℕ → Bool
is_octal c = leb b'0' c && leb c b'7'

unfoldable pub octal_loop : ℕ → ℕ → Lex → ℕ × Lex
octal_loop zero v lex = (v, lex)
octal_loop (suc left) v lex =
    let read = v * 8 + (lex.curr_ch - b'0') in
    let more = octal_loop left read (lex_get_nextch lex) in
    if not (is_octal lex.curr_ch)
    then (v, lex)
    else if ltb 0 left && is_octal lex.next_ch
    then more
    else (read, lex)

unfoldable pub lex_read_escape : Lex → Option Lex
lex_read_escape lex =
    let c = lex.curr_ch in
    let (v, hex_end, missing) = digit_loop 2 0 (lex_get_nextch lex) in
    let (o, octal_end) = octal_loop 3 0 lex in
    if c == b'b'
    then some (add_char lex 8)
    else if c == b'f'
    then some (add_char lex 12)
    else if c == b'v'
    then some (add_char lex 11)
    else if c == b'n'
    then some (add_char lex 10)
    else if c == b'r'
    then some (add_char lex 13)
    else if c == b't'
    then some (add_char lex 9)
    else if c == b'u'
    then lex_read_u_escape lex
    else if c == b'x'
    then some (add_codepoint v hex_end)
    else if is_octal c
    then some (add_codepoint o octal_end)
    else if c == 10
    then some lex
    else if c == 13
    then some (if lex.next_ch == 10 then lex_get_nextch lex else lex)
    else some (add_char lex c)
