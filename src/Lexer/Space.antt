-- ===== src/Lexer/Space.antt =====
-- White space of mario/lex/mario_lex.c: lex_peek3, lex_skip_unicode_space, lex_skip_whitespace and
-- lex_skip_space.
pub mod Wide
pub mod Whitespace
use mario_js.Prelude.{
  ℕ, zero, suc, ◌+◌, ◌-◌, ◌*◌, ◌≤◌, ◌<◌, ◌≡◌, ◌≢◌, refl, ap, sym, subst, ◌∙◌, Bool, true, false,
  not, ◌&&◌, ◌||◌, Bool-cases, inl, inr, List, [], ◌∷◌, length, All, get_or, drop, ltb, leb, ◌==◌,
  if◌then◌else◌, Option, none, some, arith, length-drop,
}
use mario_js.Lexer.{
  Lex, byte_at, byte_before_end, lex_get_nextch, is_whitespace, is_space, run, remaining,
  advance_span,
}
use mario_js.Lexer.Utf.{is_continuation}
use mario_js.Lexer.Head.{
  IsAligned, lex_get_nextch-IsAligned, advance_span-IsAligned, byte_before_end_lem, get_or-past,
  drop-suc, drop-add,
}

unfoldable pub lex_peek3 : Lex → ℕ
lex_peek3 lex = byte_before_end lex lex.data_pos

-- The number of bytes of the white space that three bytes begin with, or 0.
unfoldable pub space_bytes : ℕ → ℕ → ℕ → ℕ
space_bytes c0 c1 c2 =
    if ltb c0 0xC2
    then 0
    else if c0 == 0xC2 && c1 == 0xA0
    then 2
    else if c0 == 0xE1 && c1 == 0x9A && c2 == 0x80
    then 3
    else if c0 == 0xE2
        && c1 == 0x80
        && ((leb 0x80 c2 && leb c2 0x8A) || c2 == 0xA8 || c2 == 0xA9 || c2 == 0xAF)
    then 3
    else if c0 == 0xE2 && c1 == 0x81 && c2 == 0x9F
    then 3
    else if c0 == 0xE3 && c1 == 0x80 && c2 == 0x80
    then 3
    else if c0 == 0xEF && c1 == 0xBB && c2 == 0xBF
    then 3
    else 0

-- `while (n-- > 0) lex_get_nextch(lex)`
unfoldable pub next_chars : ℕ → Lex → Lex
unfolding lex_get_nextch
next_chars zero lex = lex
next_chars (suc n) lex = next_chars n (lex_get_nextch lex)

unfoldable pub lex_skip_unicode_space : Lex → Lex × Bool
unfolding lex_peek3 space_bytes next_chars
lex_skip_unicode_space lex =
    let n = space_bytes lex.curr_ch lex.next_ch (lex_peek3 lex) in
    if n == 0 then (lex, false) else (next_chars n lex, true)

-- The loop of lex_skip_whitespace with rounds left; `none` means that they ran out. The scan of a run
-- of ASCII white space reads the text from the read head on.
unfoldable pub skip_whitespace_loop : ℕ → Lex → Option Lex
skip_whitespace_loop zero lex = none
skip_whitespace_loop (suc rounds) lex =
    let l = advance_span lex (run is_whitespace (remaining lex)) in
    let (wide, moved) = lex_skip_unicode_space l in
    let more = skip_whitespace_loop rounds wide in
    if lex.curr_ch == 0
    then some lex
    else if ltb l.curr_ch 0xC2
    then some l
    else if moved
    then more
    else some wide

unfoldable pub lex_skip_whitespace : Lex → Option Lex
unfolding skip_whitespace_loop
lex_skip_whitespace lex = skip_whitespace_loop (length lex.data_bytes + 1) lex

unfoldable pub skip_space_loop : ℕ → Lex → Option Lex
skip_space_loop zero lex = none
skip_space_loop (suc rounds) lex =
    let blank = is_space lex.curr_ch in
    let (wide, moved) = lex_skip_unicode_space lex in
    let more = skip_space_loop rounds (if blank then lex_get_nextch lex else wide) in
    if lex.curr_ch == 0 then some lex else if blank || moved then more else some wide

unfoldable pub lex_skip_space : Lex → Option Lex
unfolding skip_space_loop
lex_skip_space lex = skip_space_loop (length lex.data_bytes + 1) lex
