-- ===== src/Lexer.antt =====
-- The lexical scanner (mario/lex/mario_lex.c and mario_lex.h): its state, the read head, the classes
-- of characters, and the start of a scan.
--
-- `data` holds the bytes of the source text without its NUL, so `data_end` is its length, and a read of
-- a byte past the end is the NUL. A char is taken as its byte, 0 to 255. The positions are those of the
-- source, `int32_t`, for a text shorter than 2 ^ 31 bytes less a few.
pub mod Head
pub mod Space
pub mod Utf
pub mod Escape
pub mod Position
pub mod Token
pub mod Comment
use mario_js.Prelude.{
  ℕ, zero, suc, ◌+◌, ◌-◌, ◌≤◌, ◌<◌, ◌≡◌, Bool, true, false, not, ◌&&◌, ◌||◌, List, [], ◌∷◌, ◌++◌,
  length, get_or, drop, ltb, leb, ◌==◌, if◌then◌else◌, Option, none, some,
}
use mario_js.Prelude.Int.{ℤ, pos, sub_ℕ}

-- `tk` is a character or one of the kinds from 256 on.
abbrev pub lex_eof : ℕ
lex_eof = 0

abbrev pub lex_id : ℕ
lex_id = 256

abbrev pub lex_int : ℕ
lex_int = 257

abbrev pub lex_float : ℕ
lex_float = 258

abbrev pub lex_str : ℕ
lex_str = 259

abbrev pub lex_bigint : ℕ
lex_bigint = 260

pub record Lex : Type 0 where
  pub data_bytes : List ℕ
  pub data_pos : ℕ
  pub curr_ch : ℕ
  pub next_ch : ℕ
  pub tk : ℕ
  pub tk_str : List ℕ
  pub tk_start : ℤ
  pub tk_end : ℤ
  pub tk_last_end : ℤ

-- `lex->data[i]`
abbrev pub byte_at : Lex → ℕ → ℕ
byte_at lex i = get_or lex.data_bytes i 0

-- `(i < lex->data_end) ? lex->data[i] : 0`
abbrev pub byte_before_end : Lex → ℕ → ℕ
byte_before_end lex i = if ltb i (length lex.data_bytes) then byte_at lex i else 0

unfoldable pub lex_get_nextch : Lex → Lex
lex_get_nextch lex = record lex {
  curr_ch = lex.next_ch;
  next_ch = byte_before_end lex lex.data_pos;
  data_pos = lex.data_pos + 1;
}

-- mstr_add and mstr_append_span on the token's text
abbrev pub add_char : Lex → ℕ → Lex
add_char lex c = record lex { tk_str = lex.tk_str ++ (c ∷ []) }

unfoldable pub lex_reset : Lex → Lex
unfolding lex_get_nextch
lex_reset lex = lex_get_nextch (
    lex_get_nextch (record lex {
      data_pos = 0;
      tk_start = pos 0;
      tk_end = pos 0;
      tk_last_end = pos 0;
      tk = lex_eof;
      tk_str = [];
    }))

unfoldable pub lex_init : List ℕ → Lex
unfolding lex_reset
lex_init input = lex_reset (record {
  data_bytes = input;
  data_pos = 0;
  curr_ch = 0;
  next_ch = 0;
  tk = lex_eof;
  tk_str = [];
  tk_start = pos 0;
  tk_end = pos 0;
  tk_last_end = pos 0;
})

-- The first and the last position of a token, from the position two bytes ahead of the read head.
unfoldable pub lex_token_start : Lex → Lex
lex_token_start lex = record lex { tk_start = sub_ℕ lex.data_pos 2 }

unfoldable pub lex_token_end : Lex → Lex
lex_token_end lex = record lex { tk_last_end = lex.tk_end; tk_end = sub_ℕ lex.data_pos 3 }

unfoldable pub is_whitespace : ℕ → Bool
is_whitespace ch = ch == b' ' || ch == 9 || ch == 10 || ch == 13

unfoldable pub is_space : ℕ → Bool
is_space ch = ch == b' ' || ch == 9 || ch == 13

unfoldable pub is_numeric : ℕ → Bool
is_numeric ch = leb b'0' ch && leb ch b'9'

unfoldable pub is_hexadecimal : ℕ → Bool
is_hexadecimal ch =
    (leb b'0' ch && leb ch b'9') || (leb b'a' ch && leb ch b'f') || (leb b'A' ch && leb ch b'F')

unfoldable pub is_alpha : ℕ → Bool
is_alpha ch = (leb b'a' ch && leb ch b'z') || (leb b'A' ch && leb ch b'Z') || ch == b'_'

unfoldable pub is_id_utf8 : ℕ → Bool
is_id_utf8 ch = leb 128 ch

-- The table g_lex_ct, as the two tests that its bits stand for.
unfoldable pub is_id_start : ℕ → Bool
is_id_start c =
    (leb b'a' c && leb c b'z') || (leb b'A' c && leb c b'Z') || c == b'_' || c == b'$' || leb 128 c

unfoldable pub is_id_cont : ℕ → Bool
unfolding is_id_start
is_id_cont c = is_id_start c || (leb b'0' c && leb c b'9')

-- The two tests on whole strings.
unfoldable pub is_number : List ℕ → Bool
unfolding is_numeric
is_number [] = true
is_number (c ∷ cs) = if is_numeric c then is_number cs else false

unfoldable pub alpha_num_loop : List ℕ → Bool
unfolding is_alpha is_numeric
alpha_num_loop [] = true
alpha_num_loop (c ∷ cs) = if not (is_alpha c) || is_numeric c then false else alpha_num_loop cs

unfoldable pub is_alpha_num : List ℕ → Bool
unfolding alpha_num_loop
is_alpha_num [] = true
is_alpha_num (c ∷ cs) = if is_alpha c then alpha_num_loop (c ∷ cs) else false

-- How many bytes at the head of a list pass a test: the distance of a raw-pointer scan, which the NUL
-- behind the list stops.
unfoldable pub run : (ℕ → Bool) → List ℕ → ℕ
run p [] = 0
run p (c ∷ cs) = let more = run p cs in if p c then suc more else 0

-- The bytes from the read head on.
abbrev pub remaining : Lex → List ℕ
remaining lex = drop (lex.data_pos - 2) lex.data_bytes

-- `data_pos += span` with the two characters read again, where the span is not empty.
unfoldable pub advance_span : Lex → ℕ → Lex
advance_span lex span =
    let ahead = lex.data_pos + span in
    if span == 0 then lex else record lex {
      data_pos = ahead;
      curr_ch = byte_at lex (ahead - 2);
      next_ch = byte_before_end lex (ahead - 1);
    }
