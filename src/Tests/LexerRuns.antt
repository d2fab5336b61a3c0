-- ===== src/Tests/LexerRuns.antt =====
-- The scanner of mario/lex/mario_lex.c on concrete texts.
use mario_js.Prelude.{
  ℕ, zero, suc, get_or, inl, ◌+◌, ◌-◌, ◌%◌, ◌≡◌, refl, inr, Bool, true, false, List, [], ◌∷◌,
  Option, some, arith,
}
use mario_js.Lexer.{Lex, lex_init, remaining, is_whitespace}
use mario_js.Prelude.Int.{pos}
use mario_js.Lexer.Position.{lex_get_pos}
use mario_js.Lexer.Head.{IsAligned, lex_init-IsAligned}
use mario_js.Lexer.Space.{lex_skip_whitespace}
use mario_js.Lexer.Space.Whitespace.{Skipped, lex_skip_whitespace-Skipped}
use mario_js.Lexer.Utf.{lex_add_codepoint, AddsCodepoint, lex_add_codepoint-AddsCodepoint}
use mario_js.Lexer.Comment.{lex_skip_comments_block}
use mario_js.Lexer.Comment.Line.{Leaves}
use mario_js.Lexer.Comment.Block.{
  FirstClose, behind_close, opens_block, lex_skip_comments_block-Leaves,
}
use mario_js.Lexer.{lex_id, is_id_start, is_id_cont}
use mario_js.Lexer.Token.{lex_get_basic_token}
use mario_js.Lexer.Token.Taken.{Takes}
use mario_js.Lexer.Token.Ends.{Escaped, starts_token, lex_get_basic_token-Takes}
use mario_js.Lexer.Token.Names.{lex_get_basic_token-name}
use mario_js.Lexer.Escape.{lex_read_u_escape}
use mario_js.Lexer.Escape.Unicode.{At, Case4, hex_digit, pair_text, lex_read_u_escape-pair}

-- A tab, a no-break space and a letter.
abbrev blank_text : List ℕ
blank_text = 9 ∷ 0xC2 ∷ 0xA0 ∷ 97 ∷ []

blank_lex-IsAligned : IsAligned (lex_init blank_text)
blank_lex-IsAligned = (lex_init-IsAligned blank_text).0

lex_skip_whitespace-Skipped_example :
    Skipped is_whitespace (lex_init blank_text) (lex_skip_whitespace (lex_init blank_text))
lex_skip_whitespace-Skipped_example =
    lex_skip_whitespace-Skipped (lex_init blank_text) blank_lex-IsAligned

lex_add_codepoint-AddsCodepoint_example :
    AddsCodepoint 0x1F600 (97 ∷ []) (lex_add_codepoint (97 ∷ []) 0x1F600)
lex_add_codepoint-AddsCodepoint_example =
    lex_add_codepoint-AddsCodepoint (97 ∷ []) 0x1F600 (omega arith) (inr (omega arith))

-- Digits with upper-case letters, and with both kinds.
abbrev upper_case : Case4
upper_case = record { first = true; second = true; third = true; fourth = true }

abbrev mixed_case : Case4
mixed_case = record { first = false; second = true; third = false; fourth = true }

-- The text of a code point outside the first plane.
abbrev pair_lex : Lex
pair_lex = lex_init (pair_text upper_case mixed_case 0x1F600 (34 ∷ []))

pair_lex-At : At (pair_text upper_case mixed_case 0x1F600 (34 ∷ [])) [] pair_lex
unfolding lex_init
pair_lex-At =
    let (a, e) = lex_init-IsAligned (pair_text upper_case mixed_case 0x1F600 (34 ∷ [])) in
    record { head = a; ahead = e; so_far = refl }

lex_read_u_escape-pair_example :
    (last : Lex) × (lex_read_u_escape pair_lex ≡ some last)
    × At
        (hex_digit true ((0xDC00 + (0x1F600 - 0x10000) % 1024) % 16) ∷ 34 ∷ [])
        (lex_add_codepoint [] 0x1F600)
        last
lex_read_u_escape-pair_example =
    lex_read_u_escape-pair upper_case mixed_case 0x1F600 (34 ∷ []) [] pair_lex (omega arith)
      (omega arith) pair_lex-At

-- "ab1 " begins with a name.
abbrev name_text : List ℕ
name_text = 97 ∷ 98 ∷ 49 ∷ 32 ∷ []

abbrev name_lex : Lex
name_lex = lex_init name_text

name_lex-At : At name_text [] name_lex
unfolding lex_init
name_lex-At =
    let (a, e) = lex_init-IsAligned name_text in record { head = a; ahead = e; so_far = refl }

-- "a\u0041 " begins with one that has an escape.
abbrev escaped_text : List ℕ
escaped_text = 97 ∷ 92 ∷ 117 ∷ 48 ∷ 48 ∷ 52 ∷ 49 ∷ 32 ∷ []

abbrev escaped_lex : Lex
escaped_lex = lex_init escaped_text

escaped_lex-IsAligned : IsAligned escaped_lex
escaped_lex-IsAligned = (lex_init-IsAligned escaped_text).0

escaped_text-Escaped : Escaped escaped_text
escaped_text-Escaped zero slash u k lt = absurd (ground (arith, slash))
escaped_text-Escaped (suc zero) slash u zero lt = inl (omega arith, omega arith)
escaped_text-Escaped (suc zero) slash u (suc zero) lt = inl (omega arith, omega arith)
escaped_text-Escaped (suc zero) slash u (suc (suc zero)) lt = inl (omega arith, omega arith)
escaped_text-Escaped (suc zero) slash u (suc (suc (suc zero))) lt = inl (omega arith, omega arith)
escaped_text-Escaped (suc zero) slash u (suc (suc (suc (suc k)))) lt = absurd (omega arith)
escaped_text-Escaped (suc (suc zero)) slash u k lt = absurd (ground (arith, slash))
escaped_text-Escaped (suc (suc (suc zero))) slash u k lt = absurd (ground (arith, slash))
escaped_text-Escaped (suc (suc (suc (suc zero)))) slash u k lt = absurd (ground (arith, slash))
escaped_text-Escaped (suc (suc (suc (suc (suc zero))))) slash u k lt =
    absurd (ground (arith, slash))
escaped_text-Escaped (suc (suc (suc (suc (suc (suc zero)))))) slash u k lt =
    absurd (ground (arith, slash))
escaped_text-Escaped (suc (suc (suc (suc (suc (suc (suc j))))))) slash u k lt =
    absurd (last j slash)
  where
    last : (j : ℕ) → get_or {A = ℕ} (32 ∷ []) j 0 ≡ 92 → ⊥
    last zero e = ground (arith, e)
    last (suc j) e = ground (arith, e)

lex_get_basic_token-Takes_example :
    (starts_token escaped_lex ≡ true → Takes escaped_lex (lex_get_basic_token escaped_lex))
    × (starts_token escaped_lex ≡ false → lex_get_basic_token escaped_lex ≡ some escaped_lex)
unfolding lex_init
lex_get_basic_token-Takes_example =
    lex_get_basic_token-Takes escaped_lex escaped_lex-IsAligned λ s. escaped_text-Escaped

lex_get_basic_token-name_example :
    (lex' : Lex) × (lex_get_basic_token name_lex ≡ some lex')
    × At (32 ∷ []) (97 ∷ 98 ∷ 49 ∷ []) lex'
    × (lex'.tk ≡ lex_id)
unfolding is_id_start is_id_cont
lex_get_basic_token-name_example =
    lex_get_basic_token-name (97 ∷ 98 ∷ 49 ∷ []) (32 ∷ []) [] name_lex refl
      (refl, (refl, (refl, tt))) refl (λ e. omega arith) name_lex-At

-- The markers of comments.
abbrev line_marker : List ℕ
line_marker = 47 ∷ 47 ∷ []

abbrev block_open : List ℕ
block_open = 47 ∷ 42 ∷ []

abbrev block_close : List ℕ
block_close = 42 ∷ 47 ∷ []

abbrev line_text : List ℕ
line_text = 47 ∷ 47 ∷ 97 ∷ 10 ∷ 98 ∷ []

abbrev line_lex : Lex
line_lex = lex_init line_text

line_lex-IsAligned : IsAligned line_lex
line_lex-IsAligned = (lex_init-IsAligned line_text).0

abbrev block_lex : Lex
block_lex = lex_init (47 ∷ 42 ∷ 97 ∷ 42 ∷ 47 ∷ 98 ∷ [])

block_lex-IsAligned : IsAligned block_lex
block_lex-IsAligned = (lex_init-IsAligned (47 ∷ 42 ∷ 97 ∷ 42 ∷ 47 ∷ 98 ∷ [])).0

lex_skip_comments_block-Leaves_example :
    (opens_block block_open block_close (remaining block_lex) ≡ true
      → (o : Option ℕ) × (out : Lex × Bool) × (lex_skip_comments_block block_open block_close
            block_lex
          ≡ some out)
        × FirstClose 42 47 block_lex.data_bytes (block_lex.data_pos - 1) o
        × Leaves (behind_close block_lex.data_bytes o) out)
    × (opens_block block_open block_close (remaining block_lex) ≡ false
        → lex_skip_comments_block block_open block_close block_lex ≡ some (block_lex, false))
lex_skip_comments_block-Leaves_example =
    lex_skip_comments_block-Leaves block_open block_close block_lex block_lex-IsAligned

-- A comment that opens and seems to close with three bytes, ahead of its end.
abbrev short_text : List ℕ
short_text = 47 ∷ 42 ∷ 47 ∷ 97 ∷ 42 ∷ 47 ∷ []

abbrev short_lex : Lex
short_lex = lex_init short_text

short_lex-IsAligned : IsAligned short_lex
short_lex-IsAligned = (lex_init-IsAligned short_text).0

-- The byte behind the newline is on line 2.
second_line : lex_get_pos line_lex (pos 4) ≡ (2, 1)
unfolding lex_get_pos lex_init
second_line = refl
