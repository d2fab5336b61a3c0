-- ===== src/Lexer/Comment.antt =====
-- Comments of mario/lex/mario_lex.c: lex_skip_comments_line and lex_skip_comments_block. The markers
-- are C strings, here the bytes ahead of the NUL.
pub mod Search
pub mod Line
pub mod Block
use mario_js.Prelude.{
  ℕ, zero, suc, ◌+◌, ◌-◌, ◌≤◌, ◌<◌, ◌≡◌, ◌≢◌, refl, ap, sym, subst, ◌∙◌, Bool, true, false, not,
  ◌&&◌, ◌||◌, Bool-cases, inl, inr, List, [], ◌∷◌, length, get_or, drop, ltb, ◌==◌, if◌then◌else◌,
  Option, none, some, Option-cases, arith, length-drop,
}
use mathlib.Core.Option
use mario_js.Lexer.{Lex, byte_at, byte_before_end, lex_get_nextch, remaining}
use mario_js.Lexer.Head.{
  IsAligned, lex_get_nextch-IsAligned, byte_before_end_lem, get_or-past, drop-add,
}

-- memchr: the distance to the first occurrence of a byte.
unfoldable pub index_of : ℕ → List ℕ → Option ℕ
index_of b [] = none
index_of b (c ∷ cs) = let more = index_of b cs in if c == b then some 0 else Option.map suc more

-- The state at the end of the source, `data_pos = data_end + 2`.
unfoldable pub at_source_end : Lex → Lex
at_source_end lex = record lex { curr_ch = 0; next_ch = 0; data_pos = length lex.data_bytes + 2 }

unfoldable pub to_newline : Option ℕ → Lex → Lex
unfolding at_source_end
to_newline none lex = at_source_end lex
to_newline (some span) lex =
    let li = lex.data_pos - 2 + span in
    record lex { curr_ch = 10; next_ch = byte_before_end lex (li + 1); data_pos = li + 2 }

unfoldable pub lex_skip_comments_line : List ℕ → Lex → Lex × Bool
lex_skip_comments_line start lex =
    let first = get_or start 0 0 in
    let second = get_or start 1 0 in
    let ahead = to_newline (index_of 10 (remaining lex)) lex in
    if first == 0
    then (lex, false)
    else if lex.curr_ch == first && (second == 0 || lex.next_ch == second)
    then (if not (second == 0) then lex_get_nextch ahead else ahead, true)
    else (lex, false)

-- The search for the two bytes that close a block, from the index `bi` on, with rounds left: `none` when
-- these ran out, `some none` when nothing closes the block, or the index of the first of the two bytes.
unfoldable pub close_search : ℕ → ℕ → ℕ → List ℕ → ℕ → Option (Option ℕ)
unfolding index_of
close_search zero e0 e1 bytes bi = none
close_search (suc rounds) e0 e1 bytes bi =
    if ltb bi (length bytes)
    then elim (index_of e1 (drop bi bytes)) [
      | none ↦ some none
      | some span ↦
          let hit = bi + span in
          let more = close_search rounds e0 e1 bytes (hit + 1) in
          if get_or bytes (hit - 1) 0 == e0 then some (some (hit - 1)) else more
    ]
    else some none

unfoldable pub to_close : Option ℕ → Lex → Lex
unfolding at_source_end
to_close none lex = at_source_end lex
to_close (some bi) lex = record lex {
  curr_ch = byte_at lex bi;
  next_ch = byte_at lex (bi + 1);
  data_pos = bi + 2;
}

-- The state behind a block comment, once the search is over.
unfoldable pub behind_block : Lex → Option ℕ → Lex × Bool
behind_block lex o = (lex_get_nextch (lex_get_nextch (to_close o lex)), true)

unfoldable pub lex_skip_comments_block : List ℕ → List ℕ → Lex → Option (Lex × Bool)
lex_skip_comments_block start end lex =
    let s0 = get_or start 0 0 in
    let s1 = get_or start 1 0 in
    let e0 = get_or end 0 0 in
    let e1 = get_or end 1 0 in
    let search = close_search (length lex.data_bytes + 1) e0 e1 lex.data_bytes lex.data_pos in
    if s0 == 0 || s1 == 0 || e0 == 0 || e1 == 0
    then some (lex, false)
    else if lex.curr_ch == s0 && lex.next_ch == s1
    then Option.map (behind_block lex) search
    else some (lex, false)
