-- ===== src/Lexer/Token/Idents.antt =====
-- The branches of lex_get_basic_token (mario/lex/mario_lex.c) for names and private names.
use mario_js.Prelude.{
  ℕ, zero, suc, ◌<◌, ◌≡◌, ◌≢◌, ◌⊎◌, refl, ap, ◌∙◌, true, false, Bool-cases, inl, inr, ◌==◌, some,
  arith,
}
use mario_js.Lexer.{Lex, lex_id, lex_get_nextch, add_char, is_id_cont}
use mario_js.Lexer.Head.{IsAligned}
use mario_js.Lexer.Token.{take_run, ident_loop, all_rounds, name_token, private_token}
use mario_js.Lexer.Token.Moves.{
  left_of, Moves, Ends, Moves-trans, Moves-refl, lex_get_nextch-Moves, lex_get_nextch-shrinks,
  take_run-Moves, take_run-shrinks, lex_read_u_escape-Ends,
}
use mario_js.Lexer.Token.Taken.{
  Takes, and-left, char-IsAligned, escapes, id_cont_nul, map_tk-Ends, map_tk-Takes, not_nul,
  rounds-enough, shrunk, take_run-Stays, taken,
}

-- The names' loop ends behind its first run, and behind an escape there.
ident_loop-Ends :
    (rounds : ℕ) (lex : Lex)
    → IsAligned lex
    → left_of lex < rounds
    → (lex' : Lex) × (ident_loop rounds lex ≡ some lex')
      × Moves (take_run is_id_cont lex) lex'
      × (escapes (take_run is_id_cont lex) ≡ true → left_of lex' < left_of lex)
unfolding ident_loop
ident_loop-Ends zero lex h lt = absurd (omega arith)
ident_loop-Ends (suc rounds) lex h lt =
    let l = take_run is_id_cont lex in
    let (m, rest) = take_run-Moves is_id_cont lex h in
    elim (Bool-cases (escapes l)) [
      | inr e ↦ rw e (l, refl, Moves-refl l m.head, λ f. cc)
      | inl e ↦
          let ne = not_nul l.curr_ch b'\\' (and-left _ _ e) (omega arith) in
          let less = lex_get_nextch-shrinks l m.head ne in
          let a = lex_get_nextch-Moves l m.head in
          let (esc, read, b) = lex_read_u_escape-Ends (lex_get_nextch l) a.head in
          let c = lex_get_nextch-Moves esc b.head in
          let before = m.within in
          let within_b = b.within in
          let within_c = c.within in
          let (last, runs, d, f) =
            ident_loop-Ends rounds (lex_get_nextch esc) c.head (omega arith) in
          let (t, trest) = take_run-Moves is_id_cont (lex_get_nextch esc) c.head in
          let all = Moves-trans a (Moves-trans b (Moves-trans c (Moves-trans t d))) in
          let within_d = d.within in
          let within_t = t.within in rw (e, read) (last, runs, all, λ g. omega arith)
    ]

slash_no_name : is_id_cont b'\\' ≡ false
unfolding is_id_cont
slash_no_name = refl

pub is_equal : (a b : ℕ) → a == b ≡ true → a ≡ b
is_equal a b h = ground (arith, h)

name_token-Ends : (lex : Lex) → IsAligned lex → Ends lex (name_token lex)
unfolding name_token
name_token-Ends lex h =
    let (l, runs, m, f) = ident_loop-Ends (all_rounds lex) lex h (rounds-enough lex) in
    let (a, rest) = take_run-Moves is_id_cont lex h in map_tk-Ends lex_id (l, runs, Moves-trans a m)

pub name_token-Takes :
    (lex : Lex)
    → IsAligned lex
    → (is_id_cont lex.curr_ch ≡ true) ⊎ (escapes lex ≡ true)
    → Takes lex (name_token lex)
unfolding name_token
name_token-Takes lex h (inl first) =
    let (l, runs, m, f) = ident_loop-Ends (all_rounds lex) lex h (rounds-enough lex) in
    map_tk-Takes lex_id lex (
      shrunk lex (take_run is_id_cont lex) (take_run-shrinks is_id_cont lex h id_cont_nul first)
        (l, runs, m))
name_token-Takes lex h (inr slash) =
    let (l, runs, m, f) = ident_loop-Ends (all_rounds lex) lex h (rounds-enough lex) in
    let here =
      is_equal lex.curr_ch b'\\' (and-left (lex.curr_ch == b'\\') (lex.next_ch == b'u') slash) in
    let stays = take_run-Stays is_id_cont lex h (ap is_id_cont here ∙ slash_no_name) in
    let still = same_escape (take_run is_id_cont lex) lex stays.curr stays.next in
    map_tk-Takes lex_id lex (l, runs, m.head, f (still ∙ slash))
  where
    same_escape :
        (a b : Lex) → a.curr_ch ≡ b.curr_ch → a.next_ch ≡ b.next_ch → escapes a ≡ escapes b
    same_escape a b c n = rw (c, n) refl

pub private_token-Takes :
    (lex : Lex) → IsAligned lex → lex.curr_ch ≢ 0 → Takes lex (private_token lex)
unfolding private_token
private_token-Takes lex h ne =
    let a = char-IsAligned b'#' lex h in
    let m = lex_get_nextch-Moves (add_char lex b'#') a in
    shrunk lex (lex_get_nextch (add_char lex b'#')) (taken lex (add_char lex b'#') a refl ne)
      (name_token-Ends (lex_get_nextch (add_char lex b'#')) m.head)
