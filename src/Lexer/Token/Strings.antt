-- ===== src/Lexer/Token/Strings.antt =====
-- The branch of lex_get_basic_token (mario/lex/mario_lex.c) for strings.
use mario_js.Prelude.{
  ℕ, zero, suc, ◌-◌, ◌<◌, ◌≡◌, ◌≢◌, refl, ap, sym, ◌∙◌, Bool, true, false, ◌||◌, Bool-cases, inl,
  inr, ◌==◌, arith,
}
use mario_js.Lexer.{Lex, lex_str, lex_get_nextch, run, remaining}
use mario_js.Lexer.Head.{IsAligned}
use mario_js.Lexer.Space.Wide.{looks_at}
use mario_js.Lexer.Token.{
  append_span, set_tk, all_rounds, is_plain, jump_span, plain_span, string_loop, string_token,
}
use mario_js.Lexer.Token.Moves.{
  left_of, Moves, Ends, Moves-trans, Moves-refl, lex_get_nextch-Moves, left-pos,
  lex_get_nextch-shrinks, jump_span-Moves, jump_span-left, run-pos, lex_read_escape-Ends,
}
use mario_js.Lexer.Token.Taken.{Takes, not_nul, rounds-enough, tk-IsAligned}

plain_test : (c : ℕ) → c == 0 ≡ false → c == b'"' ≡ false → c == b'\\' ≡ false → is_plain c ≡ true
plain_test c a b d = rw (a, b, d) refl

or-false : (a b : Bool) → a || b ≡ false → (a ≡ false) × (b ≡ false)
or-false a b h = (ground (arith, h), ground (arith, h))

plain_span-Takes :
    (lex : Lex)
    → IsAligned lex
    → is_plain lex.curr_ch ≡ true
    → Moves lex (plain_span lex) × (left_of (plain_span lex) < left_of lex)
unfolding plain_span append_span
plain_span-Takes lex h e =
    let span = run is_plain (remaining lex) in
    let l = append_span lex span in
    let a : IsAligned l = record { started = h.started; curr = h.curr; next = h.next } in
    let (c, w) = looks_at lex h in
    let some_byte = run-pos is_plain (remaining lex) refl (ap is_plain (sym c) ∙ e) in
    let there = left-pos lex h (λ z. plain_nonzero lex.curr_ch e z) in
    let left : left_of (jump_span l span) ≡ left_of lex - span = jump_span-left l span a in
    let m = jump_span-Moves l span a in
    (record { head = m.head; within = m.within }, omega (arith, left, some_byte, there))
  where
    plain_nonzero : (c : ℕ) → is_plain c ≡ true → c ≢ 0
    plain_nonzero c e z = ground (arith, e, z)

string_loop-Ends :
    (rounds : ℕ) (lex : Lex)
    → IsAligned lex
    → left_of lex < rounds
    → Ends lex (string_loop rounds lex)
unfolding string_loop
string_loop-Ends zero lex h lt = absurd (omega arith)
string_loop-Ends (suc rounds) lex h lt =
    elim (Bool-cases (lex.curr_ch == 0 || lex.curr_ch == b'"')) [
      | inl e ↦ rw e (lex, refl, Moves-refl lex h)
      | inr e ↦
          let (nul, quote) = or-false (lex.curr_ch == 0) (lex.curr_ch == b'"') e in
          rw e (elim (Bool-cases (lex.curr_ch == b'\\')) [
            | inl f ↦
                let less =
                  lex_get_nextch-shrinks lex h (not_nul lex.curr_ch b'\\' f (omega arith)) in
                let a = lex_get_nextch-Moves lex h in
                let (l, read, b) = lex_read_escape-Ends (lex_get_nextch lex) a.head in
                let c = lex_get_nextch-Moves l b.head in
                let within_b = b.within in
                let within_c = c.within in
                let (last, runs, m) =
                  string_loop-Ends rounds (lex_get_nextch l) c.head (omega arith) in
                rw (f, read) (last, runs, Moves-trans a (Moves-trans b (Moves-trans c m)))
            | inr f ↦
                let (m, less) = plain_span-Takes lex h (plain_test lex.curr_ch nul quote f) in
                let (last, runs, n) =
                  string_loop-Ends rounds (plain_span lex) m.head (omega arith) in
                rw f (last, runs, Moves-trans m n)
          ])
    ]

pub string_token-Takes :
    (lex : Lex) → IsAligned lex → lex.curr_ch ≢ 0 → Takes lex (string_token lex)
unfolding string_token
string_token-Takes lex h ne =
    let less = lex_get_nextch-shrinks lex h ne in
    let a = lex_get_nextch-Moves lex h in
    let (l, runs, m) =
      string_loop-Ends (all_rounds lex) (lex_get_nextch lex) a.head
        (omega (arith, less, rounds-enough lex)) in
    let n = lex_get_nextch-Moves l m.head in
    let within_m = m.within in
    let within_n = n.within in
    rw runs (
      set_tk lex_str (lex_get_nextch l),
      refl,
      tk-IsAligned lex_str (lex_get_nextch l) n.head,
      omega arith,
    )
