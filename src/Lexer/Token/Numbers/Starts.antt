-- ===== src/Lexer/Token/Numbers/Starts.antt =====
-- The branch of lex_get_basic_token (mario/lex/mario_lex.c) for numbers.
use mario_js.Prelude.{
  ℕ, suc, ◌<◌, ◌≡◌, ◌≢◌, ◌⊎◌, refl, ap, sym, subst, ◌∙◌, true, false, Bool-cases, inl, inr, length,
  ◌==◌, some, arith,
}
use mathlib.Core.Option
use mario_js.Lexer.{Lex, lex_int, add_char, is_numeric}
use mario_js.Lexer.Head.{IsAligned}
use mario_js.Lexer.Token.{
  take_run, set_tk, all_rounds, digits_loop, digits_from, keep_char, fraction_part, number_rest,
  number_token,
}
use mario_js.Lexer.Token.Moves.{left_of, Ends, take_run-Moves, take_run-shrinks}
use mario_js.Lexer.Token.Taken.{
  Takes, char-IsAligned, not_nul, rounds-enough, shrunk, take_run-Stays, taken, then-Ends,
  tk-IsAligned,
}
use mario_js.Lexer.Token.Numbers.{
  behind_fraction, digits_loop-Ends, fraction_part-Ends, fraction_part-Takes, keep_char-Moves,
  map_behind-Takes, number_rest-Ends, number_rest_lem,
}

numeric_nul : is_numeric 0 ≡ false
unfolding is_numeric
numeric_nul = refl

numeric_not_x : (c : ℕ) → is_numeric c ≡ true → c == b'x' ≡ false
unfolding is_numeric
numeric_not_x c h = ground (arith, h)

dot_not_numeric : (c : ℕ) → c ≡ b'.' → is_numeric c ≡ false
unfolding is_numeric
dot_not_numeric c h = rw h refl

-- Where no digit and no underscore stands, there are no digits to take.
digits_loop-Stays :
    (rounds : ℕ) (lex : Lex)
    → IsAligned lex
    → is_numeric lex.curr_ch ≡ false
    → lex.curr_ch == b'_' ≡ false
    → digits_loop (suc rounds) false lex ≡ some (take_run is_numeric lex)
unfolding digits_loop
digits_loop-Stays rounds lex h e f =
    let stays = take_run-Stays is_numeric lex h e in
    let test : (take_run is_numeric lex).curr_ch == b'_' ≡ false =
      ap (λ t. t == b'_') stays.curr ∙ f in
    rw test refl

dot_digits :
    (lex : Lex)
    → IsAligned lex
    → lex.curr_ch ≡ b'.'
    → digits_from false lex ≡ some (take_run is_numeric lex)
unfolding digits_from
dot_digits lex h dot =
    ap (λ t. digits_loop t false lex) {x = all_rounds lex} {y = suc (length lex.data_bytes)}
      (omega arith)
    ∙ digits_loop-Stays (length lex.data_bytes) lex h (dot_not_numeric lex.curr_ch dot)
        (ap (λ t. t == b'_') dot)

-- A number without `x` in front, behind its whole part.
plain_rest :
    (lex whole : Lex)
    → lex.curr_ch == b'x' ≡ false
    → digits_from false (set_tk lex_int lex) ≡ some whole
    → number_rest lex ≡ Option.map (behind_fraction false) (fraction_part false whole)
plain_rest lex whole no_hex e =
    number_rest_lem lex whole (rw no_hex e)
    ∙ ap (λ b. Option.map (behind_fraction b) (fraction_part b whole)) no_hex

start_digits : (l : Lex) → IsAligned l → Ends (take_run is_numeric l) (digits_from false l)
unfolding digits_from
start_digits l a = digits_loop-Ends (all_rounds l) false l a (rounds-enough l)

-- A number that starts with a digit takes that digit, and one that starts with a point takes the point.
number_rest-Takes :
    (lex : Lex)
    → IsAligned lex
    → (is_numeric lex.curr_ch ≡ true) ⊎ (lex.curr_ch ≡ b'.')
    → Takes lex (number_rest lex)
number_rest-Takes lex h (inl digit) =
    let start = set_tk lex_int lex in
    let a = tk-IsAligned lex_int lex h in
    let less = take_run-shrinks is_numeric start a numeric_nul digit in
    let (whole, runs, b) = start_digits start a in
    let fraction = then-Ends b (fraction_part-Ends false whole b.head) in
    subst (Takes lex) (sym (plain_rest lex whole (numeric_not_x lex.curr_ch digit) runs))
      (map_behind-Takes false lex (shrunk lex (take_run is_numeric start) less fraction))
number_rest-Takes lex h (inr dot) =
    let start = set_tk lex_int lex in
    let a = tk-IsAligned lex_int lex h in
    let whole = take_run is_numeric start in
    let stays = take_run-Stays is_numeric start a (dot_not_numeric lex.curr_ch dot) in
    let (m, rest) = take_run-Moves is_numeric start a in
    let same_left = stays.left in
    let (l, r, d, less) = fraction_part-Takes whole m.head (stays.curr ∙ dot) in
    subst (Takes lex)
      (sym (plain_rest lex whole (ap (λ t. t == b'x') dot) (dot_digits start a dot)))
      (map_behind-Takes false lex (l, r, d, omega (arith, less, same_left)))

pub number_token-Takes :
    (lex : Lex)
    → IsAligned lex
    → (is_numeric lex.curr_ch ≡ true) ⊎ (lex.curr_ch ≡ b'.')
    → Takes lex (number_token lex)
unfolding number_token
number_token-Takes lex h c = elim (Bool-cases (lex.curr_ch == b'0')) [
  | inr e ↦ rw e (number_rest-Takes lex h c)
  | inl e ↦
      let m = keep_char-Moves lex h in
      let less = keep_char-shrinks lex h (not_nul lex.curr_ch b'0' e (omega arith)) in
      rw e (shrunk lex (keep_char lex) less (number_rest-Ends (keep_char lex) m.head))
]
  where
    keep_char-shrinks : (l : Lex) → IsAligned l → l.curr_ch ≢ 0 → left_of (keep_char l) < left_of l
    keep_char-shrinks l a ne =
        unfold keep_char in taken l (add_char l l.curr_ch) (char-IsAligned l.curr_ch l a) refl ne
