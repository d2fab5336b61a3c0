-- ===== src/Lexer/Token/Numbers.antt =====
-- The parts of a number in lex_get_basic_token (mario/lex/mario_lex.c).
pub mod Starts
use mario_js.Prelude.{
  ℕ, zero, suc, ◌-◌, ◌<◌, ◌≡◌, ◌≢◌, ◌⊎◌, refl, ap, sym, subst, ◌∙◌, Bool, true, false, not, ◌&&◌,
  ◌||◌, Bool-cases, inl, inr, List, [], ◌∷◌, length, get_or, ◌==◌, if◌then◌else◌, Option, some,
  arith, length-drop,
}
use mathlib.Core.Option
use mario_js.Lexer.{
  Lex, lex_id, lex_int, lex_float, lex_str, lex_bigint, lex_get_nextch, add_char, is_numeric,
  is_hexadecimal, is_id_start, is_id_cont, run, remaining, advance_span,
}
use mario_js.Lexer.Head.{IsAligned}
use mario_js.Lexer.Space.Wide.{looks_at}
use mario_js.Lexer.Token.{
  append_span, take_run, ident_loop, set_tk, all_rounds, name_token, private_token, is_digit,
  digits_loop, digits_from, keep_char, fraction_part, exponent_part, bigint_suffix, number_rest,
  number_token, is_plain, jump_span, plain_span, string_loop, string_token, starts_name,
  starts_private, starts_number, lex_get_basic_token,
}
use mario_js.Lexer.Token.Moves.{
  left_of, Moves, Ends, Moves-trans, Moves-refl, lex_get_nextch-Moves, left-pos,
  lex_get_nextch-shrinks, jump_span-Moves, jump_span-left, take_run-Moves, run-pos,
  take_run-shrinks, lex_read_u_escape-Ends, lex_read_escape-Ends, Ends-if, some-Ends, Moves-if,
}
use mario_js.Lexer.Token.Taken.{
  Takes, and-left, char-IsAligned, not_nul, rounds-enough, shrunk, taken, then-Ends, tk-IsAligned,
  tk-Moves,
}

pub digits_loop-Ends :
    (rounds : ℕ) (hex : Bool) (lex : Lex)
    → IsAligned lex
    → left_of lex < rounds
    → Ends (take_run (is_digit hex) lex) (digits_loop rounds hex lex)
unfolding digits_loop
digits_loop-Ends zero hex lex h lt = absurd (omega arith)
digits_loop-Ends (suc rounds) hex lex h lt =
    let l = take_run (is_digit hex) lex in
    let (m, rest) = take_run-Moves (is_digit hex) lex h in
    elim (Bool-cases
      (l.curr_ch == b'_' && (is_numeric l.next_ch || (hex && is_hexadecimal l.next_ch)))) [
        | inr e ↦ rw e (l, refl, Moves-refl l m.head)
        | inl e ↦
            let ne = not_nul l.curr_ch b'_' (and-left _ _ e) (omega arith) in
            let less = lex_get_nextch-shrinks l m.head ne in
            let before = m.within in
            let a = lex_get_nextch-Moves l m.head in
            let (t, trest) = take_run-Moves (is_digit hex) (lex_get_nextch l) a.head in
            rw e (
              then-Ends (Moves-trans a t)
                (digits_loop-Ends rounds hex (lex_get_nextch l) a.head (omega arith)))
      ]

digits-Ends : (hex : Bool) (lex : Lex) → IsAligned lex → Ends lex (digits_from hex lex)
unfolding digits_from
digits-Ends hex lex h =
    let (m, rest) = take_run-Moves (is_digit hex) lex h in
    then-Ends m (digits_loop-Ends (all_rounds lex) hex lex h (rounds-enough lex))

pub keep_char-Moves : (lex : Lex) → IsAligned lex → Moves lex (keep_char lex)
unfolding keep_char
keep_char-Moves lex h =
    let m = lex_get_nextch-Moves (add_char lex lex.curr_ch) (char-IsAligned lex.curr_ch lex h) in
    record { head = m.head; within = m.within }

pub fraction_part-Ends : (hex : Bool) (lex : Lex) → IsAligned lex → Ends lex (fraction_part hex lex)
unfolding fraction_part
fraction_part-Ends hex lex h =
    let l = add_char (set_tk lex_float lex) b'.' in
    let a : IsAligned l =
      char-IsAligned b'.' (set_tk lex_float lex) (tk-IsAligned lex_float lex h) in
    let m = lex_get_nextch-Moves l a in
    let m' : Moves lex (lex_get_nextch l) = record { head = m.head; within = m.within } in
    Ends-if (not hex && lex.curr_ch == b'.') (digits_from false (lex_get_nextch l)) (some lex)
      (then-Ends m' (digits-Ends false (lex_get_nextch l) m.head)) (some-Ends (Moves-refl lex h))

pub fraction_part-Takes :
    (lex : Lex) → IsAligned lex → lex.curr_ch ≡ b'.' → Takes lex (fraction_part false lex)
unfolding fraction_part
fraction_part-Takes lex h dot =
    let l = add_char (set_tk lex_float lex) b'.' in
    let a : IsAligned l =
      char-IsAligned b'.' (set_tk lex_float lex) (tk-IsAligned lex_float lex h) in
    let m = lex_get_nextch-Moves l a in
    let test : lex.curr_ch == b'.' ≡ true = ap (λ t. t == b'.') dot in
    let less = taken lex l a refl (λ z. omega (arith, z, dot)) in
    rw test (shrunk lex (lex_get_nextch l) less (digits-Ends false (lex_get_nextch l) m.head))

exponent_part-Moves : (hex : Bool) (lex : Lex) → IsAligned lex → Moves lex (exponent_part hex lex)
unfolding exponent_part
exponent_part-Moves hex lex h =
    let e = keep_char (set_tk lex_float lex) in
    let m = keep_char-Moves (set_tk lex_float lex) (tk-IsAligned lex_float lex h) in
    let m' : Moves lex e = record { head = m.head; within = m.within } in
    let signed = if e.curr_ch == b'-' then keep_char e else e in
    let n =
      Moves-if (e.curr_ch == b'-') (keep_char e) e (keep_char-Moves e m.head)
        (Moves-refl e m.head) in
    let (t, rest) = take_run-Moves is_numeric signed n.head in
    Moves-if (not hex && (lex.curr_ch == b'e' || lex.curr_ch == b'E')) (take_run is_numeric signed)
      lex (Moves-trans m' (Moves-trans n t)) (Moves-refl lex h)

bigint_suffix-Moves : (lex : Lex) → IsAligned lex → Moves lex (bigint_suffix lex)
unfolding bigint_suffix
bigint_suffix-Moves lex h =
    let m = lex_get_nextch-Moves (set_tk lex_bigint lex) (tk-IsAligned lex_bigint lex h) in
    let m' : Moves lex (lex_get_nextch (set_tk lex_bigint lex)) = record {
      head = m.head;
      within = m.within;
    } in
    Moves-if _ (lex_get_nextch (set_tk lex_bigint lex)) lex m' (Moves-refl lex h)

-- What a number does behind its whole part.
abbrev pub behind_fraction : Bool → Lex → Lex
behind_fraction hex l = bigint_suffix (exponent_part hex l)

behind-Moves : (hex : Bool) (l : Lex) → IsAligned l → Moves l (behind_fraction hex l)
behind-Moves hex l h =
    let m = exponent_part-Moves hex l h in
    Moves-trans m (bigint_suffix-Moves (exponent_part hex l) m.head)

map_behind-Ends :
    (hex : Bool) {lex : Lex} {o : Option Lex}
    → Ends lex o
    → Ends lex (Option.map (behind_fraction hex) o)
map_behind-Ends hex (l, e, m) =
    rw e (behind_fraction hex l, refl, Moves-trans m (behind-Moves hex l m.head))

pub map_behind-Takes :
    (hex : Bool) (lex : Lex) {o : Option Lex}
    → Takes lex o
    → Takes lex (Option.map (behind_fraction hex) o)
map_behind-Takes hex lex (l, e, h, less) =
    let m = behind-Moves hex l h in
    let within = m.within in rw e (behind_fraction hex l, refl, m.head, omega arith)

-- The state in which the digits of a number start.
abbrev number_start : Lex → Lex
number_start lex = set_tk lex_int (if lex.curr_ch == b'x' then keep_char lex else lex)

number_start-Moves : (lex : Lex) → IsAligned lex → Moves lex (number_start lex)
number_start-Moves lex h =
    tk-Moves lex_int (
      Moves-if (lex.curr_ch == b'x') (keep_char lex) lex (keep_char-Moves lex h) (Moves-refl lex h))

pub number_rest_lem :
    (lex whole : Lex)
    → digits_from (lex.curr_ch == b'x') (number_start lex) ≡ some whole
    → number_rest lex
      ≡ Option.map
          (behind_fraction (lex.curr_ch == b'x'))
          (fraction_part (lex.curr_ch == b'x') whole)
unfolding number_rest
number_rest_lem lex whole e = rw (e, number_rest) refl

pub number_rest-Ends : (lex : Lex) → IsAligned lex → Ends lex (number_rest lex)
number_rest-Ends lex h =
    let hex = lex.curr_ch == b'x' in
    let a = number_start-Moves lex h in
    let (whole, runs, b) = digits-Ends hex (number_start lex) a.head in
    subst (Ends lex) (sym (number_rest_lem lex whole runs))
      (then-Ends (Moves-trans a b) (map_behind-Ends hex (fraction_part-Ends hex whole b.head)))
