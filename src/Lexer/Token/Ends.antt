-- ===== src/Lexer/Token/Ends.antt =====
-- lex_get_basic_token (mario/lex/mario_lex.c): it ends, and takes the bytes of the token.
use mario_js.Prelude.{
  ℕ, ◌≡◌, ◌≢◌, ◌⊎◌, ◌≤◌, ◌<◌, ◌+◌, List, get_or, refl, Bool, true, false, ◌&&◌, ◌||◌, Bool-cases,
  inl, inr, ◌==◌, some, arith,
}
use mario_js.Lexer.{Lex, remaining, is_numeric, is_id_start, is_id_cont}
use mario_js.Lexer.Head.{IsAligned}
use mario_js.Lexer.Token.{starts_name, starts_private, starts_number, lex_get_basic_token}
use mario_js.Lexer.Token.Taken.{Takes, and-left, not_nul}
use mario_js.Lexer.Token.Idents.{is_equal, name_token-Takes, private_token-Takes}
use mario_js.Lexer.Token.Numbers.Starts.{number_token-Takes}
use mario_js.Lexer.Token.Strings.{string_token-Takes}

-- The tests of the branches, taken together.
abbrev pub starts_token : Lex → Bool
starts_token lex =
    starts_name lex.curr_ch lex.next_ch
    || starts_private lex.curr_ch lex.next_ch
    || starts_number lex.curr_ch lex.next_ch
    || lex.curr_ch == b'"'

name_start :
    (c n : ℕ) → starts_name c n ≡ true → (is_id_cont c ≡ true) ⊎ (c == b'\\' && n == b'u' ≡ true)
unfolding starts_name is_id_cont
name_start c n h = elim (Bool-cases (is_id_start c)) [
  | inl e ↦ inl (rw e refl)
  | inr e ↦ inr (rw e at h)
]

private_start : (c n : ℕ) → starts_private c n ≡ true → c ≢ 0
unfolding starts_private
private_start c n h = not_nul c b'#' (and-left (c == b'#') _ h) (omega arith)

number_start_char : (c n : ℕ) → starts_number c n ≡ true → (is_numeric c ≡ true) ⊎ (c ≡ b'.')
unfolding starts_number
number_start_char c n h = elim (Bool-cases (is_numeric c)) [
  | inl e ↦ inl e
  | inr e ↦ inr (is_equal c b'.' (and-left (c == b'.') (is_numeric n) (rw e at h)))
]

-- What the branches take, one by one.
basic_token-Takes :
    (lex : Lex)
    → IsAligned lex
    → (starts_token lex ≡ true → Takes lex (lex_get_basic_token lex))
      × (starts_token lex ≡ false → lex_get_basic_token lex ≡ some lex)
unfolding lex_get_basic_token
basic_token-Takes lex h = elim (Bool-cases (starts_name lex.curr_ch lex.next_ch)) [
  | inl e ↦ rw e (λ s. name_token-Takes lex h (name_start lex.curr_ch lex.next_ch e), λ s. cc)
  | inr e ↦ rw e (elim (Bool-cases (starts_private lex.curr_ch lex.next_ch)) [
    | inl f ↦
        rw f (λ s. private_token-Takes lex h (private_start lex.curr_ch lex.next_ch f), λ s. cc)
    | inr f ↦ rw f (elim (Bool-cases (starts_number lex.curr_ch lex.next_ch)) [
      | inl g ↦
          rw g
            (λ s. number_token-Takes lex h (number_start_char lex.curr_ch lex.next_ch g), λ s. cc)
      | inr g ↦ rw g (elim (Bool-cases (lex.curr_ch == b'"')) [
        | inl q ↦
            rw q (λ s. string_token-Takes lex h (not_nul lex.curr_ch b'"' q (omega arith)), λ s. cc)
        | inr q ↦ rw q (λ s. cc, λ s. refl)
      ])
    ])
  ])
]

-- A hexadecimal digit.
abbrev pub IsHexDigit : ℕ → Type 0
IsHexDigit c = ((48 ≤ c) × (c ≤ 57)) ⊎ (((65 ≤ c) × (c ≤ 70)) ⊎ ((97 ≤ c) × (c ≤ 102)))

-- Each `\u` of a text is followed by four hexadecimal digits.
abbrev pub Escaped : List ℕ → Type 0
Escaped text =
    (j : ℕ)
    → get_or text j 0 ≡ b'\\'
    → get_or text (j + 1) 0 ≡ b'u'
    → (k : ℕ) → k < 4
    → IsHexDigit (get_or text (j + 2 + k) 0)

abbrev pub starts_ident : Lex → Bool
starts_ident lex = starts_name lex.curr_ch lex.next_ch || starts_private lex.curr_ch lex.next_ch

-- From an aligned read head lex_get_basic_token ends, within one round more for each loop than the source has
-- bytes: where a name, a private name, a number or a double-quoted string starts, it takes at least one
-- byte and leaves an aligned head; where none starts, it changes nothing. For a name or a private name,
-- each `\u` ahead has its four digits: behind one that the source ends in, the code reads past the
-- terminator, and the model is not that read.
pub lex_get_basic_token-Takes :
    (lex : Lex)
    → IsAligned lex
    → (starts_ident lex ≡ true → Escaped (remaining lex))
    → (starts_token lex ≡ true → Takes lex (lex_get_basic_token lex))
      × (starts_token lex ≡ false → lex_get_basic_token lex ≡ some lex)
lex_get_basic_token-Takes lex h escaped = basic_token-Takes lex h
