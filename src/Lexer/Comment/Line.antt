-- ===== src/Lexer/Comment/Line.antt =====
-- lex_skip_comments_line (mario/lex/mario_lex.c): where a line comment leaves the read head.
use mario_js.Prelude.{
  ℕ, ◌-◌, ◌≡◌, refl, ap, sym, ◌∙◌, Bool, true, false, not, ◌&&◌, ◌||◌, Bool-cases, inl, inr, List,
  get_or, drop, ◌==◌, if◌then◌else◌, arith,
}
use mario_js.Lexer.{Lex, lex_get_nextch, remaining}
use mario_js.Lexer.Head.{IsAligned, lex_get_nextch-IsAligned}
use mario_js.Lexer.Space.Wide.{get_or-drop, looks_at}
use mario_js.Lexer.Comment.{index_of, to_newline, lex_skip_comments_line}
use mario_js.Lexer.Comment.Search.{index_of-Finds, from_newline, to_newline-IsAligned}

-- The text begins with the first one or two bytes of a marker that is not empty.
abbrev pub opens : List ℕ → List ℕ → Bool
opens start r =
    not (get_or start 0 0 == 0)
    && (get_or r 0 0 == get_or start 0 0)
    && (get_or start 1 0 == 0 || get_or r 1 0 == get_or start 1 0)

-- The text that a line comment leaves: from its newline on, or behind it for a marker of two bytes.
abbrev pub line_rest : List ℕ → List ℕ → List ℕ
line_rest start r = if get_or start 1 0 == 0 then from_newline r else drop 1 (from_newline r)

pub next_at : (lex : Lex) → IsAligned lex → lex.next_ch ≡ get_or (remaining lex) 1 0
next_at lex h =
    let s = h.started in
    h.next
    ∙ ap (λ t. get_or lex.data_bytes t 0) (omega arith)
    ∙ sym (get_or-drop (lex.data_pos - 2) 1 lex.data_bytes)

-- What a skipped comment gives: the flag, and a read head in front of a given rest of the text.
pub record Leaves (rest : List ℕ) (out : Lex × Bool) : Type 0 where
  pub skipped : out.1 ≡ true
  pub head : IsAligned out.0
  pub text : remaining out.0 ≡ rest

-- The test of the first two characters.
abbrev matches : List ℕ → ℕ → ℕ → Bool
matches start c0 c1 = (c0 == get_or start 0 0) && (get_or start 1 0 == 0 || c1 == get_or start 1 0)

there :
    (start : List ℕ) (lex : Lex)
    → lex.curr_ch ≡ get_or (remaining lex) 0 0
    → lex.next_ch ≡ get_or (remaining lex) 1 0
    → matches start lex.curr_ch lex.next_ch
      ≡ matches start (get_or (remaining lex) 0 0) (get_or (remaining lex) 1 0)
there start lex c n = rw (c, n) refl

behind_marker :
    (start : List ℕ) (lex ahead : Lex)
    → IsAligned ahead
    → remaining ahead ≡ from_newline (remaining lex)
    → Leaves
        (line_rest start (remaining lex))
        (if not (get_or start 1 0 == 0) then lex_get_nextch ahead else ahead, true)
behind_marker start lex ahead a e = elim (Bool-cases (get_or start 1 0 == 0)) [
  | inl f ↦ rw f (record { skipped = refl; head = a; text = e })
  | inr f ↦
      let (b, g) = lex_get_nextch-IsAligned ahead a in
      rw f (record { skipped = refl; head = b; text = g ∙ ap (drop 1) e })
]

module _ (start : List ℕ) (lex : Lex) (aligned : IsAligned lex) where
  -- From an aligned read head: where the text ahead begins with the marker, lex_skip_comments_line
  -- reports a comment and stops, aligned, at the first newline ahead or at the end of the source (one byte
  -- behind it for a marker of two bytes); where it does not, or the marker is empty, nothing changes.
  pub lex_skip_comments_line-Leaves :
      (opens start (remaining lex) ≡ true
        → Leaves (line_rest start (remaining lex)) (lex_skip_comments_line start lex))
      × (opens start (remaining lex) ≡ false → lex_skip_comments_line start lex ≡ (lex, false))
  unfolding lex_skip_comments_line
  lex_skip_comments_line-Leaves =
      let ahead = to_newline (index_of 10 (remaining lex)) lex in
      let (a, e) =
        to_newline-IsAligned lex (index_of 10 (remaining lex)) aligned
          (index_of-Finds 10 (remaining lex)) in
      let (c, w) = looks_at lex aligned in
      let n = next_at lex aligned in
      elim (Bool-cases (get_or start 0 0 == 0)) [
        | inl f ↦ rw f (λ o. absurd (ground arith), λ o. refl)
        | inr f ↦
            let seen = there start lex c n in
            rw f
              (elim (Bool-cases
                (matches start (get_or (remaining lex) 0 0) (get_or (remaining lex) 1 0))) [
                  | inl g ↦
                      rw (seen ∙ g, g)
                        (λ o. behind_marker start lex ahead a e, λ o. absurd (ground arith))
                  | inr g ↦ rw (seen ∙ g, g) (λ o. absurd (ground arith), λ o. refl)
                ])
      ]
