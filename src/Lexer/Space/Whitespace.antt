-- ===== src/Lexer/Space/Whitespace.antt =====
-- lex_skip_whitespace and lex_skip_space (mario/lex/mario_lex.c): where they leave the read head.
use mario_js.Prelude.{
  ℕ, zero, suc, ◌+◌, ◌-◌, ◌≤◌, ◌<◌, ◌≡◌, ◌≢◌, refl, ap, sym, subst, ◌∙◌, Bool, true, false,
  Bool-cases, inl, inr, List, [], ◌∷◌, length, get_or, drop, ltb, ◌==◌, Option, some, arith,
  length-drop,
}
use mario_js.Lexer.{Lex, lex_get_nextch, is_whitespace, is_space, run, remaining, advance_span}
use mario_js.Lexer.Head.{IsAligned, lex_get_nextch-IsAligned, advance_span-IsAligned}
use mario_js.Lexer.Space.{
  space_bytes, lex_peek3, next_chars, lex_skip_unicode_space, skip_whitespace_loop,
  lex_skip_whitespace, skip_space_loop, lex_skip_space,
}
use mario_js.Lexer.Space.Wide.{
  space_at, wide_space, Skips, stop, narrow, wide, next_chars-IsAligned, looks_at,
}

run_narrow : (p : ℕ → Bool) (r : List ℕ) {s : List ℕ} → Skips p (drop (run p r) r) s → Skips p r s
unfolding run
run_narrow p [] h = h
run_narrow p (c ∷ r) h = elim (Bool-cases (p c)) [
  | inl e ↦ narrow e (run_narrow p r (rw e at h))
  | inr e ↦ rw e at h
]

run_stops : (p : ℕ → Bool) (r : List ℕ) → p 0 ≡ false → p (get_or (drop (run p r) r) 0 0) ≡ false
unfolding run
run_stops p [] h = h
run_stops p (c ∷ r) h = elim (Bool-cases (p c)) [ inl e ↦ rw e (run_stops p r h) | inr e ↦ rw e e ]

pub space_bytes_ascii : (c0 c1 c2 : ℕ) → c0 < 0xC2 → space_at c0 c1 c2 ≡ 0
unfolding space_at
space_bytes_ascii c0 c1 c2 h = ground arith

length-pos : (r : List ℕ) → get_or r 0 0 ≢ 0 → 0 < length r
length-pos [] h = absurd (h refl)
length-pos (c ∷ r) h = omega arith

-- The scanner ends in a state whose rest of the text follows the white space.
abbrev pub Skipped : (ℕ → Bool) → Lex → Option Lex → Type 0
Skipped p lex o =
    (lex' : Lex) × (o ≡ some lex') × IsAligned lex' × Skips p (remaining lex) (remaining lex')

stopped :
    (p : ℕ → Bool) (lex : Lex)
    → IsAligned lex
    → p (get_or (remaining lex) 0 0) ≡ false
    → wide_space (remaining lex) ≡ 0
    → Skipped p lex (some lex)
stopped p lex h e f = (lex, refl, h, stop e f)

module _ (lex : Lex) (h : IsAligned lex) (pos : 0 < wide_space (remaining lex)) where
  -- The bytes of a wide white space are there to be skipped.
  wide_shrinks : length (drop (wide_space (remaining lex)) (remaining lex)) < length (remaining lex)
  wide_shrinks =
      let r = remaining lex in
      let some_byte = length-pos r λ z.
        absurd (omega (arith, space_bytes_ascii (get_or r 0 0) (get_or r 1 0) (get_or r 2 0), z)) in
      omega (arith, length-drop (wide_space r) r, some_byte)

whitespace_zero : is_whitespace 0 ≡ false
unfolding is_whitespace
whitespace_zero = refl

space_zero : is_space 0 ≡ false
unfolding is_space
space_zero = refl

blank_nonzero : {A : Type 0} (c : ℕ) → is_space c ≡ true → c ≡ 0 → A
unfolding is_space
blank_nonzero c e z = absurd (ground arith)

is_zero : (n : ℕ) → (n == 0) ≡ true → n ≡ 0
is_zero n e = ground arith

is_pos : (n : ℕ) → (n == 0) ≡ false → 0 < n
is_pos n e = ground arith

skips_none :
    (lex : Lex)
    → space_bytes lex.curr_ch lex.next_ch (lex_peek3 lex) ≡ 0
    → lex_skip_unicode_space lex ≡ (lex, false)
unfolding lex_skip_unicode_space
skips_none lex e = rw e refl

skips_some :
    (lex : Lex)
    → 0 < space_bytes lex.curr_ch lex.next_ch (lex_peek3 lex)
    → lex_skip_unicode_space lex
      ≡ (next_chars (space_bytes lex.curr_ch lex.next_ch (lex_peek3 lex)) lex, true)
unfolding lex_skip_unicode_space
skips_some lex e = elim (Bool-cases (space_bytes lex.curr_ch lex.next_ch (lex_peek3 lex) == 0)) [
  | inl z ↦ absurd (ground arith)
  | inr z ↦ rw z refl
]

-- One wide white space is skipped: the state behind it, and what it has to do with the state ahead.
wide_step :
    (p : ℕ → Bool) (lex : Lex)
    → IsAligned lex
    → 0 < space_bytes lex.curr_ch lex.next_ch (lex_peek3 lex)
    → (lex' : Lex) × (lex_skip_unicode_space lex ≡ (lex', true))
      × IsAligned lex'
      × (length (remaining lex') < length (remaining lex))
      × ((s : List ℕ) → Skips p (remaining lex') s → Skips p (remaining lex) s)
wide_step p lex h some_bytes =
    let n = space_bytes lex.curr_ch lex.next_ch (lex_peek3 lex) in
    let (head, eq) = looks_at lex h in
    let (a, rest) = next_chars-IsAligned n lex h in
    let rest' = rest ∙ ap (λ t. drop t (remaining lex)) eq in
    let pos : 0 < wide_space (remaining lex) = subst (λ t. 0 < t) eq some_bytes in
    (
      next_chars n lex,
      skips_some lex some_bytes,
      a,
      subst (λ t. length t < length (remaining lex)) (sym rest') (wide_shrinks lex h pos),
      λ s k. wide pos (subst (λ t. Skips p t s) rest' k),
    )

ascii_at : (lex : Lex) → IsAligned lex → lex.curr_ch < 0xC2 → wide_space (remaining lex) ≡ 0
ascii_at lex h small =
    let (head, eq) = looks_at lex h in
    let r = remaining lex in
    space_bytes_ascii (get_or r 0 0) (get_or r 1 0) (get_or r 2 0) (omega (arith, head, small))

at_end : (lex : Lex) → IsAligned lex → lex.curr_ch ≡ 0 → wide_space (remaining lex) ≡ 0
at_end lex h z = ascii_at lex h (omega (arith, z))

skip_whitespace_ends :
    (rounds : ℕ) (lex : Lex)
    → IsAligned lex
    → length (remaining lex) < rounds
    → Skipped is_whitespace lex (skip_whitespace_loop rounds lex)
unfolding skip_whitespace_loop
skip_whitespace_ends zero lex h lt = absurd (omega arith)
skip_whitespace_ends (suc rounds) lex h lt =
    let r = remaining lex in
    let n = run is_whitespace r in
    let l = advance_span lex n in
    let (a, rest) = advance_span-IsAligned lex n h in
    let (here, here_wide) = looks_at lex h in
    let (head, wide_eq) = looks_at l a in
    let stops : is_whitespace (get_or (remaining l) 0 0) ≡ false =
      subst (λ t. is_whitespace (get_or t 0 0) ≡ false) (sym rest)
        (run_stops is_whitespace r whitespace_zero) in
    let back = λ (s : List ℕ) (k : Skips is_whitespace (remaining l) s).
      run_narrow is_whitespace r {s = s} (subst (λ t. Skips is_whitespace t s) rest k) in
    let shorter : length (remaining l) ≤ length r =
      omega (arith, ap length rest, length-drop n r) in
    elim (Bool-cases (lex.curr_ch == 0)) [
      | inl e ↦ rw e (
          let z : lex.curr_ch ≡ 0 = ground arith in
          stopped is_whitespace lex h (ap is_whitespace (sym here ∙ z) ∙ whitespace_zero)
            (at_end lex h z))
      | inr e ↦ rw e (elim (Bool-cases (ltb l.curr_ch 0xC2)) [
        | inl f ↦ rw f (
            let small : l.curr_ch < 0xC2 = ground arith in
            (l, refl, a, back _ (stop stops (ascii_at l a small))))
        | inr f ↦ rw f (elim (Bool-cases (space_bytes l.curr_ch l.next_ch (lex_peek3 l) == 0)) [
          | inl g ↦
              let none_here = is_zero (space_bytes l.curr_ch l.next_ch (lex_peek3 l)) g in
              rw (skips_none l none_here)
                (l, refl, a, back _ (stop stops (sym wide_eq ∙ none_here)))
          | inr g ↦
              let (w, moved, b, less, front) =
                wide_step is_whitespace l a
                  (is_pos (space_bytes l.curr_ch l.next_ch (lex_peek3 l)) g) in
              let (end, ends, c, k) =
                skip_whitespace_ends rounds w b (omega (arith, less, shorter)) in
              rw moved (end, ends, c, back _ (front _ k))
        ])
      ])
    ]

skip_space_ends :
    (rounds : ℕ) (lex : Lex)
    → IsAligned lex
    → length (remaining lex) < rounds
    → Skipped is_space lex (skip_space_loop rounds lex)
unfolding skip_space_loop
skip_space_ends zero lex h lt = absurd (omega arith)
skip_space_ends (suc rounds) lex h lt =
    let (here, here_wide) = looks_at lex h in
    let (a, rest) = lex_get_nextch-IsAligned lex h in
    elim (Bool-cases (lex.curr_ch == 0)) [
      | inl e ↦ rw e (
          let z : lex.curr_ch ≡ 0 = ground arith in
          stopped is_space lex h (ap is_space (sym here ∙ z) ∙ space_zero) (at_end lex h z))
      | inr e ↦ rw e (elim (Bool-cases (is_space lex.curr_ch)) [
        | inl f ↦
            let some_byte =
              length-pos (remaining lex) λ z. blank_nonzero lex.curr_ch f (here ∙ z) in
            let less : length (remaining (lex_get_nextch lex)) < rounds =
              omega (arith, ap length rest, length-drop 1 (remaining lex), some_byte) in
            let (end, ends, c, k) = skip_space_ends rounds (lex_get_nextch lex) a less in
            rw f (
              end,
              ends,
              c,
              narrow (ap is_space (sym here) ∙ f)
                  (subst (λ t. Skips is_space t (remaining end)) rest k),
            )
        | inr f ↦
            rw f (elim (Bool-cases (space_bytes lex.curr_ch lex.next_ch (lex_peek3 lex) == 0)) [
              | inl g ↦
                  let none_here = is_zero (space_bytes lex.curr_ch lex.next_ch (lex_peek3 lex)) g in
                  rw (skips_none lex none_here) (
                    stopped is_space lex h (ap is_space (sym here) ∙ f) (sym here_wide ∙ none_here))
              | inr g ↦
                  let (w, moved, b, less, front) =
                    wide_step is_space lex h
                      (is_pos (space_bytes lex.curr_ch lex.next_ch (lex_peek3 lex)) g) in
                  let (end, ends, c, k) = skip_space_ends rounds w b (omega (arith, less)) in
                  rw moved (end, ends, c, front _ k)
            ])
      ])
    ]

length-remaining : (lex : Lex) → length (remaining lex) < length lex.data_bytes + 1
length-remaining lex = omega (arith, length-drop (lex.data_pos - 2) lex.data_bytes)

-- From an aligned read head, lex_skip_whitespace ends in an aligned state, and the text behind it is
-- what follows the longest run of white space, ASCII (with the newline) or well-formed UTF-8 of one of the
-- listed code points, that the text ahead begins with.
pub lex_skip_whitespace-Skipped :
    (lex : Lex) → IsAligned lex → Skipped is_whitespace lex (lex_skip_whitespace lex)
unfolding lex_skip_whitespace
lex_skip_whitespace-Skipped lex h = skip_whitespace_ends _ lex h (length-remaining lex)

-- From an aligned read head, lex_skip_space ends in an aligned state, and the text behind it is what
-- follows the longest run of blanks, tabs, returns and Unicode white space that the text ahead begins with.
pub lex_skip_space-Skipped : (lex : Lex) → IsAligned lex → Skipped is_space lex (lex_skip_space lex)
unfolding lex_skip_space
lex_skip_space-Skipped lex h = skip_space_ends _ lex h (length-remaining lex)
