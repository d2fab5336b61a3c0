-- ===== src/Lexer/Space/Wide.antt =====
-- The white space outside ASCII, and what lex_skip_unicode_space of mario/lex/mario_lex.c takes for it.
use mario_js.Prelude.{
  ℕ, zero, suc, ◌+◌, ◌-◌, ◌*◌, ◌≤◌, ◌<◌, ◌≡◌, refl, ap, sym, subst, ◌∙◌, Bool, true, false, ◌&&◌,
  ◌||◌, Bool-cases, inl, inr, List, [], ◌∷◌, get_or, drop, ltb, leb, ◌==◌, if◌then◌else◌, arith,
}
use mario_js.Lexer.{Lex, byte_at, lex_get_nextch, remaining}
use mario_js.Lexer.Utf.{is_continuation}
use mario_js.Lexer.Head.{IsAligned, lex_get_nextch-IsAligned, byte_before_end_lem}
use mario_js.Lexer.Space.{lex_peek3, space_bytes, next_chars}

-- The code points of white space and ends of lines outside ASCII.
unfoldable pub is_wide_space : ℕ → Bool
is_wide_space cp =
    cp == 0xA0
    || cp == 0x1680
    || (leb 0x2000 cp && leb cp 0x200A)
    || cp == 0x2028
    || cp == 0x2029
    || cp == 0x202F
    || cp == 0x205F
    || cp == 0x3000
    || cp == 0xFEFF

-- The length of the UTF-8 sequence that three bytes begin with, if it stands for such a code point, or 0.
unfoldable pub space_at : ℕ → ℕ → ℕ → ℕ
unfolding is_wide_space
space_at a b c =
    if leb 0xC2 a && ltb a 0xE0 && is_continuation b && is_wide_space ((a - 0xC0) * 64 + (b - 0x80))
    then 2
    else if leb 0xE0 a
        && ltb a 0xF0
        && is_continuation b
        && is_continuation c
        && leb 0x800 ((a - 0xE0) * 4096 + (b - 0x80) * 64 + (c - 0x80))
        && is_wide_space ((a - 0xE0) * 4096 + (b - 0x80) * 64 + (c - 0x80))
    then 3
    else 0

-- The white space that a text begins with, in bytes.
abbrev pub wide_space : List ℕ → ℕ
wide_space r = space_at (get_or r 0 0) (get_or r 1 0) (get_or r 2 0)

-- No white space is between U+00A0 and U+1680, nor between U+3000 and U+FEFF.
between_low : (x : ℕ) → 0xA0 < x → x < 0x1680 → is_wide_space x ≡ false
unfolding is_wide_space
between_low x l h = ground arith

between_high : (x : ℕ) → 0x3000 < x → x < 0xFEFF → is_wide_space x ≡ false
unfolding is_wide_space
between_high x l h = ground arith

-- The white space behind each lead byte.
lead_c2 : (b c : ℕ) → space_bytes 0xC2 b c ≡ space_at 0xC2 b c
unfolding space_bytes space_at
lead_c2 b c = ground arith

lead_e1 : (b c : ℕ) → space_bytes 0xE1 b c ≡ space_at 0xE1 b c
unfolding space_bytes space_at
lead_e1 b c = ground arith

lead_e2 : (b c : ℕ) → space_bytes 0xE2 b c ≡ space_at 0xE2 b c
unfolding space_bytes space_at
lead_e2 b c = ground arith

lead_e3 : (b c : ℕ) → space_bytes 0xE3 b c ≡ space_at 0xE3 b c
unfolding space_bytes space_at
lead_e3 b c = ground arith

lead_ef : (b c : ℕ) → space_bytes 0xEF b c ≡ space_at 0xEF b c
unfolding space_bytes space_at
lead_ef b c = ground arith

is_lead : ℕ → Bool
is_lead a = a == 0xC2 || a == 0xE1 || a == 0xE2 || a == 0xE3 || a == 0xEF

no_lead_bytes : (a b c : ℕ) → is_lead a ≡ false → space_bytes a b c ≡ 0
unfolding space_bytes is_lead
no_lead_bytes a b c h = ground arith

no_lead_two :
    (a b : ℕ)
    → is_lead a ≡ false
    → (leb 0xC2 a
        && ltb a 0xE0
        && is_continuation b
        && is_wide_space ((a - 0xC0) * 64 + (b - 0x80)))
      ≡ false
unfolding is_lead
no_lead_two a b h = elim (Bool-cases (leb 0xC2 a && ltb a 0xE0 && is_continuation b)) [
  | inl e ↦
      let low : 0xA0 < (a - 0xC0) * 64 + (b - 0x80) = ground arith in
      let high : (a - 0xC0) * 64 + (b - 0x80) < 0x1680 = ground arith in
      let w = between_low ((a - 0xC0) * 64 + (b - 0x80)) low high in ground (arith, w)
  | inr e ↦ ground arith
]

no_lead_three :
    (a b c : ℕ)
    → is_lead a ≡ false
    → 0x800 ≤ (a - 0xE0) * 4096 + (b - 0x80) * 64 + (c - 0x80)
    → (leb 0xE0 a && ltb a 0xF0 && is_continuation b && is_continuation c) ≡ true
    → is_wide_space ((a - 0xE0) * 4096 + (b - 0x80) * 64 + (c - 0x80)) ≡ false
unfolding is_lead
no_lead_three a b c h l e = elim (Bool-cases (a == 0xE0)) [
  | inl z ↦
      let high : (a - 0xE0) * 4096 + (b - 0x80) * 64 + (c - 0x80) < 0x1680 = ground arith in
      between_low _ (omega (arith, l)) high
  | inr z ↦
      let low : 0x3000 < (a - 0xE0) * 4096 + (b - 0x80) * 64 + (c - 0x80) = ground arith in
      let high : (a - 0xE0) * 4096 + (b - 0x80) * 64 + (c - 0x80) < 0xFEFF = ground arith in
      between_high _ low high
]

no_lead_at : (a b c : ℕ) → is_lead a ≡ false → space_at a b c ≡ 0
unfolding space_at
no_lead_at a b c h =
    let x = (a - 0xE0) * 4096 + (b - 0x80) * 64 + (c - 0x80) in
    rw (no_lead_two a b h)
      (elim (Bool-cases (leb 0xE0 a && ltb a 0xF0 && is_continuation b && is_continuation c)) [
        | inl e ↦ elim (Bool-cases (leb 0x800 x)) [
          | inl f ↦
              let l : 0x800 ≤ x = ground arith in
              let w = no_lead_three a b c h l e in ground (arith, w, e, f)
          | inr f ↦ ground (arith, e, f)
        ]
        | inr e ↦ ground (arith, e)
      ])

module _ (b c : ℕ) where
  -- The same for a lead byte that is known.
  at_lead :
      (a k : ℕ)
      → (a == k) ≡ true
      → space_bytes k b c ≡ space_at k b c
      → space_bytes a b c ≡ space_at a b c
  at_lead a k e h =
      let same : k ≡ a = ground arith in subst (λ x. space_bytes x b c ≡ space_at x b c) same h

  -- What the scanner takes for white space is the UTF-8 of one.
  pub space_bytes_lem : (a : ℕ) → space_bytes a b c ≡ space_at a b c
  unfolding is_lead
  space_bytes_lem a = elim (Bool-cases (a == 0xC2)) [
    | inl e ↦ at_lead a 0xC2 e (lead_c2 b c)
    | inr e ↦ elim (Bool-cases (a == 0xE1)) [
      | inl f ↦ at_lead a 0xE1 f (lead_e1 b c)
      | inr f ↦ elim (Bool-cases (a == 0xE2)) [
        | inl g ↦ at_lead a 0xE2 g (lead_e2 b c)
        | inr g ↦ elim (Bool-cases (a == 0xE3)) [
          | inl h ↦ at_lead a 0xE3 h (lead_e3 b c)
          | inr h ↦ elim (Bool-cases (a == 0xEF)) [
            | inl i ↦ at_lead a 0xEF i (lead_ef b c)
            | inr i ↦
                let none_of : is_lead a ≡ false = ground arith in
                no_lead_bytes a b c none_of ∙ sym (no_lead_at a b c none_of)
          ]
        ]
      ]
    ]
  ]

-- `Skips blank r s`: the text `r` is white space followed by `s`, which does not begin with any.
pub data Skips (blank : ℕ → Bool) : List ℕ → List ℕ → Type 0 where
  stop : {r : List ℕ} → blank (get_or r 0 0) ≡ false → wide_space r ≡ 0 → Skips blank r r
  narrow : {r s : List ℕ} → blank (get_or r 0 0) ≡ true → Skips blank (drop 1 r) s → Skips blank r s
  wide : {r s : List ℕ} → 0 < wide_space r → Skips blank (drop (wide_space r) r) s → Skips blank r s

pub next_chars-IsAligned :
    (n : ℕ) (lex : Lex)
    → IsAligned lex
    → IsAligned (next_chars n lex) × (remaining (next_chars n lex) ≡ drop n (remaining lex))
unfolding next_chars
next_chars-IsAligned zero lex h = (h, refl)
next_chars-IsAligned (suc n) lex h =
    let (a, e) = lex_get_nextch-IsAligned lex h in
    let (b, f) = next_chars-IsAligned n (lex_get_nextch lex) a in
    (b, f ∙ ap (drop n) e ∙ drop_one n (remaining lex))
  where
    drop_one : (m : ℕ) (xs : List ℕ) → drop m (drop 1 xs) ≡ drop (suc m) xs
    drop_one zero [] = refl
    drop_one (suc m) [] = refl
    drop_one m (x ∷ xs) = refl

pub get_or-drop : (i j : ℕ) (xs : List ℕ) → get_or (drop i xs) j 0 ≡ get_or xs (i + j) 0
get_or-drop zero j xs = ap (λ t. get_or xs t 0) (omega arith)
get_or-drop (suc i) j [] = refl
get_or-drop (suc i) j (x ∷ xs) =
    get_or-drop i j xs ∙ ap (λ t. get_or (x ∷ xs) t 0) {x = suc (i + j)} (omega arith)

-- The three characters that the scanner looks at are those at the head of what remains.
pub looks_at :
    (lex : Lex)
    → IsAligned lex
    → (lex.curr_ch ≡ get_or (remaining lex) 0 0)
      × (space_bytes lex.curr_ch lex.next_ch (lex_peek3 lex) ≡ wide_space (remaining lex))
unfolding lex_peek3
looks_at lex h =
    let s = h.started in
    let r = remaining lex in
    let at = λ (j : ℕ). get_or-drop (lex.data_pos - 2) j lex.data_bytes in
    let c0 =
      h.curr ∙ ap (λ t. byte_at lex t) {y = lex.data_pos - 2 + 0} (omega arith) ∙ sym (at 0) in
    let c1 =
      h.next ∙ ap (λ t. byte_at lex t) {y = lex.data_pos - 2 + 1} (omega arith) ∙ sym (at 1) in
    let c2 =
      byte_before_end_lem lex lex.data_pos
      ∙ ap (λ t. byte_at lex t) {y = lex.data_pos - 2 + 2} (omega arith)
      ∙ sym (at 2) in
    (c0, rw (c0, c1, c2) (space_bytes_lem (get_or r 1 0) (get_or r 2 0) (get_or r 0 0)))
