-- ===== src/Lexer/Utf.antt =====
-- lex_add_codepoint of mario/lex/mario_lex.c: the UTF-8 bytes of a code point, against a decoder that
-- takes well-formed UTF-8 only.
use mario_js.Prelude.{
  ℕ, ◌+◌, ◌-◌, ◌*◌, ◌/◌, ◌%◌, ◌^◌, ◌≤◌, ◌<◌, ◌≡◌, refl, ap, ◌∙◌, Bool, ◌&&◌, ◌||◌, ◌⊎◌, Bool-cases,
  inl, inr, List, [], ◌∷◌, ◌++◌, ltb, leb, if◌then◌else◌, Option, none, some, arith,
}
use mario_js.Prelude.Bits.{bit_or_low, bit_and_mask}
use Prim.Native.Nat.{bit_and, bit_or}

-- `(char)x`
abbrev pub char_of : ℕ → ℕ
char_of x = x % 2 ^ 8

unfoldable pub lex_add_codepoint : List ℕ → ℕ → List ℕ
lex_add_codepoint str cp =
    let last = char_of (bit_or 0x80 (bit_and cp 0x3F)) in
    let third = char_of (bit_or 0x80 (bit_and (cp / 2 ^ 6) 0x3F)) in
    let second = char_of (bit_or 0x80 (bit_and (cp / 2 ^ 12) 0x3F)) in
    if ltb cp 0x80
    then str ++ (char_of cp ∷ [])
    else if ltb cp 0x800
    then str ++ (char_of (bit_or 0xC0 (cp / 2 ^ 6)) ∷ last ∷ [])
    else if ltb cp 0x10000
    then str ++ (char_of (bit_or 0xE0 (cp / 2 ^ 12)) ∷ third ∷ last ∷ [])
    else str ++ (char_of (bit_or 0xF0 (cp / 2 ^ 18)) ∷ second ∷ third ∷ last ∷ [])

-- A byte that continues a sequence.
abbrev pub is_continuation : ℕ → Bool
is_continuation b = leb 0x80 b && ltb b 0xC0

-- Three bytes stand for the code points of the first plane that two do not, less the surrogates.
abbrev pub takes_three : ℕ → Bool
takes_three cp = leb 0x800 cp && (ltb cp 0xD800 || leb 0xE000 cp)

-- `utf8_next bytes` is the code point that the bytes begin with and the bytes behind it. A sequence longer
-- than its code point needs is none, nor is a surrogate or a code point from 0x110000 on.
unfoldable pub utf8_next : List ℕ → Option (ℕ × List ℕ)
utf8_next [] = none
utf8_next (a ∷ []) = if ltb a 0x80 then some (a, []) else none
utf8_next (a ∷ b ∷ []) =
    if ltb a 0x80
    then some (a, b ∷ [])
    else if leb 0xC2 a && ltb a 0xE0 && is_continuation b
    then some ((a - 0xC0) * 64 + (b - 0x80), [])
    else none
utf8_next (a ∷ b ∷ c ∷ []) =
    let three = (a - 0xE0) * 4096 + (b - 0x80) * 64 + (c - 0x80) in
    if ltb a 0x80
    then some (a, b ∷ c ∷ [])
    else if leb 0xC2 a && ltb a 0xE0 && is_continuation b
    then some ((a - 0xC0) * 64 + (b - 0x80), c ∷ [])
    else if leb 0xE0 a && ltb a 0xF0 && is_continuation b && is_continuation c && takes_three three
    then some (three, [])
    else none
utf8_next (a ∷ b ∷ c ∷ d ∷ more) =
    let three = (a - 0xE0) * 4096 + (b - 0x80) * 64 + (c - 0x80) in
    let four = (a - 0xF0) * 262144 + (b - 0x80) * 4096 + (c - 0x80) * 64 + (d - 0x80) in
    if ltb a 0x80
    then some (a, b ∷ c ∷ d ∷ more)
    else if leb 0xC2 a && ltb a 0xE0 && is_continuation b
    then some ((a - 0xC0) * 64 + (b - 0x80), c ∷ d ∷ more)
    else if leb 0xE0 a && ltb a 0xF0 && is_continuation b && is_continuation c && takes_three three
    then some (three, d ∷ more)
    else if leb 0xF0 a
        && ltb a 0xF8
        && is_continuation b
        && is_continuation c
        && is_continuation d
        && leb 0x10000 four
        && ltb four 0x110000
    then some (four, more)
    else none

-- A byte of six payload bits.
continuation_lem : (x : ℕ) → char_of (bit_or 0x80 (bit_and x 0x3F)) ≡ 0x80 + x % 64
continuation_lem x =
    let m = bit_and_mask 6 x in
    let o = bit_or_low 6 2 (x % 64) (omega arith) in
    ap (λ t. char_of (bit_or 0x80 t)) m ∙ ap char_of o ∙ omega arith

lead_two : (x : ℕ) → x < 32 → char_of (bit_or 0xC0 x) ≡ 0xC0 + x
lead_two x h = ap char_of (bit_or_low 5 6 x h) ∙ omega arith

lead_three : (x : ℕ) → x < 16 → char_of (bit_or 0xE0 x) ≡ 0xE0 + x
lead_three x h = ap char_of (bit_or_low 4 14 x h) ∙ omega arith

lead_four : (x : ℕ) → x < 8 → char_of (bit_or 0xF0 x) ≡ 0xF0 + x
lead_four x h = ap char_of (bit_or_low 3 30 x h) ∙ omega arith

next_one : (cp : ℕ) (rest : List ℕ) → cp < 0x80 → utf8_next (cp ∷ rest) ≡ some (cp, rest)
unfolding utf8_next
next_one cp [] h = ground arith
next_one cp (b ∷ []) h = ground arith
next_one cp (b ∷ c ∷ []) h = ground arith
next_one cp (b ∷ c ∷ d ∷ r) h = ground arith

next_two :
    (cp x y : ℕ) (rest : List ℕ)
    → cp ≡ x * 64 + y
    → 2 ≤ x
    → x < 32
    → y < 64
    → utf8_next ((0xC0 + x) ∷ (0x80 + y) ∷ rest) ≡ some (cp, rest)
unfolding utf8_next
next_two cp x y [] e h k l = ground arith
next_two cp x y (c ∷ []) e h k l = ground arith
next_two cp x y (c ∷ d ∷ r) e h k l = ground arith

next_three :
    (cp x y z : ℕ) (rest : List ℕ)
    → cp ≡ x * 4096 + y * 64 + z
    → 0x800 ≤ cp
    → (cp < 0xD800) ⊎ (0xE000 ≤ cp)
    → x < 16
    → y < 64
    → z < 64
    → utf8_next ((0xE0 + x) ∷ (0x80 + y) ∷ (0x80 + z) ∷ rest) ≡ some (cp, rest)
unfolding utf8_next
next_three cp x y z [] e h (inl s) k l m = ground arith
next_three cp x y z [] e h (inr s) k l m = ground arith
next_three cp x y z (d ∷ r) e h (inl s) k l m = ground arith
next_three cp x y z (d ∷ r) e h (inr s) k l m = ground arith

next_four :
    (cp x y z w : ℕ) (rest : List ℕ)
    → cp ≡ x * 262144 + y * 4096 + z * 64 + w
    → 0x10000 ≤ cp
    → cp < 0x110000
    → x < 8
    → y < 64
    → z < 64
    → w < 64
    → utf8_next ((0xF0 + x) ∷ (0x80 + y) ∷ (0x80 + z) ∷ (0x80 + w) ∷ rest) ≡ some (cp, rest)
unfolding utf8_next
next_four cp x y z w rest e h k l m n o = ground arith

-- What a code point adds to a text: bytes that a UTF-8 decoder takes back, whatever follows.
abbrev pub AddsCodepoint : ℕ → List ℕ → List ℕ → Type 0
AddsCodepoint cp str str' =
    (bytes : List ℕ) × (str' ≡ str ++ bytes)
    × ((rest : List ℕ) → utf8_next (bytes ++ rest) ≡ some (cp, rest))

module _ (str : List ℕ) (cp : ℕ) (valid : cp < 0x110000)
    (scalar : (cp < 0xD800) ⊎ (0xE000 ≤ cp)) where
  -- For a code point below 0x110000 that is no surrogate, lex_add_codepoint adds bytes that a strict UTF-8
  -- decoder reads as that code point, whatever bytes follow them.
  pub lex_add_codepoint-AddsCodepoint : AddsCodepoint cp str (lex_add_codepoint str cp)
  unfolding lex_add_codepoint
  lex_add_codepoint-AddsCodepoint = elim (Bool-cases (ltb cp 0x80)) [
    | inl e ↦
        let small : cp < 0x80 = ground arith in
        let c : char_of cp ≡ cp = omega arith in rw (e, c) (cp ∷ [], refl, λ r. next_one cp r small)
    | inr e ↦ rw e (elim (Bool-cases (ltb cp 0x800)) [
      | inl f ↦
          let x = cp / 2 ^ 6 in
          let low : 2 ≤ x = ground arith in
          let high : x < 32 = ground arith in
          rw (f, lead_two x high, continuation_lem cp)
            (
              (0xC0 + x) ∷ (0x80 + cp % 64) ∷ [],
              refl,
              λ r. next_two cp x (cp % 64) r (omega arith) low high (omega arith),
            )
      | inr f ↦ rw f (elim (Bool-cases (ltb cp 0x10000)) [
        | inl g ↦
            let x = cp / 2 ^ 12 in
            let y = cp / 2 ^ 6 % 64 in
            let low : 0x800 ≤ cp = ground arith in
            let high : x < 16 = ground arith in
            rw (g, lead_three x high, continuation_lem (cp / 2 ^ 6), continuation_lem cp)
              (
                (0xE0 + x) ∷ (0x80 + y) ∷ (0x80 + cp % 64) ∷ [],
                refl,
                λ r.
                    next_three cp x y (cp % 64) r (omega arith) low scalar high (omega arith)
                      (omega arith),
              )
        | inr g ↦
            let x = cp / 2 ^ 18 in
            let y = cp / 2 ^ 12 % 64 in
            let z = cp / 2 ^ 6 % 64 in
            let low : 0x10000 ≤ cp = ground arith in
            let high : x < 8 = omega arith in
            rw
              (
                g,
                lead_four x high,
                continuation_lem (cp / 2 ^ 12),
                continuation_lem (cp / 2 ^ 6),
                continuation_lem cp,
              )
              (
                (0xF0 + x) ∷ (0x80 + y) ∷ (0x80 + z) ∷ (0x80 + cp % 64) ∷ [],
                refl,
                λ r.
                    next_four cp x y z (cp % 64) r (omega arith) low valid high (omega arith)
                      (omega arith) (omega arith),
              )
      ])
    ])
  ]
