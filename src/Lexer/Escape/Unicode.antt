-- ===== src/Lexer/Escape/Unicode.antt =====
-- Unicode escapes (mario/lex/mario_lex.c): the code points that `\uXXXX` and surrogate pairs stand for.
use mario_js.Prelude.{
  ℕ, suc, ◌+◌, ◌-◌, ◌*◌, ◌/◌, ◌%◌, ◌^◌, ◌≤◌, ◌<◌, ◌≡◌, refl, ap, ◌∙◌, Bool, true, false, List, ◌∷◌,
  drop, get_or, ltb, leb, ◌==◌, if◌then◌else◌, some, arith, u32,
}
use mario_js.Lexer.{Lex, lex_get_nextch, remaining}
use mario_js.Lexer.Head.{IsAligned, lex_get_nextch-IsAligned}
use mario_js.Lexer.Space.Wide.{looks_at}
use mario_js.Lexer.Utf.{lex_add_codepoint}
use mario_js.Lexer.Escape.{lex_hexval, digit_loop, add_codepoint, end_u_escape, lex_read_u_escape}

-- An aligned read head ahead of a text, with the token's text so far.
pub record At (text str : List ℕ) (lex : Lex) : Type 0 where
  pub head : IsAligned lex
  pub ahead : remaining lex ≡ text
  pub so_far : lex.tk_str ≡ str

At-curr : {x : ℕ} {xs str : List ℕ} {lex : Lex} → At (x ∷ xs) str lex → lex.curr_ch ≡ x
At-curr {lex = lex} at = let (c, w) = looks_at lex at.head in c ∙ ap (λ t. get_or t 0 0) at.ahead

pub At-next :
    {x : ℕ} {xs str : List ℕ} {lex : Lex} → At (x ∷ xs) str lex → At xs str (lex_get_nextch lex)
unfolding lex_get_nextch
At-next {lex = lex} at =
    let (a, e) = lex_get_nextch-IsAligned lex at.head in
    record { head = a; ahead = e ∙ ap (drop 1) at.ahead; so_far = at.so_far }

-- The digit of a value below 16, with an upper-case or a lower-case letter.
unfoldable pub hex_digit : Bool → ℕ → ℕ
hex_digit upper v = if ltb v 10 then b'0' + v else (if upper then b'A' else b'a') - 10 + v

-- The case of each of four digits.
pub record Case4 : Type 0 where
  pub first : Bool
  pub second : Bool
  pub third : Bool
  pub fourth : Bool

-- The four digits of a 16-bit unit.
abbrev pub hex4 : Case4 → ℕ → List ℕ → List ℕ
hex4 c u r =
    hex_digit c.first (u / 4096)
    ∷ hex_digit c.second (u / 256 % 16)
    ∷ hex_digit c.third (u / 16 % 16)
    ∷ hex_digit c.fourth (u % 16)
    ∷ r

lex_hexval-digit : (upper : Bool) (v : ℕ) → v < 16 → lex_hexval (hex_digit upper v) ≡ some v
unfolding lex_hexval hex_digit
lex_hexval-digit true v h = ground arith
lex_hexval-digit false v h = ground arith

digit_some :
    (left cp v : ℕ) (lex : Lex)
    → lex_hexval lex.curr_ch ≡ some v
    → digit_loop (suc left) cp lex ≡ (
        if left == 0
        then ((cp * 16 + v) % u32, lex, 0)
        else digit_loop left ((cp * 16 + v) % u32) (lex_get_nextch lex))
unfolding digit_loop
digit_some left cp v lex h = rw (h, digit_loop) refl

digit_more :
    (left cp v : ℕ) (lex : Lex)
    → lex_hexval lex.curr_ch ≡ some v
    → left == 0 ≡ false
    → digit_loop (suc left) cp lex ≡ digit_loop left ((cp * 16 + v) % u32) (lex_get_nextch lex)
digit_more left cp v lex h e = digit_some left cp v lex h ∙ rw e refl

-- Four digits are read up to the last one, which stays current.
digit_loop-hex4 :
    (c : Case4) (u : ℕ) (r str : List ℕ) (lex : Lex)
    → u < 2 ^ 16
    → At (hex4 c u r) str lex
    → (last : Lex) × (digit_loop 4 0 lex ≡ (u, last, 0))
      × At (hex_digit c.fourth (u % 16) ∷ r) str last
unfolding digit_loop
digit_loop-hex4 c u r str lex small at0 =
    let at1 = At-next at0 in
    let at2 = At-next at1 in
    let at3 = At-next at2 in
    let h0 = ap lex_hexval (At-curr at0) ∙ lex_hexval-digit c.first (u / 4096) (omega arith) in
    let h1 = ap lex_hexval (At-curr at1) ∙ lex_hexval-digit c.second (u / 256 % 16) (omega arith) in
    let h2 = ap lex_hexval (At-curr at2) ∙ lex_hexval-digit c.third (u / 16 % 16) (omega arith) in
    let h3 = ap lex_hexval (At-curr at3) ∙ lex_hexval-digit c.fourth (u % 16) (omega arith) in
    let last = lex_get_nextch (lex_get_nextch (lex_get_nextch lex)) in
    let v : ((((0 * 16 + u / 4096) % u32 * 16 + u / 256 % 16) % u32 * 16 + u / 16 % 16) % u32 * 16
            + u % 16)
          % u32
        ≡ u =
      omega arith in
    (
      last,
      digit_more 3 _ _ _ h0 refl
          ∙ digit_more 2 _ _ _ h1 refl
          ∙ digit_more 1 _ _ _ h2 refl
          ∙ digit_some 0 _ _ _ h3
          ∙ ap (λ t. (t, last, 0)) v,
      at3,
    )

-- The text of a plain escape and of a surrogate pair, from the `u` on.
abbrev pub plain_text : Case4 → ℕ → List ℕ → List ℕ
plain_text c u r = b'u' ∷ hex4 c u r

abbrev pub pair_text : Case4 → Case4 → ℕ → List ℕ → List ℕ
pair_text c d cp r =
    plain_text c (0xD800 + (cp - 0x10000) / 1024)
      (b'\\' ∷ plain_text d (0xDC00 + (cp - 0x10000) % 1024) r)

hex_digit-not_brace : (upper : Bool) (v : ℕ) → v < 16 → hex_digit upper v == b'{' ≡ false
unfolding hex_digit
hex_digit-not_brace true v h = ground arith
hex_digit-not_brace false v h = ground arith

reads_plain :
    (c : Case4) (u : ℕ) (r str : List ℕ) (lex : Lex)
    → u < 2 ^ 16
    → At (plain_text c u r) str lex
    → (last : Lex) × (lex_read_u_escape lex ≡ some (end_u_escape u last))
      × At (hex_digit c.fourth (u % 16) ∷ r) str last
unfolding lex_read_u_escape
reads_plain c u r str lex small at =
    let at0 = At-next at in
    let (last, runs, ends) = digit_loop-hex4 c u r str (lex_get_nextch lex) small at0 in
    let no_brace =
      ap (λ t. t == b'{') (At-curr at0) ∙ hex_digit-not_brace c.first (u / 4096) (omega arith) in
    (last, rw (no_brace, runs) refl, ends)

add_codepoint-At :
    (cp : ℕ) {text str : List ℕ} {lex : Lex}
    → At text str lex
    → At text (lex_add_codepoint str cp) (add_codepoint cp lex)
add_codepoint-At cp {lex = lex} at =
    let h = at.head in
    record {
      head = record { started = h.started; curr = h.curr; next = h.next };
      ahead = at.ahead;
      so_far = ap (λ t. lex_add_codepoint t cp) at.so_far;
    }

pair_found :
    (hi lo : ℕ) (lex last : Lex)
    → 0xD800 ≤ hi
    → hi ≤ 0xDBFF
    → 0xDC00 ≤ lo
    → lo ≤ 0xDFFF
    → (lex_get_nextch lex).curr_ch ≡ b'\\'
    → (lex_get_nextch (lex_get_nextch lex)).curr_ch ≡ b'u'
    → digit_loop 4 0 (lex_get_nextch (lex_get_nextch (lex_get_nextch lex))) ≡ (lo, last, 0)
    → end_u_escape hi lex
      ≡ add_codepoint ((0x10000 + (hi - 0xD800) * 2 ^ 10 + (lo - 0xDC00)) % u32) last
unfolding end_u_escape
pair_found hi lo lex last a b c d slash u more =
    let e : leb 0xD800 hi ≡ true = ground arith in
    let f : leb hi 0xDBFF ≡ true = ground arith in
    let g : leb 0xDC00 lo ≡ true = ground arith in
    let h : leb lo 0xDFFF ≡ true = ground arith in
    let s = ap (λ t. t == b'\\') slash in
    let t = ap (λ t. t == b'u') u in rw (e, f, s, t, more, g, h) refl

module _ (c d : Case4) (cp : ℕ) (r str : List ℕ) (lex : Lex) (low : 0x10000 ≤ cp)
    (high : cp < 0x110000) (at : At (pair_text c d cp r) str lex) where
  -- A code point from 0x10000 on, written as the surrogate pair `\uXXXX\uXXXX` with each digit
  -- in either case, is read as that code point: lex_add_codepoint's bytes of it go to the token's text, and
  -- the head stands on the last digit.
  pub lex_read_u_escape-pair :
      (last : Lex) × (lex_read_u_escape lex ≡ some last)
      × At
          (hex_digit d.fourth ((0xDC00 + (cp - 0x10000) % 1024) % 16) ∷ r)
          (lex_add_codepoint str cp)
          last
  lex_read_u_escape-pair =
      let hi = 0xD800 + (cp - 0x10000) / 1024 in
      let lo = 0xDC00 + (cp - 0x10000) % 1024 in
      let (first, runs, ends) =
        reads_plain c hi (b'\\' ∷ plain_text d lo r) str lex (omega arith) at in
      let slash = At-next ends in
      let u = At-next slash in
      let (last, more, done) =
        digit_loop-hex4 d lo r str (lex_get_nextch (lex_get_nextch (lex_get_nextch first)))
          (omega arith) (At-next u) in
      let joined =
        pair_found hi lo first last (omega arith) (omega arith) (omega arith) (omega arith)
          (At-curr slash) (At-curr u) more in
      let whole : (0x10000 + (hi - 0xD800) * 2 ^ 10 + (lo - 0xDC00)) % u32 ≡ cp = omega arith in
      (
        add_codepoint cp last,
        runs ∙ ap some (joined ∙ ap (λ t. add_codepoint t last) whole),
        add_codepoint-At cp done,
      )
