-- ===== src/ByteCode/Literals/Numbers/Decimal.antt =====
-- The instruction that a decimal literal gets in bc_gen_str (mario/mario.c), by the number that it denotes.
use mario_js.Prelude.{
  ℕ, zero, suc, ◌+◌, ◌-◌, ◌*◌, ◌/◌, ◌%◌, ◌^◌, ◌≤◌, ◌<◌, ◌≡◌, refl, Bool, true, false, ◌&&◌,
  Bool-cases, inl, inr, List, [], ◌∷◌, length, All, ltb, leb, ◌==◌, if◌then◌else◌, arith, u32,
}
use mario_js.Prelude.Int.{pos}
use mario_js.ByteCode.{is_empty_str}
use mario_js.ByteCode.Instr
use mario_js.ByteCode.Literals.{
  Conversions, Literal, is_hex, fast_digits, long_literal, decimal_literal, literal_of,
}

abbrev pub IsDigit : ℕ → Type 0
IsDigit c = (48 ≤ c) × (c ≤ 57)

-- The number that digits denote, behind digits that denote `v`.
abbrev pub value_from : ℕ → List ℕ → ℕ
value_from v [] = v
value_from v (c ∷ cs) = value_from (v * 10 + (c - 48)) cs

abbrev pub value : List ℕ → ℕ
value str = value_from 0 str

-- A literal of the value `n`: the narrowest instruction that holds it, and past 64 bits the double that
-- strtod gives.
pub record Narrowest (n double : ℕ) (literal : Literal) : Type 0 where
  pub short : n < 2 ^ 31 → (literal.instr ≡ Instr.int) × (literal.i ≡ n)
  pub long : 2 ^ 31 ≤ n → n < 2 ^ 63 → (literal.instr ≡ Instr.int64) × (literal.wide ≡ n)
  pub huge : 2 ^ 63 ≤ n → (literal.instr ≡ Instr.float64) × (literal.wide ≡ double)

-- What a number is below when `left` digits more keep it below a thousand millions.
abbrev room : ℕ → ℕ
room zero = 1000000000
room (suc left) = room left / 10

room_le : (left : ℕ) → room left ≤ 1000000000
room_le zero = omega arith
room_le (suc left) = omega (arith, room_le left)

digit_step : (left v c : ℕ) → IsDigit c → v < room left / 10 → (v * 10 + (c - 48)) < room left
digit_step left v c (low, high) h = omega arith

digit_test : (c : ℕ) → IsDigit c → (leb b'0' c && leb c b'9') ≡ true
digit_test c (low, high) =
    let a : leb b'0' c ≡ true = ground arith in
    let b : leb c b'9' ≡ true = ground arith in rw (a, b) refl

-- Within its digits the fast lane reads the whole text, and its value.
fast_digits-value :
    (left : ℕ) (str : List ℕ) (v : ℕ)
    → All IsDigit str
    → length str ≤ left
    → v < room left
    → (fast_digits left str v ≡ (value_from v str, [])) × (value_from v str < 1000000000)
unfolding fast_digits
fast_digits-value zero [] v d h b = (refl, b)
fast_digits-value zero (c ∷ cs) v d h b = absurd (omega arith)
fast_digits-value (suc left) [] v d h b = (refl, omega (arith, room_le left))
fast_digits-value (suc left) (c ∷ cs) v (d, ds) h b =
    let next = v * 10 + (c - 48) in
    let lt = digit_step left v c d b in
    let fits : next % u32 ≡ next = omega (arith, lt, room_le left) in
    let (ih, bound) = fast_digits-value left cs next ds (omega arith) lt in
    rw (digit_test c d, fits) (ih, bound)

-- Past them it stops before the end of the text.
fast_digits-more :
    (left : ℕ) (str : List ℕ) (v : ℕ)
    → All IsDigit str
    → left < length str
    → is_empty_str (fast_digits left str v).1 ≡ false
unfolding fast_digits
fast_digits-more zero [] v d h = absurd (omega arith)
fast_digits-more zero (c ∷ cs) v d h = refl
fast_digits-more (suc left) [] v d h = absurd (omega arith)
fast_digits-more (suc left) (c ∷ cs) v (d, ds) h =
    rw (digit_test c d) (fast_digits-more left cs ((v * 10 + (c - 48)) % u32) ds (omega arith))

and_false : (b : Bool) → (b && false) ≡ false
and_false true = refl
and_false false = refl

digits-not-hex : (str : List ℕ) → All IsDigit str → is_hex str ≡ false
unfolding is_hex
digits-not-hex [] d = refl
digits-not-hex (z ∷ []) d = refl
digits-not-hex (z ∷ x ∷ cs) (d, ds) =
    let ((low, high), others) = ds in
    let a : (x == b'x') ≡ false = ground arith in
    let b : (x == b'X') ≡ false = ground arith in rw (a, b) (and_false (z == b'0'))

module _ (lib : Conversions)
    (long_ok : (s : List ℕ)
      → All IsDigit s
      → lib.strtoll s
        ≡ (if ltb (value s) (2 ^ 63) then (pos (value s), false) else (pos (2 ^ 63 - 1), true)))
    (str : List ℕ) (d : All IsDigit str) where
  long_literal-Narrowest : Narrowest (value str) (lib.strtod str) (long_literal lib str)
  unfolding long_literal
  long_literal-Narrowest =
      let n = value str in
      elim (Bool-cases (ltb n (2 ^ 63))) [
        | inr e ↦
            rw (long_ok str d, e)
              (record {
                short = λ h. absurd (ground arith);
                long = λ h k. absurd (ground arith);
                huge = λ h. (refl, refl);
              })
        | inl e ↦ elim (Bool-cases (ltb 2147483647 n)) [
          | inl f ↦
              rw (long_ok str d, e, f)
                (record {
                  short = λ h. absurd (ground arith);
                  long = λ h k. (refl, omega arith);
                  huge = λ h. absurd (ground arith);
                })
          | inr f ↦
              rw (long_ok str d, e, f)
                (record {
                  short = λ h. (refl, omega arith);
                  long = λ h k. absurd (ground arith);
                  huge = λ h. absurd (ground arith);
                })
        ]
      ]

  -- Where strtoll reads decimal digits as documented, a text of digits becomes an INT, an INT64 or a
  -- FLOAT64 literal, the first of them that holds its number, and with that number.
  pub literal_of-Narrowest : Narrowest (value str) (lib.strtod str) (literal_of lib Instr.int str)
  unfolding literal_of decimal_literal
  literal_of-Narrowest = elim (Bool-cases (leb (length str) 9)) [
    | inl e ↦
        let (read, bound) = fast_digits-value 9 str 0 d (ground arith) (omega arith) in
        rw (digits-not-hex str d, read)
          (record {
            short = λ h. (refl, refl);
            long = λ h k. absurd (omega arith);
            huge = λ h. absurd (omega arith);
          })
    | inr e ↦
        let more = fast_digits-more 9 str 0 d (ground arith) in
        rw (digits-not-hex str d, more) long_literal-Narrowest
  ]
