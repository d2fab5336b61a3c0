-- ===== src/Lexer/Token/Moves.antt =====
-- The steps of lex_get_basic_token and of the escapes (mario/lex/mario_lex.c) on the read head: where each
-- leaves it, and how much of the text is left.
use mario_js.Prelude.{
  ℕ, zero, suc, ◌+◌, ◌-◌, ◌*◌, ◌%◌, ◌≤◌, ◌<◌, ◌≡◌, ◌≢◌, refl, ap, sym, ◌∙◌, Bool, true, false, not,
  ◌&&◌, Bool-cases, inl, inr, List, [], ◌∷◌, ◌++◌, length, get_or, drop, ltb, ◌==◌, if◌then◌else◌,
  Option, some, Option-cases, arith, length-drop, u32,
}
use mario_js.Lexer.{Lex, lex_get_nextch, add_char, run, remaining}
use mario_js.Lexer.Head.{
  IsAligned, lex_get_nextch-IsAligned, advance_span-IsAligned, byte_before_end_lem,
}
use mario_js.Lexer.Space.Wide.{looks_at}
use mario_js.Lexer.Escape.{
  lex_hexval, add_codepoint, brace_loop, digit_loop, clamp_codepoint, end_u_escape,
  lex_read_u_escape, is_octal, octal_loop, lex_read_escape,
}
use mario_js.Lexer.Token.{append_span, take_run, jump_span}

-- The bytes from the read head on.
abbrev pub left_of : Lex → ℕ
left_of lex = length (remaining lex)

-- The second state has an aligned read head, no further back than the first one's.
pub record Moves (lex lex' : Lex) : Type 0 where
  pub head : IsAligned lex'
  pub within : left_of lex' ≤ left_of lex

-- A step that may run out of rounds did not.
abbrev pub Ends : Lex → Option Lex → Type 0
Ends lex o = (lex' : Lex) × (o ≡ some lex') × Moves lex lex'

pub Moves-trans : {a b c : Lex} → Moves a b → Moves b c → Moves a c
Moves-trans v w =
    let p = v.within in let q = w.within in record { head = w.head; within = omega arith }

pub Moves-refl : (lex : Lex) → IsAligned lex → Moves lex lex
Moves-refl lex h = record { head = h; within = omega arith }

pub lex_get_nextch-Moves : (lex : Lex) → IsAligned lex → Moves lex (lex_get_nextch lex)
lex_get_nextch-Moves lex h =
    let (a, e) = lex_get_nextch-IsAligned lex h in
    record { head = a; within = omega (arith, ap length e, length-drop 1 (remaining lex)) }

length-pos : (r : List ℕ) → get_or r 0 0 ≢ 0 → 0 < length r
length-pos [] h = absurd (h refl)
length-pos (c ∷ r) h = omega arith

-- A character other than NUL is there to be taken.
pub left-pos : (lex : Lex) → IsAligned lex → lex.curr_ch ≢ 0 → 0 < left_of lex
left-pos lex h ne = let (c, w) = looks_at lex h in length-pos (remaining lex) λ z. ne (c ∙ z)

pub lex_get_nextch-shrinks :
    (lex : Lex) → IsAligned lex → lex.curr_ch ≢ 0 → left_of (lex_get_nextch lex) < left_of lex
lex_get_nextch-shrinks lex h ne =
    let (a, e) = lex_get_nextch-IsAligned lex h in
    let there = left-pos lex h ne in
    omega (arith, ap length e, length-drop 1 (remaining lex), there)

pub jump_span-Moves : (lex : Lex) (n : ℕ) → IsAligned lex → Moves lex (jump_span lex n)
unfolding jump_span
jump_span-Moves lex n h =
    let s = h.started in
    let ahead = lex.data_pos + n in
    record {
      head = record {
        started = omega arith;
        curr = refl;
        next = byte_before_end_lem lex (ahead - 1);
      };
      within = omega (
        arith,
        length-drop (lex.data_pos - 2) lex.data_bytes,
        length-drop (ahead - 2) lex.data_bytes,
      );
    }

pub jump_span-left :
    (lex : Lex) (n : ℕ) → IsAligned lex → left_of (jump_span lex n) ≡ left_of lex - n
unfolding jump_span
jump_span-left lex n h =
    let s = h.started in
    omega (
      arith,
      length-drop (lex.data_pos - 2) lex.data_bytes,
      length-drop (lex.data_pos + n - 2) lex.data_bytes,
    )

append_span-IsAligned : (lex : Lex) (n : ℕ) → IsAligned lex → IsAligned (append_span lex n)
unfolding append_span
append_span-IsAligned lex n h = record { started = h.started; curr = h.curr; next = h.next }

append_span-remaining : (lex : Lex) (n : ℕ) → remaining (append_span lex n) ≡ remaining lex
unfolding append_span
append_span-remaining lex n = refl

-- A run takes its bytes from the text.
pub take_run-Moves :
    (p : ℕ → Bool) (lex : Lex)
    → IsAligned lex
    → Moves lex (take_run p lex)
      × (remaining (take_run p lex) ≡ drop (run p (remaining lex)) (remaining lex))
unfolding take_run
take_run-Moves p lex h =
    let span = run p (remaining lex) in
    let (a, e) =
      advance_span-IsAligned (append_span lex span) span (append_span-IsAligned lex span h) in
    let rest = e ∙ ap (drop span) (append_span-remaining lex span) in
    (
      record { head = a; within = omega (arith, ap length rest, length-drop span (remaining lex)) },
      rest,
    )

-- A run of at least one byte.
pub run-pos : (p : ℕ → Bool) (r : List ℕ) → p 0 ≡ false → p (get_or r 0 0) ≡ true → 0 < run p r
unfolding run
run-pos p [] z h = cc
run-pos p (c ∷ r) z h = rw h (omega arith)

pub take_run-shrinks :
    (p : ℕ → Bool) (lex : Lex)
    → IsAligned lex
    → p 0 ≡ false
    → p lex.curr_ch ≡ true
    → left_of (take_run p lex) < left_of lex
take_run-shrinks p lex h z first =
    let (c, w) = looks_at lex h in
    let (m, rest) = take_run-Moves p lex h in
    let some_byte = run-pos p (remaining lex) z (ap p (sym c) ∙ first) in
    let there = left-pos lex h (λ e. nonzero p lex.curr_ch z first e) in
    omega
      (arith, ap length rest, length-drop (run p (remaining lex)) (remaining lex), some_byte, there)
  where
    nonzero : (q : ℕ → Bool) (n : ℕ) → q 0 ≡ false → q n ≡ true → n ≡ 0 → ⊥
    nonzero q n a b e = cc

add_codepoint-Moves : (cp : ℕ) {lex lex' : Lex} → Moves lex lex' → Moves lex (add_codepoint cp lex')
add_codepoint-Moves cp m =
    let h = m.head in
    record {
      head = record { started = h.started; curr = h.curr; next = h.next };
      within = m.within;
    }

hexval_nonzero : (c v : ℕ) → lex_hexval c ≡ some v → c ≢ 0
unfolding lex_hexval
hexval_nonzero c v h e = ground arith

brace_loop-Ends :
    (rounds cp : ℕ) (lex : Lex)
    → IsAligned lex
    → left_of lex < rounds
    → (v : ℕ) × (lex' : Lex) × (brace_loop rounds cp lex ≡ some (v, lex')) × Moves lex lex'
unfolding brace_loop
brace_loop-Ends zero cp lex h lt = absurd (omega arith)
brace_loop-Ends (suc rounds) cp lex h lt = elim (Option-cases (lex_hexval lex.curr_ch)) [
  | inl e ↦ (cp, lex, rw (e, brace_loop) refl, Moves-refl lex h)
  | inr (v, e) ↦
      let less = lex_get_nextch-shrinks lex h (hexval_nonzero lex.curr_ch v e) in
      let m = lex_get_nextch-Moves lex h in
      let (w, last, runs, n) =
        brace_loop-Ends rounds ((cp * 16 + v) % u32) (lex_get_nextch lex) m.head
          (omega (arith, less)) in
      (w, last, rw (e, brace_loop) runs, Moves-trans m n)
]

digit_loop-Moves : (left cp : ℕ) (lex : Lex) → IsAligned lex → Moves lex (digit_loop left cp lex).1
unfolding digit_loop
digit_loop-Moves zero cp lex h = Moves-refl lex h
digit_loop-Moves (suc left) cp lex h =
    let m = lex_get_nextch-Moves lex h in
    elim (Option-cases (lex_hexval lex.curr_ch)) [
      | inl e ↦ rw (e, digit_loop) (Moves-refl lex h)
      | inr (v, e) ↦
          let n = digit_loop-Moves left ((cp * 16 + v) % u32) (lex_get_nextch lex) m.head in
          rw (e, digit_loop)
            (elim (Bool-cases (left == 0)) [
              | inl z ↦ rw z (Moves-refl lex h)
              | inr z ↦ rw z (Moves-trans m n)
            ])
    ]

-- A choice moves where both of its sides do.
pub Moves-if :
    {lex : Lex} (b : Bool) (x y : Lex) → Moves lex x → Moves lex y → Moves lex (if b then x else y)
Moves-if true x y m n = m
Moves-if false x y m n = n

end_u_escape-Moves : (cp : ℕ) (lex : Lex) → IsAligned lex → Moves lex (end_u_escape cp lex)
unfolding end_u_escape
end_u_escape-Moves cp lex h =
    let slash = lex_get_nextch lex in
    let u = lex_get_nextch slash in
    let a = lex_get_nextch-Moves lex h in
    let b = lex_get_nextch-Moves slash a.head in
    let c = lex_get_nextch-Moves u b.head in
    let d = digit_loop-Moves 4 0 (lex_get_nextch u) c.head in
    Moves-if _ _ _ (add_codepoint-Moves _ (Moves-trans a (Moves-trans b (Moves-trans c d))))
      (add_codepoint-Moves cp (Moves-refl lex h))

left-lt : (lex : Lex) → left_of lex < length lex.data_bytes + 1
left-lt lex = omega (arith, length-drop (lex.data_pos - 2) lex.data_bytes)

pub lex_read_u_escape-Ends : (lex : Lex) → IsAligned lex → Ends lex (lex_read_u_escape lex)
unfolding lex_read_u_escape lex_get_nextch
lex_read_u_escape-Ends lex h =
    let first = lex_get_nextch lex in
    let a = lex_get_nextch-Moves lex h in
    let b = lex_get_nextch-Moves first a.head in
    elim (Bool-cases (first.curr_ch == b'{')) [
      | inl e ↦
          let (v, last, runs, m) =
            brace_loop-Ends (length lex.data_bytes + 1) 0 (lex_get_nextch first) b.head
              (left-lt (lex_get_nextch first)) in
          rw (e, runs)
            (
              add_codepoint (clamp_codepoint v) last,
              refl,
              add_codepoint-Moves (clamp_codepoint v) (Moves-trans a (Moves-trans b m)),
            )
      | inr e ↦
          let d = digit_loop-Moves 4 0 first a.head in
          let (cp, last, missing) = digit_loop 4 0 first in
          rw e (
            end_u_escape cp last,
            refl,
            Moves-trans a (Moves-trans d (end_u_escape-Moves cp last d.head)),
          )
    ]

octal_loop-Moves : (left v : ℕ) (lex : Lex) → IsAligned lex → Moves lex (octal_loop left v lex).1
unfolding octal_loop
octal_loop-Moves zero v lex h = Moves-refl lex h
octal_loop-Moves (suc left) v lex h =
    let m = lex_get_nextch-Moves lex h in
    let n = octal_loop-Moves left (v * 8 + (lex.curr_ch - b'0')) (lex_get_nextch lex) m.head in
    let read = v * 8 + (lex.curr_ch - b'0') in
    let more = octal_loop left read (lex_get_nextch lex) in
    let go_on = ltb 0 left && is_octal lex.next_ch in
    let here = Moves-refl lex h in
    let inner = snd_if go_on more (read, lex) (Moves-trans m n) here in
    snd_if (not (is_octal lex.curr_ch)) (v, lex) (if go_on then more else (read, lex)) here inner
  where
    snd_if :
        {l : Lex} (b : Bool) (x y : ℕ × Lex)
        → Moves l x.1
        → Moves l y.1
        → Moves l (if b then x else y).1
    snd_if true x y p q = p
    snd_if false x y p q = q

-- A byte appended to the token's text leaves the head alone.
pub text-Moves :
    {lex lex' : Lex} (str : List ℕ) → Moves lex lex' → Moves lex (record lex' { tk_str = str })
text-Moves str m =
    let h = m.head in
    record {
      head = record { started = h.started; curr = h.curr; next = h.next };
      within = m.within;
    }

pub Ends-if :
    {lex : Lex} (b : Bool) (x y : Option Lex)
    → Ends lex x
    → Ends lex y
    → Ends lex (if b then x else y)
Ends-if true x y m n = m
Ends-if false x y m n = n

pub some-Ends : {lex lex' : Lex} → Moves lex lex' → Ends lex (some lex')
some-Ends {lex' = lex'} m = (lex', refl, m)

pub lex_read_escape-Ends : (lex : Lex) → IsAligned lex → Ends lex (lex_read_escape lex)
unfolding lex_read_escape
lex_read_escape-Ends lex h =
    let here = Moves-refl lex h in
    let m = lex_get_nextch-Moves lex h in
    let hex = Moves-trans m (digit_loop-Moves 2 0 (lex_get_nextch lex) m.head) in
    let octal = octal_loop-Moves 3 0 lex h in
    let added = λ (b : ℕ). some-Ends (text-Moves (lex.tk_str ++ (b ∷ [])) here) in
    let c = lex.curr_ch in
    let (v, hex_end, missing) = digit_loop 2 0 (lex_get_nextch lex) in
    let (o, octal_end) = octal_loop 3 0 lex in
    let behind_feed = if lex.next_ch == 10 then lex_get_nextch lex else lex in
    let feed = some-Ends (Moves-if (lex.next_ch == 10) (lex_get_nextch lex) lex m here) in
    let newline =
      Ends-if (c == 10) (some lex) _ (some-Ends here)
        (Ends-if (c == 13) (some behind_feed) _ feed (added c)) in
    let digits =
      Ends-if (c == b'x') (some (add_codepoint v hex_end)) _ (some-Ends (add_codepoint-Moves v hex))
        (Ends-if (is_octal c) (some (add_codepoint o octal_end)) _
          (some-Ends (add_codepoint-Moves o octal)) newline) in
    let unicode =
      Ends-if (c == b'u') (lex_read_u_escape lex) _ (lex_read_u_escape-Ends lex h) digits in
    let at_t = Ends-if (c == b't') (some (add_char lex 9)) _ (added 9) unicode in
    let at_r = Ends-if (c == b'r') (some (add_char lex 13)) _ (added 13) at_t in
    let at_n = Ends-if (c == b'n') (some (add_char lex 10)) _ (added 10) at_r in
    let at_v = Ends-if (c == b'v') (some (add_char lex 11)) _ (added 11) at_n in
    let at_f = Ends-if (c == b'f') (some (add_char lex 12)) _ (added 12) at_v in
    let at_b = Ends-if (c == b'b') (some (add_char lex 8)) _ (added 8) at_f in at_b
