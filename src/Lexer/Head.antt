-- ===== src/Lexer/Head.antt =====
-- The read head of mario/lex/mario_lex.c: `curr_ch == data[data_pos - 2]` and the byte after it.
use mario_js.Prelude.{
  ℕ, zero, suc, ◌+◌, ◌-◌, ◌≤◌, ◌≡◌, refl, ap, sym, ◌∙◌, Bool-cases, inl, inr, List, [], ◌∷◌, length,
  get_or, drop, ◌==◌, arith,
}
use mario_js.Lexer.{
  Lex, byte_at, byte_before_end, lex_get_nextch, lex_init, remaining, advance_span,
}

-- The two characters are those at the read head; past the end of the text they are NULs.
pub record IsAligned (lex : Lex) : Type 0 where
  pub started : 2 ≤ lex.data_pos
  pub curr : lex.curr_ch ≡ byte_at lex (lex.data_pos - 2)
  pub next : lex.next_ch ≡ byte_at lex (lex.data_pos - 1)

pub get_or-past : (xs : List ℕ) (i : ℕ) → length xs ≤ i → get_or xs i 0 ≡ 0
get_or-past [] i h = refl
get_or-past (x ∷ xs) zero h = absurd (omega arith)
get_or-past (x ∷ xs) (suc i) h = get_or-past xs i (omega arith)

pub byte_before_end_lem : (lex : Lex) (i : ℕ) → byte_before_end lex i ≡ byte_at lex i
byte_before_end_lem lex i = ground (arith, get_or-past lex.data_bytes i)

pub drop-suc : (i : ℕ) (xs : List ℕ) → drop (suc i) xs ≡ drop 1 (drop i xs)
drop-suc zero xs = refl
drop-suc (suc i) [] = refl
drop-suc (suc i) (x ∷ xs) = drop-suc i xs

pub drop-add : (i j : ℕ) (xs : List ℕ) → drop (i + j) xs ≡ drop j (drop i xs)
drop-add zero j xs = ap (λ t. drop t xs) {x = zero + j} (omega arith)
drop-add (suc i) j [] =
    ap (λ t. drop t []) {x = suc i + j} {y = suc (i + j)} (omega arith) ∙ sym (drop_nil j)
  where
    drop_nil : (n : ℕ) → drop {A = ℕ} n [] ≡ []
    drop_nil zero = refl
    drop_nil (suc n) = refl
drop-add (suc i) j (x ∷ xs) =
    ap (λ t. drop t (x ∷ xs)) {x = suc i + j} {y = suc (i + j)} (omega arith) ∙ drop-add i j xs

-- lex_get_nextch keeps the read head aligned, and takes one byte.
pub lex_get_nextch-IsAligned :
    (lex : Lex)
    → IsAligned lex
    → IsAligned (lex_get_nextch lex) × (remaining (lex_get_nextch lex) ≡ drop 1 (remaining lex))
unfolding lex_get_nextch
lex_get_nextch-IsAligned lex h =
    let s = h.started in
    (
      record {
        started = omega arith;
        curr = h.next ∙ ap (λ t. byte_at lex t) {x = lex.data_pos - 1} (omega arith);
        next =
            byte_before_end_lem lex lex.data_pos
            ∙ ap (λ t. byte_at lex t) {x = lex.data_pos} (omega arith);
      },
      ap (λ t. drop t lex.data_bytes) {y = suc (lex.data_pos - 2)} (omega arith)
          ∙ drop-suc (lex.data_pos - 2) lex.data_bytes,
    )

-- lex_init gives an aligned read head with the whole text ahead.
pub lex_init-IsAligned :
    (input : List ℕ) → IsAligned (lex_init input) × (remaining (lex_init input) ≡ input)
unfolding lex_init
lex_init-IsAligned input =
    let l = lex_init input in
    (
      record {
        started = omega arith;
        curr = byte_before_end_lem l 0;
        next = byte_before_end_lem l 1;
      },
      refl,
    )

pub advance_span-IsAligned :
    (lex : Lex) (n : ℕ)
    → IsAligned lex
    → IsAligned (advance_span lex n) × (remaining (advance_span lex n) ≡ drop n (remaining lex))
unfolding advance_span
advance_span-IsAligned lex n h =
    let s = h.started in
    elim (Bool-cases (n == 0)) [
      | inl e ↦ rw e (h, ap (λ t. drop t (remaining lex)) {x = 0} (ground arith))
      | inr e ↦ rw e (
        record {
          started = omega arith;
          curr = refl;
          next = byte_before_end_lem lex (lex.data_pos + n - 1);
        },
        ap (λ t. drop t lex.data_bytes) {x = lex.data_pos + n - 2} {y = lex.data_pos - 2 + n}
              (omega arith)
            ∙ drop-add (lex.data_pos - 2) n lex.data_bytes,
      )
    ]
