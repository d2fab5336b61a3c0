-- ===== src/Lexer/Comment/Search.antt =====
-- The search for a byte (memchr) that the comments of mario/lex/mario_lex.c use, and the states that they
-- jump to.
use mario_js.Prelude.{
  ℕ, zero, suc, ◌+◌, ◌-◌, ◌<◌, ◌≡◌, ◌≢◌, refl, ap, sym, ◌∙◌, true, false, Bool-cases, inl, inr,
  List, [], ◌∷◌, length, get_or, drop, ◌==◌, if◌then◌else◌, Option, none, some, arith,
}
use mathlib.Core.Option
use mario_js.Lexer.{Lex, byte_at, remaining}
use mario_js.Lexer.Head.{IsAligned, byte_before_end_lem, get_or-past, drop-add}
use mario_js.Lexer.Space.Wide.{get_or-drop}
use mario_js.Lexer.Comment.{index_of, at_source_end, to_newline, to_close}

-- Where a search for a byte ends: at the first occurrence, or nowhere when there is none.
abbrev pub Finds : ℕ → List ℕ → Option ℕ → Type 0
Finds b xs none = (j : ℕ) → j < length xs → get_or xs j 0 ≢ b
Finds b xs (some n) = (n < length xs) × (get_or xs n 0 ≡ b) × ((j : ℕ) → j < n → get_or xs j 0 ≢ b)

shift-Finds :
    (b c : ℕ) (cs : List ℕ) (o : Option ℕ)
    → c ≢ b
    → Finds b cs o
    → Finds b (c ∷ cs) (Option.map suc o)
shift-Finds b c cs none ne h = nowhere
  where
    nowhere : (j : ℕ) → j < suc (length cs) → get_or (c ∷ cs) j 0 ≢ b
    nowhere zero lt = ne
    nowhere (suc j) lt = h j (omega arith)
shift-Finds b c cs (some n) ne (lt, at, before) = (omega arith, at, earlier)
  where
    earlier : (j : ℕ) → j < suc n → get_or (c ∷ cs) j 0 ≢ b
    earlier zero p = ne
    earlier (suc j) p = before j (omega arith)

pub index_of-Finds : (b : ℕ) (xs : List ℕ) → Finds b xs (index_of b xs)
unfolding index_of
index_of-Finds b [] = λ j lt. absurd (omega arith)
index_of-Finds b (c ∷ cs) = elim (Bool-cases (c == b)) [
  | inl e ↦ rw e (omega arith, ground arith, λ j p. absurd (omega arith))
  | inr e ↦ rw e (shift-Finds b c cs (index_of b cs) (ground arith) (index_of-Finds b cs))
]

-- The text from the first newline on.
unfoldable pub from_newline : List ℕ → List ℕ
from_newline [] = []
from_newline (c ∷ cs) = let more = from_newline cs in if c == 10 then c ∷ cs else more

pub from_newline-some : (xs : List ℕ) (n : ℕ) → Finds 10 xs (some n) → from_newline xs ≡ drop n xs
unfolding from_newline
from_newline-some [] n (lt, at, before) = absurd (omega arith)
from_newline-some (c ∷ cs) zero (lt, at, before) =
    let e : c == 10 ≡ true = ground arith in rw e refl
from_newline-some (c ∷ cs) (suc n) (lt, at, before) =
    let first = before 0 (omega arith) in
    let e : c == 10 ≡ false = ground arith in
    rw e (from_newline-some cs n (omega arith, at, λ j p. before (suc j) (omega arith)))

pub from_newline-none : (xs : List ℕ) → Finds 10 xs none → from_newline xs ≡ []
unfolding from_newline
from_newline-none [] h = refl
from_newline-none (c ∷ cs) h =
    let first = h 0 (omega arith) in
    let e : c == 10 ≡ false = ground arith in
    rw e (from_newline-none cs λ j p. h (suc j) (omega arith))

drop-length : (xs : List ℕ) → drop (length xs) xs ≡ []
drop-length [] = refl
drop-length (x ∷ xs) = drop-length xs

pub at_source_end-IsAligned :
    (lex : Lex) → IsAligned (at_source_end lex) × (remaining (at_source_end lex) ≡ [])
unfolding at_source_end
at_source_end-IsAligned lex =
    let past = get_or-past lex.data_bytes in
    (
      record {
        started = omega arith;
        curr = sym (past (length lex.data_bytes + 2 - 2) (omega arith));
        next = sym (past (length lex.data_bytes + 2 - 1) (omega arith));
      },
      ap (λ t. drop t lex.data_bytes) {y = length lex.data_bytes} (omega arith)
          ∙ drop-length lex.data_bytes,
    )

pub to_newline-IsAligned :
    (lex : Lex) (o : Option ℕ)
    → IsAligned lex
    → Finds 10 (remaining lex) o
    → IsAligned (to_newline o lex) × (remaining (to_newline o lex) ≡ from_newline (remaining lex))
unfolding to_newline
to_newline-IsAligned lex none h f =
    let (a, e) = at_source_end-IsAligned lex in (a, e ∙ sym (from_newline-none (remaining lex) f))
to_newline-IsAligned lex (some n) h f =
    let (lt, at, before) = f in
    let li = lex.data_pos - 2 + n in
    let here = get_or-drop (lex.data_pos - 2) n lex.data_bytes in
    (
      record {
        started = omega arith;
        curr = sym at ∙ here ∙ ap (byte_at lex) {x = li} {y = li + 2 - 2} (omega arith);
        next =
            byte_before_end_lem lex (li + 1)
            ∙ ap (byte_at lex) {x = li + 1} {y = li + 2 - 1} (omega arith);
      },
      ap (λ t. drop t lex.data_bytes) {x = li + 2 - 2} {y = li} (omega arith)
          ∙ drop-add (lex.data_pos - 2) n lex.data_bytes
          ∙ sym (from_newline-some (remaining lex) n f),
    )

pub to_close-IsAligned :
    (lex : Lex) (bi : ℕ)
    → IsAligned (to_close (some bi) lex)
      × (remaining (to_close (some bi) lex) ≡ drop bi lex.data_bytes)
unfolding to_close
to_close-IsAligned lex bi = (
  record {
    started = omega arith;
    curr = ap (byte_at lex) {x = bi} {y = bi + 2 - 2} (omega arith);
    next = ap (byte_at lex) {x = bi + 1} {y = bi + 2 - 1} (omega arith);
  },
  ap (λ t. drop t lex.data_bytes) {x = bi + 2 - 2} {y = bi} (omega arith),
)
