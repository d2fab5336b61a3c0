-- ===== src/Lexer/Token/Taken.antt =====
-- What a branch of lex_get_basic_token (mario/lex/mario_lex.c) takes from the text.
use mario_js.Prelude.{
  ℕ, ◌-◌, ◌<◌, ◌≡◌, ◌≢◌, refl, ap, sym, ◌∙◌, Bool, true, false, ◌&&◌, List, [], ◌∷◌, get_or, ◌==◌,
  Option, some, arith, length-drop,
}
use mathlib.Core.Option
use mario_js.Lexer.{Lex, lex_get_nextch, add_char, is_id_cont, run, remaining, advance_span}
use mario_js.Lexer.Head.{IsAligned}
use mario_js.Lexer.Space.Wide.{looks_at}
use mario_js.Lexer.Token.{append_span, take_run, set_tk, all_rounds}
use mario_js.Lexer.Token.Moves.{left_of, Moves, Ends, Moves-trans, lex_get_nextch-shrinks}

pub tk-Moves : {lex lex' : Lex} (tk : ℕ) → Moves lex lex' → Moves lex (set_tk tk lex')
tk-Moves tk m =
    let h = m.head in
    record {
      head = record { started = h.started; curr = h.curr; next = h.next };
      within = m.within;
    }

pub tk-IsAligned : (tk : ℕ) (lex : Lex) → IsAligned lex → IsAligned (set_tk tk lex)
tk-IsAligned tk lex h = record { started = h.started; curr = h.curr; next = h.next }

pub char-IsAligned : (c : ℕ) (lex : Lex) → IsAligned lex → IsAligned (add_char lex c)
char-IsAligned c lex h = record { started = h.started; curr = h.curr; next = h.next }

pub then-Ends : {a b : Lex} {o : Option Lex} → Moves a b → Ends b o → Ends a o
then-Ends m (l, e, n) = (l, e, Moves-trans m n)

pub rounds-enough : (lex : Lex) → left_of lex < all_rounds lex
rounds-enough lex = omega (arith, length-drop (lex.data_pos - 2) lex.data_bytes)

pub not_nul : (c d : ℕ) → c == d ≡ true → 0 < d → c ≢ 0
not_nul c d e p z = ground (arith, e, p, z)

pub id_cont_nul : is_id_cont 0 ≡ false
unfolding is_id_cont
id_cont_nul = refl

-- The escape that a name goes on with.
abbrev pub escapes : Lex → Bool
escapes l = l.curr_ch == b'\\' && l.next_ch == b'u'

pub and-left : (a b : Bool) → a && b ≡ true → a ≡ true
and-left a b h = ground (arith, h)

-- A branch ends behind at least one byte of the text.
abbrev pub Takes : Lex → Option Lex → Type 0
Takes lex o = (lex' : Lex) × (o ≡ some lex') × IsAligned lex' × (left_of lex' < left_of lex)

pub shrunk : (a b : Lex) {o : Option Lex} → left_of b < left_of a → Ends b o → Takes a o
shrunk a b less (l, e, m) = let within = m.within in (l, e, m.head, omega arith)

run_zero : (p : ℕ → Bool) (r : List ℕ) → p (get_or r 0 0) ≡ false → run p r ≡ 0
unfolding run
run_zero p [] h = refl
run_zero p (c ∷ r) h = rw h refl

-- Where the current character does not pass the test, a run leaves the head and the token's kind.
pub record Stays (l lex : Lex) : Type 0 where
  pub curr : l.curr_ch ≡ lex.curr_ch
  pub next : l.next_ch ≡ lex.next_ch
  pub kind : l.tk ≡ lex.tk
  pub left : left_of l ≡ left_of lex

pub take_run-Stays :
    (p : ℕ → Bool) (lex : Lex) → IsAligned lex → p lex.curr_ch ≡ false → Stays (take_run p lex) lex
unfolding take_run append_span advance_span
take_run-Stays p lex h e =
    let (c, w) = looks_at lex h in
    let z = run_zero p (remaining lex) (ap p (sym c) ∙ e) in
    rw z (record { curr = refl; next = refl; kind = refl; left = refl })

pub map_tk-Ends :
    (tk : ℕ) {lex : Lex} {o : Option Lex} → Ends lex o → Ends lex (Option.map (set_tk tk) o)
map_tk-Ends tk (l, e, m) = rw e (set_tk tk l, refl, tk-Moves tk m)

pub map_tk-Takes :
    (tk : ℕ) (lex : Lex) {o : Option Lex} → Takes lex o → Takes lex (Option.map (set_tk tk) o)
map_tk-Takes tk lex (l, e, h, less) = rw e (set_tk tk l, refl, tk-IsAligned tk l h, less)

-- A character that goes to the token's text, or in place of it, is taken.
pub taken :
    (lex l : Lex)
    → IsAligned l
    → left_of l ≡ left_of lex
    → l.curr_ch ≢ 0
    → left_of (lex_get_nextch l) < left_of lex
taken lex l h e ne = let less = lex_get_nextch-shrinks l h ne in omega arith
