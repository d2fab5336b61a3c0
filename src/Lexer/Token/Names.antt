-- ===== src/Lexer/Token/Names.antt =====
-- The text of a name (lex_get_basic_token, mario/lex/mario_lex.c).
use mario_js.Prelude.{
  ℕ, suc, ◌≡◌, ◌≢◌, refl, ap, sym, ◌∙◌, Bool, true, false, List, [], ◌∷◌, ◌++◌, length, get_or,
  drop, take, ◌==◌, if◌then◌else◌, some, arith, All,
}
use mario_js.Lexer.{Lex, lex_id, is_id_start, is_id_cont, run, remaining, advance_span}
use mario_js.Lexer.Space.Wide.{looks_at}
use mario_js.Lexer.Escape.Unicode.{At}
use mario_js.Lexer.Token.{
  append_span, take_run, ident_loop, set_tk, all_rounds, name_token, starts_name,
  lex_get_basic_token,
}
use mario_js.Lexer.Token.Moves.{take_run-Moves}

module _ (p : ℕ → Bool) (rest : List ℕ) (stops : p (get_or rest 0 0) ≡ false) where
  run-append : (name : List ℕ) → All (λ c. p c ≡ true) name → run p (name ++ rest) ≡ length name
  unfolding run
  run-append [] h = no_run rest stops
    where
      no_run : (r : List ℕ) → p (get_or r 0 0) ≡ false → run p r ≡ 0
      no_run [] e = refl
      no_run (c ∷ r) e = rw e refl
  run-append (c ∷ name) h = rw h.0 (ap suc (run-append name h.1))

take-append : (xs ys : List ℕ) → take (length xs) (xs ++ ys) ≡ xs
take-append [] ys = refl
take-append (x ∷ xs) ys = ap (λ t. x ∷ t) (take-append xs ys)

drop-append : (xs ys : List ℕ) → drop (length xs) (xs ++ ys) ≡ ys
drop-append [] ys = refl
drop-append (x ∷ xs) ys = drop-append xs ys

take_run-text :
    (p : ℕ → Bool) (lex : Lex)
    → (take_run p lex).tk_str ≡ lex.tk_str ++ take (run p (remaining lex)) (remaining lex)
unfolding take_run append_span advance_span
take_run-text p lex =
    if_text (run p (remaining lex) == 0) (append_span lex (run p (remaining lex))) _ refl
  where
    if_text : (b : Bool) (x y : Lex) → y.tk_str ≡ x.tk_str → (if b then x else y).tk_str ≡ x.tk_str
    if_text true x y e = refl
    if_text false x y e = e

-- A run over a text that begins with bytes that pass the test, and goes on with one that does not.
pub take_run-At :
    (p : ℕ → Bool) (name rest str : List ℕ) (lex : Lex)
    → All (λ c. p c ≡ true) name
    → p (get_or rest 0 0) ≡ false
    → At (name ++ rest) str lex
    → At rest (str ++ name) (take_run p lex)
take_run-At p name rest str lex all stops at =
    let (m, left) = take_run-Moves p lex at.head in
    let span : run p (remaining lex) ≡ length name =
      ap (run p) at.ahead ∙ run-append p rest stops name all in
    record {
      head = m.head;
      ahead =
          left
          ∙ ap (λ t. drop t (remaining lex)) span
          ∙ ap (drop (length name)) at.ahead
          ∙ drop-append name rest;
      so_far =
          take_run-text p lex
          ∙ ap (λ t. lex.tk_str ++ take t (remaining lex)) span
          ∙ ap (λ t. lex.tk_str ++ take (length name) t) at.ahead
          ∙ ap (λ t. lex.tk_str ++ t) (take-append name rest)
          ∙ ap (λ t. t ++ name) at.so_far;
    }

nul_no_start : is_id_start 0 ≡ true → ⊥
unfolding is_id_start
nul_no_start e = cc

ident_loop-plain :
    (rounds : ℕ) (lex : Lex)
    → (take_run is_id_cont lex).curr_ch == b'\\' ≡ false
    → ident_loop (suc rounds) lex ≡ some (take_run is_id_cont lex)
unfolding ident_loop
ident_loop-plain rounds lex e = rw e refl

tk-At : {text str : List ℕ} {lex : Lex} (tk : ℕ) → At text str lex → At text str (set_tk tk lex)
tk-At tk at =
    let h = at.head in
    record {
      head = record { started = h.started; curr = h.curr; next = h.next };
      ahead = at.ahead;
      so_far = at.so_far;
    }

module _ (name rest str : List ℕ) (lex : Lex) (first : is_id_start (get_or name 0 0) ≡ true)
    (all : All (λ c. is_id_cont c ≡ true) name) (stops : is_id_cont (get_or rest 0 0) ≡ false)
    (no_escape : get_or rest 0 0 ≢ b'\\') (at : At (name ++ rest) str lex) where
  name_token-At :
      (lex' : Lex) × (name_token lex ≡ some lex') × At rest (str ++ name) lex' × (lex'.tk ≡ lex_id)
  unfolding name_token
  name_token-At =
      let l = take_run is_id_cont lex in
      let after = take_run-At is_id_cont name rest str lex all stops at in
      let (c, w) = looks_at l after.head in
      let here : l.curr_ch ≡ get_or rest 0 0 = c ∙ ap (λ t. get_or t 0 0) after.ahead in
      let plain = not_slash l.curr_ch (λ z. no_escape (sym here ∙ z)) in
      let runs =
        ap (λ t. ident_loop t lex) {x = all_rounds lex} {y = suc (length lex.data_bytes)}
          (omega arith)
        ∙ ident_loop-plain (length lex.data_bytes) lex plain in
      rw runs (set_tk lex_id l, refl, tk-At lex_id after, refl)
    where
      not_slash : (c : ℕ) → c ≢ b'\\' → c == b'\\' ≡ false
      not_slash c ne = ground (arith, ne)

  -- Ahead of a name, whose first byte may start one and whose others may go on with one, followed by a
  -- byte (or the end) that neither goes on with it nor starts an escape, lex_get_basic_token reads exactly
  -- the name: it is added to the token's text, the kind is LEX_ID, and the head stands behind it.
  pub lex_get_basic_token-name :
      (lex' : Lex) × (lex_get_basic_token lex ≡ some lex')
      × At rest (str ++ name) lex'
      × (lex'.tk ≡ lex_id)
  unfolding lex_get_basic_token starts_name
  lex_get_basic_token-name =
      let (c, w) = looks_at lex at.head in
      let head_name = head-append name rest first in
      let here : is_id_start lex.curr_ch ≡ true =
        ap is_id_start (c ∙ ap (λ t. get_or t 0 0) at.ahead) ∙ head_name in
      rw here name_token-At
    where
      head-append :
          (xs ys : List ℕ)
          → is_id_start (get_or xs 0 0) ≡ true
          → is_id_start (get_or (xs ++ ys) 0 0) ≡ true
      head-append [] ys h = absurd (nul_no_start h)
      head-append (x ∷ xs) ys h = h
