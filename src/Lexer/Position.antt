-- ===== src/Lexer/Position.antt =====
-- lex_get_pos (mario/lex/mario_lex.c): the line and the column of a position in the source.
use mario_js.Prelude.{
  ℕ, zero, suc, ◌+◌, ◌≤◌, ◌<◌, ◌≡◌, ◌≢◌, ap, ◌∙◌, false, ◌==◌, if◌then◌else◌, arith,
}
use mario_js.Prelude.Int.{ℤ, pos, pos_part, neg_part}
use mario_js.Lexer.{Lex, byte_before_end}

-- The loop over `i`, for the bytes that are left: the line and the column.
unfoldable pub pos_loop : ℕ → Lex → ℕ → ℕ → ℕ → ℕ × ℕ
pos_loop zero lex i line col = (line, col)
pos_loop (suc left) lex i line col =
    let newline = byte_before_end lex i == 10 in
    pos_loop left lex (i + 1) (if newline then line + 1 else line) (if newline then 1 else col + 1)

unfoldable pub lex_get_pos : Lex → ℤ → ℕ × ℕ
unfolding pos_loop
lex_get_pos lex p = pos_loop (pos_part (if neg_part p == 0 then p else lex.tk_last_end)) lex 0 1 1

pos_loop-append :
    (m n : ℕ) (lex : Lex) (i line col : ℕ)
    → pos_loop (m + n) lex i line col
      ≡ pos_loop n lex (i + m) (pos_loop m lex i line col).0 (pos_loop m lex i line col).1
unfolding pos_loop
pos_loop-append zero n lex i line col =
    ap (λ t. pos_loop t lex i line col) {x = zero + n} {y = n} (omega arith)
    ∙ ap (λ t. pos_loop n lex t line col) {x = i} {y = i + zero} (omega arith)
pos_loop-append (suc m) n lex i line col =
    let newline = byte_before_end lex i == 10 in
    let line' = if newline then line + 1 else line in
    let col' = if newline then 1 else col + 1 in
    ap (λ t. pos_loop t lex i line col) {x = suc m + n} {y = suc (m + n)} (omega arith)
    ∙ pos_loop-append m n lex (i + 1) line' col'
    ∙ ap
        (λ t.
          pos_loop n lex t (pos_loop m lex (i + 1) line' col').0
            (pos_loop m lex (i + 1) line' col').1)
        {x = i + 1 + m} {y = i + suc m} (omega arith)

not_newline : (c : ℕ) → c ≢ 10 → c == 10 ≡ false
not_newline c ne = ground (arith, ne)

same_line :
    (n : ℕ) (lex : Lex) (i line col : ℕ)
    → ((j : ℕ) → i ≤ j → j < i + n → byte_before_end lex j ≢ 10)
    → pos_loop n lex i line col ≡ (line, col + n)
unfolding pos_loop
same_line zero lex i line col h = ap (λ t. (line, t)) {x = col} {y = col + zero} (omega arith)
same_line (suc n) lex i line col h =
    let here = h i (omega arith) (omega arith) in
    let e = not_newline (byte_before_end lex i) here in
    rw e (
      same_line n lex (i + 1) line (col + 1) (λ j a b. h j (omega arith) (omega arith))
      ∙ ap (λ t. (line, t)) {x = col + 1 + n} {y = col + suc n} (omega arith))

next_line :
    (n : ℕ) (lex : Lex) (i line col : ℕ)
    → byte_before_end lex i ≡ 10
    → ((j : ℕ) → i < j → j < i + 1 + n → byte_before_end lex j ≢ 10)
    → pos_loop (suc n) lex i line col ≡ (line + 1, n + 1)
unfolding pos_loop
next_line n lex i line col nl h = rw nl (
    same_line n lex (i + 1) (line + 1) 1 (λ j a b. h j (omega arith) (omega arith))
    ∙ ap (λ t. (line + 1, t)) {x = 1 + n} {y = n + 1} (omega arith))

-- lex_get_pos counts lines and columns from 1: with no newline among the first `n` bytes the position `n` is
-- on line 1 in column n + 1; with a newline at `start` and none in the `n` bytes behind it, the position
-- behind these is on the line after that of `start`, in column n + 1.
pub lex_get_pos-column :
    (lex : Lex) (n : ℕ)
    → (((j : ℕ) → j < n → byte_before_end lex j ≢ 10) → lex_get_pos lex (pos n) ≡ (1, n + 1))
      × ((start : ℕ)
          → byte_before_end lex start ≡ 10
          → ((j : ℕ) → start < j → j < start + 1 + n → byte_before_end lex j ≢ 10)
          → lex_get_pos lex (pos (start + 1 + n)) ≡ ((lex_get_pos lex (pos start)).0 + 1, n + 1))
unfolding lex_get_pos
lex_get_pos-column lex n = (
  λ h.
      same_line n lex 0 1 1 (λ j a b. h j (omega arith))
      ∙ ap (λ t. (1, t)) {x = 1 + n} {y = n + 1} (omega arith),
  λ start nl h.
      let before = pos_loop start lex 0 1 1 in
      ap (λ t. pos_loop t lex 0 1 1) {x = start + 1 + n} {y = start + suc n} (omega arith)
      ∙ pos_loop-append start (suc n) lex 0 1 1
      ∙ ap (λ t. pos_loop (suc n) lex t before.0 before.1) {x = 0 + start} {y = start} (omega arith)
      ∙ next_line n lex start before.0 before.1 nl h,
)
