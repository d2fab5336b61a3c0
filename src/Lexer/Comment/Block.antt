-- ===== src/Lexer/Comment/Block.antt =====
-- lex_skip_comments_block (mario/lex/mario_lex.c): where a block comment closes.
use mario_js.Prelude.{
  ℕ, zero, suc, ◌+◌, ◌-◌, ◌≤◌, ◌<◌, ◌≡◌, ◌≢◌, refl, ap, sym, subst, ◌∙◌, Bool, true, false, not,
  ◌||◌, ◌&&◌, Bool-cases, inl, inr, List, [], ◌∷◌, length, get_or, drop, ltb, ◌==◌, Option, none,
  some, Option-cases, arith, length-drop,
}
use mario_js.Lexer.{Lex, lex_get_nextch, remaining}
use mario_js.Lexer.Head.{IsAligned, lex_get_nextch-IsAligned, drop-add}
use mario_js.Lexer.Space.Wide.{get_or-drop, looks_at}
use mario_js.Lexer.Comment.Line.{Leaves, next_at}
use mario_js.Lexer.Comment.{
  index_of, at_source_end, close_search, to_close, behind_block, lex_skip_comments_block,
}
use mario_js.Lexer.Comment.Search.{
  Finds, index_of-Finds, at_source_end-IsAligned, to_close-IsAligned,
}

-- The two bytes that close a block stand at an index.
abbrev pub ClosesAt : ℕ → ℕ → List ℕ → ℕ → Type 0
ClosesAt e0 e1 bytes p =
    (suc p < length bytes) × (get_or bytes p 0 ≡ e0) × (get_or bytes (suc p) 0 ≡ e1)

-- Where the search ends: at the first of the indices from `low` on that closes the block, if there is one.
abbrev pub FirstClose : ℕ → ℕ → List ℕ → ℕ → Option ℕ → Type 0
FirstClose e0 e1 bytes low none = (p : ℕ) → low ≤ p → ¬ ClosesAt e0 e1 bytes p
FirstClose e0 e1 bytes low (some p) =
    (low ≤ p) × ClosesAt e0 e1 bytes p × ((q : ℕ) → low ≤ q → q < p → ¬ ClosesAt e0 e1 bytes q)

-- No index closes a block where the second byte is missing.
module _ (e0 e1 : ℕ) (bytes : List ℕ) (bi : ℕ) (started : 1 ≤ bi) where
  missing : Finds e1 (drop bi bytes) none → (p : ℕ) → bi - 1 ≤ p → ¬ ClosesAt e0 e1 bytes p
  missing none_ahead p low (lt, at0, at1) =
      let j = suc p - bi in
      none_ahead j (omega (arith, length-drop bi bytes)) (
        get_or-drop bi j bytes
        ∙ ap (λ t. get_or bytes t 0) {x = bi + j} {y = suc p} (omega arith)
        ∙ at1)

  passed_over :
      (span : ℕ)
      → Finds e1 (drop bi bytes) (some span)
      → (q : ℕ) → bi - 1 ≤ q
      → q < bi + span - 1
      → ¬ ClosesAt e0 e1 bytes q
  passed_over span (lt, at, before) q low high (len, at0, at1) =
      let j = suc q - bi in
      before j (omega arith) (
        get_or-drop bi j bytes
        ∙ ap (λ t. get_or bytes t 0) {x = bi + j} {y = suc q} (omega arith)
        ∙ at1)

  found_at :
      (span : ℕ)
      → Finds e1 (drop bi bytes) (some span)
      → (suc (bi + span - 1) < length bytes) × (get_or bytes (suc (bi + span - 1)) 0 ≡ e1)
  found_at span (lt, at, before) = (
    omega (arith, length-drop bi bytes),
    ap (λ t. get_or bytes t 0) {x = suc (bi + span - 1)} {y = bi + span} (omega arith)
        ∙ sym (get_or-drop bi span bytes)
        ∙ at,
  )

later :
    (e0 e1 : ℕ) (bytes : List ℕ) (low low' : ℕ) (o : Option ℕ)
    → low ≤ low'
    → ((q : ℕ) → low ≤ q → q < low' → ¬ ClosesAt e0 e1 bytes q)
    → FirstClose e0 e1 bytes low' o
    → FirstClose e0 e1 bytes low o
later e0 e1 bytes low low' none le gap h = λ p lp c. elim (Bool-cases (ltb p low')) [
  | inl e ↦ gap p lp (ground arith) c
  | inr e ↦ h p (ground arith) c
]
later e0 e1 bytes low low' (some p) le gap (lp, c, first) = (
  omega arith,
  c,
  λ q lq lt d. elim (Bool-cases (ltb q low')) [
    | inl e ↦ gap q lq (ground arith) d
    | inr e ↦ first q (ground arith) lt d
  ],
)

is_equal : (a b : ℕ) → (a == b) ≡ true → a ≡ b
is_equal a b h = ground arith

different : (a b : ℕ) → (a == b) ≡ false → a ≢ b
different a b h e = ground arith

-- A hit of the second byte without the first one ahead of it closes nothing.
not_last :
    (e0 e1 : ℕ) (bytes : List ℕ) (bi hit : ℕ)
    → (get_or bytes (hit - 1) 0 == e0) ≡ false
    → ((q : ℕ) → bi - 1 ≤ q → q < hit - 1 → ¬ ClosesAt e0 e1 bytes q)
    → (q : ℕ) → bi - 1 ≤ q
    → q < hit + 1 - 1
    → ¬ ClosesAt e0 e1 bytes q
not_last e0 e1 bytes bi hit g over q low high (lt, at0, at1) = elim (Bool-cases (ltb q (hit - 1))) [
  | inl e ↦ over q low (ground arith) (lt, at0, at1)
  | inr e ↦
      let same : q ≡ hit - 1 = ground arith in
      different (get_or bytes (hit - 1) 0) e0 g (ap (λ t. get_or bytes t 0) (sym same) ∙ at0)
]

-- The search ends at the first close from the byte ahead of its start on.
close_search-FirstClose :
    (rounds e0 e1 : ℕ) (bytes : List ℕ) (bi : ℕ)
    → 1 ≤ bi
    → 1 ≤ rounds
    → length bytes < bi + rounds
    → (o : Option ℕ) × (close_search rounds e0 e1 bytes bi ≡ some o)
      × FirstClose e0 e1 bytes (bi - 1) o
unfolding close_search
close_search-FirstClose zero e0 e1 bytes bi started some_round enough = absurd (omega arith)
close_search-FirstClose (suc rounds) e0 e1 bytes bi started some_round enough =
    let finds = index_of-Finds e1 (drop bi bytes) in
    elim (Bool-cases (ltb bi (length bytes))) [
      | inr e ↦ rw e (none, refl, λ p low c. absurd (ground arith))
      | inl e ↦ rw e (elim (Option-cases (index_of e1 (drop bi bytes))) [
        | inl f ↦
            rw f (
              none,
              refl,
              missing e0 e1 bytes bi started (subst (Finds e1 (drop bi bytes)) f finds),
            )
        | inr (span, f) ↦
            let at = subst (Finds e1 (drop bi bytes)) f finds in
            let hit = bi + span in
            let (lt, closes) = found_at e0 e1 bytes bi started span at in
            let over = passed_over e0 e1 bytes bi started span at in
            rw f (elim (Bool-cases (get_or bytes (hit - 1) 0 == e0)) [
              | inl g ↦ rw g (
                some (hit - 1),
                refl,
                (omega arith, (lt, is_equal (get_or bytes (hit - 1) 0) e0 g, closes), over),
              )
              | inr g ↦
                  let gap =
                    λ (q : ℕ) (low : bi - 1 ≤ q) (high : q < hit + 1 - 1)
                        (c : ClosesAt e0 e1 bytes q).
                      not_last e0 e1 bytes bi hit g over q low high c in
                  let some_left : 1 ≤ rounds = ground arith in
                  let (o, ends, first) =
                    close_search-FirstClose rounds e0 e1 bytes (hit + 1) (omega arith) some_left
                      (omega arith) in
                  rw g (o, ends, later e0 e1 bytes (bi - 1) (hit + 1 - 1) o (omega arith) gap first)
            ])
      ])
    ]

-- The text behind a block that closes at an index, or nowhere.
abbrev pub behind_close : List ℕ → Option ℕ → List ℕ
behind_close bytes none = []
behind_close bytes (some p) = drop 2 (drop p bytes)

drop-drop_one : (xs : List ℕ) → drop 1 (drop 1 xs) ≡ drop 2 xs
drop-drop_one [] = refl
drop-drop_one (x ∷ []) = refl
drop-drop_one (x ∷ y ∷ xs) = refl

two_more :
    (lex : Lex)
    → IsAligned lex
    → IsAligned (lex_get_nextch (lex_get_nextch lex))
      × (remaining (lex_get_nextch (lex_get_nextch lex)) ≡ drop 2 (remaining lex))
two_more lex h =
    let (a, e) = lex_get_nextch-IsAligned lex h in
    let (b, f) = lex_get_nextch-IsAligned (lex_get_nextch lex) a in
    (b, f ∙ ap (drop 1) e ∙ drop-drop_one (remaining lex))

behind_block-Leaves :
    (lex : Lex) (o : Option ℕ) → Leaves (behind_close lex.data_bytes o) (behind_block lex o)
unfolding behind_block to_close
behind_block-Leaves lex none =
    let (a, e) = at_source_end-IsAligned lex in
    let (b, f) = two_more (at_source_end lex) a in
    record { skipped = refl; head = b; text = f ∙ ap (drop 2) e }
behind_block-Leaves lex (some bi) =
    let (a, e) = to_close-IsAligned lex bi in
    let (b, f) = two_more (to_close (some bi) lex) a in
    record { skipped = refl; head = b; text = f ∙ ap (drop 2) e }

-- A marker is too short.
abbrev pub no_marker : List ℕ → List ℕ → Bool
no_marker start end =
    get_or start 0 0 == 0 || get_or start 1 0 == 0 || get_or end 0 0 == 0 || get_or end 1 0 == 0

-- The test of the two opening bytes.
abbrev pub matches_both : List ℕ → ℕ → ℕ → Bool
matches_both start c0 c1 = (c0 == get_or start 0 0) && (c1 == get_or start 1 0)

-- The markers have two bytes each and a text begins with the opening one.
abbrev pub opens_block : List ℕ → List ℕ → List ℕ → Bool
opens_block start end r =
    not (no_marker start end) && matches_both start (get_or r 0 0) (get_or r 1 0)

there_both :
    (start : List ℕ) (lex : Lex)
    → lex.curr_ch ≡ get_or (remaining lex) 0 0
    → lex.next_ch ≡ get_or (remaining lex) 1 0
    → matches_both start lex.curr_ch lex.next_ch
      ≡ matches_both start (get_or (remaining lex) 0 0) (get_or (remaining lex) 1 0)
there_both start lex c n = rw (c, n) refl

opened_bytes :
    (start end r : List ℕ)
    → opens_block start end r ≡ true
    → (get_or r 0 0 ≡ get_or start 0 0) × (get_or r 1 0 ≡ get_or start 1 0)
opened_bytes start end r h = (ground arith, ground arith)

first_is_low :
    (e0 e1 : ℕ) (bytes : List ℕ) (low : ℕ) (o : Option ℕ)
    → ClosesAt e0 e1 bytes low
    → FirstClose e0 e1 bytes low o
    → o ≡ some low
first_is_low e0 e1 bytes low none here h = absurd (h low (omega arith) here)
first_is_low e0 e1 bytes low (some p) here (le, c, first) = elim (Bool-cases (ltb low p)) [
  | inl e ↦ absurd (first low (omega arith) (ground arith) here)
  | inr e ↦ ap some (ground arith)
]

module _ (start end : List ℕ) (lex : Lex) (aligned : IsAligned lex) where
  -- From an aligned read head: where the markers have two bytes each and the text ahead begins with the
  -- opening one, lex_skip_comments_block ends, reports a comment and leaves the text behind the first
  -- closing marker from the second byte of the opening one on (which that byte may begin), or the end
  -- of the source where none closes it; where it does not begin with it, nothing changes.
  pub lex_skip_comments_block-Leaves :
      (opens_block start end (remaining lex) ≡ true
        → (o : Option ℕ) × (out : Lex × Bool) × (lex_skip_comments_block start end lex ≡ some out)
          × FirstClose (get_or end 0 0) (get_or end 1 0) lex.data_bytes (lex.data_pos - 1) o
          × Leaves (behind_close lex.data_bytes o) out)
      × (opens_block start end (remaining lex) ≡ false
          → lex_skip_comments_block start end lex ≡ some (lex, false))
  unfolding lex_skip_comments_block
  lex_skip_comments_block-Leaves =
      let s = aligned.started in
      let (c, w) = looks_at lex aligned in
      let seen = there_both start lex c (next_at lex aligned) in
      let (o, ends, first) =
        close_search-FirstClose (length lex.data_bytes + 1) (get_or end 0 0) (get_or end 1 0)
          lex.data_bytes lex.data_pos (omega arith) (omega arith) (omega arith) in
      elim (Bool-cases (no_marker start end)) [
        | inl f ↦ rw f (λ h. absurd (ground arith), λ h. refl)
        | inr f ↦
            rw f
              (elim (Bool-cases
                (matches_both start (get_or (remaining lex) 0 0) (get_or (remaining lex) 1 0))) [
                  | inl g ↦
                      rw (seen ∙ g, g, ends)
                        (
                          λ h. (o, behind_block lex o, refl, first, behind_block-Leaves lex o),
                          λ h. absurd (ground arith),
                        )
                  | inr g ↦ rw (seen ∙ g, g) (λ h. absurd (ground arith), λ h. refl)
                ])
      ]

  -- From an aligned read head ahead of a marker `s0 s1` followed by `e1`, where `e0` is `s1`, the block is
  -- closed by its own opening marker: it ends three bytes on, as the text of `/*/` does.
  pub lex_skip_comments_block-overlap :
      opens_block start end (remaining lex) ≡ true
      → 2 < length (remaining lex)
      → get_or (remaining lex) 2 0 ≡ get_or end 1 0
      → get_or end 0 0 ≡ get_or start 1 0
      → (out : Lex × Bool) × (lex_skip_comments_block start end lex ≡ some out)
        × Leaves (drop 3 (remaining lex)) out
  lex_skip_comments_block-overlap opened long third same =
      let s = aligned.started in
      let bytes = lex.data_bytes in
      let at = λ (j : ℕ). get_or-drop (lex.data_pos - 2) j bytes in
      let (o, out, runs, first, leaves) = lex_skip_comments_block-Leaves.0 opened in
      let (c0, c1) = opened_bytes start end (remaining lex) opened in
      let here : ClosesAt (get_or end 0 0) (get_or end 1 0) bytes (lex.data_pos - 1) = (
        omega (arith, length-drop (lex.data_pos - 2) bytes),
        ap (λ t. get_or bytes t 0) {y = lex.data_pos - 2 + 1} (omega arith)
            ∙ sym (at 1)
            ∙ c1
            ∙ sym same,
        ap (λ t. get_or bytes t 0) {x = suc (lex.data_pos - 1)} {y = lex.data_pos - 2 + 2}
              (omega arith)
            ∙ sym (at 2)
            ∙ third,
      ) in
      let o_here =
        first_is_low (get_or end 0 0) (get_or end 1 0) bytes (lex.data_pos - 1) o here first in
      let rest : behind_close bytes o ≡ drop 3 (remaining lex) =
        ap (behind_close bytes) o_here
        ∙ sym (drop-add (lex.data_pos - 1) 2 bytes)
        ∙ ap (λ t. drop t bytes) {y = lex.data_pos - 2 + 3} (omega arith)
        ∙ drop-add (lex.data_pos - 2) 3 bytes in
      (out, runs, subst (λ t. Leaves t out) rest leaves)
