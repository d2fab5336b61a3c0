-- ===== src/Mstr/Split.antt =====
-- mstr_split (mario/mario.c), which fills a pointer array with the pieces of a C string between two separators.
use mario_js.Prelude.{
  ℕ, zero, suc, ◌+◌, ◌-◌, ◌<◌, ◌≡◌, ◌≢◌, refl, ap, sym, subst, ◌∙◌, true, false, Bool-cases, inl,
  inr, List, [], ◌∷◌, ◌++◌, length, All, All-append, ltb, ◌==◌, if◌then◌else◌, Option, none, some,
  arith, u32,
}
use mario_js.Array.{MArray, array_add, array_get}
use mario_js.Array.Laws.{IsValid, Holds, array_add-Holds}

-- The loop on what is left of the string, behind the bytes of the piece that it is in. A piece is pushed at a
-- separator and at the NUL.
unfoldable pub split_loop :
    (ℕ → List (Option (List ℕ))) → ℕ → List ℕ → List ℕ → MArray (List ℕ) → MArray (List ℕ)
split_loop fresh c piece [] array = array_add fresh array (some piece)
split_loop fresh c piece (x ∷ xs) array =
    let ended = split_loop fresh c [] xs (array_add fresh array (some piece)) in
    let longer = split_loop fresh c (piece ++ (x ∷ [])) xs array in if x == c then ended else longer

unfoldable pub mstr_split :
    (ℕ → List (Option (List ℕ))) → List ℕ → ℕ → MArray (List ℕ) → MArray (List ℕ)
unfolding split_loop
mstr_split fresh str c array = split_loop fresh c [] str array

-- The pieces with the separator between each two of them.
abbrev pub join : ℕ → List (List ℕ) → List ℕ
join c [] = []
join c (p ∷ []) = p
join c (p ∷ q ∷ ps) = p ++ (c ∷ join c (q ∷ ps))

abbrev pub piece_at : List (List ℕ) → ℕ → Option (List ℕ)
piece_at [] i = none
piece_at (p ∷ ps) zero = some p
piece_at (p ∷ ps) (suc i) = piece_at ps i

-- The array has the items it had and the pieces behind them, which join to the string and lack the separator.
pub record Splits (c : ℕ) (str : List ℕ) (array array' : MArray (List ℕ)) : Type 0 where
  pub pieces : List (List ℕ)
  pub joined : join c pieces ≡ str
  pub apart : All (All (λ x. x ≢ c)) pieces
  pub some_piece : 0 < length pieces
  pub holds :
      Holds array'
        (array.size + length pieces)
        (λ i. if ltb i array.size then array_get array i else piece_at pieces (i - array.size))

Holds-same :
    (array : MArray (List ℕ)) (size size' : ℕ) (f g : ℕ → Option (List ℕ))
    → Holds array size f
    → size ≡ size'
    → ((i : ℕ) → i < size' → f i ≡ g i)
    → Holds array size' g
Holds-same array size size' f g h e same = record {
  valid = h.valid;
  sized = h.sized ∙ e;
  gives = λ i lt. h.gives i (omega arith) ∙ same i lt;
}

module _ (fresh : ℕ → List (Option (List ℕ))) (sized : (n : ℕ) → length (fresh n) ≡ n) (c : ℕ) where
  last_piece :
      (piece : List ℕ) (array : MArray (List ℕ))
      → All (λ x. x ≢ c) piece
      → IsValid array
      → array.size + 16 < u32
      → Splits c piece array (array_add fresh array (some piece))
  last_piece piece array lacks v small =
      let h = array_add-Holds fresh sized array v small (some piece) in
      record {
        pieces = piece ∷ [];
        joined = refl;
        apart = (lacks, tt);
        some_piece = omega arith;
        holds =
            Holds-same (array_add fresh array (some piece)) (array.size + 1) (array.size + 1) _ _ h
              refl
              λ i lt. elim (Bool-cases (i == array.size)) [
                | inl e ↦
                    let at : i - array.size ≡ 0 = ground arith in
                    let behind : ltb i array.size ≡ false = ground arith in rw (e, behind, at) refl
                | inr e ↦ let before : ltb i array.size ≡ true = ground arith in rw (e, before) refl
              ];
      }

  join-cons :
      (p : List ℕ) (ps : List (List ℕ)) → 0 < length ps → join c (p ∷ ps) ≡ p ++ (c ∷ join c ps)
  join-cons p [] h = absurd (omega arith)
  join-cons p (q ∷ ps) h = refl

  -- What stands at `i` with the piece in its place, and the others behind it.
  same_item :
      (piece : List ℕ) (ps : List (List ℕ)) (array next : MArray (List ℕ))
      → Holds next (array.size + 1) (λ i. if i == array.size then some piece else array_get array i)
      → (i : ℕ)
      → (if ltb i next.size then array_get next i else piece_at ps (i - next.size))
        ≡ (if ltb i array.size then array_get array i else piece_at (piece ∷ ps) (i - array.size))
  same_item piece ps array next h i =
      let size = h.sized in
      elim (Bool-cases (ltb i array.size)) [
        | inl e ↦
            let inside : ltb i next.size ≡ true = ground arith in
            let other : (i == array.size) ≡ false = ground arith in
            rw (e, inside) (h.gives i (ground arith) ∙ rw other refl)
        | inr e ↦ elim (Bool-cases (i == array.size)) [
          | inl f ↦
              let inside : ltb i next.size ≡ true = ground arith in
              let at : i - array.size ≡ 0 = ground arith in
              rw (e, inside, at) (h.gives i (ground arith) ∙ rw f refl)
          | inr f ↦
              let behind : ltb i next.size ≡ false = ground arith in
              let at : i - array.size ≡ suc (i - next.size) = ground arith in
              rw (e, behind, at) refl
        ]
      ]

  -- The pieces behind a separator.
  further :
      (piece rest : List ℕ) (array array' : MArray (List ℕ))
      → All (λ x. x ≢ c) piece
      → IsValid array
      → array.size + 16 < u32
      → Splits c rest (array_add fresh array (some piece)) array'
      → Splits c (piece ++ (c ∷ rest)) array array'
  further piece rest array array' lacks v small s =
      let h = array_add-Holds fresh sized array v small (some piece) in
      let size = h.sized in
      record {
        pieces = piece ∷ s.pieces;
        joined = join-cons piece s.pieces s.some_piece ∙ ap (λ t. piece ++ (c ∷ t)) s.joined;
        apart = (lacks, s.apart);
        some_piece = omega arith;
        holds =
            Holds-same array' _ (array.size + suc (length s.pieces)) _ _ s.holds (omega arith)
              λ i lt. same_item piece s.pieces array (array_add fresh array (some piece)) h i;
      }

  append-one :
      (piece : List ℕ) (x : ℕ) (xs : List ℕ) → (piece ++ (x ∷ [])) ++ xs ≡ piece ++ (x ∷ xs)
  append-one [] x xs = refl
  append-one (p ∷ piece) x xs = ap (λ t. p ∷ t) (append-one piece x xs)

  append-nil : (piece : List ℕ) → piece ≡ piece ++ []
  append-nil [] = refl
  append-nil (p ∷ piece) = ap (λ t. p ∷ t) (append-nil piece)

  loop-Splits :
      (piece str : List ℕ) (array : MArray (List ℕ))
      → All (λ x. x ≢ c) piece
      → IsValid array
      → array.size + length str + 16 < u32
      → Splits c (piece ++ str) array (split_loop fresh c piece str array)
  unfolding split_loop
  loop-Splits piece [] array lacks v small =
      subst (λ t. Splits c t array (array_add fresh array (some piece))) (append-nil piece)
        (last_piece piece array lacks v (omega arith))
  loop-Splits piece (x ∷ xs) array lacks v small =
      let h = array_add-Holds fresh sized array v (omega arith) (some piece) in
      let next = array_add fresh array (some piece) in
      let behind = loop-Splits [] xs next tt h.valid (omega (arith, h.sized)) in
      let more = loop-Splits (piece ++ (x ∷ [])) xs array in
      elim (Bool-cases (x == c)) [
        | inl e ↦
            let is : x ≡ c = ground arith in
            rw e (
              subst (λ t. Splits c (piece ++ (t ∷ xs)) array (split_loop fresh c [] xs next))
                (sym is) (further piece xs array _ lacks v (omega arith) behind))
        | inr e ↦
            let differs : x ≢ c = λ f. ground (arith, e, f) in
            rw e (
              subst (λ t. Splits c t array (split_loop fresh c (piece ++ (x ∷ [])) xs array))
                (append-one piece x xs)
                (more (All-append (λ y. y ≢ c) piece (x ∷ []) lacks (differs, tt)) v (omega arith)))
      ]

  -- On a valid array with room, mstr_split keeps the array valid and its items, and puts behind them pieces
  -- that lack the separator and, joined by it, are the string.
  pub mstr_split-Splits :
      (str : List ℕ) (array : MArray (List ℕ))
      → IsValid array
      → array.size + length str + 16 < u32
      → Splits c str array (mstr_split fresh str c array)
  unfolding mstr_split
  mstr_split-Splits str array v small = loop-Splits [] str array tt v small
