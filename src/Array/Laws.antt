-- ===== src/Array/Laws.antt =====
-- What the operations of m_array_t (mario/mario.c) do to the items that array_get reads, and the validity
-- that they keep.
use mario_js.Prelude.{
  ℕ, zero, suc, ◌+◌, ◌-◌, ◌%◌, ◌≤◌, ◌<◌, ◌≡◌, refl, ◌∙◌, ◌||◌, Bool-cases, inl, inr, List, [], ◌∷◌,
  ◌++◌, length, get_or, set, drop, ltb, leb, ◌==◌, if◌then◌else◌, Option, none, some, arith, u32,
  length-set, get_or-set, length-drop, length-append,
}
use mario_js.Array.{
  MArray, slots, is_null, mario_realloc, array_reserve, array_add, shift_up, array_add_head,
  array_get, array_set, shift_down, array_remove, write,
}
use mario_js.Array.Slots.{length-shift_up, length-shift_down, get-shift_up, get-shift_down}

module _ {A : Type 0} where
  -- The buffer has its slots, one more than the size where there are any, and NULL ends the items.
  pub record IsValid (array : MArray A) : Type 0 where
    pub measured : length (slots array.items) ≡ array.max_slots
    pub fits : array.size ≤ array.max_slots - 1
    pub closed : get_or (slots array.items) array.size none ≡ none
    pub null : is_null array.items ≡ (array.max_slots == 0)

  -- Room for one more item and the NULL, with the items as they were.
  record Reserved (array roomy : MArray A) : Type 0 where
    measured : length (slots roomy.items) ≡ roomy.max_slots
    room : array.size + 1 < roomy.max_slots
    same_size : roomy.size ≡ array.size
    kept :
        (j : ℕ)
        → j < array.size
        → get_or (slots roomy.items) j none ≡ get_or (slots array.items) j none

  get_or-append :
      (xs ys : List (Option A)) (i : ℕ)
      → i < length xs
      → get_or (xs ++ ys) i none ≡ get_or xs i none
  get_or-append [] ys i h = absurd (omega arith)
  get_or-append (x ∷ xs) ys zero h = refl
  get_or-append (x ∷ xs) ys (suc i) h = get_or-append xs ys i (omega arith)

  realloc-Reserved :
      (fresh : ℕ → List (Option A))
      → ((n : ℕ) → length (fresh n) ≡ n)
      → (items : Option (List (Option A))) (old size new : ℕ) → length (slots items) ≡ old
      → size ≤ old - 1
      → old ≤ new
      → (length (slots (mario_realloc fresh items old new)) ≡ new)
        × ((j : ℕ)
            → j < size
            → get_or (slots (mario_realloc fresh items old new)) j none
              ≡ get_or (slots items) j none)
  unfolding mario_realloc
  realloc-Reserved fresh sized none old size new h fits le =
      (sized new, λ j lt. absurd (omega arith))
  realloc-Reserved fresh sized (some s) old size new h fits le = (
    omega (arith, length-append s (drop old (fresh new)), length-drop old (fresh new), sized new),
    λ j lt. get_or-append s (drop old (fresh new)) j (omega arith),
  )

  module _ (fresh : ℕ → List (Option A)) (sized : (n : ℕ) → length (fresh n) ≡ n) (array : MArray A)
      (valid : IsValid array) (small : array.size + 16 < u32) where
    array_reserve-Reserved : Reserved array (array_reserve fresh array)
    unfolding array_reserve
    array_reserve-Reserved =
        let fits = valid.fits in
        let measured = valid.measured in
        elim (Bool-cases (leb array.max_slots ((array.size + 1) % u32))) [
          | inl e ↦
              let le : array.max_slots ≤ (array.size + 16) % u32 = ground arith in
              let (len, kept) =
                realloc-Reserved fresh sized array.items array.max_slots array.size
                  ((array.size + 16) % u32) measured fits le in
              rw e (record { measured = len; room = omega arith; same_size = refl; kept = kept })
          | inr e ↦ rw e (record {
            measured = measured;
            room = ground arith;
            same_size = refl;
            kept = λ j lt. refl;
          })
        ]

  -- An array is valid, has a size, and gives the items of a function.
  pub record Holds (array : MArray A) (size : ℕ) (item : ℕ → Option A) : Type 0 where
    pub valid : IsValid array
    pub sized : array.size ≡ size
    pub gives : (i : ℕ) → i < size → array_get array i ≡ item i

  stored-Holds :
      (s : List (Option A)) (max size : ℕ) (item : ℕ → Option A)
      → length s ≡ max
      → size < max
      → ((i : ℕ) → i < size → get_or s i none ≡ item i)
      → Holds (record { items = some (set s size none); max_slots = max; size = size }) size item
  unfolding array_get
  stored-Holds s max size item len lt gives = record {
    valid = record {
      measured = length-set s size none ∙ len;
      fits = omega arith;
      closed = let w = get_or-set s size size none none (omega arith) in ground (arith, w);
      null = ground arith;
    };
    sized = refl;
    gives = λ i h.
        let w = get_or-set s i size none none (omega arith) in
        let g = gives i h in ground (arith, w, g);
  }

  module _ (fresh : ℕ → List (Option A)) (sized : (n : ℕ) → length (fresh n) ≡ n) (array : MArray A)
      (valid : IsValid array) (small : array.size + 16 < u32) (item : Option A) where
    -- On a valid array of fewer than 2 ^ 32 - 16 items, where an allocation gives the slots asked for,
    -- array_add gives a valid array with one more item: the new one at the end, and the others as before.
    pub array_add-Holds :
        Holds
          (array_add fresh array item)
          (array.size + 1)
          (λ i. if i == array.size then item else array_get array i)
    unfolding array_add array_get
    array_add-Holds =
        let r = array_reserve-Reserved fresh sized array valid small in
        let roomy = array_reserve fresh array in
        let same = r.same_size in
        let wrap : (roomy.size + 1) % u32 ≡ array.size + 1 = omega arith in
        let fits = valid.fits in
        let room = r.room in
        let measured = r.measured in
        rw wrap (
          stored-Holds (set (slots roomy.items) roomy.size item) roomy.max_slots (array.size + 1) _
            (length-set (slots roomy.items) roomy.size item ∙ measured) room
            λ i h.
              let w = get_or-set (slots roomy.items) i roomy.size item none (omega arith) in
              let k = r.kept i in let null = valid.null in ground (arith, w, k, null))

    -- Under the same conditions, array_add_head gives a valid array with one more item: the new one first,
    -- and each of the others one place on.
    pub array_add_head-Holds :
        Holds
          (array_add_head fresh array item)
          (array.size + 1)
          (λ i. if i == 0 then item else array_get array (i - 1))
    unfolding array_add_head array_get
    array_add_head-Holds =
        let r = array_reserve-Reserved fresh sized array valid small in
        let roomy = array_reserve fresh array in
        let same = r.same_size in
        let wrap : (roomy.size + 1) % u32 ≡ array.size + 1 = omega arith in
        let fits = valid.fits in
        let room = r.room in
        let measured = r.measured in
        let shifted = shift_up roomy.size (slots roomy.items) in
        let len = length-shift_up roomy.size (slots roomy.items) in
        rw wrap (
          stored-Holds (set shifted 0 item) roomy.max_slots (array.size + 1) _
            (length-set shifted 0 item ∙ len ∙ measured) room
            λ i h.
              let w = get_or-set shifted i 0 item none (omega arith) in
              let up = get-shift_up roomy.size (slots roomy.items) i (omega arith) in
              let k = r.kept (i - 1) in let null = valid.null in ground (arith, w, up, k, null))

  module _ (array : MArray A) (valid : IsValid array) (index : ℕ) where
    -- On a valid array, array_remove gives NULL and changes nothing from the size on; below it, it gives
    -- the item at the index and a valid array without it, the later items one place ahead.
    pub array_remove-Holds :
        (array.size ≤ index → array_remove array index ≡ (array, none))
        × (index < array.size
            → ((array_remove array index).1 ≡ array_get array index)
              × Holds
                  (array_remove array index).0
                  (array.size - 1)
                  (λ i. if ltb i index then array_get array i else array_get array (i + 1)))
    unfolding array_remove array_get
    array_remove-Holds =
        let fits = valid.fits in
        let measured = valid.measured in
        let null = valid.null in
        elim (Bool-cases (leb array.size index)) [
          | inl e ↦ rw e (λ h. refl, λ h. absurd (ground arith))
          | inr e ↦
              let n = array.size - (index + 1) in
              let moved = shift_down n index (slots array.items) in
              let len = length-shift_down n index (slots array.items) in
              rw e (
                λ h. absurd (ground arith),
                λ h. (
                  ground (arith, null),
                  stored-Holds moved array.max_slots (array.size - 1) _ (len ∙ measured)
                      (omega arith)
                      λ i lt.
                        let d = get-shift_down n index (slots array.items) i (omega arith) in
                        ground (arith, d, null),
                ),
              )
        ]

    written :
        (item : Option A)
        → index < array.size
        → Holds
            (write array index item)
            array.size
            (λ i. if i == index then item else array_get array i)
    unfolding array_get
    written item h =
        let fits = valid.fits in
        let measured = valid.measured in
        let null = valid.null in
        let closed = valid.closed in
        record {
          valid = record {
            measured = length-set (slots array.items) index item ∙ measured;
            fits = fits;
            closed =
                let w = get_or-set (slots array.items) array.size index item none (omega arith) in
                ground (arith, w, closed);
            null = ground arith;
          };
          sized = refl;
          gives = λ i lt.
              let w = get_or-set (slots array.items) i index item none (omega arith) in
              ground (arith, w, null);
        }

    -- On a valid array, array_set gives NULL and changes nothing from the size on; below it, it gives the
    -- item and a valid array of the same size that has it at the index and the others as before.
    pub array_set-Holds :
        (item : Option A)
        → (array.size ≤ index → array_set array index item ≡ (array, none))
          × (index < array.size
              → ((array_set array index item).1 ≡ item)
                × Holds
                    (array_set array index item).0
                    array.size
                    (λ i. if i == index then item else array_get array i))
    unfolding array_set array_get
    array_set-Holds item =
        let fits = valid.fits in
        let measured = valid.measured in
        let null = valid.null in
        elim (Bool-cases (is_null array.items || leb array.size index)) [
          | inl e ↦ rw e (λ h. refl, λ h. absurd (ground (arith, null, e)))
          | inr e ↦ rw e (λ h. absurd (ground (arith, null, e)), λ h. (refl, written item h))
        ]
