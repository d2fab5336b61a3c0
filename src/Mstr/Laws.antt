-- ===== src/Mstr/Laws.antt =====
-- What the operations of mstr_t (mario/mario.c) do to the text that a string holds, and the validity that they
-- keep: the buffer has room for the text and the NUL behind it.
use mario_js.Prelude.{
  length-take, take-set, ℕ, zero, suc, ◌+◌, ◌-◌, ◌/◌, ◌%◌, ◌≤◌, ◌<◌, ◌≡◌, refl, ap, sym, subst, ◌∙◌,
  true, Bool-cases, inl, inr, List, [], ◌∷◌, ◌++◌, length, length-set, length-append, length-drop,
  get_or, get_or-set, set, take, drop, leb, ◌==◌, Option, none, some, arith, u32,
}
use mario_js.Array.{mario_realloc}
use mario_js.Mstr.{
  Mstr, mstr_buf, bytes, has_buffer, copy_to, put, finish, mstr_reset, mstr_ncpy, append_room,
  mstr_append, mstr_append_n, mstr_add,
}

-- The buffer has `max` bytes, and a NUL behind the text; a string without buffer is empty.
pub record IsValid (str : Mstr) : Type 0 where
  pub measured : length (bytes str.cstr) ≡ str.max
  pub room : str.len ≤ str.max - 1
  pub closed : get_or (bytes str.cstr) str.len 0 ≡ 0
  pub allocated : has_buffer str.cstr ≡ true → 0 < str.max

abbrev pub content : Mstr → List ℕ
content str = take str.len (bytes str.cstr)

-- A valid string with this text, which fits.
pub record Holds (str : Mstr) (text : List ℕ) : Type 0 where
  pub valid : IsValid str
  pub fits : length text < str.max
  pub is : content str ≡ text

length-copy_to : (buf : List ℕ) (at : ℕ) (src : List ℕ) → length (copy_to buf at src) ≡ length buf
unfolding copy_to
length-copy_to buf at [] = refl
length-copy_to buf at (c ∷ cs) = length-copy_to (set buf at c) (at + 1) cs ∙ length-set buf at c

append_assoc : (xs ys zs : List ℕ) → (xs ++ ys) ++ zs ≡ xs ++ (ys ++ zs)
append_assoc [] ys zs = refl
append_assoc (x ∷ xs) ys zs = ap (λ t. x ∷ t) (append_assoc xs ys zs)

append-nil : (xs : List ℕ) → xs ++ [] ≡ xs
append-nil [] = refl
append-nil (x ∷ xs) = ap (λ t. x ∷ t) (append-nil xs)

take-copy_to :
    (buf : List ℕ) (at : ℕ) (src : List ℕ)
    → at + length src ≤ length buf
    → take (at + length src) (copy_to buf at src) ≡ take at buf ++ src
unfolding copy_to
take-copy_to buf at [] h =
    ap (λ (t : ℕ). take t buf) {x = at + 0} {y = at} (omega arith) ∙ sym (append-nil (take at buf))
take-copy_to buf at (c ∷ cs) h =
    ap (λ (t : ℕ). take t (copy_to (set buf at c) (at + 1) cs)) {x = at + suc (length cs)}
      {y = at + 1 + length cs} (omega arith)
    ∙ take-copy_to (set buf at c) (at + 1) cs (omega (arith, length-set buf at c))
    ∙ ap (λ (t : ℕ). take t (set buf at c) ++ cs) {x = at + 1} {y = suc at} (omega arith)
    ∙ ap (λ (t : List ℕ). t ++ cs) (take-set at buf c (omega arith))
    ∙ append_assoc (take at buf) (c ∷ []) cs

-- A NUL behind the first `n` bytes leaves them.
take-set-behind : (n : ℕ) (buf : List ℕ) (v : ℕ) → take n (set buf n v) ≡ take n buf
take-set-behind zero buf v = refl
take-set-behind (suc n) [] v = refl
take-set-behind (suc n) (x ∷ xs) v = ap (λ t. x ∷ t) (take-set-behind n xs v)

take-nil : (l : ℕ) → [] ≡ take {A = ℕ} l []
take-nil zero = refl
take-nil (suc l) = refl

finish-Holds :
    (str : Mstr) (at : ℕ) (src : List ℕ)
    → length (bytes str.cstr) ≡ str.max
    → at + length src < str.max
    → at + length src < u32
    → Holds (finish str at src) (take at (bytes str.cstr) ++ src)
unfolding finish
finish-Holds str at src measured room bound =
    let n = at + length src in
    let wrap : n % u32 ≡ n = omega arith in
    let buf = copy_to (bytes str.cstr) at src in
    let len = length-copy_to (bytes str.cstr) at src in
    let here = get_or-set buf n n 0 0 (omega (arith, len)) in
    rw wrap (record {
      valid = record {
        measured = length-set buf n 0 ∙ len ∙ measured;
        room = omega arith;
        closed = ground (arith, here);
        allocated = λ h. omega arith;
      };
      fits = omega (
        arith,
        length-append (take at (bytes str.cstr)) src,
        length-take at (bytes str.cstr) (omega arith),
      );
      is = take-set-behind n buf 0 ∙ take-copy_to (bytes str.cstr) at src (omega arith);
    })

take-append-front : (n : ℕ) (xs ys : List ℕ) → n ≤ length xs → take n (xs ++ ys) ≡ take n xs
take-append-front zero xs ys h = refl
take-append-front (suc n) [] ys h = absurd (omega arith)
take-append-front (suc n) (x ∷ xs) ys h = ap (λ t. x ∷ t) (take-append-front n xs ys (omega arith))

module _ (fresh : ℕ → List ℕ) (sized : (n : ℕ) → length (fresh n) ≡ n) where
  -- A block of at least the old size keeps the first bytes.
  realloc-keeps :
      (cstr : Option (List ℕ)) (old new n : ℕ)
      → length (bytes cstr) ≡ old
      → old ≤ new
      → n ≤ old
      → (length (bytes (mario_realloc fresh cstr old new)) ≡ new)
        × (take n (bytes (mario_realloc fresh cstr old new)) ≡ take n (bytes cstr))
  unfolding mario_realloc
  realloc-keeps none old new n len le in_old =
      let zero_n : n ≡ 0 = omega arith in rw zero_n (sized new, refl)
  realloc-keeps (some s) old new n len le in_old = (
    omega (arith, length-append s (drop old (fresh new)), length-drop old (fresh new), sized new),
    take-append-front n s (drop old (fresh new)) (omega arith),
  )

  -- mstr_reset leaves a valid string without text.
  pub mstr_reset-Holds : (str : Mstr) → IsValid str → Holds (mstr_reset fresh str) []
  unfolding mstr_reset
  mstr_reset-Holds str v = elim (Bool-cases (has_buffer str.cstr)) [
    | inl e ↦ rw e (emptied str.cstr str.max v.measured (v.allocated e))
    | inr e ↦ rw e (emptied (some (fresh 16)) 16 (sized 16) (omega arith))
  ]
    where
      emptied :
          (cstr : Option (List ℕ)) (max : ℕ)
          → length (bytes cstr) ≡ max
          → 0 < max
          → Holds (put (record { cstr = cstr; max = max; len = 0 }) 0 0) []
      emptied cstr max len pos =
          let here = get_or-set (bytes cstr) 0 0 0 0 (omega (arith, len)) in
          record {
            valid = record {
              measured = length-set (bytes cstr) 0 0 ∙ len;
              room = omega arith;
              closed = ground (arith, here);
              allocated = λ h. pos;
            };
            fits = pos;
            is = refl;
          }

  module _ (str : Mstr) (v : IsValid str) where
    grown-Holds :
        (at new : ℕ) (src : List ℕ)
        → at ≤ str.len
        → str.max ≤ new
        → at + length src < new
        → at + length src < u32
        → Holds
            (finish
              (record str { cstr = mario_realloc fresh str.cstr str.max new; max = new })
              at
              src)
            (take at (bytes str.cstr) ++ src)
    grown-Holds at new src in_text le room bound =
        let (len, kept) =
          realloc-keeps str.cstr str.max new at v.measured le (omega (arith, v.room)) in
        let grown = record str { cstr = mario_realloc fresh str.cstr str.max new; max = new } in
        subst (λ t. Holds (finish grown at src) (t ++ src)) kept
          (finish-Holds grown at src len room bound)

    -- mstr_ncpy of a string that is not NULL makes the text its first `l` bytes, with a bound that leaves
    -- room for the length.
    pub mstr_ncpy-Holds :
        (src : List ℕ) (l : ℕ)
        → length (take l src) + 16 < u32
        → Holds (mstr_ncpy fresh str (some src) l) (take l src)
    unfolding mstr_ncpy
    mstr_ncpy-Holds [] l small =
        subst (Holds (mstr_reset fresh str)) (take-nil l) (mstr_reset-Holds str v)
    mstr_ncpy-Holds (c ∷ cs) l small =
        let src = take l (c ∷ cs) in
        elim (Bool-cases (l == 0)) [
          | inl e ↦
              let none_taken : l ≡ 0 = ground arith in
              rw e (
                subst (λ t. Holds (mstr_reset fresh str) (take t (c ∷ cs))) (sym none_taken)
                  (mstr_reset-Holds str v))
          | inr e ↦ elim (Bool-cases (leb str.max (length src))) [
            | inl f ↦
                let wrap : (length src + mstr_buf) % u32 ≡ length src + mstr_buf = omega arith in
                rw (e, f, wrap)
                  (grown-Holds 0 (length src + mstr_buf) src (omega arith) (ground arith)
                    (omega arith) (omega arith))
            | inr f ↦ rw (e, f) (finish-Holds str 0 src v.measured (ground arith) (omega arith))
          ]
        ]

    -- What mstr_append and mstr_append_n share.
    appended :
        (src : List ℕ)
        → str.len + length src + 16 < u32
        → Holds (finish (append_room fresh str (length src)) str.len src) (content str ++ src)
    unfolding append_room
    appended src small =
        let n = str.len + length src in
        let wrap : n % u32 ≡ n = omega arith in
        let wide : (n + mstr_buf) % u32 ≡ n + mstr_buf = omega arith in
        elim (Bool-cases (leb str.max n)) [
          | inl e ↦
              rw (wrap, e, wide)
                (grown-Holds str.len (n + mstr_buf) src (omega arith) (ground arith) (omega arith)
                  (omega arith))
          | inr e ↦
              rw (wrap, e) (finish-Holds str str.len src v.measured (ground arith) (omega arith))
        ]

    -- mstr_add on a valid string keeps it valid and puts the byte behind the text.
    pub mstr_add-Holds :
        (c : ℕ)
        → str.max + str.max / 2 + 16 < u32
        → Holds (mstr_add fresh str c) (content str ++ (c ∷ []))
    unfolding mstr_add finish copy_to
    mstr_add-Holds c wide =
        let room = v.room in
        let new = str.max + str.max / 2 + mstr_buf in
        let wrap : (str.len + 1) % u32 ≡ str.len + 1 = omega arith in
        let fits : new % u32 ≡ new = omega arith in
        elim (Bool-cases (leb str.max (str.len + 1))) [
          | inl e ↦
              rw (wrap, e, fits)
                (grown-Holds str.len new (c ∷ []) (omega arith) (omega arith) (omega arith)
                  (omega arith))
          | inr e ↦
              rw (wrap, e)
                (finish-Holds str str.len (c ∷ []) v.measured (ground arith) (omega arith))
        ]

    -- On a valid string whose text and growth stay below 2 ^ 32, mstr_append, mstr_append_n and mstr_add keep
    -- it valid, a NUL behind the text included, and put the bytes behind the text.
    pub mstr_append-Holds :
        (c : ℕ) (cs : List ℕ)
        → str.len + length (c ∷ cs) + 16 < u32
        → str.max + str.max / 2 + 16 < u32
        → Holds (mstr_append fresh str (some (c ∷ cs))) (content str ++ (c ∷ cs))
          × Holds (mstr_append_n fresh str (some (c ∷ cs))) (content str ++ (c ∷ cs))
          × Holds (mstr_add fresh str c) (content str ++ (c ∷ []))
    unfolding mstr_append mstr_append_n
    mstr_append-Holds c cs small wide =
        (appended (c ∷ cs) small, appended (c ∷ cs) small, mstr_add-Holds c wide)
