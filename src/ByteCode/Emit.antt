-- ===== src/ByteCode/Emit.antt =====
-- What the emitting and patching operations of mario/mario.c do to the code: the words below cindex.
use mario_js.Prelude.{
  length-take, take-append, take-set, ℕ, zero, suc, ◌+◌, ◌/◌, ◌%◌, ◌^◌, ◌≤◌, ◌<◌, ◌≡◌, refl, ap,
  sym, ◌∙◌, true, ◌&&◌, Bool-cases, inl, inr, List, [], ◌∷◌, ◌++◌, length, length-set,
  length-append, length-drop, get_or, take, drop, ltb, leb, if◌then◌else◌, arith, u32,
}
use mario_js.ByteCode.{ByteCode, room_for, bc_add}

-- The words emitted so far.
abbrev pub code : ByteCode → List ℕ
code bc = take bc.cindex bc.code_buf

-- The buffer has the words that its size says, and the code fits.
pub record IsValid (bc : ByteCode) : Type 0 where
  pub sized : length bc.code_buf ≡ bc.buf_size
  pub fits : bc.cindex ≤ bc.buf_size

get_or-take : (n j : ℕ) (xs : List ℕ) → j < n → get_or (take n xs) j 0 ≡ get_or xs j 0
get_or-take zero j xs h = absurd (omega arith)
get_or-take (suc n) j [] h = refl
get_or-take (suc n) zero (x ∷ xs) h = refl
get_or-take (suc n) (suc j) (x ∷ xs) h = get_or-take n j xs (omega arith)

get_or-behind :
    (before words : List ℕ) (k : ℕ)
    → get_or (before ++ words) (length before + k) 0 ≡ get_or words k 0
get_or-behind [] words k = ap (λ (t : ℕ). get_or words t 0) {x = 0 + k} {y = k} (omega arith)
get_or-behind (b ∷ before) words k =
    ap (λ (t : ℕ). get_or (b ∷ (before ++ words)) t 0) {x = suc (length before) + k}
      {y = suc (length before + k)} (omega arith)
    ∙ get_or-behind before words k

-- The buffer after an operation is valid, holds the words, and differs in the code alone.
pub record Emits (bc bc' : ByteCode) (words : List ℕ) : Type 0 where
  pub valid : IsValid bc'
  pub counts : bc'.cindex ≡ length words
  pub code_is : code bc' ≡ words
  pub same_table : bc'.mstr_table ≡ bc.mstr_table
  pub same_index : bc'.mstr_index ≡ bc.mstr_index
  pub same_mark : bc'.jmptgt_marked ≡ bc.jmptgt_marked
  pub same_skip : bc'.skip_strtab ≡ bc.skip_strtab

pub Emits-trans : (a b c : ByteCode) (v w : List ℕ) → Emits a b v → Emits b c w → Emits a c w
Emits-trans a b c v w f g = record {
  valid = g.valid;
  counts = g.counts;
  code_is = g.code_is;
  same_table = g.same_table ∙ f.same_table;
  same_index = g.same_index ∙ f.same_index;
  same_mark = g.same_mark ∙ f.same_mark;
  same_skip = g.same_skip ∙ f.same_skip;
}

abbrev copied : ℕ → List ℕ → List ℕ → List ℕ
copied n old new = if ltb 0 n && ltb 0 (length old) then take n old ++ drop n new else new

copied-keeps :
    (n : ℕ) (old new : List ℕ)
    → n ≤ length old
    → n ≤ length new
    → (take n (copied n old new) ≡ take n old) × (length (copied n old new) ≡ length new)
copied-keeps zero old new h k = (refl, refl)
copied-keeps (suc n) [] new h k = absurd (omega arith)
copied-keeps (suc n) (x ∷ xs) new h k =
    let len = length-take (suc n) (x ∷ xs) h in
    let there : (ltb 0 (suc n) && ltb 0 (suc (length xs))) ≡ true = ground arith in
    rw there (
      take-append (suc n) (take (suc n) (x ∷ xs)) (drop (suc n) new) (sym len),
      omega (
        arith,
        length-append (take (suc n) (x ∷ xs)) (drop (suc n) new),
        len,
        length-drop (suc n) new,
      ),
    )

-- The words of an emission as the machine reads them.
pub read_emitted :
    (bc bc' : ByteCode) (words : List ℕ) (k : ℕ)
    → IsValid bc
    → Emits bc bc' (code bc ++ words)
    → k < length words
    → get_or bc'.code_buf (bc.cindex + k) 0 ≡ get_or words k 0
read_emitted bc bc' words k v e h =
    let n = length-take bc.cindex bc.code_buf (omega (arith, v.sized, v.fits)) in
    let lt : bc.cindex + k < bc'.cindex =
      omega (arith, e.counts, n, length-append (code bc) words) in
    sym (get_or-take bc'.cindex (bc.cindex + k) bc'.code_buf lt)
    ∙ ap (λ (t : List ℕ). get_or t (bc.cindex + k) 0) e.code_is
    ∙ ap (λ (t : ℕ). get_or (code bc ++ words) (t + k) 0) (sym n)
    ∙ get_or-behind (code bc) words k

module _ (fresh : ℕ → List ℕ) (sized : (n : ℕ) → length (fresh n) ≡ n) where
  room_for-Emits :
      (bc : ByteCode)
      → IsValid bc
      → bc.cindex < 2 ^ 31
      → Emits bc (room_for fresh bc) (code bc) × (bc.cindex < (room_for fresh bc).buf_size)
  unfolding room_for
  room_for-Emits bc v small =
      let len = v.sized in
      let fits = v.fits in
      let counted = length-take bc.cindex bc.code_buf (omega (arith, len)) in
      elim (Bool-cases (leb bc.buf_size bc.cindex)) [
        | inl e ↦
            let size = (bc.cindex + bc.cindex / 2 + 3232) % u32 in
            let (kept, same) =
              copied-keeps bc.cindex bc.code_buf (fresh size) (omega (arith, len))
                (omega (arith, sized size)) in
            rw e (
              record {
                valid = record { sized = same ∙ sized size; fits = omega arith };
                counts = sym counted;
                code_is = kept;
                same_table = refl;
                same_index = refl;
                same_mark = refl;
                same_skip = refl;
              },
              omega arith,
            )
        | inr e ↦ rw e (
          record {
            valid = v;
            counts = sym counted;
            code_is = refl;
            same_table = refl;
            same_index = refl;
            same_mark = refl;
            same_skip = refl;
          },
          ground arith,
        )
      ]

  -- On a valid buffer of fewer than 2 ^ 31 words, bc_add appends the word to the code.
  pub bc_add-Emits :
      (bc : ByteCode) (ins : ℕ)
      → IsValid bc
      → bc.cindex < 2 ^ 31
      → Emits bc (bc_add fresh bc ins) (code bc ++ (ins ∷ []))
  unfolding bc_add
  bc_add-Emits bc ins v small =
      let roomy = room_for fresh bc in
      let (r, room) = room_for-Emits bc v small in
      let len = r.valid.sized in
      let counts = r.counts in
      let before = length-take bc.cindex bc.code_buf (omega (arith, v.sized, v.fits)) in
      let next : (roomy.cindex + 1) % u32 ≡ suc roomy.cindex = omega (arith, before, counts) in
      rw next (record {
        valid = record {
          sized = length-set roomy.code_buf roomy.cindex ins ∙ len;
          fits = omega (arith, before, counts, room);
        };
        counts = omega (arith, length-append (code bc) (ins ∷ []), counts);
        code_is =
            take-set roomy.cindex roomy.code_buf ins (omega (arith, len, before, counts, room))
            ∙ ap (λ t. t ++ (ins ∷ [])) r.code_is;
        same_table = r.same_table;
        same_index = r.same_index;
        same_mark = r.same_mark;
        same_skip = r.same_skip;
      })
