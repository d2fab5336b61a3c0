-- ===== src/ByteCode/Literals/Numbers.antt =====
-- Decimal literals of mario/mario.c, from their text to the value that the machine pushes.
pub mod Decimal
use mario_js.Prelude.{
  length-take, take-set-below, set-append, ℕ, zero, suc, ◌+◌, ◌-◌, ◌*◌, ◌/◌, ◌%◌, ◌^◌, ◌≤◌, ◌<◌,
  ◌≡◌, refl, ap, sym, subst, ◌∙◌, Bool, true, false, Bool-cases, inl, inr, ◌⊎◌, List, [], ◌∷◌, ◌++◌,
  ◌||◌, length, length-set, length-append, get_or, set, take, All, ltb, leb, ◌==◌, if◌then◌else◌,
  Option, none, some, arith, u32, u64,
}
use mario_js.ByteCode.{ByteCode, off_mask, ins_word, op_of, off_of, bc_add, bc_bytecode}
use mario_js.ByteCode.Instr
use mario_js.ByteCode.Words.{ins_word-reads}
use mario_js.ByteCode.Emit.{code, IsValid, Emits, Emits-trans, bc_add-Emits}
use mario_js.ByteCode.Literals.{
  Conversions, Literal, literal_of, bc_add_payload, bc_gen_str, first_word, second_word,
}

append-two : (before : List ℕ) (x y : ℕ) → (before ++ (x ∷ [])) ++ (y ∷ []) ≡ before ++ (x ∷ y ∷ [])
append-two [] x y = refl
append-two (b ∷ before) x y = ap (λ t. b ∷ t) (append-two before x y)

append-three :
    (before : List ℕ) (x y z : ℕ)
    → (before ++ (x ∷ y ∷ [])) ++ (z ∷ []) ≡ before ++ (x ∷ y ∷ z ∷ [])
append-three [] x y z = refl
append-three (b ∷ before) x y z = ap (λ t. b ∷ t) (append-three before x y z)

wide_tests :
    (op : ℕ)
    → (op ≡ Instr.int64) ⊎ (op ≡ Instr.float64)
    → ((op == Instr.int) ≡ false) × ((op == Instr.int64 || op == Instr.float64) ≡ true)
wide_tests op (inl e) = rw e (refl, refl)
wide_tests op (inr e) = rw e (refl, refl)

module _ (fresh : ℕ → List ℕ) (sized : (n : ℕ) → length (fresh n) ≡ n) (low_first : Bool)
    (bc : ByteCode) (v : IsValid bc) (small : bc.cindex < 2 ^ 31 - 3) (literal : Literal) where
  -- The buffer after the word of the instruction.
  abbrev headed : ByteCode
  headed = bc_add fresh bc (ins_word literal.instr off_mask)

  headed-Emits : Emits bc headed (code bc ++ (ins_word literal.instr off_mask ∷ []))
  headed-Emits = bc_add-Emits fresh sized bc (ins_word literal.instr off_mask) v (omega arith)

  headed-counts : headed.cindex ≡ bc.cindex + 1
  headed-counts = omega (
    arith,
    headed-Emits.counts,
    length-append (code bc) (ins_word literal.instr off_mask ∷ []),
    length-take bc.cindex bc.code_buf (omega (arith, v.sized, v.fits)),
  )

  -- An int that its instruction can hold takes one word.
  pub short-Emits :
      literal.instr ≡ Instr.int
      → literal.i < off_mask
      → Emits bc
          (bc_add_payload fresh low_first headed literal)
          (code bc ++ (ins_word Instr.int_s literal.i ∷ []))
  unfolding bc_add_payload
  short-Emits is lt =
      let e = headed-Emits in
      let w = ins_word Instr.int_s literal.i in
      let test : ltb literal.i off_mask ≡ true = ground arith in
      let is_int : (literal.instr == Instr.int) ≡ true = ground arith in
      let n = length-take bc.cindex bc.code_buf (omega (arith, v.sized, v.fits)) in
      let at : headed.cindex - 1 ≡ length (code bc) = omega (arith, headed-counts, n) in
      rw (is_int, test, at)
        (record {
          valid = record {
            sized = length-set headed.code_buf (length (code bc)) w ∙ e.valid.sized;
            fits = e.valid.fits;
          };
          counts = omega (arith, headed-counts, n, length-append (code bc) (w ∷ []));
          code_is =
              take-set-below headed.cindex (length (code bc)) headed.code_buf w
                (omega (arith, headed-counts, n))
              ∙ ap (λ (t : List ℕ). set t (length (code bc)) w) e.code_is
              ∙ set-append (code bc) (ins_word literal.instr off_mask) w [];
          same_table = e.same_table;
          same_index = e.same_index;
          same_mark = e.same_mark;
          same_skip = e.same_skip;
        })

  -- Any other int takes a second word.
  pub int-Emits :
      literal.instr ≡ Instr.int
      → off_mask ≤ literal.i
      → Emits bc
          (bc_add_payload fresh low_first headed literal)
          (code bc ++ (ins_word literal.instr off_mask ∷ literal.i ∷ []))
  unfolding bc_add_payload
  int-Emits is ge =
      let e = headed-Emits in
      let test : ltb literal.i off_mask ≡ false = ground arith in
      let is_int : (literal.instr == Instr.int) ≡ true = ground arith in
      let more = bc_add-Emits fresh sized headed literal.i e.valid (omega (arith, headed-counts)) in
      rw (is_int, test)
        (subst (λ t. Emits bc (bc_add fresh headed literal.i) t)
          (ap (λ (t : List ℕ). t ++ (literal.i ∷ [])) e.code_is
            ∙ append-two (code bc) (ins_word literal.instr off_mask) literal.i)
          (Emits-trans bc headed _ _ _ e more))

  -- A 64-bit number takes two words more.
  pub wide-Emits :
      (literal.instr ≡ Instr.int64) ⊎ (literal.instr ≡ Instr.float64)
      → Emits bc (bc_add_payload fresh low_first headed literal) (
          code bc
          ++ (ins_word literal.instr off_mask
              ∷ first_word low_first literal.wide
              ∷ second_word low_first literal.wide
              ∷ []))
  unfolding bc_add_payload
  wide-Emits is =
      let e = headed-Emits in
      let head = ins_word literal.instr off_mask in
      let x = first_word low_first literal.wide in
      let y = second_word low_first literal.wide in
      let mid = bc_add fresh headed x in
      let one = bc_add-Emits fresh sized headed x e.valid (omega (arith, headed-counts)) in
      let two =
        subst (λ t. Emits bc mid t)
          (ap (λ (t : List ℕ). t ++ (x ∷ [])) e.code_is ∙ append-two (code bc) head x)
          (Emits-trans bc headed mid _ _ e one) in
      let n : mid.cindex ≡ bc.cindex + 2 = omega (
        arith,
        two.counts,
        length-append (code bc) (head ∷ x ∷ []),
        length-take bc.cindex bc.code_buf (omega (arith, v.sized, v.fits)),
      ) in
      let last = bc_add-Emits fresh sized mid y two.valid (omega (arith, n)) in
      let (not_int, wide) = wide_tests literal.instr is in
      rw (not_int, wide)
        (subst (λ t. Emits bc (bc_add fresh mid y) t)
          (ap (λ (t : List ℕ). t ++ (y ∷ [])) two.code_is ∙ append-three (code bc) head x y)
          (Emits-trans bc mid (bc_add fresh mid y) _ _ two last))
