-- ===== src/ByteCode/Jumps.antt =====
-- Jumps of mario/mario.c: words that the compiler reserves and patches (bc_reserve, bc_set_instr,
-- bc_add_instr), and where the machine goes when it runs them (handle_jmp, and the step of pc in handle_jmpb
-- and handle_njmp).
use mario_js.Prelude.{
  length-take, ℕ, ◌+◌, ◌-◌, ◌%◌, ◌^◌, ◌≤◌, ◌<◌, ◌≡◌, refl, ap, ◌∙◌, ◌⊎◌, Bool, true, false, ◌||◌,
  inl, inr, List, [], ◌∷◌, ◌++◌, length, length-append, ltb, ◌==◌, if◌then◌else◌, none, some, arith,
  u32,
}
use mario_js.ByteCode.{
  ByteCode, illegal_pc, off_mask, ins_word, op_of, off_of, bc_reserve, jump_offset, bc_add_instr,
}
use mario_js.ByteCode.Instr
use mario_js.ByteCode.Words.{ins_word-reads}
use mario_js.ByteCode.Emit.{code, IsValid, Emits, bc_add-Emits}
use mario_js.ByteCode.Marks.{is_forward, target_of, jump_target}

-- The pc after a forward jump; the pc is that of the next word when a handler runs.
unfoldable pub handle_jmp : ℕ → ℕ → ℕ
handle_jmp pc offset = ((pc + offset) % u32 + u32 - 1) % u32

-- The step of pc in handle_jmpb and, for NJMPB, in handle_njmp.
unfoldable pub jump_back : ℕ → ℕ → ℕ
jump_back pc offset = ((pc + u32 - offset) % u32 + u32 - 1) % u32

-- The pc after handle_njmp on a value that is truthy or not.
unfoldable pub njmp_pc : Bool → ℕ → ℕ → ℕ → ℕ
unfolding handle_jmp jump_back
njmp_pc truthy pc instr offset =
    if truthy then pc else if instr == Instr.njmp then handle_jmp pc offset else jump_back pc offset

back_below : (op : ℕ) → (op ≡ Instr.jmpb) ⊎ (op ≡ Instr.njmpb) → op < 256
back_below op (inl e) = omega arith
back_below op (inr e) = omega arith

not_forward : (op : ℕ) → (op ≡ Instr.jmpb) ⊎ (op ≡ Instr.njmpb) → is_forward op ≡ false
not_forward op (inl e) = rw e refl
not_forward op (inr e) = rw e refl

is_back :
    (op : ℕ)
    → (op ≡ Instr.jmpb) ⊎ (op ≡ Instr.njmpb)
    → (op == Instr.jmpb || op == Instr.njmpb) ≡ true
is_back op (inl e) = rw e refl
is_back op (inr e) = rw e refl

back_target :
    (i op off : ℕ)
    → (op ≡ Instr.jmpb) ⊎ (op ≡ Instr.njmpb)
    → off < off_mask
    → off ≤ i
    → i < u32 - 1
    → (jump_target i (ins_word op off) ≡ some (i - off))
      × (jump_back (i + 1) (off_of (ins_word op off)) ≡ i - off)
unfolding jump_target target_of jump_back
back_target i op off back near fits bound =
    let small : op < 256 = back_below op back in
    let (is_op, is_off, clear) = ins_word-reads op off small in
    let exact : off_of (ins_word op off) ≡ off = omega (arith, is_off) in
    let patched : (off == off_mask) ≡ false = ground arith in
    let within : ltb i off ≡ false = ground arith in
    rw (is_op, exact) (rw (patched, not_forward op back, is_back op back, within) refl, omega arith)

-- A reserved word jumps nowhere.
no_target : (i op : ℕ) → op < 256 → jump_target i (ins_word op off_mask) ≡ none
unfolding jump_target target_of
no_target i op small =
    let (is_op, is_off, clear) = ins_word-reads op off_mask small in rw is_off refl

module _ (fresh : ℕ → List ℕ) (sized : (n : ℕ) → length (fresh n) ≡ n) (bc : ByteCode)
    (v : IsValid bc) (small : bc.cindex < 2 ^ 31) where
  -- On a valid buffer of fewer than 2 ^ 31 words, bc_reserve appends one word, which jumps nowhere, and gives
  -- its position.
  pub bc_reserve-Emits :
      Emits bc (bc_reserve fresh bc).0 (code bc ++ (ins_word Instr.nil off_mask ∷ []))
      × ((bc_reserve fresh bc).1 ≡ bc.cindex)
      × (jump_target bc.cindex (ins_word Instr.nil off_mask) ≡ none)
  unfolding bc_reserve
  bc_reserve-Emits =
      let e = bc_add-Emits fresh sized bc (ins_word Instr.nil off_mask) v small in
      let before = length-take bc.cindex bc.code_buf (omega (arith, v.sized, v.fits)) in
      let (is_op, is_off, clear) = ins_word-reads Instr.nil off_mask (omega arith) in
      (
        e,
        omega (arith, e.counts, before, length-append (code bc) (ins_word Instr.nil off_mask ∷ [])),
        no_target bc.cindex Instr.nil (omega arith),
      )

  -- bc_add_instr with a JMPB or NJMPB and no target appends a word that jumps back to the anchor, when the
  -- anchor is in the code and fewer than OFF_MASK words away; the machine goes there.
  pub bc_add_instr-jumps-back :
      (anchor op : ℕ)
      → (op ≡ Instr.jmpb) ⊎ (op ≡ Instr.njmpb)
      → anchor ≤ bc.cindex
      → bc.cindex - anchor < off_mask
      → (word : ℕ) × Emits bc (bc_add_instr fresh bc anchor op illegal_pc) (code bc ++ (word ∷ []))
        × (op_of word ≡ op)
        × (jump_target bc.cindex word ≡ some anchor)
        × (jump_back (bc.cindex + 1) (off_of word) ≡ anchor)
  unfolding bc_add_instr jump_offset
  bc_add_instr-jumps-back anchor op back le near =
      let word = ins_word op (bc.cindex - anchor) in
      let (jumps, goes) =
        back_target bc.cindex op (bc.cindex - anchor) back near (omega arith) (omega arith) in
      let is : jump_offset anchor bc.cindex ≡ bc.cindex - anchor = ground arith in
      (
        word,
        rw is (bc_add-Emits fresh sized bc word v small),
        (ins_word-reads op (bc.cindex - anchor) (back_below op back)).0,
        jumps ∙ ap some (omega arith),
        goes ∙ omega arith,
      )
