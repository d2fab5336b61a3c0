-- ===== src/ByteCode/Marks/Flags.antt =====
-- What bc_mark_jump_targets (mario/mario.c) does to the words of the code, and what bc_pop_elidable then says.
use Prim.Native.Nat.{bit_and, bit_or}
use mario_js.Prelude.{
  ℕ, zero, suc, ◌+◌, ◌-◌, ◌/◌, ◌%◌, ◌^◌, ◌≤◌, ◌<◌, ◌≡◌, refl, ap, sym, subst, ◌∙◌, ◌≢◌,
  if◌then◌else◌, false, Bool-cases, inl, inr, List, length, length-set, get_or, get_or-set, set,
  ltb, ◌==◌, Option, none, some, arith,
}
use mario_js.ByteCode.{ByteCode, off_mask, opt_jmptgt, op_of, off_of}
use mario_js.ByteCode.Instr
use mario_js.ByteCode.Words.{op_of_lem, off_of_lem, mark_lem, is_marked_lem}
use mario_js.ByteCode.Marks.{
  target_of, jump_target, mark_slot, mark_loop, scan_start, bc_mark_jump_targets, bc_pop_elidable,
}

-- Where the word at `k` can jump to: ahead by its operand, in 32 bits, or back by it, to the start of the code
-- at most; a word whose jump is still open, with OFF_MASK, jumps nowhere.
pub data Jumps (k word : ℕ) : ℕ → Type 0 where
  jmp : op_of word ≡ Instr.jmp → off_of word ≢ off_mask → Jumps k word ((k + off_of word) % 2 ^ 32)
  njmp :
      op_of word ≡ Instr.njmp → off_of word ≢ off_mask → Jumps k word ((k + off_of word) % 2 ^ 32)
  scor :
      op_of word ≡ Instr.scor → off_of word ≢ off_mask → Jumps k word ((k + off_of word) % 2 ^ 32)
  scand :
      op_of word ≡ Instr.scand → off_of word ≢ off_mask → Jumps k word ((k + off_of word) % 2 ^ 32)
  nullish :
      op_of word ≡ Instr.nullish
      → off_of word ≢ off_mask
      → Jumps k word ((k + off_of word) % 2 ^ 32)
  try : op_of word ≡ Instr.try → off_of word ≢ off_mask → Jumps k word ((k + off_of word) % 2 ^ 32)
  block :
      op_of word ≡ Instr.block → off_of word ≢ off_mask → Jumps k word ((k + off_of word) % 2 ^ 32)
  jmpb : op_of word ≡ Instr.jmpb → off_of word ≢ off_mask → Jumps k word (k - off_of word)
  njmpb : op_of word ≡ Instr.njmpb → off_of word ≢ off_mask → Jumps k word (k - off_of word)

back_lem : (k off : ℕ) → (if ltb k off then 0 else k - off) ≡ k - off
back_lem k off = elim (Bool-cases (ltb k off)) [
  | inl e ↦ rw e (let below : k < off = ground arith in omega arith)
  | inr e ↦ rw e refl
]

open_lem : (off : ℕ) → off ≢ off_mask → (off == off_mask) ≡ false
open_lem off h = elim (Bool-cases (off == off_mask)) [
  | inl e ↦ absurd (h (ground (arith, e)))
  | inr e ↦ e
]

-- The scan knows each instruction that jumps.
Jumps-target : (k word t : ℕ) → Jumps k word t → jump_target k word ≡ some t
unfolding jump_target target_of
Jumps-target k word t (jmp o h) = rw (open_lem _ h, o) refl
Jumps-target k word t (njmp o h) = rw (open_lem _ h, o) refl
Jumps-target k word t (scor o h) = rw (open_lem _ h, o) refl
Jumps-target k word t (scand o h) = rw (open_lem _ h, o) refl
Jumps-target k word t (nullish o h) = rw (open_lem _ h, o) refl
Jumps-target k word t (try o h) = rw (open_lem _ h, o) refl
Jumps-target k word t (block o h) = rw (open_lem _ h, o) refl
Jumps-target k word t (jmpb o h) = rw (open_lem _ h, o) (ap some (back_lem k (off_of word)))
Jumps-target k word t (njmpb o h) = rw (open_lem _ h, o) (ap some (back_lem k (off_of word)))

-- The flag INSTR_OPT_JMPTGT of the word at `j`, as a digit.
abbrev pub flag_at : List ℕ → ℕ → ℕ
flag_at code j = get_or code j 0 / 2 ^ 30 % 2

-- The words are those of `code` below the flag, and no flag is lost.
pub record Flags (code code' : List ℕ) : Type 0 where
  pub same_length : length code' ≡ length code
  pub same_low : (j : ℕ) → get_or code' j 0 % 2 ^ 30 ≡ get_or code j 0 % 2 ^ 30
  pub kept : (j : ℕ) → flag_at code j ≡ 1 → flag_at code' j ≡ 1

Flags-refl : (code : List ℕ) → Flags code code
Flags-refl code = record { same_length = refl; same_low = λ j. refl; kept = λ j h. h }

Flags-trans : (a b c : List ℕ) → Flags a b → Flags b c → Flags a c
Flags-trans a b c f g = record {
  same_length = g.same_length ∙ f.same_length;
  same_low = λ j. g.same_low j ∙ f.same_low j;
  kept = λ j h. g.kept j (f.kept j h);
}

-- The bit of the flag is none of OP's and OFF's.
pub jump_target-low : (i v w : ℕ) → v % 2 ^ 30 ≡ w % 2 ^ 30 → jump_target i v ≡ jump_target i w
unfolding jump_target
jump_target-low i v w h =
    let o : op_of v ≡ op_of w = omega (arith, op_of_lem v, op_of_lem w, h) in
    let f : off_of v ≡ off_of w = omega (arith, off_of_lem v, off_of_lem w, h) in rw (o, f)

module _ (code : List ℕ) (t : ℕ) (h : t < length code) where
  set-hit : (v : ℕ) → get_or (set code t v) t 0 ≡ v
  set-hit v = let g = get_or-set code t t v 0 h in ground (arith, g)

  set-miss : (v j : ℕ) → (j == t) ≡ false → get_or (set code t v) j 0 ≡ get_or code j 0
  set-miss v j e = get_or-set code j t v 0 h ∙ rw e refl

  mark-hit : flag_at (set code t (bit_or (get_or code t 0) opt_jmptgt)) t ≡ 1
  mark-hit = let w = get_or code t 0 in omega (arith, set-hit (bit_or w opt_jmptgt), mark_lem w)

  mark-Flags : Flags code (set code t (bit_or (get_or code t 0) opt_jmptgt))
  mark-Flags =
      let w = get_or code t 0 in
      let v = bit_or w opt_jmptgt in
      let low : get_or (set code t v) t 0 % 2 ^ 30 ≡ w % 2 ^ 30 =
        omega (arith, set-hit v, mark_lem w) in
      record {
        same_length = length-set code t v;
        same_low = λ j. elim (Bool-cases (j == t)) [
          | inl e ↦
              let same : j ≡ t = ground arith in
              subst (λ x. get_or (set code t v) x 0 % 2 ^ 30 ≡ get_or code x 0 % 2 ^ 30) (sym same)
                low
          | inr e ↦ ap (λ (x : ℕ). x % 2 ^ 30) (set-miss v j e)
        ];
        kept = λ j f. elim (Bool-cases (j == t)) [
          | inl e ↦
              let same : j ≡ t = ground arith in
              subst (λ x. flag_at (set code t v) x ≡ 1) (sym same) mark-hit
          | inr e ↦ ap (λ (x : ℕ). x / 2 ^ 30 % 2) (set-miss v j e) ∙ f
        ];
      }

slot-Flags :
    (cindex : ℕ) (tgt : Option ℕ) (code : List ℕ)
    → cindex ≤ length code
    → Flags code (mark_slot cindex tgt code)
      × ((t : ℕ) → tgt ≡ some t → t < cindex → flag_at (mark_slot cindex tgt code) t ≡ 1)
unfolding mark_slot
slot-Flags cindex none code h = (Flags-refl code, λ t e lt. absurd (ground (arith, e)))
slot-Flags cindex (some tgt) code h = elim (Bool-cases (ltb tgt cindex)) [
  | inl e ↦
      let inside : tgt < length code = ground arith in
      rw e (
        mark-Flags code tgt inside,
        λ t f lt.
            let same : tgt ≡ t = ground (arith, f) in
            subst (λ x. flag_at (set code tgt (bit_or (get_or code tgt 0) opt_jmptgt)) x ≡ 1) same
              (mark-hit code tgt inside),
      )
  | inr e ↦
      rw e
        (Flags-refl code, λ t f lt. let same : tgt ≡ t = ground (arith, f) in absurd (ground arith))
]

loop-Flags :
    (left i cindex : ℕ) (code : List ℕ)
    → cindex ≤ length code
    → Flags code (mark_loop left i cindex code)
      × ((k t : ℕ)
          → i ≤ k
          → k < i + left
          → jump_target k (get_or code k 0) ≡ some t
          → t < cindex
          → flag_at (mark_loop left i cindex code) t ≡ 1)
unfolding mark_loop
loop-Flags zero i cindex code h = (Flags-refl code, λ k t ge lt. absurd (omega arith))
loop-Flags (suc left) i cindex code h =
    let tgt = jump_target i (get_or code i 0) in
    let next = mark_slot cindex tgt code in
    let (first, hit) = slot-Flags cindex tgt code h in
    let (others, found) = loop-Flags left (i + 1) cindex next (omega (arith, first.same_length)) in
    (
      Flags-trans code next _ first others,
      λ k t ge lt jumps inside. elim (Bool-cases (k == i)) [
        | inl e ↦
            let same : k ≡ i = ground arith in
            others.kept t
              (hit t (subst (λ x. jump_target x (get_or code x 0) ≡ some t) same jumps) inside)
        | inr e ↦
            found k t (ground arith) (omega arith)
              (jump_target-low k (get_or next k 0) (get_or code k 0) (first.same_low k) ∙ jumps)
              inside
      ],
    )

flagged-elidable : (code : List ℕ) (t : ℕ) → flag_at code t ≡ 1 → bc_pop_elidable code t ≡ false
unfolding bc_pop_elidable
flagged-elidable code t h =
    let m : bit_and (get_or code t 0) opt_jmptgt ≡ 2 ^ 30 =
      omega (arith, is_marked_lem (get_or code t 0)) in
    ground (arith, m)

module _ (bc : ByteCode) (some_code : 0 < length bc.code_buf)
    (fits : bc.cindex ≤ length bc.code_buf) where
  -- On a buffer with code, bc_mark_jump_targets changes no word but for flags it sets, and leaves the whole
  -- code scanned. From the first word not scanned yet on, every target inside the code of an
  -- instruction JMP, NJMP, SCOR, SCAND, NULLISH, TRY, BLOCK, JMPB or NJMPB whose operand is not OFF_MASK is
  -- flagged, and the elision of a POP there is refused.
  pub bc_mark_jump_targets-Flags :
      Flags bc.code_buf (bc_mark_jump_targets bc).code_buf
      × ((bc_mark_jump_targets bc).cindex ≡ bc.cindex)
      × ((bc_mark_jump_targets bc).jmptgt_marked ≡ bc.cindex)
      × ((k t : ℕ)
          → scan_start bc ≤ k
          → k < bc.cindex
          → Jumps k (get_or bc.code_buf k 0) t
          → t < bc.cindex
          → (flag_at (bc_mark_jump_targets bc).code_buf t ≡ 1)
            × (bc_pop_elidable (bc_mark_jump_targets bc).code_buf t ≡ false))
  unfolding bc_mark_jump_targets
  bc_mark_jump_targets-Flags =
      let start = scan_start bc in
      let some : (length bc.code_buf == 0) ≡ false = ground arith in
      elim (Bool-cases (start == bc.cindex)) [
        | inl e ↦
            rw (some, e)
              (Flags-refl bc.code_buf, refl, ground arith, λ k t ge lt. absurd (ground arith))
        | inr e ↦
            let (all, found) = loop-Flags (bc.cindex - start) start bc.cindex bc.code_buf fits in
            rw (some, e)
              (
                all,
                refl,
                refl,
                λ k t ge lt jumps inside.
                    let f = found k t ge (omega arith) (Jumps-target k _ t jumps) inside in
                    (
                      f,
                      flagged-elidable (mark_loop (bc.cindex - start) start bc.cindex bc.code_buf) t
                          f,
                    ),
              )
      ]
