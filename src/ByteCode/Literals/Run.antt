-- ===== src/ByteCode/Literals/Run.antt =====
-- The handlers of mario/mario.c on the words that bc_gen_str emits: a number comes back.
use mario_js.Prelude.{
  length-take, ℕ, ◌+◌, ◌-◌, ◌*◌, ◌%◌, ◌^◌, ◌<◌, ◌≡◌, refl, ap, subst, ◌∙◌, ◌⊎◌, Bool, true, false,
  Bool-cases, inl, inr, List, [], ◌∷◌, ◌++◌, length, length-append, get_or, All, ltb, leb, ◌==◌,
  if◌then◌else◌, Option, some, arith, u32, u64,
}
use Prim.Native.Nat.{bit_and}
use mario_js.Prelude.Int.{pos}
use mario_js.ByteCode.{ByteCode, off_mask, ins_word, off_of, bc_bytecode}
use mario_js.ByteCode.Instr
use mario_js.ByteCode.Words.{ins_word-reads}
use mario_js.ByteCode.Emit.{code, IsValid, Emits, read_emitted}
use mario_js.ByteCode.Literals.{
  Conversions, Literal, literal_of, bc_gen_str, first_word, second_word, int_of_word,
}
use mario_js.ByteCode.Literals.Machine.{
  Value, Vm, int, int64, float64, opt_cache, var_cache, cached, try_var_cache, nil_if, nil_two_if,
  handle_int, handle_int_s, payload, handle_wide, handle_int64, handle_float64, step,
}
use mario_js.ByteCode.Literals.Numbers.{short-Emits, int-Emits, wide-Emits}
use mario_js.ByteCode.Literals.Numbers.Decimal.{IsDigit, value, literal_of-Narrowest}

-- A step gives a state with the value on the stack and this pc.
pub record Pushes (vm : Vm) (v : Value) (pc : ℕ) (result : Option Vm) : Type 0 where
  pub next : Vm
  pub is : result ≡ some next
  pub stack : next.stack ≡ v ∷ vm.stack
  pub goes : next.pc ≡ pc

moved :
    {vm : Vm} {v : Value} {pc pc' : ℕ} {result : Option Vm}
    → Pushes vm v pc result
    → pc ≡ pc'
    → Pushes vm v pc' result
moved p e = record { next = p.next; is = p.is; stack = p.stack; goes = p.goes ∙ e }

-- The cache of constants touches neither pc nor the stack.
try_var_cache-keeps :
    (vm : Vm) (at : ℕ) (v : Value)
    → ((try_var_cache vm at v).0.pc ≡ vm.pc) × ((try_var_cache vm at v).0.stack ≡ vm.stack)
unfolding try_var_cache var_cache cached
try_var_cache-keeps vm at v = elim (Bool-cases (vm.cache_size == 0)) [
  | inl e ↦ rw e (refl, refl)
  | inr e ↦ elim (Bool-cases (bit_and (get_or vm.code at 0) opt_cache == 0)) [
    | inl f ↦ rw (e, f) (refl, refl)
    | inr f ↦ elim (Bool-cases (leb vm.cache_size (length vm.var_cache))) [
      | inl g ↦ rw (e, f, g) (refl, refl)
      | inr g ↦ rw (e, f, g) (refl, refl)
    ]
  ]
]

nil_if-keeps :
    (r : Vm × Bool) (at : ℕ) → ((nil_if r at).pc ≡ r.0.pc) × ((nil_if r at).stack ≡ r.0.stack)
unfolding nil_if
nil_if-keeps (vm, true) at = (refl, refl)
nil_if-keeps (vm, false) at = (refl, refl)

nil_two_if-keeps :
    (r : Vm × Bool) (at : ℕ)
    → ((nil_two_if r at).pc ≡ r.0.pc) × ((nil_two_if r at).stack ≡ r.0.stack)
unfolding nil_two_if
nil_two_if-keeps (vm, true) at = (refl, refl)
nil_two_if-keeps (vm, false) at = (refl, refl)

module _ (low_first : Bool) (vm : Vm) (bound : vm.pc < u32 - 3) where
  abbrev here : ℕ → ℕ
  here k = get_or vm.code (vm.pc + k) 0

  at_zero : get_or vm.code vm.pc 0 ≡ here 0
  at_zero = ap (λ (t : ℕ). get_or vm.code t 0) {x = vm.pc} {y = vm.pc + 0} (omega arith)

  short_step :
      (n : ℕ)
      → n < off_mask
      → here 0 ≡ ins_word Instr.int_s n
      → Pushes vm (int (pos n)) (vm.pc + 1) (step low_first vm)
  unfolding step handle_int_s
  short_step n lt e =
      let (is_op, is_off, clear) = ins_word-reads Instr.int_s n (omega arith) in
      let exact : off_of (ins_word Instr.int_s n) ≡ n = omega (arith, is_off) in
      let next = record vm { pc = (vm.pc + 1) % u32 } in
      let (pc, stack) = try_var_cache-keeps next (next.pc - 1) (int (pos n)) in
      rw (at_zero ∙ e, is_op, exact)
        (record {
          next = _;
          is = refl;
          stack = ap (λ t. int (pos n) ∷ t) stack;
          goes = pc ∙ omega arith;
        })

  int-step :
      (n : ℕ)
      → n < 2 ^ 31
      → here 0 ≡ ins_word Instr.int off_mask
      → here 1 ≡ n
      → Pushes vm (int (pos n)) (vm.pc + 2) (step low_first vm)
  unfolding step handle_int
  int-step n lt e f =
      let (is_op, is_off, clear) = ins_word-reads Instr.int off_mask (omega arith) in
      let wrap : (vm.pc + 1) % u32 ≡ vm.pc + 1 = omega arith in
      let low : ltb n 2147483648 ≡ true = ground arith in
      let next = record vm { pc = (vm.pc + 1 + 1) % u32 } in
      let r = try_var_cache next (next.pc - 2) (int (pos n)) in
      let (pc, stack) = try_var_cache-keeps next (next.pc - 2) (int (pos n)) in
      let (pc', stack') = nil_if-keeps r (next.pc - 1) in
      rw (at_zero ∙ e, is_op, wrap, f, low)
        (record {
          next = _;
          is = refl;
          stack = ap (λ t. int (pos n) ∷ t) (stack' ∙ stack);
          goes = pc' ∙ pc ∙ omega arith;
        })

  -- The payload of two words is the number they were made of.
  payload_step :
      (wide : ℕ)
      → wide < u64
      → here 1 ≡ first_word low_first wide
      → here 2 ≡ second_word low_first wide
      → payload low_first (record vm { pc = vm.pc + 1 }) ≡ wide
  unfolding payload
  payload_step wide lt f g =
      let second : get_or vm.code (vm.pc + 1 + 1) 0 ≡ second_word low_first wide =
        ap (λ (t : ℕ). get_or vm.code t 0) {x = vm.pc + 1 + 1} {y = vm.pc + 2} (omega arith) ∙ g in
      rw (f, second) (whole low_first)
    where
      whole :
          (lf : Bool)
          → (if lf
              then first_word lf wide + second_word lf wide * u32
              else second_word lf wide + first_word lf wide * u32)
            ≡ wide
      whole true = omega arith
      whole false = omega arith

  -- The state in which a handler runs.
  abbrev fetched : Vm
  fetched = record vm { pc = vm.pc + 1 }

  handled :
      (make : ℕ → Value) (wide : ℕ)
      → payload low_first fetched ≡ wide
      → ((handle_wide low_first make fetched).stack ≡ make wide ∷ vm.stack)
        × ((handle_wide low_first make fetched).pc ≡ vm.pc + 3)
  unfolding handle_wide
  handled make wide e =
      let v = make (payload low_first fetched) in
      let next = record vm { pc = (vm.pc + 1 + 2) % u32 } in
      let r = try_var_cache next (next.pc - 3) v in
      let (pc, stack) = try_var_cache-keeps next (next.pc - 3) v in
      let (pc', stack') = nil_two_if-keeps r (next.pc - 2) in
      (ap (λ t. v ∷ t) (stack' ∙ stack) ∙ ap (λ t. make t ∷ vm.stack) e, pc' ∙ pc ∙ omega arith)

  int64-step :
      (wide : ℕ)
      → wide < u64
      → here 0 ≡ ins_word Instr.int64 off_mask
      → here 1 ≡ first_word low_first wide
      → here 2 ≡ second_word low_first wide
      → Pushes vm (int64 (int_of_word u64 wide)) (vm.pc + 3) (step low_first vm)
  unfolding step handle_int64
  int64-step wide lt e f g =
      let (is_op, is_off, clear) = ins_word-reads Instr.int64 off_mask (omega arith) in
      let wrap : (vm.pc + 1) % u32 ≡ vm.pc + 1 = omega arith in
      let (stack, pc) = handled (λ w. int64 (int_of_word u64 w)) wide (payload_step wide lt f g) in
      rw (at_zero ∙ e, is_op, wrap) (record { next = _; is = refl; stack = stack; goes = pc })

  float64-step :
      (wide : ℕ)
      → wide < u64
      → here 0 ≡ ins_word Instr.float64 off_mask
      → here 1 ≡ first_word low_first wide
      → here 2 ≡ second_word low_first wide
      → Pushes vm (float64 wide) (vm.pc + 3) (step low_first vm)
  unfolding step handle_float64
  float64-step wide lt e f g =
      let (is_op, is_off, clear) = ins_word-reads Instr.float64 off_mask (omega arith) in
      let wrap : (vm.pc + 1) % u32 ≡ vm.pc + 1 = omega arith in
      let (stack, pc) = handled float64 wide (payload_step wide lt f g) in
      rw (at_zero ∙ e, is_op, wrap) (record { next = _; is = refl; stack = stack; goes = pc })

-- What a decimal literal of the value `n` denotes: a double past 64 bits.
abbrev pub number : ℕ → ℕ → Value
number n double =
    if ltb n (2 ^ 31) then int (pos n) else if ltb n (2 ^ 63) then int64 (pos n) else float64 double

module _ (lib : Conversions) (fresh_words : ℕ → List ℕ) (fresh_slots : ℕ → List (Option (List ℕ)))
    (char_signed low_first : Bool)
    (long_ok : (s : List ℕ)
      → All IsDigit s
      → lib.strtoll s
        ≡ (if ltb (value s) (2 ^ 63) then (pos (value s), false) else (pos (2 ^ 63 - 1), true)))
    (double_ok : (s : List ℕ) → lib.strtod s < u64) (sized : (n : ℕ) → length (fresh_words n) ≡ n)
    (bc : ByteCode) (v : IsValid bc) (small : bc.cindex < 2 ^ 31 - 3) (str : List ℕ)
    (d : All IsDigit str) (vm : Vm) where
  abbrev after : ByteCode
  after = bc_gen_str lib fresh_words fresh_slots char_signed low_first bc Instr.int str

  reads :
      (words : List ℕ) (k : ℕ)
      → Emits bc after (code bc ++ words)
      → vm.code ≡ after.code_buf
      → vm.pc ≡ bc.cindex
      → k < length words
      → get_or vm.code (vm.pc + k) 0 ≡ get_or words k 0
  reads words k e same at lt = rw (same, at) (read_emitted bc after words k v e lt)

  counts :
      (words : List ℕ) → Emits bc after (code bc ++ words) → after.cindex ≡ bc.cindex + length words
  counts words e = omega (
    arith,
    e.counts,
    length-append (code bc) words,
    length-take bc.cindex bc.code_buf (omega (arith, v.sized, v.fits)),
  )

  -- The words of a literal and the step over them.
  abbrev Runs : Value → Type 0
  Runs value =
      (words : List ℕ) × Emits bc after (code bc ++ words)
      × Pushes vm value after.cindex (step low_first vm)

  abbrev gen : Literal
  gen = literal_of lib Instr.int str

  module _ (same : vm.code ≡ after.code_buf) (at : vm.pc ≡ bc.cindex)
      (bound : vm.pc < u32 - 3) where
    int-Runs : (n : ℕ) → gen.instr ≡ Instr.int → gen.i ≡ n → n < 2 ^ 31 → Runs (int (pos n))
    unfolding bc_gen_str bc_bytecode
    int-Runs n is_int is_n lt = elim (Bool-cases (ltb n off_mask)) [
      | inl f ↦
          let words = ins_word Instr.int_s gen.i ∷ [] in
          let emits : Emits bc after (code bc ++ words) =
            short-Emits fresh_words sized low_first bc v small gen is_int (ground (arith, is_n)) in
          let run =
            short_step low_first vm bound n (ground arith)
              (reads words 0 emits same at (omega arith) ∙ ap (ins_word Instr.int_s) is_n) in
          (words, emits, moved run (omega (arith, counts words emits)))
      | inr f ↦
          let words = ins_word gen.instr off_mask ∷ gen.i ∷ [] in
          let emits : Emits bc after (code bc ++ words) =
            int-Emits fresh_words sized low_first bc v small gen is_int (ground (arith, is_n)) in
          let run =
            int-step low_first vm bound n lt
              (reads words 0 emits same at (omega arith) ∙ ap (λ t. ins_word t off_mask) is_int)
              (reads words 1 emits same at (omega arith) ∙ is_n) in
          (words, emits, moved run (omega (arith, counts words emits)))
    ]

    abbrev wide_words : List ℕ
    wide_words =
        ins_word gen.instr off_mask
        ∷ first_word low_first gen.wide
        ∷ second_word low_first gen.wide
        ∷ []

    gen-Emits :
        (gen.instr ≡ Instr.int64) ⊎ (gen.instr ≡ Instr.float64)
        → Emits bc after (code bc ++ wide_words)
    unfolding bc_gen_str bc_bytecode
    gen-Emits is = wide-Emits fresh_words sized low_first bc v small gen is

    int64-Runs :
        (n : ℕ) → gen.instr ≡ Instr.int64 → gen.wide ≡ n → n < 2 ^ 63 → Runs (int64 (pos n))
    int64-Runs n is is_n lt =
        let emits = gen-Emits (inl is) in
        let low : ltb n 9223372036854775808 ≡ true = ground arith in
        let run =
          int64-step low_first vm bound n (omega arith)
            (reads wide_words 0 emits same at (omega arith) ∙ ap (λ t. ins_word t off_mask) is)
            (reads wide_words 1 emits same at (omega arith) ∙ ap (first_word low_first) is_n)
            (reads wide_words 2 emits same at (omega arith) ∙ ap (second_word low_first) is_n) in
        let exact : int64 (int_of_word u64 n) ≡ int64 (pos n) = rw low refl in
        (
          wide_words,
          emits,
          subst (λ t. Pushes vm t after.cindex (step low_first vm)) exact
              (moved run (omega (arith, counts wide_words emits))),
        )

    float64-Runs : (n : ℕ) → gen.instr ≡ Instr.float64 → gen.wide ≡ n → n < u64 → Runs (float64 n)
    float64-Runs n is is_n lt =
        let emits = gen-Emits (inr is) in
        let run =
          float64-step low_first vm bound n lt
            (reads wide_words 0 emits same at (omega arith) ∙ ap (λ t. ins_word t off_mask) is)
            (reads wide_words 1 emits same at (omega arith) ∙ ap (first_word low_first) is_n)
            (reads wide_words 2 emits same at (omega arith) ∙ ap (second_word low_first) is_n) in
        (wide_words, emits, moved run (omega (arith, counts wide_words emits)))

  -- On a valid buffer of fewer than 2 ^ 31 - 3 words, where the C library converts decimal digits as
  -- documented: bc_gen_str on a text of digits appends words, and a machine whose pc is at the first of them
  -- goes behind the last in one step and pushes the number of the text, as an int below 2 ^ 31, as an int64
  -- below 2 ^ 63, and as the double of strtod from there on.
  pub bc_gen_str-Pushes :
      vm.code ≡ after.code_buf
      → vm.pc ≡ bc.cindex
      → (words : List ℕ) × Emits bc after (code bc ++ words)
        × Pushes vm (number (value str) (lib.strtod str)) after.cindex (step low_first vm)
  bc_gen_str-Pushes same at =
      let n = value str in
      let narrow = literal_of-Narrowest lib long_ok str d in
      let bound : vm.pc < u32 - 3 = omega arith in
      elim (Bool-cases (ltb n (2 ^ 31))) [
        | inl e ↦
            let (is_int, is_n) = narrow.short (ground arith) in
            rw e (int-Runs same at bound n is_int is_n (ground arith))
        | inr e ↦ elim (Bool-cases (ltb n (2 ^ 63))) [
          | inl f ↦
              let (is_long, is_n) = narrow.long (ground arith) (ground arith) in
              rw (e, f) (int64-Runs same at bound n is_long is_n (ground arith))
          | inr f ↦
              let (is_double, is_d) = narrow.huge (ground arith) in
              rw (e, f) (float64-Runs same at bound (lib.strtod str) is_double is_d (double_ok str))
        ]
      ]
