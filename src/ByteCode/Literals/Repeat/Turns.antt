-- ===== src/ByteCode/Literals/Repeat/Turns.antt =====
-- The turns of the machine (mario/mario.c) over one number literal.
use mario_js.Prelude.{
  ℕ, zero, suc, ◌+◌, ◌-◌, ◌%◌, ◌^◌, ◌≤◌, ◌<◌, ◌≡◌, ◌≢◌, refl, ap, sym, subst, ◌∙◌, Bool, false,
  List, ◌∷◌, length, get_or, ◌==◌, some, arith, u32, u64,
}
use mario_js.Prelude.Int.{pos}
use mario_js.ByteCode.{op_of, off_of}
use mario_js.ByteCode.Instr
use mario_js.ByteCode.Literals.{int_of_word}
use mario_js.ByteCode.Literals.Machine.{
  Value, Vm, int, int64, float64, try_var_cache, nil_if, nil_two_if, vm_push, handle_int,
  handle_int_s, payload, handle_wide, handle_int64, handle_float64, handle_cache, entry_at, step,
}
use mario_js.ByteCode.Literals.Cache.{word, op_of-low, off_of-low, try_var_cache-Outcome}
use mario_js.ByteCode.Literals.Repeat.{
  Ran, Repeats, Stands, constant, constant, double, double, long, long, pair, plain, plain, run,
  short, short, then_on,
}
use mario_js.ByteCode.Literals.Repeat.Nils.{
  Nilled, nil_if-Nilled, nil_two_if-Nilled, none-Nilled, ran,
}

step-nil :
    (low_first : Bool) (vm : Vm)
    → vm.pc + 1 < u32
    → op_of (word vm vm.pc) ≡ Instr.nil
    → step low_first vm ≡ some (record vm { pc = vm.pc + 1 })
unfolding step
step-nil low_first vm bound is_nil =
    let wrap : (vm.pc + 1) % u32 ≡ vm.pc + 1 = omega arith in rw (is_nil, wrap) refl

run_next :
    (low_first : Bool) (k : ℕ) (vm next : Vm)
    → step low_first vm ≡ some next
    → run low_first (suc k) vm ≡ run low_first k next
unfolding run then_on
run_next low_first k vm next e = ap (λ o. then_on o (run low_first k)) e

-- The turns over the NIL words that a cached literal leaves.
run_nils :
    (low_first : Bool) (k : ℕ) (vm : Vm)
    → vm.pc + k < u32
    → ((j : ℕ) → vm.pc ≤ j → j < vm.pc + k → op_of (word vm j) ≡ Instr.nil)
    → run low_first k vm ≡ some (record vm { pc = vm.pc + k })
unfolding run
run_nils low_first zero vm bound nils =
    ap (λ (t : ℕ). some (record vm { pc = t })) {x = vm.pc} {y = vm.pc + 0} (omega arith)
run_nils low_first (suc k) vm bound nils =
    let next = record vm { pc = vm.pc + 1 } in
    run_next low_first k vm next
      (step-nil low_first vm (omega arith) (nils vm.pc (omega arith) (omega arith)))
    ∙ run_nils low_first k next (omega arith) (λ j lo hi. nils j (omega arith) (omega arith))
    ∙ ap (λ (t : ℕ). some (record vm { pc = t })) {x = vm.pc + 1 + k} {y = vm.pc + suc k}
        (omega arith)

module _ (low_first : Bool) (vm : Vm) (v : Value) (n : ℕ) (inside : vm.pc + n ≤ length vm.code)
    (bound : length vm.code < u32) (small : vm.cache_size ≤ 2 ^ 20) where
  -- The state of a handler of the literal, at the end of its words.
  abbrev behind : Vm
  behind = record vm { pc = vm.pc + n }

  one_turn :
      (vm' : Vm)
      → step low_first vm ≡ some vm'
      → Ran low_first behind vm' vm.pc v n
      → Repeats low_first vm vm.pc v n
  unfolding run
  one_turn vm' e r = (
    1,
    vm',
    run_next low_first 0 vm vm' e,
    record {
      goes = r.goes;
      pushed = r.pushed;
      same_size = r.same_size;
      same_length = r.same_length;
      outside = r.outside;
      entries = r.entries;
      stands = r.stands;
    },
  )

  step_constant :
      op_of (word vm vm.pc) ≡ Instr.cache
      → entry_at vm.var_cache (off_of (word vm vm.pc)) ≡ some v
      → (vm.cache_size == 0) ≡ false
      → 0 < n
      → step low_first vm ≡ some (record vm { pc = vm.pc + 1; stack = v ∷ vm.stack })
  unfolding step handle_cache
  step_constant is_op here size some_words =
      let wrap : (vm.pc + 1) % u32 ≡ vm.pc + 1 = omega arith in rw (is_op, size, here, wrap) refl

  constant-Repeats :
      op_of (word vm vm.pc) ≡ Instr.cache
      → entry_at vm.var_cache (off_of (word vm vm.pc)) ≡ some v
      → (vm.cache_size == 0) ≡ false
      → 0 < n
      → ((j : ℕ) → vm.pc < j → j < vm.pc + n → op_of (word vm j) ≡ Instr.nil)
      → Repeats low_first vm vm.pc v n
  constant-Repeats is_op here size some_words nils =
      let pushed = record vm { pc = vm.pc + 1; stack = v ∷ vm.stack } in
      let all =
        run_nils low_first (n - 1) pushed (omega arith)
          (λ j lo hi. nils j (omega arith) (omega arith)) in
      (
        suc (n - 1),
        record vm { pc = vm.pc + n; stack = v ∷ vm.stack },
        run_next low_first (n - 1) vm pushed (step_constant is_op here size some_words)
            ∙ all
            ∙ ap (λ (t : ℕ). some (record vm { pc = t; stack = v ∷ vm.stack }))
                {x = vm.pc + 1 + (n - 1)} {y = vm.pc + n} (omega arith),
        record {
          goes = refl;
          pushed = refl;
          same_size = refl;
          same_length = refl;
          outside = λ j out. refl;
          entries = λ i x h. h;
          stands = constant is_op here size some_words nils;
        },
      )

  step_short :
      op_of (word vm vm.pc) ≡ Instr.int_s
      → v ≡ int (pos (off_of (word vm vm.pc)))
      → n ≡ 1
      → step low_first vm ≡ some (vm_push (try_var_cache behind vm.pc v).0 v)
  unfolding step handle_int_s
  step_short is_op is one =
      let wrap : (vm.pc + 1) % u32 ≡ vm.pc + n = omega arith in
      let at : vm.pc + n - 1 ≡ vm.pc = omega arith in rw (is_op, wrap, at, sym is) refl

  short-Repeats :
      op_of (word vm vm.pc) ≡ Instr.int_s
      → v ≡ int (pos (off_of (word vm vm.pc)))
      → n ≡ 1
      → Repeats low_first vm vm.pc v n
  short-Repeats is_op is one =
      let wrap : (vm.pc + 1) % u32 ≡ vm.pc + n = omega arith in
      let at : vm.pc + n - 1 ≡ vm.pc = omega arith in
      let r = try_var_cache behind vm.pc v in
      one_turn (vm_push r.0 v) (step_short is_op is one) (
        ran low_first vm.pc n v behind inside (omega arith) transfer r.0 small refl
          (subst (λ m. Nilled vm.pc m r r.0) (sym one) (none-Nilled vm.pc r)))
    where
      transfer :
          (code : List ℕ) (entries : List Value)
          → get_or code vm.pc 0 % 2 ^ 31 ≡ word vm vm.pc % 2 ^ 31
          → ((j : ℕ) → j ≢ vm.pc → get_or code j 0 ≡ word vm j)
          → Stands low_first code entries vm.cache_size vm.pc v n
      transfer code entries low other =
          short (op_of-low _ _ low ∙ is_op)
            (is ∙ ap (λ (t : ℕ). int (pos t)) (sym (off_of-low _ _ low))) one

  step_plain :
      op_of (word vm vm.pc) ≡ Instr.int
      → v ≡ int (int_of_word u32 (word vm (vm.pc + 1)))
      → n ≡ 2
      → step low_first vm ≡ some (vm_push (nil_if (try_var_cache behind vm.pc v) (vm.pc + 1)) v)
  unfolding step handle_int
  step_plain is_op is two =
      let first : (vm.pc + 1) % u32 ≡ vm.pc + 1 = omega arith in
      let wrap : (vm.pc + 1 + 1) % u32 ≡ vm.pc + n = omega arith in
      let at : vm.pc + n - 2 ≡ vm.pc = omega arith in
      let next : vm.pc + n - 1 ≡ vm.pc + 1 = omega arith in
      rw (is_op, first, wrap, at, next, sym is) refl

  plain-Repeats :
      op_of (word vm vm.pc) ≡ Instr.int
      → v ≡ int (int_of_word u32 (word vm (vm.pc + 1)))
      → n ≡ 2
      → Repeats low_first vm vm.pc v n
  plain-Repeats is_op is two =
      let r = try_var_cache behind vm.pc v in
      let (t, o) = try_var_cache-Outcome behind vm.pc v (omega arith) small in
      let after = nil_if r (vm.pc + 1) in
      one_turn (vm_push after v) (step_plain is_op is two) (
        ran low_first vm.pc n v behind inside (omega arith) transfer after small refl (
          subst (λ m. Nilled vm.pc m r after) (sym two)
            (nil_if-Nilled vm.pc r (omega (arith, t.same_length)))))
    where
      transfer :
          (code : List ℕ) (entries : List Value)
          → get_or code vm.pc 0 % 2 ^ 31 ≡ word vm vm.pc % 2 ^ 31
          → ((j : ℕ) → j ≢ vm.pc → get_or code j 0 ≡ word vm j)
          → Stands low_first code entries vm.cache_size vm.pc v n
      transfer code entries low other =
          plain (op_of-low _ _ low ∙ is_op)
            (is
              ∙ ap (λ (w : ℕ). int (int_of_word u32 w))
                  (sym (other (vm.pc + 1) (λ e. omega arith))))
            two

  -- The 64 bits behind the instruction.
  abbrev wide : ℕ
  wide = pair low_first (word vm (vm.pc + 1)) (word vm (vm.pc + 2))

  handled :
      (make : ℕ → Value)
      → v ≡ make wide
      → n ≡ 3
      → handle_wide low_first make (record vm { pc = vm.pc + 1 })
        ≡ vm_push (nil_two_if (try_var_cache behind vm.pc v) (vm.pc + 1)) v
  unfolding handle_wide payload
  handled make is three =
      let wrap : (vm.pc + 1 + 2) % u32 ≡ vm.pc + n = omega arith in
      let at : vm.pc + n - 3 ≡ vm.pc = omega arith in
      let next : vm.pc + n - 2 ≡ vm.pc + 1 = omega arith in
      let second : vm.pc + 1 + 1 ≡ vm.pc + 2 = omega arith in
      rw (wrap, at, next, second, sym is) refl

  wide-Repeats :
      (make : ℕ → Value)
      → v ≡ make wide
      → n ≡ 3
      → step low_first vm ≡ some (handle_wide low_first make (record vm { pc = vm.pc + 1 }))
      → ((code : List ℕ) (entries : List Value)
          → get_or code vm.pc 0 % 2 ^ 31 ≡ word vm vm.pc % 2 ^ 31
          → pair low_first (get_or code (vm.pc + 1) 0) (get_or code (vm.pc + 2) 0) ≡ wide
          → Stands low_first code entries vm.cache_size vm.pc v n)
      → Repeats low_first vm vm.pc v n
  wide-Repeats make is three steps transfer =
      let r = try_var_cache behind vm.pc v in
      let (t, o) = try_var_cache-Outcome behind vm.pc v (omega arith) small in
      let after = nil_two_if r (vm.pc + 1) in
      one_turn (vm_push after v) (steps ∙ ap some (handled make is three)) (
        ran low_first vm.pc n v behind inside (omega arith)
          (λ code entries low other. transfer code entries low (
            ap (λ (x : ℕ). pair low_first x (get_or code (vm.pc + 2) 0))
              (other (vm.pc + 1) (λ e. omega arith))
            ∙ ap (pair low_first (word vm (vm.pc + 1))) (other (vm.pc + 2) (λ e. omega arith))))
          after small refl
          (subst (λ m. Nilled vm.pc m r after) (sym three)
            (nil_two_if-Nilled vm.pc r (omega (arith, t.same_length)))))

  step_long :
      op_of (word vm vm.pc) ≡ Instr.int64
      → n ≡ 3
      → step low_first vm
        ≡ some
            (handle_wide low_first (λ w. int64 (int_of_word u64 w)) (record vm { pc = vm.pc + 1 }))
  unfolding step handle_int64
  step_long is_op three =
      let first : (vm.pc + 1) % u32 ≡ vm.pc + 1 = omega arith in rw (is_op, first) refl

  step_double :
      op_of (word vm vm.pc) ≡ Instr.float64
      → n ≡ 3
      → step low_first vm ≡ some (handle_wide low_first float64 (record vm { pc = vm.pc + 1 }))
  unfolding step handle_float64
  step_double is_op three =
      let first : (vm.pc + 1) % u32 ≡ vm.pc + 1 = omega arith in rw (is_op, first) refl

  -- Where the words at pc are a literal of a value, and the cache of constants has at most 2 ^ 20 places, some
  -- turns push the value and end behind the words, which are a literal of the value as before, whether the
  -- cache took it or not; no other word and no entry of the cache changed.
  pub step-Repeats :
      Stands low_first vm.code vm.var_cache vm.cache_size vm.pc v n → Repeats low_first vm vm.pc v n
  step-Repeats (short is_op is one) = short-Repeats is_op is one
  step-Repeats (plain is_op is two) = plain-Repeats is_op is two
  step-Repeats (long is_op is three) =
      wide-Repeats (λ w. int64 (int_of_word u64 w)) is three (step_long is_op three)
        λ code entries low same.
          long (op_of-low _ _ low ∙ is_op)
            (is ∙ ap (λ (w : ℕ). int64 (int_of_word u64 w)) (sym same)) three
  step-Repeats (double is_op is three) =
      wide-Repeats float64 is three (step_double is_op three) λ code entries low same.
        double (op_of-low _ _ low ∙ is_op) (is ∙ ap float64 (sym same)) three
  step-Repeats (constant is_op here size some_words nils) =
      constant-Repeats is_op here size some_words nils
