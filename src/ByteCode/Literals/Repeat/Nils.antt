-- ===== src/ByteCode/Literals/Repeat/Nils.antt =====
-- The words of a number behind try_var_cache (mario/mario.c): the payload that a hit makes NIL.
use mario_js.Prelude.{
  ℕ, ◌+◌, ◌%◌, ◌^◌, ◌≤◌, ◌<◌, ◌≡◌, ◌≢◌, refl, ap, sym, subst, ◌∙◌, ◌⊎◌, Bool, true, false,
  Bool-cases, inl, inr, List, ◌∷◌, length, length-set, get_or, set, ◌==◌, some, arith,
}
use mario_js.ByteCode.{op_of, off_of}
use mario_js.ByteCode.Instr
use mario_js.ByteCode.Words.{op_of_lem}
use mario_js.ByteCode.Literals.Machine.{
  Value, Vm, try_var_cache, nil_if, nil_two_if, vm_push, entry_at,
}
use mario_js.ByteCode.Literals.Cache.{
  word, Touches, Outcome, missed, stored, set-outside, set-here, try_var_cache-Outcome,
}
use mario_js.ByteCode.Literals.Repeat.{Ran, Stands, constant, constant}

-- What the handlers do behind try_var_cache: a hit makes the payload NIL.
pub record Nilled (p n : ℕ) (r : Vm × Bool) (after : Vm) : Type 0 where
  pub same_pc : after.pc ≡ r.0.pc
  pub same_stack : after.stack ≡ r.0.stack
  pub same_size : after.cache_size ≡ r.0.cache_size
  pub same_cache : after.var_cache ≡ r.0.var_cache
  pub same_length : length after.code ≡ length r.0.code
  pub missing : r.1 ≡ false → after.code ≡ r.0.code
  pub first : word after p ≡ word r.0 p
  pub outside : (j : ℕ) → (j < p) ⊎ (p + n ≤ j) → word after j ≡ word r.0 j
  pub hit : r.1 ≡ true → (j : ℕ) → p < j → j < p + n → word after j ≡ Instr.nil

pub nil_if-Nilled :
    (p : ℕ) (r : Vm × Bool) → p + 1 < length r.0.code → Nilled p 2 r (nil_if r (p + 1))
unfolding nil_if
nil_if-Nilled p (vm, false) h = record {
  same_pc = refl;
  same_stack = refl;
  same_size = refl;
  same_cache = refl;
  same_length = refl;
  missing = λ e. refl;
  first = refl;
  outside = λ j out. refl;
  hit = λ e j lo hi. absurd (ground (arith, e));
}
nil_if-Nilled p (vm, true) h = record {
  same_pc = refl;
  same_stack = refl;
  same_size = refl;
  same_cache = refl;
  same_length = length-set vm.code (p + 1) 0;
  missing = λ e. absurd (ground (arith, e));
  first = set-outside vm.code (p + 1) 0 p h (λ e. omega arith);
  outside = λ j out. set-outside vm.code (p + 1) 0 j h (apart j out);
  hit = λ e j lo hi.
      let is : j ≡ p + 1 = omega arith in
      subst (λ t. get_or (set vm.code (p + 1) 0) t 0 ≡ 0) (sym is) (set-here vm.code (p + 1) 0 h);
}
  where
    apart : (j : ℕ) → (j < p) ⊎ (p + 2 ≤ j) → j ≢ p + 1
    apart j (inl lt) e = omega arith
    apart j (inr ge) e = omega arith

pub none-Nilled : (p : ℕ) (r : Vm × Bool) → Nilled p 1 r r.0
none-Nilled p r = record {
  same_pc = refl;
  same_stack = refl;
  same_size = refl;
  same_cache = refl;
  same_length = refl;
  missing = λ e. refl;
  first = refl;
  outside = λ j out. refl;
  hit = λ e j lo hi. absurd (omega arith);
}

pub nil_two_if-Nilled :
    (p : ℕ) (r : Vm × Bool) → p + 2 < length r.0.code → Nilled p 3 r (nil_two_if r (p + 1))
unfolding nil_two_if
nil_two_if-Nilled p (vm, false) h = record {
  same_pc = refl;
  same_stack = refl;
  same_size = refl;
  same_cache = refl;
  same_length = refl;
  missing = λ e. refl;
  first = refl;
  outside = λ j out. refl;
  hit = λ e j lo hi. absurd (ground (arith, e));
}
nil_two_if-Nilled p (vm, true) h =
    let once = set vm.code (p + 1) 0 in
    let len = length-set vm.code (p + 1) 0 in
    let fits : p + 1 + 1 < length once = omega (arith, len) in
    record {
      same_pc = refl;
      same_stack = refl;
      same_size = refl;
      same_cache = refl;
      same_length = length-set once (p + 1 + 1) 0 ∙ len;
      missing = λ e. absurd (ground (arith, e));
      first =
          set-outside once (p + 1 + 1) 0 p fits (λ e. omega arith)
          ∙ set-outside vm.code (p + 1) 0 p (omega arith) (λ e. omega arith);
      outside = λ j out.
          set-outside once (p + 1 + 1) 0 j fits (λ f. apart j 2 out (omega arith) (f ∙ omega arith))
          ∙ set-outside vm.code (p + 1) 0 j (omega arith) (apart j 1 out (omega arith));
      hit = λ e j lo hi. elim (Bool-cases (j == p + 1)) [
        | inl is ↦
            let same : j ≡ p + 1 = ground arith in
            subst (λ t. get_or (set once (p + 1 + 1) 0) t 0 ≡ 0) (sym same)
              (set-outside once (p + 1 + 1) 0 (p + 1) fits (λ f. omega arith)
                ∙ set-here vm.code (p + 1) 0 (omega arith))
        | inr other ↦
            let differs : j ≢ p + 1 = λ f. ground (arith, other, f) in
            let same : j ≡ p + 1 + 1 = omega (arith, differs) in
            subst (λ t. get_or (set once (p + 1 + 1) 0) t 0 ≡ 0) (sym same)
              (set-here once (p + 1 + 1) 0 fits)
      ];
    }
  where
    apart : (j k : ℕ) → (j < p) ⊎ (p + 3 ≤ j) → k < 3 → j ≢ p + k
    apart j k (inl lt) b e = omega arith
    apart j k (inr ge) b e = omega arith

module _ (low_first : Bool) (p n : ℕ) (v : Value) (vm : Vm) (inside : p + n ≤ length vm.code)
    (some_words : 0 < n)
    (transfer : (code : List ℕ) (entries : List Value)
      → get_or code p 0 % 2 ^ 31 ≡ word vm p % 2 ^ 31
      → ((j : ℕ) → j ≢ p → get_or code j 0 ≡ word vm j)
      → Stands low_first code entries vm.cache_size p v n) where
  -- A handler's state after the literal, the next turn's pc set, ran it.
  pub ran :
      (after : Vm)
      → vm.cache_size ≤ 2 ^ 20
      → vm.pc ≡ p + n
      → Nilled p n (try_var_cache vm p v) after
      → Ran low_first vm (vm_push after v) p v n
  ran after small at k =
      let r = try_var_cache vm p v in
      let (t, outcome) = try_var_cache-Outcome vm p v (omega arith) small in
      record {
        goes = k.same_pc ∙ t.same_pc ∙ at;
        pushed = ap (λ s. v ∷ s) (k.same_stack ∙ t.same_stack);
        same_size = k.same_size ∙ t.same_size;
        same_length = k.same_length ∙ t.same_length;
        outside = λ j out. k.outside j out ∙ t.outside j (apart j out);
        entries = λ i x h. subst (λ e. entry_at e i ≡ some x) (sym k.same_cache) (t.entries i x h);
        stands = stays outcome t k;
      }
    where
      apart : (j : ℕ) → (j < p) ⊎ (p + n ≤ j) → j ≢ p
      apart j (inl lt) e = omega arith
      apart j (inr ge) e = omega arith

      stays :
          {r : Vm × Bool}
          → Outcome p v vm r
          → Touches p vm r.0
          → Nilled p n r after
          → Stands low_first after.code after.var_cache after.cache_size p v n
      stays {r = r} (missed e low) t k =
          subst (λ s. Stands low_first after.code after.var_cache s p v n)
            (sym (k.same_size ∙ t.same_size))
            (transfer after.code after.var_cache
              (ap (λ (c : List ℕ). get_or c p 0 % 2 ^ 31) (k.missing e) ∙ low)
              λ j other. ap (λ (c : List ℕ). get_or c j 0) (k.missing e) ∙ t.outside j other)
      stays {r = r} (stored e is_op here size) t k =
          constant (ap op_of k.first ∙ is_op)
            (subst (λ c. entry_at c (off_of (word after p)) ≡ some v) (sym k.same_cache)
              (ap (λ (w : ℕ). entry_at r.0.var_cache (off_of w)) k.first ∙ here))
            (ap (λ (s : ℕ). s == 0) k.same_size ∙ size) some_words
            λ j lo hi. ap op_of (k.hit e j lo hi) ∙ op_of_lem 0
