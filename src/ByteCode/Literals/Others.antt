-- ===== src/ByteCode/Literals/Others.antt =====
-- The literals of the code that one literal of mario/mario.c leaves as they are when it runs.
use mario_js.Prelude.{
  ℕ, ◌+◌, ◌≤◌, ◌<◌, ◌≡◌, ap, sym, ◌∙◌, ◌⊎◌, Bool, inl, inr, ◌==◌, ◌∷◌, ◌^◌, length, some, arith,
  u32, u64,
}
use mario_js.Prelude.Int.{pos}
use mario_js.ByteCode.{op_of, off_of}
use mario_js.ByteCode.Literals.{int_of_word}
use mario_js.ByteCode.Literals.Machine.{Value, Vm, int, int64, float64, entry_at}
use mario_js.ByteCode.Literals.Cache.{word}
use mario_js.ByteCode.Literals.Repeat.{Stands, short, plain, long, double, constant, pair, Ran, run}
use mario_js.ByteCode.Literals.Repeat.Turns.{step-Repeats}

module _ (low_first : Bool) (vm vm' : Vm) (p n : ℕ) (v : Value) (r : Ran low_first vm vm' p v n)
    (q m : ℕ) (w : Value) (apart : (q + m ≤ p) ⊎ (p + n ≤ q)) where
  away : (k : ℕ) → k < m → (q + k < p) ⊎ (p + n ≤ q + k)
  away k lt = side apart
    where
      side : (q + m ≤ p) ⊎ (p + n ≤ q) → (q + k < p) ⊎ (p + n ≤ q + k)
      side (inl le) = inl (omega arith)
      side (inr le) = inr (omega arith)

  between : (j : ℕ) → q < j → j < q + m → (j < p) ⊎ (p + n ≤ j)
  between j lo hi = side apart
    where
      side : (q + m ≤ p) ⊎ (p + n ≤ q) → (j < p) ⊎ (p + n ≤ j)
      side (inl le) = inl (omega arith)
      side (inr le) = inr (omega arith)

  same_word : (k : ℕ) → k < m → word vm' (q + k) ≡ word vm (q + k)
  same_word k lt = r.outside (q + k) (away k lt)

  same_first : 0 < m → word vm' q ≡ word vm q
  same_first lt =
      ap (word vm') {x = q} {y = q + 0} (omega arith)
      ∙ same_word 0 lt
      ∙ ap (word vm) {x = q + 0} {y = q} (omega arith)

  same_pair :
      2 < m
      → pair low_first (word vm' (q + 1)) (word vm' (q + 2))
        ≡ pair low_first (word vm (q + 1)) (word vm (q + 2))
  same_pair lt =
      ap (λ (t : ℕ). pair low_first t (word vm' (q + 2))) (same_word 1 (omega arith))
      ∙ ap (pair low_first (word vm (q + 1))) (same_word 2 lt)

  -- A literal that has run leaves every literal at other words what it was.
  Ran-Stands :
      Stands low_first vm.code vm.var_cache vm.cache_size q w m
      → Stands low_first vm'.code vm'.var_cache vm'.cache_size q w m
  Ran-Stands (short is_op is one) =
      let first = same_first (omega arith) in
      short (ap op_of first ∙ is_op) (is ∙ ap (λ (t : ℕ). int (pos (off_of t))) (sym first)) one
  Ran-Stands (plain is_op is two) =
      plain (ap op_of (same_first (omega arith)) ∙ is_op)
        (is ∙ ap (λ (t : ℕ). int (int_of_word u32 t)) (sym (same_word 1 (omega arith)))) two
  Ran-Stands (long is_op is three) =
      long (ap op_of (same_first (omega arith)) ∙ is_op)
        (is ∙ ap (λ (t : ℕ). int64 (int_of_word u64 t)) (sym (same_pair (omega arith)))) three
  Ran-Stands (double is_op is three) =
      double (ap op_of (same_first (omega arith)) ∙ is_op)
        (is ∙ ap (λ (t : ℕ). float64 t) (sym (same_pair (omega arith)))) three
  Ran-Stands (constant is_op here size some_words nils) =
      let first = same_first some_words in
      constant (ap op_of first ∙ is_op)
        (r.entries (off_of (word vm' q)) w
          (ap (λ (t : ℕ). entry_at vm.var_cache (off_of t)) first ∙ here))
        (ap (λ (s : ℕ). s == 0) r.same_size ∙ size) some_words
        λ j lo hi. ap op_of (r.outside j (between j lo hi)) ∙ nils j lo hi

-- Some turns push the value of the literal at pc and end behind it, where it and another literal still stand.
pub record Keeps (low_first : Bool) (vm : Vm) (v : Value) (n q : ℕ) (w : Value) (m : ℕ)
    : Type 0 where
  pub turns : ℕ
  pub end : Vm
  pub runs : run low_first turns vm ≡ some end
  pub goes : end.pc ≡ vm.pc + n
  pub pushed : end.stack ≡ v ∷ vm.stack
  pub stands : Stands low_first end.code end.var_cache end.cache_size vm.pc v n
  pub other : Stands low_first end.code end.var_cache end.cache_size q w m

module _ (low_first : Bool) (vm : Vm) (v : Value) (n : ℕ) (inside : vm.pc + n ≤ length vm.code)
    (bound : length vm.code < u32) (small : vm.cache_size ≤ 2 ^ 20) where
  -- Where the words at pc are a literal of a value, other words are a literal too, and the cache of constants
  -- has at most 2 ^ 20 places, some turns push the first value and end behind its words, and both literals are
  -- then what they were, whether the cache rewrote the first or not.
  pub step-Keeps :
      (q m : ℕ) (w : Value)
      → (q + m ≤ vm.pc) ⊎ (vm.pc + n ≤ q)
      → Stands low_first vm.code vm.var_cache vm.cache_size vm.pc v n
      → Stands low_first vm.code vm.var_cache vm.cache_size q w m
      → Keeps low_first vm v n q w m
  step-Keeps q m w apart here there =
      let (k, vm', runs, r) = step-Repeats low_first vm v n inside bound small here in
      record {
        turns = k;
        end = vm';
        runs = runs;
        goes = r.goes;
        pushed = r.pushed;
        stands = r.stands;
        other = Ran-Stands low_first vm vm' vm.pc n v r q m w apart there;
      }
