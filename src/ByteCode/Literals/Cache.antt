-- ===== src/ByteCode/Literals/Cache.antt =====
-- The words of a number under the cache of constants (try_var_cache, mario/mario.c): a literal rewrites its own
-- words when it runs.
use Prim.Native.Nat.{bit_and, bit_or}
use mario_js.Prelude.{
  ℕ, zero, suc, ◌+◌, ◌*◌, ◌/◌, ◌%◌, ◌^◌, ◌≤◌, ◌<◌, ◌≡◌, ◌≢◌, refl, ap, ◌∙◌, Bool, true, false,
  Bool-cases, inl, inr, List, [], ◌∷◌, ◌++◌, length, length-set, get_or, get_or-set, set, leb, ◌==◌,
  some, arith,
}
use mario_js.ByteCode.{ins_word, op_of, off_of}
use mario_js.ByteCode.Instr
use mario_js.ByteCode.Words.{bit_or_above, op_of_lem, off_of_lem, ins_word-reads}
use mario_js.ByteCode.Literals.Machine.{
  Value, Vm, opt_cache, var_cache, cached, try_var_cache, entry_at,
}

abbrev pub word : Vm → ℕ → ℕ
word vm j = get_or vm.code j 0

-- The flag of the cache is none of OP's and OFF's bits.
pub op_of-low : (v w : ℕ) → v % 2 ^ 31 ≡ w % 2 ^ 31 → op_of v ≡ op_of w
op_of-low v w h = omega (arith, op_of_lem v, op_of_lem w, h)

pub off_of-low : (v w : ℕ) → v % 2 ^ 31 ≡ w % 2 ^ 31 → off_of v ≡ off_of w
off_of-low v w h = omega (arith, off_of_lem v, off_of_lem w, h)

opt_cache-low : (w : ℕ) → bit_or w opt_cache % 2 ^ 31 ≡ w % 2 ^ 31
opt_cache-low w =
    let e : w ≡ w / 2 ^ 31 * 2 ^ 31 + w % 2 ^ 31 = omega arith in
    let f =
      ap (λ (t : ℕ). bit_or t opt_cache) e
      ∙ bit_or_above 31 (w / 2 ^ 31) (w % 2 ^ 31) 1 (omega arith) in
    omega (arith, f)

pub entry_at-end : (vs : List Value) (v : Value) → entry_at (vs ++ (v ∷ [])) (length vs) ≡ some v
entry_at-end [] v = refl
entry_at-end (x ∷ vs) v = entry_at-end vs v

pub entry_at-before :
    (vs : List Value) (v x : Value) (i : ℕ)
    → entry_at vs i ≡ some x
    → entry_at (vs ++ (v ∷ [])) i ≡ some x
entry_at-before [] v x i h = absurd (ground (arith, h))
entry_at-before (y ∷ vs) v x zero h = h
entry_at-before (y ∷ vs) v x (suc i) h = entry_at-before vs v x i h

-- Nothing but the word at `at` changed, and no entry of the cache.
pub record Touches (at : ℕ) (vm vm' : Vm) : Type 0 where
  pub same_pc : vm'.pc ≡ vm.pc
  pub same_stack : vm'.stack ≡ vm.stack
  pub same_size : vm'.cache_size ≡ vm.cache_size
  pub same_length : length vm'.code ≡ length vm.code
  pub outside : (j : ℕ) → j ≢ at → word vm' j ≡ word vm j
  pub entries :
      (i : ℕ) (x : Value) → entry_at vm.var_cache i ≡ some x → entry_at vm'.var_cache i ≡ some x

-- The word is that of `vm` but for its flags, or it names an entry that holds the value.
pub data Outcome (at : ℕ) (v : Value) (vm : Vm) (r : Vm × Bool) : Type 0 where
  missed : r.1 ≡ false → word r.0 at % 2 ^ 31 ≡ word vm at % 2 ^ 31 → Outcome at v vm r
  stored :
      r.1 ≡ true
      → op_of (word r.0 at) ≡ Instr.cache
      → entry_at r.0.var_cache (off_of (word r.0 at)) ≡ some v
      → (r.0.cache_size == 0) ≡ false
      → Outcome at v vm r

pub set-outside :
    (code : List ℕ) (at w j : ℕ)
    → at < length code
    → j ≢ at
    → get_or (set code at w) j 0 ≡ get_or code j 0
set-outside code at w j h other =
    let test : (j == at) ≡ false = ground (arith, other) in
    get_or-set code j at w 0 h ∙ rw test refl

pub set-here : (code : List ℕ) (at w : ℕ) → at < length code → get_or (set code at w) at 0 ≡ w
set-here code at w h = let g = get_or-set code at at w 0 h in ground (arith, g)

pub try_var_cache-Outcome :
    (vm : Vm) (at : ℕ) (v : Value)
    → at < length vm.code
    → vm.cache_size ≤ 2 ^ 20
    → Touches at vm (try_var_cache vm at v).0 × Outcome at v vm (try_var_cache vm at v)
unfolding try_var_cache var_cache cached
try_var_cache-Outcome vm at v inside small = elim (Bool-cases (vm.cache_size == 0)) [
  | inl e ↦ rw e (same, missed refl refl)
  | inr e ↦ elim (Bool-cases (bit_and (get_or vm.code at 0) opt_cache == 0)) [
    | inl f ↦
        let w = bit_or (word vm at) opt_cache in
        rw (e, f)
          (
            record {
              same_pc = refl;
              same_stack = refl;
              same_size = refl;
              same_length = length-set vm.code at w;
              outside = λ j other. set-outside vm.code at w j inside other;
              entries = λ i x h. h;
            },
            missed refl (
                ap (λ (t : ℕ). t % 2 ^ 31) (set-here vm.code at w inside)
                ∙ opt_cache-low (word vm at)),
          )
    | inr f ↦ elim (Bool-cases (leb vm.cache_size (length vm.var_cache))) [
      | inl g ↦ rw (e, f, g) (same, missed refl refl)
      | inr g ↦
          let i = length vm.var_cache in
          let w = ins_word Instr.cache i in
          let (is_op, is_off, clear) = ins_word-reads Instr.cache i (omega arith) in
          let fits : i < vm.cache_size = ground arith in
          let here = set-here vm.code at w inside in
          let off : off_of (get_or (set vm.code at w) at 0) ≡ i =
            ap off_of here ∙ omega (arith, is_off) in
          rw (e, f, g)
            (
              record {
                same_pc = refl;
                same_stack = refl;
                same_size = refl;
                same_length = length-set vm.code at w;
                outside = λ j other. set-outside vm.code at w j inside other;
                entries = λ k x h. entry_at-before vm.var_cache v x k h;
              },
              stored refl (ap op_of here ∙ is_op)
                  (ap (entry_at (vm.var_cache ++ (v ∷ []))) off ∙ entry_at-end vm.var_cache v) e,
            )
    ]
  ]
]
  where
    same : Touches at vm vm
    same = record {
      same_pc = refl;
      same_stack = refl;
      same_size = refl;
      same_length = refl;
      outside = λ j other. refl;
      entries = λ i x h. h;
    }
