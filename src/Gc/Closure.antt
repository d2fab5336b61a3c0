-- ===== src/Gc/Closure.antt =====
-- The binding of a function to the one around it (func_bind_closure_func of mario/mario.c).
--
-- The call of var_unref for the owner that was pinned before is left out, and so is the count of
-- references that var_ref raises.
use mario_js.Prelude.{
  ℕ, zero, suc, ◌<◌, ◌≡◌, refl, sym, ap, subst, ◌∙◌, inl, inr, Bool, true, false, List, length,
  get_or, get_or-set, set, ◌==◌, ==_iff, if◌then◌else◌, Bool-cases, Option, none, some, arith,
}
use mario_js.Gc.{Func, no_func, vm_closure_chain_max}

abbrev pub func_in : List Func → ℕ → Func
func_in funcs k = get_or funcs k no_func

-- The walk from `p` outwards meets `f`; the first number counts the functions that it still looks at.
unfoldable pub on_chain : List Func → ℕ → ℕ → Option ℕ → Bool
on_chain funcs f zero p = false
on_chain funcs f (suc rounds) none = false
on_chain funcs f (suc rounds) (some p) =
    if p == f then true else on_chain funcs f rounds (func_in funcs p).closure_func

unfoldable pub allowed_outer : List Func → ℕ → Option ℕ → Option ℕ
unfolding on_chain
allowed_outer funcs f outer =
    if on_chain funcs f (suc vm_closure_chain_max) outer then none else outer

unfoldable pub owner_of : List Func → Option ℕ → Option ℕ
owner_of funcs none = none
owner_of funcs (some k) = (func_in funcs k).owner_var

unfoldable pub func_bind_closure_func : ℕ → Option ℕ → List Func → List Func
unfolding allowed_outer owner_of
func_bind_closure_func f outer funcs =
    let bound = allowed_outer funcs f outer in
    set funcs f
      (record (func_in funcs f) { closure_func = bound; closure_func_ref = owner_of funcs bound })

-- The chain from a function outwards ends, after at most a number of functions.
unfoldable pub EndsIn : List Func → ℕ → Option ℕ → Type 0
EndsIn funcs n none = Unit
EndsIn funcs zero (some k) = ⊥
EndsIn funcs (suc n) (some k) = EndsIn funcs n (func_in funcs k).closure_func

abbrev pub ChainEnds : List Func → Option ℕ → Type 0
ChainEnds funcs p = (n : ℕ) × EndsIn funcs n p

else_false : (b c : Bool) → (if b then true else c) ≡ false → (b ≡ false) × (c ≡ false)
else_false true c h = absurd (ground (arith, h))
else_false false c h = (refl, h)

module _ (funcs : List Func) (f : ℕ) (lt : f < length funcs) (v : Func) where
  func-hit : func_in (set funcs f v) f ≡ v
  func-hit = get_or-set funcs f f v no_func lt ∙ rw ((==_iff f f).1 refl) refl

  func-miss : (k : ℕ) → (k == f) ≡ false → func_in (set funcs f v) k ≡ func_in funcs k
  func-miss k e = get_or-set funcs k f v no_func lt ∙ rw e refl

  -- A chain that does not meet `f` is as it was.
  missed-EndsIn :
      (n : ℕ) (p : Option ℕ)
      → on_chain funcs f n p ≡ false
      → EndsIn funcs n p
      → EndsIn (set funcs f v) n p
  unfolding EndsIn on_chain
  missed-EndsIn zero none h e = tt
  missed-EndsIn (suc n) none h e = tt
  missed-EndsIn zero (some k) h e = absurd e
  missed-EndsIn (suc n) (some k) h e =
      let s = else_false (k == f) (on_chain funcs f n (func_in funcs k).closure_func) h in
      subst (λ (x : Func). EndsIn (set funcs f v) n x.closure_func) (sym (func-miss k s.0))
        (missed-EndsIn n (func_in funcs k).closure_func s.1 e)

  new-ChainEnds :
      (outer : Option ℕ)
      → EndsIn funcs (suc vm_closure_chain_max) outer
      → ChainEnds (set funcs f v) (allowed_outer funcs f outer)
  unfolding allowed_outer EndsIn
  new-ChainEnds outer e = elim (Bool-cases (on_chain funcs f (suc vm_closure_chain_max) outer)) [
    | inl h ↦ rw h (0, tt)
    | inr h ↦ rw h (suc vm_closure_chain_max, missed-EndsIn (suc vm_closure_chain_max) outer h e)
  ]

  -- The other chains end where the new one of `f` does.
  rest-ChainEnds :
      ChainEnds (set funcs f v) v.closure_func
      → (n : ℕ) (p : Option ℕ) → EndsIn funcs n p
      → ChainEnds (set funcs f v) p
  unfolding EndsIn
  rest-ChainEnds new n none e = (0, tt)
  rest-ChainEnds new zero (some k) e = absurd e
  rest-ChainEnds new (suc n) (some k) e = elim (Bool-cases (k == f)) [
    | inl same ↦
        let at : k ≡ f = ground arith in
        (
          suc (new.0),
          subst (λ (x : Func). EndsIn (set funcs f v) (new.0) x.closure_func)
              (sym (ap (func_in (set funcs f v)) at ∙ func-hit)) (new.1),
        )
    | inr other ↦
        let next = rest-ChainEnds new n (func_in funcs k).closure_func e in
        (
          suc (next.0),
          subst (λ (x : Func). EndsIn (set funcs f v) (next.0) x.closure_func)
              (sym (func-miss k other)) (next.1),
        )
  ]

-- Where all chains of functions end, and the one that is to be bound within the bound of the walks,
-- they all end after the binding: no function comes to stand on its own chain.
pub func_bind_closure_func-Ends :
    (funcs : List Func) (f : ℕ) (outer : Option ℕ)
    → f < length funcs
    → ((k : ℕ) → ChainEnds funcs (some k))
    → EndsIn funcs (suc vm_closure_chain_max) outer
    → (k : ℕ) → ChainEnds (func_bind_closure_func f outer funcs) (some k)
unfolding func_bind_closure_func
func_bind_closure_func-Ends funcs f outer lt ends bound k =
    let v = record (func_in funcs f) {
      closure_func = allowed_outer funcs f outer;
      closure_func_ref = owner_of funcs (allowed_outer funcs f outer);
    } in
    rest-ChainEnds funcs f lt v (new-ChainEnds funcs f lt v outer bound) (ends k).0 (some k)
      (ends k).1
