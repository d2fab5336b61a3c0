-- ===== src/Gc/Trigger.antt =====
-- When gc of mario/mario.c collects.
use mario_js.Prelude.{
  ℕ, ◌+◌, ◌/◌, ◌%◌, ◌≤◌, ◌<◌, ◌≡◌, refl, sym, subst, ◌↔◌, Bool, true, false, not, ◌&&◌, ◌||◌, ltb,
  if◌then◌else◌, u32, arith,
}

abbrev pub gc_trig_var_num_def : ℕ
gc_trig_var_num_def = 128

-- The fields of vm->gc that gc reads and writes itself.
pub record GcState : Type 0 where
  pub is_doing_gc : Bool
  pub gc_defer : ℕ
  pub gc_vars_num : ℕ
  pub gc_trig_var_num : ℕ

-- The guards of gc, none of which returns.
unfoldable pub collects : Bool → GcState → Bool
collects force g =
    not g.is_doing_gc
    && (force || not (ltb 0 g.gc_defer))
    && (force || not (ltb g.gc_vars_num g.gc_trig_var_num))

unfoldable pub next_trigger : ℕ → ℕ
next_trigger live =
    let trig = (live + live / 2) % u32 in
    if ltb trig gc_trig_var_num_def then gc_trig_var_num_def else trig

-- `live` is the number of vars that gc_vars leaves on its list. The release of free vars, which changes
-- none of these fields, is left out.
unfoldable pub gc : ℕ → Bool → GcState → GcState
unfolding collects next_trigger
gc live force g =
    if collects force g
    then record g { gc_vars_num = live; gc_trig_var_num = next_trigger live }
    else g

next_trigger_lem :
    (live n : ℕ)
    → live + live / 2 < u32
    → (next_trigger live ≤ n) ↔ ((gc_trig_var_num_def ≤ n) × (live + live / 2 ≤ n))
unfolding next_trigger
next_trigger_lem live n h = ground arith

-- The guards, for a collection that is not forced.
unforced_lem :
    (g : GcState)
    → g.is_doing_gc ≡ false
    → g.gc_defer ≡ 0
    → (collects false g ≡ true) ↔ (g.gc_trig_var_num ≤ g.gc_vars_num)
unfolding collects
unforced_lem g i d = ground arith

collects-idle : (force : Bool) (g : GcState) → collects force g ≡ true → g.is_doing_gc ≡ false
unfolding collects
collects-idle force g c = ground arith

collected :
    (live : ℕ) (force : Bool) (g : GcState)
    → collects force g ≡ true
    → gc live force g ≡ record g { gc_vars_num = live; gc_trig_var_num = next_trigger live }
unfolding gc
collected live force g c = rw c refl

-- After a collection that leaves `live` vars, one that is neither forced nor put off begins just when
-- the list has at least 128 vars and at least half as many again as `live`, if this number is one of
-- 32 bits.
pub gc-Grows :
    (live n : ℕ) (force : Bool) (g : GcState)
    → collects force g ≡ true
    → live + live / 2 < u32
    → g.gc_defer ≡ 0
    → (collects false (record (gc live force g) { gc_vars_num = n }) ≡ true)
      ↔ ((gc_trig_var_num_def ≤ n) × (live + live / 2 ≤ n))
gc-Grows live n force g c h d =
    let g' = record g { gc_vars_num = n; gc_trig_var_num = next_trigger live } in
    let u = unforced_lem g' (collects-idle force g c) d in
    let t = next_trigger_lem live n h in
    subst
      (λ x.
        (collects false (record x { gc_vars_num = n }) ≡ true)
        ↔ ((gc_trig_var_num_def ≤ n) × (live + live / 2 ≤ n)))
      (sym (collected live force g c)) (λ e. t.0 (u.0 e), λ e. u.1 (t.1 e))
