-- ===== src/Array/Slots.antt =====
-- The loops of m_array_t (mario/mario.c) that move its slots up and down, slot by slot.
use mario_js.Prelude.{
  ℕ, zero, suc, ◌+◌, ◌-◌, ◌<◌, ◌≡◌, refl, ◌∙◌, ◌&&◌, List, length, get_or, set, ltb, leb,
  if◌then◌else◌, Option, none, arith, length-set, get_or-set,
}
use mario_js.Array.{shift_up, shift_down}

module _ {A : Type 0} where
  pub length-shift_up : (n : ℕ) (s : List (Option A)) → length (shift_up n s) ≡ length s
  unfolding shift_up
  length-shift_up zero s = refl
  length-shift_up (suc n) s =
      length-shift_up n (set s (suc n) (get_or s n none)) ∙ length-set s (suc n) (get_or s n none)

  pub length-shift_down : (n i : ℕ) (s : List (Option A)) → length (shift_down n i s) ≡ length s
  unfolding shift_down
  length-shift_down zero i s = refl
  length-shift_down (suc n) i s =
      length-shift_down n (i + 1) (set s i (get_or s (i + 1) none))
      ∙ length-set s i (get_or s (i + 1) none)

  -- The slots from 1 to n take the items below them.
  pub get-shift_up :
      (n : ℕ) (s : List (Option A)) (j : ℕ)
      → n < length s
      → get_or (shift_up n s) j none
        ≡ (if ltb 0 j && leb j n then get_or s (j - 1) none else get_or s j none)
  unfolding shift_up
  get-shift_up zero s j h = ground arith
  get-shift_up (suc n) s j h =
      let s' = set s (suc n) (get_or s n none) in
      let ih = get-shift_up n s' j (omega (arith, length-set s (suc n) (get_or s n none))) in
      let here = get_or-set s j (suc n) (get_or s n none) none h in
      let below = get_or-set s (j - 1) (suc n) (get_or s n none) none h in
      ground (arith, ih, here, below)

  -- The slots from i on take the items above them, as many as there are rounds.
  pub get-shift_down :
      (n i : ℕ) (s : List (Option A)) (j : ℕ)
      → i + n < length s
      → get_or (shift_down n i s) j none
        ≡ (if leb i j && ltb j (i + n) then get_or s (j + 1) none else get_or s j none)
  unfolding shift_down
  get-shift_down zero i s j h = ground arith
  get-shift_down (suc n) i s j h =
      let v = get_or s (i + 1) none in
      let ih = get-shift_down n (i + 1) (set s i v) j (omega (arith, length-set s i v)) in
      let here = get_or-set s j i v none (omega arith) in
      let above = get_or-set s (j + 1) i v none (omega arith) in ground (arith, ih, here, above)
