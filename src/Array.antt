-- ===== src/Array.antt =====
-- The pointer array of the engine (m_array_t, mario/mario.h and mario/mario.c).
--
-- A pointer is an Option, NULL being `none`; the buffer is the list of its slots, `none` while it is not
-- allocated. `fresh n` is what a new block of `n` slots holds (mario_malloc, which the platform gives).
-- Sizes are uint32_t, with the wrap written out.
pub mod Slots
pub mod Laws
use mario_js.Prelude.{
  ℕ, zero, suc, ◌+◌, ◌-◌, ◌%◌, Bool, true, false, List, [], ◌∷◌, ◌++◌, get_or, set, drop, ltb, leb,
  ◌==◌, ◌||◌, if◌then◌else◌, Option, none, some, u32,
}

-- ARRAY_BUF
abbrev pub array_buf : ℕ
array_buf = 16

pub record MArray {ℓ} (A : Type ℓ) : Type ℓ where
  pub items : Option (List (Option A))
  pub max_slots : ℕ
  pub size : ℕ

-- A copy of the old block at the start of a new one.
unfoldable pub mario_realloc {ℓ} :
    {B : Type ℓ} → (ℕ → List B) → Option (List B) → ℕ → ℕ → Option (List B)
mario_realloc fresh none old_size new_size = some (fresh new_size)
mario_realloc fresh (some s) old_size new_size = some (s ++ drop old_size (fresh new_size))

module _ {ℓ} {A : Type ℓ} where
  -- The slots of a buffer; NULL has none.
  abbrev pub slots : Option (List (Option A)) → List (Option A)
  slots none = []
  slots (some s) = s

  abbrev pub is_null : Option (List (Option A)) → Bool
  is_null none = true
  is_null (some s) = false

  unfoldable pub array_init : MArray A
  array_init = record { items = none; max_slots = 0; size = 0 }

  -- The first lines of array_add and array_add_head: room for one more item and the NULL behind it.
  unfoldable pub array_reserve : (ℕ → List (Option A)) → MArray A → MArray A
  array_reserve fresh array =
      let new_size = (array.size + array_buf) % u32 in
      if leb array.max_slots ((array.size + 1) % u32)
      then record array {
        items = mario_realloc fresh array.items array.max_slots new_size;
        max_slots = new_size;
      }
      else array

  -- `items[i] = p`
  abbrev pub write : MArray A → ℕ → Option A → MArray A
  write array i p = record array { items = some (set (slots array.items) i p) }

  unfoldable pub array_add : (ℕ → List (Option A)) → MArray A → Option A → MArray A
  array_add fresh array item =
      let roomy = array_reserve fresh array in
      let stored = write roomy roomy.size item in
      let longer = record stored { size = (stored.size + 1) % u32 } in write longer longer.size none

  -- `for(i=size; i>0; i--) items[i] = items[i-1]`
  unfoldable pub shift_up : ℕ → List (Option A) → List (Option A)
  shift_up zero s = s
  shift_up (suc i) s = shift_up i (set s (suc i) (get_or s i none))

  unfoldable pub array_add_head : (ℕ → List (Option A)) → MArray A → Option A → MArray A
  array_add_head fresh array item =
      let roomy = array_reserve fresh array in
      let shifted = record roomy { items = some (shift_up roomy.size (slots roomy.items)) } in
      let stored = write shifted 0 item in
      let longer = record stored { size = (stored.size + 1) % u32 } in write longer longer.size none

  unfoldable pub array_get : MArray A → ℕ → Option A
  array_get array index =
      if is_null array.items || leb array.size index
      then none
      else get_or (slots array.items) index none

  unfoldable pub array_set : MArray A → ℕ → Option A → MArray A × Option A
  array_set array index p =
      if is_null array.items || leb array.size index
      then (array, none)
      else (write array index p, p)

  unfoldable pub array_head : MArray A → Option A
  array_head array =
      if is_null array.items || array.size == 0 then none else get_or (slots array.items) 0 none

  unfoldable pub array_tail : MArray A → Option A
  array_tail array =
      if is_null array.items || array.size == 0
      then none
      else get_or (slots array.items) (array.size - 1) none

  -- `for(i=index; (i+1)<size; i++) items[i] = items[i+1]`, with the rounds left
  unfoldable pub shift_down : ℕ → ℕ → List (Option A) → List (Option A)
  shift_down zero i s = s
  shift_down (suc rounds) i s = shift_down rounds (i + 1) (set s i (get_or s (i + 1) none))

  unfoldable pub array_remove : MArray A → ℕ → MArray A × Option A
  array_remove array index =
      let p = get_or (slots array.items) index none in
      let moved = shift_down (array.size - (index + 1)) index (slots array.items) in
      let shorter = record array { items = some moved; size = array.size - 1 } in
      if leb array.size index then (array, none) else (write shorter shorter.size none, p)

  unfoldable pub array_remove_all : MArray A → MArray A
  array_remove_all array = record { items = none; max_slots = 0; size = 0 }
