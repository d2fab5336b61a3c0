-- ===== src/Mstr.antt =====
-- The growing strings of mario/mario.c (mstr_t).
--
-- A C string that an operation takes is the list of its bytes without the NUL, `none` for NULL. `cstr` is the
-- buffer, `max` bytes long, `none` while it is NULL. Lengths are uint32_t, with the wrap written out.
pub mod Laws
pub mod Split
use mario_js.Prelude.{
  ℕ, zero, suc, ◌+◌, ◌-◌, ◌/◌, ◌%◌, Bool, true, false, List, [], ◌∷◌, length, set, take, ltb, leb,
  ◌==◌, if◌then◌else◌, Option, none, some, u32,
}
use mario_js.Array.{mario_realloc}

-- mstr_BUF
abbrev pub mstr_buf : ℕ
mstr_buf = 16

pub record Mstr : Type 0 where
  pub cstr : Option (List ℕ)
  pub max : ℕ
  pub len : ℕ

abbrev pub bytes : Option (List ℕ) → List ℕ
bytes none = []
bytes (some b) = b

abbrev pub has_buffer : Option (List ℕ) → Bool
has_buffer none = false
has_buffer (some b) = true

-- The bytes from `at` on, one after the other.
unfoldable pub copy_to : List ℕ → ℕ → List ℕ → List ℕ
copy_to buf at [] = buf
copy_to buf at (c ∷ cs) = copy_to (set buf at c) (at + 1) cs

-- `cstr[i] = c`
abbrev pub put : Mstr → ℕ → ℕ → Mstr
put str i c = record str { cstr = some (set (bytes str.cstr) i c) }

-- The bytes behind the first `at` ones, the NUL and the length.
unfoldable pub finish : Mstr → ℕ → List ℕ → Mstr
unfolding copy_to
finish str at src =
    let copied = record str { cstr = some (copy_to (bytes str.cstr) at src) } in
    let len = (at + length src) % u32 in put (record copied { len = len }) len 0

-- What a new block of memory holds (mario_malloc).
module _ (fresh : ℕ → List ℕ) where
  abbrev realloc : Mstr → ℕ → Mstr
  realloc str new_size = record str {
    cstr = mario_realloc fresh str.cstr str.max new_size;
    max = new_size;
  }

  unfoldable pub mstr_reset : Mstr → Mstr
  mstr_reset str =
      let ready =
        if has_buffer str.cstr
        then str
        else record str { cstr = some (fresh mstr_buf); max = mstr_buf } in
      put (record ready { len = 0 }) 0 0

  -- NULL, the empty string and a bound of 0 reset the string.
  unfoldable pub mstr_ncpy : Mstr → Option (List ℕ) → ℕ → Mstr
  unfolding mstr_reset finish
  mstr_ncpy str none l = mstr_reset str
  mstr_ncpy str (some []) l = mstr_reset str
  mstr_ncpy str (some (c ∷ cs)) l =
      let src = take l (c ∷ cs) in
      let len = length src in
      let roomy = if leb str.max len then realloc str ((len + mstr_buf) % u32) else str in
      if l == 0 then mstr_reset str else finish roomy 0 src

  unfoldable pub mstr_cpy : Mstr → Option (List ℕ) → Mstr
  unfolding mstr_ncpy
  mstr_cpy str src = mstr_ncpy str src 0xFFFFFFFF

  unfoldable pub mstr_new : Option (List ℕ) → Mstr
  unfolding mstr_cpy
  mstr_new s = mstr_cpy (record { cstr = none; max = 0; len = 0 }) s

  unfoldable pub mstr_new_by_size : ℕ → Mstr
  mstr_new_by_size sz = put (record { cstr = some (fresh sz); max = sz; len = 0 }) 0 0

  -- The growth that mstr_append and mstr_append_n share.
  unfoldable pub append_room : Mstr → ℕ → Mstr
  append_room str len =
      if leb str.max ((str.len + len) % u32)
      then realloc str ((str.len + len + mstr_buf) % u32)
      else str

  unfoldable pub mstr_append : Mstr → Option (List ℕ) → Mstr
  unfolding append_room finish
  mstr_append str none = str
  mstr_append str (some []) = str
  mstr_append str (some (c ∷ cs)) = finish (append_room str (length (c ∷ cs))) str.len (c ∷ cs)

  -- The source is the `len` bytes that are appended, which may be NUL.
  unfoldable pub mstr_append_n : Mstr → Option (List ℕ) → Mstr
  unfolding append_room finish
  mstr_append_n str none = str
  mstr_append_n str (some []) = str
  mstr_append_n str (some (c ∷ cs)) = finish (append_room str (length (c ∷ cs))) str.len (c ∷ cs)

  unfoldable pub mstr_add : Mstr → ℕ → Mstr
  mstr_add str c =
      let roomy =
        if leb str.max ((str.len + 1) % u32)
        then realloc str ((str.max + str.max / 2 + mstr_buf) % u32)
        else str in
      let stored = put roomy roomy.len c in
      let len = (roomy.len + 1) % u32 in put (record stored { len = len }) len 0
