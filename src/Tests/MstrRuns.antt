-- ===== src/Tests/MstrRuns.antt =====
-- The strings of mario/mario.c on concrete texts.
use mario_js.Prelude.{
  ℕ, ◌≡◌, refl, List, [], ◌∷◌, ◌++◌, length, length-replicate, replicate, Option, none, some, arith,
}
use mario_js.Mstr.{Mstr, mstr_append, mstr_append_n, mstr_add}
use mario_js.Array.{MArray}
use mario_js.Array.Laws
use mario_js.Mstr.Split.{Splits, mstr_split, mstr_split-Splits}
use mario_js.Mstr.Laws.{IsValid, Holds, content, mstr_append-Holds}

abbrev zero_bytes : ℕ → List ℕ
zero_bytes n = replicate n 0

zero_bytes-sized : (n : ℕ) → length (zero_bytes n) ≡ n
zero_bytes-sized n = length-replicate n 0

abbrev null_str : Mstr
null_str = record { cstr = none; max = 0; len = 0 }

null_str-IsValid : IsValid null_str
null_str-IsValid = record {
  measured = refl;
  room = omega arith;
  closed = refl;
  allocated = λ h. absurd (ground (arith, h));
}

-- A buffer of four bytes with the text "abc", which the next byte outgrows.
abbrev full_str : Mstr
full_str = record { cstr = some (97 ∷ 98 ∷ 99 ∷ 0 ∷ []); max = 4; len = 3 }

full_str-IsValid : IsValid full_str
full_str-IsValid = record {
  measured = refl;
  room = omega arith;
  closed = refl;
  allocated = λ h. omega arith;
}

mstr_append-Holds_example :
    Holds (mstr_append zero_bytes full_str (some (100 ∷ []))) (content full_str ++ (100 ∷ []))
    × Holds (mstr_append_n zero_bytes full_str (some (100 ∷ []))) (content full_str ++ (100 ∷ []))
    × Holds (mstr_add zero_bytes full_str 100) (content full_str ++ (100 ∷ []))
mstr_append-Holds_example =
    mstr_append-Holds zero_bytes zero_bytes-sized full_str full_str-IsValid 100 [] (omega arith)
      (omega arith)

-- "a,b" split at the comma, into an array that has no buffer.
abbrev no_pieces : MArray (List ℕ)
no_pieces = record { items = none; max_slots = 0; size = 0 }

no_pieces-IsValid : Laws.IsValid no_pieces
no_pieces-IsValid = record { measured = refl; fits = omega arith; closed = refl; null = refl }

abbrev no_strings : ℕ → List (Option (List ℕ))
no_strings n = replicate n none

mstr_split-Splits_example :
    Splits 44 (97 ∷ 44 ∷ 98 ∷ []) no_pieces (mstr_split no_strings (97 ∷ 44 ∷ 98 ∷ []) 44 no_pieces)
mstr_split-Splits_example =
    mstr_split-Splits no_strings (λ n. length-replicate n none) 44 (97 ∷ 44 ∷ 98 ∷ []) no_pieces
      no_pieces-IsValid (omega arith)
