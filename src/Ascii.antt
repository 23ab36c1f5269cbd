-- ===== src/Ascii.antt =====
-- The two ways in which a `std::string` stands in this development: as the codes of its characters,
-- where the program looks at them, and as a text.
use Prim.Native.Char.{Char, char, nul}
use kraken_data_recorder.Base.{ℕ, List, [], ◌∷◌, String, compare, Ordering, ◌≡◌, refl}

-- The character of a code, which for the text of a decimal is a digit or a point.
abbrev char_by : (n : ℕ) (below : Ordering) → compare n 55296 ≡ below → Char
char_by n Ordering.lt e = char n (rw e tt)
char_by n Ordering.eq e = nul
char_by n Ordering.gt e = nul

abbrev char_of : ℕ → Char
char_of n = char_by n (compare n 55296) refl

unfoldable pub text_of : List ℕ → String
text_of [] = String.[]
text_of (n ∷ bytes) = String.◌∷◌ (char_of n) (text_of bytes)

number : text_of (b'1' ∷ b'.' ∷ b'5' ∷ []) ≡ "1.5"
unfolding text_of
number = refl
