-- ===== src/Decimal/Examples.antt =====
-- The cases of test/unit/decimal_test.cpp, and instances of the theorems.
use Prim.Native.Char.{code}
use kraken_data_recorder.Base.{String, [], ◌∷◌, Result, ok, ◌>>=◌, ◌≡◌, refl, ℕ}
use kraken_data_recorder.Decimal.{Bytes, from_str, str, str_to}

abbrev codes : String → Bytes
codes String.[] = []
codes (String.◌∷◌ c s) = code c ∷ codes s

abbrev printed : String → Result Bytes
unfolding from_str str
printed s = from_str (codes s) >>= λ d. ok (str d)

abbrev printed_to : String → ℕ → Result Bytes
unfolding from_str str_to
printed_to s p = from_str (codes s) >>= λ d. ok (str_to d p)

ctor_tests :
    (printed "0" ≡ ok (codes "0.0"))
    × (printed "0000.0000" ≡ ok (codes "0.0"))
    × (printed "   1234.567   " ≡ ok (codes "1234.567"))
    × (printed "13600.00000000" ≡ ok (codes "13600"))
unfolding from_str str
ctor_tests = (refl, refl, refl, refl)

str_to_tests :
    (printed_to "123" 2 ≡ ok (codes "123.00"))
    × (printed_to "00123.345" 4 ≡ ok (codes "123.3450"))
    × (printed_to "123.3450" 3 ≡ ok (codes "123.345"))
unfolding from_str str_to
str_to_tests = (refl, refl, refl)
