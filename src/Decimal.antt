-- ===== src/Decimal.antt =====
-- `decimal_t` of include/decimal.hpp and src/decimal.cpp: a decimal number kept as the characters
-- of its token. The record has the array `m_chars` and the view `m_view`, which points either into
-- that array or at the static `c_zero_chars`; a view of its own array is known by its size alone.
-- Characters are their codes. A precision is a natural number: `str` and `str_view` assert that it
-- is not negative.
pub mod Digits
pub mod Layout
pub mod Print
pub mod Checksum
pub mod Order
pub mod Token
pub mod Trim
pub mod RoundTrip
pub mod Reread
pub mod Number
pub mod Scan
pub mod Bounds
pub mod Faults
pub mod Examples
use kraken_data_recorder.Base.{
  ℕ, zero, suc, ◌+◌, ◌-◌, ◌*◌, ◌%◌, ◌^◌, compare, Ordering, Bool, true, false, not, ◌&&◌, List, [],
  ◌∷◌, ◌++◌, Option, none, some, ltb, leb, ◌==◌, if◌then◌else◌, length, get_or, set, take, drop,
  replicate, Error, too_long, invalid_state, out_of_bounds, Result, ok, err, ◌>>=◌,
}

abbrev pub Bytes : Type 0
Bytes = List ℕ

pub data View : Type 0 where
  own : ℕ → View
  static_zero : View

pub record Decimal : Type 0 where
  pub chars : Bytes
  pub view : View

-- A cache line of 64 bytes less the 16 of a `std::string_view`.
abbrev pub c_max_num_chars : ℕ
c_max_num_chars = 64 - 16

abbrev pub c_zero_chars : Bytes
c_zero_chars = b'0' ∷ b'.' ∷ b'0' ∷ []

abbrev pub is_digit : ℕ → Bool
is_digit ch = leb b'0' ch && leb ch b'9'

-- The characters that a view shows, over the array that it may point into.
abbrev view_chars : Bytes → View → Bytes
view_chars chars (own size) = take size chars
view_chars chars static_zero = c_zero_chars

abbrev view_size : View → ℕ
view_size (own size) = size
view_size static_zero = length c_zero_chars

-- `decimal_t()`: the array is left uninitialised, so its content is an argument.
pub default : Bytes → Decimal
default chars = record { chars = chars; view = static_zero }

-- The copy constructor, the move constructor and the copy assignment do the same: the array is
-- copied, and the view is of the new array, at the size of the old view.
pub copy : Decimal → Decimal
copy rhs = record { chars = rhs.chars; view = own (view_size rhs.view) }

-- `to_int`, in `uint64_t`; `ch - '0'` is an `int`, taken modulo 2 ^ 64.
pub to_int_from : ℕ → Bytes → ℕ
to_int_from result [] = result
to_int_from result (ch ∷ view) =
    to_int_from ((result * 10 % 2 ^ 64 + (ch + 2 ^ 64 - b'0')) % 2 ^ 64) view

pub to_int : Bytes → ℕ
unfolding to_int_from
to_int = to_int_from 0

-- `string_view::find`, where `none` is `npos`.
pub find : ℕ → Bytes → Option ℕ
find c [] = none
find c (x ∷ xs) =
    let rest = find c xs in
    if x == c then some 0 else elim rest [ none ↦ none | some i ↦ some (suc i) ]

pub int_part : Bytes → Bytes
unfolding find
int_part view = elim (find b'.' view) [ none ↦ view | some decimal_point ↦ take decimal_point view ]

pub frac_part : Bytes → Bytes
unfolding find
frac_part view = elim (find b'.' view) [
  | none ↦ []
  | some decimal_point ↦ drop (suc decimal_point) view
]

pub is_zero : Bytes → Bool
is_zero view =
    if ltb 0 (length (int_part view)) && not (to_int (int_part view) == 0)
    then false
    else if ltb 0 (length (frac_part view)) && not (to_int (frac_part view) == 0)
    then false
    else true

pub data State : Type 0 where
  before_digit before_decimal after_decimal after_value : State

-- What the loop of the constructor writes: the array and `dst_idx`.
pub record Dst : Type 0 where
  pub chars : Bytes
  pub dst_idx : ℕ

-- `m_chars[dst_idx++] = ch`
pub put : Dst → ℕ → Result Dst
put w ch =
    if ltb w.dst_idx (length w.chars)
    then ok (record { chars = set w.chars w.dst_idx ch; dst_idx = suc w.dst_idx })
    else err out_of_bounds

-- The character is written, and the next state is set.
pub keep : State → Dst → ℕ → Result (State × Dst)
unfolding put
keep next w ch = put w ch >>= λ w'. ok (next, w')

-- A '0' before any other digit; `rest` is what stands behind it.
leading_zero : ℕ → Bytes → Dst → Result (State × Dst)
unfolding keep
leading_zero ch [] w = keep after_value w ch
leading_zero ch (next ∷ _) w =
    if next == b'.' then keep before_decimal w ch else ok (before_digit, w)

-- One round of the `switch`.
pub step : State → ℕ → Bytes → Dst → Result (State × Dst)
unfolding leading_zero keep
step before_digit ch rest w =
    if is_digit ch
    then if ch == b'0' then leading_zero ch rest w else keep before_decimal w ch
    else ok (before_digit, w)
step before_decimal ch rest w =
    if is_digit ch
    then keep before_decimal w ch
    else if ch == b'.'
    then keep after_decimal w ch
    else err invalid_state
step after_decimal ch rest w = if is_digit ch then keep after_decimal w ch else ok (after_value, w)
step after_value ch rest w = ok (after_value, w)

pub scan : State → Bytes → Dst → Result Dst
unfolding step
scan state [] w = ok w
scan state (ch ∷ str) w = step state ch str w >>= λ next. scan next.0 str next.1

-- `while (m_view[end_idx] == '0' && end_idx >= idx) --end_idx`, on `end_idx + 1`.
pub drop_zeros : ℕ → Bytes → ℕ → ℕ
drop_zeros zero view idx = zero
drop_zeros (suc end_idx) view idx =
    let rest = drop_zeros end_idx view idx in
    if get_or view end_idx 0 == b'0' && leb idx end_idx then rest else suc end_idx

-- `if (m_view[end_idx] == '.') --end_idx`, on `end_idx + 1`.
pub drop_point : ℕ → Bytes → ℕ
drop_point zero view = zero
drop_point (suc end_idx) view = if get_or view end_idx 0 == b'.' then end_idx else suc end_idx

-- What the constructor does after its loop.
pub normalize : Dst → Decimal
unfolding is_zero int_part frac_part to_int find drop_zeros drop_point
normalize w =
    let view = take w.dst_idx w.chars in
    if is_zero view then record { chars = w.chars; view = static_zero } else record {
      chars = w.chars;
      view = elim (find b'.' view) [
        | none ↦ own w.dst_idx
        | some idx ↦ own (drop_point (drop_zeros w.dst_idx view idx) view)
      ];
    }

-- The constructor from a text.
pub from_str : Bytes → Result Decimal
unfolding scan normalize
from_str str =
    if ltb c_max_num_chars (length str)
    then err (too_long (length str))
    else scan before_digit str (record { chars = replicate c_max_num_chars b'0'; dst_idx = 0 })
      >>= λ w. ok (normalize w)

-- A digit of a fraction, '0' behind its end. The source takes '0' off on both sides of a
-- comparison, which changes nothing there.
abbrev digit_at : Bytes → ℕ → ℕ
digit_at view idx = if ltb idx (length view) then get_or view idx 0 else b'0'

-- `if (result != equal) return result;`, and what is done after it.
abbrev pub unless_equal : Ordering → Ordering → Ordering
unless_equal Ordering.eq later = later
unless_equal Ordering.lt later = Ordering.lt
unless_equal Ordering.gt later = Ordering.gt

pub compare_from : ℕ → ℕ → Bytes → Bytes → Ordering
compare_from zero idx lhs rhs = Ordering.eq
compare_from (suc rounds) idx lhs rhs =
    unless_equal (compare (digit_at lhs idx) (digit_at rhs idx))
      (compare_from rounds (suc idx) lhs rhs)

abbrev pub max_ℕ : ℕ → ℕ → ℕ
max_ℕ a b = if ltb a b then b else a

-- `operator<=>` on what two views show.
pub compare_views : Bytes → Bytes → Ordering
compare_views lhs rhs = unless_equal (compare (to_int (int_part lhs)) (to_int (int_part rhs))) (
    compare_from (max_ℕ (length (frac_part lhs)) (length (frac_part rhs))) 0 (frac_part lhs)
      (frac_part rhs))

-- `str()`
pub str : Decimal → Bytes
str d = view_chars d.chars d.view

-- `operator<<`: what is written to the stream
pub stream_out : Bytes → Decimal → Bytes
unfolding str
stream_out os value = os ++ str value

pub three_way : Decimal → Decimal → Ordering
unfolding str compare_views int_part frac_part to_int compare_from
three_way lhs rhs = compare_views (str lhs) (str rhs)

-- `operator<`, `operator>` and `operator==`
pub lt : Decimal → Decimal → Bool
unfolding three_way
lt lhs rhs = elim (three_way lhs rhs) [ Ordering.lt ↦ true | _ ↦ false ]

pub gt : Decimal → Decimal → Bool
unfolding three_way
gt lhs rhs = elim (three_way lhs rhs) [ Ordering.gt ↦ true | _ ↦ false ]

pub eq : Decimal → Decimal → Bool
unfolding three_way
eq lhs rhs = elim (three_way lhs rhs) [ Ordering.eq ↦ true | _ ↦ false ]

-- `str(precision)`
pub str_to : Decimal → ℕ → Bytes
unfolding str find
str_to d precision = elim (find b'.' (str d)) [
  | none ↦ str d ++ (b'.' ∷ replicate precision b'0')
  | some decimal_pos ↦
      let chars_after_decimal = length (str d) - suc decimal_pos in
      if ltb chars_after_decimal precision
      then str d ++ replicate (precision - chars_after_decimal) b'0'
      else take (decimal_pos + 1 + precision) (str d)
]

-- The first `size` characters from where the view points; past the array there are none to read.
pub read_view : Decimal → ℕ → Result Bytes
read_view d size = elim d.view [
  | own _ ↦ if leb size (length d.chars) then ok (take size d.chars) else err out_of_bounds
  | static_zero ↦
      if leb size (length c_zero_chars) then ok (take size c_zero_chars) else err out_of_bounds
]

-- `m_chars[idx] = ch`
pub write_char : Decimal → ℕ → ℕ → Result Decimal
write_char d idx ch =
    if ltb idx (length d.chars)
    then ok (record d { chars = set d.chars idx ch })
    else err out_of_bounds

-- `str_view(precision)`: the decimal, whose array it may have written to, and what the view shows.
pub str_view : Decimal → ℕ → Result (Decimal × Bytes)
unfolding str find read_view write_char
str_view d precision = elim (find b'.' (str d)) [
  | none ↦ write_char d (length (str d)) b'.' >>= λ d'.
      read_view d' (length (str d) + precision + 1) >>= λ chars. ok (d', chars)
  | some decimal_pos ↦
      let chars_after_decimal = length (str d) - suc decimal_pos in
      (if ltb chars_after_decimal precision
        then read_view d (length (str d) + (precision - chars_after_decimal))
        else read_view d (decimal_pos + 1 + precision))
      >>= λ chars. ok (d, chars)
]

module _ {S : Type 0} (process_byte : S → ℕ → S) where
  -- The variables of the loop of `process`.
  pub record Progress : Type 0 where
    pub crc32 : S
    pub in_leading_zeros : Bool
    pub in_trailing_digits : Bool
    pub num_trailing_digits : ℕ

  process_digit : ℕ → Progress → Progress
  process_digit ch p =
      if not p.in_leading_zeros
      then record p {
        crc32 = process_byte p.crc32 ch;
        num_trailing_digits =
            if p.in_trailing_digits then p.num_trailing_digits + 1 else p.num_trailing_digits;
      }
      else if not (ch == b'0')
      then record p { in_leading_zeros = false; crc32 = process_byte p.crc32 ch }
      else p

  pub process_char : ℕ → Progress → Progress
  unfolding process_digit
  process_char ch p =
      let p' = if is_digit ch then process_digit ch p else p in
      if ch == b'.' then record p' { in_trailing_digits = true } else p'

  pub process_chars : ℕ → Bytes → Progress → S
  unfolding process_char
  process_chars precision [] p = p.crc32
  process_chars precision (ch ∷ chars) p =
      let rest = process_chars precision chars (process_char ch p) in
      if p.in_trailing_digits && leb precision p.num_trailing_digits then p.crc32 else rest

  -- `process`. What `str_view` writes to the array stands outside the view, and is dropped here.
  pub process : Decimal → S → ℕ → Result S
  unfolding str_view process_chars
  process d crc32 precision = str_view d precision >>= λ read. ok (
      process_chars precision read.1 (record {
        crc32 = crc32;
        in_leading_zeros = true;
        in_trailing_digits = false;
        num_trailing_digits = 0;
      }))
