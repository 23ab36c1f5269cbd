-- ===== src/Messages/Decoded.antt =====
-- The books that `book_t::from_json` returns.
use text.Mathlib.Text.{◌==◌ as str_eq}
use kraken_data_recorder.Base.{
  ℤ, List, [], ◌∷◌, String, Result, ok, err, ◌>>=◌, All, Ensures, Ensures-bind, Ensures-then,
}
use kraken_data_recorder.Decimal
use kraken_data_recorder.Decimal.{Bytes, Decimal}
use kraken_data_recorder.Decimal.Bounds.{IsRead, Outcome, from_str-Outcome, copy-IsRead, copy-IsOwn}
use kraken_data_recorder.Decimal.Layout.{IsOwn}
use kraken_data_recorder.Messages.{Header, Quote, Book, c_update}
use kraken_data_recorder.Messages.FromJson.{
  Readers, extract_decimal, read_header, read_quote, read_quotes, quotes_field, read_entry,
  read_data, book_from_json, string_field, read_timestamp,
}
use kraken_data_recorder.Simdjson.{Simdjson}

-- A decimal that the constructor has made and that views its own array.
abbrev pub IsKept : Decimal → Type 0
IsKept d = IsRead d × IsOwn d

abbrev pub IsKeptQuote : Quote → Type 0
IsKeptQuote (price, qty) = IsKept price × IsKept qty

abbrev pub IsKeptBook : Book → Type 0
IsKeptBook book = All IsKeptQuote book.asks × All IsKeptQuote book.bids

from_str-Ensures : (token : Bytes) → Ensures IsRead (Decimal.from_str token)
from_str-Ensures token = returned (Decimal.from_str token) (from_str-Outcome token)
  where
    returned : (r : Result Decimal) → Outcome token r → Ensures IsRead r
    returned (ok d) outcome = outcome.1
    returned (err x) outcome = tt

copy-IsKept : (d : Decimal) → IsRead d → IsKept (Decimal.copy d)
copy-IsKept d h = (copy-IsRead d h, copy-IsOwn d)

module _ (json : Simdjson) (readers : Readers json.Value) (now : ℤ) where
  open json use {Value, find_field, get_object, get_uint64, elements, raw_json_token}

  extract_decimal-Ensures :
      (obj : Value) (field : String) → Ensures IsRead (extract_decimal json readers now obj field)
  unfolding extract_decimal
  extract_decimal-Ensures obj field =
      Ensures-then IsRead (find_field obj field >>= raw_json_token) Decimal.from_str
        from_str-Ensures

  read_quote-Ensures :
      (element : Result Value) → Ensures IsKeptQuote (read_quote json readers now element)
  unfolding read_quote
  read_quote-Ensures element = Ensures-then IsKeptQuote element _ λ value.
      Ensures-then IsKeptQuote (get_object value) _ λ obj.
        Ensures-bind IsRead IsKeptQuote (extract_decimal json readers now obj "price") _
          (extract_decimal-Ensures obj "price")
          λ price p.
            Ensures-bind IsRead IsKeptQuote (extract_decimal json readers now obj "qty") _
              (extract_decimal-Ensures obj "qty") λ qty q. (copy-IsKept price p, copy-IsKept qty q)

  read_quotes-Ensures :
      (entries : List (Result Value))
      → Ensures (All IsKeptQuote) (read_quotes json readers now entries)
  unfolding read_quotes
  read_quotes-Ensures [] = tt
  read_quotes-Ensures (element ∷ rest) =
      Ensures-bind IsKeptQuote (All IsKeptQuote) (read_quote json readers now element) _
        (read_quote-Ensures element)
        λ quote k.
          Ensures-bind (All IsKeptQuote) (All IsKeptQuote) (read_quotes json readers now rest) _
            (read_quotes-Ensures rest) λ quotes ks. (k, ks)

  quotes_field-Ensures :
      (entry : Value) (key : String)
      → Ensures (All IsKeptQuote) (quotes_field json readers now entry key)
  unfolding quotes_field
  quotes_field-Ensures entry key =
      Ensures-then (All IsKeptQuote) (find_field entry key >>= elements) _ read_quotes-Ensures

  read_entry-Ensures :
      (header : Header) (entry : Value)
      → Ensures IsKeptBook (read_entry json readers now header entry)
  unfolding read_entry
  read_entry-Ensures header entry =
      Ensures-bind (All IsKeptQuote) IsKeptBook (quotes_field json readers now entry "asks") _
        (quotes_field-Ensures entry "asks")
        λ asks a.
          Ensures-bind (All IsKeptQuote) IsKeptBook (quotes_field json readers now entry "bids") _
            (quotes_field-Ensures entry "bids")
            λ bids b.
              let kept : All IsKeptQuote asks × All IsKeptQuote bids = (a, b) in
              Ensures-then IsKeptBook (find_field entry "checksum" >>= get_uint64) _ λ crc32.
                Ensures-then IsKeptBook (string_field json readers now entry "symbol") _ λ symbol.
                  Ensures-then IsKeptBook
                    (read_timestamp json readers now (str_eq header.kind c_update) entry) _
                    λ timestamp. kept

  read_data-Ensures :
      (header : Header) (entries : List (Result Value))
      → Ensures IsKeptBook (read_data json readers now header entries)
  unfolding read_data
  read_data-Ensures header [] = (tt, tt)
  read_data-Ensures header (entry ∷ []) =
      Ensures-then IsKeptBook entry _ (read_entry-Ensures header)
  read_data-Ensures header (entry ∷ second ∷ more) =
      Ensures-then IsKeptBook (entry >>= read_entry json readers now header) _ λ book. tt

  -- Every price and quantity of a book that `from_json` returns has at most 48 characters in an
  -- array of 48, digits and at most one point, and views its own array.
  pub book_from_json-IsKept :
      (response : Value) → Ensures IsKeptBook (book_from_json json readers now response)
  unfolding book_from_json
  book_from_json-IsKept response =
      Ensures-then IsKeptBook (read_header json readers now response) _ λ header.
        Ensures-then IsKeptBook (find_field response "data" >>= elements) _
          (read_data-Ensures header)
