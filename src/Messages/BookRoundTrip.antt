-- ===== src/Messages/BookRoundTrip.antt =====
-- `book_t::from_json` on what `to_json_obj` writes.
use text.Mathlib.Text.{◌==◌ as str_eq}
use kraken_data_recorder.Base.{
  ℕ, ℤ, pos, ◌<◌, ◌^◌, Bool, true, false, List, [], ◌∷◌, if◌then◌else◌, Result, ok, err, ◌>>=◌, ◌≡◌,
  refl,
}
use kraken_data_recorder.Decimal
use kraken_data_recorder.Decimal.{Decimal}
use kraken_data_recorder.Messages.{
  Quote, Book, c_channel, c_type, c_asks, c_bids, c_checksum, c_price, c_qty, c_symbol, c_timestamp,
  c_update,
}
use kraken_data_recorder.Constants.{c_response_data}
use kraken_data_recorder.Messages.FromJson.{
  Readers, read_header, string_field, extract_decimal, read_quote, read_quotes, quotes_field,
  read_timestamp, read_entry, read_data, book_from_json,
}
use kraken_data_recorder.Messages.ToJson.{
  Writers, double_value, quote_fields, objs, book_to_json_obj,
}
use kraken_data_recorder.Requests.{
  Json, string, number, double, array, object, item, no_items, field, no_fields,
}
use kraken_data_recorder.Simdjson.{Simdjson}
use kraken_data_recorder.Timestamp.{from_iso_8601, to_iso_8601}
use kraken_data_recorder.Simdjson.Reading.{Reading, member, values_of}

module _ (json : Simdjson) (readers : Readers json.Value) (now : ℤ) (reading : Reading json)
    (writers : Writers) where
  open reading use {value_of}

  -- A decimal that is printed, read as a `double`, written to JSON, and read again.
  unfoldable pub reread : ℕ → Decimal → Result Decimal
  reread precision d =
      json.raw_json_token (value_of (double (double_value writers d precision)))
      >>= Decimal.from_str

  unfoldable pub reread_quotes : ℕ → ℕ → List Quote → Result (List Quote)
  unfolding reread
  reread_quotes pp qp [] = ok []
  reread_quotes pp qp ((price, qty) ∷ side) = do
    price' ← reread pp price
    qty' ← reread qp qty
    side' ← reread_quotes pp qp side
    ok ((Decimal.copy price', Decimal.copy qty') ∷ side')

  read_quote-quote_fields :
      (pp qp : ℕ) (price qty : Decimal)
      → read_quote json readers now
          (ok (value_of (object (quote_fields writers pp qp (price, qty)))))
        ≡ (reread pp price >>= λ price'.
            reread qp qty >>= λ qty'. ok (Decimal.copy price', Decimal.copy qty'))
  unfolding read_quote extract_decimal quote_fields reread member
  read_quote-quote_fields pp qp price qty =
      let fields = quote_fields writers pp qp (price, qty) in
      rw
        (
          reading.read_object fields,
          reading.find_member fields c_price (double (double_value writers price pp)) refl,
          reading.find_member fields c_qty (double (double_value writers qty qp)) refl,
        )
        refl

  two_then :
      {A B C D : Type 0} (m : Result A) (n : Result B) (f : A → B → C) (g : C → Result D)
      → ((m >>= λ a. n >>= λ b. ok (f a b)) >>= g) ≡ (m >>= λ a. n >>= λ b. g (f a b))
  two_then (err x) n f g = refl
  two_then (ok a) (err x) f g = refl
  two_then (ok a) (ok b) f g = refl

  read_quotes-objs :
      (pp qp : ℕ) (side : List Quote)
      → read_quotes json readers now (values_of value_of (objs (quote_fields writers pp qp) side))
        ≡ reread_quotes pp qp side
  unfolding read_quotes objs reread_quotes
  read_quotes-objs pp qp [] = refl
  read_quotes-objs pp qp ((price, qty) ∷ side) =
      rw (read_quote-quote_fields pp qp price qty, read_quotes-objs pp qp side)
        (two_then (reread pp price) (reread qp qty)
          (λ price' qty'. (Decimal.copy price', Decimal.copy qty'))
          λ quote. reread_quotes pp qp side >>= λ quotes. ok (quote ∷ quotes))

  -- The time stamp that is read: that of an update.
  abbrev pub reread_timestamp : Book → ℤ
  reread_timestamp book =
      if str_eq book.header.kind c_update
      then from_iso_8601 readers.date (to_iso_8601 writers.date book.timestamp)
      else pos 0

  read_timestamp-field :
      (update : Bool) (entry : json.Value) (timestamp : ℤ)
      → string_field json readers now entry c_timestamp ≡ ok (to_iso_8601 writers.date timestamp)
      → read_timestamp json readers now update entry
        ≡ ok (
            if update
            then from_iso_8601 readers.date (to_iso_8601 writers.date timestamp)
            else pos 0)
  unfolding read_timestamp
  read_timestamp-field true entry timestamp e = rw e refl
  read_timestamp-field false entry timestamp e = refl

  -- `from_json` of what `to_json_obj` writes of a book, with a checksum below 2 ^ 64: the channel,
  -- the type, the checksum and the symbol are those of the book; each price and quantity is what the
  -- constructor makes of the text of the `double` that the printed decimal stands for, and the first
  -- that it refuses is thrown; the time stamp is that of the book, written and read, for an update,
  -- and 0 for any other type.
  pub book_from_json-to_json :
      (pp qp : ℕ) (book : Book)
      → book.crc32 < 2 ^ 64
      → book_from_json json readers now (value_of (book_to_json_obj writers pp qp book)) ≡ (
          reread_quotes pp qp book.asks >>= λ asks. reread_quotes pp qp book.bids >>= λ bids.
          ok (record {
            header = record book.header { recv_tm = now };
            asks = asks;
            bids = bids;
            crc32 = book.crc32;
            symbol = book.symbol;
            timestamp = reread_timestamp book;
          }))
  unfolding book_from_json read_header read_data read_entry quotes_field string_field
      book_to_json_obj member
  book_from_json-to_json pp qp book small =
      let quotes : List Quote → Json = λ side. array (objs (quote_fields writers pp qp) side) in
      let timestamp = string (to_iso_8601 writers.date book.timestamp) in
      let fields = field c_asks (quotes book.asks) (
        field c_bids (quotes book.bids) (
          field c_checksum (number book.crc32)
            (field c_symbol (string book.symbol) (field c_timestamp timestamp no_fields)))) in
      let data_items = item (object fields) no_items in
      let entry = value_of (object fields) in
      let has_timestamp : string_field json readers now entry c_timestamp
          ≡ ok (to_iso_8601 writers.date book.timestamp) =
        rw
          (
            reading.find_member fields c_timestamp timestamp refl,
            reading.read_string (to_iso_8601 writers.date book.timestamp),
          )
          refl in
      rw
        (
          reading.find_member _ c_channel (string book.header.channel) refl,
          reading.find_member _ c_type (string book.header.kind) refl,
          reading.find_member _ c_response_data (array data_items) refl,
          reading.read_string book.header.channel,
          reading.read_string book.header.kind,
          reading.read_array data_items,
          reading.find_member fields c_asks (quotes book.asks) refl,
          reading.find_member fields c_bids (quotes book.bids) refl,
          reading.find_member fields c_checksum (number book.crc32) refl,
          reading.find_member fields c_symbol (string book.symbol) refl,
          reading.read_array (objs (quote_fields writers pp qp) book.asks),
          reading.read_array (objs (quote_fields writers pp qp) book.bids),
          reading.read_number book.crc32 small,
          reading.read_string book.symbol,
          read_quotes-objs pp qp book.asks,
          read_quotes-objs pp qp book.bids,
          read_timestamp-field (str_eq book.header.kind c_update) entry book.timestamp
              has_timestamp,
        )
        refl
