-- ===== src/Messages/RoundTrip.antt =====
-- `instrument_t::from_json` on what `to_json_obj` writes.
use kraken_data_recorder.Base.{ℤ, List, [], ◌∷◌, Result, ok, All, ◌≡◌, refl}
use kraken_data_recorder.Messages.{Asset, Pair, Instrument}
use kraken_data_recorder.Messages.FromJson.{
  Readers, read_header, string_field, read_objects, instrument_from_json,
}
use kraken_data_recorder.Messages.ToJson.{objs, instrument_to_json_obj}
use kraken_data_recorder.Requests.{string, array, object, Fields, field, no_fields}
use kraken_data_recorder.Simdjson.{Simdjson}
use kraken_data_recorder.Simdjson.Reading.{Reading, member, values_of}

module _ (json : Simdjson) (readers : Readers json.Value) (now : ℤ) (reading : Reading json) where
  open json use {Value}
  open reading use {value_of}

  -- Each of these is read back from its members.
  abbrev pub IsReadBack : {A : Type 0} → (A → Fields) → (Value → Result A) → List A → Type 0
  IsReadBack fields_of read entries =
      All (λ a. read (value_of (object (fields_of a))) ≡ ok a) entries

  read_objects-objs :
      {A : Type 0} (fields_of : A → Fields) (read : Value → Result A) (entries : List A)
      → IsReadBack fields_of read entries
      → read_objects json readers now read (values_of value_of (objs fields_of entries))
        ≡ ok entries
  unfolding read_objects objs
  read_objects-objs fields_of read [] law = refl
  read_objects-objs fields_of read (a ∷ entries) law =
      rw (reading.read_object (fields_of a), law.0, read_objects-objs fields_of read entries law.1)
        refl

  -- `from_json` of what `to_json_obj` writes is the message that was written, with the time of
  -- receipt of the reader, if the generated parsers read back its assets and pairs from what their
  -- generated writers write.
  pub instrument_from_json-to_json :
      (asset_fields : Asset → Fields) (pair_fields : Pair → Fields) (response : Instrument)
      → IsReadBack asset_fields readers.asset response.assets
      → IsReadBack pair_fields readers.pair response.pairs
      → instrument_from_json json readers now
          (value_of (instrument_to_json_obj asset_fields pair_fields response))
        ≡ ok (record response { header = record response.header { recv_tm = now } })
  unfolding instrument_from_json read_header string_field instrument_to_json_obj member
  instrument_from_json-to_json asset_fields pair_fields response assets_law pairs_law =
      let pairs = array (objs pair_fields response.pairs) in
      let assets = array (objs asset_fields response.assets) in
      let content = object (field "pairs" pairs (field "assets" assets no_fields)) in
      rw
        (
          reading.find_member _ "channel" (string response.header.channel) refl,
          reading.find_member _ "type" (string response.header.kind) refl,
          reading.find_member _ "data" content refl,
          reading.find_member _ "assets" assets refl,
          reading.find_member _ "pairs" pairs refl,
          reading.read_string response.header.channel,
          reading.read_string response.header.kind,
          reading.read_array (objs asset_fields response.assets),
          reading.read_array (objs pair_fields response.pairs),
          read_objects-objs asset_fields readers.asset response.assets assets_law,
          read_objects-objs pair_fields readers.pair response.pairs pairs_law,
        )
        refl
