-- ===== src/Io.antt =====
-- The names of the files (parquet/include/io.hpp), over `std::to_string`.
use Prim.Native.String.{◌++◌}
use text.Mathlib.Text.{◌==◌ as str_eq}
use text.Mathlib.TextEquality.{eq_iff}
use text.Mathlib.TextLemmas.{append_cancel_left, append_cancel_right}
use kraken_data_recorder.AssetsSink
use kraken_data_recorder.Base.{ℤ, true, false, List, [], ◌∷◌, String, All, ◌≡◌, ◌≢◌, refl}
use kraken_data_recorder.BookSink
use kraken_data_recorder.PairsSink
use kraken_data_recorder.TradesSink

module _ (to_string : ℤ → String) where
  unfoldable pub parquet_filename : String → String → ℤ → String
  parquet_filename parquet_dir sink_name id =
      ((((parquet_dir ++ "/") ++ to_string id) ++ ".") ++ sink_name) ++ ".pq"

  -- The files of two sinks with different names have different names.
  parquet_filename-sink_name :
      (parquet_dir : String) (id : ℤ) (name other : String)
      → parquet_filename parquet_dir name id ≡ parquet_filename parquet_dir other id
      → name ≡ other
  unfolding parquet_filename
  parquet_filename-sink_name parquet_dir id name other same =
      append_cancel_left _ name other (append_cancel_right _ _ ".pq" same)

  -- The files that `main` opens, all with the same directory and number.
  abbrev pub filenames : String → ℤ → List String
  filenames parquet_dir now =
      parquet_filename parquet_dir AssetsSink.c_sink_name now
      ∷ parquet_filename parquet_dir PairsSink.c_sink_name now
      ∷ parquet_filename parquet_dir BookSink.c_sink_name now
      ∷ parquet_filename parquet_dir TradesSink.c_sink_name now
      ∷ []

  abbrev IsDistinct : List String → Type 0
  IsDistinct [] = Unit
  IsDistinct (name ∷ names) = All (λ other. name ≢ other) names × IsDistinct names

  different :
      (parquet_dir : String) (now : ℤ) (name other : String)
      → str_eq name other ≡ false
      → parquet_filename parquet_dir name now ≢ parquet_filename parquet_dir other now
  different parquet_dir now name other unequal same =
      let equal : str_eq name other ≡ true =
        (eq_iff name other).1 (parquet_filename-sink_name parquet_dir now name other same) in
      cc

  -- No two of the sinks have the same file.
  pub filenames-IsDistinct :
      (parquet_dir : String) (now : ℤ) → IsDistinct (filenames parquet_dir now)
  filenames-IsDistinct parquet_dir now =
      let apart = different parquet_dir now in
      (
        (
          apart "assets" "pairs" refl,
          (apart "assets" "book" refl, (apart "assets" "trades" refl, tt)),
        ),
        (
          (apart "pairs" "book" refl, (apart "pairs" "trades" refl, tt)),
          ((apart "book" "trades" refl, tt), (tt, tt)),
        ),
      )
