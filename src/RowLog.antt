-- ===== src/RowLog.antt =====
-- What the book and trades sinks have in common as logs of rows: the batches of their file, the
-- latest first, and the builders. `columns_of` is how rows stand in columns.
use kraken_data_recorder.Base.{
  ℕ, suc, List, [], ◌∷◌, ◌++◌, append-nil, append_assoc, length, length-append, ◌≡◌, refl, sym, ◌∙◌,
  arith,
}

module _ {Row Columns : Type 0} (columns_of : List Row → Columns) where
  -- The rows of batches, the latest of which stands first.
  abbrev pub rows_in : List (List Row) → List Row
  rows_in [] = []
  rows_in (rows ∷ earlier) = rows_in earlier ++ rows

  abbrev pub batches_of : List (List Row) → List (ℕ × Columns)
  batches_of [] = []
  batches_of (rows ∷ earlier) = (length rows, columns_of rows) ∷ batches_of earlier

  -- A sink holds a log: its batches and then its builders are the rows of the log, in order, and
  -- every count of rows is right.
  pub record Holds (num_rows : ℕ) (columns : Columns) (batches : List (ℕ × Columns))
      (log : List Row) : Type 0 where
    pub file : List (List Row)
    pub unwritten : List Row
    pub counted : num_rows ≡ length unwritten
    pub built : columns ≡ columns_of unwritten
    pub written : batches ≡ batches_of file
    pub all : log ≡ rows_in file ++ unwritten

  -- The same with nothing in the builders that is not in the file.
  abbrev pub IsFile : List (ℕ × Columns) → List Row → Type 0
  IsFile batches log = (file : List (List Row)) × (batches ≡ batches_of file) × (log ≡ rows_in file)

  module _ {n : ℕ} {columns : Columns} {batches : List (ℕ × Columns)} {log : List Row} where
    pub Holds-append :
        (columns' : Columns) (row : Row)
        → ((rows : List Row)
            → columns ≡ columns_of rows
            → columns' ≡ columns_of (rows ++ (row ∷ [])))
        → Holds n columns batches log
        → Holds (suc n) columns' batches (log ++ (row ∷ []))
    Holds-append columns' row builds h = record {
      file = h.file;
      unwritten = h.unwritten ++ (row ∷ []);
      counted = omega (arith, h.counted, length-append h.unwritten (row ∷ []));
      built = builds h.unwritten h.built;
      written = h.written;
      all = rw h.all (append_assoc (rows_in h.file) h.unwritten (row ∷ []));
    }

    pub Holds-flush :
        (empty : Columns)
        → empty ≡ columns_of []
        → Holds n columns batches log
        → Holds 0 empty ((n, columns) ∷ batches) log
    Holds-flush empty e h = record {
      file = h.unwritten ∷ h.file;
      unwritten = [];
      counted = refl;
      built = e;
      written = rw (h.counted, h.built, h.written) refl;
      all = h.all ∙ sym (append-nil _);
    }

    pub Holds-IsFile :
        (empty : Columns) → Holds n columns batches log → IsFile ((n, columns) ∷ batches) log
    Holds-IsFile empty h = (h.unwritten ∷ h.file, rw (h.counted, h.built, h.written) refl, h.all)
