-- ===== src/LevelBook/Verified.antt =====
-- What a level book holds after books that it has all taken.
use text.Mathlib.Text.{◌==◌ as str_eq}
use text.Mathlib.TextEquality.{eq_iff}
use mathlib.Core.Option
use kraken_data_recorder.Base.{
  ℕ, Bool, true, false, List, [], ◌∷◌, String, Option, some, if◌then◌else◌, ◌==◌, ==_iff, Result,
  ok, err, bogus_crc32, ◌≡◌, sym, ap, ◌∙◌, inl, inr, Bool-cases, Result-cases,
}
use kraken_data_recorder.Crc.{Crc}
use kraken_data_recorder.Messages.{Book, c_snapshot, c_update}
use kraken_data_recorder.Sides
use kraken_data_recorder.Sides.{Sides, accept_snapshot, accept_update, verify_checksum}
use kraken_data_recorder.UnorderedMap.{lookup}
use kraken_data_recorder.LevelBook.{LevelBook, accept_found, accept_book, crc32}
use kraken_data_recorder.LevelBook.Frame.{accept_book_frame}

module _ (crc : Crc) where
  -- The sides of a symbol after books, of which only those of the symbol act on them.
  unfoldable pub sides_after : String → List Book → Option Sides → Option Sides
  sides_after symbol [] sides = sides
  sides_after symbol (book ∷ books) sides =
      let acted = Option.map (λ s. (accept_found crc s book).0) sides in
      sides_after symbol books (if str_eq book.symbol symbol then acted else sides)

  -- The checksum of the last book of a symbol, if there is one.
  unfoldable pub last_crc32 : String → List Book → Option ℕ → Option ℕ
  last_crc32 symbol [] known = known
  last_crc32 symbol (book ∷ books) known =
      last_crc32 symbol books (if str_eq book.symbol symbol then some book.crc32 else known)

  verify_checksum-crc32 :
      (s : Sides) (expected : ℕ)
      → verify_checksum crc s expected ≡ ok tt
      → Sides.crc32 crc s ≡ ok expected
  unfolding verify_checksum
  verify_checksum-crc32 s expected verified = elim (Result-cases (Sides.crc32 crc s)) [
    | inl (x, failed) ↦ let thrown : err x ≡ ok tt = rw (failed, verify_checksum) at verified in cc
    | inr (actual, computed) ↦ elim (Bool-cases (expected == actual)) [
      | inl same ↦
          let equal : expected ≡ actual = (==_iff expected actual).0 same in rw (computed, equal)
      | inr other ↦
          let thrown : err (bogus_crc32 expected actual) ≡ ok tt =
            rw (computed, other) at verified in
          cc
    ]
  ]

  -- The checksum of the sides is the expected one, where nothing is thrown.
  abbrev IsVerified : ℕ → Sides × Result (Unit {0}) → Type 0
  IsVerified expected (s, result) = result ≡ ok tt → Sides.crc32 crc s ≡ ok expected

  by_kind :
      (snapshot update : Bool) (n : ℕ) (a b c : Sides × Result (Unit {0}))
      → IsVerified n a
      → IsVerified n b
      → IsVerified n c
      → IsVerified n (if snapshot then a else if update then b else c)
  by_kind true update n a b c va vb vc = va
  by_kind false true n a b c va vb vc = vb
  by_kind false false n a b c va vb vc = vc

  accept_found-IsVerified :
      (s : Sides) (book : Book) → IsVerified book.crc32 (accept_found crc s book)
  unfolding accept_found accept_snapshot accept_update
  accept_found-IsVerified s book =
      by_kind (str_eq book.header.kind c_snapshot) (str_eq book.header.kind c_update) book.crc32
        (accept_snapshot crc s book) (accept_update crc s book) _
        (λ taken. verify_checksum-crc32 _ book.crc32 taken)
        (λ taken. verify_checksum-crc32 _ book.crc32 taken) λ taken. cc

  -- A symbol's checksum is this one, if there is one.
  abbrev pub HasCrc32 : LevelBook → String → Option ℕ → Type 0
  HasCrc32 b symbol known = (n : ℕ) → known ≡ some n → crc32 crc b symbol ≡ ok n

  -- A book that is taken acts on the sides of its symbol, and leaves them with its checksum.
  pub accept_book-HasCrc32 :
      (b : LevelBook) (book : Book) (symbol : String) (known : Option ℕ)
      → (accept_book crc b book).1 ≡ ok tt
      → HasCrc32 b symbol known
      → (lookup symbol (accept_book crc b book).0.sides
          ≡ sides_after symbol (book ∷ []) (lookup symbol b.sides))
        × HasCrc32 (accept_book crc b book).0 symbol (last_crc32 symbol (book ∷ []) known)
  unfolding sides_after last_crc32 crc32
  accept_book-HasCrc32 b book symbol known taken h = elim (accept_book_frame crc b book symbol) [
    | inl (unknown, thrown) ↦ cc
    | inr (sides, found, result, after) ↦ elim (Bool-cases (str_eq book.symbol symbol)) [
      | inl same ↦
          let equal : book.symbol ≡ symbol = (eq_iff book.symbol symbol).0 same in
          let here : lookup symbol b.sides ≡ some sides =
            ap (λ q. lookup q b.sides) (sym equal) ∙ found in
          let now : lookup symbol (accept_book crc b book).0.sides
              ≡ some (accept_found crc sides book).0 =
            rw same at after in
          let verified = accept_found-IsVerified sides book (sym result ∙ taken) in
          (
            rw (same, here) now,
            λ n e.
                let e' : some book.crc32 ≡ some n = rw same at e in
                let e'' : book.crc32 ≡ n = cc in rw (now, crc32) (verified ∙ ap ok e''),
          )
      | inr other ↦
          let now : lookup symbol (accept_book crc b book).0.sides ≡ lookup symbol b.sides =
            rw other at after in
          (rw other now, λ n e. rw (now, crc32) (h n (rw other at e)))
    ]
  ]
