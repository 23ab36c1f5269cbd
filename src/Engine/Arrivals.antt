-- ===== src/Engine/Arrivals.antt =====
-- Which book a message is, by its channel and its parser.
use text.Mathlib.Text.{◌==◌ as str_eq}
use text.Mathlib.TextEquality.{eq_iff}
use kraken_data_recorder.Base.{
  String, Bool, List, [], ◌∷◌, ◌++◌, append-nil, Result, ok, err, none, some, if◌then◌else◌, ◌≡◌,
  inl, inr, refl, sym, ◌∙◌, arith, Option-cases, Result-cases,
}
use kraken_data_recorder.Constants.{c_channel_book}
use kraken_data_recorder.Decimal.{Bytes}
use kraken_data_recorder.Messages.{Book}
use kraken_data_recorder.Metrics
use kraken_data_recorder.Session.{Session}
use kraken_data_recorder.Engine.{
  Environment, Engine, World, handle_msg, try_msg, caught, handle_book_msg, handle_channel,
  handle_method,
}

module _ {R : Type 0} (env : Environment R) where
  open env use {parser}

  -- The book that a document of the channel is, if it is one.
  abbrev pub parsed_book : Result Book → List Book
  parsed_book (err x) = []
  parsed_book (ok book) = book ∷ []

  -- The book that a message is: a message of the channel for books that can be parsed.
  unfoldable pub book_of : Bytes → List Book
  book_of msg = elim (parser.iterate msg) [
    | err x ↦ []
    | ok doc ↦ elim (parser.channel doc) [
      | none ↦ []
      | some channel ↦ if str_eq channel c_channel_book then parsed_book (parser.book doc) else []
    ]
  ]

  abbrev queue_of : World env × Result Bool → List Book
  queue_of (w, result) = w.1.0.book_responses

  book_msg-parsed_book :
      (doc : parser.Document) (s : Session) (e : Engine) (r : R)
      → queue_of (handle_book_msg env doc (s, (e, r)))
        ≡ e.book_responses ++ parsed_book (parser.book doc)
  unfolding handle_book_msg
  book_msg-parsed_book doc s e r = elim (Result-cases (parser.book doc)) [
    | inl (x, failed) ↦ rw (failed, handle_book_msg) (sym (append-nil _))
    | inr (book, read) ↦ rw (read, handle_book_msg) refl
  ]

  channel-book_of :
      (channel : String) (doc : parser.Document) (s : Session) (e : Engine) (r : R)
      → queue_of (handle_channel env channel doc (s, (e, r)))
        ≡ e.book_responses
          ++ (if str_eq channel c_channel_book then parsed_book (parser.book doc) else [])
  unfolding handle_channel
  channel-book_of channel doc s e r = ground (
    arith,
    book_msg-parsed_book doc s e r,
    append-nil e.book_responses,
    eq_iff channel "book",
    eq_iff channel "instrument",
    eq_iff "book" "instrument",
  )

  method-queue :
      (msg : Bytes) (method : String) (s : Session) (e : Engine) (r : R)
      → queue_of (handle_method env msg method (s, (e, r))) ≡ e.book_responses
  unfolding handle_method
  method-queue msg method s e r = ground arith

  try_msg-book_of :
      (msg : Bytes) (s : Session) (e : Engine) (r : R)
      → queue_of (try_msg env msg (s, (e, r))) ≡ e.book_responses ++ book_of msg
  unfolding try_msg book_of
  try_msg-book_of msg s e r = elim (Result-cases (parser.iterate msg)) [
    | inl (x, failed) ↦ rw (failed, try_msg, book_of) (sym (append-nil _))
    | inr (doc, read) ↦ elim (Option-cases (parser.channel doc)) [
      | inr (channel, has) ↦ rw (read, has, try_msg, book_of) (channel-book_of channel doc s e r)
      | inl none_1 ↦ elim (Option-cases (parser.method doc)) [
        | inl none_2 ↦ rw (read, none_1, none_2, try_msg, book_of) (sym (append-nil _))
        | inr (method, has) ↦
            rw (read, none_1, has, try_msg, book_of, append-nil e.book_responses)
              (method-queue msg method s e r)
      ]
    ]
  ]

  caught-queue : (w : World env × Result Bool) → (caught env w).0.1.0.book_responses ≡ queue_of w
  unfolding caught
  caught-queue (w, ok continue) = refl
  caught-queue (w, err x) = refl

  -- `handle_msg` puts at the end of the queue the book that the message is, if it is one, and leaves
  -- the rest of the queue as it is, whatever the message is, also where parsing it or the sink
  -- throws.
  pub handle_msg-book_of :
      (msg : Bytes) (s : Session) (e : Engine) (r : R)
      → (handle_msg env msg (s, (e, r))).0.1.0.book_responses ≡ e.book_responses ++ book_of msg
  unfolding handle_msg
  handle_msg-book_of msg s e r =
      caught-queue _ ∙ try_msg-book_of msg s (record e { metrics = Metrics.accept msg e.metrics }) r
