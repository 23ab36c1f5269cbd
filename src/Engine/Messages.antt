-- ===== src/Engine/Messages.antt =====
-- What a message does to the queue of the books.
use kraken_data_recorder.Base.{
  String, Bool, true, List, [], ◌∷◌, ◌++◌, Result, ok, err, ◌≡◌, ◌⊎◌, inl, inr, refl, arith,
  Option-cases, Result-cases,
}
use kraken_data_recorder.Decimal.{Bytes}
use kraken_data_recorder.Messages.{Book}
use kraken_data_recorder.Metrics
use kraken_data_recorder.Session.{Session}
use kraken_data_recorder.Engine.{
  Environment, Engine, World, handle_msg, try_msg, caught, handle_book_msg, handle_channel,
  handle_method,
}

module _ {R : Type 0} (env : Environment R) where
  open env use {parser}

  abbrev queue_of : World env × Result Bool → List Book
  queue_of (w, result) = w.1.0.book_responses

  -- The queue is as it was, or has one more book at its end, and then the handler returns true.
  abbrev Appends : List Book → World env × Result Bool → Type 0
  Appends books w =
      (queue_of w ≡ books) ⊎ ((book : Book) × (queue_of w ≡ books ++ (book ∷ [])) × (w.1 ≡ ok true))

  book_msg-Appends :
      (doc : parser.Document) (s : Session) (e : Engine) (r : R)
      → Appends e.book_responses (handle_book_msg env doc (s, (e, r)))
  unfolding handle_book_msg
  book_msg-Appends doc s e r =
      elim (parser.book doc)
        as (λ b. Appends e.book_responses (elim b [
          | err x ↦ ((s, (e, r)), err x)
          | ok book ↦
              ((s, (record e { book_responses = e.book_responses ++ (book ∷ []) }, r)), ok true)
        ])) [ err x ↦ inl refl | ok book ↦ inr (book, refl, refl) ]

  channel-Appends :
      (channel : String) (doc : parser.Document) (s : Session) (e : Engine) (r : R)
      → Appends e.book_responses (handle_channel env channel doc (s, (e, r)))
  unfolding handle_channel
  channel-Appends channel doc s e r = ground (arith, book_msg-Appends doc s e r)

  method-Appends :
      (msg : Bytes) (method : String) (s : Session) (e : Engine) (r : R)
      → queue_of (handle_method env msg method (s, (e, r))) ≡ e.book_responses
  unfolding handle_method
  method-Appends msg method s e r = ground arith

  try_msg-Appends :
      (msg : Bytes) (s : Session) (e : Engine) (r : R)
      → Appends e.book_responses (try_msg env msg (s, (e, r)))
  unfolding try_msg
  try_msg-Appends msg s e r = elim (Result-cases (parser.iterate msg)) [
    | inl (x, failed) ↦ rw (failed, try_msg) (inl refl)
    | inr (doc, read) ↦ elim (Option-cases (parser.channel doc)) [
      | inr (channel, has) ↦ rw (read, has, try_msg) (channel-Appends channel doc s e r)
      | inl none_1 ↦ elim (Option-cases (parser.method doc)) [
        | inl none_2 ↦ rw (read, none_1, none_2, try_msg) (inl refl)
        | inr (method, has) ↦
            rw (read, none_1, has, try_msg) (inl (method-Appends msg method s e r))
      ]
    ]
  ]

  -- `handle_msg` leaves the queue of the books as it was, or puts one book at its end and returns
  -- true, whatever the message is, also where parsing it or the sink throws.
  pub handle_msg-book_responses :
      (msg : Bytes) (s : Session) (e : Engine) (r : R)
      → let ((s1, (e1, r1)), continue) = handle_msg env msg (s, (e, r)) in
        (e1.book_responses ≡ e.book_responses)
        ⊎ ((book : Book) × (e1.book_responses ≡ e.book_responses ++ (book ∷ []))
            × (continue ≡ true))
  unfolding handle_msg caught
  handle_msg-book_responses msg s e r =
      by_caught _ (try_msg-Appends msg s (record e { metrics = Metrics.accept msg e.metrics }) r)
    where
      by_caught :
          (w : World env × Result Bool)
          → Appends e.book_responses w
          → ((caught env w).0.1.0.book_responses ≡ e.book_responses)
            ⊎ ((book : Book) × ((caught env w).0.1.0.book_responses
                  ≡ e.book_responses ++ (book ∷ []))
                × ((caught env w).1 ≡ true))
      by_caught (w, ok continue) (inl same) = inl same
      by_caught (w, ok continue) (inr (book, longer, returned)) = inr (book, longer, cc)
      by_caught (w, err x) (inl same) = inl same
      by_caught (w, err x) (inr (book, longer, returned)) = cc
