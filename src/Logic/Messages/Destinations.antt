-- ===== src/Logic/Messages/Destinations.antt =====
-- A message that was saved, or found again, has a destination.
use fable.Prelude.{
  ℕ, ◌≡◌, inl, inr, Str, some, str_eq, nat_eq, arith, Option-cases, Result-cases, ok, [],
}
use fable.Wire.{Codecs, Destination, MessageView}
use fable.Logic.Dispatch.{Saved}
use fable.Logic.Messages.{Input, Row, stored_user, row_kind, row_origin, message_view}
use fable.Logic.Messages.Replay.{Answer-cases}
use fable.Logic.Messages.Save.{
  Tables, Encodings, Authority, authorize, replay, insert_new, store, save_as, save, new_row,
  fingerprint,
}

abbrev pub HasDestination : MessageView → Type 0
HasDestination m = (d : Destination) × (m.destination ≡ some d)

module _ (T : Tables) (e : Encodings) (c : Codecs) where
  open T use {Db, create, message}

  message_view-HasDestination :
      (row : Row) (m : MessageView) → message_view c row ≡ ok m → HasDestination m
  unfolding message_view
  message_view-HasDestination row m h = elim (Option-cases (row_origin c row)) [
    | inl n ↦ absurd (ground arith)
    | inr (o, n) ↦ elim (Option-cases (row_kind c row)) [
      | inl k ↦ absurd (ground arith)
      | inr (kind, k) ↦ (record { receive_type = kind; receive_id = row.receive_id }, ground arith)
    ]
  ]

  replay-HasDestination :
      (print : Str) (row : Row) (db db' : Db) (s : Saved)
      → replay T e c print row db ≡ ok (db', s)
      → HasDestination s.message
  unfolding replay
  replay-HasDestination print row db db' s h = elim (Result-cases (message_view c row)) [
    | inl (m, k) ↦ let (d, q) = message_view-HasDestination row m k in (d, ground (arith, q))
    | inr (x, k) ↦ absurd (ground arith)
  ]

  insert_new-HasDestination :
      (i : Input) (a : Authority) (print : Str) (origin : ℕ) (db db' : Db) (s : Saved)
      → insert_new T e c i a print origin db ≡ ok (db', s)
      → HasDestination s.message
  unfolding insert_new
  insert_new-HasDestination i a print origin db db' s h =
      elim (Option-cases (e.marshal_ids a.recipients)) [
        | inl n ↦ absurd (ground arith)
        | inr (raw, n) ↦ elim (Option-cases (create (new_row T e c i a print origin raw) db)) [
          | inl k ↦ absurd (ground arith)
          | inr ((row, db₁), k) ↦ elim (Result-cases (message_view c row)) [
            | inl (m, v) ↦
                let (d, q) = message_view-HasDestination row m v in (d, ground (arith, q))
            | inr (x, v) ↦ absurd (ground arith)
          ]
        ]
      ]

  -- So dispatch never reads through a nil destination.
  pub save-HasDestination :
      (i : Input) (db db' : Db) (s : Saved)
      → save T e c i db ≡ ok (db', s)
      → HasDestination s.message
  unfolding save save_as store
  save-HasDestination i db db' s h = elim (Result-cases (authorize T e c i [] db)) [
    | inr (x, k) ↦ absurd (ground arith)
    | inl (a, k) ↦
        let print = fingerprint e a.destination i.content stored_user in
        elim (Answer-cases (message i.sender_id i.client_message_id db)) [
          | inl (row, m) ↦ replay-HasDestination print row db db' s (ground arith)
          | inr (inl m) ↦ insert_new-HasDestination i a print stored_user db db' s (ground arith)
          | inr (inr m) ↦ absurd (ground arith)
        ]
  ]
