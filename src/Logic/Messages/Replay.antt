-- ===== src/Logic/Messages/Replay.antt =====
-- Saving a message again: what a client that lost the answer of a save is told.
use fable.Prelude.{
  ℕ, ◌≡◌, ◌≢◌, refl, sym, subst, ap, ◌∙◌, ◌⊎◌, inl, inr, Str, Bool, true, ◌&&◌, some, List, [], ◌∷◌,
  length, all, contains, str_eq, nat_eq, arith, Option-cases, Result-cases, sort_strings,
  insert_sorted, ok,
}
use fable.Wire.{Codecs, Destination}
use fable.Wire.Identity.{valid_id}
use fable.Logic.Dispatch.{Saved}
use fable.Logic.Messages.{
  Input, stored_user, unique_after, unique, sorted_unique, validate_input, check_recipients,
  message_view,
}
use fable.Logic.Messages.Snapshots.{sorted_unique_lem, check_recipients_cases}
use fable.Logic.Messages.Save.{
  Tables, Encodings, Answer, here, absent, failed, Authority, fingerprint, lock_direct, lock_group,
  conversation, authorize, replay, new_row, insert_new, store, save_as, save, Group,
}

pub Answer-cases {ℓ} :
    {A : Type ℓ} (r : Answer A) → ((a : A) × (r ≡ here a)) ⊎ (r ≡ absent) ⊎ (r ≡ failed)
Answer-cases (here a) = inl (a, refl)
Answer-cases absent = inr (inl refl)
Answer-cases failed = inr (inr refl)

all-insert_sorted :
    (p : Str → Bool) (s : Str) (ts : List Str) → all p (insert_sorted s ts) ≡ (p s && all p ts)
unfolding insert_sorted
all-insert_sorted p s [] = refl
all-insert_sorted p s (t ∷ ts) = ground (arith, all-insert_sorted p s ts)

all-sort_strings : (p : Str → Bool) (xs : List Str) → all p (sort_strings xs) ≡ all p xs
unfolding sort_strings
all-sort_strings p [] = refl
all-sort_strings p (x ∷ xs) =
    ground (arith, all-insert_sorted p x (sort_strings xs), all-sort_strings p xs)

all-unique_after :
    (p : Str → Bool) (last : Str) (xs : List Str)
    → all p xs ≡ true
    → all p (unique_after last xs) ≡ true
unfolding unique_after
all-unique_after p last [] h = refl
all-unique_after p last (x ∷ xs) h = ground (arith, all-unique_after p x xs)

all-sorted_unique :
    (p : Str → Bool) (xs : List Str) → all p xs ≡ true → all p (sorted_unique xs) ≡ true
unfolding sorted_unique unique
all-sorted_unique p xs h = go (sort_strings xs) (all-sort_strings p xs ∙ h)
  where
    go : (ys : List Str) → all p ys ≡ true → all p (unique ys) ≡ true
    go [] k = refl
    go (y ∷ ys) k = ground (arith, all-unique_after p y ys)

some-length : (xs : List Str) (k : Str) → contains xs k ≡ true → length xs ≢ 0
some-length [] k h = λ e. ground arith
some-length (x ∷ xs) k h = λ e. omega (arith, e)

-- The snapshot that a save writes is one that a replay accepts.
sorted_unique-accepted :
    (c : Codecs) (xs : List Str) (x : Str)
    → contains xs x ≡ true
    → all (λ id. valid_id c id b'U') xs ≡ true
    → check_recipients c (sorted_unique xs) ≡ ok (sorted_unique xs)
sorted_unique-accepted c xs x some_there valid =
    let (up, same) = sorted_unique_lem xs in
    let filled = some-length (sorted_unique xs) x (same x ∙ some_there) in
    let users = all-sorted_unique (λ id. valid_id c id b'U') xs valid in
    elim (check_recipients_cases c (sorted_unique xs)) [
      | inl (e, s, i) ↦ e
      | inr (e, inl s) ↦ absurd (ground arith)
      | inr (e, inr n) ↦ absurd (n up)
    ]

module _ (T : Tables) (e : Encodings) (c : Codecs) where
  open T use {Db, message, create, count_users, group}

  -- After a save that wrote its message, the same request, authorized for the same destination, is a
  -- replay wherever that message is found: it changes nothing and answers with the same message and
  -- the same recipients.
  store-replay :
      (i : Input) (a a₂ : Authority) (origin : ℕ) (db db' db₂ : Db) (s : Saved)
      → check_recipients c a.recipients ≡ ok a.recipients
      → message i.sender_id i.client_message_id db ≡ absent
      → store T e c i a origin db ≡ ok (db', s)
      → message i.sender_id i.client_message_id db₂ ≡ message i.sender_id i.client_message_id db'
      → a₂.destination ≡ a.destination
      → store T e c i a₂ origin db₂ ≡ ok (db₂, record s { replayed = true })
  unfolding store insert_new replay
  store-replay i a a₂ origin db db' db₂ s accepted fresh saved same d =
      let print = fingerprint e a.destination i.content origin in
      elim (Option-cases (e.marshal_ids a.recipients)) [
        | inl m ↦ ground arith
        | inr (raw, m) ↦ elim (Option-cases (create (new_row T e c i a print origin raw) db)) [
          | inl k ↦ ground arith
          | inr ((row, db₁), k) ↦ elim (Result-cases (message_view c row)) [
            | inr (x, v) ↦ ground arith
            | inl (view, v) ↦
                let law = T.message-create (new_row T e c i a print origin raw) row db db₁ k in
                let back = e.unmarshal-marshal a.recipients raw m in
                let prints : row.request_fingerprint ≡ print =
                  ap (λ r. r.request_fingerprint) law.1 in
                let ids : row.recipient_ids ≡ raw = ap (λ r. r.recipient_ids) law.1 in
                ground (arith, law.0, back, prints, ids)
          ]
        ]
      ]

  lock_group-members :
      (who id : Str) (db : Db) (g : Group) (members : List Str)
      → lock_group T e c who id db ≡ ok (g, members)
      → (contains members who ≡ true) × (all (λ m. valid_id c m b'U') members ≡ true)
  unfolding lock_group
  lock_group-members who id db g members l = elim (Answer-cases (group id db)) [
    | inr (inl f) ↦ ground arith
    | inr (inr f) ↦ ground arith
    | inl (g', f) ↦ elim (Option-cases (e.unmarshal_ids g'.members)) [
      | inl m ↦ ground arith
      | inr (ids, m) ↦
          ground
            (arith, all-sorted_unique (λ m. valid_id c m b'U') ids, (sorted_unique_lem ids).1 who)
    ]
  ]

  -- The recipients of a request whose sender and destination are well formed.
  conversation-users :
      (i : Input) (d : Destination) (db : Db) (a : Authority)
      → i.destination ≡ some d
      → validate_input c i ≡ ok tt
      → conversation T e c i [] db ≡ ok a
      → (a.destination ≡ d)
        × (contains a.recipients i.sender_id ≡ true)
        × (all (λ m. valid_id c m b'U') a.recipients ≡ true)
  unfolding conversation validate_input
  conversation-users i d db a f v k =
      elim (Result-cases (lock_direct T e c i.sender_id d.receive_id [] db)) [
        | inl (x, g) ↦ elim (Result-cases (lock_group T e c i.sender_id d.receive_id db)) [
          | inl ((y, ys), h) ↦ ground (arith, lock_group-members i.sender_id d.receive_id db y ys h)
          | inr (y, h) ↦ ground arith
        ]
        | inr (x, g) ↦ elim (Result-cases (lock_group T e c i.sender_id d.receive_id db)) [
          | inl ((y, ys), h) ↦ ground (arith, lock_group-members i.sender_id d.receive_id db y ys h)
          | inr (y, h) ↦ ground arith
        ]
      ]

  authorize-accepted :
      (i : Input) (d : Destination) (db : Db) (a : Authority)
      → i.destination ≡ some d
      → validate_input c i ≡ ok tt
      → authorize T e c i [] db ≡ ok a
      → (a.destination ≡ d) × (check_recipients c a.recipients ≡ ok a.recipients)
  unfolding authorize
  authorize-accepted i d db a f v k = elim (Result-cases (conversation T e c i [] db)) [
    | inr (x, g) ↦ ground arith
    | inl (b, g) ↦
        let (same, sender, users) = conversation-users i d db b f v g in
        let accepted = sorted_unique-accepted c b.recipients i.sender_id sender users in
        let made : a ≡ record b { recipients = sorted_unique b.recipients } = ground arith in
        (
          ap (λ x. x.destination) made ∙ same,
          subst (λ ids. check_recipients c ids ≡ ok ids) (sym (ap (λ x. x.recipients) made))
              accepted,
        )
  ]

  -- The parts of a save that succeeded.
  save-parts :
      (i : Input) (db db' : Db) (s : Saved)
      → save T e c i db ≡ ok (db', s)
      → (validate_input c i ≡ ok tt)
        × ((a : Authority) × (authorize T e c i [] db ≡ ok a)
            × (store T e c i a stored_user db ≡ ok (db', s)))
  unfolding save save_as
  save-parts i db db' s h = elim (Result-cases (validate_input c i)) [
    | inr (x, v) ↦ ground arith
    | inl (u, v) ↦ (
      v,
      elim (Result-cases (authorize T e c i [] db)) [
        | inr (x, k) ↦ ground arith
        | inl (a, k) ↦ (a, k, ground arith)
      ],
    )
  ]

  -- A client that sends its message again, after a save that wrote it, is answered with the message and
  -- the recipients of that save, marked as replayed, and nothing is written: whenever the sender is
  -- still authorized, and whatever the group's members are by now.
  pub save_again :
      (i : Input) (d : Destination) (db db' db₂ : Db) (s : Saved) (a₂ : Authority)
      → i.destination ≡ some d
      → message i.sender_id i.client_message_id db ≡ absent
      → save T e c i db ≡ ok (db', s)
      → message i.sender_id i.client_message_id db₂ ≡ message i.sender_id i.client_message_id db'
      → authorize T e c i [] db₂ ≡ ok a₂
      → save T e c i db₂ ≡ ok (db₂, record s { replayed = true })
  unfolding save save_as
  save_again i d db db' db₂ s a₂ f fresh saved same k =
      let (v, (a, g, h)) = save-parts i db db' s saved in
      let (to, accepted) = authorize-accepted i d db a f v g in
      let to₂ = (authorize-accepted i d db₂ a₂ f v k).0 in
      let again =
        store-replay i a a₂ stored_user db db' db₂ s accepted fresh h same (to₂ ∙ sym to) in
      ground (arith, v, k, again)
