-- ===== src/Logic/Messages/Save.antt =====
-- The transaction of `save` in internal/logic/messagestore/store.go, and its two entry points.
use fable.Prelude.{
  ℕ, zero, suc, pos, ◌≡◌, Str, true, false, not, ◌&&◌, ◌||◌, Option, none, some, List, [], ◌∷◌,
  ◌==◌, leb, length, take, drop, all, contains, str_eq, nat_eq, if◌then◌else◌, Result, ok, err,
  ◌>>=◌, ◌>>◌, guard,
}
use fable.Wire.{Timestamp, Codecs, Destination, receive_user, receive_group}
use fable.Wire.Identity.{valid_id, valid_uuid}
use fable.Wire.Push.{user_name, group_name, ai_name}
use fable.Logic.Dispatch.{Saved}
use fable.Logic.Messages.{
  Error, invalid, forbidden, conflict, database, Input, Row, type_text, stored_user, stored_ai,
  sorted_unique, valid_text, validate_input, check_recipients, message_view,
}

pub record Session : Type 0 where
  pub uuid : Str
  pub send_id : Str
  pub receive_id : Str

pub record Group : Type 0 where
  pub uuid : Str
  pub status : ℕ
  pub members : Str

-- What `Take` answers: a row, gorm.ErrRecordNotFound, or another error.
pub data Answer {ℓ} (A : Type ℓ) : Type ℓ where
  here : A → Answer A
  absent failed : Answer A

-- The tables, through gorm, inside a transaction. The law is that of an insert under a unique key: the
-- row that was created is found under its sender and client id, with the values it was created with.
-- The two queries for a session ask for one of the direct type; those with a pair take either order.
pub record Tables : Type 1 where
  pub Db : Type 0
  pub user : Str → Db → Answer (Unit {0})
  pub direct_of_pair : Str → Str → Db → Answer Session
  pub direct_of_id : Str → Db → Answer Session
  pub group : Str → Db → Answer Group
  pub access : Str → Str → Db → Answer (Unit {0})
  pub count_users : List Str → Db → Option ℕ
  pub message : Str → Str → Db → Answer Row
  pub create : Row → Db → Option (Row × Db)
  pub rows_after : Str → ℕ → ℕ → Db → Option (List Row)
  pub message-create :
      (row made : Row) (db db' : Db)
      → create row db ≡ some (made, db')
      → (message row.send_id row.client_message_id db' ≡ here made)
        × (made ≡ record row { id = made.id })

-- encoding/json, crypto/sha256, uuid.NewString, the clock, and package strings, as `save` uses them.
pub record Encodings : Type 0 where
  pub marshal_ids : List Str → Option Str
  pub unmarshal_ids : Str → Option (List Str)
  pub digest : Str → Str → Str → Str → Str
  pub new_uuid : Str
  pub now : Timestamp
  pub trim_space : Str → Str
  pub rune_count : Str → ℕ
  pub unmarshal-marshal :
      (ids : List Str) (raw : Str) → marshal_ids ids ≡ some raw → unmarshal_ids raw ≡ some ids

-- authorityErrorOrNil
abbrev pub authority {ℓ} : {A : Type ℓ} → Answer A → Result Error A
authority (here a) = ok a
authority absent = err forbidden
authority failed = err database

-- The rounds of requireUsers; the fuel is the number of ids.
unfoldable pub require_from {ℓ} :
    {D : Type ℓ} → (List Str → D → Option ℕ) → ℕ → List Str → D → Result Error (Unit {0})
require_from count zero ids db = ok tt
require_from count (suc f) [] db = ok tt
require_from count (suc f) (id ∷ ids) db =
    let rest = require_from count f (drop 100 (id ∷ ids)) db in
    elim (count (take 100 (id ∷ ids)) db) [
      | none ↦ err database
      | some n ↦ if n == length (take 100 (id ∷ ids)) then rest else err forbidden
    ]

-- What authorization settles: the destination, the session, and the recipients.
pub record Authority : Type 0 where
  pub destination : Destination
  pub session_id : Str
  pub recipients : List Str

abbrev group_normal : ℕ
group_normal = 0

-- fingerprintV1
unfoldable pub fingerprint : Encodings → Destination → Str → ℕ → Str
fingerprint e d content origin =
    e.digest (elim d.receive_type [ receive_group ↦ group_name | _ ↦ user_name ]) d.receive_id
      content (if origin == stored_ai then ai_name else user_name)

module _ (T : Tables) (e : Encodings) (c : Codecs) where
  open T use {Db, user, direct_of_pair, direct_of_id, group, access, count_users, message, create}

  -- lockDirect, behind its query.
  unfoldable pub check_direct : Str → Session → Result Error Session
  unfolding valid_id
  check_direct who s = do
    guard
        (valid_id c s.uuid b'S'
          && (valid_id c s.send_id b'U'
              && (valid_id c s.receive_id b'U' && not (s.send_id == s.receive_id))))
        database
    guard (s.send_id == who || s.receive_id == who) forbidden
    ok s

  unfoldable pub lock_direct : Str → Str → Str → Db → Result Error Session
  unfolding check_direct
  lock_direct who peer session_id db = do
    s ←
        authority (
          if length session_id == 0 then direct_of_pair who peer db else direct_of_id session_id db)
    check_direct who s

  unfoldable pub lock_group : Str → Str → Db → Result Error (Group × List Str)
  unfolding sorted_unique valid_id
  lock_group who id db = do
    g ← authority (group id db)
    guard (g.status == group_normal) forbidden
    elim (e.unmarshal_ids g.members) [
      | none ↦ err database
      | some members ↦ do
        guard (not (length members == 0) && all (λ m. valid_id c m b'U') members) database
        guard (contains members who) forbidden
        ok (g, sorted_unique members)
    ]

  -- The three ways to a conversation. A request without a destination has been refused before.
  unfoldable pub conversation : Input → Str → Db → Result Error Authority
  unfolding lock_direct lock_group
  conversation i ai_session db =
      if not (length ai_session == 0)
      then (lock_direct i.sender_id [] ai_session db >>= λ s.
          let peer : Str = if s.send_id == i.sender_id then s.receive_id else s.send_id in
          authority (access i.sender_id s.uuid db) >>= λ _. ok (record {
            destination = record { receive_type = receive_user; receive_id = peer };
            session_id = s.uuid;
            recipients = i.sender_id ∷ peer ∷ [];
          }))
      else elim i.destination [
        | none ↦ err invalid
        | some d ↦ elim d.receive_type [
          | receive_group ↦ lock_group i.sender_id d.receive_id db >>= λ g.
              ok (record { destination = d; session_id = g.0.uuid; recipients = g.1 })
          | _ ↦ lock_direct i.sender_id d.receive_id [] db >>= λ s. ok (record {
            destination = d;
            session_id = s.uuid;
            recipients = i.sender_id ∷ d.receive_id ∷ [];
          })
        ]
      ]

  -- The locks and checks before the message is looked for; the recipients are sorted and unique.
  unfoldable pub authorize : Input → Str → Db → Result Error Authority
  unfolding conversation require_from sorted_unique
  authorize i ai_session db = do
    authority (user i.sender_id db)
    a ← conversation i ai_session db
    let ids : List Str = sorted_unique a.recipients
    require_from count_users (length ids) ids db
    ok (record a { recipients = ids })

  -- A message that is there already.
  unfoldable pub replay : Str → Row → Db → Result Error (Db × Saved)
  unfolding check_recipients message_view
  replay print row db = do
    guard (row.request_fingerprint == print) conflict
    snapshot ← elim (e.unmarshal_ids row.recipient_ids) [
      | none ↦ err database
      | some ids ↦ check_recipients c ids
    ]
    view ← message_view c row
    ok (db, record { message = view; recipients = snapshot; replayed = true })

  abbrev pub new_row : Input → Authority → Str → ℕ → Str → Row
  new_row i a print origin raw = record {
    id = pos 0;
    uuid = b'M' ∷ e.new_uuid;
    session_id = a.session_id;
    type = type_text;
    content = i.content;
    origin = origin;
    send_id = i.sender_id;
    receive_id = a.destination.receive_id;
    created_at = e.now;
    client_message_id = i.client_message_id;
    request_fingerprint = print;
    recipient_ids = raw;
  }

  unfoldable pub insert_new : Input → Authority → Str → ℕ → Db → Result Error (Db × Saved)
  unfolding message_view
  insert_new i a print origin db = elim (e.marshal_ids a.recipients) [
    | none ↦ err database
    | some raw ↦ elim (create (new_row i a print origin raw) db) [
      | none ↦ err database
      | some (row, db') ↦ do
        view ← message_view c row
        ok (db', record { message = view; recipients = a.recipients; replayed = false })
    ]
  ]

  -- What follows the authorization.
  unfoldable pub store : Input → Authority → ℕ → Db → Result Error (Db × Saved)
  unfolding fingerprint replay insert_new
  store i a origin db =
      let print = fingerprint e a.destination i.content origin in
      elim (message i.sender_id i.client_message_id db) [
        | here row ↦ replay print row db
        | absent ↦ insert_new i a print origin db
        | failed ↦ err database
      ]

  -- save: an error rolls the transaction back.
  unfoldable pub save_as : Input → Str → ℕ → Db → Result Error (Db × Saved)
  unfolding authorize store
  save_as i ai_session origin db = do a ← authorize i ai_session db; store i a origin db

  unfoldable pub save : Input → Db → Result Error (Db × Saved)
  unfolding save_as validate_input
  save i db = do validate_input c i; save_as i [] stored_user db

  unfoldable pub save_ai : Str → Str → Str → Str → Db → Result Error (Db × Saved)
  unfolding save_as valid_text valid_uuid valid_id
  save_ai user session client content db = do
    let who = e.trim_space user
    let where_to = e.trim_space session
    let what = e.trim_space content
    guard
        (valid_id c who b'U'
          && (valid_id c where_to b'S'
              && (valid_uuid c client && (valid_text c what && leb (e.rune_count what) 4000))))
        invalid
    save_as
        (record { sender_id = who; client_message_id = client; destination = none; content = what })
        where_to stored_ai db
