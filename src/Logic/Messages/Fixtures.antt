-- ===== src/Logic/Messages/Fixtures.antt =====
-- Concrete tables, one direct conversation and a list of rows, and a message saved in them.
use fable.Prelude.{
  ℕ, zero, suc, pos, ◌≡◌, refl, ap, Str, true, false, ◌&&◌, Option, none, some, List, [], ◌∷◌, ◌++◌,
  ◌==◌, length, arith, text, if◌then◌else◌, str_eq, ℕ_discrete, Str-discrete, ok, sort_strings,
  insert_sorted, str_le, nat_eq,
}
use fable.Wire.{Codecs, Destination, receive_user, stamp, message_text, origin_user}
use fable.Wire.Identity.{valid_id, valid_uuid}
use fable.Logic.Dispatch.{Saved}
use fable.Logic.Messages.{
  Input, Row, stored_user, sorted_unique, unique, unique_after, valid_text, validate_input,
  message_view, is_sound, row_kind, row_origin,
}
use fable.Logic.Messages.Save.{
  Answer, here, absent, Tables, Encodings, Authority, fingerprint, check_direct, lock_direct,
  conversation, require_from, authorize, insert_new, store, save_as, save,
}

abbrev pub lenient : Codecs
lenient = record {
  uuid_validate = λ _. true;
  utf8_valid = λ _. true;
  raw_url_decode = λ s. some s;
  raw_url_encode = λ s. s;
  split_host_port = λ s. none;
}

abbrev pub uuid : Str
uuid = text "11111111-1111-1111-1111-111111111111"

abbrev pub alice : Str
alice = b'U' ∷ uuid

abbrev pub bob : Str
bob = text "U21111111-1111-1111-1111-111111111111"

abbrev pub find : Str → Str → List Row → Answer Row
find sender client [] = absent
find sender client (row ∷ rows) =
    if row.send_id == sender && row.client_message_id == client
    then here row
    else find sender client rows

abbrev pub with_id : Row → Row
with_id row = record row { id = pos 1 }

abbrev pub add : Row → List Row → Option (Row × List Row)
add row rows = some (with_id row, with_id row ∷ rows)

-- The row of an `add`, found again.
pub find-add :
    (row made : Row) (db db' : List Row)
    → add row db ≡ some (made, db')
    → (find row.send_id row.client_message_id db' ≡ here made)
      × (made ≡ record row { id = made.id })
find-add row made db db' h =
    let m : with_id row ≡ made = ground arith in
    let d : with_id row ∷ db ≡ db' = ground arith in (ground arith, ground arith)

abbrev pub tables : Tables
tables = record {
  Db = List Row;
  user = λ who db. here tt;
  direct_of_pair = λ a b db. here record { uuid = b'S' ∷ uuid; send_id = alice; receive_id = bob };
  direct_of_id = λ id db. absent;
  group = λ id db. absent;
  access = λ who id db. absent;
  count_users = λ ids db. some (length ids);
  message = find;
  create = add;
  rows_after = λ session after limit db. some [];
  message-create = find-add;
}

-- A list of texts as one: each byte one higher, and a 0 behind each text.
abbrev pub join_onto : Str → Str → Str
join_onto [] rest = 0 ∷ rest
join_onto (b ∷ s) rest = suc b ∷ join_onto s rest

abbrev pub join : List Str → Str
join [] = []
join (s ∷ ss) = join_onto s (join ss)

abbrev pub put : ℕ → List Str → List Str
put b [] = (b ∷ []) ∷ []
put b (s ∷ ss) = (b ∷ s) ∷ ss

abbrev pub parts : Str → List Str
parts [] = []
parts (zero ∷ rest) = [] ∷ parts rest
parts (suc b ∷ rest) = put b (parts rest)

pub parts-join_onto : (s rest : Str) → parts (join_onto s rest) ≡ s ∷ parts rest
parts-join_onto [] rest = refl
parts-join_onto (b ∷ s) rest = ap (put b) (parts-join_onto s rest)

pub parts-join : (ss : List Str) → parts (join ss) ≡ ss
parts-join [] = refl
parts-join (s ∷ ss) = ground (arith, parts-join_onto s (join ss), parts-join ss)

pub parts-join-some :
    (ids : List Str) (raw : Str) → some (join ids) ≡ some raw → some (parts raw) ≡ some ids
parts-join-some ids raw h = let e : join ids ≡ raw = ground arith in ground (arith, parts-join ids)

abbrev pub encodings : Encodings
encodings = record {
  marshal_ids = λ ids. some (join ids);
  unmarshal_ids = λ raw. some (parts raw);
  digest = λ kind to content source. join (kind ∷ to ∷ content ∷ source ∷ []);
  new_uuid = uuid;
  now = stamp 7;
  trim_space = λ s. s;
  rune_count = λ s. length s;
  unmarshal-marshal = parts-join-some;
}

abbrev pub input : Str → Input
input what = record {
  sender_id = alice;
  client_message_id = uuid;
  destination = some (record { receive_type = receive_user; receive_id = bob });
  content = what;
}

abbrev pub to_bob : Destination
to_bob = record { receive_type = receive_user; receive_id = bob }

abbrev pub authorized : Authority
authorized = record {
  destination = to_bob;
  session_id = b'S' ∷ uuid;
  recipients = alice ∷ bob ∷ [];
}

-- What the first save writes.
abbrev pub written : Row
written = record {
  id = pos 1;
  uuid = b'M' ∷ uuid;
  session_id = b'S' ∷ uuid;
  type = 0;
  content = text "hello";
  origin = 0;
  send_id = alice;
  receive_id = bob;
  created_at = stamp 7;
  client_message_id = uuid;
  request_fingerprint = fingerprint encodings to_bob (text "hello") stored_user;
  recipient_ids = join (alice ∷ bob ∷ []);
}

abbrev pub answered : Saved
answered = record {
  message = record {
    message_id = b'M' ∷ uuid;
    conversation_id = text "direct:" ++ (b'S' ∷ uuid);
    session_id = b'S' ∷ uuid;
    sender_id = alice;
    destination = some to_bob;
    message_type = message_text;
    content = text "hello";
    origin = origin_user;
    created_at = some (stamp 7);
    position = 1;
  };
  recipients = alice ∷ bob ∷ [];
  replayed = false;
}

pub save-eq-ok :
    save tables encodings lenient (input (text "hello")) [] ≡ ok (written ∷ [], answered)
unfolding save save_as validate_input authorize conversation lock_direct check_direct require_from
    sorted_unique unique unique_after sort_strings insert_sorted str_le store insert_new fingerprint
    message_view is_sound row_kind row_origin valid_text valid_id valid_uuid ℕ_discrete Str-discrete
save-eq-ok = refl
