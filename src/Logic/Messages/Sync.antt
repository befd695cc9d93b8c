-- ===== src/Logic/Messages/Sync.antt =====
-- internal/logic/messagestore/sync.go: the pages of a conversation, and their cursors.
use fable.Prelude.{
  all, in_range, ℕ, ℤ, pos, negsuc, pos_part, ◌+◌, ◌^◌, ◌<◌, ◌≡◌, Str, Bool, true, false, not, ◌&&◌,
  Option, none, some, List, [], ◌∷◌, ◌==◌, ltb, leb, length, take, str_eq, nat_eq,
  canonical_decimal, itoa, if◌then◌else◌, Result, ok, err, ◌>>=◌, ◌>>◌, guard, ◌≢◌, arith,
  canonical_decimal-itoa,
}
use fable.Wire.{Codecs}
use fable.Wire.Identity.{valid_id}
use fable.Wire.Push.{Message}
use fable.Logic.Dispatch.{public_message}
use fable.Logic.Messages.{Error, invalid, database, Row, parse_conversation, message_view}
use fable.Logic.Messages.Save.{Tables, Encodings, authority, lock_direct, lock_group}

-- encoding/json on a cursor of a version, a conversation and a position in decimal; it keeps ASCII text
-- as it is.
pub record CursorCodec : Type 0 where
  pub marshal : ℤ → Str → Str → Str
  pub unmarshal : Str → Option (ℤ × (Str × Str))
  pub unmarshal-marshal :
      (v : ℤ) (conversation : Str) (after : ℕ)
      → all (in_range 0 127) conversation ≡ true
      → unmarshal (marshal v conversation (itoa after)) ≡ some (v, (conversation, itoa after))

pub record Page : Type 0 where
  pub conversation_id : Str
  pub messages : List Message
  pub next_cursor : Str
  pub has_more : Bool

abbrev is_version_1 : ℤ → Bool
is_version_1 (pos n) = n == 1
is_version_1 (negsuc n) = false

module _ (c : Codecs) (j : CursorCodec) where
  -- encodeCursor, of a position that is not negative.
  unfoldable pub encode_cursor : Str → ℕ → Str
  encode_cursor conversation after = c.raw_url_encode (j.marshal (pos 1) conversation (itoa after))

  -- decodeCursor. A text that ParseInt takes but FormatInt would not print is refused by the comparison.
  pub decode_cursor : Str → Str → Result Error ℕ
  unfolding encode_cursor
  decode_cursor conversation cursor =
      if length cursor == 0 then ok 0 else elim (c.raw_url_decode cursor) [
        | none ↦ err invalid
        | some raw ↦ elim (j.unmarshal raw) [
          | none ↦ err invalid
          | some (v, (held, position)) ↦
              if not (is_version_1 v && held == conversation)
              then err invalid
              else elim (canonical_decimal position) [
                | none ↦ err invalid
                | some after ↦
                    if ltb 0 after
                      && (ltb after (2 ^ 63) && encode_cursor conversation after == cursor)
                    then ok after
                    else err invalid
              ]
        ]
      ]

  -- A cursor that was handed out for a conversation with an ASCII name is accepted for it, and gives the position back.
  pub decode_cursor-encode_cursor :
      (conversation : Str) (after : ℕ)
      → all (in_range 0 127) conversation ≡ true
      → ((raw : Str) → c.raw_url_decode (c.raw_url_encode raw) ≡ some raw)
      → length (encode_cursor conversation after) ≢ 0
      → 0 < after
      → after < 2 ^ 63
      → decode_cursor conversation (encode_cursor conversation after) ≡ ok after
  unfolding decode_cursor encode_cursor
  decode_cursor-encode_cursor conversation after ascii back filled low high =
      let raw = j.marshal (pos 1) conversation (itoa after) in
      ground (
        arith,
        back raw,
        j.unmarshal-marshal (pos 1) conversation after ascii,
        canonical_decimal-itoa after,
      )

-- The loop over the rows: the messages, and the cursor after the last of them.
page_rows : Codecs → CursorCodec → Str → List Row → Str → Result Error (List Message × Str)
unfolding message_view public_message encode_cursor
page_rows c j conversation [] cursor = ok ([], cursor)
page_rows c j conversation (row ∷ rows) cursor = do
  view ← message_view c row
  rest ← page_rows c j conversation rows (encode_cursor c j conversation (pos_part row.id))
  elim view.destination [
    | none ↦ err database
    | some d ↦ ok (public_message d view ∷ rest.0, rest.1)
  ]

lock_conversation :
    (T : Tables) (e : Encodings) (c : Codecs) → Str → Str → Bool → T.Db → Result Error (Unit {0})
unfolding lock_direct lock_group
lock_conversation T e c who session true db = lock_group T e c who session db >>= λ _. ok tt
lock_conversation T e c who session false db = lock_direct T e c who [] session db >>= λ _. ok tt

-- Sync, for a limit that is not negative.
unfoldable sync :
    (T : Tables) (e : Encodings) (c : Codecs) (j : CursorCodec)
    → Str
    → Str
    → Str
    → ℕ
    → T.Db
    → Result Error Page
unfolding valid_id parse_conversation decode_cursor lock_conversation page_rows
sync T e c j who conversation cursor limit db = do
  guard (valid_id c who b'U' && leb limit 500) invalid
  parsed ← parse_conversation c conversation
  after ← decode_cursor c j conversation cursor
  let most : ℕ = if limit == 0 then 100 else limit
  authority (T.user who db)
  lock_conversation T e c who parsed.0 parsed.1 db
  elim (T.rows_after parsed.0 after (most + 1) db) [
    | none ↦ err database
    | some rows ↦ page_rows c j conversation (take most rows) cursor >>= λ read. ok (record {
      conversation_id = conversation;
      messages = read.0;
      next_cursor = read.1;
      has_more = ltb most (length rows);
    })
  ]
