-- ===== src/Wire/Identity.antt =====
-- The identity checks that comet/validation.go, logic/routing/store.go, job/task.go and
-- logic/messagestore/validation.go each carry.
use fable.Prelude.{
  ℕ, Str, Bool, false, not, ◌&&◌, ◌||◌, Option, none, some, [], ◌∷◌, ◌==◌, ltb, leb, length, all,
  in_range, str_eq, nat_eq, text, if◌then◌else◌,
}
use fable.Wire.{CometIdentity, ConnectionIdentity, Codecs}

abbrev pub nil_uuid : Str
nil_uuid = text "00000000-0000-0000-0000-000000000000"

-- [a-z0-9-]
abbrev pub instance_char : ℕ → Bool
instance_char c = in_range 97 122 c || in_range 48 57 c || c == 45

unfoldable pub valid_instance : Str → Bool
valid_instance s = if ltb (length s) 1 || ltb 64 (length s) then false else all instance_char s

-- Printable ASCII, of 1 to `max` bytes.
unfoldable pub printable : Str → ℕ → Bool
printable s max = if length s == 0 || ltb max (length s) then false else all (in_range 32 126) s

-- Two connection identities, field by field; a missing one is the same as none.
unfoldable pub same_connection : ConnectionIdentity → ConnectionIdentity → Bool
same_connection a b =
    a.user_id == b.user_id
    && (a.instance_id == b.instance_id
        && (a.connection_id == b.connection_id && a.route_token == b.route_token))

module _ (c : Codecs) where
  unfoldable pub valid_uuid : Str → Bool
  valid_uuid s = length s == 36 && (not (s == nil_uuid) && c.uuid_validate s)

  unfoldable pub valid_id : Str → ℕ → Bool
  unfolding valid_uuid
  valid_id [] prefix = false
  valid_id (b ∷ rest) prefix = length (b ∷ rest) == 37 && (b == prefix && valid_uuid rest)

  unfoldable pub valid_token : Str → Bool
  valid_token t = elim (c.raw_url_decode t) [
    | none ↦ false
    | some raw ↦ leb 16 (length raw) && c.raw_url_encode raw == t
  ]

  unfoldable pub valid_connection : Option ConnectionIdentity → Bool
  unfolding valid_id valid_instance valid_uuid valid_token
  valid_connection none = false
  valid_connection (some id) =
      valid_id id.user_id b'U'
      && (valid_instance id.instance_id
          && (valid_uuid id.connection_id
              && (leb (length id.route_token) 128 && valid_token id.route_token)))

  unfoldable pub valid_comet : Option CometIdentity → Bool
  unfolding valid_instance valid_uuid
  valid_comet none = false
  valid_comet (some id) = valid_instance id.instance_id && valid_uuid id.boot_id
