-- ===== src/Logic/Publisher.antt =====
-- internal/logic/kafkapush/publisher.go: what becomes of a task that is handed to Kafka. The answers of
-- kafka-go, and what the publisher takes of other libraries, are parameters.
pub mod Classes
use fable.Prelude.{
  ℕ, ◌+◌, ◌*◌, ◌≡◌, Str, Bool, true, false, not, ◌&&◌, ◌||◌, Option, none, some, List, [], ◌∷◌,
  ◌==◌, ltb, leb, length, drop, all, any, contains, in_range, str_eq, nat_eq, text, has_prefix,
  canonical_decimal, if◌then◌else◌,
}
use fable.Wire.{Codecs}
use fable.Wire.Identity.{nil_uuid}
use fable.Logic.Dispatch.{Published, acknowledged, not_published, uncertain}

abbrev max_payload : ℕ
max_payload = 256 * 1024

abbrev topic_char : ℕ → Bool
topic_char c =
    in_range 97 122 c
    || (in_range 65 90 c || (in_range 48 57 c || (c == 46 || (c == 95 || c == 45))))

-- validTopic. (A rune above 127 has bytes above 127.)
unfoldable pub valid_topic : Str → Bool
valid_topic topic =
    leb (length topic) 249
    && ((topic == text "fable.push.v1"
          || (has_prefix topic (text "fable.push.v1.")
              && not (length topic == length (text "fable.push.v1."))))
        && all topic_char topic)

-- "/@?# \t\n\r"
abbrev broker_breakers : Str
broker_breakers = 47 ∷ 64 ∷ 63 ∷ 35 ∷ 32 ∷ 9 ∷ 10 ∷ 13 ∷ []

unfoldable pub valid_broker : Codecs → Str → Bool
valid_broker c broker =
    not (ltb 512 (length broker) || any (contains broker_breakers) broker)
    && elim (c.split_host_port broker) [
      | none ↦ false
      | some (host, port) ↦
          not (host == [])
          && elim (canonical_decimal port) [ none ↦ false | some n ↦ ltb 0 n && leb n 65535 ]
    ]

-- New, as far as it can refuse.
unfoldable pub valid_options : Codecs → List Str → Str → Bool
unfolding valid_broker valid_topic
valid_options c brokers topic =
    not (length brokers == 0) && (valid_topic topic && all (valid_broker c) brokers)

abbrev pub direct_key : Str
direct_key = text "direct:S"

abbrev group_key : Str
group_key = text "group:G"

-- What Writer.WriteMessages answers: io.ErrClosedPipe comes before anything is enqueued.
pub data Written : Type 0 where
  written closed_pipe other_failure : Written

-- uuid.Parse followed by String, bytes.TrimSpace, json.Valid, and the writer.
pub record Kafka : Type 0 where
  pub canonical_uuid : Str → Option Str
  pub trim_space : Str → Str
  pub valid_json : Str → Bool
  pub write : Str → Str → Written

-- A Publisher, a context, and whether the context is done: before the call, and behind the time limit.
pub record Circumstances : Type 0 where
  pub closed : Bool
  pub canceled : Bool
  pub canceled_again : Bool

module _ (k : Kafka) where
  unfoldable pub valid_id : Str → Bool
  valid_id id = length id == 36 && elim (k.canonical_uuid id) [
    | none ↦ false
    | some parsed ↦ not (parsed == nil_uuid) && parsed == id
  ]

  unfoldable pub valid_key : Str → Bool
  unfolding valid_id
  valid_key key =
      if has_prefix key direct_key
      then valid_id (drop (length direct_key) key)
      else if has_prefix key group_key
      then valid_id (drop (length group_key) key)
      else false

  abbrev starts_object : Str → Bool
  starts_object [] = false
  starts_object (b ∷ rest) = b == 123

  -- The checks of Publish on what it is given.
  unfoldable pub is_publishable : Circumstances → Str → Str → Bool
  unfolding valid_key
  is_publishable c key raw =
      not c.closed
      && (valid_key key
          && (leb (length raw) max_payload
              && (starts_object (k.trim_space raw) && k.valid_json raw)))

  -- Publish: whether the task was handed to the writer, and what is answered.
  unfoldable pub publish : Circumstances → Str → Str → Bool × Published
  unfolding is_publishable
  publish c key raw =
      if not (is_publishable c key raw)
      then (false, not_published)
      else if c.canceled || c.canceled_again
      then (false, not_published)
      else elim (k.write key raw) [
        | written ↦ (true, acknowledged)
        | closed_pipe ↦ (true, not_published)
        | other_failure ↦ (true, uncertain)
      ]

-- What Ping reads of the cluster's metadata.
pub record Partition : Type 0 where
  pub failed : Bool
  pub leader_host : Str
  pub leader_port : ℕ
  pub in_sync : ℕ

pub record Topic : Type 0 where
  pub name : Str
  pub failed : Bool
  pub partitions : List Partition

abbrev serves : Partition → Bool
serves p =
    not p.failed && (not (p.leader_host == []) && (ltb 0 p.leader_port && not (p.in_sync == 0)))

-- The loop over the topics.
unfoldable topic_ready : Str → List Topic → Bool
topic_ready name [] = false
topic_ready name (t ∷ ts) =
    let rest = topic_ready name ts in
    if not (t.name == name)
    then rest
    else not t.failed && (not (length t.partitions == 0) && all serves t.partitions)

-- Ping, of the metadata, none where they cannot be had, and the number of brokers.
unfoldable ping : Bool → Str → Option (ℕ × List Topic) → Bool
unfolding topic_ready
ping closed name metadata = not closed && elim metadata [
  | none ↦ false
  | some (brokers, topics) ↦ not (brokers == 0) && topic_ready name topics
]
