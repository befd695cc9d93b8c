-- ===== src/Comet/Handler.antt =====
-- internal/comet/handler.go, but for the HTTP upgrade: the options, the life of a connection's route, and
-- what a browser's frame becomes and is answered.
pub mod Frames
pub mod Routes
mod Tests
use fable.Prelude.{
  ℕ, zero, suc, ℤ, pos, negsuc, ◌+◌, ◌-◌, ◌*◌, min, Str, Bool, true, false, not, ◌&&◌, ◌||◌, Option,
  none, some, List, [], ◌∷◌, ◌==◌, ltb, leb, length, all, str_eq, nat_eq, text, if◌then◌else◌,
  Result, ok, err,
}
use fable.Wire.{Time, Timestamp, ConnectionIdentity, RouteLease}
use fable.Wire.Identity.{same_connection}
use fable.Wire.Status.{StatusCode}
use fable.Comet.Hub.{Error, closed_error, invalid_error}
use fable.Comet.Instance.{safety_margin, instance_token, is_final, within}

-- What url.Parse gives.
pub record Url : Type 0 where
  pub scheme : Str
  pub host : Str
  pub has_user : Bool
  pub path : Str
  pub raw_query : Str
  pub fragment : Str

unfoldable pub valid_origin : (Str → Option Url) → Str → Bool
valid_origin parse origin = elim (parse origin) [
  | none ↦ false
  | some u ↦
      not (u.host == [] || u.has_user)
      && ((u.path == [] && (u.raw_query == [] && u.fragment == []))
          && (u.scheme == text "http" || u.scheme == text "https"))
]

-- The times of a HandlerConfig, once they are accepted.
pub record Times : Type 0 where
  pub heartbeat_interval : ℕ
  pub rpc_timeout : ℕ
  pub read_timeout : ℕ

-- NewHandler, as far as it can refuse.
unfoldable configure : (Str → Option Url) → Str → Str → List Str → ℤ → ℤ → ℤ → Option Times
unfolding instance_token within valid_origin
configure parse secret token origins heartbeat rpc read =
    if not (leb 32 (length secret) && (instance_token token && not (length origins == 0)))
    then none
    else elim (within 20_000_000_000 heartbeat) [
      | none ↦ none
      | some h ↦ elim (within 2_000_000_000 rpc) [
        | none ↦ none
        | some r ↦ elim (within 60_000_000_000 read) [
          | none ↦ none
          | some t ↦
              if ltb h t && all (valid_origin parse) origins
              then some record { heartbeat_interval = h; rpc_timeout = r; read_timeout = t }
              else none
        ]
      ]
    ]

abbrev pub same_identity : Option ConnectionIdentity → ConnectionIdentity → Bool
same_identity none b = false
same_identity (some a) b = same_connection a b

-- routeDeadline: the margin before the first of the ends of the lease, of its authentication, and of the
-- caller's. (An end of less than the margin gives 0, which no time is before.)
unfoldable pub route_deadline :
    Time → Option RouteLease → ConnectionIdentity → Time → Result Error Time
route_deadline now none id auth = err invalid_error
route_deadline now (some r) id auth =
    if not (same_identity r.identity id) then err invalid_error else elim r.auth_expires_at [
      | none ↦ err invalid_error
      | some a ↦ elim r.lease_deadline [
        | none ↦ err invalid_error
        | some l ↦
            if not (a.check_valid && l.check_valid)
            then err invalid_error
            else (let safe = min (min l.as_time a.as_time) auth - safety_margin in
                if ltb now safe then ok safe else err closed_error)
      ]
    ]

-- What one round of `heartbeat` reads: the time at its start, whether the timer ended its select (and not
-- the context or the connection), the time behind it, whether the ping was queued, the answer, and the
-- time behind that.
pub record Beat : Type 0 where
  pub started : Time
  pub timer_fired : Bool
  pub woken : Time
  pub queued : Bool
  pub answer : Result StatusCode (Option (Option RouteLease))
  pub validated : Time

-- One round: the safe deadline of the next, or none where the connection ends.
unfoldable pub beat : ConnectionIdentity → Time → Beat → Time → Option Time
unfolding route_deadline
beat id auth b safe =
    if not (ltb b.started safe && (b.timer_fired && (ltb b.woken safe && b.queued)))
    then none
    else elim b.answer [
      | err code ↦ if is_final code then none else some safe
      | ok none ↦ none
      | ok (some route) ↦ elim (route_deadline b.validated route id auth) [
        | err _ ↦ none
        | ok next ↦ some next
      ]
    ]

-- heartbeat, for as many rounds as were begun: the deadline with which it goes on, or none.
unfoldable pub beats : ConnectionIdentity → Time → List Beat → Time → Option Time
unfolding beat
beats id auth [] safe = some safe
beats id auth (b ∷ bs) safe = elim (beat id auth b safe) [
  | none ↦ none
  | some next ↦ beats id auth bs next
]
