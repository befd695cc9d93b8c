-- ===== src/Comet/Instance.antt =====
-- internal/comet/instance.go: the lease that a Comet holds on its own name. What a goroutine reads of
-- the clock, of the hub and of its context comes with each round of the loop.
pub mod Leases
mod Tests
use fable.Prelude.{
  ℕ, zero, suc, ℤ, pos, negsuc, ◌+◌, ◌-◌, ◌*◌, ◌/◌, min, Str, Bool, true, false, not, ◌&&◌, ◌||◌,
  Option, none, some, List, [], ◌∷◌, ◌++◌, ◌==◌, ltb, leb, length, all, any, contains, in_range,
  str_eq, nat_eq, atoi, if◌then◌else◌, Result, ok, err, ◌>>=◌, ◌>>◌, guard,
}
use fable.Wire.{Time, Timestamp, Codecs, CometIdentity, CometLease}
use fable.Wire.Status.{
  StatusCode, unauthenticated, permission_denied, invalid_argument, failed_precondition, not_found,
  unimplemented,
}

-- instanceSafetyMargin, in nanoseconds.
abbrev pub safety_margin : ℕ
safety_margin = 5_000_000_000

pub data Error : Type 0 where
  stopped lease_lost : Error

-- What an Instance is started with and keeps. Its hub is known by its identity.
pub record Setup : Type 0 where
  pub hub : CometIdentity
  pub address : Str
  pub token : Str
  pub interval : ℕ
  pub rpc_timeout : ℕ

pub record Instance : Type 0 where
  pub safe_deadline : Time
  pub is_ready : Bool
  pub failure : Option Error
  pub is_done : Bool

-- What an Instance does to its hub and asks of Logic, in order.
pub data Effect : Type 0 where
  closes_hub unregisters : Effect
  renews : Bool → Time → Effect

unfoldable pub instance_token : Str → Bool
instance_token t = leb 32 (length t) && (leb (length t) 256 && all (in_range 33 126) t)

-- "/@?# \t\r\n\\"
abbrev host_breakers : Str
host_breakers = 47 ∷ 64 ∷ 63 ∷ 35 ∷ 32 ∷ 9 ∷ 13 ∷ 10 ∷ 92 ∷ []

unfoldable pub instance_address : Codecs → Str → Bool
instance_address c address = elim (c.split_host_port address) [
  | none ↦ false
  | some (host, port) ↦
      elim (atoi port) [ none ↦ false | some n ↦ ltb 0 n && leb n 65535 ]
      && (not (host == []) && not (any (contains host_breakers) host))
]

-- sameComet
abbrev pub same_comet : Option CometIdentity → CometIdentity → Bool
same_comet none b = false
same_comet (some a) b = a.instance_id == b.instance_id && a.boot_id == b.boot_id

abbrev same_flag : Bool → Bool → Bool
same_flag true b = b
same_flag false b = not b

-- validateLease. (A deadline of less than the margin gives 0, which no time is before.)
unfoldable pub validate_lease : Setup → Time → Option CometLease → Bool → Result Error Time
validate_lease s now none is_draining = err lease_lost
validate_lease s now (some l) is_draining =
    if same_comet l.identity s.hub
      && (l.rpc_address == s.address && same_flag l.draining_lease is_draining)
    then elim l.lease_deadline [
      | none ↦ err lease_lost
      | some d ↦
          if d.check_valid && ltb now (d.as_time - safety_margin)
          then ok (d.as_time - safety_margin)
          else err lease_lost
    ]
    else err lease_lost

-- The deadline of rpcContext. The zero time stands for none.
unfoldable pub rpc_deadline : Setup → Time → Time → Time
rpc_deadline s now safe =
    if not (safe == 0) && ltb safe (now + s.rpc_timeout) then safe else now + s.rpc_timeout

-- How the select of a round ends.
pub data Wake : Type 0 where
  context_done hub_done drain_signal timer_fired : Wake

-- What one round of `run` reads: the time at its start, how its select ends, the time and the drain
-- mark before the RPC, the answer (an error's code, or a reply that may be nil, with its lease that
-- may be nil), the times behind it, and the drain mark at the end. The marks on the context are those
-- of `ctx.Err() != nil`.
pub record Round : Type 0 where
  pub started : Time
  pub wake : Wake
  pub canceled_before : Bool
  pub woken : Time
  pub is_draining : Bool
  pub answer : Result StatusCode (Option (Option CometLease))
  pub canceled_after : Bool
  pub answered : Time
  pub validated : Time
  pub still_draining : Bool

-- The time for which the timer of a round is set.
unfoldable pub delay : Setup → Time → Time → ℕ
delay s now safe = min s.interval ((safe - now) / 2)

abbrev pub is_final : StatusCode → Bool
is_final unauthenticated = true
is_final permission_denied = true
is_final invalid_argument = true
is_final failed_precondition = true
is_final not_found = true
is_final unimplemented = true
is_final _ = false

-- What follows the answer of RenewComet.
unfoldable pub settle : Setup → Round → Instance → Result Error Instance
unfolding validate_lease
settle s r i =
    if r.canceled_after
    then err stopped
    else if not (ltb r.answered i.safe_deadline)
    then err lease_lost
    else elim r.answer [
      | err code ↦ if is_final code then err lease_lost else ok (record i { is_ready = false })
      | ok none ↦ err lease_lost
      | ok (some lease) ↦ elim (validate_lease s r.validated lease r.is_draining) [
        | err e ↦ err lease_lost
        | ok next ↦ ok (record i { safe_deadline = next; is_ready = not r.still_draining })
      ]
    ]

-- From the end of the select to the RPC.
unfoldable pub renew : Setup → Round → Instance → List Effect × Result Error Instance
unfolding settle rpc_deadline
renew s r i =
    if r.canceled_before
    then ([], err stopped)
    else if not (ltb r.woken i.safe_deadline)
    then ([], err lease_lost)
    else (renews r.is_draining (rpc_deadline s r.woken i.safe_deadline) ∷ [], settle s r i)

-- One round of the loop in `run`: the instance that goes on, or the failure that ends it.
unfoldable pub round : Setup → Round → Instance → List Effect × Result Error Instance
unfolding renew
round s r i = if not (ltb r.started i.safe_deadline) then ([], err lease_lost) else elim r.wake [
  | context_done ↦ ([], err stopped)
  | hub_done ↦ ([], err stopped)
  | drain_signal ↦ renew s r i
  | timer_fired ↦ renew s r i
]

-- The deferred calls with which `run` ends.
abbrev pub ended : Error → Instance → Instance
ended e i = record i { is_ready = false; failure = some e; is_done = true }

-- run, for as many rounds as were begun.
unfoldable pub run : Setup → List Round → Instance → List Effect × Instance
unfolding round
run s [] i = ([], i)
run s (r ∷ rs) i =
    let (effects, next) = round s r i in
    elim next [
      | err e ↦ (effects ++ (closes_hub ∷ unregisters ∷ []), ended e i)
      | ok i' ↦ let (more, last) = run s rs i' in (effects ++ more, last)
    ]

-- Ready, at a time, with the hub's drain mark and whether the hub has stopped.
unfoldable pub ready : Time → Bool → Bool → Instance → Bool
ready now hub_draining hub_stopped i =
    i.is_ready
    && (ltb now i.safe_deadline && (not hub_draining && (not hub_stopped && not i.is_done)))

-- What StartInstance reads around its RPC.
pub record Startup : Type 0 where
  pub answer : Result StatusCode (Option (Option CometLease))
  pub validated : Time
  pub canceled : Bool
  pub is_draining : Bool
  pub hub_stopped : Bool

-- A duration that must be positive and within a limit; zero stands for the limit.
unfoldable pub within : ℕ → ℤ → Option ℕ
within limit (negsuc n) = none
within limit (pos n) = if n == 0 then some limit else if leb n limit then some n else none

-- The checks of StartInstance on its arguments.
unfoldable pub configure : Codecs → CometIdentity → Str → Str → ℤ → ℤ → Option Setup
unfolding instance_address instance_token within
configure c hub address token interval timeout =
    if not (instance_address c address && instance_token token)
    then none
    else elim (within 10_000_000_000 interval) [
      | none ↦ none
      | some interval ↦ elim (within 2_000_000_000 timeout) [
        | none ↦ none
        | some rpc_timeout ↦ some record {
          hub = hub;
          address = address;
          token = token;
          interval = interval;
          rpc_timeout = rpc_timeout;
        }
      ]
    ]

-- The rest of StartInstance, which owns the hub.
unfoldable pub start : Setup → Startup → List Effect × Result Error Instance
unfolding validate_lease
start s u =
    let safe : Result Error Time = elim u.answer [
      | ok (some lease) ↦ validate_lease s u.validated lease false
      | _ ↦ err lease_lost
    ] in
    elim safe [
      | err e ↦ (closes_hub ∷ unregisters ∷ [], err lease_lost)
      | ok safe ↦
          if u.canceled || u.is_draining
          then (closes_hub ∷ unregisters ∷ [], err lease_lost)
          else if u.hub_stopped
          then (unregisters ∷ [], err lease_lost)
          else (
            [],
            ok record { safe_deadline = safe; is_ready = true; failure = none; is_done = false },
          )
    ]

-- StartInstance, with the hub's mark `instanceOwned`: the mark behind it, and what was done.
unfoldable pub start_instance :
    Codecs
    → CometIdentity
    → Str
    → Str
    → ℤ
    → ℤ
    → Bool
    → Startup
    → Bool × (List Effect × Option (Result Error Instance))
unfolding configure start
start_instance c hub address token interval timeout owned u =
    elim (configure c hub address token interval timeout) [
      | none ↦ (owned, ([], none))
      | some s ↦
          if owned
          then (owned, ([], none))
          else (let (effects, r) = start s u in (true, (effects, some r)))
    ]
