-- ===== src/Comet/Hub.antt =====
-- internal/comet/hub.go. The owner loop runs one command at a time, so each command is a function on
-- the hub; connections are shared pointers, so they live on a heap and the client map holds
-- references. Time is an argument.
pub mod Delivery
pub mod Invariant
pub mod Draining
pub mod Lifecycle
pub mod Presence
mod Tests
use fable.Prelude.{
  ℤ, pos_part, ℕ, zero, suc, ◌+◌, ◌≤◌, Str, Bool, true, false, not, ◌&&◌, ◌||◌, Option, none, some,
  List, [], ◌∷◌, ◌++◌, ◌==◌, ltb, leb, length, map, nat_eq, if◌then◌else◌, Result, ok, err, lookup,
  insert, erase, update,
}
use fable.Wire.{
  Time, CometIdentity, ConnectionIdentity, MessageView, DeliveryOutcome, enqueued, not_found, stale,
  queue_full, DeliveryResult, ConditionalDeleteOutcome, deleted, not_current, missing,
}
use fable.Wire
use fable.Wire.Identity.{same_connection}

pub data Error : Type 0 where
  closed_error invalid_error draining_error : Error

pub record SocketControl : Type 0 where
  pub frame : Str
  pub kind : ℕ
  pub close_after : Bool

-- `closes` counts the calls of `close(c.done)`: a second one would panic.
pub record Connection : Type 0 where
  pub identity : ConnectionIdentity
  pub outbound : List MessageView
  pub controls : List SocketControl
  pub pending : Bool
  pub closes : ℕ
  pub slow_closed : Bool

-- `clients`, `draining`, `deadline` and `timer` are the owner's hubState; `timer` is the time for
-- which the timer is set. `heap` and `next` are the connections allocated so far.
pub record Hub : Type 0 where
  pub identity : CometIdentity
  pub queue_size : ℕ
  pub done : Bool
  pub draining_flag : Bool
  pub drain_signal : Bool
  pub queue_full_total : ℕ
  pub stale_targets : ℕ
  pub slow_closes : ℕ
  pub clients : List (Str × ℕ)
  pub draining : Bool
  pub deadline : Time
  pub timer : Option Time
  pub heap : ℕ → Connection
  pub next : ℕ

abbrev pub nobody : Connection
nobody = record {
  identity = record { user_id = []; instance_id = []; connection_id = []; route_token = [] };
  outbound = [];
  controls = [];
  pending = false;
  closes = 0;
  slow_closed = false;
}

-- NewHub, after its identity has been validated. A size that is not positive becomes 256.
pub new_hub : CometIdentity → ℤ → Hub
new_hub id size = record {
  identity = id;
  queue_size = if pos_part size == 0 then 256 else pos_part size;
  done = false;
  draining_flag = false;
  drain_signal = false;
  queue_full_total = 0;
  stale_targets = 0;
  slow_closes = 0;
  clients = [];
  draining = false;
  deadline = 0;
  timer = none;
  heap = λ _. nobody;
  next = 0;
}

pub close_connection : ℕ → Hub → Hub
close_connection r h = record h {
  heap = update h.heap r (record (h.heap r) { closes = (h.heap r).closes + 1 });
}

-- `delete(s.clients, key)` and `c.close()` for the client under the key.
pub drop_client : Str → Hub → Hub
unfolding close_connection
drop_client k h = elim (lookup k h.clients) [
  | none ↦ h
  | some r ↦ close_connection r (record h { clients = erase k h.clients })
]

-- closeAll: the entries met by the range over the map, each closed and deleted.
pub close_each : List (Str × ℕ) → Hub → Hub
unfolding drop_client
close_each [] h = h
close_each ((k, r) ∷ m) h = close_each m (drop_client k h)

pub close_all : Hub → Hub
unfolding close_each
close_all h = close_each h.clients h

-- The allocation at the end of `register`.
pub add_client : ConnectionIdentity → Bool → Hub → Hub × ℕ
add_client id pending h = (
  record h {
    heap = update h.heap h.next (record nobody { identity = id; pending = pending });
    clients = insert id.user_id h.next h.clients;
    next = h.next + 1;
  },
  h.next,
)

-- `register`, behind its validation: the reference of the connection that it returns.
unfoldable pub register : ConnectionIdentity → Bool → Hub → Hub × Result Error ℕ
unfolding add_client close_connection same_connection
register id pending h =
    if h.draining then (h, err draining_error) else elim (lookup id.user_id h.clients) [
      | none ↦ let (h', r) = add_client id pending h in (h', ok r)
      | some old ↦
          if same_connection (h.heap old).identity id
          then (h, ok old)
          else (let (h', r) = add_client id pending (close_connection old h) in (h', ok r))
    ]

unfoldable pub unregister : ConnectionIdentity → Hub → Hub × ConditionalDeleteOutcome
unfolding drop_client same_connection
unregister id h = elim (lookup id.user_id h.clients) [
  | none ↦ (h, missing)
  | some r ↦
      if same_connection (h.heap r).identity id
      then (drop_client id.user_id h, deleted)
      else (h, not_current)
]

pub mark_slow : ℕ → Hub → Hub
mark_slow r h = if (h.heap r).slow_closed then h else record h {
  heap = update h.heap r (record (h.heap r) { slow_closed = true });
  slow_closes = h.slow_closes + 1;
}

-- The select of `Deliver` on a current connection: the queue has room, or the client is dropped.
pub offer : MessageView → ConnectionIdentity → ℕ → Hub → Hub × DeliveryOutcome
unfolding mark_slow drop_client
offer m id r h =
    if ltb (length (h.heap r).outbound) h.queue_size
    then (
      record h {
        heap = update h.heap r (record (h.heap r) { outbound = (h.heap r).outbound ++ m ∷ [] });
      },
      enqueued,
    )
    else (
      drop_client id.user_id (mark_slow r (record h { queue_full_total = h.queue_full_total + 1 })),
      queue_full,
    )

-- One round of the loop in `Deliver`, at the time that the round reads.
pub deliver_one : MessageView → Time → ConnectionIdentity → Hub → Hub × DeliveryOutcome
unfolding offer same_connection
deliver_one m now id h =
    if h.draining && leb h.deadline now
    then (h, Wire.draining)
    else elim (lookup id.user_id h.clients) [
      | none ↦ (h, not_found)
      | some r ↦
          if (h.heap r).pending
          then (h, not_found)
          else if same_connection (h.heap r).identity id
          then offer m id r h
          else (record h { stale_targets = h.stale_targets + 1 }, stale)
    ]

-- `Deliver`, behind its validation; each target comes with the time of its round.
unfoldable pub deliver :
    MessageView → List (Time × ConnectionIdentity) → Hub → Hub × List DeliveryResult
unfolding deliver_one
deliver m [] h = (h, [])
deliver m ((now, id) ∷ ts) h =
    let (h', outcome) = deliver_one m now id h in
    let (h'', results) = deliver m ts h' in
    (h'', record { target = id; outcome = outcome } ∷ results)

pub record DrainState : Type 0 where
  pub deadline : Time
  pub already_draining : Bool
  pub active_connections : ℕ

-- 30 seconds.
abbrev pub drain_limit : ℕ
drain_limit = 30_000_000_000

unfoldable pub drain : Time → Time → Hub → Hub × Result Error DrainState
drain now deadline h =
    if leb deadline now || ltb (now + drain_limit) deadline
    then (h, err invalid_error)
    else (let already = h.draining in
        let earlier = not already || ltb deadline h.deadline in
        let until = if earlier then deadline else h.deadline in
        (
          record h {
            deadline = until;
            timer = if earlier then some deadline else h.timer;
            draining = true;
            draining_flag = true;
            drain_signal = true;
          },
          ok (record {
            deadline = until;
            already_draining = already;
            active_connections = length h.clients;
          }),
        ))

-- `activate`: the pointer that the caller holds must still be the user's connection.
pub activate : ℕ → Hub → Hub × Result Error Bool
activate r h =
    if h.draining
    then (h, err draining_error)
    else elim (lookup (h.heap r).identity.user_id h.clients) [
      | none ↦ (h, err closed_error)
      | some current ↦
          if current == r
          then (
            record h { heap = update h.heap r (record (h.heap r) { pending = false }) },
            ok true,
          )
          else (h, err closed_error)
    ]

-- The case of the timer in `run`.
pub timer_fires : Hub → Hub
unfolding close_all
timer_fires h = record (close_all h) { timer = none }

-- `Close`, and the deferred calls with which `run` ends.
pub close_hub : Hub → Hub
unfolding close_all
close_hub h = record (close_all h) { done = true; timer = none }

-- The writer takes the oldest message of its connection.
pub receive : ℕ → Hub → Hub × Option MessageView
receive r h = elim (h.heap r).outbound [
  | [] ↦ (h, none)
  | m ∷ ms ↦ (record h { heap = update h.heap r (record (h.heap r) { outbound = ms }) }, some m)
]

unfoldable queue_depth : List (Str × ℕ) → Hub → ℕ
queue_depth [] h = 0
queue_depth ((k, r) ∷ m) h =
    length (h.heap r).outbound + length (h.heap r).controls + queue_depth m h

-- What can reach the owner loop, and what a writer does beside it.
pub data Command : Type 0 where
  registers : ConnectionIdentity → Bool → Command
  unregisters : ConnectionIdentity → Command
  delivers : MessageView → List (Time × ConnectionIdentity) → Command
  drains : Time → Time → Command
  activates : ℕ → Command
  fires : Command
  receives : ℕ → Command
  fails_write : ℕ → Command
  closes_hub : Command

-- After `Close` the loop takes no command.
unfoldable pub step : Hub → Command → Hub
unfolding register unregister deliver drain activate timer_fires receive mark_slow close_hub
step h (registers id pending) = if h.done then h else (register id pending h).0
step h (unregisters id) = if h.done then h else (unregister id h).0
step h (delivers m ts) = if h.done then h else (deliver m ts h).0
step h (drains now deadline) = if h.done then h else (drain now deadline h).0
step h (activates r) = if h.done then h else (activate r h).0
step h fires = if h.done then h else timer_fires h
step h (receives r) = (receive r h).0
step h (fails_write r) = mark_slow r h
step h closes_hub = if h.done then h else close_hub h

unfoldable pub run : Hub → List Command → Hub
unfolding step
run h [] = h
run h (c ∷ cs) = run (step h c) cs
