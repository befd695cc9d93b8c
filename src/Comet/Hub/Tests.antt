-- ===== src/Comet/Hub/Tests.antt =====
-- The hub's theorems at concrete hubs.
use fable.Prelude.{
  pos, ℕ, ◌+◌, ◌≤◌, ◌<◌, ◌≡◌, ◌≢◌, refl, ◌⊎◌, Str, true, false, none, some, List, [], ◌∷◌, length,
  lookup, insert, text, ok, err, ℕ_discrete, Str-discrete, str_eq, nat_eq,
}
use fable.Wire.{
  CometIdentity, ConnectionIdentity, MessageView, enqueued, deleted, not_current, missing,
  message_text, origin_user,
}
use fable.Wire.Identity.{same_connection}
use fable.Comet.Hub.{
  activate, invalid_error, Hub, new_hub, register, unregister, deliver_one, drain, close_all,
  Command, registers, activates, delivers, unregisters, drains, fires, closes_hub, step, run,
}
use fable.Comet.Hub.Invariant.{Inv, run-Inv}
use fable.Comet.Hub.Delivery.{Queued, queue, deliver_one_cases, unregister_cases}
use fable.Comet.Hub.Draining.{StillDraining, run-StillDraining, drain_cases}
use fable.Comet.Hub.Presence.{Follows, view}
use fable.Comet.Hub.Presence.Steps.{nobody_there, run-Follows}
use fable.Comet.Hub.Lifecycle.{register_ok, close_all_lem}

abbrev home : CometIdentity
home = record { instance_id = text "comet-1"; boot_id = text "boot" }

abbrev alice : ConnectionIdentity
alice = record {
  user_id = text "UA";
  instance_id = text "comet-1";
  connection_id = text "c1";
  route_token = text "t1";
}

abbrev alice_again : ConnectionIdentity
alice_again = record {
  user_id = text "UA";
  instance_id = text "comet-1";
  connection_id = text "c2";
  route_token = text "t2";
}

abbrev hello : MessageView
hello = record {
  message_id = text "M1";
  conversation_id = text "direct:S1";
  session_id = text "S1";
  sender_id = text "UB";
  destination = none;
  message_type = message_text;
  content = text "hello";
  origin = origin_user;
  created_at = none;
  position = 1;
}

-- Alice connects and is active; her queue has room for one message.
abbrev busy : Hub
busy = run (new_hub home (pos 1)) (registers alice true ∷ activates 0 ∷ [])

abbrev leaving : Hub
leaving = run busy (drains 100 200 ∷ [])

abbrev history : List Command
history =
    registers alice true
    ∷ activates 0
    ∷ delivers hello ((5, alice) ∷ (6, alice) ∷ [])
    ∷ registers alice_again false
    ∷ unregisters alice
    ∷ drains 10 20
    ∷ fires
    ∷ closes_hub
    ∷ []

run-Follows_example : Follows history nobody_there (view (run (new_hub home (pos 1)) history))
run-Follows_example = run-Follows home (pos 1) history

run-Inv_example : Inv (run (new_hub home (pos 1)) history)
run-Inv_example = run-Inv home (pos 1) history

deliver_one_cases_example :
    ((deliver_one hello 5 alice busy).1 ≡ enqueued
      × Queued hello alice busy (deliver_one hello 5 alice busy).0)
    ⊎ ((deliver_one hello 5 alice busy).1 ≢ enqueued
        × ((q : ℕ) → queue (deliver_one hello 5 alice busy).0 q ≡ queue busy q))
deliver_one_cases_example = deliver_one_cases hello 5 alice busy

unregister_cases_example :
    ((lookup (text "UA") busy.clients ≡ none)
      × ((unregister alice_again busy).1 ≡ missing)
      × ((unregister alice_again busy).0 ≡ busy))
    ⊎ ((r : ℕ) × (lookup (text "UA") busy.clients ≡ some r)
        × (((same_connection (busy.heap r).identity alice_again ≡ false)
              × ((unregister alice_again busy).1 ≡ not_current)
              × ((unregister alice_again busy).0 ≡ busy))
            ⊎ ((same_connection (busy.heap r).identity alice_again ≡ true)
                × ((unregister alice_again busy).1 ≡ deleted)
                × (lookup (text "UA") (unregister alice_again busy).0.clients ≡ none)
                × (((unregister alice_again busy).0.heap r).closes ≡ (busy.heap r).closes + 1))))
unregister_cases_example = unregister_cases alice_again busy

run-StillDraining_example :
    StillDraining leaving (run leaving (registers alice_again false ∷ drains 150 190 ∷ fires ∷ []))
unfolding run step register activate drain new_hub ℕ_discrete Str-discrete lookup insert
run-StillDraining_example =
    run-StillDraining (registers alice_again false ∷ drains 150 190 ∷ fires ∷ []) leaving refl

drain_cases_example :
    (((150 ≤ 100) ⊎ (100 + 30_000_000_000 < 150))
      × ((drain 100 150 leaving).1 ≡ err invalid_error)
      × ((drain 100 150 leaving).0 ≡ leaving))
    ⊎ ((100 < 150)
        × (150 ≤ 100 + 30_000_000_000)
        × ((drain 100 150 leaving).0.draining ≡ true)
        × ((drain 100 150 leaving).0.deadline ≤ 150)
        × ((drain 100 150 leaving).1
            ≡ ok (record {
              deadline = (drain 100 150 leaving).0.deadline;
              already_draining = leaving.draining;
              active_connections = length leaving.clients;
            }))
        × (((drain 100 150 leaving).0.deadline ≡ 150)
            ⊎ ((leaving.draining ≡ true)
                × ((drain 100 150 leaving).0.deadline ≡ leaving.deadline))))
drain_cases_example = drain_cases 100 150 leaving

register_ok_example :
    let h' = (register alice_again false busy).0 in
    (lookup (text "UA") h'.clients ≡ some 1)
    × ((h'.heap 1).identity ≡ alice_again ⊎ same_connection (h'.heap 1).identity alice_again ≡ true)
    × ((h'.heap 1).closes ≡ 0)
    × ((k : Str) → (k ≡ text "UA") ⊎ (lookup k h'.clients ≡ lookup k busy.clients))
    × ((lookup (text "UA") busy.clients ≡ none)
        ⊎ ((old : ℕ) × (lookup (text "UA") busy.clients ≡ some old)
            × ((old ≡ 1) ⊎ ((h'.heap old).closes ≡ 1))))
unfolding register run step activate new_hub ℕ_discrete Str-discrete lookup insert same_connection
register_ok_example =
    register_ok alice_again false busy 1
      (run-Inv home (pos 1) (registers alice true ∷ activates 0 ∷ [])) refl

close_all_lem_example :
    (lookup (text "UA") (close_all busy).clients ≡ none)
    × ((lookup (text "UA") busy.clients ≡ none)
        ⊎ ((r : ℕ) × (lookup (text "UA") busy.clients ≡ some r)
            × (((close_all busy).heap r).closes ≡ 1)))
close_all_lem_example =
    close_all_lem busy (run-Inv home (pos 1) (registers alice true ∷ activates 0 ∷ [])) (text "UA")
