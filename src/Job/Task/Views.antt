-- ===== src/Job/Task/Views.antt =====
-- A message on its way: Logic writes it into a task, Job reads it back, and Comet accepts it.
use fable.Prelude.{
  ◌≡◌, refl, true, false, some, ◌==◌, str_eq, nat_eq, arith, canonical_decimal-itoa, Str-discrete,
  ℕ_discrete,
}
use fable.Wire.{Time, Codecs, Destination, MessageView}
use fable.Wire.Push.{user_name, group_name, ai_name}
use fable.Comet.Validation.{is_destination, validate_message}
use fable.Logic.Dispatch.{public_message}
use fable.Job.Task.{new_timestamp, receive_of, message_view}

user_is_not_group : (user_name == group_name) ≡ false
unfolding ℕ_discrete Str-discrete
user_is_not_group = refl

group_is_not_user : (group_name == user_name) ≡ false
unfolding ℕ_discrete Str-discrete
group_is_not_user = refl

ai_is_not_user : (ai_name == user_name) ≡ false
unfolding ℕ_discrete Str-discrete
ai_is_not_user = refl

-- A message that Comet would accept, at a time that a Timestamp can hold, comes out of the task that
-- Logic makes of it, as Job reads it, unchanged.
pub message_view-public_message :
    (c : Codecs) (m : MessageView) (d : Destination) (t : Time)
    → m.destination ≡ some d
    → m.created_at ≡ some (new_timestamp t)
    → validate_message c m ≡ true
    → message_view c 0 (public_message d m) ≡ some m
unfolding message_view public_message validate_message is_destination receive_of
message_view-public_message c m d t dest created valid =
    ground (
      arith,
      canonical_decimal-itoa m.position,
      user_is_not_group,
      group_is_not_user,
      ai_is_not_user,
    )
