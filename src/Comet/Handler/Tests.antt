-- ===== src/Comet/Handler/Tests.antt =====
-- A connection whose user is authenticated until 100 s.
use fable.Prelude.{
  ℕ, ◌+◌, ◌*◌, ◌≤◌, ◌≡◌, refl, true, some, [], ◌∷◌, text, ok, err, str_eq, nat_eq, ℕ_discrete,
  Str-discrete,
}
use fable.Wire.{ConnectionIdentity, RouteLease, stamp}
use fable.Wire.Identity.{same_connection}
use fable.Wire.Status.{unavailable}
use fable.Comet.Instance.{safety_margin}
use fable.Comet.Handler.{route_deadline, Beat, beat, beats}
use fable.Comet.Handler.Routes.{beats-auth}

abbrev second : ℕ
second = 1_000_000_000

abbrev alice : ConnectionIdentity
alice = record {
  user_id = text "UA";
  instance_id = text "comet-1";
  connection_id = text "c1";
  route_token = text "t1";
}

abbrev until : ℕ → RouteLease
until t = record {
  identity = some alice;
  auth_expires_at = some (stamp (200 * second));
  lease_deadline = some (stamp (t * second));
}

abbrev renewed : Beat
renewed = record {
  started = 20 * second;
  timer_fired = true;
  woken = 40 * second;
  queued = true;
  answer = ok (some (some (until 150)));
  validated = 41 * second;
}

-- Logic does not answer.
abbrev missed : Beat
missed = record renewed { started = 42 * second; woken = 62 * second; answer = err unavailable }

begun : route_deadline (10 * second) (some (until 60)) alice (100 * second) ≡ ok (55 * second)
unfolding route_deadline same_connection ℕ_discrete Str-discrete
begun = refl

renewed_ok : beats alice (100 * second) (renewed ∷ missed ∷ []) (55 * second) ≡ some (95 * second)
unfolding beats beat route_deadline same_connection ℕ_discrete Str-discrete
renewed_ok = refl

beats-auth_example : 95 * second + safety_margin ≤ 100 * second
beats-auth_example =
    beats-auth alice (100 * second) (10 * second) (55 * second) (95 * second) (some (until 60))
      (renewed ∷ missed ∷ []) begun renewed_ok
