-- ===== src/Comet/Instance/Tests.antt =====
-- The theorems on the lease of a Comet: it is granted till 100 s, a renewal fails, the next one is
-- granted till 120 s, and then every renewal fails.
use fable.Prelude.{
  ℕ, ◌+◌, ◌*◌, ◌<◌, ◌≡◌, refl, ◌⊎◌, inl, inr, true, false, some, List, [], ◌∷◌, All, arith, text,
  none, Option, str_eq, nat_eq, ℕ_discrete, Str-discrete, Result, ok, err,
}
use fable.Wire.{Timestamp, stamp, CometIdentity, CometLease}
use fable.Wire.Status.{StatusCode, unavailable}
use fable.Comet.Instance.{
  safety_margin, Setup, Instance, same_comet, validate_lease, timer_fired, Round, settle, renew,
  round, run, ready, Startup, start,
}
use fable.Comet.Instance.Leases.{ready-Granted}
use fable.Comet.Instance.Leases.Endings.{IsRenewal, Ended, run_cases, run_unrenewed}

abbrev second : ℕ
second = 1_000_000_000

abbrev comet : CometIdentity
comet = record { instance_id = text "comet-1"; boot_id = text "boot" }

abbrev setup : Setup
setup = record {
  hub = comet;
  address = text "localhost:1";
  token = text "token";
  interval = 10 * second;
  rpc_timeout = 2 * second;
}

abbrev until : ℕ → CometLease
until t = record {
  identity = some comet;
  rpc_address = text "localhost:1";
  draining_lease = false;
  lease_deadline = some (stamp (t * second));
}

abbrev startup : Startup
startup = record {
  answer = ok (some (some (until 100)));
  validated = 40 * second;
  canceled = false;
  is_draining = false;
  hub_stopped = false;
}

abbrev begun : Instance
begun = record { safe_deadline = 95 * second; is_ready = true; failure = none; is_done = false }

start-eq-ok : start setup startup ≡ ([], ok begun)
unfolding start validate_lease ℕ_discrete Str-discrete
start-eq-ok = refl

-- A round that begins at a second and has its answer one second after it woke.
abbrev at : ℕ → Result StatusCode (Option (Option CometLease)) → Round
at t answer = record {
  started = t * second;
  wake = timer_fired;
  canceled_before = false;
  woken = t * second + 10 * second;
  is_draining = false;
  answer = answer;
  canceled_after = false;
  answered = t * second + 11 * second;
  validated = t * second + 11 * second;
  still_draining = false;
}

abbrev rounds : List Round
rounds = at 40 (err unavailable) ∷ at 51 (ok (some (some (until 120)))) ∷ []

-- The leases of this run.
abbrev Known : CometLease → Type 0
Known l = (l ≡ until 100) ⊎ (l ≡ until 120)

ready-Granted_example :
    (l : CometLease) × Known l
    × (same_comet l.identity comet ≡ true)
    × (l.rpc_address ≡ text "localhost:1")
    × ((d : Timestamp) × (l.lease_deadline ≡ some d)
        × (d.check_valid ≡ true)
        × (100 * second + safety_margin < d.as_time))
unfolding run round renew settle validate_lease ready ℕ_discrete Str-discrete
ready-Granted_example =
    ready-Granted Known setup startup rounds begun [] (100 * second) false false (inl refl)
      (tt, (inr refl, tt)) start-eq-ok refl

run_cases_example :
    (All IsRenewal (run setup rounds begun).0 × ((run setup rounds begun).1.is_done ≡ false))
    ⊎ Ended (run setup rounds begun).0 (run setup rounds begun).1
run_cases_example = run_cases setup rounds begun refl

run_unrenewed_example :
    (run setup
      (at 40 (err unavailable) ∷ at 51 (err unavailable) ∷ at 95 (err unavailable) ∷ [])
      begun).1.is_done
    ≡ true
run_unrenewed_example =
    run_unrenewed setup (at 40 (err unavailable) ∷ at 51 (err unavailable) ∷ [])
      (at 95 (err unavailable)) begun ((unavailable, refl), ((unavailable, refl), tt)) (omega arith)
