-- ===== src/Job/Batches.antt =====
-- The recipients of internal/job/routing.go. They are shared by pointer between `states` and the
-- batches, so a batch is a list of positions in `states`.
use fable.Prelude.{
  ℕ, suc, Bool, true, false, none, some, List, [], ◌∷◌, ◌++◌, get_elem?, contains, str_eq, nat_eq,
  if◌then◌else◌,
}
use fable.Job.{
  outcome_eq, Reason, dependency_failure, delivery_rejected, Recipient, Code, invalid_argument,
  permission_denied, unauthenticated, already_exists, unimplemented, RetryDirective, do_not_retry,
  reauthenticate, same_request, refresh_route, other_directive, RpcError,
}

-- `for _, s := range batch { f(s) }`, over `states` from position n on.
unfoldable pub apply_from : (Recipient → Recipient) → List ℕ → ℕ → List Recipient → List Recipient
apply_from f batch n [] = []
apply_from f batch n (s ∷ ss) =
    (if contains batch n then f s else s) ∷ apply_from f batch (suc n) ss

abbrev pub apply : (Recipient → Recipient) → List ℕ → List Recipient → List Recipient
apply f batch states = apply_from f batch 0 states

-- The positions from n on whose recipient passes the test.
unfoldable pub positions_from : (Recipient → Bool) → ℕ → List Recipient → List ℕ
positions_from p n [] = []
positions_from p n (s ∷ ss) =
    let rest = positions_from p (suc n) ss in if p s then n ∷ rest else rest

abbrev pub positions : (Recipient → Bool) → List Recipient → List ℕ
positions p states = positions_from p 0 states

-- A value of each recipient of a batch.
unfoldable pub collect {ℓ} : {A : Type ℓ} → (Recipient → List A) → List Recipient → List ℕ → List A
collect f states [] = []
collect f states (i ∷ is) =
    elim (get_elem? states i) [ none ↦ [] | some s ↦ f s ] ++ collect f states is

abbrev pub mark : Reason → Recipient → Recipient
mark reason s = record s { reason = some reason }

abbrev pub repair_with : Reason → Recipient → Recipient
repair_with reason s = record s {
  route = none;
  route_deadline = 0;
  repair = true;
  reason = some reason;
}

abbrev pub stop : Recipient → Recipient
stop s = record s { stopped = true }

abbrev permanent_code : Code → Bool
permanent_code invalid_argument = true
permanent_code permission_denied = true
permanent_code unauthenticated = true
permanent_code already_exists = true
permanent_code unimplemented = true
permanent_code _ = false

-- The switch over the details: `permanent` and `refresh`.
unfoldable pub read_details : List RetryDirective → Bool → Bool → Bool × Bool
read_details [] permanent refresh = (permanent, refresh)
read_details (do_not_retry ∷ ds) permanent refresh = read_details ds true refresh
read_details (reauthenticate ∷ ds) permanent refresh = read_details ds true refresh
read_details (same_request ∷ ds) permanent refresh = read_details ds permanent false
read_details (refresh_route ∷ ds) permanent refresh = read_details ds permanent true
read_details (other_directive ∷ ds) permanent refresh = read_details ds permanent refresh

-- rpcFailure
unfoldable pub rpc_failure : RpcError → Bool → Recipient → Recipient
rpc_failure e refresh s =
    let verdict = read_details e.details (permanent_code e.code) refresh in
    if verdict.0
    then record s { reason = some delivery_rejected; stopped = true }
    else if verdict.1
    then repair_with dependency_failure s
    else mark dependency_failure s
