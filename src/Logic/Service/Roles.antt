-- ===== src/Logic/Service/Roles.antt =====
-- What NewService's checks on the credentials are for: a token stands for one role.
use fable.Prelude.{
  ◌≡◌, refl, Str, Bool, true, false, none, some, List, [], ◌∷◌, ◌++◌, ◌==◌, contains, has_prefix,
  ℕ_discrete, str_eq, nat_eq, arith, ok, err, if◌then◌else◌,
}
use fable.Wire.{Codecs}
use fable.Wire.Status.{denied}
use fable.Logic.Service.{
  Grant, Service, Claim, matches, valid_grants, new_service, bearer, bearer_prefix, grant_of,
  comet_auth, job_auth,
}

module _ (c : Codecs) (is_loopback : Str → Bool) where
  -- The tokens that were seen before are none of the grants'.
  valid_grants-fresh :
      (tokens ids : List Str) (front back : List Grant) (g : Grant)
      → valid_grants c is_loopback tokens ids (front ++ g ∷ back) ≡ true
      → contains tokens g.token ≡ false
  unfolding valid_grants
  valid_grants-fresh tokens ids [] back g v = ground arith
  valid_grants-fresh tokens ids (x ∷ front) back g v =
      ground
        (arith, valid_grants-fresh (x.token ∷ tokens) (x.identity.instance_id ∷ ids) front back g)

  grant_of-token :
      (tokens ids : List Str) (front back : List Grant) (g : Grant)
      → valid_grants c is_loopback tokens ids (front ++ g ∷ back) ≡ true
      → grant_of (front ++ g ∷ back) g.token ≡ some g
  unfolding valid_grants grant_of
  grant_of-token tokens ids [] back g v = ground arith
  grant_of-token tokens ids (x ∷ front) back g v = ground (
    arith,
    valid_grants-fresh (x.token ∷ tokens) (x.identity.instance_id ∷ ids) front back g,
    grant_of-token (x.token ∷ tokens) (x.identity.instance_id ∷ ids) front back g,
  )

  grant_of_seen :
      (tokens ids : List Str) (gs : List Grant) (token : Str)
      → valid_grants c is_loopback tokens ids gs ≡ true
      → contains tokens token ≡ true
      → grant_of gs token ≡ none
  unfolding valid_grants grant_of
  grant_of_seen tokens ids [] token v h = refl
  grant_of_seen tokens ids (x ∷ gs) token v h =
      ground (arith, grant_of_seen (x.token ∷ tokens) (x.identity.instance_id ∷ ids) gs token)

bearer-bearer_prefix : (token : Str) → bearer ((bearer_prefix ++ token) ∷ []) ≡ token
unfolding bearer has_prefix ℕ_discrete
bearer-bearer_prefix token = refl

-- The authorization header that carries a token.
abbrev pub with_token : Str → List Str
with_token token = (bearer_prefix ++ token) ∷ []

-- Under credentials that NewService accepts, the token of a grant is good for what the grant names
-- and for nothing else: a Comet's call passes exactly where it claims that identity (or instance),
-- and a Job's call is denied. Job's token passes Job's check alone, and the kick token none.
pub comet_auth-job_auth :
    (c : Codecs) (is_loopback : Str → Bool) (secret job kick : Str) (front back : List Grant)
    (g : Grant) (s : Service) (claim : Claim)
    → new_service c is_loopback secret job kick (front ++ g ∷ back) ≡ some s
    → ((comet_auth s (with_token g.token) claim ≡ (if matches claim g then ok g else err denied))
        × (job_auth s (with_token g.token) ≡ err denied))
      × ((comet_auth s (with_token job) claim ≡ err denied) × (job_auth s (with_token job) ≡ ok tt))
      × ((comet_auth s (with_token kick) claim ≡ err denied)
          × (job_auth s (with_token kick) ≡ err denied))
unfolding new_service comet_auth job_auth
comet_auth-job_auth c is_loopback secret job kick front back g s claim e =
    let gs = front ++ g ∷ back in
    let valid : valid_grants c is_loopback (job ∷ kick ∷ []) [] gs ≡ true = ground (arith, e) in
    let own = grant_of-token c is_loopback (job ∷ kick ∷ []) [] front back g valid in
    let fresh = valid_grants-fresh c is_loopback (job ∷ kick ∷ []) [] front back g valid in
    let jobs = grant_of_seen c is_loopback (job ∷ kick ∷ []) [] gs job valid (ground arith) in
    let kicks = grant_of_seen c is_loopback (job ∷ kick ∷ []) [] gs kick valid (ground arith) in
    let kept : s ≡ record { jwt_key = secret; job_token = job; kick_token = kick; grants = gs } =
      ground (arith, e) in
    let apart : (job == kick) ≡ false = ground (arith, e) in
    let token_of = bearer-bearer_prefix in
    (
      (
        ground (arith, kept, token_of g.token, own),
        ground (arith, kept, token_of g.token, own, fresh),
      ),
      (ground (arith, kept, token_of job, jobs), ground (arith, kept, token_of job)),
      (
        ground (arith, kept, token_of kick, kicks),
        ground (arith, kept, token_of kick, kicks, apart),
      ),
    )
