-- ===== src/Logic/Service/Current.antt =====
-- The calls behind a submission that succeeds.
use fable.Prelude.{
  ℕ, ◌≡◌, refl, sym, ap, ◌∙◌, inl, inr, Str, true, Option, none, some, List, str_eq, nat_eq, arith,
  Option-cases, Result-cases, ok,
}
use fable.Wire.{Codecs, ConnectionIdentity, RouteLease}
use fable.Wire.Push.{PushTask}
use fable.Wire.Requests.{SubmitMessageRequest}
use fable.Logic.Service.{Grant, Service}
use fable.Logic.Service.Handlers.{Surroundings, connection_auth, dispatch_saved, submit_message}
use fable.Logic.Routing.{Redis, Keys}
use fable.Logic.Routing.Store
use fable.Logic.Messages.{Input}
use fable.Logic.Messages.Save.{Tables, Encodings, save}
use fable.Logic.Messages.Destinations.{save-HasDestination, HasDestination}
use fable.Logic.Dispatch.{Saved, SendResult}
use fable.Logic.Dispatch.Chunks.{Covers, dispatch-Covers, dispatch-some}

module _ (R : Redis) (K : Keys) (c : Codecs) (s : Service) (header : List Str) (x : Surroundings)
    (T : Tables) (e : Encodings) where
  abbrev pub input_of : ConnectionIdentity → SubmitMessageRequest → Input
  input_of id q = record {
    sender_id = id.user_id;
    client_message_id = q.client_message_id;
    destination = q.destination;
    content = q.content;
  }

  -- What stands behind a message that was stored.
  pub record Submitted (resolving checking : ℕ × R.Db) (r : Option SubmitMessageRequest)
      (db db' : T.Db) (out : Option (SendResult × List PushTask)) : Type 1 where
    pub request : SubmitMessageRequest
    pub identity : ConnectionIdentity
    pub grant : Grant
    pub checked : R.Db × RouteLease
    pub saved : Saved
    pub result : SendResult
    pub tasks : List PushTask
    pub request_is : r ≡ some request
    pub identity_is : request.identity ≡ some identity
    pub grant_is : connection_auth R K c s header resolving (some identity) ≡ ok grant
    pub checked_is : Store.check R K c checking.0 (some identity) checking.1 ≡ ok checked
    pub saved_is : save T e c (input_of identity request) db ≡ ok (db', saved)
    pub out_is : out ≡ some (result, tasks)
    pub stored_is : (result.stored ≡ true) × (result.message ≡ saved.message)
    pub covers : Covers saved.recipients result.dispatch tasks

  dispatch_saved-some :
      (lookups : ℕ → ℕ × R.Db) (client : Str) (saved : Saved) (request_id : Str)
      → HasDestination saved.message
      → (result : SendResult) × (tasks : List PushTask) × (dispatch_saved R K c s header x T e
            lookups client saved request_id
          ≡ some (result, tasks))
        × (result.stored ≡ true)
        × (result.message ≡ saved.message)
        × Covers saved.recipients result.dispatch tasks
  unfolding dispatch_saved
  dispatch_saved-some lookups client saved request_id (d, h) =
      let (result, tasks, is, told, same) = dispatch-some _ client saved request_id d h in
      (result, tasks, is, told, same, dispatch-Covers _ client saved request_id result tasks is)

  -- What a submission that succeeded has passed.
  pub submit_message-Submitted :
      (resolving checking : ℕ × R.Db) (lookups : ℕ → ℕ × R.Db) (r : Option SubmitMessageRequest)
      (db db' : T.Db) (out : Option (SendResult × List PushTask))
      → submit_message R K c s header x T e resolving checking lookups r db ≡ ok (db', out)
      → Submitted resolving checking r db db' out
  unfolding submit_message
  submit_message-Submitted resolving checking lookups none db db' out h = absurd (ground arith)
  submit_message-Submitted resolving checking lookups (some q) db db' out h =
      elim (Option-cases q.identity) [
        | inl n ↦ absurd (ground arith)
        | inr (id, n) ↦ elim (Result-cases (connection_auth R K c s header resolving (some id))) [
          | inr (z, a) ↦ absurd (ground arith)
          | inl (g, a) ↦ elim (Result-cases (Store.check R K c checking.0 (some id) checking.1)) [
            | inr (z, k) ↦ absurd (ground arith)
            | inl (now, k) ↦ elim (Result-cases (save T e c (input_of id q) db)) [
              | inr (z, m) ↦ absurd (ground arith)
              | inl ((db₁, saved), m) ↦
                  let (result, tasks, is, told, same, cover) =
                    dispatch_saved-some lookups q.client_message_id saved q.request_id
                      (save-HasDestination T e c (input_of id q) db db₁ saved m) in
                  let dbs : db₁ ≡ db' = ground arith in
                  let outs : some (result, tasks) ≡ out = ground (arith, is) in
                  record {
                    request = q;
                    identity = id;
                    grant = g;
                    checked = now;
                    saved = saved;
                    result = result;
                    tasks = tasks;
                    request_is = refl;
                    identity_is = n;
                    grant_is = a;
                    checked_is = k;
                    saved_is = m ∙ ap (λ d. ok (d, saved)) dbs;
                    out_is = sym outs;
                    stored_is = (told, same);
                    covers = cover;
                  }
            ]
          ]
        ]
      ]
