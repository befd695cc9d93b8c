-- ===== src/Logic/Service/Kicks.antt =====
-- kickWorker in internal/logic/transport.go: the Comet that is asked to drop a replaced connection.
use fable.Prelude.{
  if◌then◌else◌, ℕ, Str, Bool, ◌&&◌, Option, none, some, List, [], ◌∷◌, ◌==◌, str_eq, any, ok,
}
use fable.Wire.{Codecs, CometIdentity, ConnectionIdentity, lease}
use fable.Logic.Service.{Grant, Service}
use fable.Logic.Routing.{Redis, Keys}
use fable.Logic.Routing.Store

-- The call of Kick: the address that is dialled, the Comet, and its target.
pub record Kick : Type 0 where
  pub address : Str
  pub comet : CometIdentity
  pub target : ConnectionIdentity

-- The loop over the grants.
unfoldable provisioned : List Grant → CometIdentity → Str → Bool
provisioned grants id address =
    any
      (λ g.
        g.identity.instance_id == id.instance_id
        && (g.identity.boot_id == id.boot_id && g.rpc_address == address))
      grants

-- The task of a worker. (A lease of the store has an identity; the errors of the call are ignored.)
unfoldable kick :
    (R : Redis) → Keys → Codecs → Service → ℕ × R.Db → ConnectionIdentity → Option Kick
unfolding provisioned
kick R K c s met target = elim (Store.resolve R K c met.0 (target.instance_id ∷ []) met.1) [
  | ok (item ∷ []) ↦ elim item.state [
    | lease (some l) ↦ elim l.identity [
      | some id ↦
          if provisioned s.grants id l.rpc_address
          then some record { address = l.rpc_address; comet = id; target = target }
          else none
      | none ↦ none
    ]
    | _ ↦ none
  ]
  | _ ↦ none
]
