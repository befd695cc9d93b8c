-- ===== src/Comet/Hub/Lifecycle.antt =====
-- Register and Close: who is in the map afterwards, and which connections are closed.
use fable.Prelude.{
  ℕ, ◌≤◌, ◌≡◌, ◌≢◌, refl, ◌⊎◌, inl, inr, Str, Bool, true, none, some, List, [], ◌∷◌, arith, lookup,
  lookup-insert, lookup-erase, Str-discrete, str_eq, nat_eq, Option-cases, ok,
}
use fable.Wire.{ConnectionIdentity}
use fable.Wire.Identity.{same_connection}
use fable.Comet.Hub.{
  Hub, close_connection, drop_client, close_each, close_all, add_client, register,
}
use fable.Comet.Hub.Invariant.{Inv, close_all-Inv}

same_connection-user :
    (a b : ConnectionIdentity) → same_connection a b ≡ true → a.user_id ≡ b.user_id
unfolding same_connection
same_connection-user a b h = ground arith

-- A registration that succeeds leaves the user with a connection of that very identity, not
-- closed; another connection that the user had before is closed, and other users keep theirs.
pub register_ok :
    (id : ConnectionIdentity) (p : Bool) (h : Hub) (r : ℕ)
    → Inv h
    → (register id p h).1 ≡ ok r
    → let h' = (register id p h).0 in
      (lookup id.user_id h'.clients ≡ some r)
      × ((h'.heap r).identity ≡ id ⊎ same_connection (h'.heap r).identity id ≡ true)
      × ((h'.heap r).closes ≡ 0)
      × ((k : Str) → (k ≡ id.user_id) ⊎ (lookup k h'.clients ≡ lookup k h.clients))
      × ((lookup id.user_id h.clients ≡ none)
          ⊎ ((old : ℕ) × (lookup id.user_id h.clients ≡ some old)
              × ((old ≡ r) ⊎ ((h'.heap old).closes ≡ 1))))
unfolding register add_client close_connection
register_ok id p h r v e = elim (Option-cases (lookup id.user_id h.clients)) [
  | inl f ↦ (
    ground (arith, lookup-insert id.user_id id.user_id h.next h.clients),
    ground arith,
    ground arith,
    λ k. ground (arith, lookup-insert id.user_id k h.next h.clients),
    inl f,
  )
  | inr (old, f) ↦
      let w = v.live id.user_id old f in
      (
        ground (arith, lookup-insert id.user_id id.user_id h.next h.clients),
        ground arith,
        ground arith,
        λ k. ground (arith, lookup-insert id.user_id k h.next h.clients),
        inr (old, f, ground arith),
      )
]

drop_client-none :
    (k j : Str) (h : Hub)
    → lookup k h.clients ≡ none ⊎ j ≡ k
    → lookup k (drop_client j h).clients ≡ none
unfolding drop_client
drop_client-none k j h out = ground (arith, lookup-erase j k h.clients)

-- Entries met by the range are gone, and so are those that were not in the map.
close_each-none :
    (m : List (Str × ℕ)) (h : Hub) (k : Str)
    → (lookup k h.clients ≡ none) ⊎ (lookup k m ≢ none)
    → lookup k (close_each m h).clients ≡ none
unfolding close_each lookup
close_each-none [] h k (inl e) = e
close_each-none [] h k (inr n) = absurd (n refl)
close_each-none ((j, r) ∷ m) h k (inl e) =
    close_each-none m (drop_client j h) k (inl (drop_client-none k j h (inl e)))
close_each-none ((j, r) ∷ m) h k (inr n) = elim (Str-discrete j k) [
  | yes p ↦ close_each-none m (drop_client j h) k (inl (drop_client-none k j h (inr p)))
  | no d ↦ close_each-none m (drop_client j h) k (inr (λ e. ground arith))
]

-- Closing never reopens, and what leaves the map has been closed.
drop_client-closes :
    (k : Str) (h : Hub) (r : ℕ) → (h.heap r).closes ≤ ((drop_client k h).heap r).closes
unfolding drop_client
drop_client-closes k h r = ground arith

close_each-closes :
    (m : List (Str × ℕ)) (h : Hub) (r : ℕ) → (h.heap r).closes ≤ ((close_each m h).heap r).closes
unfolding close_each
close_each-closes [] h r = omega arith
close_each-closes ((k, q) ∷ m) h r =
    omega (arith, close_each-closes m (drop_client k h) r, drop_client-closes k h r)

drop_client-kept :
    (j k : Str) (h : Hub) (r : ℕ)
    → lookup k h.clients ≡ some r
    → (lookup k (drop_client j h).clients ≡ some r) ⊎ (1 ≤ ((drop_client j h).heap r).closes)
unfolding drop_client
drop_client-kept j k h r e = ground (arith, lookup-erase j k h.clients)

close_each-kept :
    (m : List (Str × ℕ)) (h : Hub) (k : Str) (r : ℕ)
    → lookup k h.clients ≡ some r
    → (lookup k (close_each m h).clients ≡ some r) ⊎ (1 ≤ ((close_each m h).heap r).closes)
unfolding close_each
close_each-kept [] h k r e = inl e
close_each-kept ((j, q) ∷ m) h k r e = elim (drop_client-kept j k h r e) [
  | inl f ↦ close_each-kept m (drop_client j h) k r f
  | inr c ↦ inr (omega (arith, close_each-closes m (drop_client j h) r))
]

-- Closing all clients, as the timer of a drain and the end of the owner loop do, leaves no user with a
-- client, and closes the connection that a user had, exactly once.
pub close_all_lem :
    (h : Hub)
    → Inv h
    → (k : Str)
    → (lookup k (close_all h).clients ≡ none)
      × ((lookup k h.clients ≡ none)
          ⊎ ((r : ℕ) × (lookup k h.clients ≡ some r) × (((close_all h).heap r).closes ≡ 1)))
unfolding close_all
close_all_lem h v k = elim (Option-cases (lookup k h.clients)) [
  | inl e ↦ (close_each-none h.clients h k (inl e), inl e)
  | inr (r, e) ↦
      let gone = close_each-none h.clients h k (inr (λ f. cc)) in
      (
        gone,
        inr (
          r,
          e,
          ground (arith, close_each-kept h.clients h k r e, gone, (close_all-Inv h v).once r),
        ),
      )
]
