-- ===== src/Logic/Messages/Tests.antt =====
-- The theorems on stored messages, over tables that hold one direct conversation and a list of rows.
use fable.Prelude.{
  itoa, all, zero, suc, ℤ, pos, negsuc, ◌≡◌, refl, ap, ◌⊎◌, Str, true, false, not, ◌&&◌, Option,
  none, some, List, [], ◌∷◌, ◌==◌, length, contains, arith, text, str_eq, ℕ_discrete, Str-discrete,
  ok, err, sort_strings, insert_sorted, str_le, nat_eq,
}
use fable.Wire.Identity.{valid_id, valid_uuid}
use fable.Logic.Messages.{database, sorted_unique, unique, unique_after, check_recipients}
use fable.Logic.Messages.Snapshots.{Increasing, sorted_unique_lem, check_recipients_cases}
use fable.Logic.Messages.Sync.{
  CursorCodec, encode_cursor, decode_cursor, decode_cursor-encode_cursor,
}
use fable.Logic.Messages.Save.{
  check_direct, lock_direct, conversation, require_from, authorize, save,
}
use fable.Logic.Messages.Replay.{save_again}
use fable.Logic.Messages.Fixtures.{
  lenient, alice, bob, tables, join, parts, parts-join, encodings, input, to_bob, authorized,
  written, answered, save-eq-ok,
}

authorize-eq-ok :
    (what : Str) → authorize tables encodings lenient (input what) [] (written ∷ []) ≡ ok authorized
unfolding authorize conversation lock_direct check_direct require_from sorted_unique unique
    unique_after sort_strings insert_sorted str_le valid_id valid_uuid ℕ_discrete Str-discrete
authorize-eq-ok what = refl

save_again_example :
    save tables encodings lenient (input (text "hello")) (written ∷ [])
    ≡ ok (written ∷ [], record answered { replayed = true })
save_again_example =
    save_again tables encodings lenient (input (text "hello")) to_bob [] (written ∷ [])
      (written ∷ []) answered authorized refl refl save-eq-ok refl (authorize-eq-ok (text "hello"))

sorted_unique_lem_example :
    Increasing (sorted_unique (bob ∷ alice ∷ bob ∷ []))
    × ((k : Str)
        → contains (sorted_unique (bob ∷ alice ∷ bob ∷ [])) k ≡ contains (bob ∷ alice ∷ bob ∷ []) k)
sorted_unique_lem_example = sorted_unique_lem (bob ∷ alice ∷ bob ∷ [])

check_recipients_cases_example :
    let sound =
      not (length (alice ∷ bob ∷ []) == 0)
      && all (λ id. valid_id lenient id b'U') (alice ∷ bob ∷ []) in
    ((check_recipients lenient (alice ∷ bob ∷ []) ≡ ok (alice ∷ bob ∷ []))
      × (sound ≡ true)
      × Increasing (alice ∷ bob ∷ []))
    ⊎ ((check_recipients lenient (alice ∷ bob ∷ []) ≡ err database)
        × ((sound ≡ false) ⊎ ¬ Increasing (alice ∷ bob ∷ [])))
check_recipients_cases_example = check_recipients_cases lenient (alice ∷ bob ∷ [])

abbrev write_cursor : ℤ → Str → Str → Str
write_cursor (pos n) conversation after = 0 ∷ n ∷ join (conversation ∷ after ∷ [])
write_cursor (negsuc n) conversation after = 1 ∷ n ∷ join (conversation ∷ after ∷ [])

abbrev pair_of : List Str → Option (Str × Str)
pair_of (a ∷ b ∷ []) = some (a, b)
pair_of _ = none

abbrev with_version : ℤ → Option (Str × Str) → Option (ℤ × (Str × Str))
with_version v none = none
with_version v (some p) = some (v, p)

abbrev read_cursor : Str → Option (ℤ × (Str × Str))
read_cursor (zero ∷ n ∷ rest) = with_version (pos n) (pair_of (parts rest))
read_cursor (suc _ ∷ n ∷ rest) = with_version (negsuc n) (pair_of (parts rest))
read_cursor _ = none

read_cursor-write_cursor :
    (v : ℤ) (conversation after : Str)
    → read_cursor (write_cursor v conversation after) ≡ some (v, (conversation, after))
read_cursor-write_cursor (pos n) conversation after =
    ap (λ ps. with_version (pos n) (pair_of ps)) (parts-join (conversation ∷ after ∷ []))
read_cursor-write_cursor (negsuc n) conversation after =
    ap (λ ps. with_version (negsuc n) (pair_of ps)) (parts-join (conversation ∷ after ∷ []))

abbrev cursors : CursorCodec
cursors = record {
  marshal = write_cursor;
  unmarshal = read_cursor;
  unmarshal-marshal =
      λ v conversation after _. read_cursor-write_cursor v conversation (itoa after);
}

decode_cursor-encode_cursor_example :
    decode_cursor lenient cursors
      (text "group:G1")
      (encode_cursor lenient cursors (text "group:G1") 120)
    ≡ ok 120
unfolding encode_cursor
decode_cursor-encode_cursor_example =
    decode_cursor-encode_cursor lenient cursors (text "group:G1") 120 refl (λ raw. refl)
      (λ e. omega (arith, e)) (omega arith) (omega arith)
