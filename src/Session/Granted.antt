-- ===== src/Session/Granted.antt =====
-- What a session id gives access to, told from the history of the store.
use gmaildigest_go.Prelude.{◌≡◌, refl, List, [], ◌∷◌, Option, some, none, ite, arith, ◌≤◌}
use gmaildigest_go.Prelude.Int.{ℤ}
use gmaildigest_go.Prelude.Text.{Text, text_dec}
use gmaildigest_go.Prelude.Maps.{lookup, lookup-insert, lookup-delete}
use gmaildigest_go.Prelude.Results.{err}
use gmaildigest_go.Cron.Calendar.{Time}
use gmaildigest_go.Session.Store.{
  SessionData, InMemoryStore, SessionError, new_in_memory_store, add_duration, create, check_expiry,
  get, delete_session,
}

-- A call that changes the store: `Create` with the random bytes and the time it finds, or `Delete`.
pub data SessionCall : Type 0 where
  creates : Option Text → Time → Text → ℤ → SessionCall
  deletes : Text → SessionCall

abbrev pub apply : (Text → Text) → InMemoryStore → SessionCall → InMemoryStore
apply base64 s (creates random now user duration) = (create base64 random now s user duration).0
apply base64 s (deletes id) = delete_session s id

-- The store after the calls of a history, the latest first.
unfoldable pub run : (Text → Text) → List SessionCall → InMemoryStore
run base64 [] = new_in_memory_store
run base64 (c ∷ cs) = apply base64 (run base64 cs) c

-- The latest call that concerns the id decides: a creation that drew the id grants it until its
-- expiry, and a deletion revokes it.
unfoldable pub granted : (Text → Text) → List SessionCall → Text → Option SessionData
granted base64 [] id = none
granted base64 (creates none now user duration ∷ cs) id = granted base64 cs id
granted base64 (creates (some bytes) now user duration ∷ cs) id =
    ite (text_dec (base64 bytes) id)
      (some (record { user_id = user; expires = add_duration now duration })) (granted base64 cs id)
granted base64 (deletes i ∷ cs) id = ite (text_dec i id) none (granted base64 cs id)

lookup-run :
    (base64 : Text → Text) (cs : List SessionCall) (id : Text)
    → lookup id (run base64 cs) ≡ granted base64 cs id
unfolding run granted create delete_session lookup
lookup-run base64 [] id = refl
lookup-run base64 (creates none now user duration ∷ cs) id = lookup-run base64 cs id
lookup-run base64 (creates (some bytes) now user duration ∷ cs) id =
    rw
      (
        lookup-insert (base64 bytes) id
            (record { user_id = user; expires = add_duration now duration }) (run base64 cs),
        lookup-run base64 cs id,
      )
      refl
lookup-run base64 (deletes i ∷ cs) id =
    rw (lookup-delete i id (run base64 cs), lookup-run base64 cs id) refl

-- After every history, `Get` answers as the latest creation or deletion of the id says: the user
-- until the expiry that was granted, that the session expired after it, and that there is no
-- session where none was granted or the last one was deleted.
pub get-run :
    (base64 : Text → Text) (cs : List SessionCall) (now : Time) (id : Text)
    → get now (run base64 cs) id ≡ check_expiry now (granted base64 cs id)
unfolding get
get-run base64 cs now id = rw (lookup-run base64 cs id) refl

-- An id that a store refuses at some time is refused by it at every later time, with the same error.
pub get_expired :
    (s : InMemoryStore) (now later : Time) (id : Text) {e : SessionError}
    → now ≤ later
    → get now s id ≡ err e
    → get later s id ≡ err e
unfolding get
get_expired s now later id {e} le h = from (lookup id s) h
  where
    from : (o : Option SessionData) → check_expiry now o ≡ err e → check_expiry later o ≡ err e
    from none g = g
    from (some d) g = ground arith
