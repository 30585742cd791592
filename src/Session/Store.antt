-- ===== src/Session/Store.antt =====
-- The in-memory session store: `internal/session/in_memory.go`.
use gmaildigest_go.Prelude.{◌+◌, ◌-◌, [], Option, some, none, ltb, if◌then◌else◌}
use gmaildigest_go.Prelude.Int.{ℤ, pos_part, neg_part}
use gmaildigest_go.Prelude.Text.{Text}
use gmaildigest_go.Prelude.Maps.{Map, lookup, insert, delete}
use gmaildigest_go.Prelude.Results.{Result, ok, err}
use gmaildigest_go.Cron.Calendar.{Time}

-- `sessionData`.
pub record SessionData : Type 0 where
  pub user_id : Text
  pub expires : Time

-- `InMemoryStore`, its map of sessions. The mutex makes each method one step.
abbrev pub InMemoryStore : Type 0
InMemoryStore = Map SessionData

pub data SessionError : Type 0 where
  no_randomness not_found expired : SessionError

abbrev pub new_in_memory_store : InMemoryStore
new_in_memory_store = []

-- `t.Add(d)`, and the year 1 where that lies before it.
abbrev pub add_duration : Time → ℤ → Time
add_duration t d = t + pos_part d - neg_part d

-- `generateSessionID`, from `base64.URLEncoding` and what `rand.Read` gives for 32 bytes.
abbrev pub generate_session_id : (Text → Text) → Option Text → Result SessionError Text
generate_session_id base64 none = err no_randomness
generate_session_id base64 (some bytes) = ok (base64 bytes)

abbrev pub grant :
    Text
    → ℤ
    → Time
    → InMemoryStore
    → Result SessionError Text
    → InMemoryStore × Result SessionError Text
grant user duration now s (ok id) =
    (insert id (record { user_id = user; expires = add_duration now duration }) s, ok id)
grant user duration now s (err e) = (s, err e)

-- `Create`.
unfoldable pub create :
    (Text → Text)
    → Option Text
    → Time
    → InMemoryStore
    → Text
    → ℤ
    → InMemoryStore × Result SessionError Text
create base64 random now s user duration =
    grant user duration now s (generate_session_id base64 random)

abbrev pub check_expiry : Time → Option SessionData → Result SessionError Text
check_expiry now none = err not_found
check_expiry now (some d) = if ltb d.expires now then err expired else ok d.user_id

-- `Get`.
unfoldable pub get : Time → InMemoryStore → Text → Result SessionError Text
get now s id = check_expiry now (lookup id s)

-- `Delete`.
unfoldable pub delete_session : InMemoryStore → Text → InMemoryStore
delete_session s id = delete id s
