-- ===== src/Scheduler/TokenRefresh.antt =====
-- The token refresh service of the scheduler: `internal/scheduler/token_refresh.go`.
pub mod Handler
use gmaildigest_go.Prelude.{
  ℕ, ◌+◌, ◌≡◌, Bool, true, false, Option, some, none, if◌then◌else◌, [], ◌∷◌, List,
}
use gmaildigest_go.Prelude.Text.{Text, codes, is_empty}
use gmaildigest_go.Prelude.Results.{Result, ok, err}
use gmaildigest_go.Prelude.Maps.{Map}
use gmaildigest_go.Cron.Calendar.{Time, hour}
use gmaildigest_go.Jobs.Job.{Job, completed}
use gmaildigest_go.Jobs.Store.{Json, Env, StoreError}
use gmaildigest_go.Scheduler.State.{Scheduler, register_handler}
use gmaildigest_go.Scheduler.Schedule.{schedule_job, raw}
use gmaildigest_go.Auth.OAuth.{Token, Config, Storage, Provider}

pub data RefreshError : Type 0 where
  empty_user_id empty_schedule not_marshalled : RefreshError
  not_scheduled : StoreError → RefreshError
  not_unmarshalled payload_without_user : RefreshError
  token_not_read token_not_refreshed token_not_stored : RefreshError

-- What `encoding/json` does with a `TokenRefreshPayload`.
pub record PayloadJson : Type 0 where
  pub marshal_user : Text → Option Text
  pub unmarshal_user : Text → Option Text
  -- A user id that was marshalled is read back.
  pub unmarshal-marshal_user : (u p : Text) → marshal_user u ≡ some p → unmarshal_user p ≡ some u

abbrev pub token_refresh : Text
token_refresh = codes "token_refresh"

module _ {H : Type 0} where
  -- `NewTokenRefreshService`, given the scheduler, the storage and the configuration: it registers
  -- its handler.
  abbrev pub new_token_refresh_service : Scheduler H → H → Scheduler H
  new_token_refresh_service s handler = record s {
    registry = register_handler s.registry token_refresh (some handler);
  }

  abbrev pub scheduled :
      Scheduler H × Result StoreError Job → Scheduler H × Result RefreshError (Unit {0})
  scheduled (s, ok j) = (s, ok tt)
  scheduled (s, err e) = (s, err (not_scheduled e))

  abbrev pub after_schedule :
      Option (Scheduler H × Result StoreError Job)
      → Option (Scheduler H × Result RefreshError (Unit {0}))
  after_schedule none = none
  after_schedule (some r) = some (scheduled r)

  abbrev pub schedule_payload :
      ℕ
      → Json
      → Env
      → Scheduler H
      → Text
      → Text
      → Option Text
      → Option (Scheduler H × Result RefreshError (Unit {0}))
  schedule_payload fuel js e s user schedule none = some (s, err not_marshalled)
  schedule_payload fuel js e s user schedule (some p) =
      after_schedule (schedule_job fuel js e s user token_refresh schedule (raw p))

  -- `ScheduleTokenRefresh`; nothing where the fuel of the search for the next run ends.
  unfoldable pub schedule_token_refresh :
      ℕ
      → Json
      → PayloadJson
      → Env
      → Scheduler H
      → Text
      → Text
      → Option (Scheduler H × Result RefreshError (Unit {0}))
  schedule_token_refresh fuel js pj e s user schedule =
      if is_empty user
      then some (s, err empty_user_id)
      else if is_empty schedule
      then some (s, err empty_schedule)
      else schedule_payload fuel js e s user schedule (pj.marshal_user user)

-- The job after a refresh: completed, and run again in an hour.
unfoldable pub refreshed_job : Time → Job → Job
refreshed_job now j = record j {
  status = completed;
  last_error = [];
  retry_count = 0;
  next_run = now + hour;
}

-- `token.Valid()`, which is false on nil.
abbrev pub is_usable : Provider → Option Token → Bool
is_usable p none = false
is_usable p (some t) = p.is_valid t

-- What the handler returns: the storage, the job object and the error.
abbrev pub Handled : Type 0 → Type 0
Handled S = S × Job × Result RefreshError (Unit {0})

module _ {S : Type 0} where
  abbrev pub keep_new : Time → Job → S × Option Text → Handled S
  keep_new now j (s, some e) = (s, j, err token_not_stored)
  keep_new now j (s, none) = (s, refreshed_job now j, ok tt)

  abbrev pub store_new : Storage S → S → Time → Job → Text → Option Token → Handled S
  store_new st s now j user none = (s, j, err token_not_refreshed)
  store_new st s now j user (some t) = keep_new now j (st.store_token s user t)

  abbrev pub refresh_read :
      Storage S → Provider → Config → S → Time → Job → Text → Result Text (Option Token) → Handled S
  refresh_read st p c s now j user (err e) = (s, j, err token_not_read)
  refresh_read st p c s now j user (ok o) =
      if is_usable p o
      then (s, refreshed_job now j, ok tt)
      else store_new st s now j user (p.refresh c o)

  abbrev pub refresh_payload :
      Storage S → Provider → Config → S → Time → Job → Option Text → Handled S
  refresh_payload st p c s now j none = (s, j, err not_unmarshalled)
  refresh_payload st p c s now j (some user) =
      if is_empty user
      then (s, j, err payload_without_user)
      else refresh_read st p c s now j user (st.get_token s user)

  -- `HandleTokenRefresh` of a job that is not nil; a nil one is an error.
  unfoldable pub handle_token_refresh :
      Storage S → Provider → Config → PayloadJson → S → Time → Job → Handled S
  handle_token_refresh st p c pj s now j =
      refresh_payload st p c s now j (pj.unmarshal_user j.payload)
