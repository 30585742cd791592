-- ===== src/Scheduler/TokenRefresh/Handler.antt =====
-- What the handler of token refresh jobs does to the job and to the tokens.
use gmaildigest_go.Prelude.{◌≡◌, ◌⊎◌, true, false, Option, some}
use gmaildigest_go.Prelude.Text.{Text, is_empty}
use gmaildigest_go.Prelude.Results.{ok, err}
use gmaildigest_go.Cron.Calendar.{Time}
use gmaildigest_go.Jobs.Job.{Job}
use gmaildigest_go.Auth.OAuth.{Token, Config, Storage, Provider}
use gmaildigest_go.Scheduler.TokenRefresh.{PayloadJson, Handled, refreshed_job, is_usable}

-- The user whose token was looked at, and how the user now has a usable one: the one stored before,
-- or the one that the provider gave for it.
pub record Served {S : Type 0} (st : Storage S) (p : Provider) (c : Config) (pj : PayloadJson)
    (s : S) (j : Job) (s' : S) : Type 0 where
  pub user : Text
  pub before : Option Token
  pub addressed : pj.unmarshal_user j.payload ≡ some user
  pub named : is_empty user ≡ false
  pub read : st.get_token s user ≡ ok before
  pub usable :
      ((is_usable p before ≡ true) × (s' ≡ s))
      ⊎ ((is_usable p before ≡ false)
          × (new : Token) × (p.refresh c before ≡ some new)
          × (st.get_token s' user ≡ ok (some new)))

-- A run of the handler: success serves the user of the payload and completes the job for an hour, and
-- an error leaves the job as it was.
abbrev pub Run :
    {S : Type 0} → Storage S → Provider → Config → PayloadJson → S → Time → Job → Handled S → Type 0
Run st p c pj s now j (s', j', ok _) = (j' ≡ refreshed_job now j) × Served st p c pj s j s'
Run st p c pj s now j (s', j', err e) = j' ≡ j
