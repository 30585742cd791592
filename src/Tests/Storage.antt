-- ===== src/Tests/Storage.antt =====
-- The default configuration of the database.
use gmaildigest_go.Prelude.{◌≡◌, refl}
use gmaildigest_go.Prelude.Int.{pos}
use gmaildigest_go.Prelude.Results.{ok, err}
use gmaildigest_go.Storage.Config.{more_idle_than_open, default_config, validate}

default_accepted : validate default_config ≡ ok tt
unfolding validate
default_accepted = refl

idle_refused : validate (record default_config { max_open_conns = pos 4 }) ≡ err more_idle_than_open
unfolding validate
idle_refused = refl
