-- ===== src/Storage/Config.antt =====
-- The configuration of the database: `internal/storage/pool.go`.
use gmaildigest_go.Prelude.{◌+◌, ◌*◌, ◌≡◌, ◌≤◌, ◌<◌, ◌↔◌, false, arith, if◌then◌else◌}
use gmaildigest_go.Prelude.Int.{ℤ, pos, pos_part, neg_part, ltb_ℤ, leb_ℤ}
use gmaildigest_go.Prelude.Text.{Text, codes, is_empty}
use gmaildigest_go.Prelude.Results.{Result, ok, err}
use gmaildigest_go.Cron.Calendar.{second, minute, hour}

-- `Config`. A duration is a number of nanoseconds.
pub record Config : Type 0 where
  pub path : Text
  pub max_open_conns : ℤ
  pub max_idle_conns : ℤ
  pub conn_max_lifetime : ℤ
  pub conn_max_idle_time : ℤ
  pub busy_timeout : ℤ

pub data ConfigError : Type 0 where
  empty_path open_conns idle_conns more_idle_than_open : ConfigError
  lifetime idle_time idle_longer_than_lifetime timeout : ConfigError

-- `DefaultConfig`.
abbrev pub default_config : Config
default_config = record {
  path = codes "gmail_digest.db";
  max_open_conns = pos 10;
  max_idle_conns = pos 5;
  conn_max_lifetime = pos hour;
  conn_max_idle_time = pos (30 * minute);
  busy_timeout = pos (5 * second);
}

-- `Validate`.
unfoldable pub validate : Config → Result ConfigError (Unit {0})
validate c =
    if is_empty c.path
    then err empty_path
    else if leb_ℤ c.max_open_conns (pos 0)
    then err open_conns
    else if ltb_ℤ c.max_idle_conns (pos 0)
    then err idle_conns
    else if ltb_ℤ c.max_open_conns c.max_idle_conns
    then err more_idle_than_open
    else if leb_ℤ c.conn_max_lifetime (pos 0)
    then err lifetime
    else if leb_ℤ c.conn_max_idle_time (pos 0)
    then err idle_time
    else if ltb_ℤ c.conn_max_lifetime c.conn_max_idle_time
    then err idle_longer_than_lifetime
    else if leb_ℤ c.busy_timeout (pos 0)
    then err timeout
    else ok tt

-- The order of signed integers, in natural numbers.
abbrev pub Below : ℤ → ℤ → Type 0
Below a b = pos_part a + neg_part b < pos_part b + neg_part a

abbrev pub AtMost : ℤ → ℤ → Type 0
AtMost a b = pos_part a + neg_part b ≤ pos_part b + neg_part a

-- A path is given, a connection may be open, no more may be idle than open and none longer than it
-- may live, and all durations are positive.
pub record IsUsable (c : Config) : Type 0 where
  pub named : is_empty c.path ≡ false
  pub opens : Below (pos 0) c.max_open_conns
  pub idles : AtMost (pos 0) c.max_idle_conns
  pub idle_open : AtMost c.max_idle_conns c.max_open_conns
  pub idle_time : Below (pos 0) c.conn_max_idle_time
  pub idle_lifetime : AtMost c.conn_max_idle_time c.conn_max_lifetime
  pub waits : Below (pos 0) c.busy_timeout

-- `Validate` accepts exactly the configurations that are usable.
pub validate-IsUsable : (c : Config) → (validate c ≡ ok tt) ↔ IsUsable c
unfolding validate
validate-IsUsable c = (
  λ h. record {
    named = ground arith;
    opens = ground arith;
    idles = ground arith;
    idle_open = ground arith;
    idle_time = ground arith;
    idle_lifetime = ground arith;
    waits = ground arith;
  },
  λ u.
      ground (arith, u.named, u.opens, u.idles, u.idle_open, u.idle_time, u.idle_lifetime, u.waits),
)
