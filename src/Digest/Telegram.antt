-- ===== src/Digest/Telegram.antt =====
-- The commands of the Telegram bot: `StartPolling` of internal/telegram/service.go.
use gmaildigest_go.Prelude.{List, [], ◌∷◌, ◌++◌, Option, none, some, if◌then◌else◌}
use gmaildigest_go.Prelude.Int.{ℤ}
use gmaildigest_go.Prelude.Text.{Text, codes, eqt}
use gmaildigest_go.Settings.Numbers.{show_int}
use gmaildigest_go.Digest.Summary.{newline}
use gmaildigest_go.Digest.Job.{Sent}

-- A message that the bot receives; its command is none where it is not one.
pub record Incoming : Type 0 where
  pub from_id : ℤ
  pub chat_id : ℤ
  pub command : Option Text

-- The link up to its token.
abbrev pub link_start : ℤ → Text
link_start port = codes "http://localhost:" ++ show_int port ++ codes "/telegram/connect?token="

-- The token of a user is the Telegram id.
abbrev pub link_token : Incoming → Text
link_token m = show_int m.from_id

abbrev pub welcome : Text
welcome =
    codes "Welcome! To connect your account and receive email digests, please click this link:"
    ++ newline
    ++ newline

-- `handleStartCommand`: the message that it asks Telegram to send.
unfoldable pub handle_start_command : ℤ → Incoming → Sent
handle_start_command port m = (m.chat_id, welcome ++ link_start port ++ link_token m)

abbrev pub answer_command : ℤ → Incoming → Option Text → List Sent
answer_command port m none = []
answer_command port m (some c) =
    if eqt c (codes "start") then handle_start_command port m ∷ [] else []

-- An update without a message is passed over.
abbrev pub handle_update : ℤ → Option Incoming → List Sent
handle_update port none = []
handle_update port (some m) = answer_command port m m.command

-- The loop of `StartPolling`, over the updates that Telegram gives.
unfoldable pub start_polling : ℤ → List (Option Incoming) → List Sent
start_polling port [] = []
start_polling port (u ∷ us) = handle_update port u ++ start_polling port us
