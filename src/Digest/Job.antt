-- ===== src/Digest/Job.antt =====
-- The digest of a user: internal/scheduler/digest_job.go, and `SendMessage` of
-- internal/telegram/service.go.
pub mod Delivery
use gmaildigest_go.Prelude.{Bool, true, false, List, [], ◌∷◌, Option, none, some, if◌then◌else◌}
use gmaildigest_go.Prelude.Int.{ℤ}
use gmaildigest_go.Prelude.Text.{Text}
use gmaildigest_go.Prelude.Results.{Result, ok, err}
use gmaildigest_go.Auth.OAuth.{Token}
use gmaildigest_go.Storage.Database.{Database}
use gmaildigest_go.Storage.Sqlite.{StorageError, Call}
use gmaildigest_go.Storage.Accounts.{Account, get_user_by_id}
use gmaildigest_go.Storage.Tokens.{Bytes, Aes, TokenJson, TokenError, get_token}
use gmaildigest_go.Digest.Mail.{Decoders, Gmail, Email, fetch_unread_emails}
use gmaildigest_go.Digest.Summary.{SummaryError, summarize}

-- A message for a chat.
abbrev pub Sent : Type 0
Sent = ℤ × Text

-- What a job works with besides the mailbox: the token store with its key, what Telegram does with a
-- message, the choices of OpenAI, and whether a client for the Gmail API can be made from a token.
pub record DigestJob : Type 0 where
  pub aes : Aes
  pub json : TokenJson
  pub key : Bytes
  pub decoders : Decoders
  pub chat : Text → Option (List Text)
  pub accepts : Sent → Bool
  pub connects : Token → Bool

-- The stored data, and the calls that read it.
pub record Stored : Type 0 where
  pub database : Database
  pub accounts : List Account
  pub token_call : Call
  pub account_call : Call

pub data DigestError : Type 0 where
  token_failed : TokenError → DigestError
  user_failed : StorageError → DigestError
  gmail_failed fetch_failed not_connected send_failed : DigestError
  summary_failed : SummaryError → DigestError

-- The mailbox after a run, the messages whose delivery Telegram confirmed, and what `Run` returns.
abbrev pub Run : Type 0 → Type 0
Run M = M × List Sent × Result DigestError (Unit {0})

-- `SendMessage`. An error of the call is no confirmation, though Telegram may have the message all the
-- same.
unfoldable pub send_message : DigestJob → Sent → List Sent × Result DigestError (Unit {0})
send_message j s = if j.accepts s then (s ∷ [], ok tt) else ([], err send_failed)

-- The last steps: the chat of the user, and the message.
abbrev pub send_digest :
    DigestJob → Option ℤ → Result SummaryError Text → List Sent × Result DigestError (Unit {0})
send_digest j chat_id (err e) = ([], err (summary_failed e))
send_digest j none (ok digest) = ([], err not_connected)
send_digest j (some chat_id) (ok digest) = send_message j (chat_id, digest)

module _ {M : Type 0} where
  abbrev pub summarize_fetched : DigestJob → Account → M × Option (List Email) → Run M
  summarize_fetched j a (m, none) = (m, [], err fetch_failed)
  summarize_fetched j a (m, some es) =
      let (sent, r) = send_digest j a.telegram_chat_id (summarize j.chat es) in (m, sent, r)

  -- The steps with the mailbox.
  abbrev pub read_mails : Gmail M → DigestJob → M → Token → Account → Run M
  read_mails g j m t a =
      if j.connects t
      then summarize_fetched j a (fetch_unread_emails j.decoders g m)
      else (m, [], err gmail_failed)

  abbrev pub with_account : Gmail M → DigestJob → M → Token → Result StorageError Account → Run M
  with_account g j m t (err e) = (m, [], err (user_failed e))
  with_account g j m t (ok a) = read_mails g j m t a

  abbrev pub with_token : Gmail M → DigestJob → M → Stored → Text → Result TokenError Token → Run M
  with_token g j m s user (err e) = (m, [], err (token_failed e))
  with_token g j m s user (ok t) =
      with_account g j m t (get_user_by_id s.account_call s.accounts user)

  -- `Run`.
  unfoldable pub run : Gmail M → DigestJob → M → Stored → Text → Run M
  run g j m s user =
      with_token g j m s user (get_token j.aes j.json j.key s.token_call s.database user)
