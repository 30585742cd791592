-- ===== src/Digest/Job/Delivery.antt =====
-- What a run of the digest job delivers, and what it leaves unread.
use gmaildigest_go.Prelude.{
  ◌≡◌, ◌≢◌, refl, ap, true, false, List, [], ◌∷◌, Option, none, some, any, Bool-cases, inl, inr,
}
use gmaildigest_go.Prelude.Int.{ℤ}
use gmaildigest_go.Prelude.Text.{Text}
use gmaildigest_go.Prelude.Results.{Result, ok, err}
use gmaildigest_go.Auth.OAuth.{Token}
use gmaildigest_go.Storage.Sqlite.{StorageError}
use gmaildigest_go.Storage.Accounts.{Account, get_user_by_id}
use gmaildigest_go.Storage.Tokens.{TokenError, get_token}
use gmaildigest_go.Digest.Mail.{Gmail, Email, fetch_unread_emails}
use gmaildigest_go.Digest.Mail.Unread.{Removes, fetch_unread_emails-read}
use gmaildigest_go.Digest.Summary.{SummaryError, summarize}
use gmaildigest_go.Digest.Job.{
  Sent, DigestJob, Stored, DigestError, Run, send_message, send_digest, summarize_fetched,
  read_mails, with_account, with_token, run,
}

-- What a run has done that returns no error.
pub record Delivered {M : Type 0} (g : Gmail M) (j : DigestJob) (m : M) (s : Stored) (user : Text)
    (m' : M) (sent : List Sent) : Type 0 where
  pub account : Account
  pub chat_id : ℤ
  pub mails : List Email
  pub digest : Text
  pub known : get_user_by_id s.account_call s.accounts user ≡ ok account
  pub connected : account.telegram_chat_id ≡ some chat_id
  pub fetched : fetch_unread_emails j.decoders g m ≡ (m', some mails)
  pub summarized : summarize j.chat mails ≡ ok digest
  -- Telegram confirmed exactly one message.
  pub one : sent ≡ (chat_id, digest) ∷ []

-- What a run promises by its result: the delivery of the digest was confirmed, or of nothing.
abbrev pub Promised : (M : Type 0) → Gmail M → DigestJob → M → Stored → Text → Run M → Type 0
Promised M g j m s user (m', sent, ok u) = Delivered g j m s user m' sent
Promised M g j m s user (m', sent, err e) = sent ≡ []

module _ {M : Type 0} (g : Gmail M) (j : DigestJob) (m : M) (s : Stored) (user : Text) where
  taken-Promised :
      (m' : M) (sent : List Sent) (r : Result DigestError (Unit {0}))
      → (r ≡ ok tt → Delivered g j m s user m' sent)
      → (r ≢ ok tt → sent ≡ [])
      → Promised M g j m s user (m', sent, r)
  taken-Promised m' sent (ok u) h k = h refl
  taken-Promised m' sent (err e) h k = k (λ l. cc)

  fetched-Promised :
      (a : Account) (f : M × Option (List Email))
      → get_user_by_id s.account_call s.accounts user ≡ ok a
      → fetch_unread_emails j.decoders g m ≡ f
      → Promised M g j m s user (summarize_fetched j a f)
  unfolding send_message
  fetched-Promised a (m', none) h k = refl
  fetched-Promised a (m', some es) h k = from (summarize j.chat es) a.telegram_chat_id refl refl
    where
      from :
          (r : Result SummaryError Text) (c : Option ℤ)
          → summarize j.chat es ≡ r
          → a.telegram_chat_id ≡ c
          → Promised M g j m s user (m', (send_digest j c r).0, (send_digest j c r).1)
      from (err e) c x y = refl
      from (ok t) none x y = refl
      from (ok t) (some c) x y = elim (Bool-cases (j.accepts (c, t))) [
        | inl yes' ↦ rw yes' (record {
          account = a;
          chat_id = c;
          mails = es;
          digest = t;
          known = h;
          connected = y;
          fetched = k;
          summarized = x;
          one = refl;
        })
        | inr no' ↦ rw no' refl
      ]

  read_mails-Promised :
      (t : Token) (a : Account)
      → get_user_by_id s.account_call s.accounts user ≡ ok a
      → Promised M g j m s user (read_mails g j m t a)
  read_mails-Promised t a h = elim (Bool-cases (j.connects t)) [
    | inl yes' ↦ rw yes' (fetched-Promised a (fetch_unread_emails j.decoders g m) h refl)
    | inr no' ↦ rw no' refl
  ]

  -- A run that returns no error has sent exactly one message whose delivery Telegram confirmed: to the
  -- chat of the user's account, with the summary of the mails that were fetched. Of a run that returns
  -- an error Telegram has confirmed none.
  pub run-Promised : Promised M g j m s user (run g j m s user)
  unfolding run
  run-Promised = from (get_token j.aes j.json j.key s.token_call s.database user)
    where
      known :
          (t : Token) (r : Result StorageError Account)
          → get_user_by_id s.account_call s.accounts user ≡ r
          → Promised M g j m s user (with_account g j m t r)
      known t (err e) h = refl
      known t (ok a) h = read_mails-Promised t a h

      from : (r : Result TokenError Token) → Promised M g j m s user (with_token g j m s user r)
      from (err e) = refl
      from (ok t) = known t (get_user_by_id s.account_call s.accounts user) refl

  not_ok-empty : (x : Run M) → Promised M g j m s user x → x.2 ≢ ok tt → x.1 ≡ []
  not_ok-empty (m', sent, ok u) h k = absurd (k refl)
  not_ok-empty (m', sent, err e) h k = h

  summarize_fetched-mailbox :
      (a : Account) (f : M × Option (List Email)) → (summarize_fetched j a f).0 ≡ f.0
  summarize_fetched-mailbox a (m', none) = refl
  summarize_fetched-mailbox a (m', some es) = refl

  run-mailbox :
      (t : Token) (a : Account)
      → get_token j.aes j.json j.key s.token_call s.database user ≡ ok t
      → j.connects t ≡ true
      → get_user_by_id s.account_call s.accounts user ≡ ok a
      → (run g j m s user).0 ≡ (fetch_unread_emails j.decoders g m).0
  unfolding run
  run-mailbox t a h c k =
      rw (h, k, c) (summarize_fetched-mailbox a (fetch_unread_emails j.decoders g m))

  fetched_pair :
      (f : M × Option (List Email)) {es : List Email} → f.1 ≡ some es → f ≡ (f.0, some es)
  fetched_pair (m', o) h = ap (λ o. (m', o)) h

  -- The bug: mails are marked as read before the digest is made and sent. Where every removal of the
  -- label succeeds: of a run that fetches mails and then fails, be it for a missing chat, the summary or
  -- the message, Telegram has confirmed no message, and yet none of these mails is unread after it.
  pub run_lost :
      (t : Token) (a : Account) (es : List Email)
      → Removes M g
      → get_token j.aes j.json j.key s.token_call s.database user ≡ ok t
      → j.connects t ≡ true
      → get_user_by_id s.account_call s.accounts user ≡ ok a
      → (fetch_unread_emails j.decoders g m).1 ≡ some es
      → (run g j m s user).2 ≢ ok tt
      → ((run g j m s user).1 ≡ []) × (any (λ e. g.is_unread (run g j m s user).0 e.id) es ≡ false)
  run_lost t a es r h c k f failed = (
    not_ok-empty (run g j m s user) run-Promised failed,
    rw (run-mailbox t a h c k) (
        fetch_unread_emails-read j.decoders g m r
          (fetched_pair (fetch_unread_emails j.decoders g m) f)),
  )
