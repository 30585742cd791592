-- ===== src/Tests/Digest.antt =====
-- A digest of one mail, from a mailbox that is the list of the unread ids.
use gmaildigest_go.Prelude.{
  ℕ, ◌≡◌, ◌≢◌, refl, sym, ◌∙◌, Bool, true, false, not, List, [], ◌∷◌, Option, none, some, any,
  arith,
}
use gmaildigest_go.Prelude.Int.{pos}
use gmaildigest_go.Prelude.Rows.{keep, any-keep}
use gmaildigest_go.Prelude.Text.{Text, codes, text_dec, eqt}
use gmaildigest_go.Prelude.Results.{ok, err}
use gmaildigest_go.Storage.Sqlite
use gmaildigest_go.Storage.Sqlite.{select_token}
use gmaildigest_go.Storage.Accounts.{Account, get_user_by_id}
use gmaildigest_go.Storage.Tokens.{get_token}
use gmaildigest_go.Digest.Mail.{Message, Email, Gmail, parse_email, fetch_loop, fetch_unread_emails}
use gmaildigest_go.Digest.Summary.{summarize}
use gmaildigest_go.Digest.Job.{DigestJob, Stored, not_connected, send_message, run}
use gmaildigest_go.Digest.Job.Delivery.{Promised, run-Promised, run_lost}
use gmaildigest_go.Tests.Tokens.{bytes, marking, access_only, live, with_token, bare}

abbrev Mailbox : Type 0
Mailbox = List Text

abbrev mail : Text → Message
mail id = record {
  id = id;
  payload = some (record {
    headers =
        record { name = codes "From"; value = codes "eve" }
        ∷ record { name = codes "Subject"; value = codes "hi" }
        ∷ [];
    body = [];
    parts =
        none
        ∷ some (record { mime_type = codes "text/html"; body = some (codes "b") })
        ∷ some (record { mime_type = codes "text/plain"; body = some (codes "text") })
        ∷ [];
  });
}

abbrev contains_id : Mailbox → Text → Bool
contains_id m i = any (λ j. eqt j i) m

abbrev without : Mailbox → Text → Mailbox
without m i = keep (λ j. not (eqt j i)) m

without_it : (m : Mailbox) (i : Text) → contains_id (without m i) i ≡ false
without_it [] i = refl
without_it (j ∷ m) i = ground (arith, without_it m i)

abbrev listed : Gmail Mailbox
listed = record {
  list_unread = λ m. (m, some m);
  get_full = λ m i. (m, some (mail i));
  remove_unread = λ m i. (without m i, true);
  is_unread = contains_id;
  unread-list = λ m i. refl;
  unread-get = λ m i j. refl;
  unread-removed = λ m i h. without_it m i;
  unread-other = λ m i j h. any-keep (λ x. eqt x i) (λ x. not (eqt x j)) m h;
}

abbrev job : DigestJob
job = record {
  aes = marking;
  json = access_only;
  key = bytes 32;
  decoders = record { base64 = λ s. some s; rfc1123z = λ s. none };
  chat = λ prompt'. some (codes "sum" ∷ []);
  accepts = λ s. true;
  connects = λ t. true;
}

abbrev ann : Account
ann = record {
  id = codes "ann";
  email = codes "ann@x";
  telegram_user_id = none;
  telegram_chat_id = none;
  created_at = 1;
  updated_at = 1;
}

abbrev stored : Option ℕ → Stored
stored none = record {
  database = with_token;
  accounts = ann ∷ [];
  token_call = live;
  account_call = live;
}
stored (some n) = record {
  database = with_token;
  accounts = record ann { telegram_user_id = some (pos n); telegram_chat_id = some (pos n) } ∷ [];
  token_call = live;
  account_call = live;
}

one_mail :
    parse_email job.decoders (mail (codes "m"))
    ≡ some (record {
      id = codes "m";
      subject = codes "hi";
      from' = codes "eve";
      date = 0;
      body = codes "text";
    })
unfolding parse_email text_dec
one_mail = refl

sent :
    run listed job (codes "m" ∷ []) (stored (some 9)) (codes "ann")
    ≡ ([], (pos 9, codes "sum") ∷ [], ok tt)
unfolding run get_token Sqlite.get_token select_token get_user_by_id fetch_unread_emails fetch_loop
    parse_email summarize send_message text_dec
sent = refl

run-Promised_example :
    Promised Mailbox listed job
      (codes "m" ∷ [])
      (stored (some 9))
      (codes "ann")
      (run listed job (codes "m" ∷ []) (stored (some 9)) (codes "ann"))
run-Promised_example = run-Promised listed job (codes "m" ∷ []) (stored (some 9)) (codes "ann")

abbrev parsed : Email
parsed = record {
  id = codes "m";
  subject = codes "hi";
  from' = codes "eve";
  date = 0;
  body = codes "text";
}

token_read :
    get_token marking access_only (bytes 32) live with_token (codes "ann")
    ≡ ok (bare (codes "secret"))
unfolding get_token Sqlite.get_token select_token text_dec
token_read = refl

known : get_user_by_id live (ann ∷ []) (codes "ann") ≡ ok ann
unfolding get_user_by_id text_dec
known = refl

fetched : (fetch_unread_emails job.decoders listed (codes "m" ∷ [])).1 ≡ some (parsed ∷ [])
unfolding fetch_unread_emails fetch_loop parse_email text_dec
fetched = refl

refused : (run listed job (codes "m" ∷ []) (stored none) (codes "ann")).2 ≡ err not_connected
unfolding run get_token Sqlite.get_token select_token get_user_by_id fetch_unread_emails fetch_loop
    parse_email summarize text_dec
refused = refl

failed : (run listed job (codes "m" ∷ []) (stored none) (codes "ann")).2 ≢ ok tt
failed e = absurd (let twice = sym refused ∙ e in cc)

run_lost_example :
    ((run listed job (codes "m" ∷ []) (stored none) (codes "ann")).1 ≡ [])
    × (any
          (λ e. contains_id (run listed job (codes "m" ∷ []) (stored none) (codes "ann")).0 e.id)
          (parsed ∷ [])
        ≡ false)
run_lost_example =
    run_lost listed job (codes "m" ∷ []) (stored none) (codes "ann") (bare (codes "secret")) ann
      (parsed ∷ []) (λ m i. refl) token_read refl known fetched failed
