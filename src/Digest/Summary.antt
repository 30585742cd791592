-- ===== src/Digest/Summary.antt =====
-- The summary of mails: internal/summary/service.go.
use gmaildigest_go.Prelude.{List, [], ◌∷◌, ◌++◌, Option, none, some}
use gmaildigest_go.Prelude.Text.{Text, codes}
use gmaildigest_go.Prelude.Results.{Result, ok, err}
use gmaildigest_go.Digest.Mail.{Email}

abbrev pub newline : Text
newline = 10 ∷ []

-- The lines on one mail.
abbrev pub mail_lines : Email → Text
mail_lines e =
    codes "From: "
    ++ e.from'
    ++ newline
    ++ codes "Subject: "
    ++ e.subject
    ++ newline
    ++ codes "Body: "
    ++ e.body
    ++ newline
    ++ newline

abbrev pub all_lines : List Email → Text
all_lines [] = []
all_lines (e ∷ es) = mail_lines e ++ all_lines es

-- The prompt.
unfoldable pub prompt : List Email → Text
prompt es =
    codes "Please provide a concise summary of the following emails:"
    ++ newline
    ++ newline
    ++ all_lines es

pub data SummaryError : Type 0 where
  chat_failed no_choice : SummaryError

abbrev pub first_choice : Option (List Text) → Result SummaryError Text
first_choice none = err chat_failed
first_choice (some []) = err no_choice
first_choice (some (t ∷ ts)) = ok t

-- `Summarize`. The first argument is the choices that OpenAI gives for a prompt of the user.
unfoldable pub summarize : (Text → Option (List Text)) → List Email → Result SummaryError Text
summarize chat [] = ok (codes "No new emails to summarize.")
summarize chat (e ∷ es) = first_choice (chat (prompt (e ∷ es)))
