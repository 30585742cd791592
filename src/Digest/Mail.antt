-- ===== src/Digest/Mail.antt =====
-- Reading mails: internal/gmail/service.go.
pub mod Unread
use gmaildigest_go.Prelude.{
  ◌≡◌, Bool, true, false, not, ◌&&◌, List, [], ◌∷◌, Option, none, some, any, if◌then◌else◌,
}
use gmaildigest_go.Prelude.Text.{Text, codes, eqt, is_empty}
use gmaildigest_go.Cron.Calendar.{Time}

pub record Header : Type 0 where
  pub name : Text
  pub value : Text

-- A part of a message; its body may be nil.
pub record Part : Type 0 where
  pub mime_type : Text
  pub body : Option Text

-- The Gmail API gives a payload a body always, which is empty where the content is in the parts.
pub record Payload : Type 0 where
  pub headers : List Header
  pub body : Text
  pub parts : List (Option Part)

-- `gmail.Message`, as far as it is read.
pub record Message : Type 0 where
  pub id : Text
  pub payload : Option Payload

-- The fields of `models.Email` that are set.
pub record Email : Type 0 where
  pub id : Text
  pub subject : Text
  pub from' : Text
  pub date : Time
  pub body : Text

-- `base64.URLEncoding.DecodeString` and `time.Parse(time.RFC1123Z, ...)`.
pub record Decoders : Type 0 where
  pub base64 : Text → Option Text
  pub rfc1123z : Text → Option Time

abbrev pub or_old {ℓ} : {A : Type ℓ} → A → Option A → A
or_old a none = a
or_old a (some b) = b

-- One header.
abbrev pub set_header : Decoders → Email → Header → Email
set_header d e h =
    if eqt h.name (codes "Subject")
    then record e { subject = h.value }
    else if eqt h.name (codes "From")
    then record e { from' = h.value }
    else if eqt h.name (codes "Date")
    then record e { date = or_old e.date (d.rfc1123z h.value) }
    else e

abbrev pub set_headers : Decoders → Email → List Header → Email
set_headers d e [] = e
set_headers d e (h ∷ hs) = set_headers d (set_header d e h) hs

-- The text of a part: none where the part is passed over.
abbrev pub body_text : Decoders → Text → Option Text → Option Text
body_text d mime none = none
body_text d mime (some data') =
    if eqt mime (codes "text/plain") && not (is_empty data') then d.base64 data' else none

abbrev pub part_text : Decoders → Option Part → Option Text
part_text d none = none
part_text d (some p) = body_text d p.mime_type p.body

abbrev pub or_next {ℓ} : {A : Type ℓ} → Option A → Option A → Option A
or_next none next = next
or_next (some a) next = some a

-- The loop over the parts, which ends at the first text.
abbrev pub first_text : Decoders → List (Option Part) → Option Text
first_text d [] = none
first_text d (p ∷ ps) = or_next (part_text d p) (first_text d ps)

abbrev pub find_body : Decoders → Payload → Option Text
find_body d p = if not (is_empty p.body) then d.base64 p.body else first_text d p.parts

abbrev pub new_email : Text → Email
new_email id = record { id = id; subject = []; from' = []; date = 0; body = [] }

abbrev pub with_body : Decoders → Payload → Email → Email
with_body d p e = record e { body = or_old e.body (find_body d p) }

abbrev pub parse_payload : Decoders → Text → Option Payload → Option Email
parse_payload d id none = none
parse_payload d id (some p) = some (with_body d p (set_headers d (new_email id) p.headers))

-- `parseEmail`; none is its error.
unfoldable pub parse_email : Decoders → Message → Option Email
parse_email d m = parse_payload d m.id m.payload

-- What the program uses of the Gmail API, over the states `M` of a mailbox: the ids of the unread
-- mails, a mail with its contents, and the removal of the label UNREAD. Each call may fail.
pub record Gmail (M : Type 0) : Type 0 where
  pub list_unread : M → M × Option (List Text)
  pub get_full : M → Text → M × Option Message
  pub remove_unread : M → Text → M × Bool
  -- A mail of the mailbox has the label UNREAD.
  pub is_unread : M → Text → Bool
  -- Reading changes no label.
  pub unread-list : (m : M) (i : Text) → is_unread (list_unread m).0 i ≡ is_unread m i
  pub unread-get : (m : M) (i j : Text) → is_unread (get_full m j).0 i ≡ is_unread m i
  -- A removal that succeeds takes the label away, and no removal gives it to a mail.
  pub unread-removed :
      (m : M) (i : Text) → (remove_unread m i).1 ≡ true → is_unread (remove_unread m i).0 i ≡ false
  pub unread-other :
      (m : M) (i j : Text) → is_unread m i ≡ false → is_unread (remove_unread m j).0 i ≡ false

abbrev pub cons_some {ℓ} : {A : Type ℓ} → Option A → List A → List A
cons_some none xs = xs
cons_some (some x) xs = x ∷ xs

module _ {M : Type 0} where
  -- A mail that was parsed is marked as read, and a failure of that is logged only.
  abbrev pub mark_read : Gmail M → M → Text → Option Email → M × Option Email
  mark_read g m id none = (m, none)
  mark_read g m id (some e) = ((g.remove_unread m id).0, some e)

  abbrev pub handle_message : Decoders → Gmail M → M × Option Message → M × Option Email
  handle_message d g (m, none) = (m, none)
  handle_message d g (m, some x) = mark_read g m x.id (parse_email d x)

  -- The loop over the ids.
  unfoldable pub fetch_loop : Decoders → Gmail M → M → List Text → M × List Email
  fetch_loop d g m [] = (m, [])
  fetch_loop d g m (i ∷ is) =
      let (m', e) = handle_message d g (g.get_full m i) in
      let (m'', es) = fetch_loop d g m' is in (m'', cons_some e es)

  abbrev pub fetch_listed : Decoders → Gmail M → M × Option (List Text) → M × Option (List Email)
  fetch_listed d g (m, none) = (m, none)
  fetch_listed d g (m, some is) = let (m', es) = fetch_loop d g m is in (m', some es)

  -- `FetchUnreadEmails`.
  unfoldable pub fetch_unread_emails : Decoders → Gmail M → M → M × Option (List Email)
  fetch_unread_emails d g m = fetch_listed d g (g.list_unread m)
