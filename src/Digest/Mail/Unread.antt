-- ===== src/Digest/Mail/Unread.antt =====
-- Mails that are fetched are read.
use gmaildigest_go.Prelude.{
  ◌≡◌, refl, ◌∙◌, sym, ap, Bool, true, false, List, [], ◌∷◌, Option, none, some, any, arith,
}
use gmaildigest_go.Prelude.Text.{Text}
use gmaildigest_go.Digest.Mail.{
  Decoders, Gmail, Header, Payload, Message, Email, set_header, set_headers, new_email, with_body,
  parse_payload, parse_email, mark_read, handle_message, cons_some, fetch_loop, fetch_listed,
  fetch_unread_emails,
}

set_header-id : (d : Decoders) (e : Email) (h : Header) → (set_header d e h).id ≡ e.id
set_header-id d e h = ground arith

set_headers-id : (d : Decoders) (e : Email) (hs : List Header) → (set_headers d e hs).id ≡ e.id
set_headers-id d e [] = refl
set_headers-id d e (h ∷ hs) = set_headers-id d (set_header d e h) hs ∙ set_header-id d e h

-- A mail keeps its id.
parse_email-id : (d : Decoders) (x : Message) {e : Email} → parse_email d x ≡ some e → e.id ≡ x.id
unfolding parse_email
parse_email-id d x {e} h = from x.payload h
  where
    from : (p : Option Payload) → parse_payload d x.id p ≡ some e → e.id ≡ x.id
    from none k = absurd (cc)
    from (some p) k =
        let same : with_body d p (set_headers d (new_email x.id) p.headers) ≡ e = ground arith in
        ap (λ e. e.id) (sym same) ∙ set_headers-id d (new_email x.id) p.headers

-- Every removal of the label succeeds.
abbrev pub Removes : (M : Type 0) → Gmail M → Type 0
Removes M g = (m : M) (i : Text) → (g.remove_unread m i).1 ≡ true

module _ {M : Type 0} (d : Decoders) (g : Gmail M) where
  mark_read-unread :
      (m : M) (x i : Text) (o : Option Email)
      → g.is_unread m i ≡ false
      → g.is_unread (mark_read g m x o).0 i ≡ false
  mark_read-unread m x i none h = h
  mark_read-unread m x i (some e) h = g.unread-other m i x h

  handle_message-unread :
      (m : M) (i : Text) (o : Option Message)
      → g.is_unread m i ≡ false
      → g.is_unread (handle_message d g (m, o)).0 i ≡ false
  handle_message-unread m i none h = h
  handle_message-unread m i (some x) h = mark_read-unread m x.id i (parse_email d x) h

  -- What is read stays so.
  fetch_loop-unread :
      (m : M) (is : List Text) (i : Text)
      → g.is_unread m i ≡ false
      → g.is_unread (fetch_loop d g m is).0 i ≡ false
  unfolding fetch_loop
  fetch_loop-unread m [] i h = h
  fetch_loop-unread m (x ∷ is) i h =
      fetch_loop-unread (handle_message d g (g.get_full m x)).0 is i
        (handle_message-unread (g.get_full m x).0 i (g.get_full m x).1 (g.unread-get m i x ∙ h))

  -- The mail that a message gives is read.
  handled_read :
      (m : M) (o : Option Message) {e : Email}
      → Removes M g
      → (handle_message d g (m, o)).1 ≡ some e
      → g.is_unread (handle_message d g (m, o)).0 e.id ≡ false
  handled_read m none r h = absurd (cc)
  handled_read m (some x) {e} r h = from (parse_email d x) refl h
    where
      from :
          (o : Option Email)
          → parse_email d x ≡ o
          → (mark_read g m x.id o).1 ≡ some e
          → g.is_unread (mark_read g m x.id o).0 e.id ≡ false
      from none k l = absurd (cc)
      from (some f) k l =
          let same : f ≡ e = ground arith in
          rw (← same, parse_email-id d x k) (g.unread-removed m x.id (r m x.id))

  abbrev pub unread_of : M → List Email → Bool
  unread_of m es = any (λ e. g.is_unread m e.id) es

  cons_some-read :
      (m : M) (o : Option Email) (es : List Email)
      → ((e : Email) → o ≡ some e → g.is_unread m e.id ≡ false)
      → unread_of m es ≡ false
      → unread_of m (cons_some o es) ≡ false
  cons_some-read m none es h k = k
  cons_some-read m (some e) es h k = rw (h e refl) k

  fetch_loop-read :
      (m : M) (is : List Text)
      → Removes M g
      → unread_of (fetch_loop d g m is).0 (fetch_loop d g m is).1 ≡ false
  unfolding fetch_loop
  fetch_loop-read m [] r = refl
  fetch_loop-read m (x ∷ is) r =
      let next = (handle_message d g (g.get_full m x)).0 in
      cons_some-read _ _ _
        (λ e k.
          fetch_loop-unread next is e.id (handled_read (g.get_full m x).0 (g.get_full m x).1 r k))
        (fetch_loop-read next is r)

  -- The mails that are returned are read.
  pub fetch_unread_emails-read :
      (m : M) {m' : M} {es : List Email}
      → Removes M g
      → fetch_unread_emails d g m ≡ (m', some es)
      → unread_of m' es ≡ false
  unfolding fetch_unread_emails
  fetch_unread_emails-read m {m'} {es} r h = from (g.list_unread m).1 h
    where
      from :
          (o : Option (List Text))
          → fetch_listed d g ((g.list_unread m).0, o) ≡ (m', some es)
          → unread_of m' es ≡ false
      from none k = absurd (cc)
      from (some is) k =
          let left : (fetch_loop d g (g.list_unread m).0 is).0 ≡ m' = ap (λ t. t.0) k in
          let right : (fetch_loop d g (g.list_unread m).0 is).1 ≡ es = cc in
          rw (← left, ← right) (fetch_loop-read (g.list_unread m).0 is r)
