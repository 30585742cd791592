-- ===== src/Auth/OAuth/Callback.antt =====
-- What a callback that succeeds has checked, used up and stored.
use gmaildigest_go.Prelude.{
  ◌≡◌, refl, ap, subst, Bool, true, false, Option, some, none, arith, if◌then◌else◌, if_pos,
}
use mathlib.Core.Option.{some-injective}
use gmaildigest_go.Prelude.Text.{Text, text_dec, is_empty}
use gmaildigest_go.Prelude.Maps.{lookup, delete, lookup-delete}
use gmaildigest_go.Prelude.Results.{Result, ok, err}
use gmaildigest_go.Auth.Stores.{
  AuthError, InMemoryStateStore, validate_state, delete_state, get_verifier, is_state,
  take_verifier, invalid_state,
}
use gmaildigest_go.Auth.OAuth.{
  Token, Storage, Provider, OAuthManager, Outcome, exchange_with, keep_token, finish_callback,
  callback_verified, forget_state, callback_validated, handle_callback,
}

-- A callback that succeeded: the state was the one stored for the user and had a verifier, the code
-- was exchanged with it, neither can be used again, and the token is the user's.
pub record Authorized {S : Type 0} (st : Storage S) (p : Provider) (code state user : Text)
    (m m' : OAuthManager S) : Type 0 where
  pub verifier : Text
  pub token : Token
  pub expected : lookup user m.state_store ≡ some state
  pub known : lookup state m.pkce_store ≡ some verifier
  pub exchanged : exchange_with p m.config m.token_source code verifier ≡ some (ok token)
  pub state_used : lookup user m'.state_store ≡ none
  pub verifier_used : lookup state m'.pkce_store ≡ none
  pub kept : st.get_token m'.storage user ≡ ok (some token)

lookup-delete_same : (k : Text) (m : InMemoryStateStore) → lookup k (delete k m) ≡ none
lookup-delete_same k m = rw (lookup-delete k k m, if_pos (text_dec k k) refl) refl

validate_state-true :
    (s : InMemoryStateStore) (user state : Text) {ss : InMemoryStateStore}
    → validate_state s user state ≡ (ss, true)
    → lookup user s ≡ some state
unfolding validate_state
validate_state-true s user state {ss} h = from (lookup user s) h
  where
    from :
        (o : Option Text)
        → ◌≡◌ {A = InMemoryStateStore × Bool}
            (if is_state o state then (delete user s, true) else (s, false))
            (ss, true)
        → o ≡ some state
    from none g = absurd (cc)
    from (some x) g = ground arith

module _ {S : Type 0} where
  pub if_ok :
      (b : Bool) (m : OAuthManager S) (e : AuthError) (o : Outcome S (Unit {0}))
      {u : OAuthManager S}
      → (if b then some (m, err e) else o) ≡ some (u, ok tt)
      → o ≡ some (u, ok tt)
  if_ok true m e o h = absurd (cc)
  if_ok false m e o h = h

  handle_callback-valid :
      (st : Storage S) (p : Provider) (m : OAuthManager S) (code state user : Text)
      {u : OAuthManager S}
      → handle_callback st p m code state user ≡ some (u, ok tt)
      → callback_validated st p m code state user (validate_state m.state_store user state)
        ≡ some (u, ok tt)
  unfolding handle_callback
  handle_callback-valid st p m code state user h =
      if_ok (is_empty user) m _ _ (if_ok (is_empty state) m _ _ (if_ok (is_empty code) m _ _ h))

  forget_state-eq :
      (user : Text) (o : Outcome S (Unit {0})) {u : OAuthManager S}
      → forget_state user o ≡ some (u, ok tt)
      → (v : OAuthManager S) × (o ≡ some (v, ok tt))
        × (u ≡ record v { state_store = delete_state v.state_store user })
  forget_state-eq user none h = absurd (cc)
  forget_state-eq user (some (v, ok tt)) h = (v, refl, ground arith)
  forget_state-eq user (some (v, err e)) h = absurd (cc)

  pub keep_token-eq :
      (st : Storage S) (m : OAuthManager S) (user : Text) (t : Token) {u : OAuthManager S}
      → keep_token m (st.store_token m.storage user t) ≡ (u, ok tt)
      → (u ≡ record m { storage = u.storage }) × (st.get_token u.storage user ≡ ok (some t))
  keep_token-eq st m user t {u} h = from (st.store_token m.storage user t) refl h
    where
      from :
          (r : S × Option Text)
          → st.store_token m.storage user t ≡ r
          → keep_token m r ≡ (u, ok tt)
          → (u ≡ record m { storage = u.storage }) × (st.get_token u.storage user ≡ ok (some t))
      from (s, none) e g =
          let same : record m { storage = s } ≡ u = ap (λ r. r.0) g in
          (
            subst (λ v. v ≡ record m { storage = v.storage }) same refl,
            subst (λ v. st.get_token v.storage user ≡ ok (some t)) same
                (rw e at (st.get-store_token m.storage user t (ap (λ r. r.1) e))),
          )
      from (s, some x) e g = absurd (cc)

  -- The part of a callback after the state was accepted.
  record Finished (st : Storage S) (p : Provider) (code state user : Text) (m u : OAuthManager S)
      : Type 0 where
    verifier : Text
    token : Token
    known : lookup state m.pkce_store ≡ some verifier
    exchanged : exchange_with p m.config m.token_source code verifier ≡ some (ok token)
    verifiers : u.pkce_store ≡ delete state m.pkce_store
    kept : st.get_token u.storage user ≡ ok (some token)

  callback_verified-Finished :
      (st : Storage S) (p : Provider) (m : OAuthManager S) (code state user : Text)
      {u : OAuthManager S}
      → callback_verified st p m code user (get_verifier m.pkce_store state) ≡ some (u, ok tt)
      → Finished st p code state user m u
  unfolding get_verifier
  callback_verified-Finished st p m code state user {u} h = from (lookup state m.pkce_store) refl h
    where
      exchange :
          (v : Text) (o : Option (Result AuthError Token))
          → lookup state m.pkce_store ≡ some v
          → exchange_with p m.config m.token_source code v ≡ o
          → finish_callback st (record m { pkce_store = delete state m.pkce_store }) user o
            ≡ some (u, ok tt)
          → Finished st p code state user m u
      exchange v none a e g = absurd (cc)
      exchange v (some (err x)) a e g = absurd (cc)
      exchange v (some (ok t)) a e g =
          let (same, got) =
            keep_token-eq st (record m { pkce_store = delete state m.pkce_store }) user t
              (some-injective _ _ g) in
          record {
            verifier = v;
            token = t;
            known = a;
            exchanged = e;
            verifiers = ap (λ x. x.pkce_store) same;
            kept = got;
          }

      from :
          (o : Option Text)
          → lookup state m.pkce_store ≡ o
          → callback_verified st p m code user (take_verifier m.pkce_store state o)
            ≡ some (u, ok tt)
          → Finished st p code state user m u
      from none e g = absurd (cc)
      from (some v) e g = exchange v (exchange_with p m.config m.token_source code v) e refl g

  -- A callback that succeeds had the state that was stored for the user and a verifier that was
  -- stored for the state; it exchanged the code with that verifier, removed both, and stored the
  -- token it got for the user.
  pub handle_callback-ok :
      (st : Storage S) (p : Provider) (m u : OAuthManager S) (code state user : Text)
      → handle_callback st p m code state user ≡ some (u, ok tt)
      → Authorized st p code state user m u
  handle_callback-ok st p m u code state user h =
      from (validate_state m.state_store user state) refl
        (handle_callback-valid st p m code state user h)
    where
      from :
          (r : InMemoryStateStore × Bool)
          → validate_state m.state_store user state ≡ r
          → callback_validated st p m code state user r ≡ some (u, ok tt)
          → Authorized st p code state user m u
      from (ss, false) e g = absurd (cc)
      from (ss, true) e g =
          let (v, done, same) = forget_state-eq user _ g in
          let f =
            callback_verified-Finished st p (record m { state_store = ss }) code state user done in
          record {
            verifier = f.verifier;
            token = f.token;
            expected = validate_state-true m.state_store user state e;
            known = f.known;
            exchanged = f.exchanged;
            state_used =
                rw (ap (λ x. x.state_store) same)
                  (unfold delete_state in lookup-delete_same user v.state_store);
            verifier_used =
                rw (ap (λ x. x.pkce_store) same, f.verifiers)
                  (lookup-delete_same state m.pkce_store);
            kept = rw (ap (λ x. x.storage) same) f.kept;
          }

-- A callback is not replayed: after one that succeeded, every callback for the same user with a code
-- and a state is refused for its state, and changes nothing.
pub handle_callback-twice :
    {S : Type 0} (st : Storage S) (p : Provider) (m u : OAuthManager S)
    (code state user code' state' : Text)
    → handle_callback st p m code state user ≡ some (u, ok tt)
    → is_empty code' ≡ false
    → is_empty state' ≡ false
    → is_empty user ≡ false
    → handle_callback st p u code' state' user ≡ some (u, err invalid_state)
unfolding handle_callback validate_state
handle_callback-twice st p m u code state user code' state' h c s n =
    rw (c, s, n, (handle_callback-ok st p m u code state user h).state_used) refl
