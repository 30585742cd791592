-- ===== src/Tests/Session.antt =====
-- Sessions, and requests that carry them, with an encoder that keeps the bytes.
use gmaildigest_go.Prelude.{◌≡◌, ◌↔◌, refl, List, [], ◌∷◌, some}
use gmaildigest_go.Prelude.Int.{pos}
use gmaildigest_go.Prelude.Text.{Text, codes, text_dec}
use gmaildigest_go.Prelude.Maps.{lookup, insert, delete}
use gmaildigest_go.Prelude.Results.{ok, err}
use gmaildigest_go.Session.Store.{create, get, delete_session, expired, not_found}
use gmaildigest_go.App.Middleware.{require_auth, served, SignedIn, require_auth_lem}
use gmaildigest_go.Session.Granted.{SessionCall, creates, deletes, run}

abbrev plain : Text → Text
plain b = b

-- Two sessions, the first deleted afterwards; the latest call stands first.
abbrev history : List SessionCall
history =
    deletes (codes "a")
    ∷ creates (some (codes "b")) 20 (codes "bob") (pos 50)
    ∷ creates (some (codes "a")) 10 (codes "ann") (pos 60)
    ∷ []

bob_signed_in : get 70 (run plain history) (codes "b") ≡ ok (codes "bob")
unfolding run create delete_session get lookup insert delete text_dec
bob_signed_in = refl

bob_expired : get 71 (run plain history) (codes "b") ≡ err expired
unfolding run create delete_session get lookup insert delete text_dec
bob_expired = refl

ann_signed_out : get 30 (run plain history) (codes "a") ≡ err not_found
unfolding run create delete_session get lookup insert delete text_dec
ann_signed_out = refl

require_auth_lem_example :
    (require_auth 70 (run plain history) (some (codes "b")) ≡ served (codes "bob"))
    ↔ SignedIn plain history 70 (some (codes "b")) (codes "bob")
require_auth_lem_example = require_auth_lem plain history 70 (some (codes "b")) (codes "bob")

bob_served : require_auth 70 (run plain history) (some (codes "b")) ≡ served (codes "bob")
unfolding require_auth run create delete_session get lookup insert delete text_dec
bob_served = refl
