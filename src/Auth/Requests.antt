-- ===== src/Auth/Requests.antt =====
-- What a request needs to reach its handler: `Require`, `RequireSession` and the plain session
-- handlers of backend/internal/auth/service.go.
use drishti_server_migration.Base.{
  ℕ, String, Bool, true, not, ◌&&◌, Option, none, some, List, Error, Result, ok, err, Eff, ◌==◌,
  if◌then◌else◌,
}
use drishti_server_migration.Access.{Action, User, can}
use drishti_server_migration.Auth.{ManagedUser, Session, Accounts, Security}
use drishti_server_migration.Auth.Sessions.{login, authenticate, delete_session}

pub data ReplyBody : Type 0 where
  no_body : ReplyBody
  -- `{"error": ...}` with a `"code"` or none
  failed : String → String → ReplyBody
  session_body : User → String → ReplyBody
  users_body : List ManagedUser → ReplyBody
  user_body : ManagedUser → ReplyBody

pub data Cookie : Type 0 where
  untouched cleared : Cookie
  set_to : String → Cookie

pub record AuthReply : Type 0 where
  pub status : ℕ
  pub body : ReplyBody
  pub cookie : Cookie

-- What a handler of this package reads of a request.
pub record AuthRequest : Type 0 where
  pub method : String
  pub cookie : Option String
  pub csrf_header : String

abbrev pub Handler : Type 0 → Type 0
Handler X = Accounts X → AuthReply × Accounts X

module _ {X : Type 0} where
  abbrev pub answer : ℕ → ReplyBody → Handler X
  answer status body a = (record { status = status; body = body; cookie = untouched }, a)

  abbrev pub refuse : ℕ → String → String → Handler X
  refuse status text code = answer status (failed text code)

  -- `if err != nil { ...; return }`, and what follows.
  abbrev pub resume : {A : Type 0} → (Error → Handler X) → (A → Handler X) → Result A → Handler X
  resume fail go (ok x) = go x
  resume fail go (err e) = fail e

  abbrev pub handle :
      {A : Type 0} → Eff (Accounts X) A → (Error → Handler X) → (A → Handler X) → Handler X
  handle m fail go a = let (r, a') = m a in resume fail go r a'

abbrev pub is_safe_method : String → Bool
is_safe_method m = if m == "GET" then true else if m == "HEAD" then true else m == "OPTIONS"

module _ {X : Type 0} (s : Security X) where
  -- `!ok` after `authenticate`, which has no error.
  abbrev pub by_session :
      Handler X
      → (Session → Handler X)
      → Result (Option Session) × Accounts X
      → AuthReply × Accounts X
  by_session stranger go (err e, a) = stranger a
  by_session stranger go (ok none, a) = stranger a
  by_session stranger go (ok (some sess), a) = go sess a

  abbrev pub with_session : Option String → Handler X → (Session → Handler X) → Handler X
  with_session cookie stranger go a = by_session stranger go (authenticate s cookie a)

  abbrev pub unauthorized : Handler X
  unauthorized = refuse 401 "authentication required" "unauthorized"

  abbrev pub permitted : Option Action → User → Bool
  permitted none user = true
  permitted (some action) user = can user action

  -- The checks of `require` that follow the session's.
  unfoldable pub check_request :
      Option Action → AuthRequest → (User → Handler X) → Session → Handler X
  check_request action req next sess =
      if not (is_safe_method req.method) && not (req.csrf_header == sess.csrf_token)
      then refuse 403 "invalid CSRF token" "csrf_failed"
      else if not (permitted action sess.user)
      then refuse 403 "permission denied" "forbidden"
      else next sess.user

  unfoldable pub require : Option Action → AuthRequest → (User → Handler X) → Handler X
  unfolding check_request authenticate
  require action req next = with_session req.cookie unauthorized (check_request action req next)

  -- `none` is a body that does not decode.
  unfoldable pub login_handler : Option (String × String) → Handler X
  unfolding login
  login_handler none = refuse 400 "invalid request" ""
  login_handler (some (username, password)) =
      handle (login s username password) (λ _. refuse 401 "invalid credentials" "")
        λ opened a.
          let (raw, csrf, user) = opened in
          (record { status = 200; body = session_body user csrf; cookie = set_to raw }, a)

  unfoldable pub session_handler : AuthRequest → Handler X
  unfolding authenticate
  session_handler req =
      with_session req.cookie unauthorized
        λ sess. answer 200 (session_body sess.user sess.csrf_token)

  abbrev logged_out : Handler X
  logged_out a = (record { status = 204; body = no_body; cookie = cleared }, a)

  abbrev raw_of : Option String → String
  raw_of none = ""
  raw_of (some raw) = raw

  unfoldable pub logout_handler : AuthRequest → Handler X
  unfolding authenticate delete_session
  logout_handler req =
      with_session req.cookie logged_out
        λ sess. handle (delete_session s (raw_of req.cookie)) (λ _. logged_out) λ _. logged_out
