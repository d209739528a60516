-- ===== src/Safety.antt =====
-- The mutation policy of backend/internal/safety/mutations.go, which the real adapters ask before they
-- change a platform. The functions of `strings`, `net/url` and `net` that it calls are arguments.
pub mod Denials
mod Examples
use drishti_server_migration.Base.{
  String, append, Bool, true, false, not, ◌&&◌, ◌||◌, Option, none, some, List, [], ◌∷◌, Error,
  errorf, new_error, wrap, str, Result, ok, err, ◌==◌, if◌then◌else◌,
}
use drishti_server_migration.Api.Executions.{RunMode, mock, lab, live, production}

pub record MutationPolicy : Type 0 where
  pub mode : RunMode
  pub enabled : Bool
  pub denylist : List String

-- What the code reads of a `url.URL`.
pub record Url : Type 0 where
  pub hostname : String
  pub port : String
  pub has_user : Bool

pub record Net : Type 0 where
  -- `strings.TrimSpace`, `strings.Contains`, `strings.ToLower`, `strings.TrimSuffix`,
  -- `strings.EqualFold`
  pub trim_space : String → String
  pub contains : String → String → Bool
  pub to_lower : String → String
  pub trim_suffix : String → String → String
  pub equal_fold : String → String → Bool
  -- `url.Parse`, where it has no error
  pub parse_url : String → Option Url
  -- `net.ParseIP`, with the address as `String` prints it
  pub parse_ip : String → Option String

abbrev pub mode_name : RunMode → String
mode_name mock = "mock"
mode_name lab = "lab"
mode_name live = "live"
mode_name production = "production"

abbrev pub may_mutate : RunMode → Bool
may_mutate lab = true
may_mutate live = true
may_mutate _ = false

module _ (net : Net) where
  abbrev pub printed_host : String → Option String → String
  printed_host host none = host
  printed_host host (some address) = address

  abbrev pub host_of_url : Url → String
  host_of_url u =
      let host = net.trim_suffix (net.to_lower u.hostname) "." in
      printed_host host (net.parse_ip host)

  abbrev pub identity_of_url : Option Url → Result (String × String)
  identity_of_url none = err (new_error "invalid platform endpoint")
  identity_of_url (some u) =
      if u.hostname == "" || u.has_user
      then err (new_error "invalid platform endpoint")
      else ok (host_of_url u, u.port)

  abbrev pub with_scheme : String → String
  with_scheme value = if net.contains value "://" then value else append "https://" value

  -- `endpointIdentity`
  unfoldable pub endpoint_identity : String → Result (String × String)
  endpoint_identity raw =
      let value = net.trim_space raw in
      if value == ""
      then err (new_error "empty platform endpoint")
      else identity_of_url (net.parse_url (with_scheme value))

  -- An entry without a port denies every port of its host.
  abbrev pub matches : String × String → String × String → Bool
  matches (host, port) (denied, denied_port) =
      net.equal_fold host denied && (denied_port == "" || port == denied_port)

  abbrev pub denied_by :
      String × String → Result (String × String) → Result (Unit {0}) → Result (Unit {0})
  denied_by place (err e) rest = err (wrap "invalid mutation denylist entry" [] e)
  denied_by place (ok denied) rest =
      if matches place denied
      then err (new_error "platform mutation endpoint is denylisted")
      else rest

  -- The loop over the denylist.
  unfoldable pub check_denylist : String × String → List String → Result (Unit {0})
  unfolding endpoint_identity
  check_denylist place [] = ok tt
  check_denylist place (d ∷ ds) = denied_by place (endpoint_identity d) (check_denylist place ds)

  abbrev pub check_place : List String → Result (String × String) → Result (Unit {0})
  check_place denylist (err e) = err e
  check_place denylist (ok place) = check_denylist place denylist

  -- `Authorize`
  unfoldable pub authorize : MutationPolicy → String → Result (Unit {0})
  unfolding check_denylist endpoint_identity
  authorize policy endpoint =
      if not (may_mutate policy.mode)
      then err
          (errorf "platform mutation is prohibited in %s mode" (str (mode_name policy.mode) ∷ []))
      else if not policy.enabled
      then err (new_error "platform mutation requires DRISHTI_ENABLE_PLATFORM_MUTATION=true")
      else check_place policy.denylist (endpoint_identity endpoint)
