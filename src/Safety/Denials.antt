-- ===== src/Safety/Denials.antt =====
-- When a change of a platform is authorized.
use mathlib.Core.Path.{subst}
use drishti_server_migration.Base.{
  String, append, true, false, ◌||◌, Option, none, some, List, [], ◌∷◌, All, Result, ok, err, ◌==◌,
  eq_iff, ◌≡◌, ◌↔◌, ◌⊎◌, ◌∙◌, ap, sym, refl, arith, Bool-cases, inl, inr,
}
use drishti_server_migration.Api.Executions.{RunMode, lab, live}
use drishti_server_migration.Safety.{
  MutationPolicy, Url, Net, may_mutate, printed_host, host_of_url, identity_of_url, with_scheme,
  endpoint_identity, matches, denied_by, check_denylist, check_place, authorize,
}

module _ (net : Net) where
  -- The host that a lower-case name without its last dot stands for: an address as it is printed, and
  -- the name itself where it is none.
  abbrev pub IsHost : String → String → Type 0
  IsHost name host = (net.parse_ip name ≡ some host) ⊎ ((net.parse_ip name ≡ none) × (host ≡ name))

  -- The endpoint stands for the host and the port: it is not blank, and, with `https://` before it
  -- where it has no scheme, it is a URL with a host and with no user.
  pub record IsPlace (raw host port : String) : Type 0 where
    pub url : Url
    pub text : String
    pub not_blank : ¬ (net.trim_space raw ≡ "")
    pub schemed :
        ((net.contains (net.trim_space raw) "://" ≡ true) × (text ≡ net.trim_space raw))
        ⊎ ((net.contains (net.trim_space raw) "://" ≡ false)
            × (text ≡ append "https://" (net.trim_space raw)))
    pub parsed : net.parse_url text ≡ some url
    pub has_host : ¬ (url.hostname ≡ "")
    pub no_user : url.has_user ≡ false
    pub host_named : IsHost (net.trim_suffix (net.to_lower url.hostname) ".") host
    pub port_named : port ≡ url.port

  -- The entry stands for a place with another host, or for one port that is another.
  abbrev pub IsHarmless : String → String → String → Type 0
  IsHarmless host port entry =
      (denied : String) × (denied_port : String) × (IsPlace entry denied denied_port
        × ((net.equal_fold host denied ≡ false) ⊎ (¬ (denied_port ≡ "") × ¬ (port ≡ denied_port))))

  printed_host-IsHost :
      (name : String) (o : Option String)
      → net.parse_ip name ≡ o
      → IsHost name (printed_host net name o)
  printed_host-IsHost name none h = inr (h, refl)
  printed_host-IsHost name (some address) h = inl h

  scheme_by :
      (value : String)
      → ((net.contains value "://" ≡ true) × (with_scheme net value ≡ value))
        ⊎ ((net.contains value "://" ≡ false) × (with_scheme net value ≡ append "https://" value))
  scheme_by value = elim (Bool-cases (net.contains value "://")) [
    | inl has ↦ inl (has, ground (arith, has))
    | inr has_none ↦ inr (has_none, ground (arith, has_none))
  ]

  -- What an endpoint that was read stands for.
  identity_of_url-IsPlace :
      (raw : String) (o : Option Url) (place : String × String)
      → ¬ (net.trim_space raw ≡ "")
      → net.parse_url (with_scheme net (net.trim_space raw)) ≡ o
      → identity_of_url net o ≡ ok place
      → IsPlace raw place.0 place.1
  identity_of_url-IsPlace raw none place blank parsed h = ground (arith, h)
  identity_of_url-IsPlace raw (some u) place blank parsed h =
      elim (Bool-cases (u.hostname == "" || u.has_user)) [
        | inl bad ↦ ground (arith, h, bad)
        | inr good ↦
            let named : host_of_url net u ≡ place.0 = ground (arith, h, good) in
            record {
              url = u;
              text = with_scheme net (net.trim_space raw);
              not_blank = blank;
              schemed = scheme_by (net.trim_space raw);
              parsed = parsed;
              has_host = ground (arith, good, eq_iff u.hostname "");
              no_user = ground (arith, good);
              host_named =
                  subst (IsHost (net.trim_suffix (net.to_lower u.hostname) ".")) named
                    (printed_host-IsHost _ _ refl);
              port_named = ground (arith, h, good);
            }
      ]

  endpoint_identity-IsPlace :
      (raw : String) (place : String × String)
      → endpoint_identity net raw ≡ ok place
      → IsPlace raw place.0 place.1
  unfolding endpoint_identity
  endpoint_identity-IsPlace raw place h = elim (Bool-cases (net.trim_space raw == "")) [
    | inl blank ↦ ground (arith, h, blank)
    | inr given ↦
        identity_of_url-IsPlace raw (net.parse_url (with_scheme net (net.trim_space raw))) place
          (ground (arith, given, eq_iff (net.trim_space raw) "")) refl (ground (arith, h, given))
  ]

  IsHost-unique :
      (name host : String) (o : Option String)
      → net.parse_ip name ≡ o
      → IsHost name host
      → printed_host net name o ≡ host
  IsHost-unique name host none e (inl h) = ground (arith, e, h)
  IsHost-unique name host none e (inr (_, same)) = sym same
  IsHost-unique name host (some address) e (inl h) = ground (arith, e, h)
  IsHost-unique name host (some address) e (inr (h, _)) = ground (arith, e, h)

  schemed_text :
      (value text : String)
      → ((net.contains value "://" ≡ true) × (text ≡ value))
        ⊎ ((net.contains value "://" ≡ false) × (text ≡ append "https://" value))
      → with_scheme net value ≡ text
  schemed_text value text (inl (has, e)) = ground (arith, has, e)
  schemed_text value text (inr (has_none, e)) = ground (arith, has_none, e)

  identity_of_some :
      (u : Url) (place : String × String)
      → (u.hostname == "") ≡ false
      → u.has_user ≡ false
      → host_of_url net u ≡ place.0
      → u.port ≡ place.1
      → identity_of_url net (some u) ≡ ok place
  identity_of_some u place hosted no_user named port =
      rw (hosted, no_user) λ i. ok (named i, port i)

  IsPlace-endpoint_identity :
      (raw host port : String) → IsPlace raw host port → endpoint_identity net raw ≡ ok (host, port)
  unfolding endpoint_identity
  IsPlace-endpoint_identity raw host port p =
      let u = p.url in
      let name = net.trim_suffix (net.to_lower u.hostname) "." in
      let found : net.parse_url (with_scheme net (net.trim_space raw)) ≡ some u =
        ap net.parse_url (schemed_text (net.trim_space raw) p.text p.schemed) ∙ p.parsed in
      let named = IsHost-unique name host (net.parse_ip name) refl p.host_named in
      let given : (net.trim_space raw == "") ≡ false =
        ground (arith, p.not_blank, eq_iff (net.trim_space raw) "") in
      let hosted : (u.hostname == "") ≡ false = ground (arith, p.has_host, eq_iff u.hostname "") in
      rw given (
        ap (identity_of_url net) found
        ∙ identity_of_some u (host, port) hosted p.no_user named (sym p.port_named))

  denied_by-IsHarmless :
      (host port d : String) (r : Result (String × String)) (rest : Result (Unit {0}))
      → endpoint_identity net d ≡ r
      → denied_by net (host, port) r rest ≡ ok tt
      → IsHarmless host port d × (rest ≡ ok tt)
  denied_by-IsHarmless host port d (err e) rest read h = ground (arith, h)
  denied_by-IsHarmless host port d (ok (denied, denied_port)) rest read h =
      elim (Bool-cases (matches net (host, port) (denied, denied_port))) [
        | inl hit ↦ ground (arith, h, hit)
        | inr miss ↦ (
          (
            denied,
            denied_port,
            (
              endpoint_identity-IsPlace d (denied, denied_port) read,
              ground (arith, miss, eq_iff denied_port "", eq_iff port denied_port),
            ),
          ),
          ground (arith, h, miss),
        )
      ]

  pass_harmless :
      (host port d : String) (rest : Result (Unit {0}))
      → IsHarmless host port d
      → denied_by net (host, port) (endpoint_identity net d) rest ≡ rest
  pass_harmless host port d rest (denied, denied_port, (place, miss)) =
      let missed : matches net (host, port) (denied, denied_port) ≡ false =
        ground (arith, miss, eq_iff denied_port "", eq_iff port denied_port) in
      ap (λ r. denied_by net (host, port) r rest)
        (IsPlace-endpoint_identity d denied denied_port place)
      ∙ rw missed refl

  check_denylist_iff :
      (host port : String) (ds : List String)
      → (check_denylist net (host, port) ds ≡ ok tt) ↔ All (IsHarmless host port) ds
  unfolding check_denylist
  check_denylist_iff host port [] = (λ h. tt, λ h. refl)
  check_denylist_iff host port (d ∷ ds) = (
    λ h.
        let (here, later) =
          denied_by-IsHarmless host port d (endpoint_identity net d)
            (check_denylist net (host, port) ds) refl h in
        (here, (check_denylist_iff host port ds).0 later),
    λ (here, later).
        pass_harmless host port d (check_denylist net (host, port) ds) here
        ∙ (check_denylist_iff host port ds).1 later,
  )

  -- The endpoint stands for a place, and no entry of the list denies it.
  abbrev pub IsFree : List String → String → Type 0
  IsFree denylist endpoint =
      (host : String) × (port : String) × (IsPlace endpoint host port
        × All (IsHarmless host port) denylist)

  check_place-IsFree :
      (endpoint : String) (ds : List String) (r : Result (String × String))
      → endpoint_identity net endpoint ≡ r
      → check_place net ds r ≡ ok tt
      → IsFree ds endpoint
  check_place-IsFree endpoint ds (err e) read h = ground (arith, h)
  check_place-IsFree endpoint ds (ok (host, port)) read h = (
    host,
    port,
    (endpoint_identity-IsPlace endpoint (host, port) read, (check_denylist_iff host port ds).0 h),
  )

  free_place :
      (endpoint : String) (ds : List String)
      → IsFree ds endpoint
      → check_place net ds (endpoint_identity net endpoint) ≡ ok tt
  free_place endpoint ds (host, port, (place, harmless)) =
      ap (check_place net ds) (IsPlace-endpoint_identity endpoint host port place)
      ∙ (check_denylist_iff host port ds).1 harmless

  may_mutate_iff : (mode : RunMode) → (may_mutate mode ≡ true) ↔ ((mode ≡ lab) ⊎ (mode ≡ live))
  may_mutate_iff mode = ground arith

  authorized :
      (policy : MutationPolicy) (endpoint : String)
      → (authorize net policy endpoint ≡ ok tt) ↔ (
          (may_mutate policy.mode ≡ true)
          × (policy.enabled ≡ true)
          × (check_place net policy.denylist (endpoint_identity net endpoint) ≡ ok tt))
  unfolding authorize
  authorized policy endpoint = ground arith

  -- A change of a platform is authorized exactly in lab or live mode, when it is enabled, for an endpoint
  -- that stands for a host and a port, and when every entry of the denylist stands for a place too, which
  -- has another host, or names a port that is another: a blank or unreadable endpoint or entry denies.
  pub authorize_iff :
      (policy : MutationPolicy) (endpoint : String)
      → (authorize net policy endpoint ≡ ok tt) ↔ (
          ((policy.mode ≡ lab) ⊎ (policy.mode ≡ live))
          × (policy.enabled ≡ true)
          × IsFree policy.denylist endpoint)
  authorize_iff policy endpoint = (
    λ h.
        let (mode, enabled, checked) = (authorized policy endpoint).0 h in
        (
          (may_mutate_iff policy.mode).0 mode,
          enabled,
          check_place-IsFree endpoint policy.denylist (endpoint_identity net endpoint) refl checked,
        ),
    λ (mode, enabled, free).
        (authorized policy endpoint).1
          ((may_mutate_iff policy.mode).1 mode, enabled, free_place endpoint policy.denylist free),
  )
