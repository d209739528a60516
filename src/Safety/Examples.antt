-- ===== src/Safety/Examples.antt =====
-- A policy in lab mode with one denied host.
use drishti_server_migration.Base.{true, false, none, some, [], ◌∷◌, ok, ◌==◌, ◌≡◌, ◌⊎◌, refl}
use drishti_server_migration.Api.Executions.{lab, live}
use drishti_server_migration.Safety.{MutationPolicy, Net, authorize}
use drishti_server_migration.Safety.Denials.{IsFree, authorize_iff}

-- Every text is a URL whose host it is, with the standard port.
abbrev net : Net
net = record {
  trim_space = λ s. s;
  contains = λ s t. true;
  to_lower = λ s. s;
  trim_suffix = λ s t. s;
  equal_fold = λ s t. s == t;
  parse_url = λ s. some (record { hostname = s; port = "443"; has_user = false });
  parse_ip = λ s. none;
}

abbrev policy : MutationPolicy
policy = record { mode = lab; enabled = true; denylist = "vcenter.example.org" ∷ [] }

allowed : authorize net policy "pve1.example.org" ≡ ok tt
unfolding authorize
allowed = refl

authorize_iff_example :
    ((policy.mode ≡ lab) ⊎ (policy.mode ≡ live))
    × (policy.enabled ≡ true)
    × IsFree net policy.denylist "pve1.example.org"
authorize_iff_example = (authorize_iff net policy "pve1.example.org").0 allowed
