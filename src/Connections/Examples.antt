-- ===== src/Connections/Examples.antt =====
-- A registry in lab mode: a VMware connection is made twice, and then removed.
use drishti_server_migration.Base.{ℕ, suc, true, false, none, some, [], ◌∷◌, ok}
use drishti_server_migration.Connections.{ConnState, CreateInput, ConnOutside}
use drishti_server_migration.Connections.Consistent.{IsConsistent}
use drishti_server_migration.Connections.Histories.{
  creation, deletion, serve_all, serve_all-IsConsistent,
}

abbrev outside : ConnOutside ℕ
outside = record {
  real_mode = true;
  probe_vmware = λ input t. (ok tt, suc t);
  probe_proxmox = none;
  append_event = λ action id result detail t. (ok tt, suc t);
  now = λ t. (t, suc t);
  is_zero = λ t. true;
  zero_time = 0;
  runes = λ text. [];
  text_of = λ rs. "";
  sanitize_log = λ text. text;
  normalize_id = λ id. id;
}

abbrev input : CreateInput
input = record {
  name = "lab";
  kind = "vmware";
  role = "source";
  endpoint = "vcenter.example";
  insecure_tls = false;
  secret_ref = "";
  username = "admin";
  password = "secret";
}

abbrev empty : ConnState ℕ
empty = record { connections = []; credentials = []; ext = 0 }

serve_all-IsConsistent_example : IsConsistent (
    serve_all outside
      (creation (some input) ∷ creation (some input) ∷ deletion "conn-vmware" ∷ [])
      empty)
serve_all-IsConsistent_example =
    serve_all-IsConsistent outside
      (creation (some input) ∷ creation (some input) ∷ deletion "conn-vmware" ∷ []) empty
      (record { unique = tt; known = tt })
