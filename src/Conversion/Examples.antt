-- ===== src/Conversion/Examples.antt =====
-- A workspace with one disk; the state counts the commands with another format.
use drishti_server_migration.Base.{
  ℕ, suc, pos, ◌*◌, ◌^◌, ◌<◌, String, append, Bool, true, false, List, ◌∷◌, Error, new_error, ok,
  err, is_ok, if◌then◌else◌, ◌==◌, ◌≡◌, ◌↔◌, refl, arith, ◌>>=◌,
}
use text.Mathlib.Text.{starts_with}
use drishti_server_migration.Conversion.{Files, FileInfo, ConvertRequest}
use drishti_server_migration.Conversion.Service.{is_target_format, convert}
use drishti_server_migration.Conversion.Settings.{size_cap, size_cap_iff}

abbrev has_format : List String → Bool
has_format (c ∷ f ∷ v ∷ o ∷ format ∷ args) = is_target_format format
has_format _ = false

abbrev disk_info : FileInfo
disk_info = record { size = pos 100; is_regular = true; is_symlink = false }

abbrev missing : Error
missing = new_error "file does not exist"

abbrev is_missing : Error → Bool
is_missing e = true

abbrev files : Files ℕ
files = record {
  abs = λ p. ok p;
  rel = λ root p. if starts_with p "/w/" then ok "inside" else ok "..";
  is_abs = λ p. false;
  dir_of = λ p. "/w";
  base_of = λ p. "d1.qcow2";
  join_path = λ dir base. append dir (append "/" base);
  clean = λ p. p;
  equal_fold = λ p q. p == q;
  is_not_exist = is_missing;
  eval_symlinks = λ p x. (ok p, x);
  stat = λ p x. (ok disk_info, x);
  lstat = λ p x. (if p == "/w/d1.vmdk" then ok disk_info else err missing, x);
  checksum = λ p x. (ok "ab", x);
  read_manifest = λ p x. (err missing, x);
  elapsed = λ x. (ok "1s", x);
  mkdir_all = λ p x. (ok tt, x);
  remove = λ p x. (ok tt, x);
  rename = λ p q x. (ok tt, x);
  open_new = λ p x. (ok tt, x);
  write = λ p m x. (ok tt, x);
  close = λ p x. (ok tt, x);
  execute = λ name args x. (ok (pos 0), if has_format args then x else suc x);
}

abbrev request : ConvertRequest
request = record {
  input_path = "/w/d1.vmdk";
  output_path = "/w/d1.qcow2";
  input_format = "";
  target_format = "qcow2";
}

abbrev IsUncounted : ℕ → Type 0
IsUncounted x = x ≡ 0

-- The request is carried out.
carried_out : is_ok (convert files "/w" (pos 1000) request 0).0 ≡ true
unfolding convert ◌>>=◌
carried_out = refl

size_cap_iff_example : (size_cap (pos 100) ≡ pos (100 * 2 ^ 30)) ↔ (100 < 2 ^ 33)
size_cap_iff_example = size_cap_iff 100 (ground arith)
