-- ===== src/Conversion/Settings.antt =====
-- The configuration of the worker, worker/internal/config/config.go, and `New` of
-- worker/internal/conversion/service.go with its size cap on int64.
use drishti_server_migration.Base.{
  ℕ, ℤ, pos, negsuc, pos_part, String, Bool, not, ◌&&◌, ◌||◌, Option, none, some, [], ◌∷◌, errorf,
  new_error, wrap, str, int, Result, ok, err, Eff, throw, pure, from_result, with_error, ◌>>=◌,
  ◌>>◌, ltb, leb_ℤ, ◌==◌, if◌then◌else◌, ◌-◌, ◌*◌, ◌^◌, ◌<◌, ◌≡◌, ◌↔◌, arith,
}
use Prim.Native.Nat.{◌%◌}
use drishti_server_migration.Conversion.{Files}

pub record WorkerConfig : Type 0 where
  pub http_addr : String
  pub workspace_root : String
  pub max_workspace_gb : ℤ
  pub mode : String
  pub enable_conversion : Bool
  pub conversion_timeout : ℤ
  pub shutdown_time : ℤ
  pub log_level : String

-- What `Load` calls of the standard library; a variable that is not set is empty.
pub record Environment : Type 0 where
  pub getenv : String → String
  pub trim : String → String
  pub lower : String → String
  pub equal_fold : String → String → Bool
  pub parse_int : String → Option ℤ
  pub parse_duration : String → Option ℤ
  pub temp_dir : String

-- `value` if it is not empty
abbrev or_text : String → String → String
or_text value fallback = if value == "" then fallback else value

abbrev known_or : Option ℤ → ℤ → ℤ
known_or none fallback = fallback
known_or (some n) fallback = n

abbrev positive_or : Option ℤ → ℤ → ℤ
positive_or none fallback = fallback
positive_or (some d) fallback = if leb_ℤ d (pos 0) then fallback else d

abbrev pub is_mode : String → Bool
is_mode mode = mode == "mock" || (mode == "lab" || (mode == "live" || mode == "production"))

abbrev check_config : WorkerConfig → Result WorkerConfig
check_config c =
    if not (is_mode c.mode)
    then err (errorf "invalid DRISHTI_MODE %q" (str c.mode ∷ []))
    else if c.enable_conversion && (not (c.mode == "lab") && not (c.mode == "live"))
    then err (new_error "worker conversion can only be enabled in lab or live mode")
    else if leb_ℤ c.max_workspace_gb (pos 0)
    then err (errorf "invalid MaxWorkspaceGB %d" (int c.max_workspace_gb ∷ []))
    else ok c

module _ (env : Environment) where
  abbrev trimmed : String → String
  trimmed key = env.trim (env.getenv key)

  abbrev int64_env : String → ℤ → ℤ
  int64_env key fallback =
      if trimmed key == "" then fallback else known_or (env.parse_int (trimmed key)) fallback

  abbrev duration_env : String → ℤ → ℤ
  duration_env key fallback =
      if trimmed key == ""
      then fallback
      else positive_or (env.parse_duration (trimmed key)) fallback

  -- `Load`; durations are nanoseconds.
  unfoldable pub load_worker : Result WorkerConfig
  load_worker = check_config (record {
    http_addr = or_text (trimmed "DRISHTI_WORKER_ADDR") ":8090";
    workspace_root = or_text (trimmed "DRISHTI_WORKSPACE_ROOT") env.temp_dir;
    max_workspace_gb = int64_env "DRISHTI_MAX_WORKSPACE_GB" (pos 100);
    mode = or_text (env.lower (trimmed "DRISHTI_MODE")) "mock";
    enable_conversion = env.equal_fold (trimmed "DRISHTI_ENABLE_WORKER_CONVERSION") "true";
    conversion_timeout = duration_env "DRISHTI_CONVERSION_TIMEOUT" (pos 86400000000000);
    shutdown_time = pos 10000000000;
    log_level = or_text (env.lower (trimmed "DRISHTI_LOG_LEVEL")) "info";
  })

-- The int64 value of the low 64 bits.
abbrev pub int64_of : ℕ → ℤ
int64_of n = let low = n % 2 ^ 64 in if ltb low (2 ^ 63) then pos low else negsuc (2 ^ 64 - low - 1)

-- `maxWorkspaceGB * gibibyte`, where the size is positive
unfoldable pub size_cap : ℤ → ℤ
size_cap gb = int64_of (pos_part gb * 2 ^ 30)

-- `New`: the workspace's path without links, and the cap in bytes.
unfoldable pub new_service : {X : Type 0} → Files X → String → ℤ → Eff X (String × ℤ)
unfolding size_cap
new_service f root gb = do
  abs ← with_error (wrap "resolve workspace root: %w" []) (from_result (f.abs root))
  with_error (wrap "create workspace root: %w" []) (f.mkdir_all abs)
  resolved ← with_error (wrap "resolve workspace symlinks: %w" []) (f.eval_symlinks abs)
  if leb_ℤ gb (pos 0)
      then throw (new_error "workspace size cap must be positive")
      else pure (resolved, size_cap gb)

-- For a positive number of gigabytes that an int64 holds, the cap in bytes is that number times 2^30
-- exactly if the number is below 2^33; from there on the product overflows, although the configuration
-- accepts the number.
pub size_cap_iff : (gb : ℕ) → gb < 2 ^ 63 → (size_cap (pos gb) ≡ pos (gb * 2 ^ 30)) ↔ (gb < 2 ^ 33)
unfolding size_cap
size_cap_iff gb h = ground (arith, h)
