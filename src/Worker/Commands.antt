-- ===== src/Worker/Commands.antt =====
-- Which commands reach the operating system.
use drishti_server_migration.Base.{
  String, Bool, true, false, not, ◌&&◌, List, [], ◌∷◌, any, all, is_ok, Eff, pure, from_result,
  with_error, for_each, ◌>>=◌, ◌>>◌, ◌==◌, ◌≡◌, ◌∙◌, ◌⊎◌, inl, inr, refl, arith, eq_iff, wrap, str,
  &&-eq-true, Bool-cases,
}
use drishti_server_migration.Worker.{
  has_prefix, contains, resolve, forbidden, Output, check_paths, check_shape, validate_args,
  check_characters, validate_arg, run,
}

module _ {X A : Type 0} (m : Eff X (Unit {0})) (n : Eff X A) (x : X) (same : (m x).1 ≡ x) where
  then-passes : is_ok (m x).0 ≡ true → (m >> n) x ≡ n x
  unfolding ◌>>=◌
  then-passes h = ground (arith, same)

  then_refused : is_ok (m x).0 ≡ false → (is_ok ((m >> n) x).0 ≡ false) × (((m >> n) x).1 ≡ x)
  unfolding ◌>>=◌
  then_refused h = ground (arith, same)

-- A conversion of one file to one of the two formats, by paths that are no options, with no empty
-- argument and no forbidden character.
pub record IsConversion (args : List String) : Type 0 where
  pub format : String
  pub input : String
  pub output : String
  pub shape : args ≡ "convert" ∷ "-f" ∷ "vmdk" ∷ "-O" ∷ format ∷ input ∷ output ∷ []
  pub known_format : (format ≡ "raw") ⊎ (format ≡ "qcow2")
  pub input_is_path : has_prefix input "-" ≡ false
  pub output_is_path : has_prefix output "-" ≡ false
  pub clean : all (λ a. not (a == "") && not (any (contains a) forbidden)) args ≡ true

check_characters-is_ok :
    (a : String) (cs : List String) → is_ok (check_characters a cs) ≡ not (any (contains a) cs)
unfolding check_characters
check_characters-is_ok a [] = refl
check_characters-is_ok a (c ∷ cs) = ground (arith, check_characters-is_ok a cs)

validate_arg-is_ok :
    (a : String) → is_ok (validate_arg a) ≡ (not (a == "") && not (any (contains a) forbidden))
unfolding validate_arg
validate_arg-is_ok a = ground (arith, check_characters-is_ok a forbidden)

abbrev is_clean : String → Bool
is_clean a = not (a == "") && not (any (contains a) forbidden)

-- The loop over the arguments changes nothing, and returns exactly for clean arguments.
module _ {X : Type 0} (name : String) where
  abbrev check : String → Eff X (Unit {0})
  check a =
      with_error (wrap "invalid argument to %s" (str name ∷ [])) (from_result (validate_arg a))

  checks_state : (args : List String) (x : X) → (for_each args check x).1 ≡ x
  unfolding for_each with_error from_result pure ◌>>=◌
  checks_state [] x = refl
  checks_state (a ∷ args) x = ground (arith, checks_state args x)

  checks_ok : (args : List String) (x : X) → is_ok (for_each args check x).0 ≡ all is_clean args
  unfolding for_each with_error from_result pure ◌>>=◌
  checks_ok [] x = refl
  checks_ok (a ∷ args) x = ground (arith, checks_ok args x, validate_arg-is_ok a)

shape-IsConversion :
    (args : List String)
    → all is_clean args ≡ true
    → is_ok (check_shape args) ≡ true
    → IsConversion args
unfolding check_shape check_paths
shape-IsConversion (c ∷ f ∷ v ∷ o ∷ format ∷ input ∷ output ∷ []) clean h = record {
  format = format;
  input = input;
  output = output;
  shape = ground (arith, eq_iff c "convert", eq_iff f "-f", eq_iff v "vmdk", eq_iff o "-O");
  known_format = ground (arith, eq_iff format "raw", eq_iff format "qcow2");
  input_is_path = ground arith;
  output_is_path = ground arith;
  clean = clean;
}
shape-IsConversion [] clean h = ground arith
shape-IsConversion (a ∷ []) clean h = ground arith
shape-IsConversion (a ∷ b ∷ []) clean h = ground arith
shape-IsConversion (a ∷ b ∷ c ∷ []) clean h = ground arith
shape-IsConversion (a ∷ b ∷ c ∷ d ∷ []) clean h = ground arith
shape-IsConversion (a ∷ b ∷ c ∷ d ∷ e ∷ []) clean h = ground arith
shape-IsConversion (a ∷ b ∷ c ∷ d ∷ e ∷ f ∷ []) clean h = ground arith
shape-IsConversion (a ∷ b ∷ c ∷ d ∷ e ∷ f ∷ g ∷ i ∷ args) clean h = ground arith

module _ {X : Type 0} (name : String) (args : List String)
    (execute : String → List String → Eff X Output) where
  -- The command passes every check.
  abbrev pub passes : Bool
  passes = name == "qemu-img" && (all is_clean args && is_ok (check_shape args))

  abbrev valid : Eff X (Unit {0})
  valid =
      with_error (wrap "invalid argument set for %s" (str name ∷ []))
        (from_result (validate_args name args))

  valid_state : (x : X) → (valid x).1 ≡ x
  unfolding with_error from_result
  valid_state x = refl

  valid_ok : (x : X) → (name == "qemu-img") ≡ true → is_ok (valid x).0 ≡ is_ok (check_shape args)
  unfolding with_error from_result validate_args
  valid_ok x h = ground arith

  run_unknown :
      (x : X)
      → (name == "qemu-img") ≡ false
      → let (r, x') = run execute name args x in (is_ok r ≡ false) × (x' ≡ x)
  unfolding run ◌>>=◌ from_result resolve
  run_unknown x h = rw h (refl, refl)

  run_known :
      (x : X)
      → (name == "qemu-img") ≡ true
      → run execute name args x
        ≡ (for_each args (check name) >> (valid >> execute "qemu-img" args)) x
  unfolding run ◌>>=◌ from_result resolve
  run_known x h = rw h refl

  -- The run of a known command whose arguments are clean is that of the rest.
  run_clean :
      (x : X)
      → (name == "qemu-img") ≡ true
      → all is_clean args ≡ true
      → run execute name args x ≡ (valid >> execute "qemu-img" args) x
  run_clean x known clean =
      run_known x known
      ∙ then-passes (for_each args (check name)) _ x (checks_state name args x)
          (checks_ok name args x ∙ clean)

  run_accepted : (x : X) → passes ≡ true → run execute name args x ≡ execute "qemu-img" args x
  run_accepted x h =
      let (known, rest) = &&-eq-true _ _ h in
      let (clean, shape) = &&-eq-true _ _ rest in
      run_clean x known clean ∙ then-passes valid _ x (valid_state x) (valid_ok x known ∙ shape)

  run_dirty :
      (x : X)
      → (name == "qemu-img") ≡ true
      → all is_clean args ≡ false
      → let (r, x') = run execute name args x in (is_ok r ≡ false) × (x' ≡ x)
  run_dirty x known dirty = rw (run_known x known) (
      then_refused (for_each args (check name)) _ x (checks_state name args x)
        (checks_ok name args x ∙ dirty))

  run_misshapen :
      (x : X)
      → (name == "qemu-img") ≡ true
      → all is_clean args ≡ true
      → is_ok (check_shape args) ≡ false
      → let (r, x') = run execute name args x in (is_ok r ≡ false) × (x' ≡ x)
  run_misshapen x known clean bad =
      rw (run_clean x known clean) (then_refused valid _ x (valid_state x) (valid_ok x known ∙ bad))

  run_refused :
      (x : X)
      → passes ≡ false
      → let (r, x') = run execute name args x in (is_ok r ≡ false) × (x' ≡ x)
  run_refused x h = elim (Bool-cases (name == "qemu-img")) [
    | inr strange ↦ run_unknown x strange
    | inl known ↦ elim (Bool-cases (all is_clean args)) [
      | inr dirty ↦ run_dirty x known dirty
      | inl clean ↦ run_misshapen x known clean (ground (arith, h, known, clean))
    ]
  ]

  passes-IsConversion : passes ≡ true → IsConversion args
  passes-IsConversion h =
      let (known, rest) = &&-eq-true _ _ h in
      let (clean, shape) = &&-eq-true _ _ rest in shape-IsConversion args clean shape

  -- A command that passes every check is one conversion of a disk, and it is executed as it is; any
  -- other command is refused with an error, and nothing is executed.
  pub run_converts_or_refuses :
      (x : X)
      → let (r, x') = run execute name args x in
        ((passes ≡ true)
          × IsConversion args
          × (run execute name args x ≡ execute "qemu-img" args x))
        ⊎ ((passes ≡ false) × (is_ok r ≡ false) × (x' ≡ x))
  run_converts_or_refuses x = elim (Bool-cases passes) [
    | inl h ↦ inl (h, passes-IsConversion h, run_accepted x h)
    | inr h ↦ let (e, u) = run_refused x h in inr (h, e, u)
  ]
