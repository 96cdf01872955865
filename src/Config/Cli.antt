-- ===== src/Config/Cli.antt =====
-- The command line, index.ts. startServer and the handle's close are parameters: whether each throws.
use dicode_relay.Common.{
  ℕ, String, List, [], ◌∷◌, ◌++◌, Option, none, some, Bool, true, false, ◌||◌, if◌then◌else◌, ◌==◌,
  string_eq, ◌≡◌, refl, arith, sym, ap, ◌∙◌, append_nil,
}

pub record Args : Type 0 where
  pub config_path : Option String
  pub check : Bool

unfoldable mutual
  -- The loop of parseArgs. `--config` takes the next argument, if there is one.
  pub parse_from : Args → List String → Args
  parse_from a [] = a
  parse_from a (arg ∷ rest) = elim (arg == "--config") [
    | true ↦ parse_value a rest
    | false ↦ parse_from (if arg == "--check" then record a { check = true } else a) rest
  ]

  -- At the argument after a `--config`.
  pub parse_value : Args → List String → Args
  parse_value a [] = a
  parse_value a (path ∷ rest) = parse_from (record a { config_path = some path }) rest

unfoldable pub parse_args : List String → Args
parse_args argv = parse_from (record { config_path = none; check = false }) argv

-- The exit code of the process, or that it serves.
pub data Outcome : Type 0 where
  exits : ℕ → Outcome
  serves : Outcome

-- `start` says whether startServer returns for a path and a dry run, `close` whether the handle's close
-- does.
unfoldable pub main : (Option String → Bool → Bool) → Bool → List String → Outcome
main start close argv =
    let a = parse_args argv in
    if a.check
    then (if start a.config_path true then (if close then exits 0 else exits 1) else exits 1)
    else if start a.config_path false
    then serves
    else exits 1

-- A signal while it serves.
unfoldable pub shutdown : Bool → Outcome
shutdown close = if close then exits 0 else exits 1

abbrev pub mem : String → List String → Bool
mem k [] = false
mem k (x ∷ xs) = (x == k) || mem k xs

abbrev args : Option String → Bool → Args
args path check = record { config_path = path; check = check }

or_false : (c : Bool) → c ≡ (c || false)
or_false true = refl
or_false false = refl

or_step : (c k b : Bool) → ((if k then true else c) || b) ≡ (c || (k || b))
or_step c k b = ground arith

if_args :
    (p : Option String) (c k : Bool)
    → (if k then args p true else args p c) ≡ args p (if k then true else c)
if_args p c true = refl
if_args p c false = refl

parse_from_plain :
    (before after : List String) (p : Option String) (c : Bool)
    → mem "--config" before ≡ false
    → parse_from (args p c) (before ++ after)
      ≡ parse_from (args p (c || mem "--check" before)) after
unfolding parse_from
parse_from_plain [] after p c h = ap (λ k. parse_from (args p k) after) (or_false c)
parse_from_plain (x ∷ xs) after p c h =
    let here : (x == "--config") ≡ false = ground arith in
    let k = x == "--check" in
    rw (parse_from, here)
      (ap (λ a. parse_from a (xs ++ after)) (if_args p c k)
        ∙ parse_from_plain xs after p (if k then true else c) (ground arith)
        ∙ ap (λ b. parse_from (args p b) after) (or_step c k (mem "--check" xs)))

-- Of a command line with one `--config`, the argument after it is the path, whatever it is, and
-- `--check` counts where it stands among the others.
pub parse_args-append :
    (before after : List String) (path : String)
    → mem "--config" before ≡ false
    → mem "--config" after ≡ false
    → parse_args (before ++ ("--config" ∷ path ∷ after))
      ≡ record { config_path = some path; check = mem "--check" before || mem "--check" after }
unfolding parse_args parse_from parse_value
parse_args-append before after path h k =
    let b = mem "--check" before in
    parse_from_plain before ("--config" ∷ path ∷ after) none false h
    ∙ ap (parse_from (args (some path) b)) (sym (append_nil after))
    ∙ parse_from_plain after [] (some path) b k
