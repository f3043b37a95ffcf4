-- ===== src/Mutations.antt =====
-- .github/scripts/mutate.py: breaking a file on purpose, running the tests, and restoring it. The
-- tree of files and pytest are a parameter, `Machine`. One case runs at a time, `--jobs 1`.
pub mod Restored
mod Examples
use ha_wago.Base.{
  ℕ, zero, suc, ◌+◌, ◌-◌, Bool, true, false, not, ◌&&◌, ◌||◌, Option, none, some, List, [], ◌∷◌,
  ◌++◌, ◌==◌, if◌then◌else◌,
}
use ha_wago.Base.Int.{ℤ, pos, int_eq}
use ha_wago.Base.Lists.{length, drop}
use ha_wago.Base.Text.{Text, codes, starts_with, is_in}
use ha_wago.Base.Outcome.{Outcome, ok, raise}

abbrev pub pytest_all_passed : ℤ
pytest_all_passed = pos 0

abbrev pub pytest_tests_failed : ℤ
pytest_tests_failed = pos 1

abbrev pub pytest_no_tests : ℤ
pytest_no_tests = pos 5

-- A case of the plan.
pub record Case : Type 0 where
  pub path : Text
  pub old : Text
  pub replacement : Text
  pub tests : Text

-- How pytest ended.
pub record Completed : Type 0 where
  pub returncode : ℤ
  pub stdout : Text

-- `read_text` decodes bytes and normalises line ends, none for bytes that are no text. `pytest` is
-- given the files and the selector, and answers none after the timeout.
pub record Machine (T : Type 0) : Type 0 where
  pub read_bytes : Text → T → Option (List ℕ)
  pub write_bytes : Text → List ℕ → T → T
  pub read_text : List ℕ → Option Text
  pub encode : Text → List ℕ
  pub pytest : List Text → Text → T → Option Completed × T

-- The ways to end with no result: each is a `SystemExit` with its own message, or an exception of
-- the file.
pub data Stop : Type 0 where
  no_file no_text snippet_not_once not_finished no_tests says_nothing no_mutations : Stop

-- `s.count(old)` of an `old` that is not empty, after the next `skip` characters.
unfoldable pub count_after : (skip : ℕ) (old s : Text) → ℕ
count_after skip old [] = 0
count_after (suc skip) old (c ∷ s) = count_after skip old s
count_after zero old (c ∷ s) =
    let past = count_after (length old - 1) old s in
    let next = count_after zero old s in if starts_with old (c ∷ s) then 1 + past else next

-- `s.count(old)`
unfoldable pub count : (old s : Text) → ℕ
unfolding count_after
count [] s = length s + 1
count (c ∷ old) s = count_after zero (c ∷ old) s

-- `s.replace(old, new, 1)`
unfoldable pub replace_once : (old new s : Text) → Text
replace_once old new [] = if starts_with old [] then new else []
replace_once old new (c ∷ s) =
    let rest = replace_once old new s in
    if starts_with old (c ∷ s) then new ++ drop (length old) (c ∷ s) else c ∷ rest

module _ {T : Type 0} (machine : Machine T) where
  open machine use {read_bytes, write_bytes, read_text, encode}

  -- `run_tests`, of what pytest answered.
  unfoldable pub verdict : Option Completed → Outcome Stop Bool
  verdict none = raise not_finished
  verdict (some result) =
      if is_in (codes "no tests ran") result.stdout || int_eq result.returncode pytest_no_tests
      then raise no_tests
      else if int_eq result.returncode pytest_tests_failed
      then ok true
      else if int_eq result.returncode pytest_all_passed
      then ok false
      else raise says_nothing

  unfoldable pub targets_of : List Text → List Text
  targets_of [] = codes "tests/" ∷ []
  targets_of (path ∷ paths) = path ∷ paths

  unfoldable pub run_tests : (selector : Text) (paths : List Text) → T → Outcome Stop Bool × T
  unfolding verdict targets_of
  run_tests selector paths t =
      let (result, t') = machine.pytest (targets_of paths) selector t in (verdict result, t')

  -- `apply_mutation`: the bytes that undo it, and the broken tree.
  unfoldable pub apply_mutation : Case → T → Outcome Stop (List ℕ) × T
  apply_mutation case t = elim (read_bytes case.path t) [
    | none ↦ (raise no_file, t)
    | some original ↦ elim (read_text original) [
      | none ↦ (raise no_text, t)
      | some source ↦
          if count case.old source == 1
          then (
            ok original,
            write_bytes case.path (encode (replace_once case.old case.replacement source)) t,
          )
          else (raise snippet_not_once, t)
    ]
  ]

  -- What follows `apply_mutation`. The file is written back whatever the tests do.
  unfoldable pub undo_after : Case → List Text → Outcome Stop (List ℕ) × T → Outcome Stop Bool × T
  unfolding run_tests
  undo_after case files (raise e, t) = (raise e, t)
  undo_after case files (ok original, broken) =
      let (caught, t) = run_tests case.tests files broken in
      (caught, write_bytes case.path original t)

  -- `run_case`
  unfoldable pub run_case : Case → List Text → T → Outcome Stop Bool × T
  unfolding apply_mutation undo_after
  run_case case files t = undo_after case files (apply_mutation case t)

  -- `[run_case(...) for case in cases]`, of the cases with the files of their tests.
  unfoldable pub run_cases : List (Case × List Text) → T → Outcome Stop (List Bool) × T
  unfolding run_case
  run_cases [] t = (ok [], t)
  run_cases ((case, files) ∷ cases) t =
      let (caught, t') = run_case case files t in
      let (others, t'') = run_cases cases t' in
      elim caught [
        | raise e ↦ (raise e, t')
        | ok c ↦ (elim others [ raise e ↦ raise e | ok results ↦ ok (c ∷ results) ], t'')
      ]

  -- 0 if every mutation was caught, else 1.
  unfoldable pub exit_code : List Bool → ℕ
  exit_code [] = 0
  exit_code (caught ∷ results) = if caught then exit_code results else 1

  -- `main`, from where the files of the selectors are known.
  unfoldable pub main : List (Case × List Text) → T → Outcome Stop ℕ × T
  unfolding run_cases exit_code
  main [] t = (raise no_mutations, t)
  main (c ∷ cases) t =
      let (results, t') = run_cases (c ∷ cases) t in
      elim results [ raise e ↦ (raise e, t') | ok results' ↦ (ok (exit_code results'), t') ]
