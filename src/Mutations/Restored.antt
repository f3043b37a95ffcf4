-- ===== src/Mutations/Restored.antt =====
-- What a run of mutate.py leaves of the files, and what its exit code 0 says.
use ha_wago.Base.{
  ℕ, ◌≡◌, ◌≢◌, ◌⊎◌, refl, ◌∙◌, sym, Bool, true, ◌==◌, some, List, [], ◌∷◌, arith, Option-cases,
  Bool-cases, inl, inr,
}
use mathlib.Core.Path.{subst}
use ha_wago.Base.Text.{Text, text_eq, text_eq_iff}
use ha_wago.Base.Outcome.{Outcome, ok, raise, Outcome-cases}
use ha_wago.Mutations.{
  Case, Machine, Stop, no_file, no_text, snippet_not_once, undo_after, count, replace_once,
  run_tests, apply_mutation, run_case, run_cases, exit_code, main,
}

-- Files are files, and the tests leave those of the tree as they are.
pub record IsMachine {T : Type 0} (machine : Machine T) : Type 0 where
  pub read_written :
      (path : Text) (bytes : List ℕ) (t : T)
      → machine.read_bytes path (machine.write_bytes path bytes t) ≡ some bytes
  pub read_other :
      (path other : Text) (bytes : List ℕ) (t : T)
      → other ≢ path
      → machine.read_bytes other (machine.write_bytes path bytes t) ≡ machine.read_bytes other t
  pub tests_keep :
      (paths : List Text) (selector other : Text) (t : T)
      → machine.read_bytes other (machine.pytest paths selector t).1 ≡ machine.read_bytes other t

module _ {T : Type 0} (machine : Machine T) (laws : IsMachine machine) where
  open machine use {read_bytes, write_bytes, read_text, encode}

  -- The two trees hold the same files.
  abbrev pub SameFiles : (s t : T) → Type 0
  SameFiles s t = (path : Text) → read_bytes path s ≡ read_bytes path t

  -- The tree is the one at `t` but for the file of the case, in which the one occurrence of the
  -- snippet is replaced.
  pub record IsBroken (case : Case) (t broken : T) : Type 0 where
    pub original : List ℕ
    pub source : Text
    pub held : read_bytes case.path t ≡ some original
    pub read : read_text original ≡ some source
    pub once : (count case.old source == 1) ≡ true
    pub replaced :
        read_bytes case.path broken ≡ some (encode (replace_once case.old case.replacement source))
    pub others : (path : Text) → path ≢ case.path → read_bytes path broken ≡ read_bytes path t

  -- The case was applied, tried and undone; or it could not be applied.
  record IsTried (case : Case) (files : List Text) (t : T) (result : Outcome Stop Bool × T)
      : Type 0 where
    restored : SameFiles result.1 t
    tried :
        (caught : Bool)
        → result.0 ≡ ok caught
        → (broken : T) × IsBroken case t broken
          × ((run_tests machine case.tests files broken).0 ≡ ok caught)

  undone-SameFiles :
      (case : Case) (files : List Text) (t broken : T) (b : IsBroken case t broken)
      → SameFiles (write_bytes case.path b.original (run_tests machine case.tests files broken).1) t
  unfolding run_tests
  undone-SameFiles case files t broken b path = elim (Bool-cases (text_eq path case.path)) [
    | inl same ↦
        let e = (text_eq_iff path case.path).0 same in
        rw e (laws.read_written case.path b.original _ ∙ sym b.held)
    | inr other ↦
        let n : path ≢ case.path =
          λ e. let (_, k) = text_eq_iff path case.path in absurd (ground (arith, other, k e)) in
        laws.read_other case.path path b.original _ n
        ∙ laws.tests_keep _ case.tests path broken
        ∙ b.others path n
  ]

  apply_mutation-cases :
      (case : Case) (t : T)
      → ((e : Stop) × (apply_mutation machine case t ≡ (raise e, t)))
        ⊎ ((broken : T) × (b : IsBroken case t broken) × (apply_mutation machine case t
              ≡ (ok b.original, broken)))
  unfolding apply_mutation
  apply_mutation-cases case t = elim (Option-cases (read_bytes case.path t)) [
    | inl n ↦ inl (no_file, rw (n, apply_mutation) refl)
    | inr (original, held) ↦ elim (Option-cases (read_text original)) [
      | inl n ↦ inl (no_text, rw (held, n, apply_mutation) refl)
      | inr (source, read) ↦ elim (Bool-cases (count case.old source == 1)) [
        | inr n ↦ inl (snippet_not_once, rw (held, read, n, apply_mutation) refl)
        | inl once ↦ inr (
          write_bytes case.path (encode (replace_once case.old case.replacement source)) t,
          record {
            original = original;
            source = source;
            held = held;
            read = read;
            once = once;
            replaced = laws.read_written case.path _ t;
            others = λ path n. laws.read_other case.path path _ t n;
          },
          rw (held, read, once, apply_mutation) refl,
        )
      ]
    ]
  ]

  run_case-IsTried :
      (case : Case) (files : List Text) (t : T)
      → IsTried case files t (run_case machine case files t)
  unfolding run_case undo_after
  run_case-IsTried case files t = elim (apply_mutation-cases case t) [
    | inl (e, h) ↦
        subst (λ q. IsTried case files t (undo_after machine case files q)) (sym h)
          (record { restored = λ path. refl; tried = λ caught k. absurd (ground (arith, k)) })
    | inr (broken, b, h) ↦
        subst (λ q. IsTried case files t (undo_after machine case files q)) (sym h)
          (record {
            restored = undone-SameFiles case files t broken b;
            tried = λ caught k. (broken, b, k);
          })
  ]

  abbrev AllTrue : List Bool → Type 0
  AllTrue [] = Unit
  AllTrue (b ∷ bs) = (b ≡ true) × AllTrue bs

  exit_code-zero : (results : List Bool) → exit_code machine results ≡ 0 → AllTrue results
  unfolding exit_code
  exit_code-zero [] h = tt
  exit_code-zero (b ∷ bs) h = elim (Bool-cases b) [
    | inl t ↦ (t, exit_code-zero bs (ground arith))
    | inr f ↦ absurd (ground arith)
  ]

  -- Every case was tried, on a tree that is the one at the start but for the case's file, and
  -- pytest noticed.
  abbrev pub AllCaught : T → List (Case × List Text) → Type 0
  AllCaught t [] = Unit
  AllCaught t ((case, files) ∷ cases) =
      ((broken : T) × IsBroken case t broken
        × ((run_tests machine case.tests files broken).0 ≡ ok true))
      × AllCaught t cases

  IsBroken-before :
      (case : Case) (s t broken : T)
      → SameFiles s t
      → IsBroken case s broken
      → IsBroken case t broken
  IsBroken-before case s t broken same b = record {
    original = b.original;
    source = b.source;
    held = sym (same case.path) ∙ b.held;
    read = b.read;
    once = b.once;
    replaced = b.replaced;
    others = λ path n. b.others path n ∙ same path;
  }

  AllCaught-before :
      (s t : T) (cases : List (Case × List Text))
      → SameFiles s t
      → AllCaught s cases
      → AllCaught t cases
  AllCaught-before s t [] same all = tt
  AllCaught-before s t ((case, files) ∷ cases) same all =
      let (broken, b, caught) = all.0 in
      (
        (broken, IsBroken-before case s t broken same b, caught),
        AllCaught-before s t cases same all.1,
      )

  record IsRun (cases : List (Case × List Text)) (t : T) (result : Outcome Stop (List Bool) × T)
      : Type 0 where
    restored : SameFiles result.1 t
    caught : (results : List Bool) → result.0 ≡ ok results → AllTrue results → AllCaught t cases

  run_cases-IsRun :
      (cases : List (Case × List Text)) (t : T) → IsRun cases t (run_cases machine cases t)
  unfolding run_cases
  run_cases-IsRun [] t = record { restored = λ path. refl; caught = λ results h all. tt }
  run_cases-IsRun ((case, files) ∷ cases) t =
      let tried = run_case-IsTried case files t in
      let t' = (run_case machine case files t).1 in
      let rest = run_cases-IsRun cases t' in
      elim (Outcome-cases (run_case machine case files t).0) [
        | inr (e, h) ↦
            rw (h, run_cases)
              (record {
                restored = tried.restored;
                caught = λ results k all. absurd (ground (arith, k));
              })
        | inl (c, h) ↦ elim (Outcome-cases (run_cases machine cases t').0) [
          | inr (e, k) ↦
              rw (h, k, run_cases)
                (record {
                  restored = λ path. rest.restored path ∙ tried.restored path;
                  caught = λ results q all. absurd (ground (arith, q));
                })
          | inl (others, k) ↦
              rw (h, k, run_cases)
                (record {
                  restored = λ path. rest.restored path ∙ tried.restored path;
                  caught = λ results q all.
                      let same : c ∷ others ≡ results = ground (arith, q) in
                      let all' = subst AllTrue (sym same) all in
                      let (broken, b, noticed) = tried.tried c h in
                      (
                        (broken, b, rw (← all'.0) noticed),
                        AllCaught-before t' t cases tried.restored (rest.caught others k all'.1),
                      );
                })
        ]
      ]

  -- After a run every file is as it was, whatever the run ends with: its result, a snippet that is
  -- not there just once, a run of the tests that does not finish or says nothing. Either the exit
  -- code is not 0, or there was a case, and for each case pytest said that tests failed, on a tree
  -- in which the case's snippet was replaced once in the case's file, and that was otherwise as at
  -- the start.
  pub main-restores :
      (cases : List (Case × List Text)) (t : T)
      → SameFiles (main machine cases t).1 t
        × (((main machine cases t).0 ≢ ok 0) ⊎ ((cases ≢ []) × AllCaught t cases))
  unfolding main
  main-restores [] t = ((λ path. refl), inl (λ h. absurd (ground (arith, h))))
  main-restores (c ∷ cases) t =
      let run = run_cases-IsRun (c ∷ cases) t in
      elim (Outcome-cases (run_cases machine (c ∷ cases) t).0) [
        | inr (e, h) ↦ rw (h, main) (run.restored, inl (λ k. absurd (ground (arith, k))))
        | inl (results, h) ↦ elim (Bool-cases (exit_code machine results == 0)) [
          | inr n ↦ rw (h, main) (run.restored, inl (λ k. absurd (ground (arith, k, n))))
          | inl z ↦
              rw (h, main)
                (
                  run.restored,
                  inr (
                    (λ n. absurd (ground (arith, n))),
                    run.caught results h (exit_code-zero results (ground (arith, z))),
                  ),
                )
        ]
      ]
