-- ===== src/Mutations/Examples.antt =====
-- A tree of two files, and tests that notice when the guard is gone.
use ha_wago.Base.{
  ℕ, ◌≢◌, ◌⊎◌, refl, Option, none, some, List, [], ◌∷◌, if◌then◌else◌, Bool-cases, inl, inr, sym,
}
use ha_wago.Base.Int.{pos}
use ha_wago.Base.Text.{Text, codes, text_eq, text_eq_iff, text_eq_refl, is_in}
use ha_wago.Base.Outcome.{ok}
use ha_wago.Mutations.{Case, Machine, main}
use ha_wago.Mutations.Restored.{IsMachine, SameFiles, AllCaught, main-restores}

abbrev Tree : Type 0
Tree = Text → Option Text

abbrev guard_file : Text
guard_file = codes "flow.py"

-- The tests fail unless the guard is there.
noticing : Option Text → ℕ
noticing none = 1
noticing (some source) = if is_in (codes "if host") source then 0 else 1

abbrev tree_of_files : Machine Tree
tree_of_files = record {
  read_bytes = λ path t. t path;
  write_bytes = λ path bytes t other. if text_eq path other then some bytes else t other;
  read_text = λ bytes. some bytes;
  encode = λ text. text;
  pytest = λ paths selector t.
      (some (record { returncode = pos (noticing (t guard_file)); stdout = codes "1 failed" }), t);
}

tree_of_files-IsMachine : IsMachine tree_of_files
tree_of_files-IsMachine = record {
  read_written = λ path bytes t. rw (text_eq_refl path) refl;
  read_other = λ path other bytes t n. elim (Bool-cases (text_eq path other)) [
    | inl b ↦ absurd (n (sym ((text_eq_iff path other).0 b)))
    | inr b ↦ rw b refl
  ];
  tests_keep = λ paths selector other t. refl;
}

abbrev start : Tree
start path =
    if text_eq path guard_file then some (codes "if host: move()") else some (codes "other")

abbrev plan : List (Case × List Text)
plan =
    (
      record {
        path = guard_file;
        old = codes "if host";
        replacement = codes "if True";
        tests = codes "test_move";
      },
      codes "tests/test_flow.py" ∷ [],
    )
    ∷ []

main-restores_example :
    SameFiles tree_of_files tree_of_files-IsMachine (main tree_of_files plan start).1 start
    × (((main tree_of_files plan start).0 ≢ ok 0)
        ⊎ ((plan ≢ []) × AllCaught tree_of_files tree_of_files-IsMachine start plan))
main-restores_example = main-restores tree_of_files tree_of_files-IsMachine plan start
