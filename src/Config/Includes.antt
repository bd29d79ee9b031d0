-- ===== src/Config/Includes.antt =====
-- Configuration files that include each other: the merge ends, and a file overrides what it includes.
use daq.Config.Tree.{
  Value, null, number, flag, sequence, mapping, Text, Fields, text, lookup, pop, text_eq, codes,
}
use daq.Config.Flat.{Outcome-cases, Outcome, done, failed, circular, unfinished}
use daq.Config.Files.{Disk, read_config, merge_config, merge_read, including}
use daq.Config.Rounds.{read_config-finishes}
use daq.Config.Merge.{deep_merge_dict}
use daq.Base.{
  ℕ, zero, suc, ◌≤◌, ◌<◌, ◌≡◌, sym, ap, ◌∙◌, ◌≢◌, inl, inr, true, false, not, Option, none, some,
  List, [], ◌∷◌, ◌++◌, arith, Bool-cases, ◌==◌, nat_eq, string_eq, beq_self, beq→eq, length, select,
  length-select, contains, contains-append, pair_eq,
}

-- The files of a list that are not on the way yet.
abbrev unvisited : List Text → List Text → ℕ
unvisited files traversed = length (select (λ file. not (contains traversed file)) files)

unvisited-append :
    (files traversed : List Text) (file : Text)
    → unvisited files (traversed ++ file ∷ []) ≤ unvisited files traversed
unvisited-append [] traversed file = omega arith
unvisited-append (f ∷ files) traversed file =
    ground (arith, unvisited-append files traversed file, contains-append traversed (file ∷ []) f)

unvisited-visit :
    (files traversed : List Text) (file : Text)
    → contains files file ≡ true
    → contains traversed file ≡ false
    → unvisited files (traversed ++ file ∷ []) < unvisited files traversed
unvisited-visit [] traversed file here new = absurd (cc)
unvisited-visit (f ∷ files) traversed file here new = elim (Bool-cases (file == f)) [
  | inl same ↦
      let e = beq→eq file f same in
      let gone : contains traversed f ≡ false = ap (λ g. contains traversed g) (sym e) ∙ new in
      ground (
        arith,
        gone,
        beq_self f,
        same,
        e,
        unvisited-append files traversed file,
        contains-append traversed (file ∷ []) f,
      )
  | inr other ↦
      ground (
        arith,
        other,
        unvisited-visit files traversed file,
        contains-append traversed (file ∷ []) f,
      )
]

-- Without the bound on its rounds the read fails as the included file does.
merge_read-unfinished :
    (follow : Text → Outcome Fields) (disk : Disk) (base : Fields) (file : Text) (config : Fields)
    (include : Option Value)
    → ((name : Text) → follow name ≢ failed unfinished)
    → merge_read follow disk base file config include ≢ failed unfinished
unfolding merge_read
merge_read-unfinished follow disk base file config none ends = cc
merge_read-unfinished follow disk base file config (some (text name)) ends =
    ground (arith, ends (including disk file name))
merge_read-unfinished follow disk base file config (some null) ends = cc
merge_read-unfinished follow disk base file config (some (number n)) ends = cc
merge_read-unfinished follow disk base file config (some (flag b)) ends = cc
merge_read-unfinished follow disk base file config (some (sequence l)) ends = cc
merge_read-unfinished follow disk base file config (some (mapping f)) ends = cc

module _ (disk : Disk) (files : List Text) where
  merge_config-finishes_within :
      (rounds : ℕ) (base : Fields) (file : Text) (traversed : List Text)
      → ((f : Text) (config : Fields) → read_config disk f ≡ done config → contains files f ≡ true)
      → unvisited files traversed < rounds
      → merge_config rounds disk base file traversed ≢ failed unfinished
  unfolding merge_config
  merge_config-finishes_within zero base file traversed known enough = omega arith
  merge_config-finishes_within (suc rounds) base file traversed known enough =
      elim (Outcome-cases (read_config disk (disk.abspath file))) [
        | inl (x, broken) ↦ ground (arith, broken, read_config-finishes disk (disk.abspath file))
        | inr (config, read) ↦ elim (Bool-cases (contains traversed (disk.abspath file))) [
          | inl visited ↦ ground (arith, read, visited)
          | inr new ↦
              let smaller =
                unvisited-visit files traversed (disk.abspath file)
                  (known (disk.abspath file) config read) new in
              rw (read, new)
                (merge_read-unfinished
                  (λ include.
                    merge_config rounds disk base include (traversed ++ disk.abspath file ∷ []))
                  disk base (disk.abspath file) config (lookup (codes "include") config)
                  (λ name.
                    merge_config-finishes_within rounds base name
                      (traversed ++ disk.abspath file ∷ []) known (omega (arith, smaller, enough))))
        ]
      ]

-- `merge_config` ends on any set of files, also where they include each other in a circle: where
-- `files` holds every file that can be read, one round more than these are is enough.
pub merge_config-finishes :
    (disk : Disk) (files : List Text) (base : Fields) (file : Text)
    → ((f : Text) (config : Fields) → read_config disk f ≡ done config → contains files f ≡ true)
    → merge_config (suc (length files)) disk base file [] ≢ failed unfinished
merge_config-finishes disk files base file known =
    merge_config-finishes_within disk files (suc (length files)) base file [] known
      (omega (arith, length-select (λ f. not (contains [] f)) files))

-- The files that `file` leads to by its includes, outermost first, each without its `include` entry.
pub data Chain (disk : Disk) : List Text → Text → List Fields → Type 0 where
  last :
      {traversed : List Text} {file : Text} {config : Fields}
      → contains traversed (disk.abspath file) ≡ false
      → read_config disk (disk.abspath file) ≡ done config
      → lookup (codes "include") config ≡ none
      → Chain disk traversed file (config ∷ [])
  next :
      {traversed : List Text} {file include : Text} {config : Fields} {configs : List Fields}
      → contains traversed (disk.abspath file) ≡ false
      → read_config disk (disk.abspath file) ≡ done config
      → lookup (codes "include") config ≡ some (text include)
      → Chain disk
          (traversed ++ disk.abspath file ∷ [])
          (including disk (disk.abspath file) include)
          configs
      → Chain disk traversed file (pop (codes "include") config ∷ configs)

-- The innermost configuration is merged first, so that each overrides what it includes.
unfoldable pub layered : Fields → List Fields → Fields
layered base [] = base
layered base (config ∷ configs) = deep_merge_dict (layered base configs) config

-- `merge_config` of a file that leads to a chain of files without a repetition merges them from the
-- innermost to the outermost, in as many rounds as the chain has files or more.
pub merge_config-layered :
    (disk : Disk) (base : Fields) (rounds : ℕ) {traversed : List Text} {file : Text}
    {configs : List Fields}
    → Chain disk traversed file configs
    → length configs ≤ rounds
    → merge_config rounds disk base file traversed ≡ done (layered base configs)
unfolding merge_config layered
merge_config-layered disk base zero (last new read plain) enough = absurd (omega (arith, enough))
merge_config-layered disk base zero (next new read inner rest) enough =
    absurd (omega (arith, enough))
merge_config-layered disk base (suc rounds) (last new read plain) enough =
    ground (arith, new, read, plain)
merge_config-layered disk base (suc rounds) (next new read inner rest) enough =
    let ih = merge_config-layered disk base rounds rest (omega (arith, enough)) in
    ground (arith, new, read, inner, ih)

-- The includes of `file` come back, after so many steps, to a file that is on the way.
pub data Circle (disk : Disk) : List Text → Text → ℕ → Type 0 where
  back :
      {traversed : List Text} {file : Text} {config : Fields} {n : ℕ}
      → contains traversed (disk.abspath file) ≡ true
      → read_config disk (disk.abspath file) ≡ done config
      → Circle disk traversed file n
  onward :
      {traversed : List Text} {file include : Text} {config : Fields} {n : ℕ}
      → contains traversed (disk.abspath file) ≡ false
      → read_config disk (disk.abspath file) ≡ done config
      → lookup (codes "include") config ≡ some (text include)
      → Circle disk
          (traversed ++ disk.abspath file ∷ [])
          (including disk (disk.abspath file) include)
          n
      → Circle disk traversed file (suc n)

-- `merge_config` of a file whose includes come back to a file on the way raises the error for circular
-- includes, in any number of rounds above the steps of the circle.
pub merge_config-circular :
    (disk : Disk) (base : Fields) (rounds : ℕ) {traversed : List Text} {file : Text} {n : ℕ}
    → Circle disk traversed file n
    → n < rounds
    → merge_config rounds disk base file traversed ≡ failed circular
unfolding merge_config
merge_config-circular disk base zero (back old read) enough = absurd (omega (arith, enough))
merge_config-circular disk base zero (onward new read inner rest) enough =
    absurd (omega (arith, enough))
merge_config-circular disk base (suc rounds) (back old read) enough = ground (arith, old, read)
merge_config-circular disk base (suc rounds) (onward new read inner rest) enough =
    let ih = merge_config-circular disk base rounds rest (omega (arith, enough)) in
    ground (arith, new, read, inner, ih)
