-- ===== src/Runner/TestList.antt =====
-- daq/runner.py: the files that list the tests of a run.
use daq.Config.Tree.{Text, codes, text_beq_iff, text_eq}
use daq.Config.Flat.{
  Outcome, done, failed, ◌>>=◌, is_space, uncomment, unreadable, unfinished, wrong_type,
}
use daq.Base.{
  ℕ, zero, suc, ◌≡◌, refl, sym, ap, ◌∙◌, subst, ◌↔◌, Bool, true, false, not, ◌&&◌, ◌||◌, Option,
  none, some, List, [], ◌∷◌, ◌++◌, map, arith, if◌then◌else◌, Eq, ◌==◌, nat_eq, string_eq, select,
  nonempty, All, remove_first, append_assoc, append_nil, pair_eq,
}

abbrev argument_beq : Option Text → Option Text → Bool
argument_beq none none = true
argument_beq (some s) (some t) = s == t
argument_beq _ _ = false

pub argument_beq_iff : (a b : Option Text) → (argument_beq a b ≡ true) ↔ (a ≡ b)
argument_beq_iff none none = ground arith
argument_beq_iff none (some t) = ground arith
argument_beq_iff (some s) none = ground arith
argument_beq_iff (some s) (some t) = ground (arith, text_beq_iff s t)

-- An argument that a line does not have is None, which may be added like a name.
instance abbrev pub argument_eq : Eq (Option Text)
argument_eq = record { beq = argument_beq; beq_iff = argument_beq_iff }

-- `s.split()`, with the word that is being read.
unfoldable pub words : Text → Text → List Text
unfolding is_space
words word [] = if nonempty word then word ∷ [] else []
words word (c ∷ s) =
    let rest = words (if is_space c then [] else word ++ c ∷ []) s in
    if is_space c && nonempty word then word ∷ rest else rest

abbrev word_at : ℕ → List Text → Option Text
word_at n [] = none
word_at zero (w ∷ ws) = some w
word_at (suc n) (w ∷ ws) = word_at n ws

-- `test_ordering`
pub record Sections : Type 0 where
  pub first : List (Option Text)
  pub body : List (Option Text)
  pub final : List (Option Text)

pub data Place : Type 0 where
  at_first at_body at_last : Place

-- The section of an ordering; one that is not known or not there is the body.
unfoldable pub place_of : Option Text → Place
place_of ordering =
    if ordering == some (codes "first")
    then at_first
    else if ordering == some (codes "last")
    then at_last
    else at_body

-- `test_ordering.get(ordering, test_ordering["body"]).append(argument)`
unfoldable pub add_test : Place → Option Text → Sections → Sections
add_test at_first argument s = record s { first = s.first ++ argument ∷ [] }
add_test at_body argument s = record s { body = s.body ++ argument ∷ [] }
add_test at_last argument s = record s { final = s.final ++ argument ∷ [] }

-- `section.remove(argument)` for each section that has it.
unfoldable pub remove_test : Option Text → Sections → Sections
remove_test argument s = record {
  first = remove_first s.first argument;
  body = remove_first s.body argument;
  final = remove_first s.final argument;
}

-- `include` of a file whose name has the environment filled in by `resolve`.
unfoldable pub include_named :
    (Text → Option Text)
    → (Text → Sections → Outcome Sections)
    → Option Text
    → Sections
    → Outcome Sections
include_named resolve include none s = failed wrong_type
include_named resolve include (some path) s = elim (resolve path) [
  | none ↦ failed wrong_type
  | some file ↦ include file s
]

-- One line. Commands that are not known are skipped like `build`.
unfoldable pub list_command :
    (Text → Option Text)
    → (Text → Sections → Outcome Sections)
    → List Text
    → Sections
    → Outcome Sections
unfolding add_test remove_test include_named place_of
list_command resolve include cmd s =
    let name = word_at 0 cmd in
    let argument = word_at 1 cmd in
    if name == some (codes "add")
    then done (add_test (place_of (word_at 2 cmd)) argument s)
    else if name == some (codes "remove")
    then done (remove_test argument s)
    else if name == some (codes "include")
    then include_named resolve include argument s
    else done s

unfoldable pub list_lines :
    (Text → Option Text)
    → (Text → Sections → Outcome Sections)
    → List Text
    → Sections
    → Outcome Sections
unfolding list_command words uncomment
list_lines resolve include [] s = done s
list_lines resolve include (line ∷ lines) s =
    list_command resolve include (words [] (uncomment false line)) s
    >>= list_lines resolve include lines

module _ (read : Text → Option (List Text)) (resolve : Text → Option Text) where
  -- The inner `get_test_list`; files that include each other without an end take more rounds than any.
  unfoldable pub list_file : ℕ → Text → Sections → Outcome Sections
  unfolding list_lines
  list_file zero file s = failed unfinished
  list_file (suc rounds) file s = elim (read file) [
    | none ↦ failed unreadable
    | some lines ↦ list_lines resolve (list_file rounds) lines s
  ]

  -- `_get_test_list`
  unfoldable pub get_test_list : ℕ → Bool → Text → Outcome (List (Option Text))
  unfolding list_file
  get_test_list rounds no_test file =
      if no_test
      then done []
      else list_file rounds file (record { first = []; body = []; final = [] }) >>= λ s.
          done (s.first ++ (s.body ++ s.final))

abbrev is_at : Place → Place → Bool
is_at at_first at_first = true
is_at at_body at_body = true
is_at at_last at_last = true
is_at _ _ = false

-- The words of a line.
unfoldable pub command : Text → List Text
unfolding words uncomment
command line = words [] (uncomment false line)

-- The arguments of the lines of a file with an ordering of that place, in the order of the lines.
abbrev added : Place → List Text → List (Option Text)
added place [] = []
added place (line ∷ lines) =
    let rest = added place lines in
    if is_at place (place_of (word_at 2 (command line)))
    then word_at 1 (command line) ∷ rest
    else rest

abbrev IsAdd : Text → Type 0
IsAdd line = (word_at 0 (command line) == some (codes "add")) ≡ true

add_test-append :
    (p : Place) (argument : Option Text) (firsts bodies lasts : List (Option Text)) (s : Sections)
    → ◌≡◌ {A = Sections}
        (record {
          first = (add_test p argument s).first ++ firsts;
          body = (add_test p argument s).body ++ bodies;
          final = (add_test p argument s).final ++ lasts;
        })
        (record {
          first = s.first ++ (if is_at at_first p then argument ∷ firsts else firsts);
          body = s.body ++ (if is_at at_body p then argument ∷ bodies else bodies);
          final = s.final ++ (if is_at at_last p then argument ∷ lasts else lasts);
        })
unfolding add_test
add_test-append at_first argument firsts bodies lasts s =
    cc (append_assoc s.first (argument ∷ []) firsts)
add_test-append at_body argument firsts bodies lasts s =
    cc (append_assoc s.body (argument ∷ []) bodies)
add_test-append at_last argument firsts bodies lasts s =
    cc (append_assoc s.final (argument ∷ []) lasts)

list_command-add :
    (resolve : Text → Option Text) (include : Text → Sections → Outcome Sections) (cmd : List Text)
    (s : Sections)
    → (word_at 0 cmd == some (codes "add")) ≡ true
    → list_command resolve include cmd s
      ≡ done (add_test (place_of (word_at 2 cmd)) (word_at 1 cmd) s)
unfolding list_command
list_command-add resolve include cmd s h = rw h refl

list_lines-added :
    (resolve : Text → Option Text) (include : Text → Sections → Outcome Sections)
    (lines : List Text) (s : Sections)
    → All IsAdd lines
    → list_lines resolve include lines s
      ≡ done (record {
        first = s.first ++ added at_first lines;
        body = s.body ++ added at_body lines;
        final = s.final ++ added at_last lines;
      })
unfolding list_lines command
list_lines-added resolve include [] s adds =
    cc (append_nil s.first, append_nil s.body, append_nil s.final)
list_lines-added resolve include (line ∷ lines) s adds =
    let place = place_of (word_at 2 (command line)) in
    let argument = word_at 1 (command line) in
    rw (list_command-add resolve include (command line) s adds.0) (
      list_lines-added resolve include lines (add_test place argument s) adds.1
      ∙ ap (λ (x : Sections). done x)
          (add_test-append place argument (added at_first lines) (added at_body lines)
            (added at_last lines) s))

get_test_list-added :
    (read : Text → Option (List Text)) (resolve : Text → Option Text) (rounds : ℕ) (file : Text)
    (lines : List Text)
    → read file ≡ some lines
    → All IsAdd lines
    → get_test_list read resolve (suc rounds) false file
      ≡ done (added at_first lines ++ (added at_body lines ++ added at_last lines))
unfolding get_test_list
get_test_list-added read resolve rounds file lines there adds = ground (
  arith,
  there,
  list_lines-added resolve (list_file read resolve rounds) lines
      (record { first = []; body = []; final = [] }) adds,
)

-- An `add` line: the test and the ordering, which may be left out.
abbrev pub Entry : Type 0
Entry = Text × Option Text

-- The words that are on the line of an entry.
abbrev pub entry_words : Entry → List Text
entry_words (test, none) = codes "add" ∷ test ∷ []
entry_words (test, some ordering) = codes "add" ∷ test ∷ ordering ∷ []

-- The lines are `add` lines with these entries; what stands after a `#` and white space do not count.
abbrev pub Lists : List Text → List Entry → Type 0
Lists [] [] = Unit
Lists [] (e ∷ es) = ⊥
Lists (line ∷ lines) [] = ⊥
Lists (line ∷ lines) (e ∷ es) = (command line ≡ entry_words e) × Lists lines es

abbrev pub has_order : Text → Option Text → Bool
has_order word none = false
has_order word (some ordering) = ordering == word

abbrev pub tests : List Entry → List (Option Text)
tests entries = map (λ (e : Entry). some e.0) entries

abbrev pub firsts : List Entry → List Entry
firsts entries = select (λ (e : Entry). has_order (codes "first") e.1) entries

abbrev pub lasts : List Entry → List Entry
lasts entries = select (λ (e : Entry). has_order (codes "last") e.1) entries

abbrev pub others : List Entry → List Entry
others entries =
    select (λ (e : Entry). not (has_order (codes "first") e.1 || has_order (codes "last") e.1))
      entries

-- The tests with a test of the ordering.
abbrev chosen : (Option Text → Bool) → List Entry → List (Option Text)
chosen test entries = tests (select (λ (e : Entry). test e.1) entries)

first-last : (s : Text) → (s == codes "first") ≡ true → (s == codes "last") ≡ false
first-last s h =
    subst (λ x. (x == codes "last") ≡ false) (sym ((text_beq_iff s (codes "first")).0 h)) refl

place_of-order :
    (ordering : Option Text)
    → (is_at at_first (place_of ordering) ≡ has_order (codes "first") ordering)
      × (is_at at_last (place_of ordering) ≡ has_order (codes "last") ordering)
      × (is_at at_body (place_of ordering)
          ≡ not (has_order (codes "first") ordering || has_order (codes "last") ordering))
unfolding place_of
place_of-order none = (refl, refl, refl)
place_of-order (some s) = ground (arith, first-last s)

words-entry :
    (e : Entry)
    → (word_at 0 (entry_words e) ≡ some (codes "add"))
      × (word_at 1 (entry_words e) ≡ some e.0)
      × (word_at 2 (entry_words e) ≡ e.1)
words-entry (test, none) = (refl, refl, refl)
words-entry (test, some ordering) = (refl, refl, refl)

Lists-IsAdd : (lines : List Text) (es : List Entry) → Lists lines es → All IsAdd lines
Lists-IsAdd [] [] h = tt
Lists-IsAdd [] (e ∷ es) h = absurd h
Lists-IsAdd (line ∷ lines) [] h = absurd h
Lists-IsAdd (line ∷ lines) (e ∷ es) h =
    (rw h.0 (rw (words-entry e).0 refl), Lists-IsAdd lines es h.1)

-- The lines with an ordering of a place, where a test of the orderings tells that place.
added-chosen :
    (place : Place) (test : Option Text → Bool)
    → ((ordering : Option Text) → is_at place (place_of ordering) ≡ test ordering)
    → (lines : List Text) (es : List Entry) → Lists lines es
    → added place lines ≡ chosen test es
added-chosen place test told [] [] h = refl
added-chosen place test told [] (e ∷ es) h = absurd h
added-chosen place test told (line ∷ lines) [] h = absurd h
added-chosen place test told (line ∷ lines) (e ∷ es) h =
    rw (h.0, (words-entry e).1, (words-entry e).2, told e.1)
      (ground (arith, added-chosen place test told lines es h.1))

-- `_get_test_list` of a file of `add` lines: the tests with the ordering `first`, then those with another
-- or none, then those with the ordering `last`, each in the order of the lines.
pub get_test_list-tests :
    (read : Text → Option (List Text)) (resolve : Text → Option Text) (rounds : ℕ) (file : Text)
    (lines : List Text) (entries : List Entry)
    → read file ≡ some lines
    → Lists lines entries
    → get_test_list read resolve (suc rounds) false file
      ≡ done (tests (firsts entries) ++ (tests (others entries) ++ tests (lasts entries)))
get_test_list-tests read resolve rounds file lines entries there listed =
    get_test_list-added read resolve rounds file lines there (Lists-IsAdd lines entries listed)
    ∙ rw
        (
          added-chosen at_first _ (λ o. (place_of-order o).0) lines entries listed,
          added-chosen at_body _ (λ o. (place_of-order o).2) lines entries listed,
          added-chosen at_last _ (λ o. (place_of-order o).1) lines entries listed,
        )
        refl
