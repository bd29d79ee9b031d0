-- ===== src/Config/Items.antt =====
-- An entry `key.key=value`: what the configuration has afterwards.
use daq.Config.Tree.{
  null, number, flag, sequence, sequence, flag, number, Text, Value, Fields, text, mapping, lookup,
  assign, find, child, lookup-assign, text_eq, is_mapping, empty,
}
use daq.Config.Flat.{
  flat_item, done, lstrip, rstrip, strip, split_once, parse_flat_item, setdefault, is_space,
  strip_value,
}
use daq.Base.{
  ℕ, zero, suc, ◌<◌, ◌≡◌, refl, sym, ap, ◌∙◌, subst, inl, inr, Bool, true, false, not, ◌&&◌, ◌||◌,
  none, some, List, [], ◌∷◌, ◌++◌, arith, Bool-cases, Option-cases, ◌==◌, nat_eq, string_eq,
  beq_self, beq→eq, length, length-append, all, pair_eq,
}
use daq.Base.Dict.{keys}

-- A key of a dotted name: no white space and no dot.
unfoldable pub is_name_char : ℕ → Bool
unfolding is_space
is_name_char c = not (is_space c) && not (c == b'.')

unfoldable pub is_name : Text → Bool
is_name s = all is_name_char s

is_name_char-blank : (c : ℕ) → is_name_char c ≡ true → is_space c ≡ false
is_name_char-blank c h = elim (Bool-cases (is_space c)) [
  | inl blank ↦ absurd (unfold is_name_char in cc)
  | inr other ↦ other
]

-- `key.key`
unfoldable pub dotted : Text → List Text → Text
dotted key [] = key
dotted key (k ∷ keys) = key ++ (b'.' ∷ dotted k keys)

-- No value that is no dict stands in the way of the keys.
unfoldable pub is_open : Text → List Text → Value → Bool
unfolding child
is_open key [] value = is_mapping value
is_open key (k ∷ keys) value = elim (child key value) [
  | none ↦ is_mapping value
  | some inner ↦ is_open k keys inner
]

-- Two paths part: neither goes on where the other one ends.
unfoldable pub apart : List Text → List Text → Bool
apart [] q = false
apart (a ∷ p) [] = false
apart (a ∷ p) (b ∷ q) = not (a == b) || apart p q

abbrev blank_free : Text → Bool
blank_free s = all (λ c. not (is_space c)) s

lstrip-blank_free : (s : Text) → blank_free s ≡ true → lstrip is_space s ≡ s
unfolding lstrip
lstrip-blank_free [] h = refl
lstrip-blank_free (c ∷ s) h = ground arith

rstrip-blank_free : (s : Text) → blank_free s ≡ true → rstrip is_space s ≡ s
unfolding rstrip
rstrip-blank_free [] h = refl
rstrip-blank_free (c ∷ s) h = ground (arith, rstrip-blank_free s)

strip-blank_free : (s : Text) → blank_free s ≡ true → strip is_space s ≡ s
unfolding strip
strip-blank_free s h = rw (lstrip-blank_free s h) (rstrip-blank_free s h)

blank_free-append :
    (s t : Text) → blank_free s ≡ true → blank_free t ≡ true → blank_free (s ++ t) ≡ true
blank_free-append [] t hs ht = ht
blank_free-append (c ∷ s) t hs ht = ground (arith, blank_free-append s t)

is_name-blank_free : (s : Text) → is_name s ≡ true → blank_free s ≡ true
unfolding is_name
is_name-blank_free [] h = refl
is_name-blank_free (c ∷ s) h = ground (arith, is_name-blank_free s, is_name_char-blank c)

blank_free-dot : (t : Text) → blank_free t ≡ true → blank_free (b'.' ∷ t) ≡ true
unfolding is_space
blank_free-dot t h = h

blank_free-dotted :
    (key : Text) (path : List Text)
    → is_name key ≡ true
    → all is_name path ≡ true
    → blank_free (dotted key path) ≡ true
unfolding dotted
blank_free-dotted key [] h hs = is_name-blank_free key h
blank_free-dotted key (k ∷ path) h hs =
    let rest = blank_free-dotted k path (ground arith) (ground arith) in
    blank_free-append key (b'.' ∷ dotted k path) (is_name-blank_free key h)
      (blank_free-dot (dotted k path) rest)

is_name_char-dot : (c : ℕ) → is_name_char c ≡ true → (c == b'.') ≡ false
is_name_char-dot c h = elim (Bool-cases (c == b'.')) [
  | inl dot ↦ absurd (unfold is_name_char in ground (arith, dot))
  | inr other ↦ other
]

split_once-is_name : (s : Text) → is_name s ≡ true → split_once b'.' s ≡ none
unfolding split_once is_name
split_once-is_name [] h = refl
split_once-is_name (c ∷ s) h = ground (arith, split_once-is_name s, is_name_char-dot c)

split_once-append :
    (s t : Text) → is_name s ≡ true → split_once b'.' (s ++ (b'.' ∷ t)) ≡ some (s, t)
unfolding split_once is_name
split_once-append [] t h = refl
split_once-append (c ∷ s) t h = ground (arith, split_once-append s t, is_name_char-dot c)

is_open-empty : (key : Text) (path : List Text) → is_open key path (mapping empty) ≡ true
unfolding is_open
is_open-empty key [] = refl
is_open-empty key (k ∷ path) = refl

is_open-is_mapping :
    (key : Text) (path : List Text) (value : Value)
    → is_open key path value ≡ true
    → (config : Fields) × (value ≡ mapping config)
unfolding is_open child
is_open-is_mapping key path (mapping config) h = (config, refl)
is_open-is_mapping key [] null h = absurd (cc)
is_open-is_mapping key [] (text s) h = absurd (cc)
is_open-is_mapping key [] (number n) h = absurd (cc)
is_open-is_mapping key [] (flag b) h = absurd (cc)
is_open-is_mapping key [] (sequence l) h = absurd (cc)
is_open-is_mapping key (k ∷ path) null h = absurd (cc)
is_open-is_mapping key (k ∷ path) (text s) h = absurd (cc)
is_open-is_mapping key (k ∷ path) (number n) h = absurd (cc)
is_open-is_mapping key (k ∷ path) (flag b) h = absurd (cc)
is_open-is_mapping key (k ∷ path) (sequence l) h = absurd (cc)

find-lookup :
    (key : Text) (p : List Text) (config : Fields) (inner : Value)
    → lookup key config ≡ some inner
    → find (key ∷ p) (mapping config) ≡ find p inner
unfolding find child
find-lookup key p config inner there = ground (arith, there)

-- Under an open path of keys the next dict is there or begins empty.
setdefault-is_open :
    (key k : Text) (path : List Text) (config : Fields)
    → is_open key (k ∷ path) (mapping config) ≡ true
    → (sub : Fields) × (setdefault key config ≡ done sub)
      × (is_open k path (mapping sub) ≡ true)
      × ((j : Text) (p : List Text)
          → find (key ∷ j ∷ p) (mapping config) ≡ find (j ∷ p) (mapping sub))
unfolding is_open setdefault child find
setdefault-is_open key k path config h = elim (Option-cases (lookup key config)) [
  | inl gone ↦ (empty, ground (arith, gone), is_open-empty k path, λ j p. ground (arith, gone))
  | inr (inner, there) ↦
      let inside : is_open k path inner ≡ true = ground (arith, there, h) in
      let m = is_open-is_mapping k path inner inside in
      (
        m.0,
        ground (arith, there, m.1),
        subst (λ v. is_open k path v ≡ true) m.1 inside,
        λ j p. find-lookup key (j ∷ p) config inner there ∙ ap (find (j ∷ p)) m.1,
      )
]

-- An assignment under a key keeps the value of every path that begins with another key.
find-assign :
    (j : Text) (p : List Text) (key : Text) (value : Value) (config : Fields)
    → (j == key) ≡ false
    → find (j ∷ p) (mapping (assign key value config)) ≡ find (j ∷ p) (mapping config)
unfolding find child
find-assign j p key value config other = ground (arith, lookup-assign j key value config, other)

find-same :
    (p : List Text) (key : Text) (value : Value) (config : Fields)
    → find (key ∷ p) (mapping (assign key value config)) ≡ find p value
unfolding find child
find-same p key value config = ground (arith, lookup-assign key key value config, beq_self key)

apart-one : (p : List Text) → apart p [] ≡ false
unfolding apart
apart-one [] = refl
apart-one (a ∷ p) = refl

apart-key : (j key : Text) (p : List Text) → apart (j ∷ p) (key ∷ []) ≡ true → (j == key) ≡ false
unfolding apart
apart-key j key p h = ground (arith, apart-one p, h)

-- What stands under a path that parts from the path of an assignment below a key.
find-below :
    (key : Text) (config sub new : Fields) (q : List Text)
    → ((j : Text) (p : List Text)
        → find (key ∷ j ∷ p) (mapping config) ≡ find (j ∷ p) (mapping sub))
    → ((p : List Text) → apart p q ≡ true → find p (mapping new) ≡ find p (mapping sub))
    → (p : List Text) → apart p (key ∷ q) ≡ true
    → find p (mapping (assign key (mapping new) config)) ≡ find p (mapping config)
unfolding apart
find-below key config sub new q start below [] h = absurd (ground (arith, h))
find-below key config sub new q start below (j ∷ p) h = elim (Bool-cases (j == key)) [
  | inr other ↦ find-assign j p key (mapping new) config other
  | inl same ↦
      let e : j ≡ key = beq→eq j key same in
      let rest : apart p q ≡ true = ground (arith, h, same) in
      subst
        (λ k.
          find (k ∷ p) (mapping (assign key (mapping new) config)) ≡ find (k ∷ p) (mapping config))
        (sym e) (find-same p key (mapping new) config ∙ below p rest ∙ sym (begins p rest))
]
  where
    begins :
        (p : List Text) → apart p q ≡ true → find (key ∷ p) (mapping config) ≡ find p (mapping sub)
    begins [] h = absurd (ground (arith, h))
    begins (j ∷ p) h = start j p

parse_flat_item-dotted :
    (path : List Text) (rounds : ℕ) (config : Fields) (key : Text) (value : Value)
    → is_name key ≡ true
    → all is_name path ≡ true
    → strip_value value ≡ value
    → is_open key path (mapping config) ≡ true
    → length (dotted key path) < rounds
    → (new : Fields) × (parse_flat_item rounds config (dotted key path) value ≡ done new)
      × (find (key ∷ path) (mapping new) ≡ some value)
      × ((p : List Text)
          → apart p (key ∷ path) ≡ true
          → find p (mapping new) ≡ find p (mapping config))
unfolding parse_flat_item find child dotted apart
parse_flat_item-dotted [] zero config key value h hs clean free enough =
    absurd (omega (arith, enough))
parse_flat_item-dotted (k ∷ path) zero config key value h hs clean free enough =
    absurd (omega (arith, enough))
parse_flat_item-dotted [] (suc rounds) config key value h hs clean free enough =
    let whole = strip-blank_free key (is_name-blank_free key h) in
    (
      assign key value config,
      ground (arith, whole, split_once-is_name key h, clean),
      ground (arith, lookup-assign key key value config, beq_self key),
      kept,
    )
  where
    kept :
        (p : List Text)
        → apart p (key ∷ []) ≡ true
        → find p (mapping (assign key value config)) ≡ find p (mapping config)
    kept [] h = absurd (unfold apart in ground (arith, h))
    kept (j ∷ p) h = find-assign j p key value config (apart-key j key p h)
parse_flat_item-dotted (k ∷ path) (suc rounds) config key value h hs clean free enough =
    let rest = dotted k path in
    let whole = strip-blank_free (key ++ (b'.' ∷ rest)) (blank_free-dotted key (k ∷ path) h hs) in
    let start = setdefault-is_open key k path config free in
    let shorter = length-append key (b'.' ∷ rest) in
    let ih =
      parse_flat_item-dotted path rounds start.0 k value (ground arith) (ground arith) clean start.2
        (omega (arith, shorter, enough)) in
    let inner = mapping ih.0 in
    (
      assign key inner config,
      ground (arith, whole, split_once-append key rest h, clean, start.1, ih.1),
      ground (arith, lookup-assign key key inner config, beq_self key, ih.2),
      find-below key config start.0 ih.0 (k ∷ path) start.3 ih.3,
    )

-- `_parse_flat_item` of a text under a dotted key whose parts hold no white space: where no value that
-- is no dict stands on the way it succeeds, the text stands at the path of the parts, and every path that
-- parts from this one, at the top or at any depth, has the value that it had. The text is one that the
-- strips leave as it is.
pub flat_item-find :
    (config : Fields) (key : Text) (path : List Text) (s : Text)
    → is_name key ≡ true
    → all is_name path ≡ true
    → strip_value (text s) ≡ text s
    → is_open key path (mapping config) ≡ true
    → (new : Fields) × (flat_item config (dotted key path) s ≡ done new)
      × (find (key ∷ path) (mapping new) ≡ some (text s))
      × ((p : List Text)
          → apart p (key ∷ path) ≡ true
          → find p (mapping new) ≡ find p (mapping config))
unfolding flat_item
flat_item-find config key path s h hs clean free =
    parse_flat_item-dotted path (suc (length (dotted key path))) config key (text s) h hs clean free
      (omega arith)
