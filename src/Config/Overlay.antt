-- ===== src/Config/Overlay.antt =====
-- What stands in a configuration after another one was merged into it.
use daq.Config.Tree.{
  HasDicts-lookup, null, text, number, flag, sequence, child, find, is_mapping, HasDicts, sequence,
  flag, number, text, Text, Value, Fields, mapping, empty, field, lookup, assign, find, child,
  IsDict, text_eq, lookup-assign,
}
use daq.Config.Merge.{deep_merge_dict, merged}
use daq.Base.{
  ◌≡◌, refl, sym, ap, ◌∙◌, subst, ◌⊎◌, inl, inr, Bool, true, false, Option, none, some, List, [],
  ◌∷◌, arith, Bool-cases, Option-cases, ◌==◌, nat_eq, string_eq, beq→eq, pair_eq,
}

abbrev overlay : Option Value → Option Value → Option Value
overlay none old = old
overlay (some value) old = some (merged value old)

lookup-merge :
    (key : Text) (base adding : Fields)
    → IsDict adding
    → lookup key (deep_merge_dict base adding) ≡ overlay (lookup key adding) (lookup key base)
unfolding deep_merge_dict lookup
lookup-merge key base empty dict = refl
lookup-merge key base (field k v adding) dict =
    let base' : Fields = assign k (merged v (lookup k base)) base in
    let rest = lookup-merge key base' adding dict.2 in
    let here = lookup-assign key k (merged v (lookup k base)) base in
    elim (Bool-cases (key == k)) [
      | inl same ↦
          let e = beq→eq key k same in
          ground (
            arith,
            rest,
            here,
            e,
            same,
            dict.0,
            ap (λ (j : Text). lookup j adding) e,
            ap (λ (j : Text). lookup j base) e,
          )
      | inr other ↦ ground (arith, rest, here, other)
    ]

-- The path leaves the configuration before it meets a value that is no dict.
unfoldable pub leaves : List Text → Value → Bool
unfolding child find
leaves [] value = false
leaves (key ∷ path) value = elim (child key value) [
  | none ↦ is_mapping value
  | some inner ↦ leaves path inner
]

is_mapping-cases :
    (value : Value) → (is_mapping value ≡ false) ⊎ ((config : Fields) × (value ≡ mapping config))
is_mapping-cases (mapping config) = inr (config, refl)
is_mapping-cases null = inl refl
is_mapping-cases (text s) = inl refl
is_mapping-cases (number n) = inl refl
is_mapping-cases (flag b) = inl refl
is_mapping-cases (sequence l) = inl refl

child-none : (key : Text) (value : Value) → is_mapping value ≡ false → child key value ≡ none
unfolding child
child-none key (mapping config) h = absurd (cc)
child-none key null h = refl
child-none key (text s) h = refl
child-none key (number n) h = refl
child-none key (flag b) h = refl
child-none key (sequence l) h = refl

merged-leaf :
    (value : Value) (old : Option Value) → is_mapping value ≡ false → merged value old ≡ value
unfolding deep_merge_dict
merged-leaf (mapping config) old h = absurd (cc)
merged-leaf null old h = refl
merged-leaf (text s) old h = refl
merged-leaf (number n) old h = refl
merged-leaf (flag b) old h = refl
merged-leaf (sequence l) old h = refl

merged-fresh :
    (adding : Fields) (old : Value)
    → is_mapping old ≡ false
    → merged (mapping adding) (some old) ≡ mapping adding
unfolding deep_merge_dict
merged-fresh adding (mapping config) h = absurd (cc)
merged-fresh adding null h = refl
merged-fresh adding (text s) h = refl
merged-fresh adding (number n) h = refl
merged-fresh adding (flag b) h = refl
merged-fresh adding (sequence l) h = refl

leaves-find : (path : List Text) (value : Value) → leaves path value ≡ true → find path value ≡ none
unfolding leaves find
leaves-find [] value h = cc
leaves-find (key ∷ path) value h = elim (Option-cases (child key value)) [
  | inl gone ↦ ground (arith, gone)
  | inr (inner, there) ↦ ground (arith, there, leaves-find path inner)
]

-- A path that leaves a dict has a key, under which a value that is no dict has nothing.
leaves-find-leaf :
    (path : List Text) (value old : Value)
    → leaves path value ≡ true
    → is_mapping old ≡ false
    → find path old ≡ none
unfolding leaves find
leaves-find-leaf [] value old h leaf = absurd (cc)
leaves-find-leaf (key ∷ path) value old h leaf = ground (arith, child-none key old leaf)

leaves-is_mapping :
    (path : List Text) (value : Value) → leaves path value ≡ true → is_mapping value ≡ true
unfolding leaves
leaves-is_mapping [] value h = absurd (cc)
leaves-is_mapping (key ∷ path) value h = elim (is_mapping-cases value) [
  | inl leaf ↦ ground (arith, child-none key value leaf)
  | inr (config, e) ↦ ap is_mapping e
]

-- What stands at the end of a path in the value that a key had, if it had one.
abbrev reached : List Text → Option Value → Option Value
reached path none = none
reached path (some value) = find path value

abbrev IsMerge : List Text → Value → Value → Option Value → Type 0
IsMerge path value new old =
    ((v : Value) → find path value ≡ some v → is_mapping v ≡ false → find path new ≡ some v)
    × (leaves path value ≡ true → find path new ≡ reached path old)

IsMerge-leaf :
    (path : List Text) (value : Value) (old : Option Value)
    → is_mapping value ≡ false
    → IsMerge path value (merged value old) old
IsMerge-leaf path value old leaf = (
  λ v there _. rw (merged-leaf value old leaf) there,
  λ h. absurd (ground (arith, leaves-is_mapping path value h)),
)

IsMerge-mapping :
    (path : List Text) (adding : Fields) (old : Option Value)
    → ((base : Fields)
        → IsMerge path
            (mapping adding)
            (mapping (deep_merge_dict base adding))
            (some (mapping base)))
    → IsMerge path (mapping adding) (merged (mapping adding) old) old
unfolding deep_merge_dict
IsMerge-mapping path adding none ih = (λ v there _. there, leaves-find path (mapping adding))
IsMerge-mapping path adding (some value) ih = elim (is_mapping-cases value) [
  | inl leaf ↦ rw (merged-fresh adding value leaf) (
    λ v there _. there,
    λ h.
        leaves-find path (mapping adding) h
        ∙ sym (leaves-find-leaf path (mapping adding) value h leaf),
  )
  | inr (base, e) ↦ rw e (ih base)
]

find-child :
    (key : Text) (path : List Text) (config : Fields)
    → find (key ∷ path) (mapping config) ≡ reached path (lookup key config)
unfolding find child
find-child key path config = elim (Option-cases (lookup key config)) [
  | inl gone ↦ ground (arith, gone)
  | inr (inner, there) ↦ ground (arith, there)
]

-- `_deep_merge_dict` on configurations that are dicts: a value of the added configuration that is no
-- dict stands at its path afterwards, whatever the base has there, and a path that the added
-- configuration leaves leads where it leads in the base.
pub deep_merge_dict-find :
    (path : List Text) (base adding : Fields)
    → IsDict adding
    → ((v : Value)
        → find path (mapping adding) ≡ some v
        → is_mapping v ≡ false
        → find path (mapping (deep_merge_dict base adding)) ≡ some v)
      × (leaves path (mapping adding) ≡ true
          → find path (mapping (deep_merge_dict base adding)) ≡ find path (mapping base))
unfolding find leaves child
deep_merge_dict-find [] base adding dict =
    (λ v there leaf. absurd (ground (arith, there, leaf)), λ h. absurd (cc))
deep_merge_dict-find (key ∷ path) base adding dict =
    let merge = lookup-merge key base adding dict in
    elim (Option-cases (lookup key adding)) [
      | inl gone ↦
          (λ v there leaf. absurd (ground (arith, gone, there)), λ h. ground (arith, merge, gone))
      | inr (w, there) ↦
          let inner : IsMerge path w (merged w (lookup key base)) (lookup key base) =
            elim (is_mapping-cases w) [
              | inl leaf ↦ IsMerge-leaf path w (lookup key base) leaf
              | inr (sub, e) ↦
                  let d : IsDict sub = subst HasDicts e (HasDicts-lookup key adding w dict there) in
                  rw e (
                    IsMerge-mapping path sub (lookup key base)
                      (λ b. deep_merge_dict-find path b sub d))
            ] in
          (
            λ v h leaf.
                rw (find-child key path (deep_merge_dict base adding), merge, there)
                  (inner.0 v (rw (find-child key path adding, there) at h) leaf),
            λ h.
                rw
                  (
                    find-child key path (deep_merge_dict base adding),
                    find-child key path base,
                    merge,
                    there,
                  )
                  (inner.1 (ground (arith, there, h))),
          )
    ]
