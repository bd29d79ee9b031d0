-- ===== src/Config/Tree.antt =====
-- daq/configurator.py: a configuration as Python has it, dicts within a dict, over texts as lists of code points.
use Prim.Native.Char.{code}
use daq.Base.{
  ℕ, String, ◌≡◌, refl, subst, ◌↔◌, inl, inr, Bool, true, false, not, ◌&&◌, Option, none, some,
  List, [], ◌∷◌, arith, nat_beq, if◌then◌else◌, nat_beq_iff, Bool-cases, Eq, ◌==◌, nat_eq,
  string_eq, nonempty, pair_eq,
}

abbrev pub Text : Type 0
Text = List ℕ

-- A text by its literal.
abbrev pub codes : String → Text
codes String.[] = []
codes (String.◌∷◌ c s) = code c ∷ codes s

abbrev text_beq : Text → Text → Bool
text_beq [] [] = true
text_beq (a ∷ s) (b ∷ t) = nat_beq a b && text_beq s t
text_beq _ _ = false

pub text_beq_iff : (s t : Text) → (text_beq s t ≡ true) ↔ (s ≡ t)
text_beq_iff [] [] = ground arith
text_beq_iff [] (b ∷ t) = ground arith
text_beq_iff (a ∷ s) [] = ground arith
text_beq_iff (a ∷ s) (b ∷ t) = ground (arith, text_beq_iff s t, nat_beq_iff a b)

instance abbrev pub text_eq : Eq Text
text_eq = record { beq = text_beq; beq_iff = text_beq_iff }

mutual
  pub data Value : Type 0 where
    null : Value
    text : Text → Value
    number : ℕ → Value
    flag : Bool → Value
    sequence : Items → Value
    mapping : Fields → Value

  pub data Items : Type 0 where
    done : Items
    item : Value → Items → Items

  pub data Fields : Type 0 where
    empty : Fields
    field : Text → Value → Fields → Fields

-- `config.get(key)`
unfoldable pub lookup : Text → Fields → Option Value
lookup key empty = none
lookup key (field k v config) = if key == k then some v else lookup key config

-- `config[key] = value`
unfoldable pub assign : Text → Value → Fields → Fields
assign key value empty = field key value empty
assign key value (field k v config) =
    if key == k then field k value config else field k v (assign key value config)

-- `config.pop(key)`, for what stays.
unfoldable pub pop : Text → Fields → Fields
pop key empty = empty
pop key (field k v config) = if key == k then pop key config else field k v (pop key config)

pub lookup-assign :
    (j k : Text) (v : Value) (config : Fields)
    → lookup j (assign k v config) ≡ (if j == k then some v else lookup j config)
unfolding lookup assign
lookup-assign j k v empty = refl
lookup-assign j k v (field i w config) =
    ground (arith, lookup-assign j k v config, text_beq_iff j k, text_beq_iff k i, text_beq_iff j i)

-- What stands at a path of keys.
unfoldable pub child : Text → Value → Option Value
unfolding lookup
child key (mapping config) = lookup key config
child key _ = none

unfoldable pub find : List Text → Value → Option Value
unfolding child
find [] value = some value
find (key ∷ path) value = elim (child key value) [ none ↦ none | some inner ↦ find path inner ]

-- A dict has each key once, at every level.
abbrev mutual
  pub IsDict : Fields → Type 0
  IsDict empty = Unit
  IsDict (field key value config) = (lookup key config ≡ none) × HasDicts value × IsDict config

  pub HasDicts : Value → Type 0
  HasDicts (mapping config) = IsDict config
  HasDicts _ = Unit

pub HasDicts-lookup :
    (key : Text) (config : Fields) (value : Value)
    → IsDict config
    → lookup key config ≡ some value
    → HasDicts value
unfolding lookup
HasDicts-lookup key empty value dict h = absurd (cc)
HasDicts-lookup key (field k v config) value dict h = elim (Bool-cases (key == k)) [
  | inl same ↦ let e : v ≡ value = ground (arith, same) in subst HasDicts e dict.1
  | inr other ↦ HasDicts-lookup key config value dict.2 (ground (arith, other))
]

abbrev pub is_mapping : Value → Bool
is_mapping (mapping config) = true
is_mapping _ = false

-- The truth value of a configured value.
abbrev pub is_true : Value → Bool
is_true null = false
is_true (text s) = nonempty s
is_true (number n) = not (n == 0)
is_true (flag b) = b
is_true (sequence done) = false
is_true (sequence (item v l)) = true
is_true (mapping empty) = false
is_true (mapping (field k v f)) = true
