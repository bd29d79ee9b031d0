-- ===== src/Config/Flat.antt =====
-- daq/configurator.py: lines and arguments of the form `key.key=value`.
use daq.Config.Tree.{Text, Value, Fields, mapping, text, empty, lookup, assign}
use daq.Base.{
  ℕ, zero, suc, ◌≡◌, refl, ◌⊎◌, inl, inr, Bool, false, not, ◌&&◌, ◌||◌, Option, none, some, List,
  [], ◌∷◌, leb, if◌then◌else◌, ◌==◌, nat_eq, string_eq, length, nonempty, pair_eq,
}

-- `circular`, `unknown_entry`, `unknown_type`, `unknown_arg`, `not_found`: what the code raises;
-- `unreadable`: the file cannot be opened or parsed; `wrong_type`: a value of another type than the
-- code uses it as; `outdated`: a file of a name that is no longer in use; `unfinished`: the bound on the
-- rounds is met.
pub data ConfigError : Type 0 where
  circular unknown_entry unknown_type unknown_arg not_found unreadable wrong_type outdated
        unfinished :
      ConfigError

pub data Outcome (A : Type 0) : Type 0 where
  done : A → Outcome A
  failed : ConfigError → Outcome A

pub Outcome-cases :
    {A : Type 0} (r : Outcome A) → ((x : ConfigError) × (r ≡ failed x)) ⊎ ((a : A) × (r ≡ done a))
Outcome-cases (failed x) = inl (x, refl)
Outcome-cases (done a) = inr (a, refl)

module _ {A B : Type 0} where
  infixl 5 ◌>>=◌
  abbrev pub ◌>>=◌ : Outcome A → (A → Outcome B) → Outcome B
  done a >>= f = f a
  failed x >>= f = failed x

-- A split on a result that may be missing.
abbrev pub on_option {ℓ} : {A : Type ℓ} {B : Type 0} → Option A → B → (A → B) → B
on_option none r f = r
on_option (some a) r f = f a

-- The characters that `str.strip()` takes off.
unfoldable pub is_space : ℕ → Bool
is_space c =
    (leb 9 c && leb c 13)
    || (leb 28 c && leb c 32)
    || c == 133
    || c == 160
    || c == 5760
    || (leb 8192 c && leb c 8202)
    || c == 8232
    || c == 8233
    || c == 8239
    || c == 8287
    || c == 12288

module _ (p : ℕ → Bool) where
  unfoldable pub lstrip : Text → Text
  lstrip [] = []
  lstrip (c ∷ s) = let rest = lstrip s in if p c then rest else c ∷ s

  unfoldable pub rstrip : Text → Text
  rstrip [] = []
  rstrip (c ∷ s) = let rest = rstrip s in if p c && not (nonempty rest) then [] else c ∷ rest

-- `s.strip(…)` for the characters of which `p` holds.
unfoldable pub strip : (ℕ → Bool) → Text → Text
unfolding lstrip rstrip
strip p s = rstrip p (lstrip p s)

-- `s.split(separator, 1)`, with none where the separator does not occur.
unfoldable pub split_once : ℕ → Text → Option (Text × Text)
split_once separator [] = none
split_once separator (c ∷ s) =
    let rest = split_once separator s in
    if c == separator
    then some ([], s)
    else elim rest [ none ↦ none | some r ↦ some (c ∷ r.0, r.1) ]

-- `re.sub(r'#.*', '', line)`: the flag says that a comment runs, which ends at a newline.
unfoldable pub uncomment : Bool → Text → Text
uncomment inside [] = []
uncomment inside (c ∷ s) =
    let inside' = (inside || c == b'#') && not (c == b'\n') in
    let rest = uncomment inside' s in if inside' then rest else c ∷ rest

unfoldable pub strip_value : Value → Value
unfolding strip is_space
strip_value (text s) = text (strip (λ c. c == b'\'') (strip (λ c. c == b'"') (strip is_space s)))
strip_value value = value

-- The dict that a key has, or a new one.
unfoldable pub sub_dict : Option Value → Outcome Fields
sub_dict none = done empty
sub_dict (some (mapping sub)) = done sub
sub_dict (some _) = failed wrong_type

-- `config.setdefault(key, {})`, which is used as a dict.
unfoldable pub setdefault : Text → Fields → Outcome Fields
unfolding lookup sub_dict
setdefault key config = sub_dict (lookup key config)

abbrev pub put_under : Text → Fields → Outcome Fields → Outcome Fields
put_under key config sub = sub >>= λ s. done (assign key (mapping s) config)

-- `_parse_flat_item`. A round takes a dot off the key, so that the length of the key bounds them.
unfoldable pub parse_flat_item : ℕ → Fields → Text → Value → Outcome Fields
unfolding strip_value setdefault split_once strip is_space
parse_flat_item zero config key value = failed unfinished
parse_flat_item (suc rounds) config key value =
    let key' = strip is_space key in
    let value' = strip_value value in
    let under = λ (parts : Text × Text).
      let rest = λ (sub : Fields). parse_flat_item rounds sub parts.1 value' in
      put_under parts.0 config (setdefault parts.0 config >>= rest) in
    on_option (split_once b'.' key') (done (assign key' value' config)) under

unfoldable pub flat_item : Fields → Text → Text → Outcome Fields
unfolding parse_flat_item
flat_item config key value = parse_flat_item (suc (length key)) config key (text value)

-- `_read_flat_config`, one line.
unfoldable pub read_line : Text → Fields → Outcome Fields
unfolding flat_item uncomment strip is_space split_once
read_line line config =
    let entry = strip is_space (uncomment false line) in
    on_option (split_once b'=' entry) (if nonempty entry then failed unknown_entry else done config)
      (λ parts. flat_item config parts.0 parts.1)

-- The loop of `_read_flat_config`.
unfoldable pub read_lines : List Text → Fields → Outcome Fields
unfolding read_line
read_lines [] config = done config
read_lines (line ∷ lines) config = read_line line config >>= read_lines lines
