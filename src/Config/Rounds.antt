-- ===== src/Config/Rounds.antt =====
-- The length of a key bounds the rounds of `_parse_flat_item`, so that reading a file always ends.
use daq.Config.Tree.{null, number, flag, sequence, empty, Text, Value, Fields, text, mapping}
use daq.Config.Flat.{
  Outcome-cases, failed, unfinished, lstrip, rstrip, strip, split_once, parse_flat_item, setdefault,
  flat_item, read_line, read_lines, is_space, strip_value, uncomment,
}
use daq.Config.Files.{as_dict, Disk, read_config}
use daq.Base.{
  ℕ, zero, suc, ◌≤◌, ◌<◌, ◌≡◌, ◌≢◌, inl, inr, Bool, false, some, List, [], ◌∷◌, arith, Option-cases,
  nat_eq, string_eq, length, pair_eq,
}

length-lstrip : (p : ℕ → Bool) (s : Text) → length (lstrip p s) ≤ length s
unfolding lstrip
length-lstrip p [] = omega arith
length-lstrip p (c ∷ s) = ground (arith, length-lstrip p s)

length-rstrip : (p : ℕ → Bool) (s : Text) → length (rstrip p s) ≤ length s
unfolding rstrip
length-rstrip p [] = omega arith
length-rstrip p (c ∷ s) = ground (arith, length-rstrip p s)

length-strip : (p : ℕ → Bool) (s : Text) → length (strip p s) ≤ length s
unfolding strip
length-strip p s = omega (arith, length-lstrip p s, length-rstrip p (lstrip p s))

length-split_once :
    (separator : ℕ) (s : Text) (parts : Text × Text)
    → split_once separator s ≡ some parts
    → length parts.1 < length s
unfolding split_once
length-split_once separator [] parts h = absurd (cc)
length-split_once separator (c ∷ s) parts h = elim (Option-cases (split_once separator s)) [
  | inl gone ↦ ground (arith, gone)
  | inr (r, there) ↦ ground (arith, there, length-split_once separator s r)
]

setdefault-finishes : (key : Text) (config : Fields) → setdefault key config ≢ failed unfinished
unfolding setdefault
setdefault-finishes key config = ground (arith)

parse_flat_item-finishes :
    (rounds : ℕ) (config : Fields) (key : Text) (value : Value)
    → length key < rounds
    → parse_flat_item rounds config key value ≢ failed unfinished
unfolding parse_flat_item
parse_flat_item-finishes zero config key value enough = omega arith
parse_flat_item-finishes (suc rounds) config key value enough =
    elim (Option-cases (split_once b'.' (strip is_space key))) [
      | inl gone ↦ ground (arith, gone)
      | inr (parts, there) ↦
          let shorter = length-split_once b'.' (strip is_space key) parts there in
          let ih = λ (sub : Fields).
            parse_flat_item-finishes rounds sub parts.1 (strip_value value)
              (omega (arith, shorter, enough, length-strip is_space key)) in
          elim (Outcome-cases (setdefault parts.0 config)) [
            | inl (x, broken) ↦ ground (arith, there, broken, setdefault-finishes parts.0 config)
            | inr (sub, under) ↦ ground (arith, there, under, ih sub)
          ]
    ]

flat_item-finishes :
    (config : Fields) (key value : Text) → flat_item config key value ≢ failed unfinished
unfolding flat_item
flat_item-finishes config key value =
    parse_flat_item-finishes (suc (length key)) config key (text value) (omega arith)

read_line-finishes : (line : Text) (config : Fields) → read_line line config ≢ failed unfinished
unfolding read_line
read_line-finishes line config =
    let entry = strip is_space (uncomment false line) in
    elim (Option-cases (split_once b'=' entry)) [
      | inl gone ↦ ground (arith, gone)
      | inr (parts, there) ↦ ground (arith, there, flat_item-finishes config parts.0 parts.1)
    ]

read_lines-finishes :
    (lines : List Text) (config : Fields) → read_lines lines config ≢ failed unfinished
unfolding read_lines
read_lines-finishes [] config = cc
read_lines-finishes (line ∷ lines) config = elim (Outcome-cases (read_line line config)) [
  | inl (x, broken) ↦ ground (arith, broken, read_line-finishes line config)
  | inr (config', there) ↦ ground (arith, there, read_lines-finishes lines config')
]

as_dict-finishes : (value : Value) → as_dict value ≢ failed unfinished
unfolding as_dict
as_dict-finishes (mapping config) = cc
as_dict-finishes null = cc
as_dict-finishes (text s) = cc
as_dict-finishes (number n) = cc
as_dict-finishes (flag b) = cc
as_dict-finishes (sequence l) = cc

pub read_config-finishes : (disk : Disk) (file : Text) → read_config disk file ≢ failed unfinished
unfolding read_config
read_config-finishes disk file = elim (Option-cases (disk.yaml file)) [
  | inl broken ↦ elim (Option-cases (disk.lines file)) [
    | inl gone ↦ ground (arith, broken, gone)
    | inr (lines, there) ↦ ground (arith, broken, there, read_lines-finishes lines empty)
  ]
  | inr (value, read) ↦ elim (Option-cases (disk.lines file)) [
    | inl gone ↦ ground (arith, read, gone, as_dict-finishes value)
    | inr (lines, there) ↦
        ground (arith, read, there, as_dict-finishes value, read_lines-finishes lines empty)
  ]
]
