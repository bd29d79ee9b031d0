-- ===== src/Events/Lines.antt =====
-- daq/faucet_event_client.py: the buffer as text.
use daq.Base.{
  ℕ, ◌+◌, Bool, Option, none, some, List, [], ◌∷◌, ◌++◌, if◌then◌else◌, ◌==◌, nat_eq, string_eq,
  length, nonempty, contains, take, drop, pair_eq,
}

abbrev pub newline : ℕ
newline = 10

-- `'\n' in self.buffer`
unfoldable pub has_line : List ℕ → Bool
has_line buffer = contains buffer newline

-- `self.buffer.split('\n', 1)`: the first line and what remains after it, if there is a newline.
unfoldable pub split_line : List ℕ → Option (List ℕ × List ℕ)
split_line [] = none
split_line (c ∷ buffer) =
    let rest = split_line buffer in
    if c == newline
    then some ([], buffer)
    else elim rest [ none ↦ none | some r ↦ some (c ∷ r.0, r.1) ]

-- `self.buffer.rfind('\n')`, with none for -1.
unfoldable pub rfind : List ℕ → Option ℕ
rfind [] = none
rfind (c ∷ buffer) =
    let rest = rfind buffer in
    elim rest [ some i ↦ some (i + 1) | none ↦ if c == newline then some 0 else none ]

-- `_prepend_event`
unfoldable pub prepend_event : List ℕ → List ℕ → List ℕ
prepend_event event buffer = event ++ newline ∷ buffer

-- `_append_event`: the last newline ends the buffer, there is none, or part of a line follows it. An
-- empty buffer has the index -1, which is its length less one.
unfoldable pub append_event : List ℕ → List ℕ → List ℕ
unfolding rfind
append_event event buffer = elim (rfind buffer) [
  | none ↦ (if nonempty buffer then event ++ newline ∷ buffer else event ++ newline ∷ [])
  | some index ↦
      if index + 1 == length buffer
      then buffer ++ event ++ newline ∷ []
      else take index buffer ++ newline ∷ event ++ drop index buffer
]
