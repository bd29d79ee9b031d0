-- ===== src/Events/Buffer.antt =====
-- daq/faucet_event_client.py: the buffer is a queue of whole lines followed by part of a line.
use daq.Base.{
  ℕ, ◌≡◌, refl, sym, ap, ◌∙◌, true, false, Option, none, some, List, [], ◌∷◌, ◌++◌, arith, nat_eq,
  string_eq, length, length-append, nonempty, All, contains, take-append, drop-append, append_assoc,
  pair_eq,
}
use mathlib.Core.Option.{map as map_option}
use daq.Events.{
  has_line, prepend_event, append_event, has_line, prepend_event, append_event, newline, split_line,
  rfind,
}

-- The specification: the whole lines in their order, and the part of a line that has come in so far.
pub record Lines : Type 0 where
  pub whole : List (List ℕ)
  pub part : List ℕ

-- A text within one line.
abbrev pub IsPlain : List ℕ → Type 0
IsPlain text = contains text newline ≡ false

abbrev pub ArePlain : Lines → Type 0
ArePlain q = All IsPlain q.whole × IsPlain q.part

abbrev text_of : List (List ℕ) → List ℕ → List ℕ
text_of [] part = part
text_of (line ∷ lines) part = line ++ newline ∷ text_of lines part

-- The buffer that stands for the lines.
abbrev pub buffer_of : Lines → List ℕ
buffer_of q = text_of q.whole q.part

abbrev pub push_front : List ℕ → Lines → Lines
push_front line q = record q { whole = line ∷ q.whole }

abbrev pub push_back : List ℕ → Lines → Lines
push_back line q = record q { whole = q.whole ++ line ∷ [] }

abbrev pub pop_front : Lines → Option (List ℕ × Lines)
pop_front q = elim q.whole [
  | [] ↦ none
  | line ∷ lines ↦ some (line, record { whole = lines; part = q.part })
]

split-plain : (text : List ℕ) → IsPlain text → split_line text ≡ none
unfolding split_line
split-plain [] h = refl
split-plain (c ∷ text) h = ground (arith, split-plain text)

split-line :
    (line rest : List ℕ) → IsPlain line → split_line (line ++ newline ∷ rest) ≡ some (line, rest)
unfolding split_line
split-line [] rest h = refl
split-line (c ∷ line) rest h = ground (arith, split-line line rest)

rfind-plain : (text : List ℕ) → IsPlain text → rfind text ≡ none
unfolding rfind
rfind-plain [] h = refl
rfind-plain (c ∷ text) h = ground (arith, rfind-plain text)

-- The last newline of a text that ends with part of a line.
rfind-append : (xs part : List ℕ) → IsPlain part → rfind (xs ++ newline ∷ part) ≡ some (length xs)
unfolding rfind
rfind-append [] part h = rw (rfind-plain part h)
rfind-append (x ∷ xs) part h = rw (rfind-append xs part h) (ap some (omega arith))

-- With at least one whole line the text is some text before the last newline, and the part after it.
abbrev before : List ℕ → List (List ℕ) → List ℕ
before line [] = line
before line (next ∷ lines) = line ++ newline ∷ before next lines

text_of-before :
    (line : List ℕ) (lines : List (List ℕ)) (part : List ℕ)
    → text_of (line ∷ lines) part ≡ before line lines ++ newline ∷ part
text_of-before line [] part = refl
text_of-before line (next ∷ lines) part =
    ap (λ t. line ++ newline ∷ t) (text_of-before next lines part)
    ∙ sym (append_assoc line (newline ∷ before next lines) (newline ∷ part))

text_of-back :
    (lines : List (List ℕ)) (event part : List ℕ)
    → text_of (lines ++ event ∷ []) part ≡ text_of lines [] ++ (event ++ newline ∷ part)
text_of-back [] event part = refl
text_of-back (line ∷ lines) event part = cc (
  text_of-back lines event part,
  append_assoc line (newline ∷ text_of lines []) (event ++ newline ∷ part),
)

-- Where the part is all there is, the event goes before it.
append_event-part :
    (event part : List ℕ) → IsPlain part → append_event event part ≡ event ++ newline ∷ part
unfolding append_event
append_event-part event [] h = refl
append_event-part event (c ∷ part) h = rw (append_event, rfind-plain (c ∷ part) h) refl

-- Where a last newline ends some lines, the event goes after it.
append_event-before :
    (xs event part : List ℕ)
    → IsPlain part
    → append_event event (xs ++ newline ∷ part) ≡ xs ++ (newline ∷ event ++ newline ∷ part)
unfolding append_event
append_event-before xs event [] h =
    rw (append_event, rfind-append xs [] h)
      (ground (
        arith,
        length-append xs (newline ∷ []),
        append_assoc xs (newline ∷ []) event,
        append_assoc xs (newline ∷ event) (newline ∷ []),
      ))
append_event-before xs event (c ∷ part) h =
    rw (append_event, rfind-append xs (c ∷ part) h)
      (ground (
        arith,
        length-append xs (newline ∷ c ∷ part),
        take-append xs (newline ∷ c ∷ part),
        drop-append xs (newline ∷ c ∷ part),
        append_assoc xs (newline ∷ event) (newline ∷ c ∷ part),
      ))

append_event-back :
    (lines : List (List ℕ)) (event part : List ℕ)
    → IsPlain part
    → append_event event (text_of lines part) ≡ text_of (lines ++ event ∷ []) part
append_event-back [] event part h = append_event-part event part h
append_event-back (line ∷ lines) event part h =
    ap (append_event event) (text_of-before line lines part)
    ∙ append_event-before (before line lines) event part h
    ∙ sym (
        text_of-back (line ∷ lines) event part
        ∙ ap (λ t. t ++ (event ++ newline ∷ part)) (text_of-before line lines [])
        ∙ append_assoc (before line lines) (newline ∷ []) (event ++ newline ∷ part))

split_line-front :
    (lines : List (List ℕ)) (part : List ℕ)
    → ArePlain (record { whole = lines; part = part })
    → split_line (text_of lines part)
      ≡ map_option (λ r. (r.0, buffer_of r.1)) (pop_front (record { whole = lines; part = part }))
split_line-front [] part h = split-plain part h.1
split_line-front (line ∷ lines) part h = split-line line (text_of lines part) h.0.0

has_line-line : (line rest : List ℕ) → contains (line ++ newline ∷ rest) newline ≡ true
has_line-line [] rest = refl
has_line-line (c ∷ line) rest = ground (arith, has_line-line line rest)

has_line-front :
    (lines : List (List ℕ)) (part : List ℕ)
    → IsPlain part
    → has_line (text_of lines part) ≡ nonempty lines
unfolding has_line
has_line-front [] part h = h
has_line-front (line ∷ lines) part h = has_line-line line (text_of lines part)

-- The buffer implements the queue of lines. Where the lines and the part after them hold no newline, and
-- the event's text holds none: a text that is prepended is the first line, one that is appended is the
-- last line before the part, the split takes the first line off or fails where there is none, and there
-- is a line to take exactly where the queue has one.
pub buffer-refines_lines :
    (q : Lines) (event : List ℕ)
    → ArePlain q
    → IsPlain event
    → (prepend_event event (buffer_of q) ≡ buffer_of (push_front event q))
      × (append_event event (buffer_of q) ≡ buffer_of (push_back event q))
      × (split_line (buffer_of q) ≡ map_option (λ r. (r.0, buffer_of r.1)) (pop_front q))
      × (has_line (buffer_of q) ≡ nonempty q.whole)
unfolding prepend_event has_line
buffer-refines_lines q event h plain = (
  refl,
  append_event-back q.whole event q.part h.1,
  split_line-front q.whole q.part h,
  has_line-front q.whole q.part h.1,
)
