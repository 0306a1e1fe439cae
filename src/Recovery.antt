-- ===== src/Recovery.antt =====
-- The recovery of a JSON object from the answer of a language model (src/utils/json_parser.py).
-- `json.loads` is an argument, none where it raises. An error keeps its class, not its text.
pub mod Fences
pub mod Prose
mod Tests
use saas_ai_agents_long_term.Prelude.{
  ℕ, zero, suc, ◌+◌, ◌-◌, Bool, true, false, Option, none, some, List, [], ◌∷◌, ◌++◌, ◌==◌, nat_eq,
  if◌then◌else◌, take, drop, ltb,
}
use saas_ai_agents_long_term.Prelude.Text.{Text, codes, starts_with, strip_prefix}
use saas_ai_agents_long_term.Effect.{Result, ok, err, pipeline}
use saas_ai_agents_long_term.Json.{Json, obj, Fields}
use saas_ai_agents_long_term.Transcript.{trim, newline}

abbrev pub fence : Text
fence = codes "```"

abbrev pub open_brace : ℕ
open_brace = 123

abbrev pub close_brace : ℕ
close_brace = 125

abbrev later : Option ℕ → Option ℕ
later none = none
later (some n) = some (suc n)

-- `text.find(c)`, none for -1
unfoldable pub find : ℕ → Text → Option ℕ
find c [] = none
find c (d ∷ t) = let rest = find c t in if c == d then some zero else later rest

abbrev last_of : Bool → Option ℕ → Option ℕ
last_of here (some n) = some (suc n)
last_of here none = if here then some zero else none

-- `text.rfind(c)`, none for -1
unfoldable pub rfind : ℕ → Text → Option ℕ
rfind c [] = none
rfind c (d ∷ t) = last_of (c == d) (rfind c t)

-- `text[first:end]`
abbrev pub slice : ℕ → ℕ → Text → Text
slice first end t = take (end - first) (drop first t)

abbrev pub add_to_line : Bool → ℕ → List Text → List Text
add_to_line true c lines = [] ∷ lines
add_to_line false c [] = (c ∷ []) ∷ []
add_to_line false c (l ∷ lines) = (c ∷ l) ∷ lines

-- `text.split("\n")`
unfoldable pub split : Text → List Text
split [] = [] ∷ []
split (c ∷ t) = add_to_line (c == newline) c (split t)

-- `"\n".join(lines)`
unfoldable pub join : List Text → Text
join [] = []
join (l ∷ []) = l
join (l ∷ m ∷ lines) = l ++ newline ∷ join (m ∷ lines)

-- The lines without a closing fence.
unfoldable pub drop_closing : List Text → List Text
unfolding trim strip_prefix
drop_closing [] = []
drop_closing (l ∷ []) = if starts_with fence (trim l) then [] else l ∷ []
drop_closing (l ∷ m ∷ lines) = l ∷ drop_closing (m ∷ lines)

unfoldable pub strip_code_fences : Text → Text
unfolding split join drop_closing trim strip_prefix
strip_code_fences t =
    if starts_with fence t then trim (join (drop_closing (drop 1 (split t)))) else t

abbrev pub only_object : Option Json → Option Fields
only_object (some (obj fs)) = some fs
only_object _ = none

module _ (loads : Text → Option Json) where
  abbrev pub try_parse : Text → Option Fields
  try_parse t = only_object (loads t)

  abbrev between_braces : Text → Option ℕ → Option ℕ → Option Fields
  between_braces t (some start) (some end) =
      if ltb start end then try_parse (slice start (end + 1) t) else none
  between_braces t _ _ = none

  unfoldable pub extract_outermost_braces : Text → Option Fields
  unfolding find rfind
  extract_outermost_braces t = between_braces t (find open_brace t) (rfind close_brace t)

  abbrev or_else : Option Fields → Option Fields → Option Fields
  or_else (some fs) other = some fs
  or_else none other = other

  abbrev or_raise : Option Fields → Result Fields
  or_raise (some fs) = ok fs
  or_raise none = err pipeline

  unfoldable pub parse : Text → Result Fields
  unfolding strip_code_fences extract_outermost_braces trim
  parse raw =
      let cleaned = strip_code_fences (trim raw) in
      or_raise (
        or_else (try_parse cleaned)
          (or_else (extract_outermost_braces cleaned) (extract_outermost_braces (trim raw))))
