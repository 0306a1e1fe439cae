-- ===== src/Transcript.antt =====
-- The session transcripts (src/agents/chat/s3_session_store.py). The bucket is a map from object keys
-- to bodies, as S3 keeps it; a call of S3 that fails is not modelled. `json.dumps` and `json.loads`
-- are arguments.
pub mod Keys
pub mod Contents
pub mod Refinement
mod Tests
use native.Mathlib.Decide.{ℕ_discrete}
use saas_ai_agents_long_term.Prelude.{
  nat_eq, ℕ, Bool, true, false, not, Option, none, some, List, [], ◌∷◌, ◌++◌, ◌==◌, if◌then◌else◌,
  keep, Eq,
}
use saas_ai_agents_long_term.Prelude.Dict.{Dict, lookup, insert, erase}
use saas_ai_agents_long_term.Prelude.Text.{Text, codes, starts_with, strip_prefix}
use saas_ai_agents_long_term.Prelude.Strings.{in_ranges, spaces}
use saas_ai_agents_long_term.Json.{Json}

Text-discrete : Discrete Text
Text-discrete = hlevel (ℕ_discrete)

instance unfoldable pub text_eq : Eq Text
unfolding Text-discrete
text_eq = record { dec = Text-discrete }

pub record SessionKey : Type 0 where
  pub project_key : Text
  pub session_id : Text
  pub subpath : Option Text

abbrev pub Bucket : Type 0
Bucket = Dict Text Text

abbrev pub slash : ℕ
slash = 47

abbrev pub newline : ℕ
newline = 10

-- Where `str.splitlines` cuts. It takes CR LF as one cut; the blank line that two cuts leave is skipped.
abbrev pub is_break : ℕ → Bool
is_break c = in_ranges ((10, 13) ∷ (28, 30) ∷ (133, 133) ∷ (8232, 8233) ∷ []) c

abbrev add_code : Bool → ℕ → List Text → List Text
add_code true c lines = [] ∷ lines
add_code false c [] = (c ∷ []) ∷ []
add_code false c (l ∷ lines) = (c ∷ l) ∷ lines

unfoldable pub split_lines : Text → List Text
split_lines [] = [] ∷ []
split_lines (c ∷ t) = add_code (is_break c) c (split_lines t)

abbrev is_blank : ℕ → Bool
is_blank c = in_ranges spaces c

unfoldable pub trim_left : Text → Text
trim_left [] = []
trim_left (c ∷ t) = let rest = trim_left t in if is_blank c then rest else c ∷ t

abbrev keep_code : ℕ → Text → Text
keep_code c [] = if is_blank c then [] else c ∷ []
keep_code c (d ∷ t) = c ∷ d ∷ t

unfoldable pub trim_right : Text → Text
trim_right [] = []
trim_right (c ∷ t) = keep_code c (trim_right t)

-- `line.strip()`
unfoldable pub trim : Text → Text
unfolding trim_left trim_right
trim t = trim_right (trim_left t)

abbrev pub ends_with_newline : Text → Bool
ends_with_newline [] = false
ends_with_newline (c ∷ []) = c == newline
ends_with_newline (c ∷ d ∷ t) = ends_with_newline (d ∷ t)

abbrev pub terminated : Text → Text
terminated [] = []
terminated (c ∷ t) = if ends_with_newline (c ∷ t) then c ∷ t else c ∷ t ++ newline ∷ []

abbrev pub or_empty : Option (List Json) → List Json
or_empty none = []
or_empty (some js) = js

abbrev pub or_none : Option (List Json) → Option (List Json)
or_none none = none
or_none (some []) = none
or_none (some (j ∷ js)) = some (j ∷ js)

pub record Codec : Type 0 where
  pub dumps : Json → Text
  pub loads : Text → Option Json
  -- `self._prefix`, without slashes at its ends
  pub prefix : Text

module _ (codec : Codec) where
  abbrev pub head_of : Text → SessionKey → Text
  head_of [] key = key.project_key ++ slash ∷ key.session_id
  head_of (c ∷ p) key = (c ∷ p) ++ slash ∷ key.project_key ++ slash ∷ key.session_id

  abbrev pub below : Text → Option Text → Text
  below head none = head ++ codes ".jsonl"
  below head (some []) = head ++ codes ".jsonl"
  below head (some (c ∷ s)) = head ++ slash ∷ (c ∷ s) ++ codes ".jsonl"

  unfoldable pub object_key : SessionKey → Text
  object_key key = below (head_of codec.prefix key) key.subpath

  unfoldable pub session_prefix : SessionKey → Text
  session_prefix key = head_of codec.prefix key ++ slash ∷ []

  -- One line: blank lines and lines that are not JSON are passed over.
  abbrev parsed : Option Json → List Json → List Json
  parsed none rest = rest
  parsed (some j) rest = j ∷ rest

  abbrev parse_line : Text → List Json → List Json
  parse_line [] rest = rest
  parse_line (c ∷ line) rest = parsed (codec.loads (c ∷ line)) rest

  unfoldable pub parse_lines : List Text → List Json
  unfolding trim
  parse_lines [] = []
  parse_lines (l ∷ lines) = parse_line (trim l) (parse_lines lines)

  unfoldable pub body_entries : Option Text → Option (List Json)
  unfolding split_lines parse_lines
  body_entries none = none
  body_entries (some body) = some (parse_lines (split_lines body))

  -- `_read_jsonl`: none where the object does not exist.
  unfoldable pub read_jsonl : Text → Bucket → Option (List Json)
  unfolding body_entries
  read_jsonl key bucket = body_entries (lookup key bucket)

  unfoldable pub joined : List Json → Text
  joined [] = []
  joined (j ∷ []) = codec.dumps j
  joined (j ∷ k ∷ js) = codec.dumps j ++ newline ∷ joined (k ∷ js)

  unfoldable pub write_jsonl : Text → List Json → Bucket → Bucket
  unfolding joined
  write_jsonl key entries bucket = insert key (terminated (joined entries)) bucket

  unfoldable pub append : SessionKey → List Json → Bucket → Bucket
  append key [] bucket = bucket
  append key (j ∷ js) bucket =
      write_jsonl (object_key key) (or_empty (read_jsonl (object_key key) bucket) ++ j ∷ js) bucket

  unfoldable pub load : SessionKey → Bucket → Option (List Json)
  load key bucket = or_none (read_jsonl (object_key key) bucket)

  unfoldable pub delete_prefix : Text → Bucket → Bucket
  unfolding strip_prefix
  delete_prefix prefix bucket = keep (λ o. not (starts_with prefix o.0)) bucket

  abbrev pub swept : Option Text → SessionKey → Bucket → Bucket
  swept none key bucket = delete_prefix (session_prefix key) bucket
  swept (some s) key bucket = bucket

  unfoldable pub delete : SessionKey → Bucket → Bucket
  unfolding session_prefix delete_prefix
  delete key bucket = swept key.subpath key (erase (object_key key) bucket)
