-- ===== src/Transcript/Contents.antt =====
-- The JSON Lines of an object: what was written is what is read (src/agents/chat/s3_session_store.py).
use saas_ai_agents_long_term.Prelude.{
  ℕ, false, some, List, [], ◌∷◌, ◌++◌, ◌≡◌, refl, ap, sym, ◌∙◌, arith, All, ◌==◌, nat_eq,
  Bool-cases, if◌then◌else◌, inl, inr,
}
use saas_ai_agents_long_term.Prelude.Dict.{lookup-insert}
use saas_ai_agents_long_term.Prelude.Text.{Text}
use saas_ai_agents_long_term.Json.{Json}
use saas_ai_agents_long_term.Transcript.{
  Codec, Bucket, is_break, newline, split_lines, trim, parse_lines, joined, ends_with_newline,
  terminated, read_jsonl, write_jsonl, text_eq,
}

-- What `json.dumps` promises of an entry: one line, without white space at its ends, that
-- `json.loads` reads back.
pub record Encodes (codec : Codec) (j : Json) : Type 0 where
  pub first : ℕ
  pub rest : Text
  pub nonblank : codec.dumps j ≡ first ∷ rest
  pub unbroken : All (λ c. is_break c ≡ false) (codec.dumps j)
  pub trimmed : trim (codec.dumps j) ≡ codec.dumps j
  pub loaded : codec.loads (codec.dumps j) ≡ some j

pub append_assoc : (a b c : Text) → (a ++ b) ++ c ≡ a ++ (b ++ c)
append_assoc [] b c = refl
append_assoc (x ∷ a) b c = ap (λ t. x ∷ t) (append_assoc a b c)

split_lines-line :
    (l t : Text)
    → All (λ c. is_break c ≡ false) l
    → split_lines (l ++ newline ∷ t) ≡ l ∷ split_lines t
unfolding split_lines
split_lines-line [] t h = refl
split_lines-line (c ∷ l) t h = rw (split_lines-line l t h.1, h.0) refl

ends_with_newline-append :
    (a t : Text) (c : ℕ) → ends_with_newline (a ++ c ∷ t) ≡ ends_with_newline (c ∷ t)
ends_with_newline-append [] t c = refl
ends_with_newline-append (x ∷ []) t c = refl
ends_with_newline-append (x ∷ y ∷ a) t c = ends_with_newline-append (y ∷ a) t c

unbroken-end : (l : Text) → All (λ c. is_break c ≡ false) l → ends_with_newline l ≡ false
unbroken-end [] h = refl
unbroken-end (c ∷ []) h = ground arith
unbroken-end (c ∷ d ∷ l) h = unbroken-end (d ∷ l) h.1

module _ (codec : Codec) where
  -- Each entry with the end of its line.
  abbrev lines_of : List Json → Text
  lines_of [] = []
  lines_of (j ∷ js) = codec.dumps j ++ newline ∷ lines_of js

  joined-lines_of :
      (j : Json) (js : List Json) → joined codec (j ∷ js) ++ newline ∷ [] ≡ lines_of (j ∷ js)
  unfolding joined
  joined-lines_of j [] = refl
  joined-lines_of j (k ∷ js) =
      rw
        (
          append_assoc (codec.dumps j) (newline ∷ joined codec (k ∷ js)) (newline ∷ []),
          joined-lines_of k js,
        )
        refl

  -- The text of one entry or more begins somewhere, and does not end with a line break.
  record Unfinished (t : Text) : Type 0 where
    first : ℕ
    rest : Text
    begins : t ≡ first ∷ rest
    open_line : ends_with_newline t ≡ false

  Unfinished-cons : (t : Text) → Unfinished t → ends_with_newline (newline ∷ t) ≡ false
  Unfinished-cons [] u = ground arith
  Unfinished-cons (c ∷ t) u = u.open_line

  joined-Unfinished :
      (j : Json) (js : List Json)
      → All (Encodes codec) (j ∷ js)
      → Unfinished (joined codec (j ∷ js))
  unfolding joined
  joined-Unfinished j [] h = record {
    first = h.0.first;
    rest = h.0.rest;
    begins = h.0.nonblank;
    open_line = unbroken-end (codec.dumps j) h.0.unbroken;
  }
  joined-Unfinished j (k ∷ js) h =
      let tail = joined-Unfinished k js h.1 in
      record {
        first = h.0.first;
        rest = h.0.rest ++ newline ∷ joined codec (k ∷ js);
        begins = ap (λ t. t ++ newline ∷ joined codec (k ∷ js)) h.0.nonblank;
        open_line =
            ends_with_newline-append (codec.dumps j) (joined codec (k ∷ js)) newline
            ∙ Unfinished-cons (joined codec (k ∷ js)) tail;
      }

  terminated-Unfinished : (t : Text) → Unfinished t → terminated t ≡ t ++ newline ∷ []
  terminated-Unfinished [] u = ground arith
  terminated-Unfinished (c ∷ t) u = rw (u.open_line) refl

  parse_lines-lines_of :
      (js : List Json) → All (Encodes codec) js → parse_lines codec (split_lines (lines_of js)) ≡ js
  unfolding parse_lines split_lines
  parse_lines-lines_of [] h = unfold trim in refl
  parse_lines-lines_of (j ∷ js) h =
      rw
        (
          split_lines-line (codec.dumps j) (lines_of js) h.0.unbroken,
          h.0.trimmed,
          parse_lines-lines_of js h.1,
          h.0.nonblank,
        )
        (rw (sym h.0.nonblank, h.0.loaded) refl)

  -- What was written is read back, if every entry is one line that `json` reads back.
  pub parse_lines-terminated :
      (js : List Json)
      → All (Encodes codec) js
      → parse_lines codec (split_lines (terminated (joined codec js))) ≡ js
  unfolding joined
  parse_lines-terminated [] h = parse_lines-lines_of [] h
  parse_lines-terminated (j ∷ js) h =
      rw
        (
          terminated-Unfinished (joined codec (j ∷ js)) (joined-Unfinished j js h),
          joined-lines_of j js,
        )
        (parse_lines-lines_of (j ∷ js) h)

  pub read_jsonl-write_jsonl :
      (key other : Text) (js : List Json) (bucket : Bucket)
      → All (Encodes codec) js
      → read_jsonl codec other (write_jsonl codec key js bucket)
        ≡ (if other == key then some js else read_jsonl codec other bucket)
  unfolding read_jsonl write_jsonl
  read_jsonl-write_jsonl key other js bucket h = elim (Bool-cases (other == key)) [
    | inl same ↦
        rw (lookup-insert other key (terminated (joined codec js)) bucket, same)
          (rw (parse_lines-terminated js h) refl)
    | inr differ ↦ rw (lookup-insert other key (terminated (joined codec js)) bucket, differ) refl
  ]
