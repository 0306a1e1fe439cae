-- ===== src/Recovery/Fences.antt =====
-- An object in a code fence is found (src/utils/json_parser.py).
use saas_ai_agents_long_term.Prelude.{
  ℕ, Bool, true, false, Option, some, List, [], ◌∷◌, ◌++◌, ◌==◌, nat_eq, ◌≡◌, refl, sym, ap, ◌∙◌,
  arith, All, Bool-cases, inl, inr,
}
use saas_ai_agents_long_term.Prelude.Text.{Text, starts_with, strip_prefix, strip_prefix-append}
use saas_ai_agents_long_term.Effect.{ok}
use saas_ai_agents_long_term.Json.{Json, obj, Fields}
use saas_ai_agents_long_term.Transcript.{trim, newline}
use saas_ai_agents_long_term.Transcript.Contents.{append_assoc}
use saas_ai_agents_long_term.Recovery.{
  fence, add_to_line, split, join, drop_closing, strip_code_fences, parse,
}

newline_self : (newline == newline) ≡ true
newline_self = ground arith

newline-eq : (c : ℕ) → (c == newline) ≡ true → newline ≡ c
newline-eq c h = ground arith

fence_closes : drop_closing (fence ∷ []) ≡ []
unfolding drop_closing trim strip_prefix
fence_closes = ground arith

split-fence : split fence ≡ fence ∷ []
unfolding split
split-fence = ground arith

fence_opens : (language rest : Text) → starts_with fence ((fence ++ language) ++ rest) ≡ true
fence_opens language rest =
    ap (starts_with fence) (append_assoc fence language rest)
    ∙ rw (starts_with, strip_prefix-append fence (language ++ rest)) refl

fence_line :
    (language : Text)
    → All (λ c. (c == newline) ≡ false) language
    → All (λ c. (c == newline) ≡ false) (fence ++ language)
fence_line language h = (ground arith, (ground arith, (ground arith, h)))

add_to_line-append :
    (b : Bool) (c : ℕ) (l : Text) (ls ms : List Text)
    → add_to_line b c ((l ∷ ls) ++ ms) ≡ add_to_line b c (l ∷ ls) ++ ms
add_to_line-append true c l ls ms = refl
add_to_line-append false c l ls ms = refl

split-nonempty : (t : Text) → (l : Text) × (ls : List Text) × (split t ≡ l ∷ ls)
unfolding split
split-nonempty [] = ([], [], refl)
split-nonempty (c ∷ t) =
    let (l, ls, e) = split-nonempty t in
    elim (Bool-cases (c == newline)) [
      | inl h ↦ ([], split t, rw h refl)
      | inr h ↦ (c ∷ l, ls, rw (h, e) refl)
    ]

-- A line break separates the lines before it from those after it.
split-append : (s t : Text) → split (s ++ newline ∷ t) ≡ split s ++ split t
unfolding split
split-append [] t = rw newline_self refl
split-append (c ∷ s) t =
    let (l, ls, e) = split-nonempty s in
    rw (split-append s t, e) (add_to_line-append (c == newline) c l ls (split t))

split-line :
    (line t : Text)
    → All (λ c. (c == newline) ≡ false) line
    → split (line ++ newline ∷ t) ≡ line ∷ split t
unfolding split
split-line [] t h = rw newline_self refl
split-line (c ∷ line) t h = rw (split-line line t h.1, h.0) refl

join-cons :
    (b : Bool) (c : ℕ) (l : Text) (ls : List Text)
    → b ≡ (c == newline)
    → join (add_to_line b c (l ∷ ls)) ≡ c ∷ join (l ∷ ls)
unfolding join
join-cons true c l ls h = ap (λ d. d ∷ join (l ∷ ls)) (newline-eq c (sym h))
join-cons false c l [] h = refl
join-cons false c l (m ∷ ls) h = refl

join-split : (t : Text) → join (split t) ≡ t
unfolding split join
join-split [] = refl
join-split (c ∷ t) =
    let (l, ls, e) = split-nonempty t in
    ap (λ lines. join (add_to_line (c == newline) c lines)) e
    ∙ join-cons (c == newline) c l ls refl
    ∙ ap (λ u. c ∷ u) (ap join (sym e) ∙ join-split t)

drop_closing-fence : (ls : List Text) → drop_closing (ls ++ fence ∷ []) ≡ ls
unfolding drop_closing
drop_closing-fence [] = fence_closes
drop_closing-fence (l ∷ []) = ap (λ r. l ∷ r) (drop_closing-fence [])
drop_closing-fence (l ∷ m ∷ ls) = ap (λ r. l ∷ r) (drop_closing-fence (m ∷ ls))

-- An answer that is a code block.
abbrev pub fenced : Text → Text → Text
fenced language body = (fence ++ language) ++ newline ∷ (body ++ newline ∷ fence)

strip_code_fences-fenced :
    (language body : Text)
    → All (λ c. (c == newline) ≡ false) language
    → strip_code_fences (fenced language body) ≡ trim body
unfolding strip_code_fences
strip_code_fences-fenced language body h =
    rw
      (
        fence_opens language (newline ∷ (body ++ newline ∷ fence)),
        split-line (fence ++ language) (body ++ newline ∷ fence) (fence_line language h),
        split-append body fence,
        split-fence,
        drop_closing-fence (split body),
        join-split body,
      )
      refl

module _ (loads : Text → Option Json) where
  -- An answer that is, up to white space around it, one code block, with a language named on its
  -- first line or none, gives the object that `json.loads` reads from the stripped lines of the
  -- block.
  pub parse-fenced :
      (raw language body : Text) (fs : Fields)
      → trim raw ≡ fenced language body
      → All (λ c. (c == newline) ≡ false) language
      → loads (trim body) ≡ some (obj fs)
      → parse loads raw ≡ ok fs
  unfolding parse
  parse-fenced raw language body fs shape h parsed =
      let cleaned : strip_code_fences (trim raw) ≡ trim body =
        ap strip_code_fences shape ∙ strip_code_fences-fenced language body h in
      rw (cleaned, parsed) refl
