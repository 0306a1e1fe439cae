-- ===== src/Recovery/Prose.antt =====
-- An object that stands between prose is found (src/utils/json_parser.py).
use saas_ai_agents_long_term.Prelude.{
  ℕ, suc, ◌+◌, ◌-◌, false, Option, none, some, [], ◌∷◌, ◌++◌, nat_eq, ◌≡◌, refl, sym, ap, ◌∙◌,
  arith, take, drop, length, length-append, lt→ltb,
}
use saas_ai_agents_long_term.Prelude.Text.{Text, starts_with}
use saas_ai_agents_long_term.Effect.{ok}
use saas_ai_agents_long_term.Json.{Json, obj, Fields}
use saas_ai_agents_long_term.Transcript.{trim}
use saas_ai_agents_long_term.Transcript.Contents.{append_assoc}
use saas_ai_agents_long_term.Recovery.{
  fence, open_brace, close_brace, find, rfind, slice, strip_code_fences, only_object, try_parse,
  extract_outermost_braces, parse,
}

find-first :
    (c : ℕ) (before rest : Text)
    → find c before ≡ none
    → find c (before ++ c ∷ rest) ≡ some (length before)
unfolding find
find-first c [] rest h = ground arith
find-first c (d ∷ before) rest h = ground (arith, find-first c before rest)

rfind-last :
    (c : ℕ) (before rest : Text)
    → rfind c rest ≡ none
    → rfind c (before ++ c ∷ rest) ≡ some (length before)
unfolding rfind
rfind-last c [] rest h = ground arith
rfind-last c (d ∷ before) rest h = rw (rfind-last c before rest h) refl

drop-append : (s t : Text) → drop (length s) (s ++ t) ≡ t
drop-append [] t = refl
drop-append (c ∷ s) t = drop-append s t

take-append : (s t : Text) → take (length s) (s ++ t) ≡ s
take-append [] t = refl
take-append (c ∷ s) t = ap (λ u. c ∷ u) (take-append s t)

-- A text with braces around `body`, in prose.
abbrev pub braced : Text → Text
braced body = open_brace ∷ (body ++ close_brace ∷ [])

abbrev pub in_prose : Text → Text → Text → Text
in_prose before body after = before ++ open_brace ∷ (body ++ close_brace ∷ after)

slice-in_prose :
    (before body after : Text) (n : ℕ)
    → n ≡ length before + (length body + 2)
    → slice (length before) n (in_prose before body after) ≡ braced body
slice-in_prose before body after n h =
    let size : n - length before ≡ length (braced body) =
      omega (arith, length-append body (close_brace ∷ [])) in
    let whole : open_brace ∷ (body ++ close_brace ∷ after) ≡ braced body ++ after =
      sym (ap (λ u. open_brace ∷ u) (append_assoc body (close_brace ∷ []) after)) in
    rw (drop-append before (open_brace ∷ (body ++ close_brace ∷ after)), size)
      (ap (take (length (braced body))) whole ∙ take-append (braced body) after)

rfind-in_prose :
    (before body after : Text)
    → rfind close_brace after ≡ none
    → rfind close_brace (in_prose before body after) ≡ some (length (before ++ open_brace ∷ body))
rfind-in_prose before body after h =
    ap (rfind close_brace) (sym (append_assoc before (open_brace ∷ body) (close_brace ∷ after)))
    ∙ rfind-last close_brace (before ++ open_brace ∷ body) after h

module _ (loads : Text → Option Json) where
  extract-in_prose :
      (before body after : Text)
      → find open_brace before ≡ none
      → rfind close_brace after ≡ none
      → extract_outermost_braces loads (in_prose before body after) ≡ try_parse loads (braced body)
  unfolding extract_outermost_braces
  extract-in_prose before body after hb ha =
      let size : length (before ++ open_brace ∷ body) ≡ length before + suc (length body) =
        length-append before (open_brace ∷ body) in
      rw
        (
          find-first open_brace before (body ++ close_brace ∷ after) hb,
          rfind-in_prose before body after ha,
          size,
          lt→ltb (length before) (length before + suc (length body)) (omega arith),
        )
        (ap (try_parse loads)
          (slice-in_prose before body after (length before + suc (length body) + 1) (omega arith)))

  -- An object between braces, with prose around it that has no opening brace before and no closing
  -- brace after, is what `parse` returns, if the stripped answer does not begin with a code fence
  -- and is not an object itself.
  pub parse-in_prose :
      (raw before body after : Text) (fs : Fields)
      → trim raw ≡ in_prose before body after
      → starts_with fence (trim raw) ≡ false
      → try_parse loads (trim raw) ≡ none
      → find open_brace before ≡ none
      → rfind close_brace after ≡ none
      → loads (braced body) ≡ some (obj fs)
      → parse loads raw ≡ ok fs
  unfolding parse strip_code_fences
  parse-in_prose raw before body after fs shape plain whole hb ha h =
      let inner : extract_outermost_braces loads (trim raw) ≡ some fs =
        ap (extract_outermost_braces loads) shape
        ∙ extract-in_prose before body after hb ha
        ∙ ap only_object h in
      rw plain (rw (whole, inner) refl)
