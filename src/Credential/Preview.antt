-- ===== src/Credential/Preview.antt =====
-- What the preview of a token reveals (src/credentials/payloads/bearer.py).
use Prim.Native.String.{◌++◌ as ◌<>◌}
use saas_ai_agents_long_term.Prelude.{◌-◌, ◌≤◌, ◌<◌, String, false, ◌≡◌, refl, arith, ltb}
use saas_ai_agents_long_term.Prelude.Text.{prefix_of}
use saas_ai_agents_long_term.Prelude.Strings.{
  string_length, suffix_of, string_length-prefix_of, string_length-suffix_of, string_length-append,
}
use saas_ai_agents_long_term.Credential.Payload.{bearer_preview}

-- The ends of a token: its first five characters and its last four.
abbrev pub SameEnds : String → String → Type 0
SameEnds s t =
    (prefix_of 5 s ≡ prefix_of 5 t)
    × (suffix_of (string_length s - 4) s ≡ suffix_of (string_length t - 4) t)

stars : string_length "***" ≡ 3
unfolding string_length
stars = refl

pub bearer_preview_short :
    (s t : String)
    → string_length s < 12
    → string_length t < 12
    → bearer_preview s ≡ bearer_preview t
unfolding bearer_preview
bearer_preview_short s t h k = ground arith

not_short : (s : String) → 12 ≤ string_length s → ltb (string_length s) 12 ≡ false
not_short s h = ground arith

unmasked_length :
    (s : String)
    → 12 ≤ string_length s
    → string_length (prefix_of 5 s <> ("***" <> suffix_of (string_length s - 4) s)) ≡ 12
unmasked_length s h = omega (
  arith,
  string_length-append (prefix_of 5 s) ("***" <> suffix_of (string_length s - 4) s),
  string_length-append "***" (suffix_of (string_length s - 4) s),
  string_length-prefix_of 5 s,
  string_length-suffix_of (string_length s - 4) s,
  stars,
)

-- Two tokens of at least twelve characters with the same first five and last four have the same
-- preview, which has twelve characters: nothing else of a token shows.
pub bearer_preview_hides :
    (s t : String)
    → 12 ≤ string_length s
    → 12 ≤ string_length t
    → SameEnds s t
    → (bearer_preview s ≡ bearer_preview t) × (string_length (bearer_preview s) ≡ 12)
unfolding bearer_preview
bearer_preview_hides s t h k ends =
    rw (not_short s h, not_short t k) (rw (ends.0, ends.1) refl, unmasked_length s h)
