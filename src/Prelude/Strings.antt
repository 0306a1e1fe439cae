-- ===== src/Prelude/Strings.antt =====
-- Python's `len`, `strip` and slices on text that is stored as a string.
use Prim.Native.Nat.{ℕ, zero, suc, ◌+◌, ◌-◌, ◌≤◌}
use Prim.Native.Char.{Char, code}
use Prim.Native.String.{String, ◌++◌}
use Prim.Native.String.append
use mathlib.Core.Path.{◌≡◌, refl, ap}
use mathlib.Core.Bool.{Bool, false, ◌||◌, ◌&&◌}
use mathlib.Core.Logic.{inl, inr}
use mathlib.Core.List.{List, [], ◌∷◌}
use native.Mathlib.Omega.{arith}
use saas_ai_agents_long_term.Prelude.Tests.{if◌then◌else◌, leb, Bool-cases}
use saas_ai_agents_long_term.Prelude.Text.{prefix_of}

-- `len(s)`
unfoldable pub string_length : String → ℕ
string_length String.[] = 0
string_length (String.◌∷◌ c s) = suc (string_length s)

-- `s[n:]`
unfoldable pub suffix_of : ℕ → String → String
suffix_of zero s = s
suffix_of (suc n) String.[] = String.[]
suffix_of (suc n) (String.◌∷◌ c s) = suffix_of n s

abbrev between : ℕ → ℕ → ℕ → Bool
between low high n = leb low n && leb n high

abbrev pub in_ranges : List (ℕ × ℕ) → ℕ → Bool
in_ranges [] n = false
in_ranges ((low, high) ∷ ranges) n = between low high n || in_ranges ranges n

-- The code points that `str.isspace` takes for white space.
abbrev pub spaces : List (ℕ × ℕ)
spaces =
    (9, 13)
    ∷ (28, 32)
    ∷ (133, 133)
    ∷ (160, 160)
    ∷ (5760, 5760)
    ∷ (8192, 8202)
    ∷ (8232, 8233)
    ∷ (8239, 8239)
    ∷ (8287, 8287)
    ∷ (12288, 12288)
    ∷ []

unfoldable pub is_space : Char → Bool
is_space c = in_ranges spaces (code c)

unfoldable pub strip_left : String → String
strip_left String.[] = String.[]
strip_left (String.◌∷◌ c s) = let rest = strip_left s in if is_space c then rest else String.◌∷◌ c s

abbrev keep_char : Char → String → String
keep_char c String.[] = if is_space c then String.[] else String.◌∷◌ c String.[]
keep_char c (String.◌∷◌ d s) = String.◌∷◌ c (String.◌∷◌ d s)

unfoldable pub strip_right : String → String
strip_right String.[] = String.[]
strip_right (String.◌∷◌ c s) = keep_char c (strip_right s)

-- `s.strip()`
unfoldable pub strip : String → String
unfolding strip_left strip_right
strip s = strip_right (strip_left s)

keep_char-strip_right :
    (c : Char) (s : String) → strip_right s ≡ s → strip_right (keep_char c s) ≡ keep_char c s
unfolding strip_right
keep_char-strip_right c String.[] h = elim (Bool-cases (is_space c)) [
  | inl space ↦ rw space refl
  | inr black ↦ rw black (rw black refl)
]
keep_char-strip_right c (String.◌∷◌ d s) h = ap (keep_char c) h

strip_right_idem : (s : String) → strip_right (strip_right s) ≡ strip_right s
unfolding strip_right
strip_right_idem String.[] = refl
strip_right_idem (String.◌∷◌ c s) = keep_char-strip_right c (strip_right s) (strip_right_idem s)

keep_char-nonspace : (c : Char) (s : String) → is_space c ≡ false → keep_char c s ≡ String.◌∷◌ c s
keep_char-nonspace c String.[] h = ground arith
keep_char-nonspace c (String.◌∷◌ d s) h = refl

pub strip_idem : (s : String) → strip (strip s) ≡ strip s
unfolding strip
strip_idem String.[] = refl
strip_idem (String.◌∷◌ c s) = elim (Bool-cases (is_space c)) [
  | inl space ↦ rw space (strip_idem s)
  | inr black ↦
      rw (black, keep_char-nonspace c (strip_right s) black, black)
        (rw (strip_right_idem s) (keep_char-nonspace c (strip_right s) black))
]

pub string_length-prefix_of :
    (n : ℕ) (s : String) → n ≤ string_length s → string_length (prefix_of n s) ≡ n
unfolding prefix_of string_length
string_length-prefix_of zero s h = omega arith
string_length-prefix_of (suc n) String.[] h = omega arith
string_length-prefix_of (suc n) (String.◌∷◌ c s) h = omega (arith, string_length-prefix_of n s)

pub string_length-suffix_of :
    (n : ℕ) (s : String) → string_length (suffix_of n s) ≡ string_length s - n
unfolding suffix_of string_length
string_length-suffix_of zero s = omega arith
string_length-suffix_of (suc n) String.[] = omega arith
string_length-suffix_of (suc n) (String.◌∷◌ c s) = omega (arith, string_length-suffix_of n s)

pub string_length-append :
    (s t : String) → string_length (s ++ t) ≡ string_length s + string_length t
unfolding string_length
string_length-append String.[] t = rw (append.nil t) (omega arith)
string_length-append (String.◌∷◌ c s) t =
    rw (append.cons c s t) (omega (arith, string_length-append s t))
