-- ===== src/Webhook/Form.antt =====
-- What a branch that the webhook recognises looks like.
use saas_ai_agents_long_term.Prelude.{
  ℕ, zero, suc, true, false, Option, none, some, [], ◌∷◌, ◌++◌, ◌≡◌, ◌≢◌, refl, ap, ◌∙◌, arith, ◌⊎◌,
  inl, inr, nat_eq, ◌==◌, All, length, Bool-cases, Option-cases,
}
use saas_ai_agents_long_term.Prelude.Text.{Text, codes, strip_prefix, strip_prefix-eq_some}
use saas_ai_agents_long_term.Webhook.Branch.{
  match_branch, hex_digits, is_hex, rest_of_line, line, line_feed, prepend, repo_group,
}

-- The digits and the text after them.
record Digits (n : ℕ) (t digits rest : Text) : Type 0 where
  pub split : t ≡ digits ++ rest
  pub count : length digits ≡ n
  pub hexadecimal : All (λ c. is_hex c ≡ true) digits

-- The first digit, and the digits of the rest.
hex_digits-first :
    (n c : ℕ) (t digits rest : Text)
    → hex_digits (suc n) (c ∷ t) ≡ some (digits, rest)
    → (is_hex c ≡ true) × (more : Text) × (digits ≡ c ∷ more) × (hex_digits n t ≡ some (more, rest))
unfolding hex_digits
hex_digits-first n c t digits rest h = elim (Bool-cases (is_hex c)) [
  | inr other ↦ ground arith
  | inl hex ↦ elim (Option-cases (hex_digits n t)) [
    | inl missing ↦ ground arith
    | inr (pair, found) ↦ (hex, pair.0, ground arith, ground arith)
  ]
]

hex_digits-Digits :
    (n : ℕ) (t digits rest : Text) → hex_digits n t ≡ some (digits, rest) → Digits n t digits rest
unfolding hex_digits
hex_digits-Digits zero t [] rest h = record { split = ground arith; count = refl; hexadecimal = tt }
hex_digits-Digits zero t (c ∷ d) rest h = ground arith
hex_digits-Digits (suc n) [] digits rest h = cc
hex_digits-Digits (suc n) (c ∷ t) digits rest h =
    let (hex, more, e, k) = hex_digits-first n c t digits rest h in
    let d = hex_digits-Digits n t more rest k in
    rw e (record {
      split = ap (λ u. c ∷ u) d.split;
      count = omega (arith, d.count);
      hexadecimal = (hex, d.hexadecimal);
    })

-- A line, with a line feed after it or none.
record Ended (t repo : Text) : Type 0 where
  pub whole : (t ≡ repo) ⊎ (t ≡ repo ++ line_feed ∷ [])
  pub one_line : All (λ c. (c == line_feed) ≡ false) repo

cons-Ended :
    (c : ℕ) (t repo : Text) → (c == line_feed) ≡ false → Ended t repo → Ended (c ∷ t) (c ∷ repo)
cons-Ended c t repo b h = record {
  whole = elim h.whole [ inl e ↦ inl (ap (λ u. c ∷ u) e) | inr e ↦ inr (ap (λ u. c ∷ u) e) ];
  one_line = (b, h.one_line);
}

prepend-some :
    (c : ℕ) (o : Option Text) (repo : Text)
    → prepend c o ≡ some repo
    → (more : Text) × (o ≡ some more) × (repo ≡ c ∷ more)
prepend-some c none repo h = cc
prepend-some c (some t) repo h = (t, refl, ground arith)

rest_of_line-Ended : (t repo : Text) → rest_of_line t ≡ some repo → Ended t repo
unfolding rest_of_line
rest_of_line-Ended [] [] h = record { whole = inl refl; one_line = tt }
rest_of_line-Ended [] (c ∷ repo) h = ground arith
rest_of_line-Ended (c ∷ []) repo h = elim (Bool-cases (c == line_feed)) [
  | inl feed ↦
      let e : repo ≡ [] = ground arith in
      rw e (record { whole = inr (ground arith); one_line = tt })
  | inr other ↦
      let e : repo ≡ c ∷ [] = ground arith in
      rw e (record { whole = inl refl; one_line = (other, tt) })
]
rest_of_line-Ended (c ∷ d ∷ t) repo h = elim (Bool-cases (c == line_feed)) [
  | inl feed ↦ ground arith
  | inr other ↦
      let (more, found, e) = prepend-some c (rest_of_line (d ∷ t)) repo (ground arith) in
      rw e (cons-Ended c (d ∷ t) more other (rest_of_line-Ended (d ∷ t) more found))
]

line-Ended :
    (t repo : Text)
    → line t ≡ some repo
    → (c : ℕ) × (more : Text) × (repo ≡ c ∷ more) × Ended t (c ∷ more)
line-Ended [] repo h = cc
line-Ended (c ∷ t) repo h = elim (Bool-cases (c == line_feed)) [
  | inl feed ↦ ground arith
  | inr other ↦
      let (more, found, e) = prepend-some c (rest_of_line t) repo (ground arith) in
      (c, more, e, cons-Ended c t more other (rest_of_line-Ended t more found))
]

-- `clyde/{digits}/{repo}`, or that and a line feed.
pub record BranchOf (branch digits repo : Text) : Type 0 where
  pub form :
      (branch ≡ codes "clyde/" ++ digits ++ b'/' ∷ repo)
      ⊎ (branch ≡ codes "clyde/" ++ digits ++ b'/' ∷ (repo ++ line_feed ∷ []))
  pub eight : length digits ≡ 8
  pub hexadecimal : All (λ c. is_hex c ≡ true) digits
  pub nonempty : repo ≢ []
  pub one_line : All (λ c. (c == line_feed) ≡ false) repo

-- What stands behind the digits of a match.
behind_digits :
    (branch digits repo rest : Text) (found : Option (Text × Text))
    → found ≡ hex_digits 8 rest
    → repo_group found ≡ some (digits, repo)
    → (t : Text) × (hex_digits 8 rest ≡ some (digits, b'/' ∷ t)) × (line t ≡ some repo)
behind_digits branch digits repo rest none e h = cc
behind_digits branch digits repo rest (some (ds, [])) e h = cc
behind_digits branch digits repo rest (some (ds, c ∷ t)) e h = elim (Bool-cases (c == b'/')) [
  | inr other ↦ ground arith
  | inl slash ↦ elim (Option-cases (line t)) [
    | inl missing ↦ ground arith
    | inr (r, l) ↦ (t, ground arith, ground arith)
  ]
]

-- A branch that is recognised is `clyde/{digits}/{repo}`, or that with a line feed after it, for
-- the digits and the repository that are read from it: eight hexadecimal digits, and a repository
-- that is not empty and has no line feed.
pub match_branch-BranchOf :
    (branch digits repo : Text)
    → match_branch branch ≡ some (digits, repo)
    → BranchOf branch digits repo
unfolding match_branch
match_branch-BranchOf branch digits repo h =
    elim (Option-cases (strip_prefix (codes "clyde/") branch)) [
      | inl missing ↦ ground arith
      | inr (rest, found) ↦
          let (t, behind, l) =
            behind_digits branch digits repo rest (hex_digits 8 rest) refl (ground arith) in
          let d = hex_digits-Digits 8 rest digits (b'/' ∷ t) behind in
          let (c, more, e, ended) = line-Ended t repo l in
          let start = strip_prefix-eq_some (codes "clyde/") branch rest found in
          rw e (record {
            form = elim ended.whole [
              | inl w ↦
                  inl (
                    start
                    ∙ ap (λ u. codes "clyde/" ++ u) (d.split ∙ ap (λ u. digits ++ b'/' ∷ u) w))
              | inr w ↦
                  inr (
                    start
                    ∙ ap (λ u. codes "clyde/" ++ u) (d.split ∙ ap (λ u. digits ++ b'/' ∷ u) w))
            ];
            eight = d.count;
            hexadecimal = d.hexadecimal;
            nonempty = λ z. cc;
            one_line = ended.one_line;
          })
    ]
