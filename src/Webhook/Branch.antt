-- ===== src/Webhook/Branch.antt =====
-- The branch names that the webhook recognises, and the lookup of the task behind one:
-- `_BRANCH_PATTERN` and `find_task_for_branch` of src/services/webhook_service.py.
use saas_ai_agents_long_term.Prelude.{
  ℕ, zero, suc, Bool, ◌&&◌, ◌||◌, Option, none, some, List, [], ◌∷◌, if◌then◌else◌, ◌==◌, nat_eq,
  leb, keep,
}
use saas_ai_agents_long_term.Prelude.Table.{newest_first}
use saas_ai_agents_long_term.Prelude.Text.{Text, codes, strip_prefix, starts_with}
use saas_ai_agents_long_term.World.{Task}

abbrev pub is_hex : ℕ → Bool
is_hex c = (leb b'0' c && leb c b'9') || (leb b'a' c && leb c b'f')

-- `[0-9a-f]{n}`: the digits and the text after them.
unfoldable pub hex_digits : ℕ → Text → Option (Text × Text)
hex_digits zero t = some ([], t)
hex_digits (suc n) [] = none
hex_digits (suc n) (c ∷ t) =
    let rest = hex_digits n t in
    if is_hex c then elim rest [ none ↦ none | some (d, u) ↦ some (c ∷ d, u) ] else none

abbrev pub line_feed : ℕ
line_feed = 10

abbrev pub prepend : ℕ → Option Text → Option Text
prepend c none = none
prepend c (some t) = some (c ∷ t)

-- `.*$`: what comes before the end, or before a line feed that ends the text.
unfoldable pub rest_of_line : Text → Option Text
rest_of_line [] = some []
rest_of_line (c ∷ []) = some (if c == line_feed then [] else c ∷ [])
rest_of_line (c ∷ d ∷ t) =
    let rest = rest_of_line (d ∷ t) in if c == line_feed then none else prepend c rest

-- `.+$`
abbrev pub line : Text → Option Text
line [] = none
line (c ∷ t) = let rest = rest_of_line t in if c == line_feed then none else prepend c rest

abbrev pub with_digits : Text → Option Text → Option (Text × Text)
with_digits digits none = none
with_digits digits (some repo) = some (digits, repo)

abbrev pub repo_group : Option (Text × Text) → Option (Text × Text)
repo_group none = none
repo_group (some (digits, [])) = none
repo_group (some (digits, c ∷ t)) =
    let repo = line t in if c == b'/' then with_digits digits repo else none

abbrev after_clyde : Option Text → Option (Text × Text)
after_clyde none = none
after_clyde (some t) = repo_group (hex_digits 8 t)

-- The groups `prefix` and `repo` of a match.
unfoldable pub match_branch : Text → Option (Text × Text)
unfolding hex_digits rest_of_line strip_prefix
match_branch branch = after_clyde (strip_prefix (codes "clyde/") branch)

abbrev pub first_row {ℓ} : {A : Type ℓ} → List A → Option A
first_row [] = none
first_row (x ∷ xs) = some x

module _ (uuid_text : ℕ → Text) where
  abbrev pub newest_with_prefix : Option (Text × Text) → List Task → Option Task
  newest_with_prefix none tasks = none
  newest_with_prefix (some (digits, repo)) tasks =
      first_row
        (newest_first (λ t. t.created_at) (keep (λ t. starts_with digits (uuid_text t.id)) tasks))

  -- The newest task whose id begins with the branch's digits, of any user and any repository.
  unfoldable pub find_task_for_branch : List Task → Text → Option Task
  unfolding match_branch
  find_task_for_branch tasks branch = newest_with_prefix (match_branch branch) tasks
