-- ===== src/Json.antt =====
-- JSON values, as Python's `json` and Postgres's JSONB hold them, and the `.get` chains on them.
use saas_ai_agents_long_term.Prelude.{
  ℕ, String, Bool, true, false, [], ◌∷◌, ◌≡◌, refl, ap, if◌then◌else◌, ◌==◌, string_eq,
}
use saas_ai_agents_long_term.Prelude.Dict.{Dict}

mutual
  pub data Json : Type 0 where
    null : Json
    bool : Bool → Json
    num : ℕ → Json
    str : String → Json
    arr : Items → Json
    obj : Fields → Json

  pub data Items : Type 0 where
    nil : Items
    item : Json → Items → Items

  pub data Fields : Type 0 where
    end : Fields
    field : String → Json → Fields → Fields

-- Python's truth value.
unfoldable pub truthy : Json → Bool
truthy null = false
truthy (bool b) = b
truthy (num ℕ.zero) = false
truthy (num (ℕ.suc n)) = true
truthy (str s) = if s == "" then false else true
truthy (arr nil) = false
truthy (arr (item j js)) = true
truthy (obj end) = false
truthy (obj (field k j fs)) = true

unfoldable pub entries : Fields → Dict String Json
entries end = []
entries (field k j fs) = (k, j) ∷ entries fs

abbrev pub fields : Dict String Json → Fields
fields [] = end
fields ((k, j) ∷ d) = field k j (fields d)

unfoldable pub object : Dict String Json → Json
object d = obj (fields d)

pub entries-fields : (d : Dict String Json) → entries (fields d) ≡ d
unfolding entries
entries-fields [] = refl
entries-fields ((k, j) ∷ d) = ap (λ t. (k, j) ∷ t) (entries-fields d)
