-- ===== src/Prelude/Dict.antt =====
-- Python dictionaries: entries in insertion order, one for each key that is written by `insert`.
use mathlib.Core.Path.{◌≡◌, refl}
use mathlib.Core.List.{List, [], ◌∷◌}
use mathlib.Core.Option.{Option, none, some}
use native.Mathlib.Omega.{arith}
use saas_ai_agents_long_term.Prelude.Tests.{if◌then◌else◌}
use mathlib.Core.Bool.{Bool}
use saas_ai_agents_long_term.Prelude.Lists.{keep}
use saas_ai_agents_long_term.Prelude.Equality.{Eq, ◌==◌}

abbrev pub Dict {ℓ κ} : Type ℓ → Type κ → Type (ℓ ⊔ κ)
Dict K V = List (K × V)

module _ {ℓ κ} {K : Type ℓ} {V : Type κ} ⦃e : Eq K⦄ where
  -- `d.get(k)`
  unfoldable pub lookup : K → Dict K V → Option V
  lookup k [] = none
  lookup k ((j, v) ∷ d) = if k == j then some v else lookup k d

  -- `d[k] = v`
  unfoldable pub insert : K → V → Dict K V → Dict K V
  insert k v [] = (k, v) ∷ []
  insert k v ((j, w) ∷ d) = if k == j then (k, v) ∷ d else (j, w) ∷ insert k v d

  -- `d.pop(k, None)`
  unfoldable pub erase : K → Dict K V → Dict K V
  erase k [] = []
  erase k ((j, w) ∷ d) = let rest = erase k d in if k == j then rest else (j, w) ∷ rest

  -- `{**a, **b}`
  unfoldable pub merge : Dict K V → Dict K V → Dict K V
  unfolding insert
  merge a [] = a
  merge a ((k, v) ∷ b) = merge (insert k v a) b

  pub lookup-insert :
      (j k : K) (v : V) (d : Dict K V)
      → lookup j (insert k v d) ≡ (if j == k then some v else lookup j d)
  unfolding insert lookup
  lookup-insert j k v [] = ground arith
  lookup-insert j k v ((i, w) ∷ d) = ground (arith, lookup-insert j k v d)

  pub lookup-erase :
      (j k : K) (d : Dict K V) → lookup j (erase k d) ≡ (if j == k then none else lookup j d)
  unfolding erase lookup
  lookup-erase j k [] = ground arith
  lookup-erase j k ((i, w) ∷ d) = ground (arith, lookup-erase j k d)

  -- Merging leaves the keys alone that the second dictionary lacks.
  pub lookup-merge_absent :
      (k : K) (a b : Dict K V) → lookup k b ≡ none → lookup k (merge a b) ≡ lookup k a
  unfolding lookup merge
  lookup-merge_absent k a [] h = refl
  lookup-merge_absent k a ((j, v) ∷ b) h =
      ground (arith, lookup-merge_absent k (insert j v a) b, lookup-insert k j v a)

  abbrev pub Distinct : Dict K V → Type κ
  Distinct [] = Unit
  Distinct ((k, v) ∷ d) = (lookup k d ≡ none) × Distinct d

  -- Where both have a key, the second dictionary's value wins.
  pub lookup-merge_present :
      (k : K) (v : V) (a b : Dict K V)
      → Distinct b
      → lookup k b ≡ some v
      → lookup k (merge a b) ≡ some v
  unfolding lookup merge
  lookup-merge_present k v a [] u h = cc
  lookup-merge_present k v a ((j, w) ∷ b) u h = ground (
    arith,
    lookup-merge_present k v (insert j w a) b u.1,
    lookup-merge_absent k (insert j w a) b,
    lookup-insert k j w a,
  )

  pub erase-absent : (k : K) (d : Dict K V) → lookup k d ≡ none → erase k d ≡ d
  unfolding lookup erase
  erase-absent k [] h = refl
  erase-absent k ((j, v) ∷ d) h = ground (arith, erase-absent k d)

  pub lookup-erase_self : (k : K) (d : Dict K V) → lookup k (erase k d) ≡ none
  lookup-erase_self k d = ground (arith, lookup-erase k k d)

  pub lookup-erase_absent :
      (j k : K) (d : Dict K V) → lookup j d ≡ none → lookup j (erase k d) ≡ none
  lookup-erase_absent j k d h = ground (arith, lookup-erase j k d)

  pub lookup_self : (k : K) (v : V) (d : Dict K V) → lookup k ((k, v) ∷ d) ≡ some v
  unfolding lookup
  lookup_self k v d = ground arith

  pub lookup-keep :
      (q : K → Bool) (j : K) (d : Dict K V)
      → lookup j (keep (λ o. q o.0) d) ≡ (if q j then lookup j d else none)
  unfolding lookup
  lookup-keep q j [] = ground arith
  lookup-keep q j ((i, w) ∷ d) = ground (arith, lookup-keep q j d)
