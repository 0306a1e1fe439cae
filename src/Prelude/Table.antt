-- ===== src/Prelude/Table.antt =====
-- Rows of a database table, found by a test and written back by their key.
use Prim.Native.Nat.{ℕ, zero, suc, ◌≤◌}
use mathlib.Core.Path.{◌≡◌, refl, ap, ◌∙◌}
use mathlib.Core.Bool.{Bool, true, false}
use mathlib.Core.Logic.{inl, inr}
use mathlib.Core.List.{List, [], ◌∷◌, Perm}
use mathlib.Core.List.Perm
use mathlib.Core.Option.{some}
use native.Mathlib.Omega.{arith}
use saas_ai_agents_long_term.Prelude.Tests.{if◌then◌else◌, ltb, Bool-cases}
use saas_ai_agents_long_term.Prelude.Equality.{◌==◌, nat_eq}
use saas_ai_agents_long_term.Prelude.Lists.{find_first, keep, All, length, take, drop, take-All}

module _ {ℓ} {A : Type ℓ} (key : A → ℕ) where
  -- Write the row back in place of the row with its key.
  unfoldable pub save : A → List A → List A
  save a [] = []
  save a (x ∷ xs) = (if key x == key a then a else x) ∷ save a xs

  pub find_first-save_self :
      (p : A → Bool) (a b : A) (xs : List A)
      → find_first p xs ≡ some a
      → key a ≡ key b
      → p b ≡ true
      → find_first p (save b xs) ≡ some b
  unfolding save
  find_first-save_self p a b [] h e t = cc
  find_first-save_self p a b (x ∷ xs) h e t = ground (arith, find_first-save_self p a b xs)

  pub find_first-save_ne :
      (p : A → Bool) (b : A) (xs : List A)
      → ((x : A) → key x ≡ key b → p x ≡ false)
      → find_first p (save b xs) ≡ find_first p xs
  unfolding save
  find_first-save_ne p b [] h = refl
  find_first-save_ne p b (x ∷ xs) h = ground (arith, h x, h b, find_first-save_ne p b xs h)

  pub save-All {κ} : (P : A → Type κ) (b : A) (xs : List A) → P b → All P xs → All P (save b xs)
  unfolding save
  save-All P b [] h hs = hs
  save-All P b (x ∷ xs) h hs = (ground arith, save-All P b xs h hs.1)

-- `ORDER BY rank DESC`; rows of one rank keep the table's order.
module _ {ℓ} {A : Type ℓ} (rank : A → ℕ) where
  abbrev pub place : A → List A → List A
  place a [] = a ∷ []
  place a (x ∷ xs) = if ltb (rank a) (rank x) then x ∷ place a xs else a ∷ x ∷ xs

  abbrev pub newest_first : List A → List A
  newest_first [] = []
  newest_first (x ∷ xs) = place x (newest_first xs)

  place-perm : (a : A) (xs : List A) → Perm (place a xs) (a ∷ xs)
  place-perm a [] = Perm.rfl
  place-perm a (x ∷ xs) = elim (Bool-cases (ltb (rank a) (rank x))) [
    | inl less ↦ rw less (Perm.trans (Perm.cons x (place-perm a xs)) (Perm.swap a x xs))
    | inr more ↦ rw more Perm.rfl
  ]

  -- Sorting neither loses nor repeats a row.
  pub newest_first-perm : (xs : List A) → Perm (newest_first xs) xs
  newest_first-perm [] = Perm.rfl
  newest_first-perm (x ∷ xs) =
      Perm.trans (place-perm x (newest_first xs)) (Perm.cons x (newest_first-perm xs))

  place-All {κ} : (P : A → Type κ) (a : A) (xs : List A) → P a → All P xs → All P (place a xs)
  place-All P a [] h hs = (h, hs)
  place-All P a (x ∷ xs) h hs = ground (arith, place-All P a xs h hs.1)

  pub newest_first-All {κ} : (P : A → Type κ) (xs : List A) → All P xs → All P (newest_first xs)
  newest_first-All P [] h = h
  newest_first-All P (x ∷ xs) h = place-All P x (newest_first xs) h.0 (newest_first-All P xs h.1)

  length-place : (a : A) (xs : List A) → length (place a xs) ≡ suc (length xs)
  length-place a [] = refl
  length-place a (x ∷ xs) = ground (arith, length-place a xs)

  pub length-newest_first : (xs : List A) → length (newest_first xs) ≡ length xs
  length-newest_first [] = refl
  length-newest_first (x ∷ xs) =
      length-place x (newest_first xs) ∙ ap (λ n. suc n) (length-newest_first xs)

  -- No row has a higher rank than one before it.
  abbrev pub IsNewestFirst : List A → Type 0
  IsNewestFirst [] = Unit
  IsNewestFirst (x ∷ xs) = All (λ y. rank y ≤ rank x) xs × IsNewestFirst xs

  All-le_trans :
      (m n : ℕ) (xs : List A) → m ≤ n → All (λ y. rank y ≤ m) xs → All (λ y. rank y ≤ n) xs
  All-le_trans m n [] h hs = hs
  All-le_trans m n (x ∷ xs) h hs = (omega arith, All-le_trans m n xs h hs.1)

  place-IsNewestFirst : (a : A) (xs : List A) → IsNewestFirst xs → IsNewestFirst (place a xs)
  place-IsNewestFirst a [] h = (tt, tt)
  place-IsNewestFirst a (x ∷ xs) h = elim (Bool-cases (ltb (rank a) (rank x))) [
    | inl less ↦
        rw less
          (place-All (λ y. rank y ≤ rank x) a xs (ground arith) h.0, place-IsNewestFirst a xs h.1)
    | inr more ↦ rw more ((ground arith, All-le_trans (rank x) (rank a) xs (ground arith) h.0), h)
  ]

  pub newest_first-IsNewestFirst : (xs : List A) → IsNewestFirst (newest_first xs)
  newest_first-IsNewestFirst [] = tt
  newest_first-IsNewestFirst (x ∷ xs) =
      place-IsNewestFirst x (newest_first xs) (newest_first-IsNewestFirst xs)

  pub drop-IsNewestFirst : (n : ℕ) (xs : List A) → IsNewestFirst xs → IsNewestFirst (drop n xs)
  drop-IsNewestFirst zero xs h = h
  drop-IsNewestFirst (suc n) [] h = h
  drop-IsNewestFirst (suc n) (x ∷ xs) h = drop-IsNewestFirst n xs h.1

  pub take-IsNewestFirst : (n : ℕ) (xs : List A) → IsNewestFirst xs → IsNewestFirst (take n xs)
  take-IsNewestFirst zero xs h = tt
  take-IsNewestFirst (suc n) [] h = h
  take-IsNewestFirst (suc n) (x ∷ xs) h =
      (take-All (λ y. rank y ≤ rank x) n xs h.0, take-IsNewestFirst n xs h.1)

-- Writing back a row that keeps its rank commutes with selecting rows by their key, and with sorting.
module _ {ℓ} {A : Type ℓ} (key rank : A → ℕ) (b : A) where
  abbrev pub RankKept : A → Type 0
  RankKept x = key x ≡ key b → rank x ≡ rank b

  pub keep-save :
      (p : A → Bool) (xs : List A)
      → ((x : A) → key x ≡ key b → p x ≡ p b)
      → keep p (save key b xs) ≡ save key b (keep p xs)
  unfolding save
  keep-save p [] h = refl
  keep-save p (x ∷ xs) h = ground (arith, h x, keep-save p xs h)

  place-save :
      (x : A) (xs : List A)
      → RankKept x
      → All RankKept xs
      → place rank (if key x == key b then b else x) (save key b xs) ≡ save key b (place rank x xs)
  unfolding save
  place-save x [] h hs = refl
  place-save x (y ∷ ys) h hs = ground (arith, h, hs.0, place-save x ys h hs.1)

  pub newest_first-save :
      (xs : List A)
      → All RankKept xs
      → newest_first rank (save key b xs) ≡ save key b (newest_first rank xs)
  unfolding save
  newest_first-save [] hs = refl
  newest_first-save (x ∷ xs) hs =
      rw (newest_first-save xs hs.1)
        (place-save x (newest_first rank xs) hs.0 (newest_first-All rank RankKept xs hs.1))
