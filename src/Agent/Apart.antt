-- ===== src/Agent/Apart.antt =====
-- The unique indexes of the agents table (src/db/models/agent.py): rows that stand apart, and what
-- writing a row does to them.
use saas_ai_agents_long_term.Prelude.{
  ◌<◌, Bool, true, false, some, List, [], ◌∷◌, map, ◌≡◌, ◌≢◌, refl, sym, arith, ◌==◌, nat_eq,
  string_eq, find_first, find_first-All, keep, keep-keeps, subst, ◌∙◌, exists, All, Bool-cases, inl,
  inr,
}
use saas_ai_agents_long_term.Prelude.Table.{save}
use saas_ai_agents_long_term.Agent.{Agent, clashes}

-- Two agents have different ids, and those of one user different names and no two defaults.
pub record Apart (a b : Agent) : Type 0 where
  pub ids : a.id ≢ b.id
  pub names : a.user_id ≡ b.user_id → a.name ≢ b.name
  pub defaults : a.user_id ≡ b.user_id → a.is_default ≡ true → b.is_default ≡ false

abbrev pub Pairwise : List Agent → Type 0
Pairwise [] = Unit
Pairwise (a ∷ rest) = All (Apart a) rest × Pairwise rest

-- Every other row stands apart from this one.
abbrev pub Fits : Agent → List Agent → Type 0
Fits a xs = All (λ x. x.id ≢ a.id → Apart x a) xs

pub Apart-sym : (a b : Agent) → Apart a b → Apart b a
Apart-sym a b h = record {
  ids = λ e. h.ids (sym e);
  names = λ u e. h.names (sym u) (sym e);
  defaults = λ u e. ground (arith, h.defaults (sym u));
}

Apart-Fits : (a : Agent) (xs : List Agent) → All (Apart a) xs → Fits a xs
Apart-Fits a [] h = tt
Apart-Fits a (x ∷ xs) h = (λ other. Apart-sym a x h.0, Apart-Fits a xs h.1)

head_found :
    (p : Agent → Bool) (x : Agent) (xs : List Agent) (a : Agent)
    → p x ≡ true
    → find_first p (x ∷ xs) ≡ some a
    → x ≡ a
head_found p x xs a hit e = ground arith

tail_found :
    (p : Agent → Bool) (x : Agent) (xs : List Agent) (a : Agent)
    → p x ≡ false
    → find_first p (x ∷ xs) ≡ some a
    → find_first p xs ≡ some a
tail_found p x xs a miss e = ground arith

-- A row that is found fits among the others.
pub find_first-Fits :
    (p : Agent → Bool) (xs : List Agent) (a : Agent)
    → Pairwise xs
    → find_first p xs ≡ some a
    → Fits a xs
find_first-Fits p [] a h e = cc
find_first-Fits p (x ∷ xs) a h e = elim (Bool-cases (p x)) [
  | inl hit ↦
      subst (λ b. Fits b (x ∷ xs)) (head_found p x xs a hit e)
        (λ other. absurd (other refl), Apart-Fits x xs h.0)
  | inr miss ↦ (
    λ other. find_first-All p (Apart x) xs a h.0 (tail_found p x xs a miss e),
    find_first-Fits p xs a h.1 (tail_found p x xs a miss e),
  )
]

save-Apart :
    (b x : Agent) (xs : List Agent)
    → Apart x b
    → All (Apart x) xs
    → All (Apart x) (save (λ (y : Agent). y.id) b xs)
unfolding save
save-Apart b x [] h hs = hs
save-Apart b x (y ∷ ys) h hs = (ground arith, save-Apart b x ys h hs.1)

differ : (x b : Agent) → x.id ≢ b.id → (x.id == b.id) ≡ false
differ x b h = ground arith

Apart-others :
    (x b : Agent) (xs : List Agent) → x.id ≡ b.id → All (Apart x) xs → All (λ y. y.id ≢ b.id) xs
Apart-others x b [] same h = tt
Apart-others x b (y ∷ ys) same h = (λ e. h.0.ids (same ∙ sym e), Apart-others x b ys same h.1)

save_self-Apart :
    (b : Agent) (xs : List Agent)
    → All (λ x. x.id ≢ b.id) xs
    → Fits b xs
    → All (Apart b) (save (λ (y : Agent). y.id) b xs)
unfolding save
save_self-Apart b [] h fits = tt
save_self-Apart b (x ∷ xs) h fits =
    (rw (differ x b h.0) (Apart-sym x b (fits.0 h.0)), save_self-Apart b xs h.1 fits.1)

pub save-Pairwise :
    (b : Agent) (xs : List Agent)
    → Pairwise xs
    → Fits b xs
    → Pairwise (save (λ (y : Agent). y.id) b xs)
unfolding save
save-Pairwise b [] h fits = tt
save-Pairwise b (x ∷ xs) h fits = elim (Bool-cases (x.id == b.id)) [
  | inl same ↦ rw same (
    save_self-Apart b xs (Apart-others x b xs (ground arith) h.0) fits.1,
    save-Pairwise b xs h.1 fits.1,
  )
  | inr other ↦
      rw other (save-Apart b x xs (fits.0 (ground arith)) h.0, save-Pairwise b xs h.1 fits.1)
]

pub keep-Pairwise : (p : Agent → Bool) (xs : List Agent) → Pairwise xs → Pairwise (keep p xs)
keep-Pairwise p [] h = tt
keep-Pairwise p (x ∷ xs) h = elim (Bool-cases (p x)) [
  | inl kept ↦ rw kept (keep-keeps (Apart x) p xs h.0, keep-Pairwise p xs h.1)
  | inr lost ↦ rw lost (keep-Pairwise p xs h.1)
]

-- A change that keeps ids, users and names, and makes no default.
pub record Demotes (f : Agent → Agent) : Type 0 where
  pub id : (a : Agent) → (f a).id ≡ a.id
  pub user_id : (a : Agent) → (f a).user_id ≡ a.user_id
  pub name : (a : Agent) → (f a).name ≡ a.name
  pub is_default : (a : Agent) → a.is_default ≡ false → (f a).is_default ≡ false

map-Apart :
    (f : Agent → Agent) (a : Agent) (xs : List Agent)
    → Demotes f
    → All (Apart a) xs
    → All (Apart (f a)) (map f xs)
map-Apart f a [] d h = tt
map-Apart f a (x ∷ xs) d h = (
  record {
    ids = ground (arith, d.id a, d.id x, h.0.ids);
    names = λ u. ground (arith, d.user_id a, d.user_id x, d.name a, d.name x, h.0.names);
    defaults = λ u e.
        ground (arith, d.user_id a, d.user_id x, d.is_default a, d.is_default x, h.0.defaults);
  },
  map-Apart f a xs d h.1,
)

pub map-Pairwise :
    (f : Agent → Agent) (xs : List Agent) → Demotes f → Pairwise xs → Pairwise (map f xs)
map-Pairwise f [] d h = tt
map-Pairwise f (x ∷ xs) d h = (map-Apart f x xs d h.0, map-Pairwise f xs d h.1)

-- A row that clashes with none stands apart from all, once it has a fresh id.
pub fresh-Apart :
    (a : Agent) (xs : List Agent)
    → All (λ x. x.id < a.id) xs
    → exists (clashes a) xs ≡ false
    → All (Apart a) xs
fresh-Apart a [] old free = tt
fresh-Apart a (x ∷ xs) old free = (
  record { ids = λ e. omega arith; names = λ u e. ground arith; defaults = λ u e. ground arith },
  fresh-Apart a xs old.1 (ground arith),
)

pub save-Fits : (b : Agent) (xs : List Agent) → Fits b xs → Fits b (save (λ (y : Agent). y.id) b xs)
unfolding save
save-Fits b [] h = tt
save-Fits b (x ∷ xs) h = (λ other. ground arith, save-Fits b xs h.1)
