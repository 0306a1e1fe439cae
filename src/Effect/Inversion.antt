-- ===== src/Effect/Inversion.antt =====
-- What an action did that returned: every action before it returned as well.
use mathlib.Core.Path.{◌≡◌, refl, ap}
use saas_ai_agents_long_term.Prelude.{arith, true, false}
use saas_ai_agents_long_term.Effect.{
  Result, ok, err, Exec, continue, pure, lift, gets, cond, catch, recover, Error, finally, ◌>>=◌,
}

module _ {ℓ κ μ} {S : Type ℓ} {A : Type κ} {B : Type μ} where
  -- The value and the state in the middle of a sequence.
  pub record Middle (m : Exec S A) (f : A → Exec S B) (s s' : S) (b : B) : Type (ℓ ⊔ κ ⊔ μ) where
    pub value : A
    pub state : S
    pub first : m s ≡ (ok value, state)
    pub second : f value state ≡ (ok b, s')

  pub middle :
      (m : Exec S A) (f : A → Exec S B) (s s' : S) (b : B)
      → (m >>= f) s ≡ (ok b, s')
      → Middle m f s s' b
  unfolding ◌>>=◌
  middle m f s s' b h = go (m s) refl h
    where
      go : (r : Result A × S) → m s ≡ r → continue r f ≡ (ok b, s') → Middle m f s s' b
      go (ok a, t) e k = record { value = a; state = t; first = e; second = k }
      go (err x, t) e k = cc

pub pure-ok {ℓ κ} :
    {S : Type ℓ} {A : Type κ} (a b : A) (s s' : S) → pure a s ≡ (ok b, s') → (a ≡ b) × (s ≡ s')
unfolding ◌>>=◌
pure-ok a b s s' h = ground arith

pub lift-ok {ℓ κ} :
    {S : Type ℓ} {A : Type κ} (r : Result A) (a : A) (s s' : S) → lift r s ≡ (ok a, s') → r ≡ ok a
unfolding ◌>>=◌
lift-ok r a s s' h = ground arith

pub lift-state {ℓ κ} :
    {S : Type ℓ} {A : Type κ} (r : Result A) (a : A) (s s' : S) → lift r s ≡ (ok a, s') → s ≡ s'
unfolding ◌>>=◌
lift-state r a s s' h = ap (λ x. x.1) h

pub cond-false {ℓ κ} : {S : Type ℓ} {A : Type κ} (m n : Exec S A) (s : S) → cond false m n s ≡ n s
unfolding ◌>>=◌
cond-false m n s = refl

pub cond-true {ℓ κ} : {S : Type ℓ} {A : Type κ} (m n : Exec S A) (s : S) → cond true m n s ≡ m s
unfolding ◌>>=◌
cond-true m n s = refl

-- However the body ends, the clean-up has run.
pub finally-state {ℓ κ} :
    {S : Type ℓ} {A : Type κ} (m : Exec S A) (f : S → S) (s : S) → (finally m f s).1 ≡ f (m s).1
unfolding ◌>>=◌
finally-state m f s = refl

pub gets-bind {ℓ κ μ} :
    {S : Type ℓ} {A : Type κ} {B : Type μ} (f : S → A) (g : A → Exec S B) (s : S)
    → (gets f >>= g) s ≡ g (f s) s
unfolding ◌>>=◌
gets-bind f g s = refl

pub bind-continue {ℓ κ μ} :
    {S : Type ℓ} {A : Type κ} {B : Type μ} (m : Exec S A) (f : A → Exec S B) (s : S)
    → (m >>= f) s ≡ continue (m s) f
unfolding ◌>>=◌
bind-continue m f s = refl

pub finally-ok {ℓ κ} :
    {S : Type ℓ} {A : Type κ} (m : Exec S A) (f : S → S) (s s' : S) (a : A)
    → finally m f s ≡ (ok a, s')
    → (t : S) × (m s ≡ (ok a, t)) × (f t ≡ s')
unfolding ◌>>=◌
finally-ok m f s s' a h = ((m s).1, ap (λ r. (r.0, (m s).1)) h, ap (λ r. r.1) h)

pub catch-recover {ℓ κ} :
    {S : Type ℓ} {A : Type κ} (m : Exec S A) (handler : Error → Exec S A) (s : S)
    → catch m handler s ≡ recover (m s) handler
unfolding ◌>>=◌
catch-recover m handler s = refl
