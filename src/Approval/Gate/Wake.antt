-- ===== src/Approval/Gate/Wake.antt =====
-- No wake-up is lost: an answer that has been given reaches the waiter in every interleaving.
use saas_ai_agents_long_term.Prelude.{
  length, subst, sym, ◌∙◌, ℕ, suc, zero, ◌+◌, ◌<◌, true, Option, none, some, List, [], ◌∷◌, ◌≡◌,
  refl, ◌≢◌, arith, ◌⊎◌, inl, inr,
}
use saas_ai_agents_long_term.Prelude.Text.{Text}
use saas_ai_agents_long_term.Effect.{Error}
use saas_ai_agents_long_term.Approval.Gate.{
  Phase, start, registered, checking, sleeping, rechecking, returned, raised, Gate, advance,
  scheduled, register, wait_for_decision, check, wake, recheck, resolve_set, resolve_publish,
  cleanup, Step, waiter, answer_set, answer_publish, clean, Reachable, initially, and_then,
}

pub data Stored (raw : Text) : List Text → Type 0 where
  here : (raws : List Text) → Stored raw (raw ∷ raws)
  there : (other : Text) (raws : List Text) → Stored raw raws → Stored raw (other ∷ raws)

abbrev head : List Text → Option Text
head [] = none
head (raw ∷ raws) = some raw

-- What each phase knows. Until the waiter returns, the decision in Redis is the latest; asleep, a
-- message waits for the waiter or is still to be published, if there is a decision at all.
abbrev Fits : Phase → Gate → Type 0
Fits start g = g.decision ≡ head g.stored
Fits registered g = (g.decision ≡ head g.stored) × (g.subscribed ≡ true) × (g.pending ≡ true)
Fits checking g = (g.decision ≡ head g.stored) × (g.subscribed ≡ true)
Fits sleeping g =
    (g.decision ≡ head g.stored)
    × (g.subscribed ≡ true)
    × (0 < length g.stored → 0 < g.inbox + g.in_flight)
Fits rechecking g = (g.decision ≡ head g.stored) × (g.subscribed ≡ true) × (0 < length g.stored)
Fits (returned raw) g = Stored raw g.stored
Fits (raised e) g = ⊥

record Sound (g : Gate) : Type 0 where
  pub announced : 0 < g.inbox + g.in_flight → 0 < length g.stored
  pub fits : Fits g.phase g

set-Fits : (p : Phase) (raw : Text) (g : Gate) → Fits p g → Fits p (resolve_set raw g)
unfolding resolve_set
set-Fits start raw g h = refl
set-Fits registered raw g h = (refl, h.1, h.2)
set-Fits checking raw g h = (refl, h.1)
set-Fits sleeping raw g h = (refl, h.1, λ _. omega arith)
set-Fits rechecking raw g h = (refl, h.1, omega arith)
set-Fits (returned r) raw g h = there raw g.stored h
set-Fits (raised e) raw g h = elim h [ ]

publish-Fits :
    (p : Phase) (n : ℕ) (g : Gate) → g.in_flight ≡ suc n → Fits p g → Fits p (resolve_publish n g)
unfolding resolve_publish
publish-Fits start n g e h = h
publish-Fits registered n g e h = h
publish-Fits checking n g e h = h
publish-Fits sleeping n g e h = (h.0, h.1, λ _. rw h.1 (omega arith))
publish-Fits rechecking n g e h = h
publish-Fits (returned r) n g e h = h
publish-Fits (raised _) n g e h = elim h [ ]

head-Stored : (raw : Text) (raws : List Text) → head raws ≡ some raw → Stored raw raws
head-Stored raw [] h = cc
head-Stored raw (r ∷ raws) h = subst (λ x. Stored x (r ∷ raws)) (ground arith) (here raws)

ℕ-cases : (n : ℕ) → (n ≡ 0) ⊎ ((m : ℕ) × (n ≡ suc m))
ℕ-cases zero = inl refl
ℕ-cases (suc n) = inr (n, refl)

option-cases : (o : Option Text) → (o ≡ none) ⊎ ((raw : Text) × (o ≡ some raw))
option-cases none = inl refl
option-cases (some raw) = inr (raw, refl)

nonempty-head : (raws : List Text) → 0 < length raws → head raws ≢ none
nonempty-head [] h e = omega arith
nonempty-head (r ∷ raws) h e = cc

none-empty : (raws : List Text) → head raws ≡ none → length raws ≡ 0
none-empty [] h = refl
none-empty (r ∷ raws) h = cc

check-Sound :
    (g : Gate)
    → (0 < g.inbox + g.in_flight → 0 < length g.stored)
    → Fits checking g
    → Sound (check g)
unfolding check
check-Sound g h f = elim (option-cases g.decision) [
  | inl missing ↦ rw missing (record {
    announced = h;
    fits = (
      sym missing ∙ f.0,
      f.1,
      λ some_stored. omega (arith, none-empty g.stored (sym f.0 ∙ missing)),
    );
  })
  | inr (raw, found) ↦ rw found (record {
    announced = λ flying. h (omega arith);
    fits = head-Stored raw g.stored (sym f.0 ∙ found);
  })
]

wake-Sound :
    (g : Gate)
    → g.phase ≡ sleeping
    → (0 < g.inbox + g.in_flight → 0 < length g.stored)
    → Fits sleeping g
    → Sound (wake g)
unfolding wake
wake-Sound g e h f = elim (ℕ-cases g.inbox) [
  | inl empty ↦ rw empty (record {
    announced = λ some_left. h (omega arith);
    fits = rw e (f.0, f.1, λ some_stored. omega (arith, f.2 some_stored));
  })
  | inr (n, more) ↦
      rw more
        (record { announced = λ some_left. h (omega arith); fits = (f.0, f.1, h (omega arith)) })
]

recheck-Sound :
    (g : Gate)
    → (0 < g.inbox + g.in_flight → 0 < length g.stored)
    → Fits rechecking g
    → Sound (recheck g)
unfolding recheck
recheck-Sound g h f = elim (option-cases g.decision) [
  | inl missing ↦ elim (nonempty-head g.stored f.2 (sym f.0 ∙ missing)) [ ]
  | inr (raw, found) ↦
      rw found
        (record { announced = λ flying. f.2; fits = head-Stored raw g.stored (sym f.0 ∙ found) })
]

scheduled-Sound :
    (p : Phase) (g : Gate)
    → g.phase ≡ p
    → (0 < g.inbox + g.in_flight → 0 < length g.stored)
    → Fits p g
    → Sound (scheduled p g)
unfolding scheduled register
scheduled-Sound start g e h f = record { announced = h; fits = (f, refl, refl) }
scheduled-Sound registered g e h f =
    unfold wait_for_decision in rw f.2 (record { announced = h; fits = (f.0, f.1) })
scheduled-Sound checking g e h f = check-Sound g h f
scheduled-Sound sleeping g e h f = wake-Sound g e h f
scheduled-Sound rechecking g e h f = recheck-Sound g h f
scheduled-Sound (returned raw) g e h f = record { announced = h; fits = rw e f }
scheduled-Sound (raised _) g e h f = elim f [ ]

Step-Sound : (g g' : Gate) → Step g g' → Sound g → Sound g'
unfolding resolve_set resolve_publish cleanup
Step-Sound _ _ (waiter g) s = scheduled-Sound g.phase g refl s.announced s.fits
Step-Sound _ _ (answer_set raw g) s = record {
  announced = λ _. omega arith;
  fits = set-Fits g.phase raw g s.fits;
}
Step-Sound _ _ (answer_publish n g e) s = record {
  announced = λ _. s.announced (omega arith);
  fits = publish-Fits g.phase n g e s.fits;
}
Step-Sound _ _ (clean raw g e) s = record {
  announced = s.announced;
  fits = rw e (subst (λ p. Fits p g) e s.fits);
}

Reachable-Sound : (g : Gate) → Reachable g → Sound g
Reachable-Sound _ initially = record { announced = λ h. omega arith; fits = refl }
Reachable-Sound _ (and_then g₀ g r s) = Step-Sound g₀ g s (Reachable-Sound g₀ r)

-- However the answers interleave with the waiter, it never fails: no wake message comes without a
-- decision, and it never waits without having registered.
pub Reachable-never_raises : (g : Gate) (e : Error) → Reachable g → g.phase ≢ raised e
Reachable-never_raises g e r h = elim (subst (λ p. Fits p g) h (Reachable-Sound g r).fits) [ ]

-- What the waiter returns is a decision that some answer stored.
pub Reachable-returned :
    (g : Gate) (raw : Text) → Reachable g → g.phase ≡ returned raw → Stored raw g.stored
Reachable-returned g raw r h = subst (λ p. Fits p g) h (Reachable-Sound g r).fits

abbrev pub Answered : Gate → Gate → Type 0
Answered g g' = (raw : Text) × Stored raw g.stored × (g'.phase ≡ returned raw)

head-found :
    (raws : List Text) → 0 < length raws → (raw : Text) × (head raws ≡ some raw) × Stored raw raws
head-found [] h = elim (absurd h) [ ]
  where
    absurd : 0 < 0 → ⊥
    absurd k = omega (arith, k)
head-found (r ∷ raws) h = (r, refl, here raws)

has-message : (m n : ℕ) → n ≡ 0 → 0 < m + n → m ≢ 0
has-message m n quiet some_left = omega arith

turns-Answered :
    (p : Phase) (g : Gate)
    → g.phase ≡ p
    → Fits p g
    → g.in_flight ≡ 0
    → 0 < length g.stored
    → Answered g (advance (advance (advance g)))
unfolding scheduled register wait_for_decision check wake recheck
turns-Answered start g e f quiet answered =
    let d = head-found g.stored answered in (d.0, d.2, rw e (rw (f ∙ d.1) refl))
turns-Answered registered g e f quiet answered =
    let d = head-found g.stored answered in (d.0, d.2, rw (e, f.2, f.0 ∙ d.1) refl)
turns-Answered checking g e f quiet answered =
    let d = head-found g.stored answered in (d.0, d.2, rw (e, f.0 ∙ d.1) refl)
turns-Answered sleeping g e f quiet answered = elim (ℕ-cases g.inbox) [
  | inl empty ↦ elim (has-message g.inbox g.in_flight quiet (f.2 answered) empty) [ ]
  | inr (n, more) ↦ let d = head-found g.stored answered in (d.0, d.2, rw (e, more, f.0 ∙ d.1) refl)
]
turns-Answered rechecking g e f quiet answered =
    let d = head-found g.stored answered in (d.0, d.2, rw (e, f.0 ∙ d.1) refl)
turns-Answered (returned raw) g e f quiet answered = (raw, f, rw e refl)
turns-Answered (raised _) g e f quiet answered = elim f [ ]

-- No wake-up is lost. In every reachable state in which an answer was stored and none is still to
-- be published, three turns of the waiter bring it to a stored decision.
pub no_lost_wake_up :
    (g : Gate)
    → Reachable g
    → g.in_flight ≡ 0
    → 0 < length g.stored
    → Answered g (advance (advance (advance g)))
no_lost_wake_up g r quiet answered =
    turns-Answered g.phase g refl (Reachable-Sound g r).fits quiet answered
