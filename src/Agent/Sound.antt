-- ===== src/Agent/Sound.antt =====
-- No operation of the agent service leaves a user with two default agents or two agents of one name
-- (src/services/agent_service.py, src/db/queries/agent_query.py).
use saas_ai_agents_long_term.Prelude.{
  ℕ, suc, ◌<◌, String, Bool, true, false, Option, some, List, [], ◌∷◌, map, ◌≡◌, refl, sym, ap,
  subst, arith, nat_eq, string_eq, find_first, find_first-All, find_first-holds, exists, All,
  Bool-cases, inl, inr,
}
use saas_ai_agents_long_term.Prelude.Table.{save-All}
use saas_ai_agents_long_term.Effect.{
  Error, already_exists, Result, ok, err, Exec, continue, pure, modify, ◌>>=◌,
}
use saas_ai_agents_long_term.Effect.Preserves.{Preserves, modify-Preserves}
use saas_ai_agents_long_term.Agent.{
  Agent, Rows, Session, with_current, flush, rollback, get_agent, create_agent, new_agent,
  insert_agent, update_agent, set_default, clear_defaults, undefault, save_agent, name_taken,
  patched_agent, AgentPatch, owned, clashes,
}
use saas_ai_agents_long_term.Agent.Apart.{
  Pairwise, Fits, find_first-Fits, save-Pairwise, Demotes, map-Pairwise, fresh-Apart, save-Fits,
}

abbrev pub Old : Rows → Agent → Type 0
Old rows a = a.id < rows.next_id

pub record SoundRows (rows : Rows) : Type 0 where
  pub apart : Pairwise rows.agents
  pub old : All (Old rows) rows.agents

-- What holds of the rows as they are and as a roll-back would leave them.
pub record Sound (s : Session) : Type 0 where
  pub committed : SoundRows s.committed
  pub current : SoundRows s.current

pub modify-Sound :
    (f : Rows → Rows)
    → ((rows : Rows) → SoundRows rows → SoundRows (f rows))
    → Preserves Sound (modify (λ (s : Session). with_current (f s.current) s))
modify-Sound f h =
    modify-Preserves (λ (s : Session). with_current (f s.current) s)
      (λ s sound. record { committed = sound.committed; current = h s.current sound.current })

-- A flush that does not raise writes rows that break no index.
pub flush-Sound :
    (e : Error) (breaks : Rows → Bool) (write : Rows → Rows)
    → ((rows : Rows) → breaks rows ≡ false → SoundRows rows → SoundRows (write rows))
    → Preserves Sound (flush e breaks write)
unfolding flush rollback ◌>>=◌
flush-Sound e breaks write h = record {
  holds = λ s sound. elim (Bool-cases (breaks s.current)) [
    | inl broken ↦ rw broken (record { committed = sound.committed; current = sound.committed })
    | inr fine ↦
        rw fine (record { committed = sound.committed; current = h s.current fine sound.current })
  ];
}

pub older :
    (m n : ℕ) (xs : List Agent) → m < suc n → All (λ a. a.id < m) xs → All (λ a. a.id < n) xs
older m n [] h hs = tt
older m n (x ∷ xs) h hs = (omega arith, older m n xs h hs.1)

insert_agent-SoundRows :
    (a : Agent) (rows : Rows)
    → a.id ≡ rows.next_id
    → exists (clashes a) rows.agents ≡ false
    → SoundRows rows
    → SoundRows (insert_agent a rows)
insert_agent-SoundRows a rows fresh free h = record {
  apart = (
    fresh-Apart a rows.agents
        (subst (λ n. All (λ (x : Agent). x.id < n) rows.agents) (sym fresh) h.old) free,
    h.apart,
  );
  old = (omega arith, older rows.next_id (suc rows.next_id) rows.agents (omega arith) h.old);
}

pub create_agent-Sound :
    (user_id : ℕ) (name display_name : String) (description system_prompt model : Option String)
    (is_default : Bool)
    → Preserves Sound
        (create_agent user_id name display_name description system_prompt model is_default)
unfolding create_agent flush rollback ◌>>=◌
create_agent-Sound user_id name display_name description system_prompt model is_default = record {
  holds = λ s sound.
      go s sound
        (new_agent s.current.next_id user_id name display_name description system_prompt model
          is_default)
        refl;
}
  where
    go :
        (s : Session)
        → Sound s
        → (a : Agent) → a.id ≡ s.current.next_id
        → Sound
            (continue
              (flush already_exists (λ rows. exists (clashes a) rows.agents) (insert_agent a) s)
              (λ u. pure a)).1
    go s sound a fresh = elim (Bool-cases (exists (clashes a) s.current.agents)) [
      | inl broken ↦ rw broken (record { committed = sound.committed; current = sound.committed })
      | inr fine ↦ rw fine (record {
        committed = sound.committed;
        current = insert_agent-SoundRows a s.current fresh fine sound.current;
      })
    ]

patched-Fits :
    (p : AgentPatch) (a : Agent) (xs : List Agent)
    → Fits a xs
    → exists (name_taken (patched_agent p a)) xs ≡ false
    → Fits (patched_agent p a) xs
patched-Fits p a [] h free = tt
patched-Fits p a (x ∷ xs) h free = (
  λ other. record { ids = other; names = λ u e. ground arith; defaults = (h.0 other).defaults },
  patched-Fits p a xs h.1 (ground arith),
)

-- The row that an operation hands on: it fits among the others.
pub record Held (a : Agent) (s : Session) : Type 0 where
  fits : Fits a s.current.agents
  old : a.id < s.current.next_id

pub update_agent-Sound :
    (a : Agent) (p : AgentPatch) (s : Session) → Sound s → Held a s → Sound (update_agent a p s).1
unfolding update_agent flush rollback save_agent ◌>>=◌
update_agent-Sound a p s sound held =
    elim (Bool-cases (exists (name_taken (patched_agent p a)) s.current.agents)) [
      | inl broken ↦ rw broken (record { committed = sound.committed; current = sound.committed })
      | inr fine ↦ rw fine (record {
        committed = sound.committed;
        current = record {
          apart =
              save-Pairwise (patched_agent p a) s.current.agents sound.current.apart
                (patched-Fits p a s.current.agents held.fits fine);
          old =
              save-All (λ (x : Agent). x.id) (Old s.current) (patched_agent p a) s.current.agents
                held.old sound.current.old;
        };
      })
    ]

get_agent-Held :
    (user_id agent_id : ℕ) (s s' : Session) (a : Agent)
    → Sound s
    → get_agent user_id agent_id s ≡ (ok a, s')
    → Held a s' × (a.user_id ≡ user_id) × (s' ≡ s)
unfolding get_agent
get_agent-Held user_id agent_id s s' a sound h =
    let hit : find_first (owned user_id agent_id) s.current.agents ≡ some a = ground arith in
    let same : s' ≡ s = ground arith in
    (
      subst (Held a) (sym same) (record {
        fits = find_first-Fits (owned user_id agent_id) s.current.agents a sound.current.apart hit;
        old =
            find_first-All (owned user_id agent_id) (Old s.current) s.current.agents a
              sound.current.old hit;
      }),
      ground (arith, find_first-holds (owned user_id agent_id) s.current.agents a hit),
      same,
    )

undefault-Demotes : (user_id : ℕ) → Demotes (undefault user_id)
undefault-Demotes user_id = record {
  id = λ a. ground arith;
  user_id = λ a. ground arith;
  name = λ a. ground arith;
  is_default = λ a e. ground arith;
}

abbrev NoDefault : ℕ → Agent → Type 0
NoDefault user_id a = a.user_id ≡ user_id → a.is_default ≡ false

undefault-NoDefault :
    (user_id : ℕ) (xs : List Agent) → All (NoDefault user_id) (map (undefault user_id) xs)
undefault-NoDefault user_id [] = tt
undefault-NoDefault user_id (x ∷ xs) = (λ u. ground arith, undefault-NoDefault user_id xs)

pub map-Old :
    (f : Agent → Agent) (n : ℕ) (xs : List Agent)
    → Demotes f
    → All (λ a. a.id < n) xs
    → All (λ a. a.id < n) (map f xs)
map-Old f n [] d h = tt
map-Old f n (x ∷ xs) d h = (subst (λ i. i < n) (sym (d.id x)) h.0, map-Old f n xs d h.1)

clear_defaults-SoundRows :
    (user_id : ℕ) (rows : Rows) → SoundRows rows → SoundRows (clear_defaults user_id rows)
clear_defaults-SoundRows user_id rows h = record {
  apart = map-Pairwise (undefault user_id) rows.agents (undefault-Demotes user_id) h.apart;
  old = map-Old (undefault user_id) rows.next_id rows.agents (undefault-Demotes user_id) h.old;
}

-- Where the user has no default, one of the user's agents may become it.
promoted-Fits :
    (a : Agent) (xs : List Agent)
    → All (NoDefault a.user_id) xs
    → Fits a xs
    → Fits (record a { is_default = true }) xs
promoted-Fits a [] h fits = tt
promoted-Fits a (x ∷ xs) h fits = (
  λ other. record {
    ids = other;
    names = (fits.0 other).names;
    defaults = λ u e. ground (arith, h.0 u);
  },
  promoted-Fits a xs h.1 fits.1,
)

-- What is handed on by an operation that returns an agent.
abbrev pub HeldBy : Result Agent × Session → Type 0
HeldBy (ok a, s) = Sound s × Held a s
HeldBy (err e, s) = Sound s

pub HeldBy-continue {ℓ} :
    {B : Type ℓ} (r : Result Agent × Session) (f : Agent → Exec Session B)
    → HeldBy r
    → ((a : Agent) (s : Session) → Sound s → Held a s → Sound (f a s).1)
    → Sound (continue r f).1
HeldBy-continue (ok a, s) f h hf = hf a s h.0 h.1
HeldBy-continue (err e, s) f h hf = h

pub get_agent-HeldBy :
    (user_id agent_id : ℕ) (s : Session) → Sound s → HeldBy (get_agent user_id agent_id s)
get_agent-HeldBy user_id agent_id s sound = go (get_agent user_id agent_id s) refl
  where
    go : (r : Result Agent × Session) → get_agent user_id agent_id s ≡ r → HeldBy r
    go (ok a, t) e =
        let held = get_agent-Held user_id agent_id s t a sound e in
        (subst Sound (sym held.2) sound, held.0)
    go (err x, t) e = unfold get_agent in subst Sound (ap (λ o. o.1) e) sound

promote-HeldBy :
    (a : Agent) (s : Session)
    → Sound s
    → Held a s
    → All (NoDefault a.user_id) s.current.agents
    → HeldBy (
      ok (record a { is_default = true }),
      with_current (save_agent (record a { is_default = true }) s.current) s,
    )
unfolding save_agent
promote-HeldBy a s sound held free =
    let fits = promoted-Fits a s.current.agents free held.fits in
    (
      record {
        committed = sound.committed;
        current = record {
          apart =
              save-Pairwise (record a { is_default = true }) s.current.agents sound.current.apart
                fits;
          old =
              save-All (λ (x : Agent). x.id) (Old s.current) (record a { is_default = true })
                s.current.agents held.old sound.current.old;
        };
      },
      record {
        fits = save-Fits (record a { is_default = true }) s.current.agents fits;
        old = held.old;
      },
    )

pub set_default-HeldBy :
    (user_id agent_id : ℕ) (s : Session) → Sound s → HeldBy (set_default user_id agent_id s)
unfolding set_default ◌>>=◌
set_default-HeldBy user_id agent_id s sound = go (get_agent user_id agent_id cleared) refl
  where
    cleared : Session
    cleared = with_current (clear_defaults user_id s.current) s

    cleared-Sound : Sound cleared
    cleared-Sound = record {
      committed = sound.committed;
      current = clear_defaults-SoundRows user_id s.current sound.current;
    }

    go :
        (r : Result Agent × Session)
        → get_agent user_id agent_id cleared ≡ r
        → HeldBy (
            continue r (λ target t. (
              ok (record target { is_default = true }),
              with_current (save_agent (record target { is_default = true }) t.current) t,
            )))
    go (ok a, t) e =
        let held = get_agent-Held user_id agent_id cleared t a cleared-Sound e in
        promote-HeldBy a t (subst Sound (sym held.2) cleared-Sound) held.0 (
          subst (λ (x : Session). All (NoDefault a.user_id) x.current.agents) (sym held.2)
            (subst (λ u. All (NoDefault u) cleared.current.agents) (sym held.1)
              (undefault-NoDefault user_id s.current.agents)))
    go (err x, t) e = unfold get_agent in subst Sound (ap (λ o. o.1) e) cleared-Sound
