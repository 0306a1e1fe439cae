-- ===== src/Transcript/Keys.antt =====
-- The object keys of sessions: which keys share an object, and which objects a session's sweep meets
-- (src/agents/chat/s3_session_store.py).
use saas_ai_agents_long_term.Prelude.{
  ℕ, Bool, true, false, not, ◌&&◌, Option, none, some, [], ◌∷◌, ◌++◌, ◌≡◌, ◌≢◌, refl, ap, sym, ◌∙◌,
  arith, ◌==◌, nat_eq, length, length-append, Option-cases, inl, inr,
}
use saas_ai_agents_long_term.Prelude.Text.{
  Text, codes, starts_with, strip_prefix, strip_prefix-append, strip_prefix-eq_some,
}
use saas_ai_agents_long_term.Transcript.{
  Codec, SessionKey, slash, head_of, below, object_key, session_prefix, text_eq,
}
use saas_ai_agents_long_term.Transcript.Contents.{append_assoc}

abbrev pub NoSlash : Text → Type 0
NoSlash [] = Unit
NoSlash (c ∷ t) = (c ≢ slash) × NoSlash t

-- The keys that the SDK makes: a project key and a session id without slashes.
pub record Wellformed (key : SessionKey) : Type 0 where
  pub project : NoSlash key.project_key
  pub session : NoSlash key.session_id

abbrev pub path_of : Option Text → Text
path_of none = []
path_of (some s) = s

abbrev pub suffix : Text
suffix = codes ".jsonl"

abbrev session_part : Text → Text → Text
session_part session [] = session ++ suffix
session_part session (c ∷ s) = session ++ (slash ∷ ((c ∷ s) ++ suffix))

abbrev lead : Text → Text
lead [] = []
lead (c ∷ p) = (c ∷ p) ++ (slash ∷ [])

abbrev tail_of : SessionKey → Text
tail_of key = key.project_key ++ (slash ∷ session_part key.session_id (path_of key.subpath))

abbrev swept_tail : SessionKey → Text
swept_tail key = key.project_key ++ (slash ∷ (key.session_id ++ (slash ∷ [])))

NoSlash-append : (a b : Text) → NoSlash a → NoSlash b → NoSlash (a ++ b)
NoSlash-append [] b ha hb = hb
NoSlash-append (c ∷ a) b ha hb = (ha.0, NoSlash-append a b ha.1 hb)

NoSlash-suffix : NoSlash suffix
NoSlash-suffix =
    (omega arith, (omega arith, (omega arith, (omega arith, (omega arith, (omega arith, tt))))))

-- A text is cut in one way at its first slash.
cut :
    (a b x y : Text)
    → NoSlash a
    → NoSlash b
    → a ++ (slash ∷ x) ≡ b ++ (slash ∷ y)
    → (a ≡ b) × (x ≡ y)
cut [] [] x y ha hb h = ground arith
cut [] (d ∷ b) x y ha hb h = ground arith
cut (c ∷ a) [] x y ha hb h = ground arith
cut (c ∷ a) (d ∷ b) x y ha hb h = ground (arith, cut a b x y ha.1 hb.1)

uncut : (a b y : Text) → NoSlash a → a ≢ b ++ (slash ∷ y)
uncut [] [] y ha h = ground arith
uncut [] (d ∷ b) y ha h = ground arith
uncut (c ∷ a) [] y ha h = ground arith
uncut (c ∷ a) (d ∷ b) y ha h = ground (arith, uncut a b y ha.1)

append-cancel_left : (p a b : Text) → p ++ a ≡ p ++ b → a ≡ b
append-cancel_left [] a b h = h
append-cancel_left (c ∷ p) a b h = ground (arith, append-cancel_left p a b)

append-cancel_right : (a b c : Text) → a ++ c ≡ b ++ c → a ≡ b
append-cancel_right [] [] c h = refl
append-cancel_right [] (d ∷ b) c h = absurd (omega (arith, ap length h, length-append b c))
append-cancel_right (x ∷ a) [] c h = absurd (omega (arith, ap length h, length-append a c))
append-cancel_right (x ∷ a) (d ∷ b) c h = ground (arith, append-cancel_right a b c)

session_part-injective :
    (s t x y : Text)
    → NoSlash s
    → NoSlash t
    → session_part s x ≡ session_part t y
    → (s ≡ t) × (x ≡ y)
session_part-injective s t [] [] hs ht h = (append-cancel_right s t suffix h, refl)
session_part-injective s t [] (d ∷ y) hs ht h =
    absurd (uncut (s ++ suffix) t ((d ∷ y) ++ suffix) (NoSlash-append s suffix hs NoSlash-suffix) h)
session_part-injective s t (c ∷ x) [] hs ht h =
    absurd (
      uncut (t ++ suffix) s ((c ∷ x) ++ suffix) (NoSlash-append t suffix ht NoSlash-suffix) (sym h))
session_part-injective s t (c ∷ x) (d ∷ y) hs ht h =
    let k = cut s t ((c ∷ x) ++ suffix) ((d ∷ y) ++ suffix) hs ht h in
    (k.0, append-cancel_right (c ∷ x) (d ∷ y) suffix k.1)

session_part-slash :
    (s t x r : Text)
    → NoSlash s
    → NoSlash t
    → session_part s x ≡ t ++ (slash ∷ r)
    → (s ≡ t) × (x ≢ [])
session_part-slash s t [] r hs ht h =
    absurd (uncut (s ++ suffix) t r (NoSlash-append s suffix hs NoSlash-suffix) h)
session_part-slash s t (c ∷ x) r hs ht h = ((cut s t ((c ∷ x) ++ suffix) r hs ht h).0, λ e. cc)

-- Whether two keys are of one session, and whether they are the same path below it.
abbrev pub same_session : SessionKey → SessionKey → Bool
same_session k l = k.project_key == l.project_key && k.session_id == l.session_id

abbrev pub same_key : SessionKey → SessionKey → Bool
same_key k l = same_session k l && path_of k.subpath == path_of l.subpath

tail_of-injective :
    (k l : SessionKey)
    → Wellformed k
    → Wellformed l
    → tail_of k ≡ tail_of l
    → (k.project_key ≡ l.project_key)
      × (k.session_id ≡ l.session_id)
      × (path_of k.subpath ≡ path_of l.subpath)
tail_of-injective k l hk hl h =
    let c = cut k.project_key l.project_key _ _ hk.project hl.project h in
    let s =
      session_part-injective k.session_id l.session_id (path_of k.subpath) (path_of l.subpath)
        hk.session hl.session c.1 in
    (c.0, s.0, s.1)

abbrev extension : Text → Text
extension [] = suffix
extension (c ∷ s) = slash ∷ ((c ∷ s) ++ suffix)

session_part-extension : (s x : Text) → session_part s x ≡ s ++ extension x
session_part-extension s [] = refl
session_part-extension s (c ∷ x) = refl

module _ (codec : Codec) where
  head_of-append :
      (p : Text) (k : SessionKey) (z : Text)
      → head_of codec p k ++ z ≡ lead p ++ (k.project_key ++ (slash ∷ (k.session_id ++ z)))
  head_of-append [] k z = append_assoc k.project_key (slash ∷ k.session_id) z
  head_of-append (c ∷ p) k z =
      append_assoc ((c ∷ p) ++ (slash ∷ k.project_key)) (slash ∷ k.session_id) z
      ∙ append_assoc (c ∷ p) (slash ∷ k.project_key) (slash ∷ (k.session_id ++ z))
      ∙ sym (append_assoc (c ∷ p) (slash ∷ []) (k.project_key ++ (slash ∷ (k.session_id ++ z))))

  below-extension :
      (head : Text) (s : Option Text) → below codec head s ≡ head ++ extension (path_of s)
  below-extension head none = refl
  below-extension head (some []) = refl
  below-extension head (some (x ∷ s)) = append_assoc head (slash ∷ x ∷ s) suffix

  object_key-tail_of : (k : SessionKey) → object_key codec k ≡ lead codec.prefix ++ tail_of k
  unfolding object_key
  object_key-tail_of k =
      rw
        (
          below-extension (head_of codec codec.prefix k) k.subpath,
          session_part-extension k.session_id (path_of k.subpath),
        )
        (head_of-append codec.prefix k (extension (path_of k.subpath)))

  session_prefix-swept_tail :
      (k : SessionKey) → session_prefix codec k ≡ lead codec.prefix ++ swept_tail k
  unfolding session_prefix
  session_prefix-swept_tail k = head_of-append codec.prefix k (slash ∷ [])

  -- Two keys share an object only if they are the same session and the same path below it.
  pub object_key-injective :
      (k l : SessionKey)
      → Wellformed k
      → Wellformed l
      → object_key codec k ≡ object_key codec l
      → (k.project_key ≡ l.project_key)
        × (k.session_id ≡ l.session_id)
        × (path_of k.subpath ≡ path_of l.subpath)
  object_key-injective k l hk hl h = tail_of-injective k l hk hl (
      append-cancel_left (lead codec.prefix) (tail_of k) (tail_of l)
        (sym (object_key-tail_of k) ∙ h ∙ object_key-tail_of l))

  -- The objects below a session are those of its own subpaths.
  pub starts_with-session_prefix :
      (k l : SessionKey) (r : Text)
      → Wellformed k
      → Wellformed l
      → object_key codec l ≡ session_prefix codec k ++ r
      → (k.project_key ≡ l.project_key) × (k.session_id ≡ l.session_id) × (path_of l.subpath ≢ [])
  starts_with-session_prefix k l r hk hl h =
      let same = append-cancel_left (lead codec.prefix) (tail_of l) (swept_tail k ++ r) (
        sym (object_key-tail_of l)
        ∙ h
        ∙ ap (λ (t : Text). t ++ r) (session_prefix-swept_tail k)
        ∙ append_assoc (lead codec.prefix) (swept_tail k) r) in
      let parts =
        cut l.project_key k.project_key _ _ hl.project hk.project
          (same ∙ append_assoc k.project_key (slash ∷ (k.session_id ++ (slash ∷ []))) r) in
      let session =
        session_part-slash l.session_id k.session_id (path_of l.subpath) r hl.session hk.session
          (parts.1 ∙ append_assoc k.session_id (slash ∷ []) r) in
      (sym parts.0, sym session.0, session.1)

  object_key-cong :
      (k l : SessionKey)
      → k.project_key ≡ l.project_key
      → k.session_id ≡ l.session_id
      → path_of k.subpath ≡ path_of l.subpath
      → object_key codec k ≡ object_key codec l
  object_key-cong k l hp hs hx =
      object_key-tail_of k ∙ rw (hp, hs, hx) refl ∙ sym (object_key-tail_of l)

  session_prefix-below :
      (k l : SessionKey) (c : ℕ) (x : Text)
      → k.project_key ≡ l.project_key
      → k.session_id ≡ l.session_id
      → path_of l.subpath ≡ c ∷ x
      → object_key codec l ≡ session_prefix codec k ++ ((c ∷ x) ++ suffix)
  session_prefix-below k l c x hp hs hx =
      object_key-tail_of l
      ∙ rw (sym hp, sym hs, hx) refl
      ∙ ap (λ (t : Text). lead codec.prefix ++ t)
          (sym (
            append_assoc k.project_key (slash ∷ (k.session_id ++ (slash ∷ []))) ((c ∷ x) ++ suffix)
            ∙ ap (λ (t : Text). k.project_key ++ (slash ∷ t))
                (append_assoc k.session_id (slash ∷ []) ((c ∷ x) ++ suffix))))
      ∙ sym (
          ap (λ (t : Text). t ++ ((c ∷ x) ++ suffix)) (session_prefix-swept_tail k)
          ∙ append_assoc (lead codec.prefix) (swept_tail k) ((c ∷ x) ++ suffix))

  pub object_key-same_key :
      (k l : SessionKey)
      → Wellformed k
      → Wellformed l
      → (object_key codec l == object_key codec k) ≡ same_key k l
  object_key-same_key k l hk hl =
      ground (arith, object_key-injective l k hl hk, object_key-cong l k)

  inside :
      (k l : SessionKey)
      → Wellformed k
      → Wellformed l
      → (r : Text) → object_key codec l ≡ session_prefix codec k ++ r
      → (same_session k l && not (path_of l.subpath == [])) ≡ true
  inside k l hk hl r h = ground (arith, starts_with-session_prefix k l r hk hl h)

  outside :
      (k l : SessionKey)
      → strip_prefix (session_prefix codec k) (object_key codec l) ≡ none
      → (same_session k l && not (path_of l.subpath == [])) ≡ false
  outside k l h = go (path_of l.subpath) refl
    where
      go : (x : Text) → path_of l.subpath ≡ x → (same_session k l && not (x == [])) ≡ false
      go [] e = ground arith
      go (c ∷ x) e = ground (
        arith,
        session_prefix-below k l c x,
        strip_prefix-append (session_prefix codec k) ((c ∷ x) ++ suffix),
        h,
      )

  pub starts_with-same_session :
      (k l : SessionKey)
      → Wellformed k
      → Wellformed l
      → starts_with (session_prefix codec k) (object_key codec l)
        ≡ (same_session k l && not (path_of l.subpath == []))
  starts_with-same_session k l hk hl =
      elim (Option-cases (strip_prefix (session_prefix codec k) (object_key codec l))) [
        | inl other ↦ rw (starts_with, other) (sym (outside k l other))
        | inr (r, met) ↦
            rw (starts_with, met)
              (sym (
                inside k l hk hl r
                  (strip_prefix-eq_some (session_prefix codec k) (object_key codec l) r met)))
      ]
