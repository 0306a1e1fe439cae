-- ===== src/Webhook/Signature.antt =====
-- Who may trigger the webhook, and which task a branch names.
use saas_ai_agents_long_term.Prelude.{
  ℕ, String, Bool, true, false, ◌==◌, Option, none, some, [], ◌∷◌, ◌++◌, ◌≡◌, ◌≢◌, refl, sym, subst,
  arith, ◌⊎◌, inl, inr, string_eq, nat_eq, All, length, Bool-cases,
}
use saas_ai_agents_long_term.Prelude.Text.{
  Text, codes, strip_prefix, strip_prefix-append, strip_prefix-eq_some, same_text, same_text-eq,
}
use saas_ai_agents_long_term.Effect.{Error, Result, ok, err, authentication, ◌>>=◌}
use saas_ai_agents_long_term.World.{World}
use saas_ai_agents_long_term.Webhook.{
  Settings, WorkflowRun, is_ascii, without_label, verify_signature, process_github_event,
}
use saas_ai_agents_long_term.Webhook.Branch.{
  match_branch, hex_digits, is_hex, rest_of_line, line, line_feed,
}

-- The signature is the body's HMAC under a secret that is set, with or without its label.
pub record Authentic (settings : Settings) (hmac_hex : Text → Text → Text)
    (raw_body signature : Text) : Type 0 where
  pub has_secret : settings.webhook_secret ≢ []
  pub signed :
      (signature ≡ hmac_hex settings.webhook_secret raw_body)
      ⊎ (signature ≡ codes "sha256=" ++ hmac_hex settings.webhook_secret raw_body)

module _ (settings : Settings) (hmac_hex : Text → Text → Text) where
  digest-signed :
      (signature digest : Text) (stripped : Option Text)
      → strip_prefix (codes "sha256=") signature ≡ stripped
      → digest ≡ without_label settings signature stripped
      → (signature ≡ digest) ⊎ (signature ≡ codes "sha256=" ++ digest)
  digest-signed signature digest none e h = inl (sym h)
  digest-signed signature digest (some d) e h = inr (
      subst (λ x. signature ≡ codes "sha256=" ++ x) (sym h)
        (strip_prefix-eq_some (codes "sha256=") signature d e))

  unsigned :
      (raw_body signature : Text)
      → settings.webhook_secret ≡ []
      → verify_signature settings hmac_hex raw_body signature ≡ ok false
  unfolding verify_signature same_text
  unsigned raw_body signature e = rw e refl

  verify_signature-Authentic :
      (raw_body signature : Text)
      → verify_signature settings hmac_hex raw_body signature ≡ ok true
      → Authentic settings hmac_hex raw_body signature
  unfolding verify_signature
  verify_signature-Authentic raw_body signature h = record {
    has_secret = λ e. ground (arith, unsigned raw_body signature e);
    signed =
        digest-signed signature (hmac_hex settings.webhook_secret raw_body)
          (strip_prefix (codes "sha256=") signature) refl (same_text-eq _ _ (ground arith));
  }

  -- Without its label a text has fewer characters that could be outside of ASCII.
  without_label-is_ascii :
      (signature : Text) (stripped : Option Text)
      → strip_prefix (codes "sha256=") signature ≡ stripped
      → is_ascii (without_label settings signature stripped) ≡ false
      → is_ascii signature ≡ false
  without_label-is_ascii signature none e h = h
  without_label-is_ascii signature (some d) e h =
      rw (strip_prefix-eq_some (codes "sha256=") signature d e) (ground arith)

  -- What verification raises is about a signature outside of ASCII.
  verify_signature-raises :
      (raw_body signature : Text) (e : Error)
      → verify_signature settings hmac_hex raw_body signature ≡ err e
      → is_ascii signature ≡ false
  unfolding verify_signature
  verify_signature-raises raw_body signature e h =
      without_label-is_ascii signature (strip_prefix (codes "sha256=") signature) refl
        (ground arith)

  -- A delivery that was refused left everything as it was.
  pub record Refused (signature : Text) (w : World) (r : Result (Unit {0}) × World) : Type 0 where
    pub error : Error
    pub unchanged : r ≡ (err error, w)
    pub why : (error ≡ authentication) ⊎ (is_ascii signature ≡ false)

  process_github_event-Refused :
      (uuid_text : ℕ → Text) (parse_run : Text → Result WorkflowRun) (raw_body signature : Text)
      (event_type : String) (w : World) (verified : Result Bool)
      → verify_signature settings hmac_hex raw_body signature ≡ verified
      → Refused signature w (
          process_github_event settings uuid_text hmac_hex parse_run raw_body signature event_type
            w)
        ⊎ Authentic settings hmac_hex raw_body signature
  unfolding process_github_event ◌>>=◌
  process_github_event-Refused uuid_text parse_run raw_body signature event_type w (ok true) h =
      inr (verify_signature-Authentic raw_body signature h)
  process_github_event-Refused uuid_text parse_run raw_body signature event_type w (ok false) h =
      inl (record {
        error = authentication;
        unchanged = elim (Bool-cases (same_text signature [])) [
          | inl missing ↦ rw missing refl
          | inr present ↦ rw (present, h) refl
        ];
        why = inl refl;
      })
  process_github_event-Refused uuid_text parse_run raw_body signature event_type w (err e) h =
      elim (Bool-cases (same_text signature [])) [
        | inl missing ↦
            inl (record { error = authentication; unchanged = rw missing refl; why = inl refl })
        | inr present ↦ inl (record {
          error = e;
          unchanged = rw (present, h) refl;
          why = inr (verify_signature-raises raw_body signature e h);
        })
      ]

  -- A delivery that is not signed with the secret is refused and changes nothing, whatever it
  -- holds: with an authentication error, or, only if the signature is not ASCII, with what the
  -- comparison raises.
  pub process_github_event-Authentic :
      (uuid_text : ℕ → Text) (parse_run : Text → Result WorkflowRun) (raw_body signature : Text)
      (event_type : String) (w : World)
      → Refused signature w (
          process_github_event settings uuid_text hmac_hex parse_run raw_body signature event_type
            w)
        ⊎ Authentic settings hmac_hex raw_body signature
  process_github_event-Authentic uuid_text parse_run raw_body signature event_type w =
      process_github_event-Refused uuid_text parse_run raw_body signature event_type w
        (verify_signature settings hmac_hex raw_body signature) refl

hex_digits-append :
    (digits t : Text)
    → All (λ c. is_hex c ≡ true) digits
    → hex_digits (length digits) (digits ++ t) ≡ some (digits, t)
unfolding hex_digits
hex_digits-append [] t h = refl
hex_digits-append (c ∷ digits) t h = rw (hex_digits-append digits t h.1, h.0) refl

abbrev pub OneLine : Text → Type 0
OneLine t = All (λ c. (c == line_feed) ≡ false) t

rest_of_line_self : (t : Text) → OneLine t → rest_of_line t ≡ some t
unfolding rest_of_line
rest_of_line_self [] h = refl
rest_of_line_self (c ∷ []) h = rw h.0 refl
rest_of_line_self (c ∷ d ∷ t) h = rw (rest_of_line_self (d ∷ t) h.1, h.0) refl

rest_of_line_ended : (t : Text) → OneLine t → rest_of_line (t ++ line_feed ∷ []) ≡ some t
unfolding rest_of_line
rest_of_line_ended [] h = ground arith
rest_of_line_ended (c ∷ []) h = rw h.0 (ground arith)
rest_of_line_ended (c ∷ d ∷ t) h = rw (rest_of_line_ended (d ∷ t) h.1, h.0) refl

-- Digits and a slash are passed over.
match_branch-line :
    (digits t : Text) (repo : Text)
    → length digits ≡ 8
    → All (λ c. is_hex c ≡ true) digits
    → line t ≡ some repo
    → match_branch (codes "clyde/" ++ digits ++ b'/' ∷ t) ≡ some (digits, repo)
unfolding match_branch
match_branch-line digits t repo e h l =
    rw
      (
        strip_prefix-append (codes "clyde/") (digits ++ b'/' ∷ t),
        sym e,
        hex_digits-append digits (b'/' ∷ t) h,
        l,
      )
      (ground arith)

-- A branch `clyde/{digits}/{repo}`, of eight hexadecimal digits and a repository without a line
-- feed and not empty, gives those digits and that repository, and so does that branch with a line
-- feed after it.
pub match_branch-published :
    (digits repo : Text) (c : ℕ)
    → length digits ≡ 8
    → All (λ c. is_hex c ≡ true) digits
    → OneLine (c ∷ repo)
    → let branch = codes "clyde/" ++ digits ++ b'/' ∷ c ∷ repo in
      (match_branch branch ≡ some (digits, c ∷ repo))
      × (match_branch (codes "clyde/" ++ digits ++ b'/' ∷ c ∷ (repo ++ line_feed ∷ []))
          ≡ some (digits, c ∷ repo))
match_branch-published digits repo c e h one = (
  match_branch-line digits (c ∷ repo) (c ∷ repo) e h
      (rw (rest_of_line_self repo one.1, one.0) refl),
  match_branch-line digits (c ∷ (repo ++ line_feed ∷ [])) (c ∷ repo) e h
      (rw (rest_of_line_ended repo one.1, one.0) refl),
)
