-- ===== src/Transcript/Refinement.antt =====
-- The store as the SDK sees it: a list of entries for each session and subpath (the protocol of
-- `SessionStore`), and that the objects of src/agents/chat/s3_session_store.py implement it.
use saas_ai_agents_long_term.Prelude.{
  Bool, true, false, not, ◌&&◌, Option, none, some, List, [], ◌∷◌, ◌++◌, ◌≡◌, refl, ap, sym, ◌∙◌,
  arith, ◌==◌, nat_eq, Bool-cases, inl, inr, if◌then◌else◌, All,
}
use saas_ai_agents_long_term.Prelude.Dict.{lookup, erase, lookup-erase, lookup-keep}
use saas_ai_agents_long_term.Prelude.Text.{Text, starts_with}
use saas_ai_agents_long_term.Json.{Json}
use saas_ai_agents_long_term.Transcript.{
  Codec, Bucket, SessionKey, object_key, session_prefix, read_jsonl, body_entries, write_jsonl,
  append, load, delete, swept, delete_prefix, or_empty, or_none, text_eq,
}
use saas_ai_agents_long_term.Transcript.Keys.{
  Wellformed, path_of, same_session, same_key, object_key-same_key, starts_with-same_session,
}
use saas_ai_agents_long_term.Transcript.Contents.{Encodes, read_jsonl-write_jsonl}

-- What is promised: the entries of every key.
abbrev pub Transcripts : Type 0
Transcripts = SessionKey → List Json

abbrev pub spec_append : SessionKey → List Json → Transcripts → Transcripts
spec_append key js log l = if same_key key l then log l ++ js else log l

-- Deleting a session takes its subpaths along.
abbrev pub dropped_at : Option Text → SessionKey → SessionKey → Bool
dropped_at none key l = same_session key l
dropped_at (some s) key l = same_key key l

abbrev pub dropped : SessionKey → SessionKey → Bool
dropped key l = dropped_at key.subpath key l

abbrev pub spec_delete : SessionKey → Transcripts → Transcripts
spec_delete key log l = if dropped key l then [] else log l

abbrev pub nonempty : List Json → Option (List Json)
nonempty [] = none
nonempty (j ∷ js) = some (j ∷ js)

pub data StoreOperation : Type 0 where
  to_append : SessionKey → List Json → StoreOperation
  to_load to_delete : SessionKey → StoreOperation

abbrev pub key_of : StoreOperation → SessionKey
key_of (to_append key js) = key
key_of (to_load key) = key
key_of (to_delete key) = key

abbrev pub sent : StoreOperation → List Json
sent (to_append key js) = js
sent (to_load key) = []
sent (to_delete key) = []

-- The operations in turn, with what the loads return.
abbrev pub spec_run : List StoreOperation → Transcripts → List (Option (List Json))
spec_run [] log = []
spec_run (to_append key js ∷ os) log = spec_run os (spec_append key js log)
spec_run (to_load key ∷ os) log = nonempty (log key) ∷ spec_run os log
spec_run (to_delete key ∷ os) log = spec_run os (spec_delete key log)

module _ (codec : Codec) where
  unfoldable pub store_run : List StoreOperation → Bucket → List (Option (List Json))
  store_run [] bucket = []
  store_run (to_append key js ∷ os) bucket = store_run os (append codec key js bucket)
  store_run (to_load key ∷ os) bucket = load codec key bucket ∷ store_run os bucket
  store_run (to_delete key ∷ os) bucket = store_run os (delete codec key bucket)

  -- The bucket holds, for every key that the SDK makes, the entries of the specification.
  pub record Holds (bucket : Bucket) (log : Transcripts) : Type 0 where
    pub entries :
        (l : SessionKey)
        → Wellformed l
        → or_empty (read_jsonl codec (object_key codec l) bucket) ≡ log l
    pub encodes : (l : SessionKey) → All (Encodes codec) (log l)

  append-All :
      (js ks : List Json)
      → All (Encodes codec) js
      → All (Encodes codec) ks
      → All (Encodes codec) (js ++ ks)
  append-All [] ks hj hk = hk
  append-All (j ∷ js) ks hj hk = (hj.0, append-All js ks hj.1 hk)

  load-Holds :
      (key : SessionKey) (bucket : Bucket) (log : Transcripts)
      → Wellformed key
      → Holds bucket log
      → load codec key bucket ≡ nonempty (log key)
  unfolding load
  load-Holds key bucket log hk h =
      go (read_jsonl codec (object_key codec key) bucket) (h.entries key hk)
    where
      go : (o : Option (List Json)) → or_empty o ≡ log key → or_none o ≡ nonempty (log key)
      go none e = ap nonempty e
      go (some []) e = ap nonempty e
      go (some (j ∷ js)) e = ap nonempty e

  -- Keys of one object have the same entries.
  shared :
      (key l : SessionKey) (bucket : Bucket) (log : Transcripts)
      → Wellformed key
      → Wellformed l
      → Holds bucket log
      → (object_key codec l == object_key codec key) ≡ true
      → log key ≡ log l
  shared key l bucket log hk hl h same = ground (arith, h.entries key hk, h.entries l hl)

  appended :
      (key l : SessionKey) (js : List Json) (bucket : Bucket) (log : Transcripts)
      → Wellformed key
      → Wellformed l
      → All (Encodes codec) js
      → Holds bucket log
      → or_empty (
          read_jsonl codec (object_key codec l) (
            write_jsonl codec
              (object_key codec key)
              (or_empty (read_jsonl codec (object_key codec key) bucket) ++ js)
              bucket))
        ≡ spec_append key js log l
  appended key l js bucket log hk hl hj h =
      rw
        (
          h.entries key hk,
          read_jsonl-write_jsonl codec (object_key codec key) (object_key codec l) (log key ++ js)
              bucket (append-All (log key) js (h.encodes key) hj),
          sym (object_key-same_key codec key l hk hl),
        )
        (go (object_key codec l == object_key codec key) refl)
    where
      go :
          (b : Bool)
          → (object_key codec l == object_key codec key) ≡ b
          → or_empty
              (if b then some (log key ++ js) else read_jsonl codec (object_key codec l) bucket)
            ≡ (if b then log l ++ js else log l)
      go true e = ap (λ ks. ks ++ js) (shared key l bucket log hk hl h e)
      go false e = h.entries l hl

  append_nil : (js : List Json) → js ++ [] ≡ js
  append_nil [] = refl
  append_nil (j ∷ js) = ap (λ ks. j ∷ ks) (append_nil js)

  spec_append-All :
      (key : SessionKey) (js : List Json) (log : Transcripts) (l : SessionKey)
      → All (Encodes codec) js
      → All (Encodes codec) (log l)
      → All (Encodes codec) (spec_append key js log l)
  spec_append-All key js log l hj hl = elim (Bool-cases (same_key key l)) [
    | inl same ↦ rw (spec_append, same) (append-All (log l) js hl hj)
    | inr other ↦ rw (spec_append, other) hl
  ]

  append-Holds :
      (key : SessionKey) (js : List Json) (bucket : Bucket) (log : Transcripts)
      → Wellformed key
      → All (Encodes codec) js
      → Holds bucket log
      → Holds (append codec key js bucket) (spec_append key js log)
  unfolding append
  append-Holds key [] bucket log hk hj h = record {
    entries = λ l hl. h.entries l hl ∙ ground (arith, append_nil (log l));
    encodes = λ l. spec_append-All key [] log l hj (h.encodes l);
  }
  append-Holds key (j ∷ js) bucket log hk hj h = record {
    entries = λ l hl. appended key l (j ∷ js) bucket log hk hl hj h;
    encodes = λ l. spec_append-All key (j ∷ js) log l hj (h.encodes l);
  }

  if-erased :
      (b : Bool) (o : Option Text) (js : List Json)
      → or_empty (body_entries codec o) ≡ js
      → or_empty (body_entries codec (if b then none else o)) ≡ (if b then [] else js)
  unfolding body_entries
  if-erased true o js h = refl
  if-erased false o js h = h

  if-swept :
      (a p : Bool) (o : Option Text) (js : List Json)
      → or_empty (body_entries codec o) ≡ (if a && p then [] else js)
      → or_empty (body_entries codec (if not (a && not p) then o else none))
        ≡ (if a then [] else js)
  unfolding body_entries
  if-swept true true o js h = h
  if-swept true false o js h = refl
  if-swept false p o js h = h

  same_key-main :
      (key l : SessionKey)
      → key.subpath ≡ none
      → same_key key l ≡ (same_session key l && path_of l.subpath == [])
  same_key-main key l main = ground arith

  erased :
      (key l : SessionKey) (bucket : Bucket) (log : Transcripts)
      → Wellformed key
      → Wellformed l
      → Holds bucket log
      → or_empty (read_jsonl codec (object_key codec l) (erase (object_key codec key) bucket))
        ≡ (if same_key key l then [] else log l)
  unfolding read_jsonl body_entries
  erased key l bucket log hk hl h =
      rw
        (
          lookup-erase (object_key codec l) (object_key codec key) bucket,
          object_key-same_key codec key l hk hl,
        )
        (if-erased (same_key key l) (lookup (object_key codec l) bucket) (log l) (h.entries l hl))

  swept-Holds :
      (key l : SessionKey) (subpath : Option Text) (bucket : Bucket) (log : Transcripts)
      → Wellformed key
      → Wellformed l
      → key.subpath ≡ subpath
      → or_empty (read_jsonl codec (object_key codec l) bucket)
        ≡ (if same_key key l then [] else log l)
      → or_empty (read_jsonl codec (object_key codec l) (swept codec subpath key bucket))
        ≡ (if dropped_at subpath key l then [] else log l)
  unfolding read_jsonl body_entries delete_prefix
  swept-Holds key l (some s) bucket log hk hl main h = h
  swept-Holds key l none bucket log hk hl main h =
      rw
        (
          lookup-keep (λ o. not (starts_with (session_prefix codec key) o)) (object_key codec l)
              bucket,
          starts_with-same_session codec key l hk hl,
        )
        (if-swept (same_session key l) (path_of l.subpath == [])
          (lookup (object_key codec l) bucket) (log l) (h ∙ rw (same_key-main key l main) refl))

  spec_delete-All :
      (key : SessionKey) (log : Transcripts) (l : SessionKey)
      → All (Encodes codec) (log l)
      → All (Encodes codec) (spec_delete key log l)
  spec_delete-All key log l hl = elim (Bool-cases (dropped key l)) [
    | inl gone ↦ rw (spec_delete, gone) tt
    | inr other ↦ rw (spec_delete, other) hl
  ]

  delete-Holds :
      (key : SessionKey) (bucket : Bucket) (log : Transcripts)
      → Wellformed key
      → Holds bucket log
      → Holds (delete codec key bucket) (spec_delete key log)
  unfolding delete
  delete-Holds key bucket log hk h = record {
    entries = λ l hl.
        swept-Holds key l key.subpath (erase (object_key codec key) bucket) log hk hl refl
          (erased key l bucket log hk hl h);
    encodes = λ l. spec_delete-All key log l (h.encodes l);
  }

  -- The store, started on a bucket that holds the entries of `log`, answers every load of any
  -- sequence of appends, loads and deletes as the specification does, if the keys have no slash in
  -- the project key and the session id, and the entries appended are ones that `json` writes on one
  -- line and reads back.
  pub store_run-spec_run :
      (os : List StoreOperation) (bucket : Bucket) (log : Transcripts)
      → All (λ o. Wellformed (key_of o) × All (Encodes codec) (sent o)) os
      → Holds bucket log
      → store_run os bucket ≡ spec_run os log
  unfolding store_run
  store_run-spec_run [] bucket log ho h = refl
  store_run-spec_run (to_append key js ∷ os) bucket log ho h =
      store_run-spec_run os (append codec key js bucket) (spec_append key js log) ho.1
        (append-Holds key js bucket log ho.0.0 ho.0.1 h)
  store_run-spec_run (to_load key ∷ os) bucket log ho h =
      rw (load-Holds key bucket log ho.0.0 h, store_run-spec_run os bucket log ho.1 h) refl
  store_run-spec_run (to_delete key ∷ os) bucket log ho h =
      store_run-spec_run os (delete codec key bucket) (spec_delete key log) ho.1
        (delete-Holds key bucket log ho.0.0 h)
