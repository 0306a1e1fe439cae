-- ===== src/Transcript/Tests.antt =====
-- Tests of the transcripts: a codec for the empty object, and one session.
use saas_ai_agents_long_term.Prelude.{none, some, List, [], ◌∷◌, ◌≡◌, refl, arith, nat_eq}
use saas_ai_agents_long_term.Prelude.Dict.{lookup}
use saas_ai_agents_long_term.Prelude.Text.{codes}
use saas_ai_agents_long_term.Json.{obj, end}
use saas_ai_agents_long_term.Transcript.{Codec, SessionKey, read_jsonl, body_entries, trim}
use saas_ai_agents_long_term.Transcript.Keys.{Wellformed}
use saas_ai_agents_long_term.Transcript.Contents.{Encodes}
use saas_ai_agents_long_term.Transcript.Refinement.{
  StoreOperation, to_append, to_load, to_delete, Holds, store_run, spec_run, store_run-spec_run,
}

abbrev a_codec : Codec
a_codec = record { dumps = λ j. codes "{}"; loads = λ t. some (obj end); prefix = codes "dev" }

abbrev a_key : SessionKey
a_key = record { project_key = codes "app"; session_id = codes "s1"; subpath = none }

abbrev a_subkey : SessionKey
a_subkey = record a_key { subpath = some (codes "agent") }

a_key-Wellformed : Wellformed a_key
a_key-Wellformed = record {
  project = (omega arith, (omega arith, (omega arith, tt)));
  session = (omega arith, (omega arith, tt));
}

a_subkey-Wellformed : Wellformed a_subkey
a_subkey-Wellformed = record {
  project = (omega arith, (omega arith, (omega arith, tt)));
  session = (omega arith, (omega arith, tt));
}

an_entry-Encodes : Encodes a_codec (obj end)
unfolding trim
an_entry-Encodes = record {
  first = 123;
  rest = 125 ∷ [];
  nonblank = refl;
  unbroken = (refl, (refl, tt));
  trimmed = refl;
  loaded = refl;
}

an_empty_bucket-Holds : Holds a_codec [] (λ l. [])
unfolding read_jsonl body_entries lookup
an_empty_bucket-Holds = record { entries = λ l h. refl; encodes = λ l. tt }

abbrev some_operations : List StoreOperation
some_operations =
    to_append a_key (obj end ∷ [])
    ∷ to_append a_subkey (obj end ∷ [])
    ∷ to_load a_key
    ∷ to_delete a_key
    ∷ to_load a_subkey
    ∷ []

store_run-spec_run_example :
    store_run a_codec some_operations [] ≡ spec_run some_operations (λ l. [])
store_run-spec_run_example =
    store_run-spec_run a_codec some_operations [] (λ l. [])
      (
        (a_key-Wellformed, (an_entry-Encodes, tt)),
        (
          (a_subkey-Wellformed, (an_entry-Encodes, tt)),
          ((a_key-Wellformed, tt), ((a_key-Wellformed, tt), ((a_subkey-Wellformed, tt), tt))),
        ),
      )
      an_empty_bucket-Holds

-- The session is gone with its subpath, in the specification and so in the store.
spec_run_test : spec_run some_operations (λ l. []) ≡ some (obj end ∷ []) ∷ none ∷ []
spec_run_test = ground arith
