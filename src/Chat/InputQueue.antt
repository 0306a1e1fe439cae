-- ===== src/Chat/InputQueue.antt =====
-- The queue of user messages of one task (src/utils/task_input_queue.py): a Redis list of JSON texts.
-- `dumps` and `loads` are the `json` module's, `to_text` is `str`.
pub mod Order
use saas_ai_agents_long_term.Prelude.{
  ℕ, suc, ◌<◌, String, Bool, true, false, Option, none, some, List, [], ◌∷◌, ◌++◌, ◌≡◌, length,
  if◌then◌else◌, leb, string_eq,
}
use saas_ai_agents_long_term.Prelude.Dict.{lookup}
use saas_ai_agents_long_term.Prelude.Text.{Text}
use saas_ai_agents_long_term.Effect.{foreign, Result, ok, err}
use saas_ai_agents_long_term.Json.{Json, str, obj, entries, object}

abbrev pub max_queue_depth : ℕ
max_queue_depth = 200

module _ (dumps : Json → Text) where
  unfoldable pub message : String → Text
  unfolding object
  message content = dumps (object (("content", str content) ∷ []))

  -- `push`, when nothing comes between its LLEN and its RPUSH.
  unfoldable pub push : String → List Text → Bool × List Text
  unfolding message
  push content q =
      if leb max_queue_depth (length q) then (false, q) else (true, q ++ message content ∷ [])

-- `max(1, int(round(timeout_sec)))` on whole seconds: 0, which would block for ever, is not passed on.
unfoldable pub blpop_timeout : ℕ → ℕ
blpop_timeout ℕ.zero = 1
blpop_timeout (ℕ.suc n) = suc n

module _ (loads : Text → Option Json) (to_text : Json → String) where
  abbrev content_of : Option Json → String
  content_of none = ""
  content_of (some j) = to_text j

  -- A text that is no JSON is dropped; JSON that is no object has no `get`.
  abbrev pub read_message : Option Json → Result (Option String)
  read_message none = ok none
  read_message (some (obj fs)) = ok (some (content_of (lookup "content" (entries fs))))
  read_message (some j) = err (foreign "object has no attribute 'get'")

  -- `wait_for_message`: what BLPOP came to, the queue being empty until the timeout or not.
  unfoldable pub wait_for_message : List Text → Result (Option String) × List Text
  unfolding lookup entries
  wait_for_message [] = (ok none, [])
  wait_for_message (raw ∷ q) = (read_message (loads raw), q)

-- `push` cut at its `await`: several connections may each have read the depth before any of them
-- writes. `pushing` counts those.
pub record Shared : Type 0 where
  pub queue : List Text
  pub pushing : ℕ

pub data Step (pushers : ℕ) : Shared → Shared → Type 0 where
  read_depth :
      (s : Shared)
      → length s.queue < max_queue_depth
      → s.pushing < pushers
      → Step pushers s (record s { pushing = suc s.pushing })
  append :
      (raw : Text) (n : ℕ) (s : Shared)
      → s.pushing ≡ suc n
      → Step pushers s (record { queue = s.queue ++ raw ∷ []; pushing = n })
  pop :
      (raw : Text) (q : List Text) (s : Shared)
      → s.queue ≡ raw ∷ q
      → Step pushers s (record s { queue = q })
  clear : (s : Shared) → Step pushers s (record s { queue = [] })

pub data Reachable (pushers : ℕ) : Shared → Type 0 where
  initially : Reachable pushers (record { queue = []; pushing = 0 })
  and_then : (s s' : Shared) → Reachable pushers s → Step pushers s s' → Reachable pushers s'
