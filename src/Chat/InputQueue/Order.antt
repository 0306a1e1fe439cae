-- ===== src/Chat/InputQueue/Order.antt =====
-- The queue keeps its messages in order, and its cap with as many extra messages as there are
-- connections that push at the same time.
use saas_ai_agents_long_term.Prelude.{
  ℕ, suc, ◌+◌, ◌≤◌, String, false, Option, none, some, List, [], ◌∷◌, ◌++◌, ◌≡◌, refl, ap, sym, map,
  ◌∙◌, arith, length, All, length-append, leb, string_eq,
}
use saas_ai_agents_long_term.Prelude.Text.{Text}
use saas_ai_agents_long_term.Effect.{Result, ok, err}
use saas_ai_agents_long_term.Json.{Json, str, obj, field, end, object, entries}
use saas_ai_agents_long_term.Prelude.Dict.{lookup}
use saas_ai_agents_long_term.Chat.InputQueue.{
  max_queue_depth, message, push, wait_for_message, Shared, Step, read_depth, append, pop, clear,
  Reachable, initially, and_then,
}

-- Push the messages one after another.
abbrev pub push_all : (Json → Text) → List String → List Text → List Text
push_all dumps [] q = q
push_all dumps (m ∷ ms) q = push_all dumps ms (push dumps m q).1

abbrev cons_read : Result (Option String) × List Text → (List Text → List String) → List String
cons_read (ok (some m), rest) more = m ∷ more rest
cons_read (ok none, rest) more = []
cons_read (err e, rest) more = []

-- The next `n` reads, as long as they find a message.
abbrev pub pop_all : (Text → Option Json) → (Json → String) → ℕ → List Text → List String
pop_all loads to_text ℕ.zero q = []
pop_all loads to_text (ℕ.suc n) q =
    cons_read (wait_for_message loads to_text q) (pop_all loads to_text n)

append_nil : (q : List Text) → q ++ [] ≡ q
append_nil [] = refl
append_nil (x ∷ q) = ap (λ t. x ∷ t) (append_nil q)

snoc_append : (q r : List Text) (raw : Text) → (q ++ raw ∷ []) ++ r ≡ q ++ raw ∷ r
snoc_append [] r raw = refl
snoc_append (x ∷ q) r raw = ap (λ t. x ∷ t) (snoc_append q r raw)

module _ (dumps : Json → Text) where
  push_all-append :
      (ms : List String) (q : List Text)
      → length q + length ms ≤ max_queue_depth
      → push_all dumps ms q ≡ q ++ map (message dumps) ms
  unfolding push
  push_all-append [] q h = sym (append_nil q)
  push_all-append (m ∷ ms) q h = rw (room) (
      push_all-append ms (q ++ message dumps m ∷ [])
        (omega (arith, h, length-append q (message dumps m ∷ [])))
      ∙ snoc_append q (map (message dumps) ms) (message dumps m))
    where
      room : leb max_queue_depth (length q) ≡ false
      room = ground (arith, h)

  abbrev pub ReadBack : (Text → Option Json) → String → Type 0
  ReadBack loads m = loads (message dumps m) ≡ some (obj (field "content" (str m) end))

  read_one :
      (loads : Text → Option Json) (to_text : Json → String)
      → ((s : String) → to_text (str s) ≡ s)
      → (m : String) → ReadBack loads m
      → (q : List Text) → wait_for_message loads to_text (message dumps m ∷ q) ≡ (ok (some m), q)
  unfolding wait_for_message message object lookup entries string_eq
  read_one loads to_text same m round q = rw (round, same m) refl

  pop_pushed :
      (loads : Text → Option Json) (to_text : Json → String)
      → ((s : String) → to_text (str s) ≡ s)
      → (ms : List String) → All (ReadBack loads) ms
      → pop_all loads to_text (length ms) (map (message dumps) ms) ≡ ms
  pop_pushed loads to_text same [] round = refl
  pop_pushed loads to_text same (m ∷ ms) round =
      rw (read_one loads to_text same m round.0 (map (message dumps) ms))
        (ap (λ t. m ∷ t) (pop_pushed loads to_text same ms round.1))

  -- Messages that fit are read in the order in which they were pushed, each of them once.
  -- (`json.loads` reads back what `json.dumps` wrote for each of them, and `str` of a text is the
  -- text.)
  pub pop_all-push_all :
      (loads : Text → Option Json) (to_text : Json → String)
      → ((s : String) → to_text (str s) ≡ s)
      → (ms : List String) → All (ReadBack loads) ms
      → length ms ≤ max_queue_depth
      → pop_all loads to_text (length ms) (push_all dumps ms []) ≡ ms
  pop_all-push_all loads to_text same ms round h =
      rw (push_all-append ms [] (omega (arith, h))) (pop_pushed loads to_text same ms round)

-- With connections that push at the same time the depth stays below the cap plus their number.
pub Reachable-depth :
    (pushers : ℕ) (s : Shared)
    → Reachable (suc pushers) s
    → length s.queue + s.pushing ≤ max_queue_depth + pushers
Reachable-depth pushers _ initially = omega arith
Reachable-depth pushers _ (and_then s s' r step) = kept s s' step (Reachable-depth pushers s r)
  where
    kept :
        (s s' : Shared)
        → Step (suc pushers) s s'
        → length s.queue + s.pushing ≤ max_queue_depth + pushers
        → length s'.queue + s'.pushing ≤ max_queue_depth + pushers
    kept _ _ (read_depth s low few) h = omega arith
    kept _ _ (append raw n s e) h = omega (arith, length-append s.queue (raw ∷ []))
    kept _ _ (pop raw q s e) h = omega (arith, h, ap length e)
    kept _ _ (clear s) h = omega arith
