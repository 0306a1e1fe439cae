-- ===== src/Approval/Decided.antt =====
-- What an answer does: it is recorded once, and one that is refused leaves no trace.
use saas_ai_agents_long_term.Prelude.{
  ℕ, String, Bool, true, false, some, List, [], ◌∷◌, ◌≡◌, ◌⊎◌, inl, inr, refl, sym, ap, ◌∙◌, arith,
  ◌==◌, nat_eq, All, find_first, find_first-holds,
}
use saas_ai_agents_long_term.Prelude.Dict.{lookup, lookup-insert}
use saas_ai_agents_long_term.Prelude.Table.{find_first-save_self}
use saas_ai_agents_long_term.Prelude.Text.{Text}
use saas_ai_agents_long_term.Effect.{Error, Result, ok, err, conflict, continue, ◌>>=◌}
use saas_ai_agents_long_term.Json.{Json}
use saas_ai_agents_long_term.World.{
  World, TaskApproval, approval_status_eq, pending, publish, approval_resolved,
}
use saas_ai_agents_long_term.Task.Service.{db_scope}
use saas_ai_agents_long_term.Approval.{
  asked_of, get, resolve, save_approval, decided, create_message,
}
use saas_ai_agents_long_term.Approval.Answer.{
  ApprovalResponse, Calls, user_response, verdict, decide, announce_answer,
  handle_approval_response, resolve_gate,
}
use saas_ai_agents_long_term.Approval.Gate.{write_decision}

abbrev pub all_succeed : Calls
all_succeed = record { flush = ok tt; set = ok tt; wake = ok tt; tell = ok tt }

module _ (dumps : Json → Text) (text_string : Text → String) where
  -- The decision was committed, and then Redis failed.
  pub record CommittedOnly (calls : Calls) (user_id task_id : ℕ) (r : ApprovalResponse)
      (w w' : World) (e : Error) : Type 0 where
    pub committed : World
    pub decided_first :
        db_scope (decide dumps text_string calls user_id task_id r) w ≡ (ok tt, committed)
    pub same_tables : w'.db ≡ committed.db
    pub redis_failed : (calls.set ≡ err e) ⊎ (calls.wake ≡ err e) ⊎ (calls.tell ≡ err e)

  rolled_back :
      (calls : Calls) (user_id task_id : ℕ) (r : ApprovalResponse) (w w' : World) (e : Error)
      → db_scope (decide dumps text_string calls user_id task_id r) w ≡ (err e, w')
      → w' ≡ w
  unfolding decide get resolve create_message save_approval ◌>>=◌
  rolled_back calls user_id task_id r w w' e h = ground arith

  Result-cases : (r : Result (Unit {0})) → (r ≡ ok tt) ⊎ ((e : Error) × (r ≡ err e))
  Result-cases (ok u) = inl refl
  Result-cases (err e) = inr (e, refl)

  announce_answer-db :
      (calls : Calls) (task_id : ℕ) (r : ApprovalResponse) (w : World)
      → (announce_answer dumps text_string calls task_id r w).1.db ≡ w.db
  unfolding announce_answer resolve_gate publish ◌>>=◌
  announce_answer-db calls task_id r w = ground arith

  announce_answer-err :
      (calls : Calls) (task_id : ℕ) (r : ApprovalResponse) (w w' : World) (e : Error)
      → announce_answer dumps text_string calls task_id r w ≡ (err e, w')
      → (calls.set ≡ err e) ⊎ (calls.wake ≡ err e) ⊎ (calls.tell ≡ err e)
  unfolding announce_answer resolve_gate publish ◌>>=◌
  announce_answer-err calls task_id r w w' e h = elim (Result-cases calls.set) [
    | inr (x, f) ↦ inl (ground arith)
    | inl set ↦ elim (Result-cases calls.wake) [
      | inr (x, f) ↦ inr (inl (ground arith))
      | inl woken ↦ inr (inr (ground arith))
    ]
  ]

  -- An answer that raises has changed nothing, neither the tables nor Redis nor the events, even
  -- where the database fails after the rows were written; or it was committed first, the tables are
  -- as it left them, and the error is what Redis raised afterwards.
  pub refused_answer :
      (calls : Calls) (user_id task_id : ℕ) (r : ApprovalResponse) (w w' : World) (e : Error)
      → handle_approval_response dumps text_string calls user_id task_id r w ≡ (err e, w')
      → (w' ≡ w) ⊎ CommittedOnly calls user_id task_id r w w' e
  unfolding handle_approval_response ◌>>=◌
  refused_answer calls user_id task_id r w w' e h =
      go (db_scope (decide dumps text_string calls user_id task_id r) w) refl h
    where
      go :
          (x : Result (Unit {0}) × World)
          → db_scope (decide dumps text_string calls user_id task_id r) w ≡ x
          → continue x (λ _. announce_answer dumps text_string calls task_id r) ≡ (err e, w')
          → (w' ≡ w) ⊎ CommittedOnly calls user_id task_id r w w' e
      go (ok u, t) d k = inr (record {
        committed = t;
        decided_first = d;
        same_tables =
            ap (λ (y : Result (Unit {0}) × World). y.1.db) (sym k)
            ∙ announce_answer-db calls task_id r t;
        redis_failed = announce_answer-err calls task_id r t w' e k;
      })
      go (err y, t) d k = inl (rolled_back calls user_id task_id r w w' e (d ∙ k))

  -- Every row with the answer's id is this user's and this task's: ids are primary keys.
  abbrev pub KeyedBy : ℕ → ℕ → ApprovalResponse → TaskApproval → Type 0
  KeyedBy user_id task_id r a = a.id ≡ r.approval_id → (a.task_id ≡ task_id) × (a.user_id ≡ user_id)

  same_row :
      (user_id task_id : ℕ) (r : ApprovalResponse) (rows : List TaskApproval)
      → All (KeyedBy user_id task_id r) rows
      → find_first (λ (a : TaskApproval). a.id == r.approval_id) rows
        ≡ find_first (asked_of user_id task_id r.approval_id) rows
  same_row user_id task_id r [] h = refl
  same_row user_id task_id r (a ∷ rows) h = ground (arith, h.0, same_row user_id task_id r rows h.1)

  abbrev answered_row : ApprovalResponse → TaskApproval → TaskApproval
  answered_row r = decided (verdict r.answer.approved) (user_response r.answer.payload)

  -- The row after an answer, whatever Redis does.
  answered :
      (calls : Calls) (user_id task_id : ℕ) (r : ApprovalResponse) (w : World) (row : TaskApproval)
      → calls.flush ≡ ok tt
      → All (KeyedBy user_id task_id r) w.db.approvals
      → find_first (asked_of user_id task_id r.approval_id) w.db.approvals ≡ some row
      → row.status ≡ pending
      → let w' = (handle_approval_response dumps text_string calls user_id task_id r w).1 in
        find_first (asked_of user_id task_id r.approval_id) w'.db.approvals
        ≡ some (answered_row r row)
  unfolding handle_approval_response decide get resolve create_message save_approval ◌>>=◌
      approval_status_eq announce_answer resolve_gate
  answered calls user_id task_id r w row flushed keyed found status =
      rw
        (
          found,
          status,
          same_row user_id task_id r w.db.approvals keyed ∙ found,
          flushed,
          announce_answer-db calls task_id r,
        )
        (find_first-save_self (λ (a : TaskApproval). a.id) (asked_of user_id task_id r.approval_id)
          row (answered_row r row) w.db.approvals found refl
          (ground (
            arith,
            find_first-holds (asked_of user_id task_id r.approval_id) w.db.approvals row found,
          )))

  -- An answer to a request that is pending is recorded, if no call of the database or Redis fails:
  -- its row has the verdict, Redis holds the decision for the waiter and its wake message was
  -- published, and the clients are told. (Rows with the approval's id are this user's and this
  -- task's: ids are primary keys.)
  pub pending_answer :
      (calls : Calls) (user_id task_id : ℕ) (r : ApprovalResponse) (w : World) (row : TaskApproval)
      → calls ≡ all_succeed
      → All (KeyedBy user_id task_id r) w.db.approvals
      → find_first (asked_of user_id task_id r.approval_id) w.db.approvals ≡ some row
      → row.status ≡ pending
      → let result = handle_approval_response dumps text_string calls user_id task_id r w in
        let w' = result.1 in
        (result.0 ≡ ok tt)
        × (find_first (asked_of user_id task_id r.approval_id) w'.db.approvals
            ≡ some (answered_row r row))
        × (lookup r.approval_id w'.decisions ≡ some (write_decision dumps r.answer))
        × (w'.wakes ≡ r.approval_id ∷ w.wakes)
        × (w'.events ≡ (task_id, approval_resolved r.approval_id r.answer.approved) ∷ w.events)
  unfolding handle_approval_response announce_answer decide get resolve create_message publish
      save_approval resolve_gate ◌>>=◌ approval_status_eq lookup
  pending_answer calls user_id task_id r w row succeed keyed found status =
      rw (succeed, found, status, same_row user_id task_id r w.db.approvals keyed ∙ found)
        (
          refl,
          find_first-save_self (λ (a : TaskApproval). a.id) (asked_of user_id task_id r.approval_id)
              row (answered_row r row) w.db.approvals found refl
              (ground (
                arith,
                find_first-holds (asked_of user_id task_id r.approval_id) w.db.approvals row found,
              )),
          lookup-insert r.approval_id r.approval_id (write_decision dumps r.answer) w.decisions
              ∙ ground arith,
          refl,
          refl,
        )

  verdict-decided : (b : Bool) → (verdict b == pending) ≡ false
  unfolding approval_status_eq
  verdict-decided true = refl
  verdict-decided false = refl

  late_answer :
      (calls : Calls) (user_id task_id : ℕ) (r : ApprovalResponse) (w : World) (row : TaskApproval)
      → find_first (asked_of user_id task_id r.approval_id) w.db.approvals ≡ some row
      → (row.status == pending) ≡ false
      → handle_approval_response dumps text_string calls user_id task_id r w ≡ (err conflict, w)
  unfolding handle_approval_response decide get ◌>>=◌
  late_answer calls user_id task_id r w row found late = ground arith

  -- An approval is decided once: after an answer to a pending request that the database took, and
  -- whatever Redis did after it, any further answer to it is refused with a conflict, and changes
  -- nothing. (Rows with the approval's id are this user's and this task's: ids are primary keys.)
  pub decided_once :
      (calls later : Calls) (user_id task_id : ℕ) (r : ApprovalResponse) (w : World)
      (row : TaskApproval)
      → calls.flush ≡ ok tt
      → All (KeyedBy user_id task_id r) w.db.approvals
      → find_first (asked_of user_id task_id r.approval_id) w.db.approvals ≡ some row
      → row.status ≡ pending
      → (again : ApprovalResponse) → again.approval_id ≡ r.approval_id
      → let w' = (handle_approval_response dumps text_string calls user_id task_id r w).1 in
        handle_approval_response dumps text_string later user_id task_id again w'
        ≡ (err conflict, w')
  decided_once calls later user_id task_id r w row flushed keyed found status again same =
      late_answer later user_id task_id again
        (handle_approval_response dumps text_string calls user_id task_id r w).1
        (answered_row r row)
        (rw same (answered calls user_id task_id r w row flushed keyed found status))
        (verdict-decided r.answer.approved)
