-- ===== src/Chat/Lifecycle.antt =====
-- The two clocks of a chat session (src/agents/chat/lifecycle.py). Times are numbers of ticks of the
-- monotonic clock, so that `now` is never before a time that was taken; where the source takes
-- `max(0.0, …)`, subtraction stops at 0.
use saas_ai_agents_long_term.Prelude.{
  ℕ, ◌+◌, ◌-◌, ◌≤◌, ◌<◌, min, Option, none, some, ◌≡◌, ◌≢◌, ◌↔◌, if◌then◌else◌, leb, arith,
}

pub data Expiry : Type 0 where
  idle hard : Expiry

pub record Lifecycle : Type 0 where
  pub idle_timeout : ℕ
  pub hard_timeout : ℕ
  pub started_at : ℕ
  pub last_user_input_at : ℕ

unfoldable pub start : ℕ → ℕ → ℕ → Lifecycle
start idle_timeout hard_timeout now = record {
  idle_timeout = idle_timeout;
  hard_timeout = hard_timeout;
  started_at = now;
  last_user_input_at = now;
}

unfoldable pub mark_user_input : ℕ → Lifecycle → Lifecycle
mark_user_input now l = record l { last_user_input_at = now }

unfoldable pub remaining : Lifecycle → ℕ → ℕ
remaining l now =
    min (l.idle_timeout - (now - l.last_user_input_at)) (l.hard_timeout - (now - l.started_at))

unfoldable pub expired : Lifecycle → ℕ → Option Expiry
expired l now =
    if leb l.hard_timeout (now - l.started_at)
    then some hard
    else if leb l.idle_timeout (now - l.last_user_input_at)
    then some idle
    else none

-- The budget is used up exactly when a clock has run out: the loop that sees no budget left finds
-- the reason, and one that has some never ends the session.
pub remaining-expired : (l : Lifecycle) (now : ℕ) → (remaining l now ≡ 0) ↔ (expired l now ≢ none)
unfolding remaining expired
remaining-expired l now = (λ e. ground arith, λ e. ground arith)

-- Waiting for as long as the budget says ends the session, and waiting less does not, unless the
-- user writes.
pub wait_out :
    (l : Lifecycle) (now d : ℕ)
    → l.last_user_input_at ≤ now
    → l.started_at ≤ now
    → (expired l (now + d) ≡ none) ↔ (d < remaining l now)
unfolding remaining expired
wait_out l now d i h = (λ e. ground arith, λ e. ground arith)

-- User input resets the idle clock and never the hard one: within the idle timeout after it only
-- the hard clock can run out, and that it does when it would have done.
pub mark_user_input-expired :
    (l : Lifecycle) (now later : ℕ)
    → now ≤ later
    → later < now + l.idle_timeout
    → expired (mark_user_input now l) later
      ≡ (if leb l.hard_timeout (later - l.started_at) then some hard else none)
unfolding expired mark_user_input
mark_user_input-expired l now later t early = ground arith
