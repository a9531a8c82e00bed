-- ===== src/Tasks/Contracts.antt =====
-- app/tasks/contracts.py: the task states, the transition table and the error codes.
use nsfwtrack.Base.{Bool, true, false, ◌≡◌, refl, arith, ◌==◌, ℕ}

pub data TaskType : Type 0 where
  asset_download source_check metadata_update : TaskType

pub data TaskState : Type 0 where
  planned awaiting_confirmation queued running paused cancelling : TaskState
  cancelled succeeded failed blocked outcome_unknown : TaskState

pub data TaskErrorCode : Type 0 where
  invalid_request not_found version_conflict invalid_transition : TaskErrorCode
  concurrency_limit lease_conflict retry_not_safe history_not_deletable : TaskErrorCode

-- `state in CLOSED_TASK_STATES`
abbrev pub is_closed : TaskState → Bool
is_closed cancelled = true
is_closed succeeded = true
is_closed failed = true
is_closed outcome_unknown = true
is_closed _ = false

-- `target in TASK_TRANSITIONS[current]`, row by row.
unfoldable pub can_transition : TaskState → TaskState → Bool
can_transition planned awaiting_confirmation = true
can_transition planned queued = true
can_transition planned cancelled = true
can_transition awaiting_confirmation queued = true
can_transition awaiting_confirmation cancelled = true
can_transition queued running = true
can_transition queued paused = true
can_transition queued cancelling = true
can_transition queued cancelled = true
can_transition queued blocked = true
can_transition running paused = true
can_transition running cancelling = true
can_transition running succeeded = true
can_transition running failed = true
can_transition running blocked = true
can_transition running outcome_unknown = true
can_transition paused queued = true
can_transition paused cancelled = true
can_transition cancelling cancelled = true
can_transition cancelling failed = true
can_transition cancelling outcome_unknown = true
can_transition failed queued = true
can_transition failed cancelled = true
can_transition blocked queued = true
can_transition blocked cancelled = true
can_transition _ _ = false

-- A number for each state, by which states are compared.
abbrev state_rank : TaskState → ℕ
state_rank planned = 0
state_rank awaiting_confirmation = 1
state_rank queued = 2
state_rank running = 3
state_rank paused = 4
state_rank cancelling = 5
state_rank cancelled = 6
state_rank succeeded = 7
state_rank failed = 8
state_rank blocked = 9
state_rank outcome_unknown = 10

-- `current is target`, and the same test in SQL.
unfoldable pub state_eq : TaskState → TaskState → Bool
state_eq a b = state_rank a == state_rank b

pub state_eq→eq : (a b : TaskState) → state_eq a b ≡ true → a ≡ b
unfolding state_eq
state_eq→eq a b h = ground arith

pub state_eq_refl : (a : TaskState) → state_eq a a ≡ true
unfolding state_eq
state_eq_refl planned = refl
state_eq_refl _ = refl
