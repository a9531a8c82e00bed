-- ===== src/Tasks/History.antt =====
-- The audit trail in `task_events`: the last event of a task gives its version and its state.
use nsfwtrack.Base.{
  ℕ, ◌+◌, ◌≤◌, ◌≡◌, refl, ◌≢◌, false, Option, none, some, List, [], ◌∷◌, ◌++◌, arith, ◌==◌,
  if◌then◌else◌, All, All-map, All-append, any,
}
use nsfwtrack.Tasks.Store.{OperationTask, TaskEvent, same_entry}

-- The last event with a task's id.
unfoldable pub last_event : ℕ → List TaskEvent → Option TaskEvent
last_event i [] = none
last_event i (e ∷ es) = elim (last_event i es) [
  | some later ↦ some later
  | none ↦ if e.task_id == i then some e else none
]

pub last_event-append :
    (i : ℕ) (es : List TaskEvent) (e : TaskEvent)
    → last_event i (es ++ e ∷ []) ≡ (if e.task_id == i then some e else last_event i es)
unfolding last_event
last_event-append i [] e = ground arith
last_event-append i (x ∷ es) e = ground (arith, last_event-append i es e)

-- A task's row and its events agree.
pub record Audited (events : List TaskEvent) (t : OperationTask) : Type 0 where
  pub last : TaskEvent
  pub is_last : last_event t.id events ≡ some last
  pub at_version : last.version ≡ t.version
  pub at_state : last.to_state ≡ t.state
  pub bounded : All (λ e. e.task_id ≡ t.id → e.version ≤ t.version) events

-- A write that keeps id, version and state keeps the trail.
pub Audited-kept :
    (events : List TaskEvent) (t u : OperationTask)
    → u.id ≡ t.id
    → u.version ≡ t.version
    → u.state ≡ t.state
    → Audited events t
    → Audited events u
Audited-kept events t u i v st a = record {
  last = a.last;
  is_last = rw i a.is_last;
  at_version = rw v a.at_version;
  at_state = rw st a.at_state;
  bounded = rw (i, v) a.bounded;
}

-- An event of another task keeps it too.
pub Audited-other :
    (events : List TaskEvent) (e : TaskEvent) (t : OperationTask)
    → e.task_id ≢ t.id
    → Audited events t
    → Audited (events ++ e ∷ []) t
Audited-other events e t ne a = record {
  last = a.last;
  is_last = rw (last_event-append t.id events e) (ground (arith, a.is_last));
  at_version = a.at_version;
  at_state = a.at_state;
  bounded = All-append _ events (e ∷ []) a.bounded ((λ same. absurd (ne same)), tt);
}

-- A row that moves one version on, beside the event that says so.
pub Audited-next :
    (events : List TaskEvent) (e : TaskEvent) (t u : OperationTask)
    → e.task_id ≡ t.id
    → u.id ≡ t.id
    → u.version ≡ t.version + 1
    → e.version ≡ u.version
    → e.to_state ≡ u.state
    → Audited events t
    → Audited (events ++ e ∷ []) u
Audited-next events e t u ei ui uv ev es a = record {
  last = e;
  is_last = rw (last_event-append u.id events e) (ground arith);
  at_version = ev;
  at_state = es;
  bounded =
      All-append _ events (e ∷ [])
        (All-map (λ x. x.task_id ≡ t.id → x.version ≤ t.version)
          (λ x. x.task_id ≡ u.id → x.version ≤ u.version) events
          (λ x k same. omega (arith, k (rw (← ui) same))) a.bounded)
        ((λ _. omega arith), tt);
}

-- The unique constraint cannot fail: the next version of an audited task is not yet logged.
pub Audited-fresh :
    (events : List TaskEvent) (t : OperationTask) (e : TaskEvent)
    → All (λ x. x.task_id ≡ t.id → x.version ≤ t.version) events
    → e.task_id ≡ t.id
    → e.version ≡ t.version + 1
    → any (same_entry e) events ≡ false
Audited-fresh [] t e h i v = refl
Audited-fresh (x ∷ events) t e h i v = ground (arith, Audited-fresh events t e h.1 i v, h.0)
