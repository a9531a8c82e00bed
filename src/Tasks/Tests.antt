-- ===== src/Tasks/Tests.antt =====
-- Runs of the task service at concrete inputs, and the theorems applied there.
use mathlib.Core.Path.{subst}
use nsfwtrack.Base.{
  String, ◌++◌, ℕ, ◌+◌, ◌≤◌, ◌≡◌, refl, true, false, none, some, [], ◌∷◌, arith, All,
}
use nsfwtrack.Tasks.Contracts.{asset_download, cancelled, queued, running, can_transition, state_eq}
use nsfwtrack.Tasks.Text.{safe_key, safe_code, safe_error}
use nsfwtrack.Tasks.Store.{
  OperationTask, Db, ok, is_ok, update_rows, count_rows, find_row, add_event,
}
use nsfwtrack.Tasks.Service.{
  Service, NewTask, Move, create, insert_task, insert_row, mark_created, identity, get, transition,
  refusal, commit_transition, transition_values, transition_where, fresh_row,
}
use nsfwtrack.Tasks.Leases.{
  Beat, acquire_lease, heartbeat, write_lease, lease_where, leased, beat_where, beaten,
}
use nsfwtrack.Tasks.Control.{
  request_cancel, plain_move, flag_cancel, candidates, linked, cancel_move, flagged,
  recover_interrupted, interrupted, cleanable, cleanup_history,
}
use nsfwtrack.Tasks.Invariant.{Inv}
use nsfwtrack.Tasks.Reach.{Reach, start, creates, moves, cancels, Reach-Inv}
use nsfwtrack.Tasks.Optimistic.{transition_set, moved_db, transition_sound, transition_race}
use nsfwtrack.Tasks.Outcomes.{transition_result, expected_result}
use nsfwtrack.Tasks.Recovery.{recover_interrupted_clears, recover_interrupted-stuck}
use nsfwtrack.Tasks.Fencing.{stale-heartbeat, request_cancel-returns}
use nsfwtrack.Tasks.Cleanup.{selected, Kept, cleanup_history-safe}

abbrev svc : Service
svc = record { max_concurrency = 1; casefold = λ t. t; sha256 = λ v. v }

abbrev wanted : NewTask
wanted = record {
  task_type = asset_download;
  intent_key = "test:one";
  initial_state = queued;
  item_id = none;
  source_id = none;
  provider_key = none;
  external_identity = none;
  asset_identity = none;
  relative_target = none;
  snapshot_hash = none;
}

abbrev empty : Db
empty = record { tasks = []; events = []; asset_tasks = [] }

abbrev row : OperationTask
row = fresh_row 10 1 wanted none none

abbrev begin_move : Move
begin_move = plain_move 1 running 1 "start_requested"

-- The tables after the creation, and after the start.
abbrev created : Db
created = (create svc 10 (λ d. d) 1 wanted empty).1

abbrev begun : Db
begun = moved_db svc 20 begin_move row created

-- What the runs below compute through.
opened : Unit {0}
unfolding create insert_task insert_row mark_created identity add_event safe_key find_row get
    refusal transition commit_transition transition_where transition_values can_transition state_eq
    safe_code safe_error count_rows update_rows request_cancel flag_cancel acquire_lease write_lease
    lease_where leased heartbeat beat_where beaten cleanup_history cleanable candidates linked
opened = tt

create_runs : (create svc 10 (λ d. d) 1 wanted empty).0 ≡ ok (row, true)
unfolding opened
create_runs = refl

created-Reach : Reach svc created
unfolding create
created-Reach = creates 10 1 wanted (start []) (start [])

begin_runs :
    transition svc 20 (λ _. created) begin_move created
    ≡ (ok (transition_set svc 20 begin_move row row), begun)
unfolding opened
begin_runs = refl

begun-Reach : Reach svc begun
begun-Reach =
    subst (λ o. Reach svc o.1) begin_runs (moves 20 begin_move created-Reach created-Reach)

Reach-Inv_example : Inv svc begun
Reach-Inv_example = Reach-Inv svc begun-Reach

created-Inv : Inv svc created
created-Inv = Reach-Inv svc created-Reach

begun-Inv : Inv svc begun
begun-Inv = Reach-Inv svc begun-Reach

abbrev running_row : OperationTask
running_row = transition_set svc 20 begin_move row row

transition_sound_example :
    (old : OperationTask) × (find_row 1 created.tasks ≡ some old)
    × (old.version ≡ 1)
    × (can_transition old.state running ≡ true)
    × (find_row 1 begun.tasks ≡ some running_row)
    × (running_row.state ≡ running)
    × (running_row.version ≡ 1 + 1)
transition_sound_example =
    transition_sound svc 20 (λ _. created) begin_move created created-Inv.distinct begin_runs

transition_race_example : is_ok (transition svc 21 (λ _. begun) begin_move created).0 ≡ false
transition_race_example =
    transition_race svc 20 21 (λ _. created) begin_move begin_move created created-Inv.distinct refl
      refl begin_runs

transition_result_example :
    (transition svc 20 (λ d. d) begin_move created).0 ≡ expected_result svc 20 begin_move created
transition_result_example = transition_result svc 20 begin_move created created-Inv

begun-found : find_row 1 begun.tasks ≡ some running_row
unfolding opened
begun-found = refl

recover_interrupted_clears_example :
    ((recover_interrupted svc 30 begun).0 ≡ ok (count_rows interrupted begun.tasks))
    × (count_rows interrupted (recover_interrupted svc 30 begun).1.tasks ≡ 0)
unfolding opened
recover_interrupted_clears_example =
    recover_interrupted_clears svc 30 begun begun-Inv (omega arith) ((λ e. cc), tt)

-- The running task, asked to stop.
abbrev stopping : Db
stopping = (request_cancel svc 25 (λ _. begun) 1 2 begun).1

stopping-Reach : Reach svc stopping
stopping-Reach = cancels 25 1 2 begun-Reach begun-Reach

recover_interrupted-stuck_example : is_ok (recover_interrupted svc 30 stopping).0 ≡ false
unfolding opened
recover_interrupted-stuck_example =
    recover_interrupted-stuck svc 30 stopping (Reach-Inv svc stopping-Reach) refl

request_cancel-returns_example :
    (request_cancel svc 25 (λ d. d) 1 2 begun).0
    ≡ ok (flagged (transition_set svc 25 (cancel_move 1 running 2) running_row running_row))
unfolding opened
request_cancel-returns_example =
    request_cancel-returns svc 25 1 2 begun begun-Inv refl refl (omega arith) refl

abbrev leased_row : OperationTask
leased_row = leased 21 "worker-a" 30 running_row

abbrev held : Db
held = (acquire_lease 21 (λ d. d) 1 "worker-a" 2 30 begun).1

acquire_runs : acquire_lease 21 (λ d. d) 1 "worker-a" 2 30 begun ≡ (ok leased_row, held)
unfolding opened
acquire_runs = refl

held-found : find_row 1 held.tasks ≡ some leased_row
unfolding opened
held-found = refl

-- The lease has expired, another worker takes it, and beats.
abbrev taken_row : OperationTask
taken_row = leased 40_000_000 "worker-b" 30 leased_row

abbrev taken : Db
taken = (acquire_lease 40_000_000 (λ d. d) 1 "worker-b" 2 30 held).1

taken_runs : acquire_lease 40_000_000 (λ d. d) 1 "worker-b" 2 30 held ≡ (ok taken_row, taken)
unfolding opened
taken_runs = refl

abbrev beat_of : String → ℕ → Beat
beat_of owner generation = record {
  task_id = 1;
  owner = owner;
  generation = generation;
  ttl_seconds = 30;
  bytes_processed = none;
  stage = none;
}

abbrev beaten_db : Db
beaten_db = (heartbeat 41_000_000 (beat_of "worker-b" 2) taken).1

abbrev beaten_row : OperationTask
beaten_row = beaten 41_000_000 (beat_of "worker-b" 2) taken_row

beaten-found : find_row 1 beaten_db.tasks ≡ some beaten_row
unfolding opened
beaten-found = refl

-- The first worker's heartbeat under its own generation comes after that.
stale-heartbeat_example :
    (taken_row.lease_generation ≡ 2)
    × (is_ok (heartbeat 42_000_000 (beat_of "worker-a" 1) beaten_db).0 ≡ false)
unfolding opened
stale-heartbeat_example =
    stale-heartbeat 40_000_000 42_000_000 (λ d. d) 1 "worker-b" 2 30 (beat_of "worker-a" 1) held
      beaten_db (tt, tt) held-found taken_runs (tt, tt) beaten-found (omega arith) refl
      (omega arith)

-- A task cancelled long ago.
abbrev old_row : OperationTask
old_row = record row { state = cancelled; finished_at = some 50 }

abbrev begun_row : OperationTask
begun_row = record row { id = 2; intent_key = "test:two" }

abbrev old : Db
old = record { tasks = old_row ∷ []; events = []; asset_tasks = [] }

abbrev much_later : ℕ
much_later = 90_000_000_000

-- The old task goes, and the one that another session has begun meanwhile stays.
abbrev with_begun : Db → Db
with_begun db = record db { tasks = db.tasks ++ begun_row ∷ [] }

begun_kept :
    cleanup_history much_later with_begun 1 10 old
    ≡ (ok 1, record { tasks = begun_row ∷ []; events = []; asset_tasks = [] })
unfolding opened
begun_kept = refl

cleanup_history-safe_example :
    (1 ≤ 10)
    × All
        (λ t.
          selected much_later 1 old t ≡ false
          → Kept (record { tasks = begun_row ∷ []; events = []; asset_tasks = [] }) t)
        (with_begun old).tasks
cleanup_history-safe_example =
    cleanup_history-safe much_later with_begun 1 10 old ((ground arith, tt), (tt, tt)) begun_kept
