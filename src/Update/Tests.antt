-- ===== src/Update/Tests.antt =====
-- A source check, a plan, its token and its application at concrete inputs.
mod Applied
mod Usable
mod Invariant
use nsfwtrack.Base.{
  ℕ, ◌+◌, String, true, none, some, List, [], ◌∷◌, ◌≡◌, ◌≢◌, refl, ap, zero, suc, leb, ◌-◌, map,
  arith, All, count_where, codes, length, ◌==◌, if◌then◌else◌, insert_sorted, sorted_by,
}
use nsfwtrack.Tasks.Contracts.{can_transition, state_eq}
use nsfwtrack.Tasks.Text.{safe_key, safe_code, safe_error}
use nsfwtrack.Tasks.Store.{update_rows, count_rows, find_row, add_event}
use nsfwtrack.Tasks.Service.{
  Service, create, insert_task, insert_row, mark_created, identity, get, transition, refusal,
  commit_transition, transition_values, transition_where,
}
use nsfwtrack.Update.Contracts.{
  write_failed, check_expired, invalid_request, ok, err, Item, ItemSource, Store, Std,
  item_snapshot, source_snapshot, item_row, source_row, make_change, item_summary, ManualUpdatePlan,
  valid_plan, Okay,
}
use nsfwtrack.Update.Plan.{
  current_value, proposed_value, changes_field, collect, finish_plan, plan_rows, plan_check,
  build_manual_update_plan,
}
use nsfwtrack.Update.Grounds.{PlanPromise, build_manual_update_plan-Promise}
use nsfwtrack.Update.Token.{
  Bytes, Crypto, sign_manual_update_plan, verify_manual_update_token, seconds, token_of,
}
use nsfwtrack.Update.Tokens.{IsCodec, verify-sign}
use nsfwtrack.Update.Genuine.{Genuine, verify_manual_update_token-Genuine}
use nsfwtrack.Update.Verify.{
  item_proof, source_proof, changed_item, changed_source, task_matches, check_matches, rows_match,
  verify_state, verify_pre, verify_replay,
}
use nsfwtrack.Update.Closing.{
  Commit, stored, lost, stored_and_raised, World, outcome, pre_or_unknown, mark_unknown, report,
  close_task, confirm, confirm_raised, commit_write,
}
use nsfwtrack.Update.Apply.{
  update_items, update_sources, written, write, start, apply_rows, replay, apply_task,
  apply_manual_update,
}
use nsfwtrack.Update.Honest.{Honest, apply_manual_update-Honest}
use nsfwtrack.Update.Succeeds.{WasApplied}
use nsfwtrack.Update.Tables.{MayRun}
use nsfwtrack.Update.Applied.{ReadsTimes, apply_manual_update-build_manual_update_plan}
use nsfwtrack.Update.Check.{
  requested, CheckWorld, check_failed, record_fact, reread, answered, begin_check, check_rows,
  execute_source_check,
}

abbrev std : Std
std = record {
  digest = λ js. "h";
  sha256 = λ s. s;
  isoformat = λ t. "t";
  fromisoformat = λ s. some 5;
}

abbrev svc : Service
svc = record { max_concurrency = 1; casefold = λ t. t; sha256 = λ v. v }

abbrev item : Item
item = record {
  item_id = 1;
  item_title = "T";
  cover_path = none;
  summary = some "old";
  release_date = some "2020-01-01";
  extra = none;
  item_created_at = 1;
  updated_at = 2;
}

abbrev source : ItemSource
source = record {
  source_id = 1;
  owner_id = 1;
  url = "u";
  normalized_url = "u";
  source_title = none;
  provider_key = some "p";
  external_id = some "e";
  last_checked_at = none;
  metadata_hash = none;
  source_created_at = 1;
}

abbrev before : Store
before = record {
  db = record { tasks = []; events = []; asset_tasks = [] };
  items = item ∷ [];
  sources = source ∷ [];
  facts = [];
}

abbrev check_world : CheckWorld
check_world = record {
  now = 1;
  later = 2;
  new_task_id = 1;
  check_key = "source-check:1:x";
  answer = some (record {
    detail_summary = some "new";
    detail_release_date = none;
    detail_title = "N";
    received_at = 5;
  });
  between = λ s. s;
  meanwhile = λ s. s;
  stores = true;
}

abbrev checked : Store
checked = (execute_source_check std svc check_world 1 1 900 before).1

abbrev chosen : List String
chosen = "item.summary" ∷ "item.release_date" ∷ []

opened : Unit {0}
unfolding create insert_task insert_row mark_created identity add_event safe_key find_row get
    refusal transition commit_transition transition_where transition_values can_transition state_eq
    safe_code safe_error count_rows update_rows check_failed record_fact reread answered requested
    begin_check check_rows execute_source_check item_snapshot source_snapshot make_change valid_plan
    current_value proposed_value changes_field collect finish_plan plan_rows plan_check
    build_manual_update_plan item_proof source_proof changed_item changed_source task_matches
    check_matches rows_match verify_state verify_pre verify_replay pre_or_unknown mark_unknown
    report close_task confirm confirm_raised commit_write update_items update_sources written write
    start apply_rows replay apply_task apply_manual_update insert_sorted sorted_by
opened = tt

-- The provider gave no date, so the selected date is left alone.
abbrev plan : ManualUpdatePlan
plan = record {
  check_task_id = 1;
  plan_item_id = 1;
  plan_source_id = 1;
  plan_provider_key = "p";
  plan_item_hash = "h";
  plan_source_hash = "h";
  selected = record { field = item_summary; old = some "old"; new = some "new" } ∷ [];
  plan_detail_hash = "h";
}

test_plan : build_manual_update_plan std 1 chosen 3 checked ≡ ok plan
unfolding opened
test_plan = refl

test_expired : build_manual_update_plan std 1 chosen 900_000_002 checked ≡ err check_expired
unfolding opened
test_expired = refl

test_unknown_field :
    build_manual_update_plan std 1 ("item.title" ∷ []) 3 checked ≡ err invalid_request
unfolding opened
test_unknown_field = refl

abbrev world : Commit → World
world c = record {
  clean = true;
  begins = true;
  now = 7;
  new_task_id = 2;
  intent_key = "metadata-update:x";
  write_commit = c;
  close_commit = stored;
  mark_commit = stored;
  others = λ i s. s;
}

abbrev applied : Store
applied = (apply_manual_update (world stored) std svc plan checked).1

test_applied :
    (apply_manual_update (world stored) std svc plan checked).0
    ≡ outcome 2 plan "committed_verified"
unfolding opened
test_applied = refl

test_again :
    (apply_manual_update (world stored) std svc plan applied).0
    ≡ outcome 2 plan "already_applied_verified"
unfolding opened
test_again = refl

-- A commit that raised although it was stored is found out.
test_stored_and_raised :
    (apply_manual_update (world stored_and_raised) std svc plan checked).0
    ≡ outcome 2 plan "committed_verified"
unfolding opened
test_stored_and_raised = refl

test_lost : apply_manual_update (world lost) std svc plan checked ≡ (err write_failed, checked)
unfolding opened
test_lost = refl

build_manual_update_plan-Promise_example :
    Okay (PlanPromise std 1 chosen 3 checked) (build_manual_update_plan std 1 chosen 3 checked)
build_manual_update_plan-Promise_example = build_manual_update_plan-Promise std 1 chosen 3 checked

apply_manual_update-Honest_example :
    let o = apply_manual_update (world stored) std svc plan checked in
    Honest (world stored) std plan checked o.0 o.1
apply_manual_update-Honest_example = apply_manual_update-Honest (world stored) std plan checked svc

-- A base64 without the dot: numbers from 46 on are one higher.
abbrev coded : ℕ → ℕ
coded x = if leb 46 x then x + 1 else x

abbrev decoded : ℕ → ℕ
decoded x = if leb 46 x then x - 1 else x

abbrev crypto : Crypto
crypto = record {
  hmac = λ secret segment. segment;
  sha256 = λ b. b;
  b64 = map coded;
  unb64 = λ b. some (map decoded b);
  dumps = λ e. 123 ∷ 46 ∷ 125 ∷ [];
  loads = λ b. some (record {
    issued_at = 10;
    token_expires_at = 10 + seconds 600;
    context_hash = 9 ∷ [];
    plan = plan;
  });
}

decoded-coded : (b : Bytes) → map decoded (map coded b) ≡ b
decoded-coded [] = refl
decoded-coded (x ∷ b) = ground (arith, decoded-coded b)

coded_undotted : (b : Bytes) → All (λ x. x ≢ 46) (map coded b)
coded_undotted [] = tt
coded_undotted (x ∷ b) = (ground arith, coded_undotted b)

crypto-IsCodec : IsCodec crypto
crypto-IsCodec = record { unb64-b64 = λ b. ap some (decoded-coded b); undotted = coded_undotted }

abbrev secret : Bytes
secret = replicate 32
  where
    replicate : ℕ → Bytes
    replicate zero = []
    replicate (suc n) = 7 ∷ replicate n

abbrev token : Bytes
token = token_of (map coded (123 ∷ 46 ∷ 125 ∷ [])) (map coded (map coded (123 ∷ 46 ∷ 125 ∷ [])))

signs : sign_manual_update_plan crypto plan secret (9 ∷ []) 10 600 ≡ ok token
unfolding sign_manual_update_plan
signs = refl

plan-valid_plan : valid_plan plan ≡ true
unfolding valid_plan
plan-valid_plan = refl

verify-sign_example : verify_manual_update_token crypto token secret (9 ∷ []) 11 ≡ ok plan
verify-sign_example =
    verify-sign crypto crypto-IsCodec plan secret (9 ∷ []) (9 ∷ []) 10 600 11 token plan-valid_plan
      refl signs

verify_manual_update_token-Genuine_example :
    Okay
      (Genuine crypto token secret (9 ∷ []) 11)
      (verify_manual_update_token crypto token secret (9 ∷ []) 11)
verify_manual_update_token-Genuine_example =
    verify_manual_update_token-Genuine crypto secret (9 ∷ []) 11 token
