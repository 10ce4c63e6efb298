-- ===== src/Events/Tests/Applied.antt =====
-- Runs of a replay over a target, and its theorems at concrete inputs.
use hot_mem.Prelude.{
  ℕ, ◌+◌, String, ◌≡◌, refl, true, none, some, List, [], ◌∷◌, ◌++◌, Result, ok, err, ◌>>=◌, arith,
}
use hot_mem.Json.{str, end, field}
use hot_mem.Delta.Store.{get_memory}
use hot_mem.Events.Types.{Event, reconstructing_event_types}
use hot_mem.Events.Target.{
  Raised, Driver, Target, insert_ignore, insert_many_ignore, replace_memory_record,
  delete_memory_row, event_to_memory_record,
}
use hot_mem.Events.Apply.{
  Run, Pending, present_marks, flush_page, flush_created, plan_by_seq, apply_skipped, enqueue,
  apply_created, replace_row, apply_updated, apply_deleted, apply_disposition, apply_events,
  apply_planned,
}
use hot_mem.Events.Apply.Batches.{flush_page-append}
use hot_mem.Events.Apply.Order.{apply_events-Follow}
use hot_mem.Events.Candidates.{
  candidate_ids, candidate_pairs, safe_record_fingerprint, load_ids, load_pairs, load_candidates,
}
use hot_mem.Events.Range.{ReplayFailure, replay_batch, fresh_run, second_pass, apply_event_range}
use hot_mem.Events.Apply.Tombs.{Agrees}
use hot_mem.Events.Range.Tombs.{second_pass-Agrees}
use hot_mem.Events.Range.Outcome.{Outcome, apply_event_range-Outcome}
use hot_mem.Events.Tests.{empty, platform, rules, source, creation, change, deletion, ran, program}

abbrev driver : Driver
driver = record {
  text = λ v. elim v as (λ x. String) [ str s ↦ s | _ ↦ "" ];
  binds = λ r. true;
  no_bytes = str "";
  now = "now";
  to_float = λ v. some v;
  to_int = λ v. some v;
  b64decode = λ v. some v;
}

abbrev no_rows : Target
no_rows = record { rows = []; tombs = λ id. none; marks = λ id. none }

whole : Unit {0}
unfolding program get_memory insert_ignore insert_many_ignore replace_memory_record
    delete_memory_row event_to_memory_record present_marks flush_page flush_created plan_by_seq
    apply_skipped enqueue apply_created replace_row apply_updated apply_deleted apply_disposition
    apply_events apply_planned candidate_ids candidate_pairs safe_record_fingerprint load_ids
    load_pairs load_candidates second_pass apply_event_range
whole = tt

abbrev replay : List Event → Target → Target × Result ReplayFailure (ℕ × ℕ)
replay events t = apply_event_range platform rules driver source reconstructing_event_types events t

replayed : (replay (creation ∷ change ∷ deletion ∷ []) no_rows).1 ≡ ok (3, 0)
unfolding whole
replayed = refl

left : (replay (creation ∷ change ∷ deletion ∷ []) no_rows).0.rows ≡ []
unfolding whole
left = refl

-- The same events are skipped when they are replayed again.
replayed_again :
    (replay (creation ∷ change ∷ []) (replay (creation ∷ change ∷ []) no_rows).0).1 ≡ ok (0, 2)
unfolding whole
replayed_again = refl

apply_event_range-Outcome_example :
    Outcome platform rules driver source
      (creation ∷ change ∷ deletion ∷ [])
      no_rows
      (replay (creation ∷ change ∷ deletion ∷ []) no_rows)
apply_event_range-Outcome_example =
    apply_event_range-Outcome platform rules driver source reconstructing_event_types
      (creation ∷ change ∷ deletion ∷ []) no_rows

abbrev waiting : String → String → Pending
waiting id hash = record {
  row = record {
    id = id;
    namespace = "home";
    content_hash = hash;
    columns = field "identifier" (str "fact") end;
  };
  mark = record {
    namespace = "home";
    content_hash = hash;
    fingerprint = hash;
    last_seq = 1;
    last_event_id = "event";
    history_id = "history";
  };
}

abbrev first_page : List Pending
first_page = waiting "m1" "one" ∷ []

-- The second record has the hash of the first.
abbrev second_page : List Pending
second_page = waiting "m2" "one" ∷ waiting "m3" "three" ∷ []

flush_page-append_example :
    flush_page driver (first_page ++ second_page) no_rows
    ≡ flush_page driver first_page no_rows >>= λ (u, n).
        flush_page driver second_page u >>= λ (v, m). ok (v, n + m)
flush_page-append_example = flush_page-append driver first_page second_page no_rows

apply_events-Follow_example :
    apply_events platform driver replay_batch source ran.0
      (creation ∷ change ∷ deletion ∷ [])
      (fresh_run no_rows)
    ≡ apply_planned platform driver replay_batch source ran.0
        (creation ∷ change ∷ deletion ∷ [])
        (fresh_run no_rows)
unfolding whole
apply_events-Follow_example =
    apply_events-Follow platform driver replay_batch source 0 (creation ∷ change ∷ deletion ∷ [])
      ran.0 (fresh_run no_rows)
      (refl, (omega arith), (refl, (omega arith), (refl, (omega arith), tt)))

abbrev or_no_run : Result Raised Run → Run
or_no_run (ok run) = run
or_no_run (err e) = fresh_run no_rows

abbrev last_run : Run
last_run =
    or_no_run
      (second_pass platform rules driver source ran.0 (creation ∷ change ∷ deletion ∷ []) no_rows)

second_pass-Agrees_example : Agrees (last_run.target.tombs "m1") (ran.1.tombs "m1")
unfolding whole
second_pass-Agrees_example =
    second_pass-Agrees platform rules driver reconstructing_event_types source "m1"
      (creation ∷ change ∷ deletion ∷ []) empty ran.1 ran.0 no_rows last_run refl refl tt
