-- ===== src/Log/Stream.antt =====
-- `query_events` of src/hotmem/db.py and the stream `replay` of src/hotmem/events.py.
pub mod Pages
use hot_mem.Prelude.{
  ℕ, zero, suc, ◌-◌, String, Bool, true, false, ◌&&◌, not, Option, none, some, List, [], ◌∷◌, ◌++◌,
  if◌then◌else◌, keep, contains, is_empty, length, ltb, ◌=ₛ◌, Result, ok, err, ◌>>=◌,
}
use hot_mem.Log.Tables.{LogRow, Database, is_of, str_ltb}
use hot_mem.Log.Cursor.Types.{ReplayCursor, CursorError}
use hot_mem.Log.Cursor.{Identity, Asked, validate_replay_cursor, effective_replay_event_types}

-- The filters of `query_events`.
pub record Query : Type 0 where
  pub memory_id : Option String
  pub namespace : Option String
  pub event_type : Option String
  pub since : Option String
  pub until : Option String
  pub after_seq : Option ℕ
  pub before_seq : Option ℕ

-- A clause of WHERE that is left out where the argument is `None`.
abbrev pub clause : {A : Type 0} → Option A → (A → Bool) → Bool
clause none test = true
clause (some a) test = test a

unfoldable pub matches : Query → LogRow → Bool
matches q e =
    clause q.memory_id (λ id. is_of id e)
    && clause q.namespace (λ ns. e.namespace =ₛ ns)
    && clause q.event_type (λ t. e.event_type =ₛ t)
    && clause q.since (λ t. not (str_ltb e.occurred_at t))
    && clause q.until (λ t. not (str_ltb t e.occurred_at))
    && clause q.after_seq (λ n. ltb n e.seq)
    && clause q.before_seq (λ n. ltb e.seq n)

-- LIMIT
abbrev pub take : ℕ → List LogRow → List LogRow
take zero xs = []
take (suc n) [] = []
take (suc n) (x ∷ xs) = x ∷ take n xs

abbrev pub reverse : List LogRow → List LogRow
reverse [] = []
reverse (x ∷ xs) = reverse xs ++ x ∷ []

-- The events of the table are listed in the order of `seq`.
unfoldable pub query_events : Query → ℕ → Bool → List LogRow → List LogRow
query_events q limit ascending events =
    let found = keep (matches q) events in take limit (if ascending then found else reverse found)

-- `events[-1]["seq"]`
abbrev pub last_seq_of : ℕ → List LogRow → ℕ
last_seq_of n [] = n
last_seq_of n (e ∷ es) = last_seq_of e.seq es

abbrev pub page_query : Option String → ℕ → Query
page_query namespace after = record {
  memory_id = none;
  namespace = namespace;
  event_type = none;
  since = none;
  until = none;
  after_seq = some after;
  before_seq = none;
}

-- `event_type not in allowed_types`, where types are given
abbrev pub is_allowed : Option (List String) → LogRow → Bool
is_allowed none e = true
is_allowed (some types) e = contains types e.event_type

-- The loop over pages of `limit` events; `none` is a loop that ran out of rounds.
unfoldable pub stream_pages :
    ℕ → ℕ → Option String → Option (List String) → ℕ → List LogRow → Option (List LogRow)
stream_pages zero limit namespace types after events = none
stream_pages (suc rounds) limit namespace types after events =
    let page = query_events (page_query namespace after) limit true events in
    let rest = stream_pages rounds limit namespace types (last_seq_of after page) events in
    if is_empty page
    then some []
    else if ltb (length page) limit
    then some (keep (is_allowed types) page)
    else elim rest [ none ↦ none | some more ↦ some (keep (is_allowed types) page ++ more) ]

abbrev pub page_limit : ℕ
page_limit = 500

-- One round more than there are events.
abbrev pub rounds_for : List LogRow → ℕ
rounds_for events = suc (length events)

-- `replay` without a cursor
unfoldable pub replay_after : Option String → ℕ → Database → Option (List LogRow)
replay_after namespace after db =
    stream_pages (rounds_for db.events) page_limit namespace none after db.events

abbrev pub asked_for : Option String → Asked
asked_for namespace = record {
  namespace = namespace;
  event_types = none;
  allow_legacy_history = true;
}

-- `replay` with a cursor
unfoldable pub replay :
    Identity → Option String → ReplayCursor → Database → Result CursorError (Option (List LogRow))
replay i namespace cursor db = do
  c ← validate_replay_cursor i (asked_for namespace) db cursor
  types ← effective_replay_event_types c none
  ok (stream_pages (rounds_for db.events) page_limit c.namespace (some types) c.seq db.events)
