-- ===== src/Events/Header/Checked.antt =====
-- What an event satisfies that passed the checks.
use hot_mem.Prelude.{
  ℕ, ◌<◌, String, ◌≡◌, refl, sym, ap, ◌∙◌, Bool, true, false, not, Option, none, some, List,
  contains, arith, ok, >>=-eq-ok, raise_if-eq-ok, ok-injective,
}
use hot_mem.Prelude.Strings.{is_blank, strip}
use hot_mem.Json.{Value, str, num, obj, Fields, get}
use hot_mem.Policy.Platform.{Platform, str_or_empty}
use hot_mem.Events.Types.{Event, Kind, kind_of, observational_event_types, Source, ReplayError}
use hot_mem.Events.Header.{
  check_version, Envelope, Header, observational, reconstructing, replay_error, none_or, check_seq,
  check_id, check_origin, check_reconstructing, check_identified, check_observational, payload_of,
  check_event, check_typed,
}

abbrev pub seq_of : Header → ℕ
seq_of (observational seq) = seq
seq_of (reconstructing env) = env.seq

check_seq-is :
    (prev : ℕ) (event_id : String) (raw : Value) (seq : ℕ)
    → check_seq prev event_id raw ≡ ok seq
    → (raw ≡ num false seq 0) × (prev < seq)
unfolding check_seq
check_seq-is prev event_id raw seq h = ground arith

check_id-is :
    (payload : Fields) (seq : ℕ) (event_id id : String)
    → check_id payload seq event_id ≡ ok id
    → (get "id" payload ≡ str id) × (is_blank (strip id) ≡ false)
unfolding check_id
check_id-is payload seq event_id id h = ground arith

is_blank-strip : (s : String) → is_blank (strip s) ≡ false → is_blank s ≡ false
unfolding strip
is_blank-strip String.[] h = cc
is_blank-strip (String.◌∷◌ c s) h = refl

unnegated : (b : Bool) → not b ≡ false → b ≡ true
unnegated true h = refl
unnegated false h = cc

module _ (p : Platform) (types : List String) (src : Source) (e : Event) where
  check_identified-is :
      (seq : ℕ) (kind : Kind) (payload : Fields) (is_v1 : Bool) (id : String) (env : Envelope)
      → check_identified p src e seq kind payload is_v1 id ≡ ok env
      → (env.seq ≡ seq) × (env.kind ≡ kind) × (env.payload ≡ payload) × (env.id ≡ id)
  unfolding check_identified
  check_identified-is seq kind payload is_v1 id env h =
      (ground arith, ground arith, ground arith, ground arith)

  check_identified-origin :
      (seq : ℕ) (kind : Kind) (payload : Fields) (is_v1 : Bool) (id : String) (env : Envelope)
      → check_identified p src e seq kind payload is_v1 id ≡ ok env
      → check_origin p src
          (get "origin" payload)
          (λ reason. replay_error reason seq (str_or_empty p e.event_id) id)
        ≡ ok tt
  unfolding check_identified
  check_identified-origin seq kind payload is_v1 id env h = ground arith

  check_reconstructing-is :
      (seq : ℕ) (etype : String) (kind : Kind) (payload : Fields) (env : Envelope)
      → check_reconstructing p types src e seq etype kind payload ≡ ok env
      → (contains types etype ≡ true)
        × (is_v1 : Bool) × (id : String) × (check_id payload seq (str_or_empty p e.event_id)
            ≡ ok id)
        × (check_identified p src e seq kind payload is_v1 id ≡ ok env)
  unfolding check_reconstructing
  check_reconstructing-is seq etype kind payload env h =
      let event_id = str_or_empty p e.event_id in
      let (named, h1) =
        raise_if-eq-ok (not (none_or "reconstructing" (get "event_category" payload)))
          (replay_error "malformed_event_payload" seq event_id "") _ h in
      let (covered, h2) =
        raise_if-eq-ok (not (contains types etype))
          (replay_error "incomplete_reconstructing_scope" seq event_id "") _ h1 in
      let (is_v1, versioned, h3) = >>=-eq-ok (check_version kind payload seq event_id) _ h2 in
      let (id, identified, h4) =
        >>=-eq-ok (check_id payload seq event_id) (check_identified p src e seq kind payload is_v1)
          h3 in
      (unnegated (contains types etype) covered, is_v1, id, identified, h4)

  check_observational-is :
      (event_id etype : String) (payload : Fields) (seq n : ℕ)
      → check_observational p event_id etype payload seq ≡ ok n
      → n ≡ seq
  unfolding check_observational
  check_observational-is event_id etype payload seq n h =
      let (known, h1) =
        raise_if-eq-ok (not (contains observational_event_types etype))
          (replay_error "unsupported_event_type" seq event_id "") _ h in
      let (category, h2) =
        raise_if-eq-ok (not (none_or "observational" (get "event_category" payload)))
          (replay_error "malformed_event_payload" seq event_id "") _ h1 in
      ok-injective h2

  -- A reconstructing event that was accepted: its id is the payload's, its type is one of those that
  -- the replay covers, and its origin is the source's.
  pub record IsAccepted (env : Envelope) : Type 0 where
    pub is_payload : e.payload ≡ obj env.payload
    pub is_kind : kind_of (str_or_empty p e.event_type) ≡ some env.kind
    pub is_id : get "id" env.payload ≡ str env.id
    pub is_named : is_blank env.id ≡ false
    pub is_covered : contains types (str_or_empty p e.event_type) ≡ true
    pub is_ours :
        (check_origin p src
          (get "origin" env.payload)
          (λ reason. replay_error reason env.seq (str_or_empty p e.event_id) env.id))
        ≡ ok tt

  check_typed-is :
      (seq : ℕ) (payload : Fields) (kind : Option Kind) (header : Header)
      → check_typed p types src e seq payload kind ≡ ok header
      → seq_of header ≡ seq
  unfolding check_typed
  check_typed-is seq payload none header h =
      let (n, checked, h1) =
        >>=-eq-ok
          (check_observational p (str_or_empty p e.event_id) (str_or_empty p e.event_type) payload
            seq)
          (λ n. ok (observational n)) h in
      ap seq_of (ok-injective h1)
      ∙ check_observational-is (str_or_empty p e.event_id) (str_or_empty p e.event_type) payload seq
          n checked
  check_typed-is seq payload (some kind) header h =
      let etype = str_or_empty p e.event_type in
      let (env, checked, h1) =
        >>=-eq-ok (check_reconstructing p types src e seq etype kind payload)
          (λ n. ok (reconstructing n)) h in
      let (covered, is_v1, id, identified, h2) =
        check_reconstructing-is seq etype kind payload env checked in
      ap seq_of (ok-injective h1) ∙ (check_identified-is seq kind payload is_v1 id env h2).0

  check_typed-envelope :
      (seq : ℕ) (payload : Fields) (kind : Option Kind) (env : Envelope)
      → check_typed p types src e seq payload kind ≡ ok (reconstructing env)
      → (k : Kind) × (kind ≡ some k)
        × (check_reconstructing p types src e seq (str_or_empty p e.event_type) k payload ≡ ok env)
  unfolding check_typed
  check_typed-envelope seq payload none env h = absurd (ground arith)
  check_typed-envelope seq payload (some kind) env h = (kind, refl, ground arith)

  payload_of-is :
      (v : Value) (failed : ReplayError) (payload : Fields)
      → payload_of p v failed ≡ ok payload
      → v ≡ obj payload
  payload_of-is v failed payload h = ground arith

  -- The event is numbered, and its number follows the previous one.
  pub check_event-seq :
      (prev : ℕ) (header : Header)
      → check_event p types src prev e ≡ ok header
      → (e.seq ≡ num false (seq_of header) 0) × (prev < seq_of header)
  unfolding check_event
  check_event-seq prev header h =
      let (seq, numbered, h1) = >>=-eq-ok (check_seq prev (str_or_empty p e.event_id) e.seq) _ h in
      let (payload, read, h2) =
        >>=-eq-ok
          (payload_of p e.payload
            (replay_error "malformed_event_payload" seq (str_or_empty p e.event_id) ""))
          _ h1 in
      let (raw, rises) = check_seq-is prev (str_or_empty p e.event_id) e.seq seq numbered in
      let same = check_typed-is seq payload (kind_of (str_or_empty p e.event_type)) header h2 in
      rw same (raw, rises)

  pub check_event-IsAccepted :
      (prev : ℕ) (env : Envelope)
      → check_event p types src prev e ≡ ok (reconstructing env)
      → IsAccepted env
  unfolding check_event
  check_event-IsAccepted prev env h =
      let event_id = str_or_empty p e.event_id in
      let etype = str_or_empty p e.event_type in
      let (seq, numbered, h1) = >>=-eq-ok (check_seq prev event_id e.seq) _ h in
      let (payload, read, h2) =
        >>=-eq-ok (payload_of p e.payload (replay_error "malformed_event_payload" seq event_id ""))
          _ h1 in
      let (kind, is_kind, h3) = check_typed-envelope seq payload (kind_of etype) env h2 in
      let (covered, is_v1, id, identified, h4) =
        check_reconstructing-is seq etype kind payload env h3 in
      let (same_seq, same_kind, same_payload, same_id) =
        check_identified-is seq kind payload is_v1 id env h4 in
      let (is_id, is_text) = check_id-is payload seq event_id id identified in
      let origin = check_identified-origin seq kind payload is_v1 id env h4 in
      record {
        is_payload = payload_of-is e.payload _ payload read ∙ ap obj (sym same_payload);
        is_kind = is_kind ∙ ap some (sym same_kind);
        is_id = ap (get "id") same_payload ∙ is_id ∙ ap str (sym same_id);
        is_named = ap is_blank same_id ∙ is_blank-strip id is_text;
        is_covered = covered;
        is_ours = rw (same_payload, same_seq, same_id) origin;
      }
