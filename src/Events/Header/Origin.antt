-- ===== src/Events/Header/Origin.antt =====
-- The origin of an accepted event.
use mathlib.Core.Path.{subst}
use hot_mem.Prelude.{ℕ, String, ◌≡◌, true, false, List, contains, arith, ok}
use hot_mem.Json.{obj, Fields, get}
use hot_mem.Policy.Platform.{Platform, str_or_empty}
use hot_mem.Events.Types.{Event, Source, conflicting, ReplayError}
use hot_mem.Events.Header.{Envelope, reconstructing, replay_error, check_origin, check_event}
use hot_mem.Events.Header.Checked.{check_event-IsAccepted}

module _ (p : Platform) (src : Source) where
  check_origin-ours :
      (o : Fields) (fail : String → ReplayError)
      → check_origin p src (obj o) fail ≡ ok tt
      → src.legacy_history ≡ false
      → (conflicting (str_or_empty p (get "mount_id" o)) src.mount_id ≡ false)
        × (conflicting (str_or_empty p (get "history_id" o)) src.history_id ≡ false)
  unfolding check_origin
  check_origin-ours o fail h fresh = ground arith

  -- A reconstructing event that passes the checks has a type among those that the replay covers; and
  -- when its payload states an origin and the source has no legacy history, neither the mount nor
  -- the history that it states conflicts with the source's.
  pub check_event-ours :
      (types : List String) (prev : ℕ) (e : Event) (env : Envelope) (o : Fields)
      → check_event p types src prev e ≡ ok (reconstructing env)
      → get "origin" env.payload ≡ obj o
      → src.legacy_history ≡ false
      → (contains types (str_or_empty p e.event_type) ≡ true)
        × (conflicting (str_or_empty p (get "mount_id" o)) src.mount_id ≡ false)
        × (conflicting (str_or_empty p (get "history_id" o)) src.history_id ≡ false)
  check_event-ours types prev e env o h stated fresh =
      let a = check_event-IsAccepted p types src e prev env h in
      let fail =
        λ (reason : String). replay_error reason env.seq (str_or_empty p e.event_id) env.id in
      let ours = subst (λ v. check_origin p src v fail ≡ ok tt) stated a.is_ours in
      let (mount, history) = check_origin-ours o fail ours fresh in (a.is_covered, mount, history)
