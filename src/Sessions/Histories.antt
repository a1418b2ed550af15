-- ===== src/Sessions/Histories.antt =====
-- The sessions in every history of their handlers (platform/sessions.rs).
use free_llama.Base.{
  ℕ, refl, List, [], ◌∷◌, retain, length, Option, none, some, String, leb, remove, arith, inl, inr,
  Bool-cases,
}
use free_llama.Sessions.{
  SessionAffinity, empty, bind, prune_expired, touch, forget, kill, require_active_session,
  create_session, delete_session, kill_session, is_live,
}
use free_llama.Sessions.Channels.{Inv, retain-Inv, modify-Inv, create-Inv, kill_found-Inv}

pub data Event : Type 0 where
  creates : String → ℕ → Event
  requires : Option String → ℕ → Event
  binds : String → String → ℕ → Event
  deletes kills : String → ℕ → Event

abbrev pub step : ℕ → ℕ → SessionAffinity → Event → SessionAffinity
step max_sessions ttl s (creates id now) = (create_session s id max_sessions ttl now).0
step max_sessions ttl s (requires id now) = (require_active_session s id ttl now).0
step max_sessions ttl s (binds id model now) = bind s id model now
step max_sessions ttl s (deletes id now) = (delete_session s id ttl now).0
step max_sessions ttl s (kills id now) = (kill_session s id ttl now).0

abbrev pub run : ℕ → ℕ → SessionAffinity → List Event → SessionAffinity
run max_sessions ttl s [] = s
run max_sessions ttl s (event ∷ events) =
    run max_sessions ttl (step max_sessions ttl s event) events

create_session-Inv :
    (max_sessions ttl : ℕ) (s : SessionAffinity) (id : String) (now : ℕ)
    → Inv max_sessions s
    → Inv max_sessions (create_session s id max_sessions ttl now).0
unfolding create_session prune_expired
create_session-Inv max_sessions ttl s id now v =
    let w = retain-Inv max_sessions s (is_live ttl now) v in
    elim (Bool-cases (leb max_sessions (length (retain (is_live ttl now) s.sessions)))) [
      | inl full ↦ rw full w
      | inr room ↦ rw room (create-Inv max_sessions _ id now (ground arith) w)
    ]

step-Inv :
    (max_sessions ttl : ℕ) (s : SessionAffinity) (event : Event)
    → Inv max_sessions s
    → Inv max_sessions (step max_sessions ttl s event)
unfolding create_session require_active_session bind delete_session kill_session prune_expired touch
    forget remove kill
step-Inv max_sessions ttl s (creates id now) v = create_session-Inv max_sessions ttl s id now v
step-Inv max_sessions ttl s (requires none now) v = v
step-Inv max_sessions ttl s (requires (some id) now) v =
    modify-Inv max_sessions _ id _ (λ r. refl) (retain-Inv max_sessions s (is_live ttl now) v)
step-Inv max_sessions ttl s (binds id model now) v = modify-Inv max_sessions s id _ (λ r. refl) v
step-Inv max_sessions ttl s (deletes id now) v =
    retain-Inv max_sessions _ _ (retain-Inv max_sessions s (is_live ttl now) v)
step-Inv max_sessions ttl s (kills id now) v =
    kill_found-Inv max_sessions (prune_expired s ttl now) id _ refl
      (retain-Inv max_sessions s (is_live ttl now) v)

run-Inv :
    (max_sessions ttl : ℕ) (events : List Event) (s : SessionAffinity)
    → Inv max_sessions s
    → Inv max_sessions (run max_sessions ttl s events)
run-Inv max_sessions ttl [] s v = v
run-Inv max_sessions ttl (event ∷ events) s v =
    run-Inv max_sessions ttl events (step max_sessions ttl s event)
      (step-Inv max_sessions ttl s event v)

-- In every history of the handlers there are at most `max_sessions` sessions, each with a channel of
-- its own on which no kill was sent: killing a session never cancels the work of another.
pub run-empty-Inv :
    (max_sessions ttl : ℕ) (events : List Event)
    → Inv max_sessions (run max_sessions ttl empty events)
run-empty-Inv max_sessions ttl events =
    run-Inv max_sessions ttl events empty
      (record { bounded = omega arith; fresh = tt; old = tt; distinct = tt; alive = tt })
