-- ===== src/Sessions.antt =====
-- Session affinity (platform/routing.rs, `SessionAffinity`) and its handlers (platform/sessions.rs).
-- Instants are in nanoseconds. A session owns the sender of a channel; `killed` holds the channels
-- on which `true` was sent, and one that is neither there nor owned by a session is closed.
pub mod Channels
pub mod Histories
use free_llama.Base.{
  ℕ, ◌+◌, ◌-◌, Bool, true, false, not, List, [], ◌∷◌, map, retain, any, length, Option, none, some,
  is_some, String, same_text, Result, ok, err, ltb, leb, ◌==◌, lookup, insert, remove,
  if◌then◌else◌,
}

pub record SessionRecord : Type 0 where
  pub model : Option String
  pub last_used : ℕ
  pub channel : ℕ

pub record SessionAffinity : Type 0 where
  pub sessions : List (String × SessionRecord)
  pub killed : List ℕ
  pub next_channel : ℕ

abbrev pub empty : SessionAffinity
empty = record { sessions = []; killed = []; next_channel = 0 }

-- `create`, with the new UUID.
unfoldable pub create : SessionAffinity → String → ℕ → SessionAffinity
create s id now = record s {
  sessions =
      insert id (record { model = none; last_used = now; channel = s.next_channel }) s.sessions;
  next_channel = s.next_channel + 1;
}

abbrev pub and_model : Option SessionRecord → Option String
and_model none = none
and_model (some r) = r.model

unfoldable pub assigned : SessionAffinity → String → Option String
assigned s id = and_model (lookup id s.sessions)

-- `get_mut`, with what is done to the record.
abbrev pub modify :
    String → (SessionRecord → SessionRecord) → String × SessionRecord → String × SessionRecord
modify id change (key, r) = if same_text key id then (key, change r) else (key, r)

unfoldable pub bind : SessionAffinity → String → String → ℕ → SessionAffinity
bind s id model now = record s {
  sessions = map (modify id (λ r. record r { model = some model; last_used = now })) s.sessions;
}

abbrev pub is_live : ℕ → ℕ → String × SessionRecord → Bool
is_live ttl now (key, r) = ltb (now - r.last_used) ttl

unfoldable pub prune_expired : SessionAffinity → ℕ → ℕ → SessionAffinity
prune_expired s ttl now = record s { sessions = retain (is_live ttl now) s.sessions }

unfoldable pub touch : SessionAffinity → String → ℕ → ℕ → SessionAffinity × Bool
unfolding prune_expired
touch s id ttl now =
    let s' = prune_expired s ttl now in
    (
      record s' { sessions = map (modify id (λ r. record r { last_used = now })) s'.sessions },
      is_some (lookup id s'.sessions),
    )

-- `SessionAffinity::remove`.
unfoldable pub forget : SessionAffinity → String → SessionAffinity × Bool
forget s id = (record s { sessions = remove id s.sessions }, is_some (lookup id s.sessions))

abbrev pub channel_of : Option SessionRecord → Option ℕ
channel_of none = none
channel_of (some r) = some r.channel

unfoldable pub cancellation : SessionAffinity → String → Option ℕ
cancellation s id = channel_of (lookup id s.sessions)

unfoldable pub kill_found : SessionAffinity → String → Option ℕ → SessionAffinity × Bool
kill_found s id none = (s, false)
kill_found s id (some channel) =
    (record s { sessions = remove id s.sessions; killed = channel ∷ s.killed }, true)

unfoldable pub kill : SessionAffinity → String → SessionAffinity × Bool
kill s id = kill_found s id (cancellation s id)

pub data SessionError : Type 0 where
  not_found : SessionError
  limit_reached : ℕ → SessionError

unfoldable pub require_active_session :
    SessionAffinity → Option String → ℕ → ℕ → SessionAffinity × Option SessionError
require_active_session s none ttl now = (s, none)
require_active_session s (some id) ttl now =
    let (s', found) = touch s id ttl now in (s', if found then none else some not_found)

unfoldable pub create_session :
    SessionAffinity → String → ℕ → ℕ → ℕ → SessionAffinity × Result String SessionError
create_session s id max_sessions ttl now =
    let s' = prune_expired s ttl now in
    if leb max_sessions (length s'.sessions)
    then (s', err (limit_reached max_sessions))
    else (create s' id now, ok id)

unfoldable pub delete_session : SessionAffinity → String → ℕ → ℕ → SessionAffinity × Bool
delete_session s id ttl now = forget (prune_expired s ttl now) id

unfoldable pub kill_session : SessionAffinity → String → ℕ → ℕ → SessionAffinity × Bool
kill_session s id ttl now = kill (prune_expired s ttl now) id

-- What the select of `with_session_cancellation` takes: the kill, if its channel says so, before
-- the result of the work.
unfoldable pub with_session_cancellation {ℓ} : {T : Type ℓ} → List ℕ → Option ℕ → T → Option T
with_session_cancellation killed none work = some work
with_session_cancellation killed (some channel) work =
    if any (λ c. c == channel) killed then none else some work
