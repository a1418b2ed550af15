-- ===== src/Scopes/Histories.antt =====
-- The store and the leases that tasks hold, in any order of the handlers and the tasks' ends
-- (packages/rust-core/src/platform/scopes.rs).
use free_llama.Base.{
  ℕ, List, [], ◌∷◌, Option, none, some, String, get_elem?, remove_at, Result, ok, err,
}
use free_llama.Scopes.{ScopePolicy, ScopeError, Message}
use free_llama.Scopes.Store.{Entries, CreateInput, ForkInput, create, fork, get, delete}
use free_llama.Scopes.Lease.{TaskInput, ScopeLease, Prepared, prepare}
use free_llama.Scopes.Commit.{Response, commit, release}

pub record ScopeState : Type 0 where
  pub entries : Entries
  pub next_lease : ℕ
  pub leases : List ScopeLease

abbrev pub no_scopes : ScopeState
no_scopes = record { entries = []; next_lease = 0; leases = [] }

-- What happens to the scopes, with the time and, for a commit or drop, which lease of those held.
pub data ScopeEvent : Type 0 where
  creates : String → CreateInput → ℕ → ScopeEvent
  gets : String → ℕ → ScopeEvent
  forks : String → String → ForkInput → ℕ → ScopeEvent
  deletes : String → ℕ → ScopeEvent
  prepares : TaskInput → ℕ → ScopeEvent
  commits : ℕ → Response → ℕ → ScopeEvent
  drops : ℕ → ScopeEvent

abbrev pub add_lease : Result (Option ScopeLease) ScopeError → List ScopeLease → List ScopeLease
add_lease (err e) leases = leases
add_lease (ok none) leases = leases
add_lease (ok (some l)) leases = l ∷ leases

module _ (json_bytes : List Message → ℕ) (policy : ScopePolicy) where
  abbrev pub hold : ScopeState → Prepared → ScopeState
  hold s p = record {
    entries = p.entries;
    next_lease = p.next_lease;
    leases = add_lease p.lease s.leases;
  }

  abbrev pub commit_held : ScopeState → ℕ → Option ScopeLease → Response → ℕ → ScopeState
  commit_held s k none r now = s
  commit_held s k (some l) r now = record s {
    entries = (commit json_bytes s.entries l r policy now).0;
    leases = remove_at s.leases k;
  }

  abbrev pub drop_held : ScopeState → ℕ → Option ScopeLease → ScopeState
  drop_held s k none = s
  drop_held s k (some l) = record s { entries = release s.entries l; leases = remove_at s.leases k }

  unfoldable pub scope_step : ScopeState → ScopeEvent → ScopeState
  scope_step s (creates id input now) = record s {
    entries = (create json_bytes s.entries id input policy now).0;
  }
  scope_step s (gets id now) = record s { entries = (get s.entries id policy now).0 }
  scope_step s (forks id new_id input now) = record s {
    entries = (fork json_bytes s.entries id new_id input policy now).0;
  }
  scope_step s (deletes id now) = record s { entries = (delete s.entries id policy now).0 }
  scope_step s (prepares input now) =
      hold s (prepare json_bytes s.entries s.next_lease input policy now)
  scope_step s (commits k r now) = commit_held s k (get_elem? s.leases k) r now
  scope_step s (drops k) = drop_held s k (get_elem? s.leases k)

  abbrev pub scope_run : ScopeState → List ScopeEvent → ScopeState
  scope_run s [] = s
  scope_run s (e ∷ events) = scope_run (scope_step s e) events
