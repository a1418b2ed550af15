-- ===== src/Scopes/Append/Runs.antt =====
-- The messages of the scopes over every history (packages/rust-core/src/platform/scopes.rs).
use free_llama.Base.{
  ℕ, ◌≤◌, ◌<◌, ◌≡◌, ◌∙◌, refl, sym, subst, inl, inr, Bool, false, List, [], ◌∷◌, Option, none, some,
  some-injective, String, same_text, get_elem?, arith, Option-cases, lookup, Result, ok, err, All,
  All-imp, All-get, All-remove_at,
}
use free_llama.Scopes.{ScopePolicy, ScopeError, Message}
use free_llama.Scopes.Store.{History, Entries}
use free_llama.Scopes.Lease.{ScopeLease, Prepared}
use free_llama.Scopes.Commit.{Response}
use free_llama.Scopes.Histories.{
  ScopeState, ScopeEvent, creates, gets, forks, deletes, prepares, commits, drops, add_lease, hold,
  commit_held, drop_held, scope_step, scope_run,
}
use free_llama.Scopes.Append.{
  Grows, Grows-refl, Grows-trans, Change, kept, changed, new, nothing_new, Unique,
}
use free_llama.Scopes.Append.Changes.{Change-refl}
use free_llama.Scopes.Append.Growth.{
  Done, create-Done, fork-Done, get-Done, delete-Done, release-Done,
}
use free_llama.Scopes.Append.Commits.{Guards, Guards-Change, commit-Kept}
use free_llama.Scopes.Append.Leases.{TakenFrom, prepare-Taken}

-- The id that an event creates a history at, which is a fresh UUID.
abbrev pub creates_at : ScopeEvent → String → Bool
creates_at (creates id input now) other = same_text id other
creates_at (forks id new_id input now) other = same_text new_id other
creates_at (gets id now) other = false
creates_at (deletes id now) other = false
creates_at (prepares input now) other = false
creates_at (commits k r now) other = false
creates_at (drops k) other = false

-- The id of a new history is not in use.
abbrev pub IsNew : Entries → ScopeEvent → Type 0
IsNew es (creates id input now) = lookup id es ≡ none
IsNew es (forks id new_id input now) = lookup new_id es ≡ none
IsNew es (gets id now) = Unit
IsNew es (deletes id now) = Unit
IsNew es (prepares input now) = Unit
IsNew es (commits k r now) = Unit
IsNew es (drops k) = Unit

-- Each key stands once, leases have older ids than the next, and each begins with its history.
pub record Owned (s : ScopeState) : Type 0 where
  pub unique : Unique s.entries
  pub older : All (λ l. l.lease_id < s.next_lease) s.leases
  pub guards : All (λ l. Guards s.entries l) s.leases

module _ (json_bytes : List Message → ℕ) (policy : ScopePolicy) where
  -- An owned state whose entries came from those before by changes.
  abbrev pub Stepped : (String → Bool) → ScopeState → ScopeState → Type 0
  Stepped created s t = Change s.next_lease created s.entries t.entries × Owned t

  Guards-leases :
      (created : String → Bool) (n : ℕ) (es fs : Entries) (leases : List ScopeLease)
      → Change n created es fs
      → All (λ l. l.lease_id < n) leases
      → All (λ l. Guards es l) leases
      → All (λ l. Guards fs l) leases
  Guards-leases created n es fs [] c older g = tt
  Guards-leases created n es fs (l ∷ leases) c older g = (
    Guards-Change json_bytes policy n created es fs l older.0 c g.0,
    Guards-leases created n es fs leases c older.1 g.1,
  )

  entries_step :
      (created : String → Bool) (s : ScopeState) (fs : Entries)
      → Owned s
      → Done json_bytes policy s.next_lease created s.entries fs
      → Stepped created s (record s { entries = fs })
  entries_step created s fs inv (c, u) = (
    c,
    record {
      unique = u;
      older = inv.older;
      guards = Guards-leases created s.next_lease s.entries fs s.leases c inv.older inv.guards;
    },
  )

  commit_held-Stepped :
      (s : ScopeState) (k : ℕ) (o : Option ScopeLease) (r : Response) (now : ℕ)
      → get_elem? s.leases k ≡ o
      → Owned s
      → Stepped nothing_new s (commit_held json_bytes policy s k o r now)
  commit_held-Stepped s k none r now e inv = (Change-refl s.next_lease nothing_new s.entries, inv)
  commit_held-Stepped s k (some l) r now e inv =
      let (c, u) =
        commit-Kept json_bytes policy s.next_lease s.entries l r now
          (All-get _ s.leases k l inv.older e) (All-get _ s.leases k l inv.guards e) inv.unique in
      (
        c,
        record {
          unique = u;
          older = All-remove_at _ s.leases k inv.older;
          guards =
              All-remove_at _ s.leases k (
                Guards-leases nothing_new s.next_lease s.entries _ s.leases c inv.older inv.guards);
        },
      )

  drop_held-Stepped :
      (s : ScopeState) (k : ℕ) (o : Option ScopeLease)
      → Owned s
      → Stepped nothing_new s (drop_held json_bytes policy s k o)
  drop_held-Stepped s k none inv = (Change-refl s.next_lease nothing_new s.entries, inv)
  drop_held-Stepped s k (some l) inv =
      let (c, u) = release-Done json_bytes policy s.next_lease s.entries l inv.unique in
      (
        c,
        record {
          unique = u;
          older = All-remove_at _ s.leases k inv.older;
          guards =
              All-remove_at _ s.leases k (
                Guards-leases nothing_new s.next_lease s.entries _ s.leases c inv.older inv.guards);
        },
      )

  add_lease-Owned :
      (p : Prepared) (o : Result (Option ScopeLease) ScopeError) (leases : List ScopeLease)
      → TakenFrom json_bytes policy 0 p o
      → All (λ l. l.lease_id < p.next_lease) leases
      → All (λ l. Guards p.entries l) leases
      → All (λ l. l.lease_id < p.next_lease) (add_lease o leases)
        × All (λ l. Guards p.entries l) (add_lease o leases)
  add_lease-Owned p (err e) leases t older g = (older, g)
  add_lease-Owned p (ok none) leases t older g = (older, g)
  add_lease-Owned p (ok (some l)) leases t older g = ((t.0, older), (t.1, g))

  prepare-Stepped :
      (s : ScopeState) (p : Prepared)
      → Owned s
      → Done json_bytes policy s.next_lease nothing_new s.entries p.entries
      → s.next_lease ≤ p.next_lease
      → TakenFrom json_bytes policy 0 p p.lease
      → Stepped nothing_new s (hold json_bytes policy s p)
  prepare-Stepped s p inv (c, u) le t =
      let (older, g) =
        add_lease-Owned p p.lease s.leases t (All-imp _ _ (λ l lt. omega arith) s.leases inv.older)
          (Guards-leases nothing_new s.next_lease s.entries p.entries s.leases c inv.older
            inv.guards) in
      (c, record { unique = u; older = older; guards = g })

  scope_step-Stepped :
      (s : ScopeState) (e : ScopeEvent)
      → Owned s
      → IsNew s.entries e
      → Stepped (creates_at e) s (scope_step json_bytes policy s e)
  unfolding scope_step
  scope_step-Stepped s (creates id input now) inv f =
      entries_step (same_text id) s _ inv
        (create-Done json_bytes policy s.next_lease s.entries id input now inv.unique f)
  scope_step-Stepped s (gets id now) inv f =
      entries_step nothing_new s _ inv
        (get-Done json_bytes policy s.next_lease s.entries id now inv.unique)
  scope_step-Stepped s (forks id new_id input now) inv f =
      entries_step (same_text new_id) s _ inv
        (fork-Done json_bytes policy s.next_lease s.entries id new_id input now inv.unique f)
  scope_step-Stepped s (deletes id now) inv f =
      entries_step nothing_new s _ inv
        (delete-Done json_bytes policy s.next_lease s.entries id now inv.unique)
  scope_step-Stepped s (prepares input now) inv f =
      let (c, le, t) =
        prepare-Taken json_bytes policy s.next_lease s.entries input now inv.unique in
      prepare-Stepped s _ inv c le t
  scope_step-Stepped s (commits k r now) inv f =
      commit_held-Stepped s k (get_elem? s.leases k) r now refl inv
  scope_step-Stepped s (drops k) inv f = drop_held-Stepped s k (get_elem? s.leases k) inv

  -- The ids of new histories are fresh at each event, and none of them is `id`.
  abbrev pub AreNew : String → ScopeState → List ScopeEvent → Type 0
  AreNew id s [] = Unit
  AreNew id s (e ∷ events) =
      IsNew s.entries e
      × (creates_at e id ≡ false)
      × AreNew id (scope_step json_bytes policy s e) events

  scope_step-Grows :
      (id : String) (s : ScopeState) (e : ScopeEvent) (h k : History)
      → Owned s
      → IsNew s.entries e
      → creates_at e id ≡ false
      → lookup id s.entries ≡ some h
      → lookup id (scope_step json_bytes policy s e).entries ≡ some k
      → Grows h k
  scope_step-Grows id s e h k inv f c found after =
      elim ((scope_step-Stepped s e inv f).0 id k after) [
        | kept q ↦ subst (Grows h) (some-injective _ _ (sym found ∙ q)) (Grows-refl h)
        | changed x q g free ↦ subst (λ y. Grows y k) (some-injective _ _ (sym q ∙ found)) g
        | new t q free ↦ cc
      ]

  scope_step-gone :
      (id : String) (s : ScopeState) (e : ScopeEvent)
      → Owned s
      → IsNew s.entries e
      → creates_at e id ≡ false
      → lookup id s.entries ≡ none
      → lookup id (scope_step json_bytes policy s e).entries ≡ none
  scope_step-gone id s e inv f c gone =
      elim (Option-cases (lookup id (scope_step json_bytes policy s e).entries)) [
        | inl q ↦ q
        | inr (k, q) ↦ elim ((scope_step-Stepped s e inv f).0 id k q) [
          | kept r ↦ cc
          | changed x r g free ↦ cc
          | new t r free ↦ cc
        ]
      ]

  scope_run-gone :
      (id : String) (events : List ScopeEvent) (s : ScopeState)
      → Owned s
      → AreNew id s events
      → lookup id s.entries ≡ none
      → lookup id (scope_run json_bytes policy s events).entries ≡ none
  scope_run-gone id [] s inv f gone = gone
  scope_run-gone id (e ∷ events) s inv f gone =
      scope_run-gone id events (scope_step json_bytes policy s e) (scope_step-Stepped s e inv f.0).1
        f.2 (scope_step-gone id s e inv f.0 f.1 gone)

  -- Over any events that create no history at an id, in any interleaving of the handlers and of the
  -- tasks that hold leases, from an owned state and with fresh ids for new histories: a history of
  -- that id that is there before and after has a revision that is no smaller and messages that
  -- begin with the earlier ones, and at the same revision they are the same.
  pub scope_run-Grows :
      (id : String) (events : List ScopeEvent) (s : ScopeState) (h k : History)
      → Owned s
      → AreNew id s events
      → lookup id s.entries ≡ some h
      → lookup id (scope_run json_bytes policy s events).entries ≡ some k
      → Grows h k
  scope_run-Grows id [] s h k inv f found after =
      subst (Grows h) (some-injective _ _ (sym found ∙ after)) (Grows-refl h)
  scope_run-Grows id (e ∷ events) s h k inv f found after =
      let t = scope_step json_bytes policy s e in
      let owned = (scope_step-Stepped s e inv f.0).1 in
      elim (Option-cases (lookup id t.entries)) [
        | inl q ↦ cc (scope_run-gone id events t owned f.2 q)
        | inr (x, q) ↦
            Grows-trans h x k (scope_step-Grows id s e h x inv f.0 f.1 found q)
              (scope_run-Grows id events t x k owned f.2 q after)
      ]
