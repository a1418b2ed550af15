-- ===== src/Scopes/Append/Leases.antt =====
-- A new lease and the history that it is taken of
-- (packages/rust-core/src/platform/scopes.rs, `prepare`).
use text.Mathlib.TextEquality.{eq_iff}
use free_llama.Base.{
  ℕ, ◌≤◌, ◌<◌, ◌≡◌, refl, subst, inl, inr, true, false, not, List, ◌++◌, Option, none, some, String,
  same_text, ◌==◌, is_some, arith, Bool-cases, Option-cases, lookup, Result, ok, err,
}
use free_llama.Routing.{RouteInput}
use free_llama.Scopes.{
  ScopePolicy, ScopeError, Message, bounded, validate_messages, validate_size, apply,
}
use free_llama.Scopes.Store.{History, Entries, prune}
use free_llama.Scopes.Lease.{
  TaskInput, ScopeLease, Prepared, additions, take_lease, lease_messages, prepare_route,
  prepare_found, prepare_named, prepare,
}
use free_llama.Scopes.Append.{IsPrefix, IsPrefix-refl, nothing_new, Unique}
use free_llama.Scopes.Append.Changes.{
  Change-then, prune-Change, insert-changed, inserted, prune-Unique, insert-Unique,
}
use free_llama.Scopes.Append.Commits.{Guards, Kept, Kept-refl}

module _ (json_bytes : List Message → ℕ) (policy : ScopePolicy) (n : ℕ) where
  -- The lease that was taken, where one was.
  abbrev pub TakenFrom : Prepared → Result (Option ScopeLease) ScopeError → Type 0
  TakenFrom p (err e) = Unit
  TakenFrom p (ok none) = Unit
  TakenFrom p (ok (some l)) = (l.lease_id < p.next_lease) × Guards p.entries l

  abbrev pub Taken : Entries → Prepared → Type 0
  Taken es p = Kept json_bytes policy n es p.entries × (n ≤ p.next_lease) × TakenFrom p p.lease

  abbrev Begins : History → Result (List Message) ScopeError → Type 0
  Begins h (err e) = Unit
  Begins h (ok messages) = IsPrefix h.messages messages

  lease_messages-prefix :
      (h : History) (added : Result (List Message) ScopeError)
      → Begins h (lease_messages json_bytes h policy added)
  lease_messages-prefix h (err e) = tt
  lease_messages-prefix h (ok added) = elim (Option-cases (validate_messages added)) [
    | inr (x, a) ↦ rw a tt
    | inl a ↦
        elim (Option-cases
          (validate_size json_bytes (h.messages ++ added) (bounded h.limits policy))) [
            | inr (x, b) ↦ rw (a, b) tt
            | inl b ↦ rw (a, b) (added, refl)
          ]
  ]

  -- The history that a lease was just taken of begins the lease's messages.
  own-prefix :
      (id : String) (h k : History) (messages : List Message) (x : History) (live : Entries)
      → (same_text id id ≡ true → k ≡ x) × (same_text id id ≡ false → lookup id live ≡ some x)
      → IsPrefix k.messages messages
      → IsPrefix x.messages messages
  own-prefix id h k messages x live (same, others) p =
      subst (λ y. IsPrefix y.messages messages) (same ((eq_iff id id).1 refl)) p

  take_lease-Taken :
      (live : Entries) (id : String) (h : History) (route : RouteInput)
      (messages : Result (List Message) ScopeError)
      → lookup id live ≡ some h
      → Begins h messages
      → Unique live
      → Taken live (take_lease live n id h route messages)
  take_lease-Taken live id h route (err e) found p unique =
      (Kept-refl json_bytes policy n live unique, omega arith, tt)
  take_lease-Taken live id h route (ok messages) found p unique =
      let k : History = record h { lease = some n } in
      (
        (
          insert-changed n id h k live found
              (record {
                later = omega arith;
                extends = IsPrefix-refl h.messages;
                settled = inr refl;
              })
              (ground arith),
          insert-Unique id k live unique,
        ),
        omega arith,
        (
          omega arith,
          λ x e holds. own-prefix id h k messages x live (inserted n id id k x live e) p,
        ),
      )

  prepare_route-Taken :
      (live : Entries) (id : String) (h : History) (input : TaskInput)
      (route : Result RouteInput ScopeError)
      → lookup id live ≡ some h
      → Unique live
      → Taken live (prepare_route json_bytes live n id h input policy route)
  prepare_route-Taken live id h input (err e) found unique =
      (Kept-refl json_bytes policy n live unique, omega arith, tt)
  prepare_route-Taken live id h input (ok route) found unique =
      take_lease-Taken live id h route _ found
        (lease_messages-prefix h (additions input.messages input.prompt)) unique

  prepare_found-Taken :
      (live : Entries) (id : String) (revision : ℕ) (o : Option History) (input : TaskInput)
      → lookup id live ≡ o
      → Unique live
      → Taken live (prepare_found json_bytes live n id revision o input policy)
  prepare_found-Taken live id revision none input found unique =
      (Kept-refl json_bytes policy n live unique, omega arith, tt)
  prepare_found-Taken live id revision (some h) input found unique =
      elim (Bool-cases (not (h.revision == revision))) [
        | inl a ↦ rw a (Kept-refl json_bytes policy n live unique, omega arith, tt)
        | inr a ↦ elim (Bool-cases (is_some h.lease)) [
          | inl b ↦ rw (a, b) (Kept-refl json_bytes policy n live unique, omega arith, tt)
          | inr b ↦
              rw (a, b)
                (prepare_route-Taken live id h input
                  (apply h.defaults input.route_fields input.route) found unique)
        ]
      ]

  prepare_named-Taken :
      (es : Entries) (id : Option String) (revision : Option ℕ) (input : TaskInput) (now : ℕ)
      → Unique es
      → Taken es (prepare_named json_bytes es n id revision input policy now)
  prepare_named-Taken es none none input now unique =
      (Kept-refl json_bytes policy n es unique, omega arith, tt)
  prepare_named-Taken es none (some revision) input now unique =
      (Kept-refl json_bytes policy n es unique, omega arith, tt)
  prepare_named-Taken es (some id) none input now unique =
      (Kept-refl json_bytes policy n es unique, omega arith, tt)
  prepare_named-Taken es (some id) (some revision) input now unique =
      elim (Bool-cases input.has_input) [
        | inl a ↦ simp a (Kept-refl json_bytes policy n es unique, omega arith, tt)
        | inr a ↦
            let live = prune policy now es in
            let ((c, u), le, taken) =
              prepare_found-Taken live id revision (lookup id live) input refl
                (prune-Unique policy now es unique) in
            simp a (
              (Change-then n nothing_new es live _ (prune-Change n policy now es unique) c, u),
              le,
              taken,
            )
      ]

  pub prepare-Taken :
      (es : Entries) (input : TaskInput) (now : ℕ)
      → Unique es
      → Taken es (prepare json_bytes es n input policy now)
  unfolding prepare
  prepare-Taken es input now unique =
      prepare_named-Taken es input.scope_id input.scope_revision input now unique
