-- ===== src/Residency/Safety.antt =====
-- Which runners a plan unloads, and that they free the shortfall where they can
-- (packages/rust-core/src/platform/residency.rs, `plan`).
use Prim.Native.Nat.{Ordering}
use text.Mathlib.Text.{starts_with}
use free_llama.Base.{
  u64_max, ℕ, ◌+◌, ◌/◌, ◌%◌, min, ◌<◌, ◌≡◌, refl, inl, inr, false, List, [], ◌∷◌, Option, none,
  some, String, same_text, ltb, leb, length, ◌==◌, arith, All, Bool-cases,
}
use free_llama.Residency.{
  Context, Candidate, PlanInputs, PsEntry, Sorted, reason_kept, pinned_expiry, bytes_freed,
  sort_entry, sort_named, sort_entries,
}
use free_llama.Residency.Victims.{
  chosen_by, insert_by, sort_by, is_lt, take_needed, greedy_covering_set, sum_bytes,
  cheapest_covering_set, set_of_best, choose_victims, plan,
}

module _ (P : Candidate → Type 0) where
  insert_by-All :
      (cmp : Candidate → Candidate → Ordering) (x : Candidate) (ys : List Candidate)
      → P x
      → All P ys
      → All P (insert_by cmp x ys)
  insert_by-All cmp x [] p h = (p, tt)
  insert_by-All cmp x (y ∷ ys) p h = elim (Bool-cases (is_lt (cmp y x))) [
    | inl e ↦ rw e (h.0, insert_by-All cmp x ys p h.1)
    | inr e ↦ rw e (p, h)
  ]

  sort_by-All :
      (cmp : Candidate → Candidate → Ordering) (xs : List Candidate)
      → All P xs
      → All P (sort_by cmp xs)
  unfolding sort_by
  sort_by-All cmp [] h = h
  sort_by-All cmp (x ∷ xs) h = insert_by-All cmp x (sort_by cmp xs) h.0 (sort_by-All cmp xs h.1)

  chosen_by-All : (mask : ℕ) (xs : List Candidate) → All P xs → All P (chosen_by mask xs)
  unfolding chosen_by
  chosen_by-All mask [] h = h
  chosen_by-All mask (x ∷ xs) h = elim (Bool-cases (mask % 2 == 1)) [
    | inl e ↦ rw e (h.0, chosen_by-All (mask / 2) xs h.1)
    | inr e ↦ rw e (chosen_by-All (mask / 2) xs h.1)
  ]

  take_needed-All :
      (shortfall freed : ℕ) (xs : List Candidate)
      → All P xs
      → All P (take_needed shortfall freed xs)
  unfolding take_needed
  take_needed-All shortfall freed [] h = h
  take_needed-All shortfall freed (x ∷ xs) h = elim (Bool-cases (ltb freed shortfall)) [
    | inl e ↦ rw e (h.0, take_needed-All shortfall (min (freed + x.bytes) u64_max) xs h.1)
    | inr e ↦ rw e tt
  ]

  set_of_best-All : (o : _) (xs : List Candidate) → All P xs → All P (set_of_best xs o)
  set_of_best-All none xs h = tt
  set_of_best-All (some (k, mask)) xs h = chosen_by-All mask xs h

  choose_victims-All :
      (c : Context) (xs : List Candidate) (shortfall : ℕ)
      → All P xs
      → All P (choose_victims c xs shortfall)
  unfolding choose_victims greedy_covering_set cheapest_covering_set
  choose_victims-All c xs shortfall h = elim (Bool-cases (shortfall == 0)) [
    | inl e ↦ rw e tt
    | inr e ↦ elim (Bool-cases (ltb (sum_bytes xs) shortfall)) [
      | inl f ↦ rw (e, f) h
      | inr f ↦ elim (Bool-cases (leb (length xs) 14)) [
        | inl g ↦ rw (e, f, g) (set_of_best-All _ xs h)
        | inr g ↦ rw (e, f, g) (take_needed-All shortfall 0 _ (sort_by-All _ xs h))
      ]
    ]
  ]

-- A runner that a plan may unload.
pub record Idle (c : Context) (inputs : PlanInputs) (x : Candidate) : Type 0 where
  pub not_target : same_text x.name inputs.keep ≡ false
  pub not_pinned : inputs.pinned x.name ≡ false
  pub not_forever : pinned_expiry c x.expires_at ≡ false
  pub not_loading : starts_with x.expires_at "0001-" ≡ false
  pub not_busy : (c.usage x.name).active ≡ 0
  pub frees : 0 < x.bytes

module _ (c : Context) (inputs : PlanInputs) where
  reason_kept-none :
      (name expires_at : String)
      → reason_kept c inputs name expires_at ≡ none
      → (same_text name inputs.keep ≡ false)
        × (inputs.pinned name ≡ false)
        × (pinned_expiry c expires_at ≡ false)
        × (starts_with expires_at "0001-" ≡ false)
        × ((c.usage name).active ≡ 0)
  unfolding reason_kept
  reason_kept-none name expires_at h = ground arith

  sort_entry-Idle :
      (entry : PsEntry) (name : String) (reason : Option String) (rest : Sorted)
      → reason_kept c inputs name entry.expires_at ≡ reason
      → All (Idle c inputs) rest.candidates
      → All (Idle c inputs) (sort_entry c inputs entry name reason rest).candidates
  sort_entry-Idle entry name (some reason) rest e h =
      elim (Bool-cases (same_text name inputs.keep)) [ inl f ↦ rw f h | inr f ↦ rw f h ]
  sort_entry-Idle entry name none rest e h =
      let (target, pinned, forever, loading, busy) = reason_kept-none name entry.expires_at e in
      elim (Bool-cases (bytes_freed inputs.freed entry == 0)) [
        | inl f ↦ rw f h
        | inr f ↦ rw f (
          record {
            not_target = target;
            not_pinned = pinned;
            not_forever = forever;
            not_loading = loading;
            not_busy = busy;
            frees = ground arith;
          },
          h,
        )
      ]

  sort_named-Idle :
      (entry : PsEntry) (name : Option String) (rest : Sorted)
      → All (Idle c inputs) rest.candidates
      → All (Idle c inputs) (sort_named c inputs entry name rest).candidates
  sort_named-Idle entry none rest h = h
  sort_named-Idle entry (some name) rest h = sort_entry-Idle entry name _ rest refl h

  sort_entries-Idle :
      (ps : List PsEntry) → All (Idle c inputs) (sort_entries c inputs ps).candidates
  unfolding sort_entries
  sort_entries-Idle [] = tt
  sort_entries-Idle (entry ∷ ps) =
      sort_named-Idle entry entry.name (sort_entries c inputs ps) (sort_entries-Idle ps)

  -- A plan unloads idle runners only: not the target, a pinned model, one that is kept for ever or
  -- is still loading, nor one with tasks routed to it; and each frees memory of the needed kind.
  pub plan-Idle : (ps : List PsEntry) → All (Idle c inputs) (plan ps c inputs).victims
  unfolding plan
  plan-Idle ps = sort_by-All (Idle c inputs) _ _ (
      choose_victims-All (Idle c inputs) c (sort_entries c inputs ps).candidates inputs.shortfall
        (sort_entries-Idle ps))
