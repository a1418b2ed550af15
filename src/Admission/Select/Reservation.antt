-- ===== src/Admission/Select/Reservation.antt =====
-- Bounded backfill: what a waiter that does not fit is counted, and what is reserved for it.
use free_llama.Base.{
  ℕ, suc, ◌≤◌, ◌<◌, ◌≡◌, sym, subst, ◌∙◌, ap, inl, inr, true, false, some, some-injective, arith,
  All, Has, get_elem?, get_elem?-map, take, find_index, find_index_sound, find_index_first,
  find_index-none, find_index_complete, All-get, Has-get, All-imp, Has-imp, leb→le, le→leb,
  Option-cases, saturating_add,
}
use free_llama.Admission.State.{AdmissionState, Waiter, max_capacity_bypasses, free}
use free_llama.Admission.Select.{
  record_bypass, record_capacity_bypasses, is_reserved, fits, choose, reserved, selected_waiter,
}
use free_llama.Admission.Select.Choice.{Takes, selected_waiter-Selects, Selects}

reserved_index :
    (s s' : AdmissionState) (i index : ℕ) (v : Waiter)
    → reserved s (i, v) ≡ (s', some index)
    → index ≡ i
unfolding reserved choose
reserved_index s s' i index v e = ground arith

-- Once a waiter has been passed six times, the only waiter that can be selected is the first such
-- one: nobody else takes the capacity that it waits for.
pub selected_waiter-reserved :
    (s s' : AdmissionState) (index : ℕ) (w : Waiter)
    → Has (λ v. max_capacity_bypasses ≤ v.bypasses) s.waiting
    → selected_waiter s ≡ (s', some index)
    → get_elem? s.waiting index ≡ some w
    → (max_capacity_bypasses ≤ w.bypasses)
      × All (λ v. v.bypasses < max_capacity_bypasses) (take index s.waiting)
unfolding selected_waiter
selected_waiter-reserved s s' index w h e at =
    by_search (find_index_complete is_reserved s.waiting tested)
  where
    tested : Has (λ v. is_reserved v ≡ true) s.waiting
    tested = Has-imp _ _ (λ v hv. le→leb _ _ hv) s.waiting h

    not_yet : (v : Waiter) → is_reserved v ≡ false → v.bypasses < max_capacity_bypasses
    not_yet v hv = ground arith

    at_index :
        (i : ℕ) (v : Waiter)
        → find_index is_reserved s.waiting ≡ some (i, v)
        → index ≡ i
        → (max_capacity_bypasses ≤ w.bypasses)
          × All (λ v. v.bypasses < max_capacity_bypasses) (take index s.waiting)
    at_index i v f same =
        let (there, is, _) = find_index_sound is_reserved s.waiting i v f in
        (
          leb→le _ _ (
              subst (λ u. is_reserved u ≡ true)
                (some-injective _ _ (sym there ∙ ap (get_elem? s.waiting) (sym same) ∙ at)) is),
          All-imp _ _ not_yet _ (
              subst (λ k. All (λ b. is_reserved b ≡ false) (take k s.waiting)) (sym same)
                (find_index_first is_reserved s.waiting i v f)),
        )

    by_search :
        (i : ℕ) × (v : Waiter) × (find_index is_reserved s.waiting ≡ some (i, v))
        → (max_capacity_bypasses ≤ w.bypasses)
          × All (λ v. v.bypasses < max_capacity_bypasses) (take index s.waiting)
    by_search (i, v, f) =
        at_index i v f (reserved_index s s' i index v (rw (f, selected_waiter) at e))

none_reserved :
    (s s' : AdmissionState) (index : ℕ) (w : Waiter)
    → selected_waiter s ≡ (s', some index)
    → get_elem? s.waiting index ≡ some w
    → w.bypasses < max_capacity_bypasses
    → All (λ v. is_reserved v ≡ false) s.waiting
none_reserved s s' index w e at low = elim (Option-cases (find_index is_reserved s.waiting)) [
  | inl none_found ↦ find_index-none is_reserved s.waiting none_found
  | inr ((i, v), f) ↦
      let (there, is, _) = find_index_sound is_reserved s.waiting i v f in
      let held : Has (λ u. max_capacity_bypasses ≤ u.bypasses) s.waiting =
        Has-get _ s.waiting i v there (leb→le _ _ is) in
      absurd (omega (arith, (selected_waiter-reserved s s' index w held e at).0))
]

-- A waiter that does not fit is counted by every selection, since a selection has a free unit.
record_bypass_counts :
    (s : AdmissionState) (v w : Waiter)
    → fits s w ≡ true
    → fits s v ≡ false
    → v.bypasses < max_capacity_bypasses
    → record_bypass (free s) s.limit v ≡ record v { bypasses = suc v.bypasses }
unfolding record_bypass saturating_add
record_bypass_counts s v w room no_room low = ground arith

-- A selection of a waiter that has no reservation passes every waiter that does not fit: each had
-- been passed fewer than six times, and its count goes up by one. So six selections at most pass a
-- waiter before the capacity is reserved for it.
selected_waiter-backfill :
    (s s' : AdmissionState) (index : ℕ) (w : Waiter)
    → selected_waiter s ≡ (s', some index)
    → get_elem? s.waiting index ≡ some w
    → w.bypasses < max_capacity_bypasses
    → (j : ℕ) (v : Waiter) → get_elem? s.waiting j ≡ some v
    → fits s v ≡ false
    → (v.bypasses < max_capacity_bypasses)
      × (get_elem? s'.waiting j ≡ some (record v { bypasses = suc v.bypasses }))
unfolding record_capacity_bypasses
selected_waiter-backfill s s' index w e at low j v there no_room = (few, counted)
  where
    takes : Takes s s' index
    takes = subst (Selects s) e (selected_waiter-Selects s)

    unreserved : (u : Waiter) → is_reserved u ≡ false → u.bypasses < max_capacity_bypasses
    unreserved u h = ground arith

    few : v.bypasses < max_capacity_bypasses
    few = unreserved v (All-get _ s.waiting j v (none_reserved s s' index w e at low) there)

    counted : get_elem? s'.waiting j ≡ some (record v { bypasses = suc v.bypasses })
    counted =
        ap (λ (t : AdmissionState). get_elem? t.waiting j) takes.frame
        ∙ get_elem?-map (record_bypass (free s) s.limit) s.waiting j v there
        ∙ ap some (record_bypass_counts s v takes.waiter takes.room no_room few)
