-- ===== src/Runtime/Adaptive/Streak.antt =====
-- The streak of the limiter and the completions that it counts
-- (platform/runtime/adaptive.rs).
use free_llama.Base.{
  subst, ℕ, suc, ◌+◌, ◌≤◌, ◌≡◌, ◌∙◌, ap, true, false, ◌&&◌, List, [], ◌∷◌, Option, none, some,
  String, arith, saturating_add, Option-cases, Bool-cases, inl, inr, if◌then◌else◌, leb, ltb,
}
use text.Mathlib.Text.{◌==◌}
use text.Mathlib.TextEquality.{eq_iff}
use text.Mathlib.TextPositions.{eq_refl}
use free_llama.Runtime.Profile.{
  Rates, AdaptiveState, Reason, Completion, ExecutionProfile, ThroughputMetric,
}
use free_llama.Runtime.Adaptive.{
  is_recent, reduce, raise, accept, observe, reset_healthy_streak, valid_metric, count_healthy,
  reason_of, is_last, slow,
}
use free_llama.Admission.State.{AdmissionState}
use free_llama.Runtime.Adaptive.Healthy.{
  Entry, seen, abandoned, healthy, healthy_id, no_reason, no_slow, healthy_id-some,
}

module _ (rates : Rates) where
  -- The limiter after the entries, the last first.
  abbrev pub after : AdaptiveState rates → List (Entry rates) → AdaptiveState rates
  after state [] = state
  after state (seen pool now c ∷ past) = (observe rates (after state past) pool c now).0
  after state (abandoned ∷ past) = reset_healthy_streak rates (after state past)

  -- How many of the latest entries, the last first, are healthy completions of the profile.
  abbrev pub in_a_row : AdaptiveState rates → String → List (Entry rates) → ℕ
  in_a_row start id [] = 0
  in_a_row start id (entry ∷ past) =
      let rest = in_a_row start id past in
      if is_last (healthy rates (after start past) entry) id then suc rest else 0

  abbrev pub row_of : AdaptiveState rates → Option String → List (Entry rates) → ℕ
  row_of start none past = 0
  row_of start (some id) past = in_a_row start id past

  -- The streak is no longer than the row of entries that it counts.
  abbrev pub Counted : AdaptiveState rates → AdaptiveState rates → List (Entry rates) → Type 0
  Counted start state past = state.healthy_streak ≤ row_of start state.last_profile past

counted_once :
    (rates : Rates) (start : AdaptiveState rates) (entry : Entry rates) (past : List (Entry rates))
    (id : String) (streak : ℕ) (last : Option String)
    → healthy rates (after rates start past) entry ≡ some id
    → streak ≤ row_of rates start last past
    → (if is_last last id then streak else 0) + 1 ≤ in_a_row rates start id (entry ∷ past)
counted_once rates start entry past id streak none h v = rw (h, eq_refl id) (omega arith)
counted_once rates start entry past id streak (some last) h v = elim (Bool-cases (last == id)) [
  | inl same ↦
      let e : last ≡ id = (eq_iff last id).0 same in
      let v' : streak ≤ in_a_row rates start id past =
        subst (λ i. streak ≤ in_a_row rates start i past) e v in
      rw (h, same, eq_refl id) (omega arith)
  | inr other ↦ rw (h, other, eq_refl id) (omega arith)
]

pub is_last-eq : (last : Option String) (id : String) → is_last last id ≡ true → last ≡ some id
is_last-eq none id e = cc
is_last-eq (some last) id e = ap some ((eq_iff last id).0 e)

pub count_healthy-Counted :
    (rates : Rates) (start state : AdaptiveState rates) (entry : Entry rates)
    (past : List (Entry rates)) (profile : ExecutionProfile) (tps : rates.F)
    → healthy rates (after rates start past) entry ≡ some profile.id
    → Counted rates start state past
    → Counted rates start (count_healthy rates state profile tps) (entry ∷ past)
unfolding count_healthy saturating_add
count_healthy-Counted rates start state entry past profile tps h v =
    let once =
      counted_once rates start entry past profile.id state.healthy_streak state.last_profile h v in
    elim (Bool-cases (is_last state.last_profile profile.id)) [
      | inl e ↦
          let same = is_last-eq state.last_profile profile.id e in
          let once' : state.healthy_streak + 1 ≤ in_a_row rates start profile.id (entry ∷ past) =
            subst
              (λ b.
                (if b then state.healthy_streak else 0) + 1
                ≤ in_a_row rates start profile.id (entry ∷ past))
              e once in
          let row : row_of rates start state.last_profile (entry ∷ past)
              ≡ in_a_row rates start profile.id (entry ∷ past) =
            ap (λ o. row_of rates start o (entry ∷ past)) same in
          rw e (omega (arith, once', row))
      | inr e ↦
          let once' : 0 + 1 ≤ in_a_row rates start profile.id (entry ∷ past) =
            subst
              (λ b.
                (if b then state.healthy_streak else 0) + 1
                ≤ in_a_row rates start profile.id (entry ∷ past))
              e once in
          rw e (omega (arith, once'))
    ]

raise-Counted :
    (rates : Rates) (start state : AdaptiveState rates) (pool : AdmissionState)
    (past : List (Entry rates))
    → Counted rates start state past
    → Counted rates start (raise rates state pool).0 past
unfolding raise
raise-Counted rates start state pool past v =
    elim (Bool-cases (leb 5 state.healthy_streak && ltb pool.limit pool.ceiling)) [
      | inl e ↦ rw e (omega arith)
      | inr e ↦ rw e v
    ]

reduce-Counted :
    (rates : Rates) (start state : AdaptiveState rates) (pool : AdmissionState)
    (reason : Reason rates) (now : ℕ) (past : List (Entry rates))
    → Counted rates start (reduce rates state pool reason now).0 past
unfolding reduce
reduce-Counted rates start state pool reason now past =
    elim (Bool-cases (is_recent state.last_decrease now)) [
      | inl e ↦ rw e (omega arith)
      | inr e ↦ rw e (omega arith)
    ]

accept-Counted :
    (rates : Rates) (start state : AdaptiveState rates) (pool : AdmissionState) (now : ℕ)
    (c : Completion rates) (past : List (Entry rates)) (profile : Option ExecutionProfile)
    (metric : Option (ThroughputMetric rates))
    → healthy rates (after rates start past) (seen pool now c)
      ≡ healthy_id rates state false profile metric
    → slow rates state metric profile ≡ none
    → Counted rates start state past
    → Counted rates start (accept rates state pool profile metric).0 (seen pool now c ∷ past)
unfolding accept reset_healthy_streak
accept-Counted rates start state pool now c past none metric h f v = omega arith
accept-Counted rates start state pool now c past (some profile) metric h f v =
    elim (Option-cases (valid_metric rates profile metric)) [
      | inl e ↦ rw (e, accept) (omega arith)
      | inr (m, e) ↦
          rw (e, accept)
            (raise-Counted rates start _ pool _ (
              count_healthy-Counted rates start state (seen pool now c) past profile
                m.tokens_per_second (h ∙ healthy_id-some rates state profile metric m e f) v))
    ]

observe-Counted :
    (rates : Rates) (start : AdaptiveState rates) (pool : AdmissionState) (now : ℕ)
    (c : Completion rates) (past : List (Entry rates))
    → Counted rates start (after rates start past) past
    → Counted rates start
        (observe rates (after rates start past) pool c now).0
        (seen pool now c ∷ past)
unfolding observe
observe-Counted rates start pool now c past v =
    let state = after rates start past in
    elim (Option-cases (reason_of rates state c)) [
      | inl e ↦
          rw (e, observe)
            (accept-Counted rates start state pool now c past c.profile c.metric
              (ap (λ b. healthy_id rates state b c.profile c.metric) (no_reason rates state c e))
              (no_slow rates state c e) v)
      | inr (reason, e) ↦ rw (e, observe) (reduce-Counted rates start state pool reason now _)
    ]

pub after-Counted :
    (rates : Rates) (start : AdaptiveState rates) (past : List (Entry rates))
    → start.healthy_streak ≡ 0
    → Counted rates start (after rates start past) past
unfolding reset_healthy_streak
after-Counted rates start [] e = omega (arith, e)
after-Counted rates start (seen pool now c ∷ past) e =
    observe-Counted rates start pool now c past (after-Counted rates start past e)
after-Counted rates start (abandoned ∷ past) e = omega arith
