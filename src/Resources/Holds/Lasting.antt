-- ===== src/Resources/Holds/Lasting.antt =====
-- How long a hold lasts (platform/resources/governor.rs).
use free_llama.Base.{
  ℕ, suc, ◌+◌, ◌≤◌, ◌<◌, ◌≡◌, refl, sym, ◌∙◌, ap, Bool, true, false, List, [], ◌∷◌, Option, some,
  Has, Has-map, Has-retain, Has-append_left, Has-append_right, Has-imp, inl, inr, length, arith,
  saturating_add, Bool-cases,
}
use free_llama.Resources.{Floats, HostResources, ResourcePolicy, validate}
use free_llama.Resources.Reserve.{validate-Valid}
use free_llama.Resources.Pressure.{PressureReason, pressure_reasons}
use free_llama.Resources.Holds.{
  PressureHold, same_reason, contains, holds_for, add_holds, retain_holds, hold_recovers,
  recovered_reasons, observe,
}

-- A hold for the reason that has seen at most `n` healthy samples.
abbrev HeldFor : PressureReason → ℕ → PressureHold → Type 0
HeldFor reason n hold = (same_reason hold.reason reason ≡ true) × (hold.healthy_samples ≤ n)

same_reason-eq : (a b : PressureReason) → same_reason a b ≡ true → a ≡ b
same_reason-eq a b e = ground arith

same_reason_refl : (a : PressureReason) → same_reason a a ≡ true
same_reason_refl a = ground arith

holds_for-Has :
    (reason : PressureReason) (holds : List PressureHold)
    → holds_for reason holds ≡ true
    → Has (λ hold. same_reason hold.reason reason ≡ true) holds
holds_for-Has reason [] e = cc
holds_for-Has reason (hold ∷ holds) e = elim (Bool-cases (same_reason hold.reason reason)) [
  | inl h ↦ inl h
  | inr h ↦ inr (holds_for-Has reason holds (ground arith))
]

Has-holds_for :
    (reason : PressureReason) (n : ℕ) (holds : List PressureHold)
    → Has (HeldFor reason n) holds
    → holds_for reason holds ≡ true
Has-holds_for reason n [] h = absurd h
Has-holds_for reason n (hold ∷ holds) (inl h) = rw h.0 refl
Has-holds_for reason n (hold ∷ holds) (inr h) = ground (arith, Has-holds_for reason n holds h)

add_holds-Has :
    (P : PressureHold → Type 0) (triggered : List PressureReason) (now : ℕ)
    (holds : List PressureHold)
    → Has P holds
    → Has P (add_holds triggered now holds)
unfolding add_holds
add_holds-Has P [] now holds h = h
add_holds-Has P (reason ∷ triggered) now holds h = elim (Bool-cases (holds_for reason holds)) [
  | inl e ↦ rw e (add_holds-Has P triggered now holds h)
  | inr e ↦ rw e (add_holds-Has P triggered now _ (Has-append_left P holds _ h))
]

add_holds-triggered :
    (reason : PressureReason) (triggered : List PressureReason) (now : ℕ)
    (holds : List PressureHold)
    → contains reason triggered ≡ true
    → Has (λ hold. same_reason hold.reason reason ≡ true) (add_holds triggered now holds)
unfolding add_holds
add_holds-triggered reason [] now holds e = cc
add_holds-triggered reason (first ∷ triggered) now holds e =
    elim (Bool-cases (same_reason reason first)) [
      | inl h ↦
          (let same = ap (λ r. same_reason r reason) (same_reason-eq reason first h) in
            let own : same_reason first reason ≡ true = sym same ∙ same_reason_refl reason in
            elim (Bool-cases (holds_for first holds)) [
              | inl held ↦ rw held (
                  add_holds-Has _ triggered now holds (
                    Has-imp _ _
                      (λ hold p. ap (same_reason hold.reason) (same_reason-eq reason first h) ∙ p)
                      holds (holds_for-Has first holds held)))
              | inr free ↦
                  rw free (add_holds-Has _ triggered now _ (Has-append_right _ holds _ (inl own)))
            ])
      | inr h ↦ add_holds-triggered reason triggered now _ (ground arith)
    ]

retain_holds-Has :
    (recovered : PressureReason → Bool) (recovery_samples : ℕ) (reason : PressureReason) (n : ℕ)
    (holds : List PressureHold)
    → suc n < recovery_samples
    → Has (HeldFor reason n) holds
    → Has (HeldFor reason (suc n)) (retain_holds recovered recovery_samples holds)
unfolding retain_holds saturating_add
retain_holds-Has recovered recovery_samples reason n holds h k =
    Has-retain _ _ (λ hold p. ground arith) _
      (Has-map (HeldFor reason n) (HeldFor reason (suc n)) _ (λ hold p. ground arith) holds k)

reset_holds-Has :
    (recovered : PressureReason → Bool) (recovery_samples : ℕ) (reason : PressureReason)
    (holds : List PressureHold)
    → 0 < recovery_samples
    → recovered reason ≡ false
    → Has (λ hold. same_reason hold.reason reason ≡ true) holds
    → Has (HeldFor reason 0) (retain_holds recovered recovery_samples holds)
unfolding retain_holds
reset_holds-Has recovered recovery_samples reason holds h e k =
    Has-retain _ _ (λ hold p. ground arith) _
      (Has-map (λ hold. same_reason hold.reason reason ≡ true) (HeldFor reason 0) _
        (λ hold p. (
          p,
          let q : recovered hold.reason ≡ false =
                ap recovered (same_reason-eq hold.reason reason p) ∙ e in
              rw q (omega arith),
        ))
        holds k)

recovered_reasons-triggered :
    (floats : Floats) (policy : ResourcePolicy floats) (observed : HostResources floats)
    (previous : Option (HostResources floats)) (triggered : List PressureReason) (now : ℕ)
    (reason : PressureReason) (holds : List PressureHold)
    → contains reason triggered ≡ true
    → contains reason (recovered_reasons floats policy observed previous triggered now holds)
      ≡ false
unfolding recovered_reasons
recovered_reasons-triggered floats policy observed previous triggered now reason [] e = refl
recovered_reasons-triggered floats policy observed previous triggered now reason (hold ∷ holds) e =
    let rest =
      recovered_reasons-triggered floats policy observed previous triggered now reason holds e in
    elim (Bool-cases (hold_recovers floats policy observed previous triggered now hold)) [
      | inr h ↦ rw h rest
      | inl h ↦ elim (Bool-cases (same_reason reason hold.reason)) [
        | inr other ↦ rw (h, other) rest
        | inl same ↦
            let e' : contains hold.reason triggered ≡ true =
              ap (λ r. contains r triggered) (sym (same_reason-eq reason hold.reason same)) ∙ e in
            let h' : hold_recovers floats policy observed previous triggered now hold ≡ false =
              rw e' refl in
            cc
      ]
    ]

-- Samples in the order in which they are taken, each with its instant.
abbrev pub run_samples :
    (floats : Floats)
    → ResourcePolicy floats
    → Option (HostResources floats)
    → List PressureHold
    → List (HostResources floats × ℕ)
    → List PressureHold
run_samples floats policy previous holds [] = holds
run_samples floats policy previous holds ((observed, now) ∷ samples) =
    run_samples floats policy (some observed) (observe floats policy observed previous now holds)
      samples

run_samples-Has :
    (floats : Floats) (policy : ResourcePolicy floats) (reason : PressureReason)
    (samples : List (HostResources floats × ℕ)) (previous : Option (HostResources floats))
    (holds : List PressureHold) (n : ℕ)
    → n + length samples < policy.recovery_samples
    → Has (HeldFor reason n) holds
    → holds_for reason (run_samples floats policy previous holds samples) ≡ true
unfolding observe
run_samples-Has floats policy reason [] previous holds n h k = Has-holds_for reason n holds k
run_samples-Has floats policy reason ((observed, now) ∷ samples) previous holds n h k =
    run_samples-Has floats policy reason samples (some observed) _ (suc n) (omega arith)
      (retain_holds-Has _ _ reason n _ (omega arith) (add_holds-Has _ _ now holds k))

-- Under a policy that was accepted, a sample that shows a reason puts a hold in place, and the hold
-- outlasts fewer further samples than `recovery_samples`, whatever they show.
pub observe-holds_for :
    (floats : Floats) (policy : ResourcePolicy floats) (reason : PressureReason)
    (observed : HostResources floats) (previous : Option (HostResources floats)) (now : ℕ)
    (holds : List PressureHold) (samples : List (HostResources floats × ℕ))
    → validate floats policy ≡ true
    → contains reason (pressure_reasons floats observed previous policy) ≡ true
    → length samples < policy.recovery_samples
    → holds_for reason (
        run_samples floats policy
          (some observed)
          (observe floats policy observed previous now holds)
          samples)
      ≡ true
unfolding observe
observe-holds_for floats policy reason observed previous now holds samples e h k =
    run_samples-Has floats policy reason samples (some observed) _ 0 (omega arith) (
      reset_holds-Has _ _ reason _ (validate-Valid floats policy e).samples
        (recovered_reasons-triggered floats policy observed previous _ now reason holds h)
        (add_holds-triggered reason _ now holds h))
