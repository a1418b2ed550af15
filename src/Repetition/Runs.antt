-- ===== src/Repetition/Runs.antt =====
-- Periodic runs at the end of a text.
use free_llama.Base.{
  ℕ, zero, suc, ◌+◌, ◌-◌, ◌≤◌, ◌<◌, ◌≡◌, inl, inr, sym, ap, ◌∙◌, true, List, arith, leb, ◌==◌,
  ==_iff, Bool-cases,
}
use free_llama.Repetition.{char_at, tail_run, qualifies}

-- From `from` up to `to` each character is the one a period before it.
abbrev pub Periodic : List ℕ → ℕ → ℕ → ℕ → Type 0
Periodic chars period from to =
    (i : ℕ) → from ≤ i → i < to → char_at chars i ≡ char_at chars (i - period)

pub tail_run-le : (chars : List ℕ) (period k : ℕ) → tail_run chars period k ≤ k
unfolding tail_run
tail_run-le chars period zero = omega arith
tail_run-le chars period (suc k) = ground (arith, tail_run-le chars period k)

extend_up :
    (chars : List ℕ) (period from k : ℕ)
    → char_at chars (period + k) ≡ char_at chars k
    → Periodic chars period from (period + k)
    → Periodic chars period from (period + suc k)
extend_up chars period from k same run i low high = elim (Bool-cases (i == period + k)) [
  | inl last ↦
      let e : i ≡ period + k = (==_iff i _).0 last in
      let back : i - period ≡ k = omega arith in
      ap (char_at chars) e ∙ same ∙ ap (char_at chars) (sym back)
  | inr before ↦ run i low (ground arith)
]

nothing_above : (chars : List ℕ) (period from to : ℕ) → to ≤ from → Periodic chars period from to
nothing_above chars period from to h i low high = absurd (omega arith)

pub tail_run-Periodic :
    (chars : List ℕ) (period k : ℕ)
    → Periodic chars period (period + k - tail_run chars period k) (period + k)
unfolding tail_run
tail_run-Periodic chars period zero = nothing_above chars period _ _ (omega arith)
tail_run-Periodic chars period (suc k) =
    elim (Bool-cases (char_at chars (period + k) == char_at chars k)) [
      | inl same ↦
          rw (same, tail_run)
            (extend_up chars period _ k ((==_iff _ _).0 same) (
              let e : period + suc k - suc (tail_run chars period k)
                  ≡ period + k - tail_run chars period k =
                omega (arith, tail_run-le chars period k) in
              rw e (tail_run-Periodic chars period k)))
      | inr differs ↦ rw (differs, tail_run) (nothing_above chars period _ _ (omega arith))
    ]

-- No periodic run to the end of the text is longer.
pub tail_run_longest :
    (chars : List ℕ) (period k from : ℕ)
    → period ≤ from
    → Periodic chars period from (period + k)
    → period + k - from ≤ tail_run chars period k
unfolding tail_run
tail_run_longest chars period zero from h run = omega arith
tail_run_longest chars period (suc k) from h run = elim (Bool-cases (leb from (period + k))) [
  | inl within ↦
      let inside : from ≤ period + k = ground arith in
      let back : period + k - period ≡ k = omega arith in
      let same : (char_at chars (period + k) == char_at chars k) ≡ true =
        (==_iff _ _).1 (run (period + k) inside (omega arith) ∙ ap (char_at chars) back) in
      rw (same, tail_run)
        (omega
          (arith, tail_run_longest chars period k from h (λ i low high. run i low (omega arith))))
  | inr above ↦ ground arith
]

pub qualifies_mono :
    (period r r' : ℕ) → r ≤ r' → qualifies period r ≡ true → qualifies period r' ≡ true
qualifies_mono period r r' h q = ground arith
