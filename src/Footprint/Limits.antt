-- ===== src/Footprint/Limits.antt =====
-- The number of measurements in the history and their keys (packages/rust-core/src/platform/footprint.rs).
use free_llama.Base.{
  ℕ, zero, suc, ◌-◌, max, ◌≤◌, ◌<◌, ◌≡◌, refl, inl, inr, Bool, true, false, not, List, [], ◌∷◌,
  ◌++◌, retain, find, drop, length, length-drop, Option, none, some, String, same_text, leb, ◌==◌,
  arith, Bool-cases, All, All-append, All-retain, All-imp, is_some_and,
}
use free_llama.Footprint.{
  RuntimeHints, Sample, FootprintHistory, Observation, hints_for, is_same, bytes_or_zero,
  drop_oldest, history_limit, store, store_sized, record_digest, record_observation,
  observe_resident, is_empty_text,
}

abbrev pub key_hints : Sample → RuntimeHints
key_hints s = record { num_parallel = s.num_parallel; kv_cache_percent = s.kv_cache_percent }

-- Two samples of one key: backend, digest, settings and context.
abbrev pub same_key : Sample → Sample → Bool
same_key s t = is_same s.backend s.digest (key_hints s) s.context t

abbrev pub Distinct : List Sample → Type 0
Distinct [] = Unit
Distinct (s ∷ rest) = All (λ t. same_key t s ≡ false) rest × Distinct rest

pub record Limited (h : FootprintHistory) : Type 0 where
  pub room : length h.samples ≤ history_limit
  pub distinct : Distinct h.samples
  pub sized : All (λ s. 0 < s.bytes) h.samples

All-drop : (P : Sample → Type 0) (k : ℕ) (xs : List Sample) → All P xs → All P (drop k xs)
All-drop P zero xs h = h
All-drop P (suc k) [] h = h
All-drop P (suc k) (x ∷ xs) h = All-drop P k xs h.1

Distinct-drop : (k : ℕ) (xs : List Sample) → Distinct xs → Distinct (drop k xs)
Distinct-drop zero xs h = h
Distinct-drop (suc k) [] h = h
Distinct-drop (suc k) (x ∷ xs) h = Distinct-drop k xs h.1

Distinct-retain : (p : Sample → Bool) (xs : List Sample) → Distinct xs → Distinct (retain p xs)
Distinct-retain p [] h = h
Distinct-retain p (x ∷ xs) h = elim (Bool-cases (p x)) [
  | inl e ↦ rw e (All-retain _ p xs h.0, Distinct-retain p xs h.1)
  | inr e ↦ rw e (Distinct-retain p xs h.1)
]

retain-holds : (p : Sample → Bool) (xs : List Sample) → All (λ s. p s ≡ true) (retain p xs)
retain-holds p [] = tt
retain-holds p (x ∷ xs) = elim (Bool-cases (p x)) [
  | inl e ↦ rw e (e, retain-holds p xs)
  | inr e ↦ rw e (retain-holds p xs)
]

Distinct-append :
    (xs : List Sample) (s : Sample)
    → Distinct xs
    → All (λ x. same_key s x ≡ false) xs
    → Distinct (xs ++ (s ∷ []))
Distinct-append [] s h k = (tt, tt)
Distinct-append (x ∷ xs) s h k =
    (All-append _ xs (s ∷ []) h.0 (k.0, tt), Distinct-append xs s h.1 k.1)

not-false : (b : Bool) → not b ≡ true → b ≡ false
not-false true h = cc
not-false false h = refl

drop_oldest-length : (xs : List Sample) → length (drop_oldest xs) ≤ history_limit
drop_oldest-length xs = omega (arith, length-drop (length xs - history_limit) xs)

module _ (h : FootprintHistory) (backend : String) (inv : Limited h) where
  store-Limited :
      (digest : String) (context bytes : ℕ) → Limited (store h backend digest context bytes).0
  unfolding store
  store-Limited digest context bytes =
      let hints = hints_for h backend in
      let same = is_same backend digest hints context in
      let previous = bytes_or_zero (find same h.samples) in
      elim (Bool-cases (leb bytes previous)) [
        | inl e ↦ rw e inv
        | inr e ↦
            let kept = retain (λ s. not (same s)) h.samples in
            let s : Sample = record {
              backend = backend;
              digest = digest;
              context = context;
              bytes = max bytes previous;
              num_parallel = hints.num_parallel;
              kv_cache_percent = hints.kv_cache_percent;
            } in
            let k = length (kept ++ (s ∷ [])) - history_limit in
            let others =
              All-imp _ _ (λ x n. not-false (same x) n) kept
                (retain-holds (λ x. not (same x)) h.samples) in
            let one_each =
              Distinct-append kept s (Distinct-retain _ h.samples inv.distinct) others in
            let positive : 0 < max bytes previous = ground arith in
            let all =
              All-append _ kept (s ∷ []) (All-retain _ _ h.samples inv.sized) (positive, tt) in
            rw e (record {
              room = drop_oldest-length (kept ++ (s ∷ []));
              distinct = Distinct-drop k (kept ++ (s ∷ [])) one_each;
              sized = All-drop _ k (kept ++ (s ∷ [])) all;
            })
      ]

  store_sized-Limited :
      (digest : String) (context size : Option ℕ)
      → Limited (store_sized h backend digest context size).0
  store_sized-Limited digest none size = inv
  store_sized-Limited digest (some context) none = inv
  store_sized-Limited digest (some context) (some bytes) = elim (Bool-cases (context == 0)) [
    | inl e ↦ rw e inv
    | inr e ↦ elim (Bool-cases (bytes == 0)) [
      | inl f ↦ rw (e, f) inv
      | inr f ↦ rw (e, f) (store-Limited digest context bytes)
    ]
  ]

  record_digest-Limited :
      (digest : Option String) (o : Observation) → Limited (record_digest h backend digest o).0
  record_digest-Limited none o = inv
  record_digest-Limited (some digest) o = elim (Bool-cases (is_empty_text digest)) [
    | inl e ↦ rw e inv
    | inr e ↦ elim (Bool-cases (not o.verified)) [
      | inl f ↦ rw (e, f) inv
      | inr f ↦ elim (Bool-cases (not (is_some_and o.digest (λ d. same_text d digest)))) [
        | inl g ↦ rw (e, f, g) inv
        | inr g ↦ rw (e, f, g) (store_sized-Limited digest o.context_length o.size)
      ]
    ]
  ]

  record_observation-Limited :
      (digest : Option String) (o : Observation) → Limited (record_observation h backend digest o).0
  unfolding record_observation
  record_observation-Limited digest o = record_digest-Limited digest o

-- Observing any runners keeps the history limited: at most 64 measurements of positive sizes, of
-- which no two have the same backend, digest, settings and context.
observe_resident-Limited :
    (backend : String) (entries : List Observation) (h : FootprintHistory)
    → Limited h
    → Limited (observe_resident h backend entries).0
unfolding observe_resident
observe_resident-Limited backend [] h inv = inv
observe_resident-Limited backend (o ∷ entries) h inv =
    observe_resident-Limited backend entries
      (record_observation h backend o.digest (record o { verified = true })).0
      (record_observation-Limited h backend inv o.digest (record o { verified = true }))
