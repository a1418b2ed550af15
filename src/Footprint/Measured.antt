-- ===== src/Footprint/Measured.antt =====
-- A verified measurement and the estimate made directly after it (packages/rust-core/src/platform/footprint.rs).
use text.Mathlib.TextEquality.{eq_iff}
use free_llama.Base.{
  ℕ, zero, suc, ◌-◌, max, ◌≤◌, ◌<◌, ◌≡◌, refl, ap, subst, inl, inr, true, false, not, ◌&&◌, List,
  [], ◌∷◌, ◌++◌, retain, find, drop, length, length-append, Option, none, some, some-injective,
  String, same_text, leb, leb→le, ◌==◌, arith, Bool-cases, Option-cases, Has, Member-Has,
  find-Member, find_sound,
}
use free_llama.Routing.{CatalogModel}
use free_llama.Footprint.{
  RuntimeHints, Sample, FootprintHistory, Observation, taken_under, hints_for, is_same,
  bytes_or_zero, history_limit, store, record_observation, is_empty_text,
}
use free_llama.Footprint.Estimate.{
  is_comparable, max_option, observed_at, has_digest, estimate, requirement,
}

module _ (backend digest : String) (hints : RuntimeHints) where
  -- A sample of this key at a context, of at least so many bytes.
  abbrev pub Bounds : ℕ → ℕ → Sample → Type 0
  Bounds context bytes s = (is_same backend digest hints context s ≡ true) × (bytes ≤ s.bytes)

  max_option-some : (a : ℕ) (o : Option ℕ) → (n : ℕ) × (max_option a o ≡ some n) × (a ≤ n)
  max_option-some a none = (a, refl, omega arith)
  max_option-some a (some b) = (max a b, refl, omega arith)

  max_option-keeps :
      (a n : ℕ) (o : Option ℕ) → o ≡ some n → (k : ℕ) × (max_option a o ≡ some k) × (n ≤ k)
  max_option-keeps a n none e = cc
  max_option-keeps a n (some b) e = (max a b, refl, omega (arith, some-injective _ _ e))

  observed_at-Bounds :
      (asked context bytes : ℕ) (samples : List Sample)
      → is_empty_text digest ≡ false
      → asked ≤ context
      → Has (Bounds context bytes) samples
      → (n : ℕ) × (observed_at backend digest hints asked samples ≡ some n) × (bytes ≤ n)
  unfolding observed_at
  observed_at-Bounds asked context bytes [] d h m = absurd m
  observed_at-Bounds asked context bytes (s ∷ rest) d h (inl (same, le)) =
      let e : is_comparable backend digest hints s && leb asked s.context ≡ true = ground arith in
      let (n, f, k) = max_option-some s.bytes (observed_at backend digest hints asked rest) in
      (n, rw e f, omega arith)
  observed_at-Bounds asked context bytes (s ∷ rest) d h (inr m) =
      let (n, f, k) = observed_at-Bounds asked context bytes rest d h m in
      elim (Bool-cases (is_comparable backend digest hints s && leb asked s.context)) [
        | inl e ↦ let (j, g, l) = max_option-keeps s.bytes n _ f in (j, rw e g, omega arith)
        | inr e ↦ (n, rw e f, k)
      ]

drop-last :
    (P : Sample → Type 0) (k : ℕ) (xs : List Sample) (y : Sample)
    → k ≤ length xs
    → P y
    → Has P (drop k (xs ++ (y ∷ [])))
drop-last P zero [] y h p = inl p
drop-last P zero (x ∷ xs) y h p = inr (drop-last P zero xs y (omega arith) p)
drop-last P (suc k) [] y h p = absurd (omega arith)
drop-last P (suc k) (x ∷ xs) y h p = drop-last P k xs y (omega arith) p

same_text_refl : (s : String) → same_text s s ≡ true
same_text_refl s = (eq_iff s s).1 refl

find-Bounds :
    (backend digest : String) (hints : RuntimeHints) (context bytes : ℕ) (samples : List Sample)
    → 0 < bytes
    → bytes ≤ bytes_or_zero (find (is_same backend digest hints context) samples)
    → Has (Bounds backend digest hints context bytes) samples
find-Bounds backend digest hints context bytes samples positive h =
    elim (Option-cases (find (is_same backend digest hints context) samples)) [
      | inl e ↦ absurd (omega (arith, ap bytes_or_zero e))
      | inr (s, e) ↦ Member-Has _ samples s (find-Member _ samples s e) (
        find_sound (is_same backend digest hints context) samples s e,
        subst (λ n. bytes ≤ n) (ap bytes_or_zero e) h,
      )
    ]

own_key :
    (backend digest : String) (hints : RuntimeHints) (context bytes : ℕ)
    → is_same backend digest hints context (record {
      backend = backend;
      digest = digest;
      context = context;
      bytes = bytes;
      num_parallel = hints.num_parallel;
      kv_cache_percent = hints.kv_cache_percent;
    })
      ≡ true
unfolding taken_under
own_key backend digest hints context bytes =
    ground (arith, same_text_refl backend, same_text_refl digest)

module _ (h : FootprintHistory) (backend digest : String) (context bytes : ℕ) where
  store-hints :
      (other : String)
      → hints_for (store h backend digest context bytes).0 other ≡ hints_for h other
  unfolding store hints_for
  store-hints other =
      elim (Bool-cases (
        leb bytes (
          bytes_or_zero (find (is_same backend digest (hints_for h backend) context) h.samples)))) [
            | inl e ↦ rw e refl
            | inr e ↦ rw e refl
          ]

  store-Bounds :
      0 < bytes
      → Has
          (Bounds backend digest (hints_for h backend) context bytes)
          (store h backend digest context bytes).0.samples
  unfolding store
  store-Bounds positive =
      let hints = hints_for h backend in
      let same = is_same backend digest hints context in
      let previous = bytes_or_zero (find same h.samples) in
      elim (Bool-cases (leb bytes previous)) [
        | inl e ↦ rw e (
            find-Bounds backend digest hints context bytes h.samples positive
              (leb→le bytes previous e))
        | inr e ↦
            let kept = retain (λ s. not (same s)) h.samples in
            let s : Sample = record {
              backend = backend;
              digest = digest;
              context = context;
              bytes = max bytes previous;
              num_parallel = hints.num_parallel;
              kv_cache_percent = hints.kv_cache_percent;
            } in
            rw e (
              drop-last (Bounds backend digest hints context bytes)
                (length (kept ++ (s ∷ [])) - history_limit) kept s
                (omega (arith, length-append kept (s ∷ [])))
                (own_key backend digest hints context (max bytes previous), omega arith))
      ]

  -- The verified observation of the measurement.
  abbrev pub verified : Observation
  verified = record {
    verified = true;
    digest = some digest;
    context_length = some context;
    size = some bytes;
  }

  record_observation-store :
      is_empty_text digest ≡ false
      → 0 < context
      → 0 < bytes
      → record_observation h backend (some digest) verified ≡ store h backend digest context bytes
  unfolding record_observation
  record_observation-store d c b =
      let e : (context == 0) ≡ false = ground arith in
      let f : (bytes == 0) ≡ false = ground arith in rw (d, same_text_refl digest, e, f) refl

  -- After a verified observation of a nonempty digest with a positive context and size, the estimate
  -- for a model of that digest on that backend, at no larger a context and with no matching
  -- resident runner, is at least the observed size.
  pub record_observation-requirement :
      (m : CatalogModel) (asked : ℕ)
      → m.digest ≡ some digest
      → is_empty_text digest ≡ false
      → 0 < context
      → 0 < bytes
      → asked ≤ context
      → bytes
        ≤ (requirement
            (record_observation h backend (some digest) verified).0
            backend
            m
            asked
            none
            true).required_available_bytes
  unfolding requirement estimate
  record_observation-requirement m asked named d c b le =
      let stored = store h backend digest context bytes in
      let (n, e, k) =
        observed_at-Bounds backend digest (hints_for h backend) asked context bytes stored.0.samples
          d le (store-Bounds b) in
      let name : has_digest m.digest ≡ digest = ap has_digest named in
      rw (record_observation-store d c b, store-hints backend, name, e) k
