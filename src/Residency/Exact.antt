-- ===== src/Residency/Exact.antt =====
-- The exhaustive search (packages/rust-core/src/platform/residency.rs, `cheapest_covering_set`) and
-- the sets of candidates that it walks.
pub mod Optimal
use Prim.Native.Nat.{Ordering, compare}
use free_llama.Base.{
  ℕ, zero, suc, ◌+◌, ◌-◌, ◌^◌, ◌≤◌, ◌<◌, ◌≡◌, ◌≢◌, ◌∙◌, refl, sym, ap, subst, ◌⊎◌, inl, inr, Bool,
  true, false, List, [], ◌∷◌, Option, none, some, ℕ_discrete, ltb, ltb→lt, length, arith,
  Bool-cases, if◌then◌else◌, Lawful, Lawful-refl, Lawful-total, Lawful-trans, compare_ℕ-Lawful,
  then_with-Lawful, key-Lawful,
}
use free_llama.Routing.Compare.{total_key}
use free_llama.Residency.{Context, Candidate}
use free_llama.Residency.Victims.{
  Key, compare_keys, is_lt, key_of, better, chosen_by, bytes_of, consider_set, consider_mask,
  search_masks, cheapest_covering_set, set_of_best,
}

pub compare_keys-Lawful : Lawful compare_keys
unfolding compare_keys
compare_keys-Lawful =
    then_with-Lawful _ _ (key-Lawful (λ (k : Key). total_key k.cost) compare compare_ℕ-Lawful) (
      then_with-Lawful _ _ (key-Lawful (λ (k : Key). k.runners) compare compare_ℕ-Lawful)
        (key-Lawful (λ (k : Key). k.excess) compare compare_ℕ-Lawful))

-- What the search has found so far precedes or equals a key.
abbrev pub Below : Option (Key × ℕ) → Key → Type 0
Below none k = ⊥
Below (some (found, mask)) k = compare_keys found k ≢ Ordering.gt

not_lt-not_gt : (o : Ordering) → is_lt o ≡ false → (o ≡ Ordering.eq) ⊎ (o ≡ Ordering.gt)
not_lt-not_gt Ordering.lt h = cc
not_lt-not_gt Ordering.eq h = inl refl
not_lt-not_gt Ordering.gt h = inr refl

lt-not_gt : (o : Ordering) → is_lt o ≡ true → o ≢ Ordering.gt
lt-not_gt Ordering.lt h e = cc
lt-not_gt Ordering.eq h e = cc
lt-not_gt Ordering.gt h e = cc

-- A key that is not better than what was found comes no earlier.
not_better-Below : (k : Key) (best : Option (Key × ℕ)) → better k best ≡ false → Below best k
not_better-Below k none h = cc
not_better-Below k (some (found, mask)) h = elim (not_lt-not_gt (compare_keys k found) h) [
  | inl e ↦ λ g. cc (compare_keys-Lawful.swap k found)
  | inr e ↦ Lawful-total compare_keys compare_keys-Lawful k found e
]

better-Below :
    (k x : Key) (mask : ℕ) (best : Option (Key × ℕ))
    → better k best ≡ true
    → Below best x
    → Below (some (k, mask)) x
better-Below k x mask none h b = absurd b
better-Below k x mask (some (found, m)) h b =
    Lawful-trans compare_keys compare_keys-Lawful k found x (lt-not_gt (compare_keys k found) h) b

module _ (c : Context) (candidates : List Candidate) (shortfall : ℕ) where
  consider_set-old :
      (set : List Candidate) (mask : ℕ) (best : Option (Key × ℕ)) (x : Key)
      → Below best x
      → Below (consider_set c shortfall set mask best) x
  consider_set-old set mask best x b = elim (Bool-cases (ltb (bytes_of 0 set) shortfall)) [
    | inl e ↦ rw e b
    | inr e ↦ elim (Bool-cases (better (key_of c shortfall set) best)) [
      | inl f ↦ rw (e, f) (better-Below (key_of c shortfall set) x mask best f b)
      | inr f ↦ rw (e, f) b
    ]
  ]

  consider_set-new :
      (set : List Candidate) (mask : ℕ) (best : Option (Key × ℕ))
      → shortfall ≤ bytes_of 0 set
      → Below (consider_set c shortfall set mask best) (key_of c shortfall set)
  consider_set-new set mask best h =
      let e : ltb (bytes_of 0 set) shortfall ≡ false = ground arith in
      elim (Bool-cases (better (key_of c shortfall set) best)) [
        | inl f ↦
            rw (e, f)
              (λ g. cc (Lawful-refl compare_keys compare_keys-Lawful (key_of c shortfall set)))
        | inr f ↦ rw (e, f) (not_better-Below (key_of c shortfall set) best f)
      ]

  search-old :
      (fuel mask : ℕ) (best : Option (Key × ℕ)) (x : Key)
      → Below best x
      → Below (search_masks c candidates shortfall fuel mask best) x
  unfolding search_masks consider_mask
  search-old zero mask best x b = b
  search-old (suc fuel) mask best x b =
      search-old fuel (mask + 1) _ x (consider_set-old (chosen_by mask candidates) mask best x b)

  pub search-new :
      (fuel mask i : ℕ) (best : Option (Key × ℕ))
      → mask ≤ i
      → i < mask + fuel
      → shortfall ≤ bytes_of 0 (chosen_by i candidates)
      → Below
          (search_masks c candidates shortfall fuel mask best)
          (key_of c shortfall (chosen_by i candidates))
  unfolding search_masks consider_mask
  search-new zero mask i best h k covers = absurd (omega arith)
  search-new (suc fuel) mask i best h k covers = elim (ℕ_discrete mask i) [
    | yes e ↦ search-old fuel (mask + 1) _ _ (
        subst
          (λ j.
            Below (consider_set c shortfall (chosen_by mask candidates) mask best)
              (key_of c shortfall (chosen_by j candidates)))
          e
          (consider_set-new (chosen_by mask candidates) mask best
            (subst (λ j. shortfall ≤ bytes_of 0 (chosen_by j candidates)) (sym e) covers)))
    | no ne ↦ search-new fuel (mask + 1) i _ (omega arith) (omega arith) covers
  ]

  -- What the search finds is the key of its mask, whose set covers the shortfall.
  abbrev pub Honest : Option (Key × ℕ) → Type 0
  Honest none = Unit
  Honest (some (k, mask)) =
      (k ≡ key_of c shortfall (chosen_by mask candidates))
      × (shortfall ≤ bytes_of 0 (chosen_by mask candidates))

  consider-Honest :
      (mask : ℕ) (best : Option (Key × ℕ))
      → Honest best
      → Honest (consider_mask c candidates shortfall mask best)
  unfolding consider_mask
  consider-Honest mask best h =
      elim (Bool-cases (ltb (bytes_of 0 (chosen_by mask candidates)) shortfall)) [
        | inl e ↦ rw e h
        | inr e ↦ elim (Bool-cases (better (key_of c shortfall (chosen_by mask candidates)) best)) [
          | inl f ↦ rw (e, f) (refl, ground arith)
          | inr f ↦ rw (e, f) h
        ]
      ]

  pub search-Honest :
      (fuel mask : ℕ) (best : Option (Key × ℕ))
      → Honest best
      → Honest (search_masks c candidates shortfall fuel mask best)
  unfolding search_masks
  search-Honest zero mask best h = h
  search-Honest (suc fuel) mask best h =
      search-Honest fuel (mask + 1) _ (consider-Honest mask best h)
