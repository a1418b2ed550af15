-- ===== src/Runtime/Breaker/Probes.antt =====
-- The probes of all backends, under any interleaving of checks, outcomes and dropped probes.
use text.Mathlib.Text.{◌==◌}
use text.Mathlib.TextEquality.{eq_iff}
use free_llama.Base.{
  ℕ, zero, suc, ◌+◌, ◌≤◌, ◌≡◌, ◌≢◌, ◌↔◌, refl, ◌⊎◌, inl, inr, Bool, true, false, List, [], ◌∷◌,
  Option, none, some, arith, String, lookup, insert, lookup-insert, remove_at, get_elem?,
  if◌then◌else◌, Option-cases,
}
use free_llama.Runtime.Breaker.{
  BreakerState, Breakers, Check, refused, allowed, probe, entry, check_state, check, record_state,
  record_outcome, drop_probe,
}

-- The breakers, with the backend of each `BreakerProbe` that is alive.
pub record World : Type 0 where
  pub breakers : Breakers
  pub probes : List String

pub data Event : Type 0 where
  -- backend, now
  checks : String → ℕ → Event
  -- backend, success, threshold, cooldown, now
  records : String → Bool → ℕ → ℕ → ℕ → Event
  -- the index of the probe
  drops : ℕ → Event

unfoldable pub hand_out : List String → String → Breakers × Check → World
hand_out probes backend (map, probe) = record { breakers = map; probes = backend ∷ probes }
hand_out probes backend (map, refused _) = record { breakers = map; probes = probes }
hand_out probes backend (map, allowed) = record { breakers = map; probes = probes }

unfoldable pub take_back : World → ℕ → Option String → World
take_back w index none = w
take_back w index (some backend) = record {
  breakers = drop_probe w.breakers backend;
  probes = remove_at w.probes index;
}

unfoldable pub step : World → Event → World
step w (checks backend now) = hand_out w.probes backend (check w.breakers backend now)
step w (records backend success threshold cooldown now) = record w {
  breakers = (record_outcome w.breakers backend success threshold cooldown now).0;
}
step w (drops index) = take_back w index (get_elem? w.probes index)

unfoldable pub run : World → List Event → World
run w [] = w
run w (e ∷ es) = run (step w e) es

abbrev pub count : String → List String → ℕ
count b [] = 0
count b (p ∷ ps) = if p == b then suc (count b ps) else count b ps

abbrev flag : Bool → ℕ
flag true = 1
flag false = 0

-- A backend has a live probe exactly when its entry says so.
abbrev pub Accounted : World → Type 0
Accounted w = (b : String) → count b w.probes ≡ flag (entry w.breakers b).probe_in_flight

entry-insert :
    (k j : String) (v : BreakerState) (m : Breakers)
    → entry (insert k v m) j ≡ (if k == j then v else entry m j)
entry-insert k j v m = rw (lookup-insert k j v m) (ground arith)

count-remove_at :
    (b p : String) (ps : List String) (i : ℕ)
    → get_elem? ps i ≡ some p
    → count b (remove_at ps i) + (if p == b then 1 else 0) ≡ count b ps
count-remove_at b p [] i e = cc
count-remove_at b p (q ∷ ps) zero e = ground arith
count-remove_at b p (q ∷ ps) (suc i) e = ground (arith, count-remove_at b p ps i)

check_state-probe :
    (state : BreakerState) (now : ℕ)
    → let (s', r) = check_state state now in
      ((r ≡ probe) × (state.probe_in_flight ≡ false) × (s'.probe_in_flight ≡ true))
      ⊎ ((r ≢ probe) × (s'.probe_in_flight ≡ state.probe_in_flight))
unfolding check_state
check_state-probe state now = ground arith

record_state-probe :
    (state : BreakerState) (success : Bool) (threshold cooldown now : ℕ)
    → (record_state state success threshold cooldown now).0.probe_in_flight ≡ state.probe_in_flight
unfolding record_state
record_state-probe state success threshold cooldown now = ground arith

checks-Accounted :
    (w : World) (backend : String) (now : ℕ) → Accounted w → Accounted (step w (checks backend now))
unfolding step hand_out check
checks-Accounted w backend now h b = ground (
  arith,
  h b,
  eq_iff backend b,
  check_state-probe (entry w.breakers backend) now,
  entry-insert backend b (check_state (entry w.breakers backend) now).0 w.breakers,
)

records-Accounted :
    (w : World) (backend : String) (success : Bool) (threshold cooldown now : ℕ)
    → Accounted w
    → Accounted (step w (records backend success threshold cooldown now))
unfolding step record_outcome
records-Accounted w backend success threshold cooldown now h b = ground (
  arith,
  h b,
  eq_iff backend b,
  record_state-probe (entry w.breakers backend) success threshold cooldown now,
  entry-insert backend b (record_state (entry w.breakers backend) success threshold cooldown now).0
      w.breakers,
)

drop_probe-entry :
    (map : Breakers) (backend b : String)
    → (entry (drop_probe map backend) b).probe_in_flight
      ≡ (if backend == b then false else (entry map b).probe_in_flight)
unfolding drop_probe
drop_probe-entry map backend b = elim (Option-cases (lookup backend map)) [
  | inl e ↦ rw (e, drop_probe) (ground (arith, eq_iff backend b))
  | inr (state, e) ↦
      rw (e, drop_probe)
        (ground (
          arith,
          eq_iff backend b,
          entry-insert backend b (record state { probe_in_flight = false }) map,
        ))
]

drops-Accounted : (w : World) (index : ℕ) → Accounted w → Accounted (step w (drops index))
unfolding step take_back
drops-Accounted w index h b = elim (Option-cases (get_elem? w.probes index)) [
  | inl e ↦ rw (e, take_back) (h b)
  | inr (backend, e) ↦
      rw (e, take_back)
        (ground (
          arith,
          h b,
          eq_iff backend b,
          count-remove_at b backend w.probes index e,
          drop_probe-entry w.breakers backend b,
        ))
]

step-Accounted : (w : World) (e : Event) → Accounted w → Accounted (step w e)
step-Accounted w (checks backend now) h = checks-Accounted w backend now h
step-Accounted w (records backend success threshold cooldown now) h =
    records-Accounted w backend success threshold cooldown now h
step-Accounted w (drops index) h = drops-Accounted w index h

run-Accounted : (w : World) (es : List Event) → Accounted w → Accounted (run w es)
unfolding run
run-Accounted w [] h = h
run-Accounted w (e ∷ es) h = run-Accounted (step w e) es (step-Accounted w e h)

abbrev pub no_traffic : World
no_traffic = record { breakers = []; probes = [] }

-- However checks, outcomes and dropped probes interleave, a backend never has two live probes, and
-- its entry says whether it has one.
pub run-single_probe :
    (es : List Event) (b : String)
    → (count b (run no_traffic es).probes ≤ 1)
      × (((entry (run no_traffic es).breakers b).probe_in_flight ≡ true)
          ↔ (count b (run no_traffic es).probes ≡ 1))
unfolding lookup
run-single_probe es b =
    by_flag (count b (run no_traffic es).probes)
      (entry (run no_traffic es).breakers b).probe_in_flight
      (run-Accounted no_traffic es (λ b. refl) b)
  where
    by_flag : (n : ℕ) (f : Bool) → n ≡ flag f → (n ≤ 1) × ((f ≡ true) ↔ (n ≡ 1))
    by_flag n f e = ground arith
