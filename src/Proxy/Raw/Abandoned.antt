-- ===== src/Proxy/Raw/Abandoned.antt =====
-- Requests whose caller goes away while they wait, and the count of waiting requests.
use free_llama.Base.{ℕ, ◌*◌, ◌≤◌, ◌≡◌, List, [], ◌∷◌, arith, u64_max, wrapping_add}
use free_llama.Proxy.Raw.{RawState, rejected, retry_after, arrive, retry, time_out}
use free_llama.Proxy.Raw.History.{
  World, Event, arrives, retries, times_out, leaves, drops, finishes, configures, step, run,
  run-Inv, raw_run-Inv, fresh,
}

step-dropped : (w : World) (e : Event) → w.dropped ≤ (step w e).dropped
unfolding step arrive retry time_out
step-dropped w (arrives now deadline) = ground arith
step-dropped w retries = ground arith
step-dropped w times_out = ground arith
step-dropped w leaves = ground arith
step-dropped w drops = ground arith
step-dropped w (finishes elapsed) = ground arith
step-dropped w (configures limit wait) = ground arith

pub run-dropped : (w : World) (es : List Event) → w.dropped ≤ (run w es).dropped
unfolding run
run-dropped w [] = omega arith
run-dropped w (e ∷ es) = omega (arith, step-dropped w e, run-dropped (step w e) es)

arrive_refused :
    (s : RawState) (now deadline : ℕ)
    → s.limit ≤ s.active
    → s.limit * 8 ≤ s.waiting
    → (r : ℕ) × ((arrive s now deadline).1 ≡ rejected r)
unfolding arrive
arrive_refused s now deadline full crowded =
    (retry_after (record s { rejected = wrapping_add u64_max s.rejected 1 }), ground arith)

-- The count of dropped requests is never given back: once eight of them for each slot have been
-- dropped while they waited, every later request that finds the slots taken is refused at once,
-- whatever its deadline and though nobody waits.
pub run-abandoned :
    (limit wait : ℕ) (before after : List Event) (now deadline : ℕ)
    → let w = run (fresh limit wait) before in
      let w' = run w after in
      w'.state.limit * 8 ≤ w.dropped
      → w'.state.limit ≤ w'.state.active
      → (r : ℕ) × ((arrive w'.state now deadline).1 ≡ rejected r)
run-abandoned limit wait before after now deadline crowded full =
    let v = run-Inv _ after (raw_run-Inv limit wait before) in
    arrive_refused _ now deadline full
      (omega (arith, v.places, run-dropped (run (fresh limit wait) before) after))
