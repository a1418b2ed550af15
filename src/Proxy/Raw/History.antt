-- ===== src/Proxy/Raw/History.antt =====
-- The histories of raw admission: requests that wait in the loop, that have left it but not yet
-- taken back their place, and that were dropped by their caller while they waited.
use free_llama.Base.{ℕ, ◌+◌, ◌-◌, ◌<◌, ◌≡◌, List, [], ◌∷◌, arith, ◌==◌, if◌then◌else◌}
use free_llama.Proxy.Raw.{
  RawState, Outcome, admitted, rejected, waits, new, configure, arrive, retry, time_out, leave,
  release,
}

pub record World : Type 0 where
  pub state : RawState
  -- Live permits; requests in the loop; requests behind it; requests dropped in the loop.
  pub permits : ℕ
  pub looping : ℕ
  pub leaving : ℕ
  pub dropped : ℕ

pub data Event : Type 0 where
  arrives : ℕ → ℕ → Event
  retries times_out leaves drops : Event
  finishes : ℕ → Event
  configures : ℕ → ℕ → Event

unfoldable pub arrived : World → RawState × Outcome → World
arrived w (s, admitted) = record w { state = s; permits = w.permits + 1 }
arrived w (s, rejected _) = record w { state = s }
arrived w (s, waits) = record w { state = s; looping = w.looping + 1 }

-- The end of a round of a request in the loop.
unfoldable pub looped : World → RawState × Outcome → World
looped w (s, admitted) = record w {
  state = s;
  permits = w.permits + 1;
  looping = w.looping - 1;
  leaving = w.leaving + 1;
}
looped w (s, rejected _) = record w { state = s; looping = w.looping - 1; leaving = w.leaving + 1 }
looped w (s, waits) = record w { state = s }

-- An event of a request that is not there changes nothing.
unfoldable pub step : World → Event → World
unfolding arrived looped
step w (arrives now deadline) = arrived w (arrive w.state now deadline)
step w retries = if w.looping == 0 then w else looped w (retry w.state)
step w times_out = if w.looping == 0 then w else looped w (time_out w.state)
step w leaves =
    if w.leaving == 0 then w else record w { state = leave w.state; leaving = w.leaving - 1 }
step w drops =
    if w.looping == 0 then w else record w { looping = w.looping - 1; dropped = w.dropped + 1 }
step w (finishes elapsed) =
    if w.permits == 0
    then w
    else record w { state = release w.state elapsed; permits = w.permits - 1 }
step w (configures limit wait) = record w { state = configure w.state limit wait }

unfoldable pub run : World → List Event → World
run w [] = w
run w (e ∷ es) = run (step w e) es

pub record Inv (w : World) : Type 0 where
  pub active : w.state.active ≡ w.permits
  pub low : 0 < w.state.limit
  pub places : w.state.waiting ≡ w.looping + w.leaving + w.dropped

step-Inv : (w : World) (e : Event) → Inv w → Inv (step w e)
unfolding step arrive retry time_out leave release configure
step-Inv w (arrives now deadline) v = ground arith
step-Inv w retries v = ground arith
step-Inv w times_out v = ground arith
step-Inv w leaves v = ground arith
step-Inv w drops v = ground arith
step-Inv w (finishes elapsed) v = ground arith
step-Inv w (configures limit wait) v = ground arith

pub run-Inv : (w : World) (es : List Event) → Inv w → Inv (run w es)
unfolding run
run-Inv w [] v = v
run-Inv w (e ∷ es) v = run-Inv (step w e) es (step-Inv w e v)

abbrev pub fresh : ℕ → ℕ → World
fresh limit wait = record {
  state = new limit wait;
  permits = 0;
  looping = 0;
  leaving = 0;
  dropped = 0;
}

-- In every history the active count is the number of live permits, and the count of waiting
-- requests is the number of those that wait or are about to leave, plus one for every request that
-- its caller dropped while it waited.
pub raw_run-Inv : (limit wait : ℕ) (es : List Event) → Inv (run (fresh limit wait) es)
raw_run-Inv limit wait es = run-Inv (fresh limit wait) es (start limit wait)
  where
    start : (limit wait : ℕ) → Inv (fresh limit wait)
    start limit wait = unfold new in ground arith
