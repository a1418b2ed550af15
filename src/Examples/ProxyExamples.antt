-- ===== src/Examples/ProxyExamples.antt =====
-- Raw admission, retries and restarts at concrete inputs (packages/rust-core/src/proxy).
use free_llama.Base.{
  ℕ, ◌≡◌, List, [], ◌∷◌, some, true, false, arith, ◌==◌, leb, none, refl, if◌then◌else◌,
}
use free_llama.Proxy.Raw.{rejected, new, arrive, release}
use free_llama.Proxy.Raw.History.{
  Event, arrives, retries, drops, finishes, Inv, run, step, fresh, raw_run-Inv,
}
use free_llama.Proxy.Raw.Abandoned.{run-abandoned}
use free_llama.Proxy.Retry.{
  Reply, response, failure, send_with_retries, send_from, retry_delay, jitter, try_restart,
}
use free_llama.Proxy.Forward.{forward_inner}
use free_llama.Proxy.Forward.Sends.{ForwardedWell, forward_inner-Forwards}

abbrev crowd : List Event
crowd = arrives 0 100 ∷ arrives 0 100 ∷ arrives 0 100 ∷ finishes 40 ∷ retries ∷ []

raw_run-Inv_example : Inv (run (fresh 1 100) crowd)
raw_run-Inv_example = raw_run-Inv 1 100 crowd

-- One request holds the slot, and eight callers go away while they wait for it.
abbrev impatient : List Event
impatient =
    arrives 0 100
    ∷ arrives 1 100
    ∷ drops
    ∷ arrives 1 100
    ∷ drops
    ∷ arrives 1 100
    ∷ drops
    ∷ arrives 1 100
    ∷ drops
    ∷ arrives 1 100
    ∷ drops
    ∷ arrives 1 100
    ∷ drops
    ∷ arrives 1 100
    ∷ drops
    ∷ arrives 1 100
    ∷ drops
    ∷ []

-- The slot comes free, is taken again, and the next caller could wait a thousand milliseconds.
run-abandoned_example :
    (r : ℕ) × ((arrive
        (run (run (fresh 1 100) impatient) (finishes 40 ∷ arrives 50 100 ∷ [])).state
        60
        1060).1
      ≡ rejected r)
run-abandoned_example =
    run-abandoned 1 100 impatient (finishes 40 ∷ arrives 50 100 ∷ []) 60 1060
      (unfold run step new arrive release in omega arith)
      (unfold run step new arrive release in omega arith)

-- Nothing listens for three sends; behind the restart there is a blip, then an answer.
abbrev starting : ℕ → Reply
starting n = if leb n 3 then failure true false else if n == 4 then response 500 else response 200

five_sends :
    forward_inner true none 7 starting (λ _. 0)
    ≡ some (record {
      reply = response 200;
      sends = 5;
      restarted_after = some 3;
      last_restart = some 7;
    })
unfolding forward_inner send_with_retries send_from retry_delay jitter try_restart
five_sends = refl

forward_inner-Forwards_example :
    ForwardedWell true none 7 starting (forward_inner true none 7 starting (λ _. 0))
forward_inner-Forwards_example = forward_inner-Forwards true none 7 starting (λ _. 0)
