-- ===== src/Proxy/Raw/Estimate.antt =====
-- The two `Retry-After` estimates of the program.
use free_llama.Base.{◌≡◌, refl}
use free_llama.Runtime.RetryAfter.{retry_after_seconds}
use free_llama.Proxy.Raw.{RawState, retry_after}

-- A raw rejection quotes what the managed plane quotes for a queue as long, a limit as high and the
-- same average service time.
pub retry_after-retry_after_seconds :
    (s : RawState) → retry_after s ≡ retry_after_seconds s.waiting s.limit s.average_ms
unfolding retry_after retry_after_seconds
retry_after-retry_after_seconds s = refl
