-- ===== src/Proxy/Retry/Restarts.antt =====
-- How often Ollama is restarted.
use free_llama.Base.{ℕ, ◌+◌, ◌≤◌, Bool, true, false, List, [], ◌∷◌, Option, none, some, arith}
use free_llama.Proxy.Retry.{restart_cooldown, try_restart}

-- The times at which restarts are made, of the times at which one is asked for.
abbrev pub keep : Option ℕ × Bool → ℕ → (Option ℕ → List ℕ) → List ℕ
keep (last, true) now rest = now ∷ rest last
keep (last, false) now rest = rest last

pub restarts : Option ℕ → List ℕ → List ℕ
restarts last [] = []
restarts last (now ∷ asked) = keep (try_restart last now) now (λ l. restarts l asked)

-- Each restart comes a whole cooldown after the one before it.
abbrev pub Spaced : Option ℕ → List ℕ → Type 0
Spaced last [] = Unit {0}
Spaced none (t ∷ ts) = Spaced (some t) ts
Spaced (some last) (t ∷ ts) = (last + restart_cooldown ≤ t) × Spaced (some t) ts

-- However often and whenever a restart is asked for, two restarts that are made lie at least 300
-- seconds apart.
pub restarts-Spaced : (last : Option ℕ) (asked : List ℕ) → Spaced last (restarts last asked)
unfolding restarts try_restart
restarts-Spaced last [] = tt
restarts-Spaced none (now ∷ asked) = restarts-Spaced (some now) asked
restarts-Spaced (some previous) (now ∷ asked) =
    ground (arith, restarts-Spaced (some previous) asked, restarts-Spaced (some now) asked)
