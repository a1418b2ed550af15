-- ===== src/Examples/SessionsExamples.antt =====
-- Sessions (platform/sessions.rs) at concrete inputs.
use free_llama.Base.{[], ◌∷◌, some}
use free_llama.Sessions.{empty}
use free_llama.Sessions.Channels.{Inv}
use free_llama.Sessions.Histories.{creates, requires, binds, deletes, kills, run, run-empty-Inv}

run-empty-Inv_example : Inv 2 (
    run 2 100 empty (
      creates "a" 1
      ∷ creates "b" 2
      ∷ creates "c" 3
      ∷ binds "a" "llama" 4
      ∷ requires (some "b") 5
      ∷ kills "a" 6
      ∷ deletes "b" 7
      ∷ []))
run-empty-Inv_example = run-empty-Inv 2 100 (
    creates "a" 1
    ∷ creates "b" 2
    ∷ creates "c" 3
    ∷ binds "a" "llama" 4
    ∷ requires (some "b") 5
    ∷ kills "a" 6
    ∷ deletes "b" 7
    ∷ [])
