-- ===== src/Examples/AdaptiveExamples.antt =====
-- The adaptive limiter (platform/runtime/adaptive.rs) at concrete inputs, with rates in whole tokens
-- per second.
use free_llama.Base.{
  ℕ, ◌+◌, ◌*◌, ◌/◌, ◌≤◌, ◌≡◌, refl, true, false, List, [], ◌∷◌, none, some, String, ltb,
  saturating_add,
}
use free_llama.Task.{coding}
use free_llama.Admission.State.{AdmissionState, new, set_limit}
use free_llama.Runtime.Profile.{
  Rates, ExecutionProfile, output_tokens_per_second, AdaptiveState, Completion,
}
use free_llama.Runtime.Adaptive.{observe, reason_of, accept, raise, count_healthy}
use free_llama.Runtime.Adaptive.Healthy.{Entry, seen, healthy}
use free_llama.Runtime.Adaptive.Streak.{in_a_row, after}
use free_llama.Runtime.Adaptive.Increase.{observe-increase}

abbrev whole : Rates
whole = record {
  F = ℕ;
  zero_rate = 0;
  is_finite = λ a. true;
  less = ltb;
  dropped = λ a. a * 7 / 10;
  blended = λ a b. (a * 8 + b * 2) / 10;
}

abbrev profile : ExecutionProfile
profile = record {
  id = "p";
  task = coding;
  model = "llama";
  digest = "d";
  context_tokens = 4096;
  processor = "gpu";
  metric_kind = output_tokens_per_second;
}

abbrev start : AdaptiveState whole
start = record {
  baseline_tps = λ t. none;
  healthy_streak = 0;
  last_profile = none;
  last_decrease = none;
  last_reason = none;
}

abbrev good : Completion whole
good = record {
  profile = some profile;
  failed = false;
  memory_pressure = false;
  metric = some (record { kind = output_tokens_per_second; tokens_per_second = 40 });
}

abbrev bad : Completion whole
bad = record good { failed = true }

abbrev reduced : AdmissionState
reduced = (set_limit (new 8 16) 4).0

abbrev past_entries : List (Entry whole)
past_entries =
    seen reduced 4 good ∷ seen reduced 3 good ∷ seen reduced 2 good ∷ seen reduced 1 good ∷ []

observe-increase_example :
    (id : String) × (healthy whole (after whole start past_entries) (seen reduced 5 good) ≡ some id)
    × (5 ≤ in_a_row whole start id (seen reduced 5 good ∷ past_entries))
unfolding observe reason_of accept raise count_healthy set_limit new saturating_add
observe-increase_example = observe-increase whole start past_entries reduced 5 5 good refl refl

-- Half of the baseline is no healthy completion.
abbrev half : Completion whole
half = record good {
  metric = some (record { kind = output_tokens_per_second; tokens_per_second = 20 });
}

half_is_slow : healthy whole (after whole start past_entries) (seen reduced 5 half) ≡ none
unfolding observe reason_of accept raise count_healthy set_limit new saturating_add
half_is_slow = refl
