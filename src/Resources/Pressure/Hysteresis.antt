-- ===== src/Resources/Pressure/Hysteresis.antt =====
-- A sample that speaks for a hold, and one that speaks for its release (platform/resources/pressure.rs).
use free_llama.Base.{◌≡◌, true, false, Option, none, some, is_some_and, arith}
use free_llama.Resources.{Floats, HostResources, ResourcePolicy, validate}
use free_llama.Resources.Reserve.{validate-Valid, reserve_mono}
use free_llama.Resources.Pressure.{
  PressureReason, low_available_memory, os_memory_pressure, high_cpu_load, thermal_throttling,
  active_swapping, shows, recovered_reason, reason_observed, load_per_cpu,
}

load_gap :
    (floats : Floats) (load : Option floats.F) (hold resume : floats.F)
    → floats.at_most hold resume ≡ false
    → is_some_and load (λ l. floats.at_most hold l) ≡ true
    → is_some_and load (λ l. floats.at_most l resume) ≡ false
load_gap floats none hold resume apart e = cc
load_gap floats (some l) hold resume apart e = ground (arith, floats.at_most_trans hold l resume)

-- Under a policy that was accepted, a sample that shows a reason to hold work carries the signal of
-- this reason, and the same sample never counts as its recovery.
shows-recovered_reason :
    (floats : Floats) (policy : ResourcePolicy floats) (reason : PressureReason)
    (current : HostResources floats) (previous : Option (HostResources floats))
    → validate floats policy ≡ true
    → shows floats reason current previous policy ≡ true
    → (reason_observed floats reason current ≡ true)
      × (recovered_reason floats reason current previous policy ≡ false)
unfolding shows recovered_reason reason_observed
shows-recovered_reason floats policy low_available_memory current previous e h =
    let mono =
      reserve_mono floats policy current.total_memory_bytes (validate-Valid floats policy e) in
    ground arith
shows-recovered_reason floats policy os_memory_pressure current previous e h = ground arith
shows-recovered_reason floats policy high_cpu_load current previous e h =
    let v = validate-Valid floats policy e in
    (ground arith, load_gap floats (load_per_cpu floats current) _ _ v.loads h)
shows-recovered_reason floats policy thermal_throttling current previous e h = ground arith
shows-recovered_reason floats policy active_swapping current previous e h = ground arith
