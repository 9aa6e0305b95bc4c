-- ===== src/Tests/Locking.antt =====
-- Two threads that ask for a probe together, of which one starts it.
use nf_orchestrator.Prelude.{ℕ, ◌+◌, ◌*◌, ◌≤◌, ◌≡◌, refl, ◌⊎◌, true, none, arith, []}
use nf_orchestrator.Host.{Probe, run_process, day_time, monotonic}
use nf_orchestrator.Deploy.Probe.{measure_probe}
use nf_orchestrator.Deploy.Probe.Lock.{
  call, acquire, read, reuse, renew, launch, finish, stamp, store, release, System, pick, tick,
  Reach, start, later,
}
use nf_orchestrator.Deploy.Probe.Lock.Invariant.{critical, shared_launches}
use nf_orchestrator.Deploy.Probe.Lock.Safety.{
  CanMove, Reach-probes, Reach-fresh, Reach-paced, Reach-moves,
}
use nf_orchestrator.Deploy.Probe.Lock.Serial.{Serial, Serially}
use nf_orchestrator.Deploy.Probe.Lock.Linked.{Logged}
use nf_orchestrator.Deploy.Probe.Lock.Refined.{Reach-Serially}
use nf_orchestrator.Deploy.Probe.Lock.Turns.{Turned, api_server_probe-Turn}
use nf_orchestrator.Tests.Hosts.{working, started}
use nf_orchestrator.Deploy.Klog.{round_trip, startup_delay}

abbrev answer : Probe
answer = record {
  answered = true;
  seconds = 3000;
  round_trip = none;
  started = true;
  startup = none;
  error = [];
  spawn_failure = none;
}

-- A reachable state, with the way to it.
record Run : Type 0 where
  last : System
  reach : Reach working 100 last

-- Both have called, and the first one's kubectl runs.
abbrev measuring_run : Run
measuring_run = record {
  last = _;
  reach =
      later
        (later
          (later
            (later
              (later
                (later (later start (pick 0 (call 5_000_000 none))) (pick 1 (call 5_000_000 none)))
                (pick 0 (acquire refl)))
              (pick 0 read))
            (pick 0 (renew refl)))
          (pick 0 launch))
        (tick 3000);
}

-- The first one's answer has come to both.
shared_run : Run
unfolding measure_probe run_process day_time monotonic round_trip startup_delay
shared_run = record {
  last = _;
  reach =
      later
        (later
          (later
            (later
              (later
                (later
                  (later (later measuring_run.reach (pick 0 (finish started refl))) (pick 0 stamp))
                  (pick 0 store))
                (pick 0 release))
              (pick 1 (acquire refl)))
            (pick 1 read))
          (pick 1 (reuse refl)))
        (pick 1 release);
}

Reach-probes_example : ◌≡◌ {A = ℕ} 0 0
Reach-probes_example = Reach-probes working 100 measuring_run.last measuring_run.reach 0 0 refl refl

Reach-paced_example :
    100 + shared_launches 5_000_000 shared_run.last.shared.launched * 5_000_000
    ≤ shared_run.last.shared.now + 5_000_000
Reach-paced_example =
    Reach-paced working 5_000_000 100 shared_run.last (omega arith) shared_run.reach

Reach-moves_example :
    CanMove working measuring_run.last.shared (measuring_run.last.pc 1)
    ⊎ ((j : ℕ) × (critical (measuring_run.last.pc j) ≡ true)
        × CanMove working measuring_run.last.shared (measuring_run.last.pc j))
Reach-moves_example =
    Reach-moves working 100 measuring_run.last measuring_run.reach 1 (λ e. absurd (ground arith))

Reach-fresh_example : (100 ≤ 3100 + 5_000_000) × (3100 ≤ 3100)
unfolding shared_run
Reach-fresh_example =
    Reach-fresh working 100 shared_run.last shared_run.reach 1
      (record { max_age = 5_000_000; timeout = none; called_at = 100 }) 3100 answer refl

Reach-Serially_example :
    (t : Serial) × Serially working 100 t
    × (t.probe ≡ shared_run.last.shared.probe)
    × (t.now ≤ shared_run.last.shared.now)
    × ((i : ℕ) → Logged t.log (shared_run.last.pc i))
Reach-Serially_example = Reach-Serially working 100 shared_run.last shared_run.reach

api_server_probe-Turn_example :
    Turned working (record { max_age = 5_000_000; timeout = none; called_at = 0 }) started []
api_server_probe-Turn_example =
    api_server_probe-Turn working (record { max_age = 5_000_000; timeout = none; called_at = 0 })
      started [] (λ i j later. omega arith) (omega arith)
