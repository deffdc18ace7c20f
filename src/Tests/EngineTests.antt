-- ===== src/Tests/EngineTests.antt =====
-- Runs of the engine: a start with quantum on the kernel, a stop, and a loop of commands.
use mathlib.Core.Path.{◌≡◌, refl}
use mathlib.Core.List.{[], ◌∷◌}
use r_wg.Base.{true, false, none, some}
use r_wg.Base.Result.{ok}
use r_wg.Engine.{
  EngineState, Standing, Sys, Oracle, StartRequest, QuantumMode, DaitaMode, BackendPreference,
  ActiveBackend,
}
use r_wg.Engine.Stop.{stop}
use r_wg.Engine.Kernel.{start}
use r_wg.Engine.Runner.{Command, serve}
use r_wg.Engine.Settles.{Settled, start-Settled}
use r_wg.Engine.Stops.{
  Consistent, Stopped, stop-Stopped, stop-cached_userspace_device, serve-Consistent,
}

-- Every call succeeds.
abbrev smooth : Oracle
smooth = record {
  validate_daita = λ _. none;
  create_tun = λ _. true;
  configure = λ _. true;
  clear_peers = λ _. true;
  apply_network = λ _. true;
  cleanup_network = λ _. true;
  upgrade = λ _. none;
  start_kernel = λ _. true;
  kernel_unavailable = λ _. false;
  delete_kernel = λ _. true;
  clear_journal = λ _. true;
  mark_running = λ _. true;
  apply_guard = λ _. true;
  cleanup_guard = λ _. true;
  apply_update = λ _. true;
}

-- No kernel module, and the network cannot be configured.
abbrev rough : Oracle
rough = record smooth {
  start_kernel = λ _. false;
  kernel_unavailable = λ _. true;
  apply_network = λ _. false;
}

abbrev request : StartRequest
request = record {
  tun_name = "wg0";
  parses = true;
  resolves = true;
  has_peer = true;
  has_ipv6_routes = false;
  quantum_mode = QuantumMode.on;
  daita_mode = DaitaMode.off;
  kill_switch_enabled = false;
  preference = BackendPreference.auto;
}

abbrev fresh_state : EngineState
fresh_state = record {
  cached_userspace_device = none;
  active_backend = none;
  net_state = none;
  route_apply_report = none;
  running = false;
  quantum_active = false;
  daita_active = false;
  ephemeral_key_active = false;
  last_quantum_failure = none;
  last_daita_failure = none;
}

abbrev fresh : Sys
fresh = record {
  state = fresh_state;
  world = record {
    calls = 0;
    net = Standing.down;
    kernel_device = Standing.down;
    guard = Standing.down;
  };
}

abbrev up : Sys
up = record fresh {
  state = record fresh_state {
    running = true;
    net_state = some 2;
    route_apply_report = some 2;
    active_backend = some (ActiveBackend.kernel "wg0");
    quantum_active = true;
    ephemeral_key_active = true;
  };
  world = record fresh.world { net = Standing.up; kernel_device = Standing.up };
}

-- The kernel is unavailable, the start falls back, and fails.
start_falls_back : Settled (start rough request fresh).0 (start rough request fresh).1
start_falls_back = start-Settled rough request fresh refl refl (refl, refl, refl)

stop-Stopped_example : Stopped (stop smooth up).0 (stop smooth up).1.state
stop-Stopped_example = stop-Stopped smooth up refl

serve-Consistent_example :
    Consistent
      (serve rough
        (Command.start request ∷ Command.stop ∷ Command.start_panics up.state ∷ [])
        fresh).state
serve-Consistent_example =
    serve-Consistent rough
      (Command.start request ∷ Command.stop ∷ Command.start_panics up.state ∷ []) fresh (λ _. refl)

abbrev up_userspace : Sys
up_userspace = record up {
  state = record up.state { active_backend = some (ActiveBackend.userspace "wg0") };
}

stop-cached_userspace_device_example :
    (up_userspace.state.ephemeral_key_active ≡ true
      → (stop smooth up_userspace).1.state.cached_userspace_device ≡ none)
    × (up_userspace.state.ephemeral_key_active ≡ false
        → (stop smooth up_userspace).0 ≡ ok tt
        → (stop smooth up_userspace).1.state.cached_userspace_device ≡ some "wg0")
stop-cached_userspace_device_example =
    stop-cached_userspace_device smooth up_userspace "wg0" refl refl
