-- ===== src/Controller/FailoverTests.antt =====
-- A small machine, and the theorems on switches and on the failover cycle at inputs that meet their
-- hypotheses.
use mathlib.Core.List.{Perm}
use yarisugi.Prelude.{
  ℕ, ◌≤◌, ◌≡◌, refl, true, false, List, [], ◌∷◌, ◌++◌, keep_if, Option, none, some, String, ok, err,
  ltb, min, arith, All, length, compare,
}
use yarisugi.Prelude.Sorting.{IsSorted}
use yarisugi.Ir.Protocol.{trojan}
use yarisugi.Ir.Transport.{tcp, no_security}
use yarisugi.Ir.Node.{CanonicalNode, domain}
use yarisugi.Adapter.Supervisor.{Host, Exit, exited, spawned, apply_config}
use yarisugi.Adapter.Steps.{FileLaws}
use yarisugi.Adapter.Targets.{ScatterReport, default_scatter}
use yarisugi.Adapter.Scatter.{range}
use yarisugi.Controller.Tests.{toy, toy_laws, slow}
use yarisugi.Controller.Tracks.{CandidateScore}
use yarisugi.Controller.Shortlist.{
  CheapOutcome, Trials, alive, latency_key, default_preflight, select_finalists, tiered_shortlist,
}
use yarisugi.Controller.Finalists.{IsAlive, select_finalists-fastest}
use yarisugi.Controller.Trials.{IsScoreOf, tiered_shortlist-IsScoreOf}
use yarisugi.Controller.Session.{
  scatter_config, Environment, ProxyController, default_settings, switch_node,
}
use yarisugi.Controller.Routing.{MachineLaws}
use yarisugi.Controller.Switching.{Outcome, switch_node-Outcome}
use yarisugi.Controller.Rollback.{IsRestored, switch_node-IsRestored}
use yarisugi.Controller.Failover.{
  FailoverAction, FailoverStatus, FailoverHooks, TunnelHealth, default_failover, default_status,
  candidate_nodes, tunnel_confirms_trouble,
}
use yarisugi.Controller.Watchdog.{run_failover_cycle}
use yarisugi.Controller.Justified.{Earns}
use yarisugi.Controller.Conduct.{run_failover_cycle-Earns}
use yarisugi.Controller.Real.{real_hooks, SweepLaw, real_hooks-RescoreLaws}
use yarisugi.Controller.Service.{After, run_failover_cycle-After}
use yarisugi.Controller.Search.{Heals}
use yarisugi.Controller.Recovery.{run_failover_cycle-Heals}

abbrev rows : List CheapOutcome
rows =
    record { latency = some 90; dead = false }
    ∷ record { latency = none; dead = true }
    ∷ record { latency = none; dead = false }
    ∷ record { latency = some 20; dead = false }
    ∷ []

fastest : select_finalists rows 2 ≡ some (0 ∷ 3 ∷ [])
unfolding select_finalists
fastest = refl

select_finalists-fastest_example :
    (chosen rest : List ℕ) × (select_finalists rows 2 ≡ some chosen)
    × Perm (keep_if (alive rows) (range 0 4)) (chosen ++ rest)
    × (length chosen ≡ min 2 (length (keep_if (alive rows) (range 0 4))))
    × IsSorted compare chosen
    × All (IsAlive rows) chosen
    × All (λ i. All (λ j. latency_key rows i ≤ latency_key rows j) rest) chosen
select_finalists-fastest_example = select_finalists-fastest rows 2

-- One file with a number in it; the core's check accepts the numbers below 100.
abbrev checks : List String → Option ℕ → Exit × Option ℕ
checks args none = (exited false "no configuration", none)
checks args (some n) = (exited (ltb n 100) "checked", some n)

abbrev host : Host
host = record {
  World = Option ℕ;
  Bytes = ℕ;
  read = λ path w. w;
  write = λ path b w. (ok tt, some b);
  run = checks;
  spawn = λ args w. (spawned 41, w);
  hang_up = λ pid w. (none, w);
  terminate = λ pid w. w;
}

checks_keeps : (args : List String) (w : Option ℕ) → (checks args w).1 ≡ w
checks_keeps args none = refl
checks_keeps args (some n) = refl

files : FileLaws host
files = record {
  read_write = λ path b w w' h. ground arith;
  read_run = λ path args w. checks_keeps args w;
  read_spawn = λ path args w. refl;
  read_hang_up = λ path pid w. refl;
}

abbrev node : CanonicalNode
node = record {
  hash = 1 ∷ [];
  meta = record { sub_id = 1; label = "one"; country_code = (68, 69); import_timestamp = 1 };
  endpoint = domain (97 ∷ []) 443;
  protocol = trojan (record { password = "secret" });
  transport = tcp;
  security = no_security;
  mux = none;
}

-- A catalog of one node, which compiles to 7; a node with the hash 500 compiles to 500.
abbrev env : Environment
env = record {
  host = host;
  now = λ w. 5;
  unix_time = λ w. 0;
  node_rows = λ w. ok (ok (3, 0) ∷ []);
  decode_node_payload = λ b. ok node;
  compile_full_config = λ n port mark provider dns. elim n.hash [ [] ↦ ok 500 | _ ∷ _ ↦ ok 7 ];
  enable_routing = λ spec w. (ok tt, w);
  disable_routing = λ w. (ok tt, w);
}

machine : MachineLaws env
machine = record { files = files; read_enable_routing = λ path spec w. refl }

abbrev fresh : ProxyController env
fresh = record {
  session = record {
    supervisor = record { binary = "sing-box"; config_path = "config.json"; child = none };
    world = some 9;
  };
  netd = true;
  settings = default_settings none;
  active_node = none;
  last_auto_switch = none;
  last_manual_switch = none;
  degraded = false;
}

switch_node-Outcome_example : Outcome env machine fresh node true (switch_node env node true fresh)
switch_node-Outcome_example = switch_node-Outcome env machine fresh node true

abbrev broken : CanonicalNode
broken = record node { hash = [] }

abbrev serving : ProxyController env
serving = record fresh {
  session = record {
    supervisor = record { binary = "sing-box"; config_path = "config.json"; child = some 41 };
    world = some 7;
  };
  active_node = some node;
}

refused : switch_node env broken false serving ≡ (err "apply core config", serving)
unfolding switch_node apply_config
refused = refl

switch_node-IsRestored_example : IsRestored env machine serving 7 serving
switch_node-IsRestored_example =
    switch_node-IsRestored env machine serving serving broken false 7 refl (λ b w. (some b, refl))
      refused

abbrev good_report : ScatterReport
good_report = record { checks = []; verified = 3; total = 9; quorum_verified = 3; passes = true }

abbrev one_row : List CanonicalNode → List CheapOutcome
one_row [] = []
one_row (_ ∷ _) = record { latency = some 20; dead = false } ∷ []

length-one_row : (nodes : List CanonicalNode) → length (one_row nodes) ≤ length nodes
length-one_row [] = omega arith
length-one_row (_ ∷ nodes) = omega arith

abbrev trials : Trials (Option ℕ)
trials = record {
  cheap_sweep = λ nodes preflight w. (one_row nodes, w);
  test_egress_scatter = λ binary n cfg w. (ok good_report, w);
}

tiered_shortlist-IsScoreOf_example :
    (scores : List CandidateScore) × (w : Option ℕ) × (tiered_shortlist trials "sing-box"
        (node ∷ [])
        default_preflight
        default_scatter
        8
        (some 7)
      ≡ some (scores, w))
    × (length scores ≤ 8)
    × All (IsScoreOf trials "sing-box" (node ∷ []) default_scatter) scores
tiered_shortlist-IsScoreOf_example =
    tiered_shortlist-IsScoreOf trials "sing-box" (node ∷ []) default_preflight default_scatter 8
      (some 7) (length-one_row (node ∷ []))

abbrev no_telemetry : CanonicalNode → Option ℕ → Option TunnelHealth
no_telemetry n w = none

sweep : SweepLaw env trials no_telemetry
sweep nodes preflight w = length-one_row nodes

-- With no active node, the cycle adopts one.
run_failover_cycle-After_example :
    (action : FailoverAction) × (c' : ProxyController env) × (status' : FailoverStatus toy)
    × (run_failover_cycle env toy default_failover
          (real_hooks env trials no_telemetry)
          fresh
          (default_status toy)
        ≡ some (action, (c', status')))
    × After env toy default_failover trials no_telemetry toy_laws machine sweep fresh action c'
run_failover_cycle-After_example =
    run_failover_cycle-After env toy default_failover trials no_telemetry toy_laws machine sweep
      fresh (default_status toy)

run_failover_cycle-Earns_example :
    Earns env toy default_failover (real_hooks env trials no_telemetry) serving 0 (
      run_failover_cycle env toy default_failover
        (real_hooks env trials no_telemetry)
        serving
        (default_status toy))
unfolding default_status tunnel_confirms_trouble
run_failover_cycle-Earns_example =
    run_failover_cycle-Earns env toy default_failover (real_hooks env trials no_telemetry) toy_laws
      (real_hooks-RescoreLaws env trials no_telemetry sweep) serving (default_status toy)

abbrev direct : ProxyController env
direct = record fresh { degraded = true }

abbrev score : CandidateScore
score = record slow { node_index = 0 }

abbrev hooks : FailoverHooks env
hooks = record {
  probe = λ n cfg c. (ok good_report, c);
  rescore = λ nodes cfg limit c. some (ok (score ∷ []), c);
  switch_node = λ n automatic c. (ok "switched", c);
  degrade = λ c. c;
  tunnel_health = none;
}

catalog : candidate_nodes env direct ≡ ok (node ∷ [])
unfolding candidate_nodes
catalog = refl

run_failover_cycle-Heals_example :
    Heals env toy default_failover hooks
      (scatter_config direct.settings)
      (node ∷ [])
      (score ∷ [])
      0
      (run_failover_cycle env toy default_failover hooks direct (default_status toy))
run_failover_cycle-Heals_example =
    run_failover_cycle-Heals env toy default_failover hooks direct direct (default_status toy)
      (node ∷ []) (score ∷ []) 0 score node refl catalog refl (omega arith, tt) refl refl refl
      (λ d. (refl, ("switched", refl)))
