-- ===== src/Tests/Choices.antt =====
-- The router of the DNS server and the selector of the proxy.
use smart_dns_proxy.Prelude.{
  ℕ, ◌+◌, ◌-◌, ◌*◌, ◌/◌, ◌≡◌, refl, Bool, false, not, none, some, List, [], ◌∷◌, ◌++◌, ltb, ◌==◌,
  if◌then◌else◌, nat_eq, keep, Bytes, codes, bytes_beq, bytes_eq,
}
use smart_dns_proxy.Prelude.Int.{pos, ltz}
use mathlib.Core.List.{Perm}
use smart_dns_proxy.Tests.{plain}
use smart_dns_proxy.Domainset.Matcher.{specificity}
use smart_dns_proxy.Model.{EgressTarget, EgressPolicy, Service, NodeConfig}
use smart_dns_proxy.Compiler.Nodes.{no_dns, no_ingress, no_egress}
use smart_dns_proxy.Router.{Router, Route, apply, lookup}
use smart_dns_proxy.Router.Owner.{Member, Dominates, lookup-some}
use smart_dns_proxy.Selector.{Float, Target, Pool, new_pool, order, Attempt, dial_loop}
use smart_dns_proxy.Selector.Dial.{Explains, dial_loop-explained}
use smart_dns_proxy.Selector.Order.{order-perm}

-- latencies in whole milliseconds
abbrev pub whole : Float ℕ
whole = record {
  of_nat = λ n. n;
  add = λ a b. a + b;
  sub = λ a b. a - b;
  mul = λ a b. a * b;
  div = λ a b. a / b;
  lt = ltb;
  eq = λ a b. a == b;
}

abbrev egress : Bytes → ℕ → EgressTarget
egress id priority = record {
  node_id = id;
  name = id;
  endpoint = id;
  sni = id;
  priority = pos priority;
  weight = 1;
}

abbrev policy : Bytes → EgressPolicy
policy mode = record {
  mode = mode;
  targets = egress (codes "b") 2 ∷ egress (codes "a") 1 ∷ [];
  fail_threshold = pos 3;
  rise_threshold = pos 2;
  probe_interval = pos 30;
  hysteresis_pct = pos 20;
  hysteresis_ms = pos 20;
}

abbrev service : Bytes → List Bytes → List Bytes → ℕ → Service
service slug names suffixes priority = record {
  slug = slug;
  name = slug;
  priority = pos priority;
  ttl = 60;
  allowed_ports = 443 ∷ [];
  udp_mode = [];
  rules = record { exact_names = names; suffixes = suffixes; patterns = [] };
  rule_set_hash = [];
  ingress_v4 = [];
  ingress_v6 = [];
  egress = policy (codes "weighted");
}

abbrev pub wide : Service
wide = service (codes "wide") [] (codes "example.com" ∷ []) 9

abbrev pub narrow : Service
narrow = service (codes "narrow") (codes "www.example.com" ∷ []) [] 1

abbrev pub config : NodeConfig
config = record {
  schema_version = 1;
  revision_id = codes "r1";
  sequence = 1;
  node_id = codes "n1";
  node_name = codes "in";
  role = codes "ingress";
  services = wide ∷ narrow ∷ [];
  dns = no_dns;
  ingress = no_ingress;
  egress = no_egress;
  log_level = [];
  notes = [];
}

abbrev pub router : Router
router = apply plain (λ text. none) config

abbrev pub www : Bytes
www = codes "www.example.com"

lookup-some_example :
    (route : Route) × Member route router.routes
    × (route.svc ≡ narrow)
    × (ltz (specificity plain (some route.matcher) www) (pos 0) ≡ false)
    × Dominates plain www (specificity plain (some route.matcher) www) narrow.priority router.routes
unfolding lookup apply specificity smart_dns_proxy.Domainset.Matcher.compile
lookup-some_example = lookup-some plain router www narrow refl

abbrev target : Bool → Target ℕ
target healthy = record {
  egress = egress (codes "a") 1;
  healthy = healthy;
  fails = 0;
  successes = 0;
  latency = 0;
}

-- The first target does not answer, the second is reached.
abbrev attempt : Target ℕ → Attempt
attempt t = record {
  dial_error = if bytes_beq t.egress.node_id (codes "a") then some (codes "timeout") else none;
  handshake_error = none;
  peer = record { write_error = none; replies = 0 ∷ []; read_error = [] };
  micros = 100;
}

abbrev pool : Pool ℕ
pool = new_pool whole (policy (codes "weighted")) []

dial_loop-explained_example :
    let out = dial_loop whole 3 2 www 443 attempt pool.targets none in
    Explains whole 3 2 www 443 attempt pool.targets out.0 out.1
dial_loop-explained_example = dial_loop-explained whole 3 2 www 443 attempt pool.targets none

order-perm_example :
    Perm (order whole pool (λ round total. 1)).0 pool.targets
    × ((first : List (Target ℕ)) × ((order whole pool (λ round total. 1)).0
          ≡ first ++ keep (λ t. not t.healthy) pool.targets)
        × Perm first (keep (λ t. t.healthy) pool.targets))
unfolding new_pool
order-perm_example = order-perm whole pool (λ round total. 1) refl refl
