-- ===== src/Proxy/Path.antt =====
-- node/proxy/proxy.go, panel/internal/compiler/compile.go and node/relay/relay.go together: a session
-- on the ingress, and the relay behind the target that it is carried to.
use smart_dns_proxy.Prelude.{
  ℕ, ◌≡◌, refl, sym, inl, inr, Bool, true, false, ◌&&◌, ◌||◌, Option, none, some, List, [], ◌∷◌,
  if◌then◌else◌, nat_eq, is_empty, All, elem, Bytes, codes, bytes_beq, bytes_eq, ok,
}
use smart_dns_proxy.Prelude.Int.{ℤ, ltz, pos, eqz}
use mathlib.Core.Path.{subst}
use smart_dns_proxy.Platform.{Platform}
use smart_dns_proxy.Domainset.Matcher.{match, specificity}
use smart_dns_proxy.Domainset.Matcher.{compile as compile_set}
use smart_dns_proxy.Domainset.Matcher.Depth.{specificity_sound}
use smart_dns_proxy.Model.{EgressTarget, Service, NodeConfig}
use smart_dns_proxy.Selector.{Float, Target, Pool, order, thresholds, connected, new_pool, Attempt}
use smart_dns_proxy.Selector.Source.{Of, new_pool-Of, order-Of, dial_loop-Of}
use smart_dns_proxy.Proxy.{
  SvcRoute, routes_of, previous_targets, apply, Best, no_best, consider, lookup_loop, lookup,
  port_allowed, dial,
}
use smart_dns_proxy.Proxy.Session.{Client, Network, proxied, handle}
use smart_dns_proxy.Proxy.Guard.{handle-proxied}
use smart_dns_proxy.Router.Owner.{Member}
use smart_dns_proxy.Compiler.Types.{Input as CompileInput, Output}
use smart_dns_proxy.Compiler.Nodes.{Codec}
use smart_dns_proxy.Compiler.{compile}
use smart_dns_proxy.Compiler.Shape.{IsRunnable, compile-IsRunnable}
use smart_dns_proxy.Relay.{allowed}
use smart_dns_proxy.Relay.{apply as relay_apply}
use smart_dns_proxy.Relay.Carries.{Admits, compile-admitted}

-- What holds of each route of the table, and that the host matches it.
abbrev Found : {F : Type 0} → Platform → Bytes → (SvcRoute F → Type 0) → SvcRoute F → Type 0
Found pl host P r = P r × (ltz (specificity pl (some r.matcher) host) (pos 0) ≡ false)

lookup_loop-Found :
    {F : Type 0} (pl : Platform) (host : Bytes) (P : SvcRoute F → Type 0)
    (routes : List (SvcRoute F)) (b : Best F) (r : SvcRoute F)
    → All P routes
    → (b.best ≡ some r → Found pl host P r)
    → (lookup_loop pl host routes b).best ≡ some r
    → Found pl host P r
unfolding lookup_loop consider
lookup_loop-Found {F} pl host P [] b r h old q = old q
lookup_loop-Found {F} pl host P (s ∷ routes) b r h old q =
    lookup_loop-Found pl host P routes (consider s spec b) r h.1
      (by_round (ltz spec (pos 0))
        (ltz b.spec spec || (eqz spec b.spec && ltz b.prio s.svc.priority)) refl)
      q
  where
    spec : ℤ
    spec = specificity pl (some s.matcher) host

    by_round :
        (low better : Bool)
        → ltz spec (pos 0) ≡ low
        → let c : Best F =
            if low
            then b
            else if better
            then record { best = some s; spec = spec; prio = s.svc.priority }
            else b in
          c.best ≡ some r → Found pl host P r
    by_round true better e = old
    by_round false false e = old
    by_round false true e =
        λ (q : some s ≡ some r). let same : s ≡ r = cc in subst (Found pl host P) same (h.0, e)

module _ {F : Type 0} (fl : Float F) (pl : Platform) where
  -- What holds of a service, and how its route was made.
  abbrev Made : (Service → Type 0) → SvcRoute F → Type 0
  Made Q r =
      Q r.svc
      × (r.matcher ≡ compile_set pl r.svc.rules)
      × ((prev : List (Target F)) × (r.pool ≡ new_pool fl r.svc.egress prev))

  routes_of-Made :
      (Q : Service → Type 0) (prev : List (SvcRoute F)) (services : List Service)
      → All Q services
      → All (Made Q) (routes_of fl pl prev services)
  unfolding routes_of
  routes_of-Made Q prev [] h = tt
  routes_of-Made Q prev (s ∷ services) (q, h) =
      ((q, refl, (previous_targets fl s.slug prev, refl)), routes_of-Made Q prev services h)

  dial-Of :
      (P : EgressTarget → Type 0) (host : Bytes) (port : ℕ) (attempt : Target F → Attempt)
      (draw : ℕ → ℕ → ℕ) (p : Pool F) (t : Target F)
      → Of fl P p.targets
      → (dial fl host port attempt draw p).0 ≡ connected t
      → P t.egress
  unfolding dial
  dial-Of P host port attempt draw p t h q =
      dial_loop-Of fl P (thresholds fl p).0 (thresholds fl p).1 host port attempt
        (order fl p draw).0 none t (order-Of fl P p draw h) q

All-Member : {A : Type 0} (P : A → Type 0) (xs : List A) (x : A) → All P xs → Member x xs → P x
All-Member P [] x h m = absurd m
All-Member P (y ∷ ys) x h (inl same) = subst P (sym same) (h.0)
All-Member P (y ∷ ys) x h (inr later) = All-Member P ys x h.1 later

listed :
    (ports : List ℕ) (port : ℕ)
    → is_empty ports ≡ false
    → port_allowed ports port ≡ true
    → elem port ports ≡ true
unfolding port_allowed
listed [] port h q = cc
listed (p ∷ ports) port h q = q

-- What every service of every config of an output has to do with the relays of the output.
abbrev Reaches : Platform → Output → Service → Type 0
Reaches pl out s = IsRunnable s × All (λ t. All (Admits pl s t) out.configs) s.egress.targets

module _ {F : Type 0} (fl : Float F) (pl : Platform) (codec : Codec) (inp : CompileInput)
    (out : Output) (split_host : Bytes → Option Bytes) (prev : List (SvcRoute F))
    (backend : Bytes) where
  both :
      (configs : List (Bytes × NodeConfig))
      → All (λ c. All IsRunnable (c.1).services) configs
      → All
          (λ c.
            All (λ s. All (λ t. All (Admits pl s t) out.configs) s.egress.targets) (c.1).services)
          configs
      → All (λ c. All (Reaches pl out) (c.1).services) configs
  both [] h k = tt
  both (c ∷ configs) (h, hs) (k, ks) = (zipped (c.1).services h k, both configs hs ks)
    where
      zipped :
          (ss : List Service)
          → All IsRunnable ss
          → All (λ s. All (λ t. All (Admits pl s t) out.configs) s.egress.targets) ss
          → All (Reaches pl out) ss
      zipped [] h k = tt
      zipped (s ∷ ss) h k = ((h.0, k.0), zipped ss h.1 k.1)

  -- The way of a session through the system. Let a compilation succeed, an ingress node apply a config
  -- of the output, and the proxy carry a session to a target. Then the relay of any node of the output
  -- that has the egress role and the target's ID allows the host and the port of the session.
  pub handle-admitted :
      (c e : Bytes × NodeConfig) (net : Network F) (active : ℕ) (client : Client) (t : Target F)
      (host : Bytes) (port : ℕ) (raw : Bytes)
      → compile codec inp ≡ ok out
      → Member c out.configs
      → Member e out.configs
      → (handle fl pl (apply fl pl split_host prev backend (c.1)) net active client).0
        ≡ proxied t host port raw
      → e.0 ≡ t.egress.node_id
      → bytes_beq (e.1).role (codes "egress") ≡ true
      → allowed pl (relay_apply pl (e.1)) host port ≡ true
  unfolding apply lookup
  handle-admitted c e net active client t host port raw q in_c in_e carried same egress =
      let p = apply fl pl split_host prev backend (c.1) in
      let (_, _, _, _, (r, (found, open_port, connects))) =
        handle-proxied fl pl p net client active t host port raw carried in
      let reach =
        All-Member (λ c. All (Reaches pl out) (c.1).services) out.configs c
          (both out.configs (compile-IsRunnable codec inp out q)
            (compile-admitted pl codec inp out q))
          in_c in
      let (((runs, reaches), made, (old, pooled)), hit) =
        lookup_loop-Found pl host (Made fl pl (Reaches pl out)) p.routes no_best r
          (routes_of-Made fl pl (Reaches pl out) prev (c.1).services reach) (λ x. cc) found in
      let of_pool : Of fl (λ t. All (Admits pl r.svc t) out.configs) r.pool.targets =
        rw pooled
          (new_pool-Of fl (λ t. All (Admits pl r.svc t) out.configs) r.svc.egress old reaches) in
      let admit =
        dial-Of fl pl (λ t. All (Admits pl r.svc t) out.configs) host port net.attempt net.draw
          r.pool t of_pool connects in
      let matched : match pl (some (compile_set pl r.svc.rules)) host ≡ true =
        specificity_sound pl (compile_set pl r.svc.rules) host (rw (sym made) hit) in
      All-Member (Admits pl r.svc t.egress) out.configs e admit in_e same egress host port matched
        (listed r.svc.allowed_ports port (runs.1) open_port)
