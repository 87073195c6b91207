-- ===== src/Dns/Ingress.antt =====
-- `Handle` of node/dnsfe/server.go for the names of services.
use smart_dns_proxy.Prelude.{
  ℕ, ◌/◌, ◌≡◌, refl, sym, ap, ◌∙◌, Bool, true, false, not, ◌&&◌, Option, none, some, List, [], ◌∷◌,
  ◌++◌, ◌==◌, if◌then◌else◌, nat_eq, is_empty, All, Bytes, bytes_eq,
}
use mathlib.Core.Path.{subst}
use smart_dns_proxy.Platform.{Platform}
use smart_dns_proxy.Netip.{Addr}
use smart_dns_proxy.Model.{Service, DnsConfig, NodeConfig}
use smart_dns_proxy.Router.{lookup, allow_client, normalize_qname}
use smart_dns_proxy.Limiter.{allow}
use smart_dns_proxy.Dns.{Question, Rr, Msg, DnsLib, Upstream, Server, format_error, refused}
use smart_dns_proxy.Dns.Handler.{
  effective_ttl, copy_edns, edns_size, refuse, answers_for, reply_to, synthesize, resolve,
  handle_question, handle, soa_for, forward,
}
use smart_dns_proxy.Dns.Records.{IsIngress, is_local, answers_for-All}

some_inj : {A : Type 0} {a b : A} → some a ≡ some b → a ≡ b
some_inj q = cc

resolve-managed :
    (lib : DnsLib) (pl : Platform) (s : Server) (up : Upstream) (inflight now : ℕ) (req : Msg)
    (q : Question) (proto : Bytes) (c : NodeConfig) (svc : Service)
    → s.router.cfg ≡ some c
    → lookup pl s.router (normalize_qname pl q.name) ≡ some svc
    → resolve lib pl s up inflight now req q proto
      ≡ some (synthesize lib c.dns s up inflight now req svc q proto)
unfolding resolve
resolve-managed lib pl s up inflight now req q proto c svc configured owned =
    by_owner (lookup pl s.router (normalize_qname pl q.name)) s.router.cfg owned configured
  where
    by_owner :
        (o : Option Service) (k : Option NodeConfig)
        → o ≡ some svc
        → k ≡ some c
        → (elim o as (λ _. Option (Msg × Server)) [
          | none ↦ some (forward lib s up inflight req proto, s)
          | some svc ↦ elim k as (λ _. Option (Msg × Server)) [
            | none ↦ none
            | some c ↦ some (synthesize lib c.dns s up inflight now req svc q proto)
          ]
        ])
          ≡ some (synthesize lib c.dns s up inflight now req svc q proto)
    by_owner none k e f = cc
    by_owner (some v) none e f = cc
    by_owner (some v) (some d) e f = cc

module _ (lib : DnsLib) (pl : Platform) (no_answer : (r : Msg) → (lib.set_reply r).answer ≡ [])
    (no_answer' : (r : Msg) (code : ℕ) → (lib.set_rcode r code).answer ≡ [])
    (same_answer : (r : Msg) (size : ℕ) (d : Bool)
      → (lib.set_edns0 r size d).answer ≡ r.answer) where
  copy_edns-answer : (req m : Msg) → (copy_edns lib req m).answer ≡ m.answer
  unfolding copy_edns
  copy_edns-answer req m = by_edns req.edns
    where
      by_edns :
          (o : Option ℕ)
          → let r : Msg = elim o as (λ _. Msg) [
            | some size ↦ lib.set_edns0 m (edns_size size) false
            | none ↦ m
          ] in
            r.answer ≡ m.answer
      by_edns none = refl
      by_edns (some size) = same_answer m (edns_size size) false

  refuse-answer : (req : Msg) (code : ℕ) → (refuse lib req code).answer ≡ []
  unfolding refuse
  refuse-answer req code =
      copy_edns-answer req (record (lib.set_rcode req code) { recursion_available = true })
      ∙ no_answer' req code

  reply_to-answer : (req : Msg) → (reply_to lib req).answer ≡ []
  unfolding reply_to
  reply_to-answer req =
      copy_edns-answer req (record (lib.set_reply req) {
        authoritative = true;
        recursion_available = true;
        authenticated_data = false;
      })
      ∙ no_answer req

  -- The local types need no resolver.
  synthesize-local :
      (dns : DnsConfig) (s : Server) (now : ℕ) (req : Msg) (svc : Service) (q : Question)
      → is_local dns q.qtype ≡ true
      → (r : Msg × Server) × All (IsIngress lib dns svc q.name) (r.0).answer
        × ((up : Upstream) (inflight : ℕ) (proto : Bytes)
            → synthesize lib dns s up inflight now req svc q proto ≡ r)
  unfolding synthesize
  synthesize-local dns s now req svc q local =
      let (rrs, seed', e, all_in) = answers_for-All lib dns svc q s.rot_seed local in
      let e' : answers_for lib dns svc q (reply_to lib req).answer s.rot_seed ≡ some (rrs, seed') =
        rw (reply_to-answer req) e in
      (
        (full rrs (is_empty rrs), record s { rot_seed = seed' }),
        all_full rrs (is_empty rrs) all_in,
        λ up inflight proto. rw (e', synthesize) refl,
      )
    where
      full : List Rr → Bool → Msg
      full rrs no_rrs =
          let m : Msg = record (reply_to lib req) { answer = rrs } in
          if no_rrs
          then record m { ns = m.ns ++ soa_for lib now q.name (effective_ttl svc dns) ∷ [] }
          else m

      all_full :
          (rrs : List Rr) (no_rrs : Bool)
          → All (IsIngress lib dns svc q.name) rrs
          → All (IsIngress lib dns svc q.name) (full rrs no_rrs).answer
      all_full rrs true h = h
      all_full rrs false h = h

  -- On a question for a name of a service, of a type that the server answers itself (A, AAAA, CNAME, NS
  -- and SOA, and HTTPS and SVCB if the config blocks them), the server gives the same reply with every
  -- resolver, load and protocol, and every answer in it is an address of one of the service's ingress
  -- nodes, if the library starts a reply without answers and the OPT record changes none.
  pub handle-managed :
      (s : Server) (up up' : Upstream) (inflight inflight' now : ℕ) (req : Msg) (client : Addr)
      (proto proto' token : Bytes) (q : Question) (c : NodeConfig) (svc : Service) (m : Msg)
      (s' : Server)
      → req.question ≡ q ∷ []
      → s.router.cfg ≡ some c
      → lookup pl s.router (normalize_qname pl q.name) ≡ some svc
      → is_local c.dns q.qtype ≡ true
      → handle lib pl s up inflight now req client proto token ≡ some (m, s')
      → (handle lib pl s up' inflight' now req client proto' token ≡ some (m, s'))
        × All (IsIngress lib c.dns svc q.name) m.answer
  unfolding handle handle_question resolve
  handle-managed s up up' inflight inflight' now req client proto proto' token q c svc m s' asked
        configured owned local handled =
      let (r, all_in, same) =
        synthesize-local c.dns (record s { limiter = (allow s.limiter client now).0 })
          (now / 1000000000) req svc q local in
      let chosen : Msg × Server =
        choice (not (req.opcode == 0)) (not (allow_client pl s.router client token))
          (not (allow s.limiter client now).1) r in
      let by_handle : (u : Upstream) (n : ℕ) (p : Bytes)
          → handle lib pl s u n now req client p token ≡ some chosen =
        λ u n p.
          let answered =
            resolve-managed lib pl (record s { limiter = (allow s.limiter client now).0 }) u n
              (now / 1000000000) req q p c svc configured owned
            ∙ ap some (same u n p) in
          subst
            (λ (qs : List Question).
              (elim qs as (λ _. Option (Msg × Server)) [
                | [] ↦ some (refuse lib req format_error, s)
                | q ∷ qs ↦
                    if not (is_empty qs && req.opcode == 0)
                    then some (refuse lib req format_error, s)
                    else handle_question lib pl s u n now req client p token q
              ])
              ≡ some chosen)
            (sym asked)
            (rw answered (
              commute (not (req.opcode == 0)) (not (allow_client pl s.router client token))
                (not (allow s.limiter client now).1) r)) in
      let same_reply : chosen ≡ (m, s') = some_inj (sym (by_handle up inflight proto) ∙ handled) in
      (
        by_handle up' inflight' proto' ∙ ap some same_reply,
        subst (λ (x : Msg × Server). All (IsIngress lib c.dns svc q.name) (x.0).answer) same_reply
            (all_choice (not (req.opcode == 0)) (not (allow_client pl s.router client token))
              (not (allow s.limiter client now).1) r all_in),
      )
    where
      choice : Bool → Bool → Bool → Msg × Server → Msg × Server
      choice true denied spent r = (refuse lib req format_error, s)
      choice false true spent r = (refuse lib req refused, s)
      choice false false true r =
          (refuse lib req refused, record s { limiter = (allow s.limiter client now).0 })
      choice false false false r = r

      commute :
          (malformed denied spent : Bool) (r : Msg × Server)
          → (if malformed
              then some (refuse lib req format_error, s)
              else if denied
              then some (refuse lib req refused, s)
              else if spent
              then some
                  (refuse lib req refused, record s { limiter = (allow s.limiter client now).0 })
              else some r)
            ≡ some (choice malformed denied spent r)
      commute true denied spent r = refl
      commute false true spent r = refl
      commute false false true r = refl
      commute false false false r = refl

      all_choice :
          (malformed denied spent : Bool) (r : Msg × Server)
          → All (IsIngress lib c.dns svc q.name) (r.0).answer
          → All (IsIngress lib c.dns svc q.name) ((choice malformed denied spent r).0).answer
      all_choice true denied spent r h =
          subst (λ xs. All (IsIngress lib c.dns svc q.name) xs)
            (sym (refuse-answer req format_error)) tt
      all_choice false true spent r h =
          subst (λ xs. All (IsIngress lib c.dns svc q.name) xs) (sym (refuse-answer req refused)) tt
      all_choice false false true r h =
          subst (λ xs. All (IsIngress lib c.dns svc q.name) xs) (sym (refuse-answer req refused)) tt
      all_choice false false false r h = h
