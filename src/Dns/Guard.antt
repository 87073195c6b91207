-- ===== src/Dns/Guard.antt =====
-- Replies of node/dnsfe/server.go that come from elsewhere, and that there always is one.
use smart_dns_proxy.Prelude.{
  ℕ, ◌/◌, ◌≡◌, refl, sym, ap, ◌∙◌, ◌⊎◌, inl, inr, Bool, true, false, not, ◌&&◌, Option, none, some,
  List, [], ◌∷◌, ◌++◌, leb, ◌==◌, if◌then◌else◌, nat_eq, is_empty, Bytes, codes, bytes_beq,
  bytes_eq,
}
use mathlib.Core.Path.{subst}
use smart_dns_proxy.Platform.{Platform}
use smart_dns_proxy.Netip.{Addr, Prefix}
use smart_dns_proxy.Model.{Service, NodeConfig}
use smart_dns_proxy.Router.{Router, apply, lookup, allow_client, normalize_qname}
use smart_dns_proxy.Limiter.{allow}
use smart_dns_proxy.Dns.{
  Question, Rr, Msg, DnsLib, Upstream, Server, format_error, server_failure, refused,
}
use smart_dns_proxy.Dns.Handler.{
  refuse, ask, forward, synthesize, resolve, handle_question, handle, answers_for, reply_to,
  soa_for, effective_ttl,
}

module _ (lib : DnsLib) where
  -- A reply that the resolver gave to the question, under this address, or a refusal.
  abbrev pub IsHonest : Upstream → Bytes → Msg → Msg → Type 0
  IsHonest up address req m =
      ((code : ℕ) × (m ≡ refuse lib req code))
      ⊎ ((resp : Msg) × ((up.exchange_udp (record req { id = up.fresh_id }) address ≡ some resp)
            ⊎ (up.exchange_tcp (record req { id = up.fresh_id }) address ≡ some resp))
          × (m ≡ record resp { id = req.id; question = req.question }))

  ask-some :
      (up : Upstream) (proto : Bytes) (out : Msg) (address : Bytes) (resp : Msg)
      → ask lib up proto out address ≡ some resp
      → (up.exchange_udp out address ≡ some resp) ⊎ (up.exchange_tcp out address ≡ some resp)
  unfolding ask
  ask-some up proto out address resp q = by_udp (up.exchange_udp out address) refl q
    where
      by_udp :
          (o : Option Msg)
          → up.exchange_udp out address ≡ o
          → (elim o as (λ _. Option Msg) [
            | none ↦ none
            | some r ↦
                if r.truncated && not (bytes_beq proto (codes "udp"))
                then up.exchange_tcp out address
                else some r
          ])
            ≡ some resp
          → (up.exchange_udp out address ≡ some resp) ⊎ (up.exchange_tcp out address ≡ some resp)
      by_udp none e q = cc
      by_udp (some r) e q = by_cut (r.truncated && not (bytes_beq proto (codes "udp"))) q
        where
          by_cut :
              (cut : Bool)
              → (if cut then up.exchange_tcp out address else some r) ≡ some resp
              → (up.exchange_udp out address ≡ some resp)
                ⊎ (up.exchange_tcp out address ≡ some resp)
          by_cut true q = inr q
          by_cut false q = inl (e ∙ q)

  abbrev pub address_of : Server → Bytes
  address_of s = if is_empty s.upstream then codes "127.0.0.1:5335" else s.upstream

  forward-IsHonest :
      (s : Server) (up : Upstream) (inflight : ℕ) (req : Msg) (proto : Bytes)
      → IsHonest up (address_of s) req (forward lib s up inflight req proto)
  unfolding forward
  forward-IsHonest s up inflight req proto = by_room (leb s.max_inflight inflight)
    where
      by_reply :
          (o : Option Msg)
          → ask lib up proto (record req { id = up.fresh_id }) (address_of s) ≡ o
          → IsHonest up (address_of s) req (elim o as (λ _. Msg) [
            | none ↦ refuse lib req server_failure
            | some resp ↦ record resp { id = req.id; question = req.question }
          ])
      by_reply none e = inl (server_failure, refl)
      by_reply (some resp) e = inr (resp, ask-some up proto _ (address_of s) resp e, refl)

      by_room :
          (full : Bool)
          → IsHonest up (address_of s) req (
              if full
              then refuse lib req server_failure
              else elim (ask lib up proto (record req { id = up.fresh_id }) (address_of s))
                  as (λ _. Msg) [
                    | none ↦ refuse lib req server_failure
                    | some resp ↦ record resp { id = req.id; question = req.question }
                  ])
      by_room true = inl (server_failure, refl)
      by_room false = by_reply _ refl

  -- The server never invents an answer for a name that no service owns. Its reply to a query with one
  -- question for such a name is a refusal, or what the resolver sent, over UDP or TCP, to the query
  -- under a fresh ID, with the ID and the question of the query put back.
  pub handle-unmanaged :
      (pl : Platform) (s s' : Server) (up : Upstream) (inflight now : ℕ) (req : Msg) (client : Addr)
      (proto token : Bytes) (q : Question) (m : Msg)
      → req.question ≡ q ∷ []
      → lookup pl s.router (normalize_qname pl q.name) ≡ none
      → handle lib pl s up inflight now req client proto token ≡ some (m, s')
      → IsHonest up (address_of s) req m
  unfolding handle handle_question resolve
  handle-unmanaged pl s s' up inflight now req client proto token q m asked unowned handled =
      by_guards (not (req.opcode == 0)) (not (allow_client pl s.router client token))
        (not (allow s.limiter client now).1)
        (subst
          (λ (qs : List Question).
            (elim qs as (λ _. Option (Msg × Server)) [
              | [] ↦ some (refuse lib req format_error, s)
              | q ∷ qs ↦
                  if not (is_empty qs && req.opcode == 0)
                  then some (refuse lib req format_error, s)
                  else handle_question lib pl s up inflight now req client proto token q
            ])
            ≡ some (m, s'))
          asked handled)
    where
      spent : Server
      spent = record s { limiter = (allow s.limiter client now).0 }

      by_owner :
          (o : Option Service)
          → o ≡ none
          → (elim o as (λ _. Option (Msg × Server)) [
            | none ↦ some (forward lib spent up inflight req proto, spent)
            | some svc ↦ elim s.router.cfg as (λ _. Option (Msg × Server)) [
              | none ↦ none
              | some c ↦
                  some (synthesize lib c.dns spent up inflight (now / 1000000000) req svc q proto)
            ]
          ])
            ≡ some (m, s')
          → IsHonest up (address_of s) req m
      by_owner (some svc) e q = cc
      by_owner none e q =
          let same : forward lib spent up inflight req proto ≡ m = cc in
          subst (IsHonest up (address_of s) req) same (forward-IsHonest spent up inflight req proto)

      by_guards :
          (malformed denied full : Bool)
          → (if malformed
              then some (refuse lib req format_error, s)
              else if denied
              then some (refuse lib req refused, s)
              else if full
              then some (refuse lib req refused, spent)
              else resolve lib pl spent up inflight (now / 1000000000) req q proto)
            ≡ some (m, s')
          → IsHonest up (address_of s) req m
      by_guards true denied full e =
          let same : refuse lib req format_error ≡ m = cc in inl (format_error, sym same)
      by_guards false true full e =
          let same : refuse lib req refused ≡ m = cc in inl (refused, sym same)
      by_guards false false true e =
          let same : refuse lib req refused ≡ m = cc in inl (refused, sym same)
      by_guards false false false e =
          by_owner (lookup pl s.router (normalize_qname pl q.name)) unowned e

  -- There is a reply, and the server keeps its router, its upstream and its limit of queries.
  abbrev pub Replies : Server → Option (Msg × Server) → Type 0
  Replies s o =
      (m : Msg) × (s' : Server) × (o ≡ some (m, s'))
      × (s'.router ≡ s.router)
      × (s'.upstream ≡ s.upstream)
      × (s'.max_inflight ≡ s.max_inflight)

  synthesize-Replies :
      (s : Server) (up : Upstream) (inflight now : ℕ) (req : Msg) (svc : Service) (q : Question)
      (proto : Bytes) (c : NodeConfig)
      → Replies s (some (synthesize lib c.dns s up inflight now req svc q proto))
  unfolding synthesize
  synthesize-Replies s up inflight now req svc q proto c =
      by_answers (answers_for lib c.dns svc q (reply_to lib req).answer s.rot_seed)
    where
      by_answers :
          (o : Option (List Rr × ℕ))
          → Replies s (
              some (elim o as (λ _. Msg × Server) [
                | none ↦ (forward lib s up inflight req proto, s)
                | some (rrs, seed) ↦
                    let m = reply_to lib req in
                    let m = record m { answer = rrs } in
                    (
                      if is_empty m.answer
                          then record m {
                            ns = m.ns ++ soa_for lib now q.name (effective_ttl svc c.dns) ∷ [];
                          }
                          else m,
                      record s { rot_seed = seed },
                    )
              ]))
      by_answers none = (_, _, refl, refl, refl, refl)
      by_answers (some (rrs, seed)) = (_, _, refl, refl, refl, refl)

  -- Once a configuration is applied to the router, every query gets a reply, and the server that
  -- answers keeps its router, its upstream and its limit of queries.
  pub handle-Replies :
      (pl : Platform) (parse : Bytes → Option Prefix) (c : NodeConfig) (s : Server) (up : Upstream)
      (inflight now : ℕ) (req : Msg) (client : Addr) (proto token : Bytes)
      → s.router ≡ apply pl parse c
      → Replies s (handle lib pl s up inflight now req client proto token)
  unfolding handle handle_question resolve apply
  handle-Replies pl parse c s up inflight now req client proto token applied =
      by_question req.question
    where
      configured : s.router.cfg ≡ some c
      configured = ap (λ (r : Router). r.cfg) applied

      spent : Server
      spent = record s { limiter = (allow s.limiter client now).0 }

      by_cfg :
          (q : Question) (svc : Service) (k : Option NodeConfig)
          → k ≡ some c
          → Replies s (elim k as (λ _. Option (Msg × Server)) [
            | none ↦ none
            | some c ↦
                some (synthesize lib c.dns spent up inflight (now / 1000000000) req svc q proto)
          ])
      by_cfg q svc none e = cc
      by_cfg q svc (some d) e =
          synthesize-Replies spent up inflight (now / 1000000000) req svc q proto d

      by_owner :
          (q : Question) (o : Option Service)
          → Replies s (elim o as (λ _. Option (Msg × Server)) [
            | none ↦ some (forward lib spent up inflight req proto, spent)
            | some svc ↦ elim s.router.cfg as (λ _. Option (Msg × Server)) [
              | none ↦ none
              | some c ↦
                  some (synthesize lib c.dns spent up inflight (now / 1000000000) req svc q proto)
            ]
          ])
      by_owner q none = (_, _, refl, refl, refl, refl)
      by_owner q (some svc) = by_cfg q svc s.router.cfg configured

      by_guards :
          (q : Question) (denied full : Bool)
          → Replies s (
              if denied
              then some (refuse lib req refused, s)
              else if full
              then some (refuse lib req refused, spent)
              else resolve lib pl spent up inflight (now / 1000000000) req q proto)
      by_guards q true full = (_, _, refl, refl, refl, refl)
      by_guards q false true = (_, _, refl, refl, refl, refl)
      by_guards q false false = by_owner q (lookup pl s.router (normalize_qname pl q.name))

      by_form :
          (q : Question) (malformed : Bool)
          → Replies s (
              if malformed
              then some (refuse lib req format_error, s)
              else handle_question lib pl s up inflight now req client proto token q)
      by_form q true = (_, _, refl, refl, refl, refl)
      by_form q false = by_guards q _ _

      by_question :
          (qs : List Question)
          → Replies s (elim qs as (λ _. Option (Msg × Server)) [
            | [] ↦ some (refuse lib req format_error, s)
            | q ∷ qs ↦
                if not (is_empty qs && req.opcode == 0)
                then some (refuse lib req format_error, s)
                else handle_question lib pl s up inflight now req client proto token q
          ])
      by_question [] = (_, _, refl, refl, refl, refl)
      by_question (q ∷ qs) = by_form q _
