-- ===== src/Dns/Handler.antt =====
-- `New`, `Reload`, `Handle` and what they call, of node/dnsfe/server.go.
use smart_dns_proxy.Prelude.{
  ℕ, ◌+◌, ◌-◌, ◌/◌, ◌%◌, ◌^◌, true, false, not, ◌&&◌, ◌||◌, Option, none, some, List, [], ◌∷◌, ◌++◌,
  ltb, leb, ◌==◌, if◌then◌else◌, nat_eq, length, is_empty, take, drop, switch, Bytes, codes,
  bytes_beq, bytes_eq,
}
use smart_dns_proxy.Platform.{Platform}
use smart_dns_proxy.Netip.{Addr}
use smart_dns_proxy.Model.{Service, DnsConfig, NodeConfig}
use smart_dns_proxy.Router.{Router, lookup, allow_client, normalize_qname}
use smart_dns_proxy.Limiter.{new_limiter, configure, allow}
use smart_dns_proxy.Dns.{
  Question, Rr, a_record, aaaa_record, soa_record, Msg, DnsLib, Upstream, Server, type_a, type_ns,
  type_cname, type_soa, type_aaaa, type_svcb, type_https, format_error, server_failure, refused,
}

unfoldable pub new_server : ℕ → Router → NodeConfig → Server
new_server now r c = record {
  router = r;
  upstream = c.dns.upstream;
  limiter = new_limiter now c.dns.access.rate_limit_qps c.dns.access.rate_limit_burst;
  max_inflight = if c.dns.access.max_concurrent == 0 then 2048 else c.dns.access.max_concurrent;
  rot_seed = 0;
}

unfoldable pub reload : Server → NodeConfig → Server
reload s c = record s {
  upstream = c.dns.upstream;
  limiter = configure s.limiter c.dns.access.rate_limit_qps c.dns.access.rate_limit_burst;
}

-- the UDP size of an OPT record, from 512 to 4096
unfoldable pub edns_size : ℕ → ℕ
edns_size size =
    let atleast = if ltb size 512 then 512 else size in if ltb 4096 atleast then 4096 else atleast

unfoldable pub udp_size : Msg → ℕ
udp_size req = elim req.edns [
  | some n ↦ if leb 512 n then (if ltb 4096 n then 4096 else n) else 512
  | none ↦ 512
]

-- the counter, and the turn that it gives for so many answers
unfoldable pub rotate : ℕ → List Rr → List Rr × ℕ
rotate seed rr =
    if ltb (length rr) 2
    then (rr, seed)
    else let seed' = (seed + 1) % 2 ^ 32 in
      let n = seed' % length rr in if n == 0 then (rr, seed') else (drop n rr ++ take n rr, seed')

unfoldable pub effective_ttl : Service → DnsConfig → ℕ
effective_ttl svc dns =
    let ttl = if ltb svc.ttl dns.min_ttl then dns.min_ttl else svc.ttl in
    let ttl = if ltb 0 dns.max_ttl && ltb dns.max_ttl ttl then dns.max_ttl else ttl in
    if ttl == 0 then 60 else ttl

module _ (lib : DnsLib) where
  unfoldable pub copy_edns : Msg → Msg → Msg
  unfolding edns_size
  copy_edns req resp = elim req.edns [
    | some size ↦ lib.set_edns0 resp (edns_size size) false
    | none ↦ resp
  ]

  unfoldable pub refuse : Msg → ℕ → Msg
  unfolding copy_edns
  refuse req rcode = copy_edns req (record (lib.set_rcode req rcode) { recursion_available = true })

  abbrev zone_of : Bytes → List Bytes → Bytes
  zone_of name (a ∷ b ∷ []) = a ++ codes "." ++ b ++ codes "."
  zone_of name _ = name

  -- the last two labels of a name with more than two
  unfoldable pub soa_for : ℕ → Bytes → ℕ → Rr
  soa_for now name ttl =
      let labels = lib.split_domain_name name in
      let zone = zone_of name (drop (length labels - 2) labels) in
      soa_record (if ltb 2 (length labels) then zone else name) ttl (now / 60 % 2 ^ 32)

  unfoldable pub a_answers : Bytes → ℕ → List Bytes → List Rr
  a_answers name ttl [] = []
  a_answers name ttl (a ∷ addresses) =
      let rest = a_answers name ttl addresses in
      elim (lib.parse_ip a) [
        | none ↦ rest
        | some ip ↦ elim (lib.to4 ip) [ some four ↦ a_record name ttl four ∷ rest | none ↦ rest ]
      ]

  unfoldable pub aaaa_answers : Bytes → ℕ → List Bytes → List Rr
  aaaa_answers name ttl [] = []
  aaaa_answers name ttl (a ∷ addresses) =
      let rest = aaaa_answers name ttl addresses in
      elim (lib.parse_ip a) [
        | none ↦ rest
        | some ip ↦ elim (lib.to4 ip) [ some four ↦ rest | none ↦ aaaa_record name ttl ip ∷ rest ]
      ]

  -- The exchanges of `forward`: over TCP again if the answer was cut and the client did not use UDP.
  unfoldable pub ask : Upstream → Bytes → Msg → Bytes → Option Msg
  ask up proto out address = elim (up.exchange_udp out address) [
    | none ↦ none
    | some resp ↦
        if resp.truncated && not (bytes_beq proto (codes "udp"))
        then up.exchange_tcp out address
        else some resp
  ]

  -- `forward`, beside so many queries in flight.
  unfoldable pub forward : Server → Upstream → ℕ → Msg → Bytes → Msg
  unfolding ask refuse
  forward s up inflight req proto =
      let address = if is_empty s.upstream then codes "127.0.0.1:5335" else s.upstream in
      if leb s.max_inflight inflight
      then refuse req server_failure
      else elim (ask up proto (record req { id = up.fresh_id }) address) [
        | none ↦ refuse req server_failure
        | some resp ↦ record resp { id = req.id; question = req.question }
      ]

  -- What `synthesize` does with a type, beside the answers so far: answers with the counter that it leaves, or forwards.
  unfoldable pub answers_for : DnsConfig → Service → Question → List Rr → ℕ → Option (List Rr × ℕ)
  unfolding rotate a_answers aaaa_answers effective_ttl
  answers_for dns svc q base seed =
      let ttl = effective_ttl svc dns in
      switch
        ((q.qtype == type_a, some (rotate seed (base ++ a_answers q.name ttl svc.ingress_v4)))
          ∷ (
            q.qtype == type_aaaa,
            some (
                if dns.publish_aaaa
                then rotate seed (base ++ aaaa_answers q.name ttl svc.ingress_v6)
                else (base, seed)),
          )
          ∷ (
            q.qtype == type_https || q.qtype == type_svcb,
            if not dns.block_https_rr then none else some (base, seed),
          )
          ∷ (q.qtype == type_cname || q.qtype == type_ns || q.qtype == type_soa, some (base, seed))
          ∷ [])
        none

  -- the reply before its answers
  unfoldable pub reply_to : Msg → Msg
  unfolding copy_edns
  reply_to req = copy_edns req (record (lib.set_reply req) {
    authoritative = true;
    recursion_available = true;
    authenticated_data = false;
  })

  unfoldable pub synthesize :
      DnsConfig → Server → Upstream → ℕ → ℕ → Msg → Service → Question → Bytes → Msg × Server
  unfolding answers_for reply_to forward soa_for
  synthesize dns s up inflight now req svc q proto =
      elim (answers_for dns svc q (reply_to req).answer s.rot_seed) [
        | none ↦ (forward s up inflight req proto, s)
        | some (rrs, seed) ↦
            let m = reply_to req in
            let m = record m { answer = rrs } in
            (
              if is_empty m.answer
                  then record m { ns = m.ns ++ soa_for now q.name (effective_ttl svc dns) ∷ [] }
                  else m,
              record s { rot_seed = seed },
            )
      ]

  -- The owner of the name answers, or else the resolver; `none` is a nil configuration.
  unfoldable pub resolve :
      Platform → Server → Upstream → ℕ → ℕ → Msg → Question → Bytes → Option (Msg × Server)
  unfolding synthesize lookup normalize_qname
  resolve pl s up inflight now req q proto = elim (lookup pl s.router (normalize_qname pl q.name)) [
    | none ↦ some (forward s up inflight req proto, s)
    | some svc ↦ elim s.router.cfg [
      | none ↦ none
      | some c ↦ some (synthesize c.dns s up inflight now req svc q proto)
    ]
  ]

  -- after the check of the opcode and the number of questions
  unfoldable pub handle_question :
      Platform
      → Server
      → Upstream
      → ℕ
      → ℕ
      → Msg
      → Addr
      → Bytes
      → Bytes
      → Question
      → Option (Msg × Server)
  unfolding resolve refuse
  handle_question pl s up inflight now req client proto doh_token q =
      let (limiter, passed) = allow s.limiter client now in
      let s' = record s { limiter = limiter } in
      if not (allow_client pl s.router client doh_token)
      then some (refuse req refused, s)
      else if not passed
      then some (refuse req refused, s')
      else resolve pl s' up inflight (now / 1000000000) req q proto

  -- `Handle` at the time `now` in nanoseconds, with so many queries in flight, and the server after it.
  unfoldable pub handle :
      Platform → Server → Upstream → ℕ → ℕ → Msg → Addr → Bytes → Bytes → Option (Msg × Server)
  unfolding handle_question refuse
  handle pl s up inflight now req client proto doh_token = elim req.question [
    | [] ↦ some (refuse req format_error, s)
    | q ∷ qs ↦
        if not (is_empty qs && req.opcode == 0)
        then some (refuse req format_error, s)
        else handle_question pl s up inflight now req client proto doh_token q
  ]

  -- `ServeDNS`: over UDP a reply is cut to the size that the client takes.
  unfoldable pub serve_dns :
      Platform → Server → Upstream → ℕ → ℕ → Msg → Addr → Bytes → Option (Msg × Server)
  unfolding handle udp_size
  serve_dns pl s up inflight now req client proto =
      elim (handle pl s up inflight now req client proto []) [
        | none ↦ none
        | some (resp, s') ↦
            some
              (if bytes_beq proto (codes "udp") then lib.truncate resp (udp_size req) else resp, s')
      ]
