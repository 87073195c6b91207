-- ===== src/Dns/Records.antt =====
-- What a name of a service is answered with, in node/dnsfe/server.go.
use smart_dns_proxy.Prelude.{
  ℕ, ◌≡◌, refl, inl, inr, Bool, true, false, not, ◌&&◌, ◌||◌, Option, none, some, List, [], ◌∷◌,
  arith, ◌==◌, if◌then◌else◌, nat_eq, All, elem, switch, Bytes, bytes_eq,
}
use smart_dns_proxy.Router.Owner.{Member}
use smart_dns_proxy.Model.{Service, DnsConfig}
use smart_dns_proxy.Dns.{
  Question, Rr, a_record, aaaa_record, soa_record, other_record, DnsLib, type_a, type_ns,
  type_cname, type_soa, type_aaaa, type_svcb, type_https,
}
use smart_dns_proxy.Dns.Handler.{rotate, effective_ttl, a_answers, aaaa_answers, answers_for}
use smart_dns_proxy.Dns.Answer.{rotate-All}

-- An answer for the service: an address of an ingress node, under the name of the question and with
-- the TTL of the service.
abbrev pub IsIngress : DnsLib → DnsConfig → Service → Bytes → Rr → Type 0
IsIngress lib dns svc name (a_record n ttl four) =
    (n ≡ name)
    × (ttl ≡ effective_ttl svc dns)
    × ((a : Bytes) × (ip : Bytes) × Member a svc.ingress_v4
        × (lib.parse_ip a ≡ some ip)
        × (lib.to4 ip ≡ some four))
IsIngress lib dns svc name (aaaa_record n ttl ip) =
    (n ≡ name)
    × (ttl ≡ effective_ttl svc dns)
    × ((a : Bytes) × Member a svc.ingress_v6 × (lib.parse_ip a ≡ some ip) × (lib.to4 ip ≡ none))
IsIngress lib dns svc name (soa_record n ttl serial) = ⊥
IsIngress lib dns svc name (other_record data_) = ⊥

-- The types that are answered without the resolver.
abbrev pub is_local : DnsConfig → ℕ → Bool
is_local dns qtype =
    elem qtype (type_a ∷ type_aaaa ∷ type_cname ∷ type_ns ∷ type_soa ∷ [])
    || (dns.block_https_rr && elem qtype (type_https ∷ type_svcb ∷ []))

module _ (lib : DnsLib) (name : Bytes) (ttl : ℕ) (P : Rr → Type 0) where
  a_answers-All :
      (vs : List Bytes)
      → ((a ip four : Bytes)
          → Member a vs
          → lib.parse_ip a ≡ some ip
          → lib.to4 ip ≡ some four
          → P (a_record name ttl four))
      → All P (a_answers lib name ttl vs)
  unfolding a_answers
  a_answers-All [] f = tt
  a_answers-All (v ∷ vs) f =
      by_ip (lib.parse_ip v) refl (a_answers-All vs (λ a ip four m. f a ip four (inr m)))
    where
      by_four :
          (ip : Bytes) (o : Option Bytes)
          → lib.parse_ip v ≡ some ip
          → lib.to4 ip ≡ o
          → All P (a_answers lib name ttl vs)
          → All P (elim o as (λ _. List Rr) [
            | some four ↦ a_record name ttl four ∷ a_answers lib name ttl vs
            | none ↦ a_answers lib name ttl vs
          ])
      by_four ip none e g h = h
      by_four ip (some four) e g h = (f v ip four (inl refl) e g, h)

      by_ip :
          (o : Option Bytes)
          → lib.parse_ip v ≡ o
          → All P (a_answers lib name ttl vs)
          → All P (elim o as (λ _. List Rr) [
            | none ↦ a_answers lib name ttl vs
            | some ip ↦ elim (lib.to4 ip) as (λ _. List Rr) [
              | some four ↦ a_record name ttl four ∷ a_answers lib name ttl vs
              | none ↦ a_answers lib name ttl vs
            ]
          ])
      by_ip none e h = h
      by_ip (some ip) e h = by_four ip (lib.to4 ip) e refl h

  aaaa_answers-All :
      (ws : List Bytes)
      → ((a ip : Bytes)
          → Member a ws
          → lib.parse_ip a ≡ some ip
          → lib.to4 ip ≡ none
          → P (aaaa_record name ttl ip))
      → All P (aaaa_answers lib name ttl ws)
  unfolding aaaa_answers
  aaaa_answers-All [] f = tt
  aaaa_answers-All (v ∷ ws) f =
      by_ip (lib.parse_ip v) refl (aaaa_answers-All ws (λ a ip m. f a ip (inr m)))
    where
      by_four :
          (ip : Bytes) (o : Option Bytes)
          → lib.parse_ip v ≡ some ip
          → lib.to4 ip ≡ o
          → All P (aaaa_answers lib name ttl ws)
          → All P (elim o as (λ _. List Rr) [
            | some four ↦ aaaa_answers lib name ttl ws
            | none ↦ aaaa_record name ttl ip ∷ aaaa_answers lib name ttl ws
          ])
      by_four ip none e g h = (f v ip (inl refl) e g, h)
      by_four ip (some four) e g h = h

      by_ip :
          (o : Option Bytes)
          → lib.parse_ip v ≡ o
          → All P (aaaa_answers lib name ttl ws)
          → All P (elim o as (λ _. List Rr) [
            | none ↦ aaaa_answers lib name ttl ws
            | some ip ↦ elim (lib.to4 ip) as (λ _. List Rr) [
              | some four ↦ aaaa_answers lib name ttl ws
              | none ↦ aaaa_record name ttl ip ∷ aaaa_answers lib name ttl ws
            ]
          ])
      by_ip none e h = h
      by_ip (some ip) e h = by_four ip (lib.to4 ip) e refl h

module _ (lib : DnsLib) (dns : DnsConfig) (svc : Service) (q : Question) where
  -- `synthesize` answers the local types itself, with nothing but addresses of ingress nodes.
  pub answers_for-All :
      (seed : ℕ)
      → is_local dns q.qtype ≡ true
      → (rrs : List Rr) × (seed' : ℕ) × (answers_for lib dns svc q [] seed ≡ some (rrs, seed'))
        × All (IsIngress lib dns svc q.name) rrs
  unfolding answers_for
  answers_for-All seed local =
      by_type (q.qtype == type_a) (q.qtype == type_aaaa)
        (q.qtype == type_https || q.qtype == type_svcb)
        (q.qtype == type_cname || q.qtype == type_ns || q.qtype == type_soa) dns.publish_aaaa
        dns.block_https_rr (ground arith) (ground arith)
    where
      ttl : ℕ
      ttl = effective_ttl svc dns

      fours : List Rr
      fours = a_answers lib q.name ttl svc.ingress_v4

      sixes : List Rr
      sixes = aaaa_answers lib q.name ttl svc.ingress_v6

      P : Rr → Type 0
      P = IsIngress lib dns svc q.name

      all_fours : All P fours
      all_fours =
          a_answers-All lib q.name ttl P svc.ingress_v4
            (λ a ip four m e f. (refl, refl, (a, ip, m, e, f)))

      all_sixes : All P sixes
      all_sixes =
          aaaa_answers-All lib q.name ttl P svc.ingress_v6
            (λ a ip m e f. (refl, refl, (a, m, e, f)))

      by_type :
          (four six web other publish block : Bool)
          → (four || six || other || (block && web)) ≡ true
          → (web && other) ≡ false
          → (rrs : List Rr) × (seed' : ℕ) × (switch
                ((four, some (rotate seed fours))
                  ∷ (six, some (if publish then rotate seed sixes else ([], seed)))
                  ∷ (web, if not block then none else some ([], seed))
                  ∷ (other, some ([], seed))
                  ∷ [])
                none
              ≡ some (rrs, seed'))
            × All P rrs
      by_type true six web other publish block h k =
          ((rotate seed fours).0, (rotate seed fours).1, refl, rotate-All P seed fours all_fours)
      by_type false true web other true block h k =
          ((rotate seed sixes).0, (rotate seed sixes).1, refl, rotate-All P seed sixes all_sixes)
      by_type false true web other false block h k = ([], seed, refl, tt)
      by_type false false true other publish true h k = ([], seed, refl, tt)
      by_type false false true true publish false h k = cc
      by_type false false true false publish false h k = cc
      by_type false false false true publish block h k = ([], seed, refl, tt)
      by_type false false false false publish true h k = cc
      by_type false false false false publish false h k = cc
