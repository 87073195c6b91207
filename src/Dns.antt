-- ===== src/Dns.antt =====
-- node/dnsfe/server.go: the DNS server. Messages are records of the fields that the program reads or
-- writes; what the DNS library does with a message is a parameter.
pub mod Handler
pub mod Answer
pub mod Records
pub mod Ingress
pub mod Guard
use smart_dns_proxy.Prelude.{
  ℕ, zero, suc, ◌+◌, ◌-◌, ◌*◌, ◌/◌, ◌%◌, ◌^◌, ◌≤◌, ◌<◌, ◌≡◌, refl, sym, ap, ◌∙◌, ◌≢◌, ◌↔◌, ◌⊎◌, inl,
  inr, Bool, true, false, not, ◌&&◌, ◌||◌, Option, none, some, List, [], ◌∷◌, ◌++◌, map, arith, ltb,
  leb, ◌==◌, if◌then◌else◌, ltb→lt, ltb→le, lt→ltb, leb→le, leb→lt, ==_iff, tests, Bool-cases,
  Option-cases, eq_of_iff, is_some, Eq, nat_eq, beq_refl, length, is_empty, get_or, take, drop,
  keep, any, all, length-append, take-append-drop, take-append, drop-append, length-take,
  length-drop, length-keep-le, All, All-append, All-keep, elem, nodup, elem-append, elem-keep,
  All-elem, elem-All, switch, switch-All, Bytes, codes, bytes_beq, bytes_beq_refl, bytes_beq_iff,
  bytes_eq, bytes_lt, bytes_lt_irrefl, bytes_lt_asymm, bytes_lt_trans, bytes_lt_total, Result, ok,
  err, ◌>>=◌, or_else, >>=-eq-ok, ok-inj, guard-ok,
}
use smart_dns_proxy.Router.{Router}
use smart_dns_proxy.Limiter.{Limiter}

pub record Question : Type 0 where
  pub name : Bytes
  pub qtype : ℕ

-- Resource records of the class IN. What an upstream sends is opaque.
pub data Rr : Type 0 where
  a_record aaaa_record : Bytes → ℕ → Bytes → Rr
  soa_record : Bytes → ℕ → ℕ → Rr
  other_record : Bytes → Rr

-- `edns` is the UDP size of the OPT record, if there is one.
pub record Msg : Type 0 where
  pub id : ℕ
  pub opcode : ℕ
  pub rcode : ℕ
  pub authoritative : Bool
  pub recursion_available : Bool
  pub authenticated_data : Bool
  pub truncated : Bool
  pub question : List Question
  pub answer : List Rr
  pub ns : List Rr
  pub edns : Option ℕ

-- github.com/miekg/dns and `net`: `SetReply` and `SetRcode` on a new message, `SetEdns0`, `Truncate`,
-- the labels of a name, `net.ParseIP` and `To4`.
pub record DnsLib : Type 0 where
  pub set_reply : Msg → Msg
  pub set_rcode : Msg → ℕ → Msg
  pub set_edns0 : Msg → ℕ → Bool → Msg
  pub truncate : Msg → ℕ → Msg
  pub split_domain_name : Bytes → List Bytes
  pub parse_ip : Bytes → Option Bytes
  pub to4 : Bytes → Option Bytes

-- The upstream resolver over UDP and TCP, by message and address; `none` is an error or no message.
pub record Upstream : Type 0 where
  pub exchange_udp : Msg → Bytes → Option Msg
  pub exchange_tcp : Msg → Bytes → Option Msg
  pub fresh_id : ℕ

pub record Server : Type 0 where
  pub router : Router
  pub upstream : Bytes
  pub limiter : Limiter
  pub max_inflight : ℕ
  pub rot_seed : ℕ

-- dns.TypeA and so on, and the response codes
abbrev pub type_a : ℕ
type_a = 1

abbrev pub type_ns : ℕ
type_ns = 2

abbrev pub type_cname : ℕ
type_cname = 5

abbrev pub type_soa : ℕ
type_soa = 6

abbrev pub type_aaaa : ℕ
type_aaaa = 28

abbrev pub type_svcb : ℕ
type_svcb = 64

abbrev pub type_https : ℕ
type_https = 65

abbrev pub format_error : ℕ
format_error = 1

abbrev pub server_failure : ℕ
server_failure = 2

abbrev pub refused : ℕ
refused = 5
