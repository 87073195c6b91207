-- ===== src/Tunnel.antt =====
-- shared/tunnel/tunnel.go: the CONNECT frame, the status byte, and the copy loop.
-- A connection is what it delivers before it ends, and whether it takes a write.
pub mod Frame
pub mod Copy
use smart_dns_proxy.Prelude.{
  ℕ, zero, suc, ◌+◌, ◌-◌, ◌*◌, ◌/◌, ◌%◌, ◌^◌, ◌≤◌, ◌<◌, ◌≡◌, refl, sym, ap, ◌∙◌, ◌≢◌, ◌↔◌, ◌⊎◌, inl,
  inr, Bool, true, false, not, ◌&&◌, ◌||◌, Option, none, some, List, [], ◌∷◌, ◌++◌, map, arith, ltb,
  leb, ◌==◌, if◌then◌else◌, ltb→lt, ltb→le, lt→ltb, leb→le, leb→lt, ==_iff, tests, Bool-cases,
  Option-cases, eq_of_iff, is_some, Eq, nat_eq, beq_refl, length, is_empty, get_or, take, drop,
  keep, any, all, length-append, take-append-drop, take-append, drop-append, length-take,
  length-drop, length-keep-le, All, All-append, All-keep, elem, nodup, elem-append, elem-keep,
  All-elem, elem-All, switch, switch-All, Bytes, codes, bytes_beq, bytes_beq_refl, bytes_beq_iff,
  bytes_eq, bytes_lt, bytes_lt_irrefl, bytes_lt_asymm, bytes_lt_trans, bytes_lt_total, Result, ok,
  err, ◌>>=◌, or_else, >>=-eq-ok,
}

abbrev pub status_ok : ℕ
status_ok = 0

abbrev pub status_denied : ℕ
status_denied = 1

abbrev pub status_dns : ℕ
status_dns = 2

abbrev pub status_dial : ℕ
status_dial = 3

abbrev pub max_host_len : ℕ
max_host_len = 253

-- `StatusText`
unfoldable pub status_text : ℕ → Bytes
status_text s =
    if s == status_ok
    then codes "ok"
    else if s == status_denied
    then codes "destination not allowed"
    else if s == status_dns
    then codes "resolution failed or blocked"
    else if s == status_dial
    then codes "dial failed"
    else codes "protocol error"

-- The errors of the frame functions; `transport` carries the text of a failed read or write.
pub data TunnelError : Type 0 where
  protocol host_length : TunnelError
  transport : Bytes → TunnelError
  refused : ℕ → TunnelError

-- `err.Error()`
unfoldable pub error_text : TunnelError → Bytes
unfolding status_text
error_text protocol = codes "tunnel protocol error"
error_text host_length = codes "tunnel protocol error: host length"
error_text (transport text) = text
error_text (refused s) = codes "egress refused: " ++ status_text s

-- The frame that `WriteConnect` builds: `byte` and `uint16` cut their arguments off.
unfoldable pub connect_frame : Bytes → ℕ → Bytes
connect_frame host port = 1 ∷ 1 ∷ length host % 256 ∷ (host ++ port / 256 % 256 ∷ port % 256 ∷ [])

-- The peer's side of a connection: the error of a write, if it fails, and what it sends back.
pub record Peer : Type 0 where
  pub write_error : Option Bytes
  pub replies : Bytes
  -- the text of the error that a read gives when nothing is left
  pub read_error : Bytes

-- Waits for the status byte.
unfoldable pub read_status : Peer → Bytes → Result TunnelError Unit
read_status peer [] = err (transport peer.read_error)
read_status peer (st ∷ rest) = if st == status_ok then ok tt else err (refused st)

-- What is written, and the result.
unfoldable pub write_connect : Peer → Bytes → ℕ → Bytes × Result TunnelError Unit
unfolding connect_frame read_status
write_connect peer host port =
    if is_empty host || ltb max_host_len (length host)
    then ([], err host_length)
    else elim peer.write_error [
      | some text ↦ ([], err (transport text))
      | none ↦ (connect_frame host port, read_status peer peer.replies)
    ]

-- Host, port, and what the stream still holds.
unfoldable pub read_connect : Bytes → Bytes → Result TunnelError (Bytes × ℕ × Bytes)
read_connect read_error (version ∷ cmd ∷ n ∷ stream) =
    let b = take (n + 2) stream in
    if not (version == 1) || not (cmd == 1)
    then err protocol
    else if n == 0 || ltb max_host_len n
    then err protocol
    else if ltb (length stream) (n + 2)
    then err (transport read_error)
    else ok (take n b, get_or b n 0 * 256 + get_or b (n + 1) 0, drop (n + 2) stream)
read_connect read_error _ = err (transport read_error)

-- One round of `Splice` in one direction: what `Read` and `Write` returned.
pub record Round : Type 0 where
  pub chunk : Bytes
  pub read_failed : Bool
  pub written : ℕ
  pub write_failed : Bool

-- The copy loop: what reached the other side, and the count.
unfoldable pub copy : List Round → Bytes → ℕ → Bytes × ℕ
copy [] out n = (out, n)
copy (r ∷ rounds) out n =
    let out' = if is_empty r.chunk then out else out ++ take r.written r.chunk in
    let n' = if is_empty r.chunk then n else n + r.written in
    let rest = copy rounds out' n' in
    if (not (is_empty r.chunk) && r.write_failed) || r.read_failed then (out', n') else rest
