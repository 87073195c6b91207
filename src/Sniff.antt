-- ===== src/Sniff.antt =====
-- shared/sniff/clienthello.go: the server name of a TLS ClientHello.
pub mod Fuel
pub mod Replay
pub mod Hello
use smart_dns_proxy.Prelude.{
  ℕ, zero, suc, ◌+◌, ◌-◌, ◌*◌, ◌/◌, ◌%◌, ◌^◌, ◌≤◌, ◌<◌, ◌≡◌, refl, sym, ap, ◌∙◌, ◌≢◌, ◌↔◌, ◌⊎◌, inl,
  inr, Bool, true, false, not, ◌&&◌, ◌||◌, Option, none, some, List, [], ◌∷◌, ◌++◌, map, arith, ltb,
  leb, ◌==◌, if◌then◌else◌, ltb→lt, ltb→le, lt→ltb, leb→le, leb→lt, ==_iff, tests, Bool-cases,
  Option-cases, eq_of_iff, is_some, Eq, nat_eq, beq_refl, length, is_empty, get_or, take, drop,
  keep, any, all, length-append, take-append-drop, take-append, drop-append, length-take,
  length-drop, length-keep-le, All, All-append, All-keep, elem, nodup, elem-append, elem-keep,
  All-elem, elem-All, switch, switch-All, Bytes, codes, bytes_beq, bytes_beq_refl, bytes_beq_iff,
  bytes_eq, bytes_lt, bytes_lt_irrefl, bytes_lt_asymm, bytes_lt_trans, bytes_lt_total, Result, ok,
  err, ◌>>=◌, or_else, >>=-eq-ok,
}
use smart_dns_proxy.Platform.{Platform}
use smart_dns_proxy.Strings.{to_lower}

pub data SniffError : Type 0 where
  not_tls no_sni too_large incomplete : SniffError
  -- no error of the code: a loop that would go on has no fuel left
  out_of_fuel : SniffError

-- Reads at the front of a slice; the callers have checked its length.
abbrev pub byte_at : Bytes → ℕ → ℕ
byte_at b i = get_or b i 0

-- `binary.BigEndian.Uint16(b[i:])`
abbrev pub u16_at : Bytes → ℕ → ℕ
u16_at b i = byte_at b i * 256 + byte_at b (i + 1)

unfoldable pub skip_u8 : Bytes → Option Bytes
skip_u8 [] = none
skip_u8 (n ∷ b) = if ltb (length b) n then none else some (drop n b)

unfoldable pub skip_u16 : Bytes → Option Bytes
skip_u16 (n ∷ m ∷ b) =
    let size = n * 256 + m in if ltb (length b) size then none else some (drop size b)
skip_u16 _ = none

-- The loop over the names of the extension. Each round drops three bytes or more.
unfoldable pub name_loop : Platform → ℕ → Bytes → Result SniffError Bytes
name_loop pl zero [] = err no_sni
name_loop pl zero (t ∷ b) = err out_of_fuel
name_loop pl (suc fuel) (t ∷ n ∷ m ∷ b) =
    let size = n * 256 + m in
    let rest = name_loop pl fuel (drop size b) in
    if ltb (length b) size
    then err incomplete
    else if t == 0
    then ok (to_lower pl (take size b))
    else rest
name_loop pl (suc fuel) _ = err no_sni

unfoldable pub parse_sni_extension : Platform → Bytes → Result SniffError Bytes
unfolding name_loop
parse_sni_extension pl (n ∷ m ∷ b) =
    let size = n * 256 + m in
    if ltb (length b) size then err incomplete else name_loop pl (length b) (take size b)
parse_sni_extension pl _ = err incomplete

-- The loop over the extensions. Each round drops four bytes or more.
unfoldable pub extension_loop : Platform → ℕ → Bytes → Result SniffError Bytes
extension_loop pl zero [] = err no_sni
extension_loop pl zero (t ∷ b) = err out_of_fuel
extension_loop pl (suc fuel) (t ∷ u ∷ n ∷ m ∷ b) =
    let size = n * 256 + m in
    let rest = extension_loop pl fuel (drop size b) in
    if ltb (length b) size
    then err incomplete
    else if (t * 256 + u) == 0
    then parse_sni_extension pl (take size b)
    else rest
extension_loop pl (suc fuel) _ = err no_sni

-- What follows the compression methods.
unfoldable pub parse_extensions : Platform → Bytes → Result SniffError Bytes
unfolding extension_loop parse_sni_extension
parse_extensions pl (n ∷ m ∷ b) =
    let size = n * 256 + m in
    if ltb (length b) size then err incomplete else extension_loop pl (length b) (take size b)
parse_extensions pl _ = err no_sni

-- The body of the handshake message, behind its header.
unfoldable pub parse_body : Platform → Bytes → Result SniffError Bytes
unfolding skip_u8 skip_u16 parse_extensions
parse_body pl b = if ltb (length b) 34 then err incomplete else do
  after_session ← or_else (skip_u8 (drop 34 b)) incomplete
  after_ciphers ← or_else (skip_u16 after_session) incomplete
  after_compression ← or_else (skip_u8 after_ciphers) incomplete
  parse_extensions pl after_compression

unfoldable pub parse_client_hello : Platform → Bytes → Result SniffError Bytes
unfolding parse_body
parse_client_hello pl (t ∷ h ∷ m ∷ l ∷ b) =
    let size = h * 65536 + m * 256 + l in
    if not (t == 1)
    then err not_tls
    else if ltb (length b) size
    then err incomplete
    else parse_body pl (take size b)
parse_client_hello pl _ = err not_tls

abbrev pub pre_read_limit : ℕ → ℕ
pre_read_limit max_bytes = if max_bytes == 0 then 16 * 1024 else max_bytes

-- The name or the error, and the bytes that were consumed and are to be replayed, from what the
-- reader delivers before it ends.
unfoldable pub peek_sni : Platform → Bytes → ℕ → Result SniffError Bytes × Bytes
unfolding parse_client_hello
peek_sni pl stream max_bytes =
    let hdr = take 5 stream in
    let rest = drop 5 stream in
    let size = u16_at hdr 3 in
    if ltb (length stream) 5
    then (err incomplete, [])
    else if not (byte_at hdr 0 == 0x16) || not (byte_at hdr 1 == 0x03)
    then (err not_tls, hdr)
    else if size == 0 || ltb (pre_read_limit max_bytes) (5 + size)
    then (err too_large, hdr)
    else if ltb (length rest) size
    then (err incomplete, hdr)
    else (parse_client_hello pl (take size rest), hdr ++ take size rest)
