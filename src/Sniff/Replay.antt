-- ===== src/Sniff/Replay.antt =====
-- What `PeekSNI` of shared/sniff/clienthello.go consumes.
use smart_dns_proxy.Prelude.{
  ℕ, ◌+◌, ◌*◌, ◌≤◌, ◌≡◌, refl, ap, Bool, true, false, not, ◌||◌, [], ◌∷◌, ◌++◌, arith, ltb, ◌==◌,
  if◌then◌else◌, ltb→le, nat_eq, length, take, drop, take-append-drop, length-take, Bytes, bytes_eq,
  Result, ok, err,
}
use smart_dns_proxy.Platform.{Platform}
use smart_dns_proxy.Sniff.{SniffError, peek_sni, pre_read_limit, u16_at, parse_client_hello}

-- Which tests passed on the way to a name.
guards :
    (g₁ g₂ g₃ g₄ : Bool) (hdr : Bytes) (r : Result SniffError Bytes × Bytes) (name : Bytes)
    → (if g₁
        then (err SniffError.incomplete, [])
        else if g₂
        then (err SniffError.not_tls, hdr)
        else if g₃
        then (err SniffError.too_large, hdr)
        else if g₄
        then (err SniffError.incomplete, hdr)
        else r).0
      ≡ ok name
    → (g₁ ≡ false) × (g₂ ≡ false) × (g₃ ≡ false) × (g₄ ≡ false) × (r.0 ≡ ok name)
guards true g₂ g₃ g₄ hdr r name e = cc
guards false true g₃ g₄ hdr r name e = cc
guards false false true g₄ hdr r name e = cc
guards false false false true hdr r name e = cc
guards false false false false hdr r name e = (refl, refl, refl, refl, e)

-- When a name is found, the consumed bytes are a beginning of the stream, at most the limit, and the
-- whole record: a header that announces its length, and a hello in which the name was found.
pub peek_sni_replay :
    (pl : Platform) (stream : Bytes) (max_bytes : ℕ) (name : Bytes)
    → (peek_sni pl stream max_bytes).0 ≡ ok name
    → let raw = (peek_sni pl stream max_bytes).1 in
      (raw ++ drop (length raw) stream ≡ stream)
      × (length raw ≤ pre_read_limit max_bytes)
      × (length raw ≡ 5 + u16_at stream 3)
      × (parse_client_hello pl (drop 5 raw) ≡ ok name)
unfolding peek_sni
peek_sni_replay pl [] max_bytes name e = cc
peek_sni_replay pl (a ∷ []) max_bytes name e = cc
peek_sni_replay pl (a ∷ b ∷ []) max_bytes name e = cc
peek_sni_replay pl (a ∷ b ∷ c ∷ []) max_bytes name e = cc
peek_sni_replay pl (a ∷ b ∷ c ∷ d ∷ []) max_bytes name e = cc
peek_sni_replay pl (a ∷ b ∷ c ∷ d ∷ f ∷ rest) max_bytes name e =
    let size = d * 256 + f in
    let tls = not (a == 0x16) || not (b == 0x03) in
    let fits = size == 0 || ltb (pre_read_limit max_bytes) (5 + size) in
    let short = ltb (length rest) size in
    let (g₁, g₂, g₃, g₄, found) =
      guards (ltb (length (a ∷ b ∷ c ∷ d ∷ f ∷ rest)) 5) tls fits short (a ∷ b ∷ c ∷ d ∷ f ∷ [])
        (parse_client_hello pl (take size rest), a ∷ b ∷ c ∷ d ∷ f ∷ take size rest) name e in
    let measured : length (take size rest) ≡ size =
      length-take size rest (ltb→le (length rest) size g₄) in
    rw g₁ (
      rw g₂ (
        rw g₃ (
          rw g₄ (
            rw measured (ap (λ l. a ∷ b ∷ c ∷ d ∷ f ∷ l) (take-append-drop size rest)),
            ground arith,
            omega arith,
            found,
          ))))
