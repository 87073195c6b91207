-- ===== src/Sniff/Hello.antt =====
-- A ClientHello written down by RFC 8446 and RFC 6066, and what the parser finds in it.
use smart_dns_proxy.Prelude.{
  ℕ, zero, suc, ◌+◌, ◌*◌, ◌/◌, ◌%◌, ◌≤◌, ◌<◌, ◌≡◌, refl, sym, ap, ◌∙◌, false, some, List, [], ◌∷◌,
  ◌++◌, arith, ltb, ◌==◌, if◌then◌else◌, nat_eq, length, take, drop, length-append, take-append,
  drop-append, All, Bytes, bytes_eq, ok,
}
use smart_dns_proxy.Platform.{Platform}
use smart_dns_proxy.Strings.{to_lower}
use smart_dns_proxy.Sniff.{
  skip_u8, skip_u16, name_loop, parse_sni_extension, extension_loop, parse_extensions, parse_body,
  parse_client_hello,
}

abbrev pub be16 : ℕ → Bytes → Bytes
be16 n b = n / 256 ∷ n % 256 ∷ b

-- a vector with a length of one byte, of two bytes
abbrev pub vector8 : Bytes → Bytes → Bytes
vector8 v b = length v ∷ v ++ b

abbrev pub vector16 : Bytes → Bytes → Bytes
vector16 v b = be16 (length v) (v ++ b)

-- the data of a server_name extension with one host name
abbrev pub server_name : Bytes → Bytes
server_name name = vector16 (0 ∷ vector16 name []) []

-- extensions other than server_name, and what follows them
abbrev pub extensions : List (ℕ × Bytes) → Bytes → Bytes
extensions [] b = b
extensions ((t, v) ∷ es) b = be16 t (vector16 v (extensions es b))

pub record Hello : Type 0 where
  pub fixed : Bytes
  pub session : Bytes
  pub ciphers : Bytes
  pub compression : Bytes
  pub before : List (ℕ × Bytes)
  pub name : Bytes
  pub after : Bytes

abbrev pub hello_extensions : Hello → Bytes
hello_extensions c = extensions c.before (be16 0 (vector16 (server_name c.name) c.after))

abbrev pub hello_body : Hello → Bytes
hello_body c =
    c.fixed
    ++ vector8 c.session
        (vector16 c.ciphers (vector8 c.compression (vector16 (hello_extensions c) [])))

-- The handshake message: type 1, a length of three bytes, the body.
abbrev pub hello_message : Hello → Bytes
hello_message c =
    let n = length (hello_body c) in 1 ∷ n / 65536 ∷ n / 256 % 256 ∷ n % 256 ∷ hello_body c

abbrev IsOther : ℕ × Bytes → Type 0
IsOther (t, v) = (1 ≤ t) × (t < 65536) × (length v < 65536)

-- The lengths fit their fields, and no extension before is a server_name.
pub record IsHello (c : Hello) : Type 0 where
  pub fixed : length c.fixed ≡ 34
  pub session : length c.session < 256
  pub ciphers : length c.ciphers < 65536
  pub compression : length c.compression < 256
  pub before : All IsOther c.before
  pub name : length c.name < 65531
  pub extensions : length (hello_extensions c) < 65536
  pub body : length (hello_body c) < 16777216

be16_lem : (n : ℕ) → n < 65536 → n / 256 * 256 + n % 256 ≡ n
be16_lem n h = omega arith

skip_u8-vector : (v b : Bytes) → skip_u8 (vector8 v b) ≡ some b
unfolding skip_u8
skip_u8-vector v b =
    let fits : ltb (length (v ++ b)) (length v) ≡ false = ground (arith, length-append v b) in
    rw fits (ap some (drop-append v b))

skip_u16-vector : (v b : Bytes) → length v < 65536 → skip_u16 (vector16 v b) ≡ some b
unfolding skip_u16
skip_u16-vector v b h =
    let fits : ltb (length (v ++ b)) (length v) ≡ false = ground (arith, length-append v b) in
    rw (be16_lem (length v) h) (rw fits (ap some (drop-append v b)))

module _ (pl : Platform) where
  name_loop-name :
      (fuel : ℕ) (name b : Bytes)
      → length name < 65536
      → name_loop pl (suc fuel) (0 ∷ vector16 name b) ≡ ok (to_lower pl name)
  unfolding name_loop
  name_loop-name fuel name b h =
      let fits : ltb (length (name ++ b)) (length name) ≡ false =
        ground (arith, length-append name b) in
      rw (be16_lem (length name) h) (rw fits (ap (λ l. ok (to_lower pl l)) (take-append name b)))

  sni-vector :
      (v b : Bytes)
      → length v < 65536
      → parse_sni_extension pl (vector16 v b) ≡ name_loop pl (length (v ++ b)) v
  unfolding parse_sni_extension
  sni-vector v b h =
      let fits : ltb (length (v ++ b)) (length v) ≡ false = ground (arith, length-append v b) in
      rw (be16_lem (length v) h) (rw fits (ap (name_loop pl (length (v ++ b))) (take-append v b)))

  parse_sni_extension-name :
      (name : Bytes)
      → length name < 65531
      → parse_sni_extension pl (server_name name) ≡ ok (to_lower pl name)
  parse_sni_extension-name name h =
      sni-vector (0 ∷ vector16 name []) [] (omega (arith, length-append name []))
      ∙ name_loop-name _ name [] (omega arith)

  extension_loop-step :
      (fuel t : ℕ) (v b : Bytes)
      → t < 65536
      → length v < 65536
      → extension_loop pl (suc fuel) (be16 t (vector16 v b))
        ≡ (if t == 0 then parse_sni_extension pl v else extension_loop pl fuel b)
  unfolding extension_loop
  extension_loop-step fuel t v b ht hv =
      let fits : ltb (length (v ++ b)) (length v) ≡ false = ground (arith, length-append v b) in
      rw (be16_lem t ht)
        (rw (be16_lem (length v) hv) (rw fits (rw (take-append v b) (rw (drop-append v b)))))

  extension_loop-finds :
      (fuel : ℕ) (before : List (ℕ × Bytes)) (name after : Bytes)
      → All IsOther before
      → length name < 65531
      → length (extensions before (be16 0 (vector16 (server_name name) after))) ≤ fuel
      → extension_loop pl fuel (extensions before (be16 0 (vector16 (server_name name) after)))
        ≡ ok (to_lower pl name)
  extension_loop-finds zero [] name after v h enough = absurd (omega arith)
  extension_loop-finds zero ((t, d) ∷ before) name after v h enough = absurd (omega arith)
  extension_loop-finds (suc fuel) [] name after v h enough =
      extension_loop-step fuel 0 (server_name name) after (omega arith)
        (omega (arith, length-append (0 ∷ vector16 name []) [], length-append name []))
      ∙ parse_sni_extension-name name h
  extension_loop-finds (suc fuel) ((t, d) ∷ before) name after v h enough =
      let rest = extensions before (be16 0 (vector16 (server_name name) after)) in
      let other : (t == 0) ≡ false = ground (arith, v.0.0) in
      extension_loop-step fuel t d rest v.0.1 v.0.2
      ∙ rw other
          (extension_loop-finds fuel before name after v.1 h (omega (arith, length-append d rest)))

  parse_extensions-vector :
      (v b : Bytes)
      → length v < 65536
      → parse_extensions pl (vector16 v b) ≡ extension_loop pl (length (v ++ b)) v
  unfolding parse_extensions
  parse_extensions-vector v b h =
      let fits : ltb (length (v ++ b)) (length v) ≡ false = ground (arith, length-append v b) in
      rw (be16_lem (length v) h)
        (rw fits (ap (extension_loop pl (length (v ++ b))) (take-append v b)))

  drop-fixed : (n : ℕ) (v b : Bytes) → length v ≡ n → drop n (v ++ b) ≡ b
  drop-fixed n v b e = rw (sym e) (drop-append v b)

  parse_body-hello :
      (c : Hello) → IsHello c → parse_body pl (hello_body c) ≡ ok (to_lower pl c.name)
  unfolding parse_body
  parse_body-hello c v =
      let exts = hello_extensions c in
      let tail =
        vector8 c.session (vector16 c.ciphers (vector8 c.compression (vector16 exts []))) in
      let long : ltb (length (c.fixed ++ tail)) 34 ≡ false =
        ground (arith, length-append c.fixed tail, v.fixed) in
      rw long (
        rw (drop-fixed 34 c.fixed tail v.fixed) (
          rw
            (skip_u8-vector c.session
              (vector16 c.ciphers (vector8 c.compression (vector16 exts []))))
            (rw (skip_u16-vector c.ciphers (vector8 c.compression (vector16 exts [])) v.ciphers) (
              rw (skip_u8-vector c.compression (vector16 exts [])) (
                parse_extensions-vector exts [] v.extensions
                ∙ extension_loop-finds (length (exts ++ [])) c.before c.name c.after v.before v.name
                    (omega (arith, length-append exts [])))))))

  be24_lem : (n : ℕ) → n < 16777216 → n / 65536 * 65536 + n / 256 % 256 * 256 + n % 256 ≡ n
  be24_lem n h = omega arith

  take_self : (b : Bytes) → take (length b) b ≡ b
  take_self [] = refl
  take_self (x ∷ b) = ap (λ l. x ∷ l) (take_self b)

  -- In every ClientHello that is written by the rules, with any session, ciphers and other
  -- extensions, the parser finds the server name, in lower case.
  pub parse_client_hello-hello :
      (c : Hello) → IsHello c → parse_client_hello pl (hello_message c) ≡ ok (to_lower pl c.name)
  unfolding parse_client_hello
  parse_client_hello-hello c v =
      let b = hello_body c in
      let fits : ltb (length b) (length b) ≡ false = ground arith in
      rw (be24_lem (length b) v.body) (rw fits (rw (take_self b) (parse_body-hello c v)))
