-- ===== src/Sniff/Fuel.antt =====
-- The loops of shared/sniff/clienthello.go end.
use smart_dns_proxy.Prelude.{
  ℕ, zero, suc, ◌+◌, ◌*◌, ◌≤◌, ◌≡◌, refl, sym, ap, ◌∙◌, ◌≢◌, Bool, true, false, not, Option, none,
  some, [], ◌∷◌, arith, ltb, ◌==◌, if◌then◌else◌, nat_eq, length, take, drop, length-append,
  take-append-drop, length-drop, Bytes, bytes_eq, Result, ok, err, ◌>>=◌, or_else,
}
use smart_dns_proxy.Platform.{Platform}
use smart_dns_proxy.Strings.{to_lower}
use smart_dns_proxy.Sniff.{
  SniffError, not_tls, incomplete, out_of_fuel, skip_u8, skip_u16, name_loop, parse_sni_extension,
  extension_loop, parse_extensions, parse_body, parse_client_hello,
}

abbrev is_out : Result SniffError Bytes → Bool
is_out (err out_of_fuel) = true
is_out _ = false

length-take-le : (n : ℕ) (b : Bytes) → length (take n b) ≤ length b
length-take-le n b =
    omega (arith, ap length (take-append-drop n b), length-append (take n b) (drop n b))

unless_short :
    (short : Bool) (rest : Result SniffError Bytes)
    → is_out rest ≡ false
    → is_out (if short then err incomplete else rest) ≡ false
unless_short true rest k = refl
unless_short false rest k = k

module _ (pl : Platform) where
  name_loop-ends_lem : (f : ℕ) (b : Bytes) → length b ≤ f → is_out (name_loop pl f b) ≡ false
  unfolding name_loop
  name_loop-ends_lem zero [] h = refl
  name_loop-ends_lem zero (t ∷ b) h = absurd (omega arith)
  name_loop-ends_lem (suc f) [] h = refl
  name_loop-ends_lem (suc f) (t ∷ []) h = refl
  name_loop-ends_lem (suc f) (t ∷ n ∷ []) h = refl
  name_loop-ends_lem (suc f) (t ∷ n ∷ m ∷ b) h =
      let size = n * 256 + m in
      by_tests (ltb (length b) size) (t == 0) (to_lower pl (take size b)) _
        (name_loop-ends_lem f (drop size b) (omega (arith, length-drop size b)))
    where
      by_tests :
          (short found : Bool) (name : Bytes) (rest : Result SniffError Bytes)
          → is_out rest ≡ false
          → is_out (if short then err incomplete else if found then ok name else rest) ≡ false
      by_tests true found name rest k = refl
      by_tests false true name rest k = refl
      by_tests false false name rest k = k

  parse_sni_extension-ends_lem : (b : Bytes) → is_out (parse_sni_extension pl b) ≡ false
  unfolding parse_sni_extension
  parse_sni_extension-ends_lem [] = refl
  parse_sni_extension-ends_lem (n ∷ []) = refl
  parse_sni_extension-ends_lem (n ∷ m ∷ b) =
      unless_short (ltb (length b) (n * 256 + m)) _
        (name_loop-ends_lem (length b) (take (n * 256 + m) b) (length-take-le (n * 256 + m) b))

  extension_loop-ends_lem :
      (f : ℕ) (b : Bytes) → length b ≤ f → is_out (extension_loop pl f b) ≡ false
  unfolding extension_loop
  extension_loop-ends_lem zero [] h = refl
  extension_loop-ends_lem zero (t ∷ b) h = absurd (omega arith)
  extension_loop-ends_lem (suc f) [] h = refl
  extension_loop-ends_lem (suc f) (t ∷ []) h = refl
  extension_loop-ends_lem (suc f) (t ∷ u ∷ []) h = refl
  extension_loop-ends_lem (suc f) (t ∷ u ∷ n ∷ []) h = refl
  extension_loop-ends_lem (suc f) (t ∷ u ∷ n ∷ m ∷ b) h =
      let size = n * 256 + m in
      by_tests (ltb (length b) size) ((t * 256 + u) == 0) _ _
        (parse_sni_extension-ends_lem (take size b))
        (extension_loop-ends_lem f (drop size b) (omega (arith, length-drop size b)))
    where
      by_tests :
          (short found : Bool) (name rest : Result SniffError Bytes)
          → is_out name ≡ false
          → is_out rest ≡ false
          → is_out (if short then err incomplete else if found then name else rest) ≡ false
      by_tests true found name rest j k = refl
      by_tests false true name rest j k = j
      by_tests false false name rest j k = k

  parse_extensions-ends_lem : (b : Bytes) → is_out (parse_extensions pl b) ≡ false
  unfolding parse_extensions
  parse_extensions-ends_lem [] = refl
  parse_extensions-ends_lem (n ∷ []) = refl
  parse_extensions-ends_lem (n ∷ m ∷ b) =
      unless_short (ltb (length b) (n * 256 + m)) _
        (extension_loop-ends_lem (length b) (take (n * 256 + m) b) (length-take-le (n * 256 + m) b))

  parse_body-ends_lem : (b : Bytes) → is_out (parse_body pl b) ≡ false
  unfolding parse_body
  parse_body-ends_lem b = by_test (ltb (length b) 34)
    where
      chained :
          (o : Option Bytes) (k : Bytes → Result SniffError Bytes)
          → ((c : Bytes) → is_out (k c) ≡ false)
          → is_out (or_else o incomplete >>= k) ≡ false
      chained none k h = refl
      chained (some c) k h = h c

      by_test :
          (short : Bool)
          → is_out (
              if short then err incomplete else do
                after_session ← or_else (skip_u8 (drop 34 b)) incomplete
                after_ciphers ← or_else (skip_u16 after_session) incomplete
                after_compression ← or_else (skip_u8 after_ciphers) incomplete
                parse_extensions pl after_compression)
            ≡ false
      by_test true = refl
      by_test false = chained (skip_u8 (drop 34 b)) _ (λ c.
          chained (skip_u16 c) _ (λ e. chained (skip_u8 e) _ (λ g. parse_extensions-ends_lem g)))

  parse_client_hello-ends_lem : (b : Bytes) → is_out (parse_client_hello pl b) ≡ false
  unfolding parse_client_hello
  parse_client_hello-ends_lem [] = refl
  parse_client_hello-ends_lem (t ∷ []) = refl
  parse_client_hello-ends_lem (t ∷ h ∷ []) = refl
  parse_client_hello-ends_lem (t ∷ h ∷ m ∷ []) = refl
  parse_client_hello-ends_lem (t ∷ h ∷ m ∷ l ∷ b) = by_type (not (t == 1))
    where
      size : ℕ
      size = h * 65536 + m * 256 + l

      by_type :
          (other : Bool)
          → is_out (
              if other
              then err not_tls
              else if ltb (length b) size
              then err incomplete
              else parse_body pl (take size b))
            ≡ false
      by_type true = refl
      by_type false = unless_short (ltb (length b) size) _ (parse_body-ends_lem (take size b))

  -- The parser ends on every input: with the fuel that they start with, the loops over the extensions
  -- and over the names come to a result of the code, and never run out of fuel.
  pub parse_client_hello_ends : (b : Bytes) → parse_client_hello pl b ≢ err out_of_fuel
  parse_client_hello_ends b e =
      absurd (let q : true ≡ false = sym (ap is_out e) ∙ parse_client_hello-ends_lem b in cc)
