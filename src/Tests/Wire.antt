-- ===== src/Tests/Wire.antt =====
-- The bytes of a connection.
use smart_dns_proxy.Prelude.{
  ℕ, zero, suc, ◌+◌, ◌%◌, ◌≤◌, ◌≡◌, refl, ◌≢◌, true, false, List, [], ◌∷◌, ◌++◌, arith, nat_eq,
  length, drop, Bytes, codes, bytes_eq, ok, err,
}
use smart_dns_proxy.Tests.{plain}
use smart_dns_proxy.Strings.{to_lower}
use smart_dns_proxy.Sniff.{out_of_fuel, parse_client_hello, peek_sni, pre_read_limit, u16_at}
use smart_dns_proxy.Sniff.Hello.{Hello, IsHello, hello_message, parse_client_hello-hello}
use smart_dns_proxy.Sniff.Replay.{peek_sni_replay}
use smart_dns_proxy.Sniff.Fuel.{parse_client_hello_ends}
use smart_dns_proxy.Tunnel.{connect_frame, read_connect, Round, copy}
use smart_dns_proxy.Tunnel.Frame.{read_connect-connect_frame}
use smart_dns_proxy.Tunnel.Copy.{received, cut_off, read_to_end, copy-out}

abbrev zeros : ℕ → Bytes
zeros zero = []
zeros (suc n) = 0 ∷ zeros n

-- Of TLS 1.2, with one cipher, the extension of supported versions first, and ALPN behind.
abbrev hello : Hello
hello = record {
  fixed = 3 ∷ 3 ∷ zeros 32;
  session = [];
  ciphers = 19 ∷ 1 ∷ [];
  compression = 0 ∷ [];
  before = (43, 2 ∷ 3 ∷ 4 ∷ []) ∷ [];
  name = codes "Example.com";
  after = 0 ∷ 16 ∷ 0 ∷ 0 ∷ [];
}

hello-IsHello : IsHello hello
hello-IsHello = record {
  fixed = refl;
  session = omega arith;
  ciphers = omega arith;
  compression = omega arith;
  before = ((omega arith, omega arith, omega arith), tt);
  name = omega arith;
  extensions = omega arith;
  body = omega arith;
}

parse_client_hello-hello_example :
    parse_client_hello plain (hello_message hello) ≡ ok (to_lower plain (codes "Example.com"))
parse_client_hello-hello_example = parse_client_hello-hello plain hello hello-IsHello

-- the record of the hello, with two bytes of the next record
abbrev pub record_bytes : Bytes
record_bytes = 22 ∷ 3 ∷ 1 ∷ 0 ∷ length (hello_message hello) ∷ (hello_message hello ++ 20 ∷ 3 ∷ [])

peek_sni_replay_example :
    let raw = (peek_sni plain record_bytes 0).1 in
    (raw ++ drop (length raw) record_bytes ≡ record_bytes)
    × (length raw ≤ pre_read_limit 0)
    × (length raw ≡ 5 + u16_at record_bytes 3)
    × (parse_client_hello plain (drop 5 raw) ≡ ok (codes "example.com"))
unfolding peek_sni to_lower smart_dns_proxy.Strings.is_ascii smart_dns_proxy.Strings.lower_byte
peek_sni_replay_example = peek_sni_replay plain record_bytes 0 (codes "example.com") refl

parse_client_hello_ends_example : parse_client_hello plain (hello_message hello) ≢ err out_of_fuel
parse_client_hello_ends_example = parse_client_hello_ends plain (hello_message hello)

read_connect-connect_frame_example :
    read_connect [] (connect_frame (codes "example.com") 443 ++ 22 ∷ 3 ∷ [])
    ≡ ok (codes "example.com", 443 % 65536, 22 ∷ 3 ∷ [])
read_connect-connect_frame_example =
    read_connect-connect_frame [] (codes "example.com") 443 (22 ∷ 3 ∷ []) (omega arith)
      (omega arith)

abbrev rounds : List Round
rounds =
    record { chunk = 1 ∷ 2 ∷ []; read_failed = false; written = 2; write_failed = false }
    ∷ record { chunk = 3 ∷ []; read_failed = true; written = 1; write_failed = false }
    ∷ []

copy-out_example :
    (rest : Bytes) × ((copy rounds [] 0).0 ++ rest ≡ [] ++ received rounds)
    × ((copy rounds [] 0).1 ≡ length (copy rounds [] 0).0)
    × (cut_off rounds ≡ false → read_to_end rounds ≡ true → rest ≡ [])
copy-out_example = copy-out rounds [] 0 (ground arith) refl
