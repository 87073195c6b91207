-- ===== src/Tunnel/Frame.antt =====
-- `WriteConnect` and `ReadConnect` of shared/tunnel/tunnel.go, against each other.
use smart_dns_proxy.Prelude.{
  ℕ, zero, suc, ◌+◌, ◌*◌, ◌/◌, ◌%◌, ◌≤◌, ◌<◌, ◌≡◌, refl, sym, ap, ◌∙◌, Bool, true, false, not, ◌||◌,
  [], ◌∷◌, ◌++◌, arith, ltb, ◌==◌, if◌then◌else◌, ltb→le, nat_eq, length, get_or, take, drop,
  length-append, take-append-drop, take-append, drop-append, length-take, All, Bytes, bytes_eq,
  Result, ok, err,
}
use smart_dns_proxy.Tunnel.{
  TunnelError, protocol, transport, connect_frame, read_connect, max_host_len,
}

get_or-append : (xs ys : Bytes) (i : ℕ) → get_or (xs ++ ys) (length xs + i) 0 ≡ get_or ys i 0
get_or-append [] ys i = ap (λ n. get_or ys n 0) (zero_lem i)
  where
    zero_lem : (i : ℕ) → 0 + i ≡ i
    zero_lem i = omega arith
get_or-append (x ∷ xs) ys i = rw (suc_lem (length xs) i) (get_or-append xs ys i)
  where
    suc_lem : (n i : ℕ) → suc n + i ≡ suc (n + i)
    suc_lem n i = omega arith

-- What `WriteConnect` sends, `ReadConnect` reads back, with the port modulo 2^16, and it leaves what
-- follows the frame.
pub read_connect-connect_frame :
    (read_error host : Bytes) (port : ℕ) (rest : Bytes)
    → 1 ≤ length host
    → length host ≤ 253
    → read_connect read_error (connect_frame host port ++ rest) ≡ ok (host, port % 65536, rest)
unfolding read_connect connect_frame
read_connect-connect_frame read_error host port rest lo hi =
    let n = length host % 256 in
    let a = port / 256 % 256 in
    let b = port % 256 in
    let total = host ++ a ∷ b ∷ [] in
    let same : n ≡ length host = omega arith in
    let all : n + 2 ≡ length total = omega (arith, length-append host (a ∷ b ∷ [])) in
    let cut : take (n + 2) (total ++ rest) ≡ total = rw all (take-append total rest) in
    let left : drop (n + 2) (total ++ rest) ≡ rest = rw all (drop-append total rest) in
    let name : take n total ≡ host = rw same (take-append host (a ∷ b ∷ [])) in
    let high : get_or total n 0 ≡ a =
      let e : n ≡ length host + 0 = omega arith in rw e (get_or-append host (a ∷ b ∷ []) 0) in
    let low : get_or total (n + 1) 0 ≡ b = rw same (get_or-append host (a ∷ b ∷ []) 1) in
    let sized : (n == 0 || ltb max_host_len n) ≡ false = ground arith in
    let enough : ltb (length (total ++ rest)) (n + 2) ≡ false =
      ground (arith, length-append total rest) in
    let number : a * 256 + b ≡ port % 65536 = omega arith in
    rw sized (rw enough (rw cut (rw left (rw name (rw high (rw low (rw number)))))))

-- the bytes of a stream are bytes
abbrev pub IsBytes : Bytes → Type 0
IsBytes s = All (λ c. c < 256) s

split_two :
    (n : ℕ) (s : Bytes)
    → n + 2 ≤ length s
    → take (n + 2) s
      ≡ take n s ++ get_or (take (n + 2) s) n 0 ∷ get_or (take (n + 2) s) (n + 1) 0 ∷ []
split_two zero (x ∷ y ∷ s) h = refl
split_two zero (x ∷ []) h = absurd (omega arith)
split_two zero [] h = absurd (omega arith)
split_two (suc n) [] h = absurd (omega arith)
split_two (suc n) (x ∷ s) h =
    let e : suc n + 2 ≡ suc (n + 2) = omega arith in
    let e' : suc n + 1 ≡ suc (n + 1) = omega arith in
    rw e (rw e' (ap (λ l. x ∷ l) (split_two n s (omega arith))))

take-take_le : (n m : ℕ) (s : Bytes) → n ≤ m → take n (take m s) ≡ take n s
take-take_le zero m s h = refl
take-take_le (suc n) zero s h = absurd (omega arith)
take-take_le (suc n) (suc m) [] h = refl
take-take_le (suc n) (suc m) (x ∷ s) h = ap (λ l. x ∷ l) (take-take_le n m s (omega arith))

get_or-lt : (s : Bytes) (i : ℕ) → IsBytes s → get_or s i 0 < 256
get_or-lt [] i v = omega arith
get_or-lt (x ∷ s) zero v = v.0
get_or-lt (x ∷ s) (suc i) v = get_or-lt s i v.1

IsBytes-take : (n : ℕ) (s : Bytes) → IsBytes s → IsBytes (take n s)
IsBytes-take zero s v = tt
IsBytes-take (suc n) [] v = v
IsBytes-take (suc n) (x ∷ s) v = (v.0, IsBytes-take n s v.1)

-- A frame that `ReadConnect` accepts is the one that `WriteConnect` sends for the host and the port
-- that were read: no other bytes are accepted, and the host has 1 to 253 bytes, the port 16 bits.
pub read_connect-ok :
    (read_error stream host : Bytes) (port : ℕ) (rest : Bytes)
    → IsBytes stream
    → read_connect read_error stream ≡ ok (host, port, rest)
    → (stream ≡ connect_frame host port ++ rest)
      × (1 ≤ length host)
      × (length host ≤ 253)
      × (port < 65536)
unfolding read_connect connect_frame
read_connect-ok read_error [] host port rest v e = cc
read_connect-ok read_error (x ∷ []) host port rest v e = cc
read_connect-ok read_error (x ∷ y ∷ []) host port rest v e = cc
read_connect-ok read_error (x ∷ y ∷ n ∷ s) host port rest v e =
    let b = take (n + 2) s in
    let hi = get_or b n 0 in
    let lo = get_or b (n + 1) 0 in
    let (g₁, g₂, g₃, found) =
      accepted (not (x == 1) || not (y == 1)) (n == 0 || ltb max_host_len n)
        (ltb (length s) (n + 2)) (take n b, hi * 256 + lo, drop (n + 2) s) e in
    let enough : n + 2 ≤ length s = ltb→le (length s) (n + 2) g₃ in
    let bytes : IsBytes b = IsBytes-take (n + 2) s v.1.1.1 in
    let hi_byte = get_or-lt b n bytes in
    let lo_byte = get_or-lt b (n + 1) bytes in
    let name : take n b ≡ host = cc found in
    let number : hi * 256 + lo ≡ port = cc found in
    let left : drop (n + 2) s ≡ rest = cc found in
    let short : take n s ≡ host = sym (take-take_le n (n + 2) s (omega arith)) ∙ name in
    let size : length host ≡ n = rw (sym short) (length-take n s (omega arith)) in
    let high : hi ≡ port / 256 % 256 = omega arith in
    let low : lo ≡ port % 256 = omega arith in
    let whole : s ≡ (host ++ port / 256 % 256 ∷ port % 256 ∷ []) ++ rest =
      sym (take-append-drop (n + 2) s) ∙ cc (split_two n s enough, short, high, low, left) in
    let first : x ≡ 1 = ground arith in
    let second : y ≡ 1 = ground arith in
    let third : n ≡ length host % 256 = ground arith in
    (cc (first, second, third, whole), ground arith, ground arith, omega arith)
  where
    accepted :
        (g₁ g₂ g₃ : Bool) (r : Bytes × ℕ × Bytes)
        → (if g₁
            then err protocol
            else if g₂
            then err protocol
            else if g₃
            then err (transport read_error)
            else ok r)
          ≡ ok (host, port, rest)
        → (g₁ ≡ false) × (g₂ ≡ false) × (g₃ ≡ false) × (r ≡ (host, port, rest))
    accepted true g₂ g₃ r q = cc
    accepted false true g₃ r q = cc
    accepted false false true r q = cc
    accepted false false false r q = (refl, refl, refl, injective q)
      where
        injective :
            {u w : Bytes × ℕ × Bytes}
            → ◌≡◌ {A = Result TunnelError (Bytes × ℕ × Bytes)} (ok u) (ok w)
            → u ≡ w
        injective q = cc
