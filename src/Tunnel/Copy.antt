-- ===== src/Tunnel/Copy.antt =====
-- The copy loop of `Splice` in shared/tunnel/tunnel.go.
use smart_dns_proxy.Prelude.{
  ℕ, zero, suc, ◌+◌, ◌≤◌, ◌≡◌, refl, sym, ap, ◌∙◌, inl, inr, Bool, true, false, not, ◌&&◌, ◌||◌,
  List, [], ◌∷◌, ◌++◌, arith, if◌then◌else◌, Bool-cases, nat_eq, length, is_empty, take, drop, all,
  length-append, take-append-drop, length-take, length-drop, All, Bytes, bytes_eq,
}
use smart_dns_proxy.Tunnel.{Round, copy}

-- The contract of `io.Writer`: no more is written than given, and a short write is an error.
abbrev pub IsRound : Round → Type 0
IsRound r = (r.written ≤ length r.chunk) × (r.write_failed ≡ false → r.written ≡ length r.chunk)

abbrev pub received : List Round → Bytes
received [] = []
received (r ∷ rounds) = r.chunk ++ received rounds

-- Whether a write failed.
abbrev pub cut_off : List Round → Bool
cut_off [] = false
cut_off (r ∷ rounds) = (not (is_empty r.chunk) && r.write_failed) || cut_off rounds

-- Whether no round but the last ended the source.
abbrev pub read_to_end : List Round → Bool
read_to_end [] = true
read_to_end (r ∷ []) = true
read_to_end (r ∷ s ∷ rounds) = not r.read_failed && read_to_end (s ∷ rounds)

append_assoc_lem : (xs ys zs : Bytes) → (xs ++ ys) ++ zs ≡ xs ++ (ys ++ zs)
append_assoc_lem [] ys zs = refl
append_assoc_lem (x ∷ xs) ys zs = ap (λ l. x ∷ l) (append_assoc_lem xs ys zs)

append-nil_lem : (xs : Bytes) → xs ++ [] ≡ xs
append-nil_lem [] = refl
append-nil_lem (x ∷ xs) = ap (λ l. x ∷ l) (append-nil_lem xs)

take-all : (xs : Bytes) → take (length xs) xs ≡ xs
take-all [] = refl
take-all (x ∷ xs) = ap (λ l. x ∷ l) (take-all xs)

-- What one round adds to the output and to the count, and what of its chunk it leaves.
round_lem :
    (chunk out : Bytes) (written n : ℕ)
    → written ≤ length chunk
    → n ≡ length out
    → let out' = if is_empty chunk then out else out ++ take written chunk in
      (out' ++ drop written chunk ≡ out ++ chunk)
      × ((if is_empty chunk then n else n + written) ≡ length out')
      × (written ≡ length chunk → drop written chunk ≡ [])
round_lem [] out zero n h e = (refl, e, λ _. refl)
round_lem [] out (suc w) n h e = absurd (omega arith)
round_lem (c ∷ chunk) out written n h e = (
  append_assoc_lem out (take written (c ∷ chunk)) (drop written (c ∷ chunk))
      ∙ ap (λ l. out ++ l) (take-append-drop written (c ∷ chunk)),
  omega (arith, length-append out (take written (c ∷ chunk)), length-take written (c ∷ chunk) h),
  λ full. nothing_left (drop written (c ∷ chunk)) (omega (arith, length-drop written (c ∷ chunk))),
)
  where
    nothing_left : (l : Bytes) → length l ≡ 0 → l ≡ []
    nothing_left [] q = refl
    nothing_left (x ∷ l) q = absurd (omega arith)

no_loss :
    (r : Round)
    → IsRound r
    → (not (is_empty r.chunk) && r.write_failed) ≡ false
    → drop r.written r.chunk ≡ []
no_loss r v h = by_chunk r.chunk r.written v h
  where
    by_chunk :
        (chunk : Bytes) (written : ℕ)
        → (written ≤ length chunk) × (r.write_failed ≡ false → written ≡ length chunk)
        → (not (is_empty chunk) && r.write_failed) ≡ false
        → drop written chunk ≡ []
    by_chunk [] zero v h = refl
    by_chunk [] (suc w) v h = refl
    by_chunk (c ∷ chunk) w v h = (round_lem (c ∷ chunk) [] w 0 v.0 refl).2 (v.1 h)

last_round :
    (r : Round) (rounds : List Round)
    → read_to_end (r ∷ rounds) ≡ true
    → r.read_failed ≡ true
    → received rounds ≡ []
last_round r [] h e = refl
last_round r (s ∷ rounds) h e = cc (h, e)

read_to_end-tail :
    (r : Round) (rounds : List Round) → read_to_end (r ∷ rounds) ≡ true → read_to_end rounds ≡ true
read_to_end-tail r [] h = refl
read_to_end-tail r (s ∷ rounds) h = ground arith

-- What reached the other side is a beginning of what was read, in order, and the count is its
-- length. If no write failed and no round but the last ended the source, it is all that was read.
pub copy-out :
    (rounds : List Round) (out : Bytes) (n : ℕ)
    → All IsRound rounds
    → n ≡ length out
    → (rest : Bytes) × ((copy rounds out n).0 ++ rest ≡ out ++ received rounds)
      × ((copy rounds out n).1 ≡ length (copy rounds out n).0)
      × (cut_off rounds ≡ false → read_to_end rounds ≡ true → rest ≡ [])
unfolding copy
copy-out [] out n v e = ([], refl, e, λ _ _. refl)
copy-out (r ∷ rounds) out n v e =
    let (kept, counted, full) = round_lem r.chunk out r.written n v.0.0 e in
    let out' = if is_empty r.chunk then out else out ++ take r.written r.chunk in
    let n' = if is_empty r.chunk then n else n + r.written in
    let failed = not (is_empty r.chunk) && r.write_failed in
    let (rest, joined, count, all) = copy-out rounds out' n' v.1 counted in
    let left = drop r.written r.chunk in
    let later = received rounds in
    elim (Bool-cases (failed || r.read_failed)) [
      | inl stop ↦ rw stop (
        left ++ later,
        sym (append_assoc_lem out' left later)
            ∙ ap (λ l. l ++ later) kept
            ∙ append_assoc_lem out r.chunk later,
        counted,
        λ uncut ends.
            let none_left : left ≡ [] = no_loss r v.0 (ground arith) in
            let none_later : later ≡ [] = last_round r rounds ends (ground arith) in
            cc (none_left, none_later),
      )
      | inr go ↦
          let none_left : left ≡ [] = no_loss r v.0 (ground arith) in
          let same : out' ≡ out ++ r.chunk =
            sym (append-nil_lem out') ∙ ap (λ l. out' ++ l) (sym none_left) ∙ kept in
          rw go (
            rest,
            joined ∙ ap (λ l. l ++ later) same ∙ append_assoc_lem out r.chunk later,
            count,
            λ uncut ends. all (ground arith) (read_to_end-tail r rounds ends),
          )
    ]
