-- ===== src/Strings/Laws.antt =====
-- Laws of the text functions: what a cut at a dot leaves, labels, and lower case.
use smart_dns_proxy.Prelude.{
  ℕ, suc, ◌+◌, ◌≤◌, ◌<◌, ◌≡◌, ◌⊎◌, inl, inr, refl, ap, Bytes, Bool, true, false, ◌&&◌, ◌||◌, none,
  some, List, [], ◌∷◌, ◌++◌, arith, ◌==◌, if◌then◌else◌, length, Bool-cases,
}
use smart_dns_proxy.Strings.{dot, after_byte, split, push, lower_byte}

-- `s` stands in `h` behind a dot.
abbrev pub Beneath : Bytes → Bytes → Type 0
Beneath s h = (p : Bytes) × (h ≡ p ++ dot ∷ s)

-- `s` is `h`, or the part of `h` behind one of its dots.
abbrev pub IsLabelSuffix : Bytes → Bytes → Type 0
IsLabelSuffix s h = (s ≡ h) ⊎ Beneath s h

pub after_byte-lt : (c : ℕ) (h r : Bytes) → after_byte c h ≡ some r → length r < length h
unfolding after_byte
after_byte-lt c [] r e = cc
after_byte-lt c (x ∷ h) r e = elim (Bool-cases (x == c)) [
  | inl at ↦ let q : h ≡ r = ground arith in rw q (omega arith)
  | inr off ↦ omega (arith, after_byte-lt c h r (ground arith))
]

-- Whether a test holds behind some dot.
unfoldable pub dot_hits : (Bytes → Bool) → Bytes → Bool
dot_hits test [] = false
dot_hits test (x ∷ h) = (x == dot && test h) || dot_hits test h

-- How many dots a text has.
unfoldable pub dots : Bytes → ℕ
dots [] = 0
dots (x ∷ h) = if x == dot then suc (dots h) else dots h

pub dot_hits-none :
    (test : Bytes → Bool) (h : Bytes) → after_byte dot h ≡ none → dot_hits test h ≡ false
unfolding after_byte dot_hits
dot_hits-none test [] e = refl
dot_hits-none test (x ∷ h) e = ground (arith, dot_hits-none test h)

pub dot_hits-some :
    (test : Bytes → Bool) (h r : Bytes)
    → after_byte dot h ≡ some r
    → dot_hits test h ≡ (test r || dot_hits test r)
unfolding after_byte dot_hits
dot_hits-some test [] r e = cc
dot_hits-some test (x ∷ h) r e = elim (Bool-cases (x == dot)) [
  | inl at ↦ let q : h ≡ r = ground arith in rw at (rw q refl)
  | inr off ↦ rw off (dot_hits-some test h r (ground arith))
]

pub dots-some : (h r : Bytes) → after_byte dot h ≡ some r → dots h ≡ suc (dots r)
unfolding after_byte dots
dots-some [] r e = cc
dots-some (x ∷ h) r e = elim (Bool-cases (x == dot)) [
  | inl at ↦ let q : h ≡ r = ground arith in rw at (rw q refl)
  | inr off ↦ rw off (dots-some h r (ground arith))
]

pub dot_hits_sound :
    (test : Bytes → Bool) (h : Bytes)
    → dot_hits test h ≡ true
    → (s : Bytes) × Beneath s h × (test s ≡ true)
unfolding dot_hits
dot_hits_sound test [] e = cc
dot_hits_sound test (x ∷ h) e = elim (Bool-cases (x == dot && test h)) [
  | inl here ↦ let q : x ≡ dot = ground arith in (h, ([], rw q refl), ground arith)
  | inr later ↦
      let (s, b, t) = dot_hits_sound test h (ground arith) in (s, (x ∷ b.0, ap (λ l. x ∷ l) b.1), t)
]

pub dot_hits_complete :
    (test : Bytes → Bool) (p s : Bytes) → test s ≡ true → dot_hits test (p ++ dot ∷ s) ≡ true
unfolding dot_hits
dot_hits_complete test [] s t = ground arith
dot_hits_complete test (x ∷ p) s t = ground (arith, dot_hits_complete test p s t)

pub dots-append : (p s : Bytes) → dots (p ++ s) ≡ dots p + dots s
unfolding dots
dots-append [] s = omega arith
dots-append (x ∷ p) s = ground (arith, dots-append p s)

pub length-push : (c : ℕ) (ls : List Bytes) → 1 ≤ length ls → length (push c ls) ≡ length ls
unfolding push
length-push c [] h = absurd (omega arith)
length-push c (l ∷ ls) h = refl

-- A text has one label more than dots.
pub length-split : (h : Bytes) → length (split dot h) ≡ suc (dots h)
unfolding split dots
length-split [] = refl
length-split (x ∷ h) = elim (Bool-cases (x == dot)) [
  | inl at ↦ rw at (ap suc (length-split h))
  | inr off ↦
      rw off
        (omega (arith, length-split h, length-push x (split dot h) (omega (arith, length-split h))))
]

pub lower_byte_idem : (c : ℕ) → lower_byte (lower_byte c) ≡ lower_byte c
unfolding lower_byte
lower_byte_idem c = ground arith
