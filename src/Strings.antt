-- ===== src/Strings.antt =====
-- The functions of Go's `strings` package that the program calls, over bytes.
pub mod Laws
use mathlib.Core.List.{reverse}
use smart_dns_proxy.Prelude.{
  ℕ, ◌+◌, Bytes, Bool, true, false, ◌&&◌, ◌||◌, Option, none, some, List, [], ◌∷◌, map, ltb, leb,
  ◌==◌, if◌then◌else◌, is_empty, length, all, drop, take, elem, nat_eq,
}
use smart_dns_proxy.Platform.{Platform}

abbrev pub dot : ℕ
dot = 46

unfoldable pub is_ascii : Bytes → Bool
is_ascii s = all (λ c. ltb c 128) s

unfoldable pub lower_byte : ℕ → ℕ
lower_byte c = if leb b'A' c && leb c b'Z' then c + 32 else c

-- `strings.ToLower`: byte by byte on ASCII text, by the Unicode tables otherwise.
unfoldable pub to_lower : Platform → Bytes → Bytes
to_lower pl s = if is_ascii s then map lower_byte s else pl.unicode_lower s

-- tab, newline, vertical tab, form feed, carriage return, space
unfoldable pub is_space : ℕ → Bool
is_space c = (leb 9 c && leb c 13) || c == 32

unfoldable pub trim_left : Bytes → Bytes
trim_left [] = []
trim_left (c ∷ s) = if is_space c then trim_left s else c ∷ s

unfoldable pub trim_space : Platform → Bytes → Bytes
unfolding is_ascii trim_left is_space
trim_space pl s =
    if is_ascii s then reverse (trim_left (reverse (trim_left s))) else pl.unicode_trim s

unfoldable pub has_prefix : Bytes → Bytes → Bool
has_prefix s [] = true
has_prefix [] (p ∷ ps) = false
has_prefix (c ∷ s) (p ∷ ps) = c == p && has_prefix s ps

unfoldable pub trim_prefix : Bytes → Bytes → Bytes
unfolding has_prefix
trim_prefix s p = if has_prefix s p then drop (length p) s else s

-- `strings.TrimSuffix` by one byte, and `strings.HasSuffix` with the cut that follows it.
unfoldable pub trim_last : ℕ → Bytes → Bytes
trim_last c [] = []
trim_last c (x ∷ []) = if x == c then [] else x ∷ []
trim_last c (x ∷ y ∷ s) = x ∷ trim_last c (y ∷ s)

unfoldable pub contains : Bytes → Bytes → Bool
unfolding has_prefix
contains [] sub = has_prefix [] sub
contains (c ∷ s) sub = has_prefix (c ∷ s) sub || contains s sub

-- whether one of the bytes `chars` stands in the text: `strings.ContainsAny`
unfoldable pub contains_any : Bytes → Bytes → Bool
contains_any [] chars = false
contains_any (c ∷ s) chars = elem c chars || contains_any s chars

-- what stands behind the first `c`, if there is one: `s[strings.IndexByte(s, c)+1:]`
unfoldable pub after_byte : ℕ → Bytes → Option Bytes
after_byte c [] = none
after_byte c (x ∷ s) = if x == c then some s else after_byte c s

-- what stands before the first `c`, or the whole text: `s[:i]`
unfoldable pub before_byte : ℕ → Bytes → Bytes
before_byte c [] = []
before_byte c (x ∷ s) = if x == c then [] else x ∷ before_byte c s

unfoldable pub push : ℕ → List Bytes → List Bytes
push c [] = (c ∷ []) ∷ []
push c (l ∷ ls) = (c ∷ l) ∷ ls

-- `strings.Split` at a byte
unfoldable pub split : ℕ → Bytes → List Bytes
unfolding push
split c [] = [] ∷ []
split c (x ∷ s) = if x == c then [] ∷ split c s else push x (split c s)

drop_empty : List Bytes → List Bytes
drop_empty [] = []
drop_empty ([] ∷ ls) = drop_empty ls
drop_empty ((c ∷ l) ∷ ls) = (c ∷ l) ∷ drop_empty ls

split_spaces : Bytes → List Bytes
split_spaces [] = [] ∷ []
split_spaces (x ∷ s) = if is_space x then [] ∷ split_spaces s else push x (split_spaces s)

-- `strings.Fields`: the runs of bytes that are no space
unfoldable pub fields : Platform → Bytes → List Bytes
unfolding is_ascii drop_empty split_spaces push is_space
fields pl s = if is_ascii s then drop_empty (split_spaces s) else pl.unicode_fields s

-- `truncate` of the parser keeps `n` bytes and adds an ellipsis
abbrev pub ellipsis : Bytes
ellipsis = 226 ∷ 128 ∷ 166 ∷ []

-- U+FEFF, the byte order mark
abbrev pub bom : Bytes
bom = 239 ∷ 187 ∷ 191 ∷ []
