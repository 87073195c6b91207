-- ===== src/Platform.antt =====
-- What the program calls and the repository does not hold: the Unicode tables behind the `strings`
-- package, golang.org/x/net/idna, and the `regexp` engine. Each is a function of its input.
use smart_dns_proxy.Prelude.{Bytes, Bool, Option, List}

pub record Platform : Type 0 where
  -- `strings.ToLower`, `strings.TrimSpace` and `strings.Fields` on a text that is not all ASCII
  pub unicode_lower : Bytes → Bytes
  pub unicode_trim : Bytes → Bytes
  pub unicode_fields : Bytes → List Bytes
  -- `idnaProfile.ToASCII`; `none` is its error
  pub to_ascii : Bytes → Option Bytes
  -- whether `regexp.Compile` accepts a pattern, and `MatchString` of the compiled pattern
  pub regex_compiles : Bytes → Bool
  pub regex_matches : Bytes → Bytes → Bool
