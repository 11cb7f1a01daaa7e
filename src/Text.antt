-- ===== src/Text.antt =====
-- Texts as bytes, and the `str` functions of the standard library that the program calls.
-- A pattern that is valid UTF-8 occurs in a valid text at character boundaries only, so a search
-- by bytes finds what the search by characters finds.
pub mod Laws
pub mod Utf8
pub mod Decimal
use Prim.Native.Char.{code}
use Prim.Native.String.{String}
use adb_daemon_rs.Base.{
  ℕ, Bool, true, false, ◌||◌, List, [], ◌∷◌, ◌++◌, Option, none, some, Bytes, ◌==◌, nat_eq,
  bytes_eq, if◌then◌else◌,
}

-- The bytes of an ASCII literal.
abbrev pub codes : String → Bytes
codes String.[] = []
codes (String.◌∷◌ c s) = code c ∷ codes s

-- `s.strip_prefix(p)`.
unfoldable pub strip_prefix : Bytes → Bytes → Option Bytes
strip_prefix [] s = some s
strip_prefix (c ∷ p) [] = none
strip_prefix (c ∷ p) (d ∷ s) = if c == d then strip_prefix p s else none

-- The rest of `split_once` behind one more byte.
abbrev pub behind : ℕ → Option (Bytes × Bytes) → Option (Bytes × Bytes)
behind c none = none
behind c (some (a, b)) = some (c ∷ a, b)

abbrev pub or_else {ℓ} : {A : Type ℓ} → Option A → Option A → Option A
or_else (some a) o = some a
or_else none o = o

abbrev pub cut_here : Option Bytes → Option (Bytes × Bytes)
cut_here none = none
cut_here (some rest) = some ([], rest)

-- `s.split_once(sep)`: the parts before and behind the first `sep`.
unfoldable pub split_once : Bytes → Bytes → Option (Bytes × Bytes)
unfolding strip_prefix
split_once sep [] = cut_here (strip_prefix sep [])
split_once sep (c ∷ s) = or_else (cut_here (strip_prefix sep (c ∷ s))) (behind c (split_once sep s))

-- `s.split(sep)` at a single byte, which gives at least one part.
abbrev pub put_first : ℕ → List Bytes → List Bytes
put_first c [] = (c ∷ []) ∷ []
put_first c (p ∷ ps) = (c ∷ p) ∷ ps

unfoldable pub split : ℕ → Bytes → List Bytes
split sep [] = [] ∷ []
split sep (c ∷ s) = let rest = split sep s in if c == sep then [] ∷ rest else put_first c rest

-- `s.ends_with(c)` at a single byte.
unfoldable pub ends_with : ℕ → Bytes → Bool
ends_with e [] = false
ends_with e (c ∷ []) = c == e
ends_with e (c ∷ d ∷ s) = ends_with e (d ∷ s)
