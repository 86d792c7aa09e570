-- ===== src/Text.antt =====
-- Python's `str` as its list of code points, with the methods that the ledger calls.
pub mod Decimal
pub mod Integer
use Prim.Native.Char.{code}
use Prim.Native.String.{String}
use ledgergate.Base.{
  ℕ, ◌≡◌, refl, Bool, true, false, ◌&&◌, ◌||◌, List, [], ◌∷◌, leb, ltb, ◌==◌, if◌then◌else◌,
  list_eq, nat_eq, ℕ_discrete, list_dec,
}

abbrev pub Text : Type 0
Text = List ℕ

-- The code points of a literal.
abbrev pub text : String → Text
text String.[] = []
text (String.◌∷◌ c s) = code c ∷ text s

-- `str.isspace` of one code point.
unfoldable pub is_space : ℕ → Bool
is_space c =
    leb 9 c && leb c 13
    || leb 28 c && leb c 32
    || c == 0x85
    || c == 0xa0
    || c == 0x1680
    || leb 0x2000 c && leb c 0x200a
    || leb 0x2028 c && leb c 0x2029
    || c == 0x202f
    || c == 0x205f
    || c == 0x3000

-- `str.lstrip`
unfoldable pub lstrip : Text → Text
unfolding is_space
lstrip [] = []
lstrip (c ∷ cs) = let rest = lstrip cs in if is_space c then rest else c ∷ cs

-- `str.rstrip`
unfoldable pub rstrip : Text → Text
unfolding is_space
rstrip [] = []
rstrip (c ∷ cs) = elim (rstrip cs) [ [] ↦ if is_space c then [] else c ∷ [] | d ∷ ds ↦ c ∷ d ∷ ds ]

-- `str.strip`
unfoldable pub strip : Text → Text
unfolding lstrip rstrip
strip s = rstrip (lstrip s)

-- The order of `str`: by code points, a prefix first.
unfoldable pub text_lt : Text → Text → Bool
text_lt s [] = false
text_lt [] (d ∷ ds) = true
text_lt (c ∷ cs) (d ∷ ds) = let rest = text_lt cs ds in ltb c d || c == d && rest

strip_test : strip (text " a b\n") ≡ text "a b"
unfolding strip ℕ_discrete
strip_test = refl

text_eq_test : (text "ab" == text "ac") ≡ false
unfolding list_dec ℕ_discrete
text_eq_test = refl
