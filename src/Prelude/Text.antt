-- ===== src/Prelude/Text.antt =====
-- Texts as lists of code points, and the searches of Python's `re` that the code makes.
use Prim.Native.Char.{code}
use Prim.Native.Nat.{ℕ}
use Prim.Native.String.{String}
use mathlib.Core.Bool.{Bool, true, false, ◌||◌, ◌&&◌}
use mathlib.Core.List.{List, [], ◌∷◌}
use tersecontext.Prelude.Tests.{eqb}

-- The code points of a text. `String` has its own `[]` and `∷`.
abbrev pub codes : String → List ℕ
codes String.[] = []
codes (String.◌∷◌ c s) = code c ∷ codes s

-- `w` stands at the beginning of `s`, and what is behind it passes the test.
abbrev pub at_start : (List ℕ → Bool) → List ℕ → List ℕ → Bool
at_start behind [] s = behind s
at_start behind (w ∷ ws) [] = false
at_start behind (w ∷ ws) (c ∷ s) = eqb c w && at_start behind ws s

abbrev pub anything : List ℕ → Bool
anything s = true

-- A test passes at the text or behind some of its characters.
abbrev pub somewhere : (List ℕ → Bool) → List ℕ → Bool
somewhere test [] = test []
somewhere test (c ∷ s) = test (c ∷ s) || somewhere test s

-- One of some words stands at the beginning: `(?:w|v|…)`, with what must be behind it.
abbrev pub one_of : List String → (List ℕ → Bool) → List ℕ → Bool
one_of [] behind s = false
one_of (w ∷ ws) behind s = at_start behind (codes w) s || one_of ws behind s

-- `[_\.]`
abbrev pub is_sep : ℕ → Bool
is_sep c = eqb c b'_' || eqb c b'.'

abbrev pub sep_then : (List ℕ → Bool) → List ℕ → Bool
sep_then behind [] = false
sep_then behind (c ∷ s) = is_sep c && behind s

-- `$` matches at the end, and before a line feed at the end.
abbrev pub at_end : List ℕ → Bool
at_end [] = true
at_end (c ∷ []) = eqb c 10
at_end (c ∷ d ∷ s) = false

-- `(?:[_\.]|$)`
abbrev pub sep_or_end : List ℕ → Bool
sep_or_end s = sep_then anything s || at_end s

-- `re.search(r"(?:^|[_\.])(?:w|v|…)(?:[_\.]|$)", s)`
abbrev pub word_search : List String → List ℕ → Bool
word_search ws s = one_of ws sep_or_end s || somewhere (sep_then (one_of ws sep_or_end)) s
