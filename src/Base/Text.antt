-- ===== src/Base/Text.antt =====
-- Python's text operations, over the code points of a text.
use Prim.Native.Char.{code}
use Prim.Native.Nat.{ℕ, suc, ◌+◌}
use Prim.Native.String.{String}
use mathlib.Core.Bool.{Bool, true, false, not, ◌&&◌, ◌||◌}
use mathlib.Core.List.{List, [], ◌∷◌}
use codejudge_ai.Base.Tests.{ltb, leb, ◌==◌, if◌then◌else◌}

abbrev pub codes : String → List ℕ
codes String.[] = []
codes (String.◌∷◌ c s) = code c ∷ codes s

-- `str.lower`, as far as a search for ASCII text can tell: of the other letters only U+0130 and
-- U+212A have a lower case with an ASCII letter in it, and the rest are left as they are.
unfoldable pub lower : List ℕ → List ℕ
lower [] = []
lower (c ∷ cs) =
    let rest = lower cs in
    if leb b'A' c && leb c b'Z'
    then (c + 32) ∷ rest
    else if c == 0x130
    then b'i' ∷ 0x307 ∷ rest
    else if c == 0x212A
    then b'k' ∷ rest
    else c ∷ rest

unfoldable pub is_prefix : List ℕ → List ℕ → Bool
is_prefix [] ys = true
is_prefix (x ∷ xs) [] = false
is_prefix (x ∷ xs) (y ∷ ys) = x == y && is_prefix xs ys

-- `needle in text`
unfoldable pub contains : List ℕ → List ℕ → Bool
unfolding is_prefix
contains needle [] = is_prefix needle []
contains needle (y ∷ ys) = is_prefix needle (y ∷ ys) || contains needle ys

unfoldable pub same_text : List ℕ → List ℕ → Bool
same_text [] [] = true
same_text (x ∷ xs) (y ∷ ys) = x == y && same_text xs ys
same_text _ _ = false

unfoldable pub member : List ℕ → List (List ℕ) → Bool
unfolding same_text
member text [] = false
member text (t ∷ ts) = same_text t text || member text ts

-- `len(text.encode("utf-8"))`
unfoldable pub utf8_length : List ℕ → ℕ
utf8_length [] = 0
utf8_length (c ∷ cs) =
    (if ltb c 0x80 then 1 else if ltb c 0x800 then 2 else if ltb c 0x10000 then 3 else 4)
    + utf8_length cs

-- the line boundaries of `str.splitlines`
unfoldable pub is_line_break : ℕ → Bool
is_line_break c =
    (leb 0x0A c && leb c 0x0D)
    || (leb 0x1C c && leb c 0x1E)
    || c == 0x85
    || c == 0x2028
    || c == 0x2029

-- `len(text.splitlines())`: within a line that is open, or just after a carriage return
unfoldable pub line_count : (in_line after_return : Bool) → List ℕ → ℕ
unfolding is_line_break
line_count in_line after_return [] = if in_line then 1 else 0
line_count in_line after_return (c ∷ cs) =
    let rest = line_count (not (is_line_break c)) (c == 0x0D) cs in
    if is_line_break c && not (after_return && c == 0x0A) then suc rest else rest
