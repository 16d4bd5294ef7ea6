-- ===== src/Prelude/Text.antt =====
-- What the program uses of JavaScript's strings: comparison, `trim`, `split` and the change of case.
-- `trim` removes the white space and line terminators of ECMAScript. The change of case is that of the
-- 26 letters of ASCII: the letters that Unicode adds are not modelled.
pub mod Laws
use Prim.Native.Nat.{ℕ}
use Prim.Native.Char.{Char, code}
use Prim.Native.String.{String, [], ◌∷◌}
use mathlib.Core.Path.{◌≡◌, refl, ap, ◌∙◌, sym}
use mathlib.Core.Bool.{Bool, true, false, ◌||◌, ◌&&◌}
use mathlib.Core.List.{List, [], ◌∷◌}
use mathlib.Core.Option.{Option, none, some}
use native.Mathlib.Omega.{arith}
use text.Mathlib.Text.{◌==◌ as text_eq}
use text.Mathlib.TextEquality.{eq_iff}
use text.Mathlib.TextPositions.{eq_refl}
use nexusflow_backend.Prelude.Tests.{if◌then◌else◌, leb, ◌==◌}

-- `===` on texts.
infix 50 ◌===◌
abbrev pub ◌===◌ : String → String → Bool
s === t = text_eq s t

pub eq_of_=== : (s t : String) → (s === t) ≡ true → s ≡ t
eq_of_=== s t = (eq_iff s t).0

pub ===_refl : (s : String) → (s === s) ≡ true
===_refl = eq_refl

unfoldable pub is_empty : String → Bool
is_empty [] = true
is_empty (c ∷ s) = false

is_space : ℕ → Bool
is_space c =
    c == 0x20
    || leb 0x9 c && leb c 0xd
    || c == 0xa0
    || c == 0x1680
    || leb 0x2000 c && leb c 0x200a
    || c == 0x2028
    || c == 0x2029
    || c == 0x202f
    || c == 0x205f
    || c == 0x3000
    || c == 0xfeff

trim_start : String → String
trim_start [] = []
trim_start (c ∷ s) = if is_space (code c) then trim_start s else c ∷ s

-- The text `c ∷ s`, where the end of `s` is trimmed already.
keep : Char → String → String
keep c [] = if is_space (code c) then [] else c ∷ []
keep c (d ∷ s) = c ∷ d ∷ s

trim_end : String → String
trim_end [] = []
trim_end (c ∷ s) = keep c (trim_end s)

unfoldable pub trim : String → String
unfolding is_space trim_start keep trim_end
trim s = trim_end (trim_start s)

abbrev letters : List (Char × Char)
letters =
    ("A", "a")
    ∷ ("B", "b")
    ∷ ("C", "c")
    ∷ ("D", "d")
    ∷ ("E", "e")
    ∷ ("F", "f")
    ∷ ("G", "g")
    ∷ ("H", "h")
    ∷ ("I", "i")
    ∷ ("J", "j")
    ∷ ("K", "k")
    ∷ ("L", "l")
    ∷ ("M", "m")
    ∷ ("N", "n")
    ∷ ("O", "o")
    ∷ ("P", "p")
    ∷ ("Q", "q")
    ∷ ("R", "r")
    ∷ ("S", "s")
    ∷ ("T", "t")
    ∷ ("U", "u")
    ∷ ("V", "v")
    ∷ ("W", "w")
    ∷ ("X", "x")
    ∷ ("Y", "y")
    ∷ ("Z", "z")
    ∷ []

lower_by : List (Char × Char) → Char → Char
lower_by [] c = c
lower_by ((upper, small) ∷ rest) c = if code c == code upper then small else lower_by rest c

lower_char : Char → Char
unfolding lower_by
lower_char c = lower_by letters c

unfoldable pub to_lower_case : String → String
unfolding lower_char
to_lower_case [] = []
to_lower_case (c ∷ s) = lower_char c ∷ to_lower_case s

raise_by : List (Char × Char) → Char → Char
raise_by [] c = c
raise_by ((upper, small) ∷ rest) c = if code c == code small then upper else raise_by rest c

raise_char : Char → Char
unfolding raise_by
raise_char c = raise_by letters c

unfoldable pub to_upper_case : String → String
unfolding raise_char
to_upper_case [] = []
to_upper_case (c ∷ s) = raise_char c ∷ to_upper_case s

-- The text behind a prefix, where it begins with it.
unfoldable pub behind : String → String → Option String
behind [] s = some s
behind (c ∷ p) [] = none
behind (c ∷ p) (d ∷ s) = if code c == code d then behind p s else none

-- `includes`, of a character.
unfoldable pub has_char : ℕ → String → Bool
has_char c [] = false
has_char c (d ∷ s) = code d == c || has_char c s

-- `split(c)[0]`: the text up to the first character with the code.
unfoldable pub before : ℕ → String → String
before c [] = []
before c (d ∷ s) = if code d == c then [] else d ∷ before c s

-- The first part of a split in front of the others.
abbrev begin_part : Char → List String → List String
begin_part d [] = String.◌∷◌ d String.[] ∷ []
begin_part d (part ∷ parts) = String.◌∷◌ d part ∷ parts

-- `split(c)`: the parts between the characters with the code.
unfoldable pub split : ℕ → String → List String
split c [] = [] ∷ []
split c (d ∷ s) = let parts = split c s in if code d == c then [] ∷ parts else begin_part d parts

test_split : split b',' "a,,b" ≡ "a" ∷ "" ∷ "b" ∷ []
unfolding split
test_split = refl

test_upper : to_upper_case "aa:0f" ≡ "AA:0F"
unfolding to_upper_case
test_upper = refl

test_behind : behind "logic/" "logic/input" ≡ some "input"
unfolding behind
test_behind = refl

test_trim : trim "  MQ2 analog " ≡ "MQ2 analog"
unfolding trim
test_trim = refl

test_lower : to_lower_case "Distance_CM" ≡ "distance_cm"
unfolding to_lower_case
test_lower = refl
