-- ===== src/Base/Text.antt =====
-- What the program uses of Go's package strings, over texts as sequences of code points:
-- TrimSpace (with the White_Space set of package unicode), ToUpper and ToLower (on the letters
-- a-z and A-Z; other letters are left alone), and the order of texts.
pub mod Case
pub mod Append
use Prim.Native.Nat.{ℕ}
use Prim.Native.Char.{Char, code}
use Prim.Native.String.{String, [], ◌∷◌, ◌++◌}
use mathlib.Core.Path.{◌≡◌, refl, ap, ◌∙◌}
use mathlib.Core.Logic.{inl, inr}
use mathlib.Core.Bool.{Bool, ◌&&◌, ◌||◌, true, false}
use text.Mathlib.Text.{◌==◌}
use mathlib.Core.List.{List, [] as nil, ◌∷◌ as ◌::◌}
use wechat_clone.Base.Tests.{leb, eqb, if◌then◌else◌, Bool-cases}

-- `unicode.IsSpace`
unfoldable pub is_space : ℕ → Bool
is_space c =
    (leb 9 c && leb c 13)
    || eqb c 32
    || eqb c 0x85
    || eqb c 0xa0
    || eqb c 0x1680
    || (leb 0x2000 c && leb c 0x200a)
    || eqb c 0x2028
    || eqb c 0x2029
    || eqb c 0x202f
    || eqb c 0x205f
    || eqb c 0x3000

trim_left : String → String
trim_left [] = []
trim_left (c ∷ s) = let rest = trim_left s in if is_space (code c) then rest else c ∷ s

-- A space is dropped if nothing but spaces follows it.
keep : Char → String → String
keep c [] = if is_space (code c) then [] else c ∷ []
keep c (d ∷ r) = c ∷ d ∷ r

trim_right : String → String
trim_right [] = []
trim_right (c ∷ s) = keep c (trim_right s)

-- `strings.TrimSpace`
unfoldable pub trim_space : String → String
unfolding trim_left trim_right keep is_space
trim_space s = trim_right (trim_left s)

-- A text that begins with no space, or is empty.
abbrev StartsPlain : String → Type 0
StartsPlain [] = Unit
StartsPlain (c ∷ _) = is_space (code c) ≡ false

trim_left-StartsPlain : (s : String) → StartsPlain (trim_left s)
unfolding trim_left
trim_left-StartsPlain [] = tt
trim_left-StartsPlain (c ∷ s) = elim (Bool-cases (is_space (code c))) [
  | inl e ↦ rw e (trim_left-StartsPlain s)
  | inr e ↦ rw e e
]

trim_left_of_StartsPlain : (s : String) → StartsPlain s → trim_left s ≡ s
unfolding trim_left
trim_left_of_StartsPlain [] h = refl
trim_left_of_StartsPlain (c ∷ s) h = rw h

keep-StartsPlain : (c : Char) (r : String) → is_space (code c) ≡ false → StartsPlain (keep c r)
unfolding keep
keep-StartsPlain c [] h = rw h h
keep-StartsPlain c (d ∷ r) h = h

trim_right-StartsPlain : (s : String) → StartsPlain s → StartsPlain (trim_right s)
unfolding trim_right
trim_right-StartsPlain [] h = tt
trim_right-StartsPlain (c ∷ s) h = keep-StartsPlain c (trim_right s) h

trim_right-keep : (c : Char) (r : String) → trim_right r ≡ r → trim_right (keep c r) ≡ keep c r
unfolding trim_right keep
trim_right-keep c [] h = elim (Bool-cases (is_space (code c))) [ inl e ↦ rw e | inr e ↦ simp e ]
trim_right-keep c (d ∷ r) h = rw h

trim_right_idem : (s : String) → trim_right (trim_right s) ≡ trim_right s
unfolding trim_right
trim_right_idem [] = refl
trim_right_idem (c ∷ s) = trim_right-keep c (trim_right s) (trim_right_idem s)

-- Trimming twice is trimming once.
pub trim_space_idem : (s : String) → trim_space (trim_space s) ≡ trim_space s
unfolding trim_space
trim_space_idem s =
    ap trim_right (
      trim_left_of_StartsPlain (trim_right (trim_left s))
        (trim_right-StartsPlain (trim_left s) (trim_left-StartsPlain s)))
    ∙ trim_right_idem (trim_left s)

-- A character mapping given by a table; a character that is not listed stays.
map_char : List (Char × Char) → Char → Char
map_char nil c = c
map_char ((a, b) :: t) c = if eqb (code c) (code a) then b else map_char t c

map_text : List (Char × Char) → String → String
map_text t [] = []
map_text t (c ∷ s) = map_char t c ∷ map_text t s

abbrev upper_table : List (Char × Char)
upper_table =
    ("a", "A")
    :: ("b", "B")
    :: ("c", "C")
    :: ("d", "D")
    :: ("e", "E")
    :: ("f", "F")
    :: ("g", "G")
    :: ("h", "H")
    :: ("i", "I")
    :: ("j", "J")
    :: ("k", "K")
    :: ("l", "L")
    :: ("m", "M")
    :: ("n", "N")
    :: ("o", "O")
    :: ("p", "P")
    :: ("q", "Q")
    :: ("r", "R")
    :: ("s", "S")
    :: ("t", "T")
    :: ("u", "U")
    :: ("v", "V")
    :: ("w", "W")
    :: ("x", "X")
    :: ("y", "Y")
    :: ("z", "Z")
    :: nil

abbrev lower_table : List (Char × Char)
lower_table =
    ("A", "a")
    :: ("B", "b")
    :: ("C", "c")
    :: ("D", "d")
    :: ("E", "e")
    :: ("F", "f")
    :: ("G", "g")
    :: ("H", "h")
    :: ("I", "i")
    :: ("J", "j")
    :: ("K", "k")
    :: ("L", "l")
    :: ("M", "m")
    :: ("N", "n")
    :: ("O", "o")
    :: ("P", "p")
    :: ("Q", "q")
    :: ("R", "r")
    :: ("S", "s")
    :: ("T", "t")
    :: ("U", "u")
    :: ("V", "v")
    :: ("W", "w")
    :: ("X", "x")
    :: ("Y", "y")
    :: ("Z", "z")
    :: nil

-- `strings.ToUpper`
unfoldable pub to_upper : String → String
unfolding map_text map_char
to_upper s = map_text upper_table s

-- `strings.ToLower`
unfoldable pub to_lower : String → String
unfolding map_text map_char
to_lower s = map_text lower_table s

-- `a <= b` on texts: the order of code points, which is that of the bytes of UTF-8.
unfoldable pub le_text : String → String → Bool
le_text [] t = true
le_text (c ∷ s) [] = false
le_text (c ∷ s) (d ∷ t) =
    let rest = le_text s t in if eqb (code c) (code d) then rest else leb (code c) (code d)

-- `fmt.Sprintf` on texts: the pieces of the format and the arguments, one after the other.
unfoldable pub concat : List String → String
concat nil = []
concat (s :: rest) = s ++ concat rest

-- core/shared/utils: `FirstNonEmpty`
unfoldable pub first_non_empty : List String → String
first_non_empty nil = []
first_non_empty (value :: rest) =
    let later = first_non_empty rest in if trim_space value == "" then later else trim_space value
