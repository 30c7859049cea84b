-- ===== src/Base/Text/Case.antt =====
-- Changing the case of a text, and trimming it.
use Prim.Native.Char.{Char, code}
use Prim.Native.String.{String, [], ◌∷◌}
use mathlib.Core.Path.{◌≡◌, refl, ap, ◌∙◌}
use mathlib.Core.Logic.{◌⊎◌, inl, inr}
use mathlib.Core.Bool.{Bool}
use text.Mathlib.Text.{◌==◌}
use mathlib.Core.List.{List, [] as nil, ◌∷◌ as ◌::◌}
use native.Mathlib.Omega.{arith}
use wechat_clone.Base.Tests.{eqb, Bool-cases}
use wechat_clone.Base.Text.{
  is_space, trim_left, keep, trim_right, trim_space, map_char, map_text, upper_table, lower_table,
  to_upper, to_lower, trim_space_idem,
}

abbrev KeepsSpaces : List (Char × Char) → Type 0
KeepsSpaces nil = Unit
KeepsSpaces ((a, b) :: t) = (is_space (code b) ≡ is_space (code a)) × KeepsSpaces t

abbrev Settles : List (Char × Char) → List (Char × Char) → Type 0
Settles whole nil = Unit
Settles whole ((_, b) :: t) = (map_char whole b ≡ b) × Settles whole t

is_space-map_char :
    (t : List (Char × Char)) (c : Char)
    → KeepsSpaces t
    → is_space (code (map_char t c)) ≡ is_space (code c)
unfolding map_char
is_space-map_char nil c h = refl
is_space-map_char ((a, b) :: t) c h = ground (arith, is_space-map_char t c h.1)

map_char_stable :
    (whole t : List (Char × Char)) (c : Char)
    → Settles whole t
    → (map_char t c ≡ c) ⊎ (map_char whole (map_char t c) ≡ map_char t c)
unfolding map_char
map_char_stable whole nil c h = inl refl
map_char_stable whole ((a, b) :: t) c h = elim (Bool-cases (eqb (code c) (code a))) [
  | inl e ↦ rw e (inr h.0)
  | inr e ↦ rw e (map_char_stable whole t c h.1)
]

map_char_idem :
    (t : List (Char × Char)) (c : Char) → Settles t t → map_char t (map_char t c) ≡ map_char t c
map_char_idem t c h = elim (map_char_stable t t c h) [ inl e ↦ ap (map_char t) e | inr e ↦ e ]

module _ (t : List (Char × Char)) where
  map_text_idem : Settles t t → (s : String) → map_text t (map_text t s) ≡ map_text t s
  unfolding map_text
  map_text_idem h [] = refl
  map_text_idem h (c ∷ s) = cc (map_char_idem t c h, map_text_idem h s)

  module _ (h : KeepsSpaces t) where
    trim_left-map_text : (s : String) → trim_left (map_text t s) ≡ map_text t (trim_left s)
    unfolding trim_left map_text
    trim_left-map_text [] = refl
    trim_left-map_text (c ∷ s) = elim (Bool-cases (is_space (code c))) [
      | inl e ↦ simp (is_space-map_char t c h, e) (trim_left-map_text s)
      | inr e ↦ simp (is_space-map_char t c h, e)
    ]

    keep-map_text :
        (c : Char) (r : String) → keep (map_char t c) (map_text t r) ≡ map_text t (keep c r)
    unfolding keep map_text
    keep-map_text c [] = elim (Bool-cases (is_space (code c))) [
      | inl e ↦ simp (is_space-map_char t c h, e)
      | inr e ↦ simp (is_space-map_char t c h, e)
    ]
    keep-map_text c (d ∷ r) = refl

    trim_right-map_text : (s : String) → trim_right (map_text t s) ≡ map_text t (trim_right s)
    unfolding trim_right map_text
    trim_right-map_text [] = refl
    trim_right-map_text (c ∷ s) = rw (trim_right-map_text s) (keep-map_text c (trim_right s))

    trim_space-map_text : (s : String) → trim_space (map_text t s) ≡ map_text t (trim_space s)
    unfolding trim_space
    trim_space-map_text s = ap trim_right (trim_left-map_text s) ∙ trim_right-map_text (trim_left s)

upper_table-KeepsSpaces : KeepsSpaces upper_table
unfolding is_space
upper_table-KeepsSpaces = ground arith

lower_table-KeepsSpaces : KeepsSpaces lower_table
unfolding is_space
lower_table-KeepsSpaces = ground arith

pub to_upper_idem : (s : String) → to_upper (to_upper s) ≡ to_upper s
unfolding to_upper
to_upper_idem s = map_text_idem upper_table (ground arith) s

pub to_lower_idem : (s : String) → to_lower (to_lower s) ≡ to_lower s
unfolding to_lower
to_lower_idem s = map_text_idem lower_table (ground arith) s

-- Go's `strings.ToUpper(strings.TrimSpace(s))`, and the same with `ToLower`.
unfoldable pub upper_trimmed : String → String
upper_trimmed s = to_upper (trim_space s)

unfoldable pub lower_trimmed : String → String
lower_trimmed s = to_lower (trim_space s)

pub trim_space-upper_trimmed : (s : String) → trim_space (upper_trimmed s) ≡ upper_trimmed s
unfolding upper_trimmed to_upper
trim_space-upper_trimmed s =
    trim_space-map_text upper_table upper_table-KeepsSpaces (trim_space s)
    ∙ ap (map_text upper_table) (trim_space_idem s)

pub trim_space-lower_trimmed : (s : String) → trim_space (lower_trimmed s) ≡ lower_trimmed s
unfolding lower_trimmed to_lower
trim_space-lower_trimmed s =
    trim_space-map_text lower_table lower_table-KeepsSpaces (trim_space s)
    ∙ ap (map_text lower_table) (trim_space_idem s)

pub upper_trimmed_idem : (s : String) → upper_trimmed (upper_trimmed s) ≡ upper_trimmed s
upper_trimmed_idem s =
    unfold upper_trimmed in
    ap to_upper (unfold upper_trimmed in trim_space-upper_trimmed s) ∙ to_upper_idem (trim_space s)

pub lower_trimmed_idem : (s : String) → lower_trimmed (lower_trimmed s) ≡ lower_trimmed s
lower_trimmed_idem s =
    unfold lower_trimmed in
    ap to_lower (unfold lower_trimmed in trim_space-lower_trimmed s) ∙ to_lower_idem (trim_space s)

-- `strings.EqualFold`, on the letters a-z and A-Z.
unfoldable pub equal_fold : String → String → Bool
equal_fold s t = to_lower s == to_lower t
