-- ===== src/Base/Text/Append.antt =====
-- Trimming a text that begins with a fixed prefix, as the identifiers of the program do.
use Prim.Native.Char.{Char, code}
use Prim.Native.String.{String, [], ◌∷◌, ◌++◌}
use mathlib.Core.Path.{◌≡◌, refl, sym, ap, ◌∙◌}
use mathlib.Core.Logic.{inl, inr}
use mathlib.Core.Bool.{false}
use mathlib.Core.List.{[] as nil, ◌∷◌ as ◌::◌}
use text.Mathlib.Text.{◌==◌}
use text.Mathlib.TextEquality.{eq_iff}
use text.Mathlib.TextLemmas.{cons-ne-nil, cons-append, nil-append, append-nil}
use wechat_clone.Base.Tests.{Bool-cases}
use wechat_clone.Base.Text.{
  is_space, trim_left, keep, trim_right, trim_right_idem, trim_space, concat,
}

cons_nonempty : (c : Char) (r : String) → (c ∷ r == "") ≡ false
cons_nonempty c r = elim (Bool-cases (c ∷ r == "")) [
  | inl e ↦ absurd (cons-ne-nil c r ((eq_iff (c ∷ r) "").0 e))
  | inr e ↦ e
]

keep_nonempty : (c : Char) (r : String) → is_space (code c) ≡ false → (keep c r == "") ≡ false
unfolding keep
keep_nonempty c [] h = rw h (cons_nonempty c "")
keep_nonempty c (d ∷ r) h = cons_nonempty c (d ∷ r)

-- A text that begins with no space is not empty when it is trimmed.
pub trim_space_nonempty :
    (c : Char) (s : String) → is_space (code c) ≡ false → (trim_space (c ∷ s) == "") ≡ false
unfolding trim_space trim_left trim_right
trim_space_nonempty c s h = rw h (keep_nonempty c (trim_right s) h)

pub trim_space-append_nonempty :
    (c : Char) (s rest : String)
    → is_space (code c) ≡ false
    → (trim_space ((c ∷ s) ++ rest) == "") ≡ false
trim_space-append_nonempty c s rest h =
    rw (cons-append c s rest) (trim_space_nonempty c (s ++ rest) h)

trim_right_of_fixed : (x : String) → trim_space x ≡ x → trim_right x ≡ x
unfolding trim_space
trim_right_of_fixed x h = ap trim_right (sym h) ∙ trim_right_idem (trim_left x) ∙ h

keep_of_nonempty : (c : Char) (r : String) → (r == "") ≡ false → keep c r ≡ c ∷ r
unfolding keep
keep_of_nonempty c [] h = absurd (cc h)
keep_of_nonempty c (d ∷ r) h = refl

pub append_nonempty : (s x : String) → (x == "") ≡ false → (s ++ x == "") ≡ false
append_nonempty [] x h = rw (nil-append x) h
append_nonempty (c ∷ s) x h = rw (cons-append c s x) (cons_nonempty c (s ++ x))

trim_right-append :
    (s x : String) → trim_right x ≡ x → (x == "") ≡ false → trim_right (s ++ x) ≡ s ++ x
unfolding trim_right
trim_right-append [] x t h = rw (nil-append x) t
trim_right-append (c ∷ s) x t h =
    rw (cons-append c s x, trim_right-append s x t h)
      (keep_of_nonempty c (s ++ x) (append_nonempty s x h))

-- A trimmed text after a prefix that begins with no space is trimmed.
pub trim_space-append :
    (c : Char) (s x : String)
    → is_space (code c) ≡ false
    → trim_space x ≡ x
    → (x == "") ≡ false
    → trim_space ((c ∷ s) ++ x) ≡ (c ∷ s) ++ x
unfolding trim_space trim_left
trim_space-append c s x n t h =
    let kept = trim_right-append s x (trim_right_of_fixed x (unfold trim_space in t)) h in
    rw (cons-append c s x, n, kept) (keep_of_nonempty c (s ++ x) (append_nonempty s x h))

-- The same for a text that is made of two pieces.
pub trim_space-concat :
    (c : Char) (s x : String)
    → is_space (code c) ≡ false
    → trim_space x ≡ x
    → (x == "") ≡ false
    → trim_space (concat ((c ∷ s) :: x :: nil)) ≡ concat ((c ∷ s) :: x :: nil)
unfolding concat
trim_space-concat c s x n t h = rw (append-nil x) (trim_space-append c s x n t h)
