-- ===== src/Prelude/Trim.antt =====
-- What trimming, lowering and counting do to a text.
use whatsapp_mcp.Prelude.{
  ℕ, Bool, true, not, ◌&&◌, ◌≡◌, refl, ap, ◌∙◌, [], ◌∷◌, ◌++◌, arith, if◌then◌else◌,
}
use whatsapp_mcp.Prelude.Text.{
  Text, is_space, trim_left, trim_right, trim_space, lower, to_lower, is_empty,
}

unfoldable pub starts_well : Text → Bool
starts_well [] = true
starts_well (c ∷ s) = not (is_space c)

unfoldable pub ends_well : Text → Bool
ends_well [] = true
ends_well (c ∷ []) = not (is_space c)
ends_well (c ∷ d ∷ s) = ends_well (d ∷ s)

starts_well-trim_left : (s : Text) → starts_well (trim_left s) ≡ true
unfolding starts_well trim_left
starts_well-trim_left [] = refl
starts_well-trim_left (c ∷ s) = ground (arith, starts_well-trim_left s)

starts_well-trim_right : (s : Text) → starts_well s ≡ true → starts_well (trim_right s) ≡ true
unfolding starts_well trim_right
starts_well-trim_right [] h = refl
starts_well-trim_right (c ∷ s) h = ground arith

ends_well-cons :
    (c : ℕ) (rest : Text)
    → ends_well rest ≡ true
    → ends_well (if is_empty rest && is_space c then [] else c ∷ rest) ≡ true
unfolding ends_well
ends_well-cons c [] h = ground arith
ends_well-cons c (d ∷ s) h = h

ends_well-trim_right : (s : Text) → ends_well (trim_right s) ≡ true
unfolding trim_right ends_well
ends_well-trim_right [] = refl
ends_well-trim_right (c ∷ s) = ends_well-cons c (trim_right s) (ends_well-trim_right s)

pub starts_well-trim_space : (s : Text) → starts_well (trim_space s) ≡ true
unfolding trim_space
starts_well-trim_space s = starts_well-trim_right (trim_left s) (starts_well-trim_left s)

pub ends_well-trim_space : (s : Text) → ends_well (trim_space s) ≡ true
unfolding trim_space
ends_well-trim_space s = ends_well-trim_right (trim_left s)

trim_left_lem : (s : Text) → starts_well s ≡ true → trim_left s ≡ s
unfolding starts_well trim_left
trim_left_lem [] h = refl
trim_left_lem (c ∷ s) h = ground arith

trim_right_lem : (s : Text) → ends_well s ≡ true → trim_right s ≡ s
unfolding ends_well trim_right
trim_right_lem [] h = refl
trim_right_lem (c ∷ []) h = ground arith
trim_right_lem (c ∷ d ∷ s) h = ground (arith, trim_right_lem (d ∷ s) h)

-- A text with no white space at its ends is left as it is.
pub trim_space_lem : (s : Text) → starts_well s ≡ true → ends_well s ≡ true → trim_space s ≡ s
unfolding trim_space
trim_space_lem s a b = ap trim_right (trim_left_lem s a) ∙ trim_right_lem s b

is_space-lower : (c : ℕ) → is_space (lower c) ≡ is_space c
unfolding is_space lower
is_space-lower c = ground arith

lower-lower : (c : ℕ) → lower (lower c) ≡ lower c
unfolding lower
lower-lower c = ground arith

pub to_lower-to_lower : (s : Text) → to_lower (to_lower s) ≡ to_lower s
unfolding to_lower
to_lower-to_lower [] = refl
to_lower-to_lower (c ∷ s) = rw (lower-lower c, to_lower-to_lower s)

ends_well-lower : (d : ℕ) (s : Text) → ends_well (lower d ∷ s) ≡ ends_well (d ∷ s)
unfolding ends_well
ends_well-lower d [] = ap not (is_space-lower d)
ends_well-lower d (e ∷ s) = refl

pub ends_well-to_lower : (c : ℕ) (s : Text) → ends_well (c ∷ to_lower s) ≡ ends_well (c ∷ s)
unfolding ends_well to_lower
ends_well-to_lower c [] = refl
ends_well-to_lower c (d ∷ s) = ends_well-to_lower (lower d) s ∙ ends_well-lower d s

pub ends_well-append : (u : Text) (c : ℕ) (s : Text) → ends_well (u ++ c ∷ s) ≡ ends_well (c ∷ s)
unfolding ends_well
ends_well-append [] c s = refl
ends_well-append (a ∷ []) c s = refl
ends_well-append (a ∷ b ∷ u) c s = ends_well-append (b ∷ u) c s
