-- ===== src/ChatPolicy/Mobile.antt =====
-- `brMobileAlternate` of whatsapp-bridge/chat_policy.go and `isPhoneDigits` of send.go: the other
-- spelling of a Brazilian mobile number, with or without the ninth digit.
use whatsapp_mcp.Prelude.{
  ℕ, Bool, true, false, not, ◌&&◌, ◌||◌, ◌≡◌, sym, ap, ◌∙◌, ◌⊎◌, Option, none, some, [], ◌∷◌,
  length, arith, inl, inr, Bool-cases, Option-cases, leb, ◌==◌, if◌then◌else◌,
}
use whatsapp_mcp.Prelude.Text.{Text, is_empty}

unfoldable pub all_digits : Text → Bool
all_digits [] = true
all_digits (c ∷ s) = (leb 48 c && leb c 57) && all_digits s

unfoldable pub is_phone_digits : Text → Bool
is_phone_digits s = all_digits s && not (is_empty s)

abbrev pub starts_mobile : Text → Bool
starts_mobile [] = false
starts_mobile (c ∷ s) = leb b'6' c && leb c b'9'

-- The part after the country and area codes: eight digits gain a `9`, nine lose it.
unfoldable pub add_nine : Text → Option Text
add_nine s = if starts_mobile s then some (b'9' ∷ s) else none

unfoldable pub drop_nine : Text → Option Text
drop_nine [] = none
drop_nine (c ∷ s) = if not (c == b'9') then none else if starts_mobile s then some s else none

unfoldable pub other_subscriber : Text → Option Text
other_subscriber s =
    if length s == 9 then drop_nine s else if length s == 8 then add_nine s else none

unfoldable pub with_codes : ℕ → ℕ → Option Text → Text
with_codes x y none = []
with_codes x y (some s) = b'5' ∷ b'5' ∷ x ∷ y ∷ s

unfoldable pub has_no_twin : ℕ → ℕ → ℕ → ℕ → Text → Bool
has_no_twin a b x y s =
    not (is_phone_digits (a ∷ b ∷ x ∷ y ∷ s))
    || (not (a == b'5' && b == b'5') || (x == b'0' || y == b'0'))

-- `[]` where the number has no other spelling.
unfoldable pub br_mobile_alternate : Text → Text
br_mobile_alternate (a ∷ b ∷ x ∷ y ∷ s) =
    if has_no_twin a b x y s then [] else with_codes x y (other_subscriber s)
br_mobile_alternate _ = []

drop_nine-some : (s t : Text) → drop_nine s ≡ some t → (s ≡ b'9' ∷ t) × (starts_mobile t ≡ true)
unfolding drop_nine
drop_nine-some [] t h = cc
drop_nine-some (c ∷ s) t h = (ground arith, ground arith)

add_nine-some : (s t : Text) → add_nine s ≡ some t → (t ≡ b'9' ∷ s) × (starts_mobile s ≡ true)
unfolding add_nine
add_nine-some s t h = (ground arith, ground arith)

drop_nine_lem : (t : Text) → starts_mobile t ≡ true → drop_nine (b'9' ∷ t) ≡ some t
unfolding drop_nine
drop_nine_lem t h = ground arith

add_nine_lem : (s : Text) → starts_mobile s ≡ true → add_nine s ≡ some (b'9' ∷ s)
unfolding add_nine
add_nine_lem s h = ground arith

other_by_length :
    (s : Text)
    → (((length s == 9) ≡ true) × (other_subscriber s ≡ drop_nine s))
      ⊎ ((((length s == 8) ≡ true) × (other_subscriber s ≡ add_nine s))
          ⊎ (other_subscriber s ≡ none))
unfolding other_subscriber
other_by_length s = elim (Bool-cases (length s == 9)) [
  | inl a ↦ inl (a, ground arith)
  | inr a ↦ elim (Bool-cases (length s == 8)) [
    | inl b ↦ inr (inl (b, ground arith))
    | inr b ↦ inr (inr (ground arith))
  ]
]

-- Where one spelling has another, they differ by a `9` before eight digits of a mobile number.
abbrev IsPair : Text → Text → Type 0
IsPair short long =
    (long ≡ b'9' ∷ short) × (starts_mobile short ≡ true) × ((length short == 8) ≡ true)

IsPair-other_subscriber : (s t : Text) → other_subscriber s ≡ some t → IsPair s t ⊎ IsPair t s
IsPair-other_subscriber s t h = elim (other_by_length s) [
  | inl (n, e) ↦ let (p, m) = drop_nine-some s t (sym e ∙ h) in inr (p, m, ground arith)
  | inr (inl (n, e)) ↦ let (p, m) = add_nine-some s t (sym e ∙ h) in inl (p, m, n)
  | inr (inr e) ↦ cc
]

other-short :
    (s : Text)
    → starts_mobile s ≡ true
    → (length s == 8) ≡ true
    → (other_subscriber s ≡ some (b'9' ∷ s)) × (other_subscriber (b'9' ∷ s) ≡ some s)
unfolding other_subscriber
other-short s m n = (ground (arith, add_nine_lem s m), ground (arith, drop_nine_lem s m))

other-other_subscriber :
    (s t : Text)
    → other_subscriber s ≡ some t
    → (other_subscriber t ≡ some s) × (all_digits t ≡ all_digits s)
unfolding all_digits
other-other_subscriber s t h = elim (IsPair-other_subscriber s t h) [
  | inl (e, m, n) ↦ (ap other_subscriber e ∙ (other-short s m n).1, ground arith)
  | inr (e, m, n) ↦ ((other-short t m n).0 ∙ ap some (sym e), ground arith)
]

codes_of :
    (a b x y : ℕ) (s t : Text)
    → has_no_twin a b x y s ≡ false
    → all_digits t ≡ all_digits s
    → (a ≡ b'5') × (b ≡ b'5') × (has_no_twin b'5' b'5' x y t ≡ false)
unfolding has_no_twin is_phone_digits all_digits
codes_of a b x y s t h d = (ground arith, ground arith, ground arith)

with_codes_lem :
    (a b x y : ℕ) (s t : Text)
    → has_no_twin a b x y s ≡ false
    → other_subscriber s ≡ some t
    → (br_mobile_alternate (a ∷ b ∷ x ∷ y ∷ s) ≡ b'5' ∷ b'5' ∷ x ∷ y ∷ t)
      × (br_mobile_alternate (b'5' ∷ b'5' ∷ x ∷ y ∷ t) ≡ a ∷ b ∷ x ∷ y ∷ s)
unfolding br_mobile_alternate with_codes
with_codes_lem a b x y s t h e =
    let (back, d) = other-other_subscriber s t e in
    let (p, q, g) = codes_of a b x y s t h d in (ground arith, ground arith)

-- A number that has another spelling is the other spelling of that one.
br_mobile_alternate-br_mobile_alternate :
    (n : Text)
    → is_empty (br_mobile_alternate n) ≡ false
    → br_mobile_alternate (br_mobile_alternate n) ≡ n
unfolding br_mobile_alternate with_codes
br_mobile_alternate-br_mobile_alternate (a ∷ b ∷ x ∷ y ∷ s) h =
    elim (Bool-cases (has_no_twin a b x y s)) [
      | inl g ↦ ground arith
      | inr g ↦ elim (Option-cases (other_subscriber s)) [
        | inl e ↦ ground arith
        | inr (t, e) ↦ let (p, q) = with_codes_lem a b x y s t g e in ap br_mobile_alternate p ∙ q
      ]
    ]
br_mobile_alternate-br_mobile_alternate [] h = ground arith
br_mobile_alternate-br_mobile_alternate (a ∷ []) h = ground arith
br_mobile_alternate-br_mobile_alternate (a ∷ b ∷ []) h = ground arith
br_mobile_alternate-br_mobile_alternate (a ∷ b ∷ x ∷ []) h = ground arith
