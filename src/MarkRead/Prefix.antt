-- ===== src/MarkRead/Prefix.antt =====
-- How far the read marker may go.
use whatsapp_mcp.Prelude.{
  ℕ, zero, suc, ◌-◌, ◌≤◌, ◌<◌, ◌≡◌, refl, sym, ap, subst, String, Bool, true, not, ◌&&◌, Option,
  none, some, List, [], ◌∷◌, length, contains, ltb, ◌==◌, if_both, arith, ◌⊎◌, inl, inr, Bool-cases,
}
use whatsapp_mcp.MarkRead.{Unread, timestamp_at, leading, trim, bound_of, cut_back, covered_prefix}

abbrev pub id_at : List Unread → ℕ → String
id_at [] n = ""
id_at (m ∷ ms) zero = m.id
id_at (m ∷ ms) (suc n) = id_at ms n

abbrev pub all_acked : List String → List Unread → Bool
all_acked acked [] = true
all_acked acked (m ∷ ms) = contains acked m.id && all_acked acked ms

-- The rows are in the order of their times, from `t` on.
abbrev pub Ordered : ℕ → List Unread → Type 0
Ordered t [] = Unit
Ordered t (m ∷ ms) = (t ≤ m.timestamp) × Ordered m.timestamp ms

timestamp_at-Ordered :
    (t : ℕ) (ms : List Unread) (k : ℕ) → Ordered t ms → k < length ms → t ≤ timestamp_at ms k
timestamp_at-Ordered t [] k h l = omega arith
timestamp_at-Ordered t (m ∷ ms) zero h l = h.0
timestamp_at-Ordered t (m ∷ ms) (suc k) h l =
    omega (arith, h.0, timestamp_at-Ordered m.timestamp ms k (h.1) (omega arith))

Ordered-later :
    (t : ℕ) (ms : List Unread) (j k : ℕ)
    → Ordered t ms
    → j ≤ k
    → k < length ms
    → timestamp_at ms j ≤ timestamp_at ms k
Ordered-later t [] j k h o l = omega arith
Ordered-later t (m ∷ ms) zero zero h o l = omega arith
Ordered-later t (m ∷ ms) zero (suc k) h o l =
    timestamp_at-Ordered m.timestamp ms k (h.1) (omega arith)
Ordered-later t (m ∷ ms) (suc j) zero h o l = omega arith
Ordered-later t (m ∷ ms) (suc j) (suc k) h o l =
    Ordered-later m.timestamp ms j k (h.1) (omega arith) (omega arith)

-- A leading run ends at the end or at the first row that is not acknowledged.
abbrev pub Ends : List Unread → ℕ × Option ℕ → Type 0
Ends ms r =
    ((r.1 ≡ none) × (r.0 ≡ length ms)) ⊎ ((r.1 ≡ some (timestamp_at ms (r.0))) × (r.0 < length ms))

pub leading-Ends : (acked : List String) (ms : List Unread) → Ends ms (leading acked ms)
unfolding leading
leading-Ends acked [] = inl (refl, refl)
leading-Ends acked (m ∷ ms) =
    if_both (Ends (m ∷ ms)) (not (contains acked m.id)) _ _ (λ _. inr (refl, omega arith))
      (λ _. elim (leading-Ends acked ms) [
        | inl whole ↦ inl (whole.0, ap suc (whole.1))
        | inr part ↦ inr (part.0, omega (arith, part.1))
      ])

leading-acked :
    (acked : List String) (ms : List Unread) (k : ℕ)
    → k < (leading acked ms).0
    → contains acked (id_at ms k) ≡ true
unfolding leading
leading-acked acked [] k l = elim (Bool-cases (contains acked (id_at [] k))) [
  | inl h ↦ h
  | inr h ↦ ground arith
]
leading-acked acked (m ∷ ms) zero l = elim (Bool-cases (contains acked m.id)) [
  | inl h ↦ h
  | inr h ↦ ground arith
]
leading-acked acked (m ∷ ms) (suc k) l = leading-acked acked ms k (ground arith)

-- All rows acknowledged.
pub leading-all :
    (acked : List String) (ms : List Unread)
    → all_acked acked ms ≡ true
    → leading acked ms ≡ (length ms, none)
unfolding leading
leading-all acked [] h = refl
leading-all acked (m ∷ ms) h = ground (arith, leading-all acked ms)

trim-within : (ms : List Unread) (t n : ℕ) → trim ms t n ≤ n
unfolding trim
trim-within ms t zero = omega arith
trim-within ms t (suc n) = ground (arith, trim-within ms t n)

pub trim-before :
    (ms : List Unread) (t n : ℕ) → (trim ms t n ≡ 0) ⊎ (timestamp_at ms (trim ms t n - 1) < t)
unfolding trim
trim-before ms t zero = inl refl
trim-before ms t (suc n) =
    if_both (λ x. (x ≡ 0) ⊎ (timestamp_at ms (x - 1) < t)) (not (ltb (timestamp_at ms n) t)) _ _
      (λ _. trim-before ms t n) (λ h. inr (ground (arith, h)))

pub trim-after : (ms : List Unread) (t n k : ℕ) → trim ms t n ≤ k → k < n → t ≤ timestamp_at ms k
unfolding trim
trim-after ms t zero k o l = omega arith
trim-after ms t (suc n) k o l = elim (Bool-cases (ltb (timestamp_at ms n) t)) [
  | inl h ↦ ground arith
  | inr h ↦ elim (Bool-cases (k == n)) [
    | inl e ↦
        let same : k ≡ n = ground arith in
        subst (λ j. t ≤ timestamp_at ms j) (sym same) (ground arith)
    | inr e ↦ trim-after ms t n k (ground arith) (ground arith)
  ]
]

-- Of the rows before a boundary, those that the marker leaves out are not before it.
abbrev pub Placed : List Unread → ℕ → ℕ → Type 0
Placed ms n k = (k < n) ⊎ ((n ≡ 0) ⊎ (timestamp_at ms (n - 1) < timestamp_at ms k))

cut_back-Placed :
    (ms : List Unread) (covered : ℕ) (t k : ℕ)
    → k < length ms
    → (k < covered) ⊎ (t ≤ timestamp_at ms k)
    → Placed ms (cut_back ms covered (some t)) k
unfolding cut_back
cut_back-Placed ms covered t k l late =
    if_both (λ n. Placed ms n k) (trim ms t covered == 0 && covered == length ms) _ _
      (λ h. inl (ground (arith, h)))
      (λ _. elim (Bool-cases (ltb k (trim ms t covered))) [
        | inl h ↦ inl (ground arith)
        | inr h ↦
            let after : t ≤ timestamp_at ms k = elim late [
              | inl before ↦ trim-after ms t covered k (ground arith) before
              | inr given ↦ given
            ] in
            elim (trim-before ms t covered) [
              | inl zero_rows ↦ inr (inl zero_rows)
              | inr earlier ↦ inr (inr (omega (arith, earlier, after)))
            ]
      ])

cut_back-within : (ms : List Unread) (covered : ℕ) (b : Option ℕ) → cut_back ms covered b ≤ covered
unfolding cut_back
cut_back-within ms covered none = omega arith
cut_back-within ms covered (some t) = ground (arith, trim-within ms t covered)

covered-row :
    (ms : List Unread) (acked : List String) (run : ℕ × Option ℕ) (overflow : Option ℕ) (k : ℕ)
    → Ordered 0 ms
    → k < length ms
    → Ends ms run
    → Placed ms (cut_back ms (run.0) (bound_of (run.1) overflow)) k
unfolding cut_back
covered-row ms acked (n, some t) overflow k o l e =
    cut_back-Placed ms n t k l (elim (Bool-cases (ltb k n)) [
      | inl h ↦ inl (ground arith)
      | inr h ↦ elim e [
        | inl whole ↦ cc
        | inr part ↦
            let same : t ≡ timestamp_at ms n = cc in
            inr (omega (arith, same, Ordered-later 0 ms n k o (ground arith) l))
      ]
    ])
covered-row ms acked (n, none) overflow k o l (inr part) = cc
covered-row ms acked (n, none) none k o l (inl whole) = inl (omega (arith, l, whole.1))
covered-row ms acked (n, none) (some t) k o l (inl whole) =
    cut_back-Placed ms n t k l (inl (omega (arith, whole.1)))

-- For rows in the order of their times, each row of the page is acknowledged and among the rows that
-- the marker covers, or later than the last row it covers, or the marker stays where it was.
pub covered_prefix-skips_none :
    (pending : List Unread) (acked : List String) (overflow : Option ℕ) (k : ℕ)
    → Ordered 0 pending
    → k < length pending
    → (((k < covered_prefix pending acked overflow) × (contains acked (id_at pending k) ≡ true))
        ⊎ ((covered_prefix pending acked overflow ≡ 0)
            ⊎ (timestamp_at pending (covered_prefix pending acked overflow - 1)
                < timestamp_at pending k)))
unfolding covered_prefix
covered_prefix-skips_none pending acked overflow k o l =
    let run = leading acked pending in
    elim (covered-row pending acked run overflow k o l (leading-Ends acked pending)) [
      | inl h ↦ inl (
        h,
        leading-acked acked pending k
            (omega (arith, h, cut_back-within pending (run.0) (bound_of (run.1) overflow))),
      )
      | inr h ↦ inr h
    ]
