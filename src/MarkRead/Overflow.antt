-- ===== src/MarkRead/Overflow.antt =====
-- The read marker and the rows over the cap of a page.
use whatsapp_mcp.Prelude.{
  ℕ, zero, suc, ◌-◌, ◌≤◌, ◌<◌, ◌≡◌, refl, String, Bool, true, ◌&&◌, Option, none, some, List, [],
  ◌∷◌, length, ◌==◌, if_both, arith, ◌⊎◌, inl, inr,
}
use whatsapp_mcp.MarkRead.{Unread, timestamp_at, leading, trim, bound_of, cut_back, covered_prefix}
use whatsapp_mcp.MarkRead.Prefix.{Ends, leading-Ends, trim-before, trim-after}

-- What follows the last of the rows is not earlier.
abbrev pub Precede : List Unread → ℕ → Type 0
Precede [] t = Unit
Precede (m ∷ ms) t = (m.timestamp ≤ t) × Precede ms t

abbrev pub one_second : ℕ → List Unread → Bool
one_second t [] = true
one_second t (m ∷ ms) = m.timestamp == t && one_second t ms

one_second_lem :
    (t : ℕ) (ms : List Unread)
    → Precede ms t
    → ((k : ℕ) → k < length ms → t ≤ timestamp_at ms k)
    → one_second t ms ≡ true
one_second_lem t [] p h = refl
one_second_lem t (m ∷ ms) p h =
    ground (
      arith,
      p.0,
      h 0 (omega arith),
      one_second_lem t ms (p.1) (λ k l. h (suc k) (omega (arith, l))),
    )

timestamp_at-Precede :
    (ms : List Unread) (t k : ℕ) → Precede ms t → k < length ms → timestamp_at ms k ≤ t
timestamp_at-Precede [] t k p l = omega arith
timestamp_at-Precede (m ∷ ms) t zero p l = p.0
timestamp_at-Precede (m ∷ ms) t (suc k) p l = timestamp_at-Precede ms t k (p.1) (omega arith)

-- The marker stays, is before the second, or covers a page that is all of that second.
abbrev pub Spares : List Unread → ℕ → ℕ → Type 0
Spares ms t n =
    (n ≡ 0) ⊎ ((timestamp_at ms (n - 1) < t) ⊎ ((n ≡ length ms) × (one_second t ms ≡ true)))

cut_back-Spares :
    (ms : List Unread) (covered b t : ℕ)
    → Precede ms t
    → b ≤ t
    → (b ≡ t) ⊎ (covered < length ms)
    → Spares ms t (cut_back ms covered (some b))
unfolding cut_back
cut_back-Spares ms covered b t p o at =
    if_both (Spares ms t) (trim ms b covered == 0 && covered == length ms) _ _
      (λ h. elim at [
        | inl same ↦ inr (
            inr (
              ground (arith, h),
              one_second_lem t ms p (λ k l. omega (
                arith,
                same,
                trim-after ms b covered k (ground (arith, h)) (ground (arith, h, l)),
              )),
            ))
        | inr short ↦ inl (ground (arith, h, short))
      ])
      (λ _. elim (trim-before ms b covered) [
        | inl zero_rows ↦ inl zero_rows
        | inr earlier ↦ inr (inl (omega (arith, earlier, o)))
      ])

covered-overflow :
    (ms : List Unread) (run : ℕ × Option ℕ) (t : ℕ)
    → Precede ms t
    → Ends ms run
    → Spares ms t (cut_back ms (run.0) (bound_of (run.1) (some t)))
covered-overflow ms (n, none) t p e = cut_back-Spares ms n t t p (omega arith) (inl refl)
covered-overflow ms (n, some b) t p (inl whole) = cc
covered-overflow ms (n, some b) t p (inr part) =
    let same : b ≡ timestamp_at ms n = cc in
    cut_back-Spares ms n b t p (omega (arith, same, timestamp_at-Precede ms t n p (part.1)))
      (inr (part.1))

-- Where rows are left over the cap, the first of them at a time that no row of the page passes, the
-- marker stays where it was, or is earlier than that row, or covers the whole page and the whole page
-- is of the second of that row.
pub covered_prefix-spares_overflow :
    (pending : List Unread) (acked : List String) (t : ℕ)
    → Precede pending t
    → ((covered_prefix pending acked (some t) ≡ 0)
        ⊎ ((timestamp_at pending (covered_prefix pending acked (some t) - 1) < t)
            ⊎ ((covered_prefix pending acked (some t) ≡ length pending)
                × (one_second t pending ≡ true))))
unfolding covered_prefix
covered_prefix-spares_overflow pending acked t p =
    covered-overflow pending (leading acked pending) t p (leading-Ends acked pending)
