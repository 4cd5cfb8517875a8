-- ===== src/MediaQuota/Order.antt =====
-- The candidates of an eviction in their order.
use whatsapp_mcp.Prelude.{
  ℕ, suc, ◌+◌, ◌≤◌, ◌≡◌, refl, arith, if_both, true, false, List, [], ◌∷◌, length,
}
use whatsapp_mcp.MediaQuota.{File, older, insert, sort}

unfoldable pub total : List File → ℕ
total [] = 0
total (f ∷ fs) = f.size + total fs

total-insert : (f : File) (fs : List File) → total (insert f fs) ≡ f.size + total fs
unfolding total insert
total-insert f [] = refl
total-insert f (g ∷ gs) = ground (arith, total-insert f gs)

pub total-sort : (fs : List File) → total (sort fs) ≡ total fs
unfolding total sort
total-sort [] = refl
total-sort (f ∷ fs) = omega (arith, total-insert f (sort fs), total-sort fs)

length-insert : (f : File) (fs : List File) → length (insert f fs) ≡ suc (length fs)
unfolding insert
length-insert f [] = refl
length-insert f (g ∷ gs) = ground (arith, length-insert f gs)

pub length-sort : (fs : List File) → length (sort fs) ≡ length fs
unfolding sort
length-sort [] = refl
length-sort (f ∷ fs) = omega (arith, length-insert f (sort fs), length-sort fs)

-- No file of the list is older than the time, and each is followed by none that is older.
abbrev pub FromTime : ℕ → List File → Type 0
FromTime t [] = Unit
FromTime t (f ∷ fs) = (t ≤ f.at) × FromTime f.at fs

FromTime-less : (s t : ℕ) (fs : List File) → s ≤ t → FromTime t fs → FromTime s fs
FromTime-less s t [] l h = tt
FromTime-less s t (f ∷ fs) l h = (omega (arith, l, h.0), h.1)

older_at : (f g : File) → older f g ≡ true → f.at ≤ g.at
unfolding older
older_at f g h = ground arith

newer_at : (f g : File) → older f g ≡ false → g.at ≤ f.at
unfolding older
newer_at f g h = ground arith

FromTime-insert :
    (t : ℕ) (f : File) (fs : List File) → t ≤ f.at → FromTime t fs → FromTime t (insert f fs)
unfolding insert
FromTime-insert t f [] l h = (l, tt)
FromTime-insert t f (g ∷ gs) l h =
    if_both (FromTime t) (older g f) _ _
      (λ o. (h.0, FromTime-insert g.at f gs (older_at g f o) (h.1)))
      (λ n. (l, (newer_at g f n, h.1)))

pub FromTime-sort : (fs : List File) → FromTime 0 (sort fs)
unfolding sort
FromTime-sort [] = tt
FromTime-sort (f ∷ fs) = FromTime-insert 0 f (sort fs) (omega arith) (FromTime-sort fs)
