-- ===== src/MediaQuota/Evict.antt =====
-- What an eviction takes away.
use whatsapp_mcp.Prelude.{
  ℕ, zero, suc, ◌+◌, ◌-◌, ◌≤◌, min, ◌≡◌, refl, sym, subst, arith, Bool, ◌||◌, ◌&&◌, if_both, true,
  false, List, [], ◌∷◌, not, Option, none, some, ◌⊎◌, inl, inr,
}
use whatsapp_mcp.MediaQuota.{File, Eviction, evict, sort, is_enough, freed_by, left_by, wrap}
use whatsapp_mcp.MediaQuota.Order.{total, FromTime, FromTime-sort, total-sort}

unfoldable pub skip : ℕ → List File → List File
skip zero fs = fs
skip (suc n) [] = []
skip (suc n) (f ∷ fs) = skip n fs

unfoldable pub first : ℕ → List File → List File
first zero fs = []
first (suc n) [] = []
first (suc n) (f ∷ fs) = f ∷ first n fs

-- The bytes in use stay at least those of the files that stay.
pub evict-used :
    (expired : ℕ → Bool) (removes : File → Option ℕ) (quota low incoming i : ℕ) (fs : List File)
    (used freed base : ℕ)
    → ((f : File) → (removes f ≡ none) ⊎ (removes f ≡ some f.size))
    → base + total fs ≤ used
    → base + total (evict expired removes quota low incoming i fs used freed).kept
      ≤ (evict expired removes quota low incoming i fs used freed).used
unfolding evict total
evict-used expired removes quota low incoming i [] used freed base honest h = h
evict-used expired removes quota low incoming i (f ∷ fs) used freed base honest h =
    if_both (λ (e : Eviction). base + total e.kept ≤ e.used)
      (expired i || is_enough quota low incoming used) _ _ (λ _. h)
      (λ _. elim (honest f) [
        | inl stays ↦
            subst
              (λ o.
                base
                  + total (
                      left_by o f
                        (evict expired removes quota low incoming (suc i) fs
                          (used - min used (freed_by o)) (wrap (freed + freed_by o))).kept)
                ≤ (evict expired removes quota low incoming (suc i) fs
                    (used - min used (freed_by o)) (wrap (freed + freed_by o))).used)
              (sym stays)
              (omega (
                arith,
                evict-used expired removes quota low incoming (suc i) fs (used - min used 0)
                    (wrap (freed + 0)) (base + f.size) honest (omega (arith, h)),
              ))
        | inr goes ↦
            subst
              (λ o.
                base
                  + total (
                      left_by o f
                        (evict expired removes quota low incoming (suc i) fs
                          (used - min used (freed_by o)) (wrap (freed + freed_by o))).kept)
                ≤ (evict expired removes quota low incoming (suc i) fs
                    (used - min used (freed_by o)) (wrap (freed + freed_by o))).used)
              (sym goes)
              (evict-used expired removes quota low incoming (suc i) fs (used - min used f.size)
                (wrap (freed + f.size)) base honest (omega (arith, h)))
      ])

-- Whether no shorter run of removals is enough.
unfoldable pub none_sooner : (quota low incoming : ℕ) → ℕ → List File → ℕ → Bool
none_sooner quota low incoming zero fs used = true
none_sooner quota low incoming (suc n) [] used = false
none_sooner quota low incoming (suc n) (f ∷ fs) used =
    not (is_enough quota low incoming used) && none_sooner quota low incoming n fs (used - f.size)

-- The first files of the list go, as few as are enough, or all of them.
abbrev pub Shortest : (quota low incoming : ℕ) → List File → ℕ → Eviction → Type 0
Shortest quota low incoming fs used e =
    (n : ℕ) × ((e.kept ≡ skip n fs)
      × ((e.used ≡ used - total (first n fs))
          × ((none_sooner quota low incoming n fs used ≡ true)
              × ((e.kept ≡ []) ⊎ (is_enough quota low incoming e.used ≡ true)))))

module _ (quota low incoming : ℕ) (expired : ℕ → Bool) (removes : File → Option ℕ)
    (on_time : (i : ℕ) → expired i ≡ false) (removed : (f : File) → removes f ≡ some f.size) where
  pub Shortest-evict :
      (i : ℕ) (fs : List File) (used freed : ℕ)
      → Shortest quota low incoming fs used
          (evict expired removes quota low incoming i fs used freed)
  unfolding evict skip first none_sooner total
  Shortest-evict i [] used freed = (0, (refl, (omega arith, (refl, inl refl))))
  Shortest-evict i (f ∷ fs) used freed =
      if_both (Shortest quota low incoming (f ∷ fs) used)
        (expired i || is_enough quota low incoming used) _ _
        (λ h. (0, (refl, (omega arith, (refl, inr (ground (arith, h, on_time i)))))))
        (λ h.
          subst
            (λ o. Shortest quota low incoming (f ∷ fs) used (
              let rest =
                evict expired removes quota low incoming (suc i) fs (used - min used (freed_by o))
                  (wrap (freed + freed_by o)) in
              record rest { kept = left_by o f rest.kept }))
            (sym (removed f))
            (let r = Shortest-evict (suc i) fs (used - min used f.size) (wrap (freed + f.size)) in
              let same : used - min used f.size ≡ used - f.size = omega arith in
              let sooner : none_sooner quota low incoming (r.0) fs (used - f.size) ≡ true =
                subst (λ u. none_sooner quota low incoming (r.0) fs u ≡ true) same
                  ((((r.1).1).1).0) in
              (
                suc (r.0),
                (
                  (r.1).0,
                  (omega (arith, ((r.1).1).0), (ground (arith, h, sooner), (((r.1).1).1).1)),
                ),
              )))

-- Where the context lasts and each file that is found goes with the size counted for it: the files
-- that the eviction takes are the first of the candidates in the order of their times, it stops as soon
-- as they are enough for the low-water mark and for what comes in, and if they are not, none stays.
pub evict-Shortest :
    (expired : ℕ → Bool) (removes : File → Option ℕ) (quota low incoming : ℕ)
    (candidates : List File) (used : ℕ)
    → ((i : ℕ) → expired i ≡ false)
    → ((f : File) → removes f ≡ some f.size)
    → Shortest quota low incoming
        (sort candidates)
        used
        (evict expired removes quota low incoming 0 (sort candidates) used 0)
      × (FromTime 0 (sort candidates) × (total (sort candidates) ≡ total candidates))
evict-Shortest expired removes quota low incoming candidates used on_time removed = (
  Shortest-evict quota low incoming expired removes on_time removed 0 (sort candidates) used 0,
  (FromTime-sort candidates, total-sort candidates),
)
