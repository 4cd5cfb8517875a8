-- ===== src/MediaQuota/Grant.antt =====
-- What a grant leaves within the quota.
use whatsapp_mcp.Prelude.{
  ℕ, ◌+◌, ◌-◌, ◌≤◌, ◌<◌, ◌≡◌, refl, ap, sym, subst, ◌∙◌, String, arith, ltb, ◌==◌, Bool, ◌||◌,
  if◌then◌else◌, if_both, List, [], ◌∷◌, ◌++◌, Option, none, some, ◌⊎◌, contains,
}
use whatsapp_mcp.Prelude.Text.{Text}
use whatsapp_mcp.MediaQuota.{
  two_64, wrap, low_water, Reservation, File, Quota, Settings, unfinished, reserved, is_active,
  Walk, walk, sort, Eviction, evict, Outcome, granted, unlimited, paused, failed, World, is_over,
  limit_of, reconcile, reserve, admit, acquire,
}
use whatsapp_mcp.MediaQuota.Order.{total, total-sort}
use whatsapp_mcp.MediaQuota.Evict.{evict-used}

-- The bytes of the reservations, and those of the files that no reservation is about.
unfoldable pub bytes_of : List Reservation → ℕ
bytes_of [] = 0
bytes_of (r ∷ rs) = r.bytes + bytes_of rs

unfoldable pub inactive : List Reservation → List File → ℕ
inactive live [] = 0
inactive live (f ∷ fs) =
    let rest = inactive live fs in if is_active live f.path then rest else f.size + rest

pub reserved_lem :
    (used : ℕ) (rs : List Reservation)
    → used + bytes_of rs < two_64
    → reserved used rs ≡ used + bytes_of rs
unfolding reserved bytes_of
reserved_lem used [] h = omega arith
reserved_lem used (r ∷ rs) h =
    let same : wrap (used + r.bytes) ≡ used + r.bytes = omega (arith, h) in
    ap (λ u. reserved u rs) same
    ∙ omega (arith, reserved_lem (used + r.bytes) rs (omega (arith, h)))

inactive-append :
    (live : List Reservation) (xs ys : List File)
    → inactive live (xs ++ ys) ≡ inactive live xs + inactive live ys
unfolding inactive
inactive-append live [] ys = omega arith
inactive-append live (f ∷ fs) ys = ground (arith, inactive-append live fs ys)

inactive-total : (live : List Reservation) (fs : List File) → inactive live fs ≤ total fs
unfolding inactive total
inactive-total live [] = omega arith
inactive-total live (f ∷ fs) = ground (arith, inactive-total live fs)

-- What a walk has counted.
abbrev Counts : List Reservation → ℕ → ℕ → Walk → Type 0
Counts live base used w =
    (w.used ≡ used) × (base + inactive live w.others + total w.candidates ≤ w.used)

walk-Counts :
    (live : List Reservation) (types : List String) (fs : List File) (base : ℕ) (w : Walk)
    → w.used + inactive live fs < two_64
    → base + inactive live w.others + total w.candidates ≤ w.used
    → Counts live base (w.used + inactive live fs) (walk live types fs w)
unfolding walk inactive total
walk-Counts live types [] base w b h = (omega arith, h)
walk-Counts live types (f ∷ fs) base w b h =
    if_both
      (λ (v : Walk). Counts live base (w.used + inactive live (f ∷ fs)) (walk live types fs v))
      (is_active live f.path) _ _
      (λ a.
        let same : inactive live (f ∷ fs) ≡ inactive live fs = ground (arith, a) in
        let r =
          walk-Counts live types fs base (record w { others = f ∷ w.others })
            (ground (arith, same, b)) (ground (arith, a, h)) in
        (omega (arith, r.0, same), r.1))
      (λ a.
        let more : inactive live (f ∷ fs) ≡ f.size + inactive live fs = ground (arith, a) in
        let same : wrap (w.used + f.size) ≡ w.used + f.size = omega (arith, b, more) in
        if_both
          (λ (v : Walk). Counts live base (w.used + inactive live (f ∷ fs)) (walk live types fs v))
          (contains types f.kind) _ _
          (λ _.
            let r =
              walk-Counts live types fs base
                (record {
                  used = wrap (w.used + f.size);
                  candidates = f ∷ w.candidates;
                  others = w.others;
                })
                (omega (arith, same, more, b)) (omega (arith, same, h)) in
            (omega (arith, r.0, same, more), r.1))
          (λ _.
            let here : inactive live (f ∷ w.others) ≡ f.size + inactive live w.others =
              ground (arith, a) in
            let r =
              walk-Counts live types fs base
                (record {
                  used = wrap (w.used + f.size);
                  candidates = w.candidates;
                  others = f ∷ w.others;
                })
                (omega (arith, same, more, b)) (omega (arith, same, h, here)) in
            (omega (arith, r.0, same, more), r.1)))

limit_of-left : (left incoming current : ℕ) → (limit_of left incoming current).0 ≤ left
unfolding limit_of
limit_of-left left incoming current = ground arith

-- What is in use at the end of an admission counts the reservations and the files of no transfer.
reconcile-counts :
    (world : World) (s : Settings) (incoming : ℕ) (live : List Reservation) (w : Walk) (q : Quota)
    (base : ℕ)
    → ((f : File) → (world.removes f ≡ none) ⊎ (world.removes f ≡ some f.size))
    → base + inactive live w.others + total w.candidates ≤ w.used
    → base + inactive live q.files ≤ w.used
    → base + inactive live ((reconcile world s incoming w q).1).files
      ≤ ((reconcile world s incoming w q).0).used
unfolding reconcile
reconcile-counts world s incoming live w q base honest h g =
    if_both (λ (r : Eviction × Quota). base + inactive live (r.1).files ≤ (r.0).used)
      (is_over s.quota incoming w.used || q.needs_low_water) _ _
      (λ _.
        let low = low_water s.quota s.target in
        let e =
          evict world.expired world.removes s.quota low incoming 0 (sort w.candidates) w.used 0 in
        omega (
          arith,
          inactive-append live w.others e.kept,
          inactive-total live e.kept,
          evict-used world.expired world.removes s.quota low incoming 0 (sort w.candidates) w.used 0
              (base + inactive live w.others) honest (omega (arith, h, total-sort w.candidates)),
        ))
      (λ _. g)

abbrev Fits : ℕ → List Reservation → Outcome → Quota → Type 0
Fits quota live (granted limit by_quota) q = bytes_of q.reservations + inactive live q.files ≤ quota
Fits quota live unlimited q = Unit
Fits quota live paused q = Unit
Fits quota live failed q = Unit

reconcile-reservations :
    (world : World) (s : Settings) (incoming : ℕ) (w : Walk) (q : Quota)
    → ((reconcile world s incoming w q).1).reservations ≡ q.reservations
unfolding reconcile
reconcile-reservations world s incoming w q =
    if_both (λ (r : Eviction × Quota). (r.1).reservations ≡ q.reservations)
      (is_over s.quota incoming w.used || q.needs_low_water) _ _ (λ _. refl) (λ _. refl)

reserve-Fits :
    (quota : ℕ) (live : List Reservation) (path : Text) (used incoming current : ℕ) (q : Quota)
    → used < quota
    → bytes_of q.reservations + inactive live q.files ≤ used
    → Fits quota live
        ((reserve path (quota - used) incoming current q).0)
        ((reserve path (quota - used) incoming current q).1)
unfolding reserve bytes_of
reserve-Fits quota live path used incoming current q l h =
    omega (arith, l, h, limit_of-left (quota - used) incoming current)

nothing_counted : (live : List Reservation) (n : ℕ) → n + inactive live [] + total [] ≤ n
unfolding inactive total
nothing_counted live n = omega arith

admit-Fits :
    (world : World) (s : Settings) (path : Text) (incoming current : ℕ) (q : Quota)
    → ((f : File) → (world.removes f ≡ none) ⊎ (world.removes f ≡ some f.size))
    → bytes_of (unfinished q.reservations) + inactive (unfinished q.reservations) q.files < two_64
    → Fits s.quota
        (unfinished q.reservations)
        ((admit world s path incoming current q).0)
        ((admit world s path incoming current q).1)
unfolding admit
admit-Fits world s path incoming current q honest small =
    let live = unfinished q.reservations in
    let kept : Quota = record q { reservations = live } in
    let start : Walk = record { used = reserved 0 live; candidates = []; others = [] } in
    let w = walk live s.types q.files start in
    let done = reconcile world s incoming w kept in
    let from : reserved 0 live ≡ bytes_of live =
      omega (arith, reserved_lem 0 live (omega (arith, small))) in
    let counted : Counts live (bytes_of live) (reserved 0 live + inactive live q.files) w =
      walk-Counts live s.types q.files (bytes_of live) start (omega (arith, from, small))
        (omega (arith, from, nothing_counted live (bytes_of live))) in
    let after : bytes_of live + inactive live (done.1).files ≤ (done.0).used =
      reconcile-counts world s incoming live w kept (bytes_of live) honest (counted.1)
        (omega (arith, counted.0, from)) in
    if_both (λ (r : Outcome × Quota). Fits s.quota live (r.0) (r.1)) world.walk_fails _ _ (λ _. tt)
      (λ _.
        if_both (λ (r : Outcome × Quota). Fits s.quota live (r.0) (r.1)) world.expires _ _ (λ _. tt)
          (λ _.
            if_both (λ (r : Outcome × Quota). Fits s.quota live (r.0) (r.1))
              (is_over s.quota incoming (done.0).used || (done.1).needs_low_water) _ _ (λ _. tt)
              (λ h.
                reserve-Fits s.quota live path (done.0).used incoming current (done.1)
                  (ground (arith, h))
                  (subst (λ rs. bytes_of rs + inactive live (done.1).files ≤ (done.0).used)
                    (sym (reconcile-reservations world s incoming w kept)) after))))

acquire-Fits :
    (world : World) (path : Text) (incoming current : ℕ) (q : Quota) (settings : Option Settings)
    (s : Settings)
    → settings ≡ some s
    → ((f : File) → (world.removes f ≡ none) ⊎ (world.removes f ≡ some f.size))
    → bytes_of (unfinished q.reservations) + inactive (unfinished q.reservations) q.files < two_64
    → Fits s.quota
        (unfinished q.reservations)
        ((acquire (record world { settings = settings }) path incoming current q).0)
        ((acquire (record world { settings = settings }) path incoming current q).1)
unfolding acquire
acquire-Fits world path incoming current q none s known honest small = cc
acquire-Fits world path incoming current q (some t) s known honest small =
    let live = unfinished q.reservations in
    let same : t.quota ≡ s.quota = cc in
    let here : World = record world { settings = some t } in
    subst
      (λ quota.
        Fits quota live ((acquire here path incoming current q).0)
          ((acquire here path incoming current q).1))
      same
      (if_both (λ (r : Outcome × Quota). Fits t.quota live (r.0) (r.1)) (t.quota == 0) _ _ (λ _. tt)
        (λ _.
          if_both (λ (r : Outcome × Quota). Fits t.quota live (r.0) (r.1))
            (ltb t.target 1 || ltb 99 t.target) _ _ (λ _. tt)
            (λ _.
              if_both (λ (r : Outcome × Quota). Fits t.quota live (r.0) (r.1))
                (ltb t.quota incoming) _ _ (λ _. tt)
                (λ _. admit-Fits here t path incoming current q honest small))))

-- Where a removal frees the size that was counted, and what is reserved and stored is below 2 ^ 64
-- bytes: a grant leaves the bytes of all reservations, the new one included, and of all files that no
-- earlier transfer still writes, within the quota.
pub acquire-within :
    (world : World) (path : Text) (incoming current : ℕ) (q after : Quota) (s : Settings)
    (limit : ℕ) (by_quota : Bool)
    → world.settings ≡ some s
    → ((f : File) → (world.removes f ≡ none) ⊎ (world.removes f ≡ some f.size))
    → bytes_of (unfinished q.reservations) + inactive (unfinished q.reservations) q.files < two_64
    → acquire world path incoming current q ≡ (granted limit by_quota, after)
    → bytes_of after.reservations + inactive (unfinished q.reservations) after.files ≤ s.quota
acquire-within world path incoming current q after s limit by_quota known honest small answered =
    subst (λ (r : Outcome × Quota). Fits s.quota (unfinished q.reservations) (r.0) (r.1)) answered
      (acquire-Fits world path incoming current q world.settings s known honest small)
