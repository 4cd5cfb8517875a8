-- ===== src/MediaQuota/Progress.antt =====
-- An admission that may evict every file is granted.
use whatsapp_mcp.Prelude.{
  ℕ, zero, suc, ◌+◌, ◌-◌, ◌≤◌, ◌<◌, ◌≡◌, refl, ap, sym, subst, ◌∙◌, String, arith, ltb, ◌==◌, Bool,
  ◌||◌, ◌&&◌, if_both, true, false, List, [], ◌∷◌, Option, none, some, inl, inr, contains,
}
use whatsapp_mcp.Prelude.Text.{Text}
use whatsapp_mcp.MediaQuota.{
  two_64, wrap, low_water, Reservation, File, Quota, Settings, unfinished, reserved, is_active,
  Walk, walk, sort, Eviction, evict, Outcome, granted, unlimited, paused, failed, World, is_over,
  reconcile, reserve, admit, acquire,
}
use whatsapp_mcp.MediaQuota.LowWater.{low_water-part, times_most}
use whatsapp_mcp.MediaQuota.Order.{total, total-sort}
use whatsapp_mcp.MediaQuota.Evict.{Shortest, skip, first, Shortest-evict}
use whatsapp_mcp.MediaQuota.Grant.{bytes_of, inactive, reserved_lem}

abbrev pub is_granted : Outcome → Bool
is_granted (granted limit by_quota) = true
is_granted unlimited = false
is_granted paused = false
is_granted failed = false

-- Whether each file is one of a transfer or of a type given up.
unfoldable pub all_evictable : List Reservation → List String → List File → Bool
all_evictable live types [] = true
all_evictable live types (f ∷ fs) =
    (is_active live f.path || contains types f.kind) && all_evictable live types fs

low_water-less :
    (quota target : ℕ)
    → 0 < quota
    → quota < two_64
    → 1 ≤ target
    → target ≤ 99
    → low_water quota target < quota
low_water-less quota target p b l h =
    omega (arith, low_water-part quota target b l h, times_most quota target h, p)

walk-candidates :
    (live : List Reservation) (types : List String) (fs : List File) (base : ℕ) (w : Walk)
    → all_evictable live types fs ≡ true
    → w.used + inactive live fs < two_64
    → w.used ≡ base + total w.candidates
    → (walk live types fs w).used ≡ base + total (walk live types fs w).candidates
unfolding walk inactive total all_evictable
walk-candidates live types [] base w e b h = h
walk-candidates live types (f ∷ fs) base w e b h =
    if_both
      (λ (v : Walk). (walk live types fs v).used ≡ base + total (walk live types fs v).candidates)
      (is_active live f.path) _ _
      (λ a.
        walk-candidates live types fs base (record w { others = f ∷ w.others }) (ground (arith, e))
          (ground (arith, a, b)) h)
      (λ a.
        let more : inactive live (f ∷ fs) ≡ f.size + inactive live fs = ground (arith, a) in
        let same : wrap (w.used + f.size) ≡ w.used + f.size = omega (arith, b, more) in
        if_both
          (λ (v : Walk).
            (walk live types fs v).used ≡ base + total (walk live types fs v).candidates)
          (contains types f.kind) _ _
          (λ _.
            walk-candidates live types fs base
              (record {
                used = wrap (w.used + f.size);
                candidates = f ∷ w.candidates;
                others = w.others;
              })
              (ground (arith, e)) (omega (arith, same, more, b)) (omega (arith, same, h)))
          (λ n. ground (arith, e, a, n)))

total-first : (n : ℕ) (fs : List File) → total (first n fs) + total (skip n fs) ≡ total fs
unfolding total first skip
total-first zero fs = omega arith
total-first (suc n) [] = omega arith
total-first (suc n) (f ∷ fs) = omega (arith, total-first n fs)

total-nil : (fs : List File) → fs ≡ [] → total fs ≡ 0
unfolding total
total-nil fs h = ap total h

-- What the eviction leaves in use leaves room.
evicted_room :
    (quota low incoming base : ℕ) (fs : List File) (used : ℕ) (e : Eviction)
    → low < quota
    → base ≤ low
    → base + incoming ≤ quota
    → used ≡ base + total fs
    → Shortest quota low incoming fs used e
    → (e.used ≤ low) × (is_over quota incoming e.used ≡ false)
evicted_room quota low incoming base fs used e l b i u s = elim ((((s.1).1).1).1) [
  | inl gone ↦
      let left : total (skip (s.0) fs) ≡ 0 = ap total (sym ((s.1).0)) ∙ total-nil e.kept gone in
      let now : e.used ≡ base = omega (arith, ((s.1).1).0, u, left, total-first (s.0) fs) in
      (omega (arith, now, b), ground (arith, now, l, b, i))
  | inr enough ↦ (ground (arith, enough), ground (arith, enough, l))
]

-- There is room for what comes in.
abbrev HasRoom : ℕ → ℕ → Eviction × Quota → Type 0
HasRoom quota incoming r = (is_over quota incoming (r.0).used || (r.1).needs_low_water) ≡ false

reconcile-HasRoom :
    (world : World) (s : Settings) (incoming base : ℕ) (w : Walk) (q : Quota)
    → ((i : ℕ) → world.expired i ≡ false)
    → ((f : File) → world.removes f ≡ some f.size)
    → low_water s.quota s.target < s.quota
    → base ≤ low_water s.quota s.target
    → base + incoming ≤ s.quota
    → w.used ≡ base + total w.candidates
    → HasRoom s.quota incoming (reconcile world s incoming w q)
unfolding reconcile
reconcile-HasRoom world s incoming base w q on_time removed l b i u =
    if_both (HasRoom s.quota incoming) (is_over s.quota incoming w.used || q.needs_low_water) _ _
      (λ _.
        let low = low_water s.quota s.target in
        let e =
          evict world.expired world.removes s.quota low incoming 0 (sort w.candidates) w.used 0 in
        let room =
          evicted_room s.quota low incoming base (sort w.candidates) w.used e l b i
            (omega (arith, u, total-sort w.candidates))
            (Shortest-evict s.quota low incoming world.expired world.removes on_time removed 0
              (sort w.candidates) w.used 0) in
        ground (arith, room.0, room.1))
      (λ h. h)

is_granted-reserve :
    (path : Text) (left incoming current : ℕ) (q : Quota)
    → is_granted ((reserve path left incoming current q).0) ≡ true
unfolding reserve
is_granted-reserve path left incoming current q = refl

is_granted-admit :
    (world : World) (s : Settings) (path : Text) (incoming current : ℕ) (q : Quota)
    → world.walk_fails ≡ false
    → world.expires ≡ false
    → ((i : ℕ) → world.expired i ≡ false)
    → ((f : File) → world.removes f ≡ some f.size)
    → low_water s.quota s.target < s.quota
    → bytes_of (unfinished q.reservations) ≤ low_water s.quota s.target
    → bytes_of (unfinished q.reservations) + incoming ≤ s.quota
    → all_evictable (unfinished q.reservations) s.types q.files ≡ true
    → bytes_of (unfinished q.reservations) + inactive (unfinished q.reservations) q.files < two_64
    → is_granted ((admit world s path incoming current q).0) ≡ true
unfolding admit
is_granted-admit world s path incoming current q walked lasts on_time removed l b i e small =
    let live = unfinished q.reservations in
    let kept : Quota = record q { reservations = live } in
    let start : Walk = record { used = reserved 0 live; candidates = []; others = [] } in
    let w = walk live s.types q.files start in
    let done = reconcile world s incoming w kept in
    let from : reserved 0 live ≡ bytes_of live =
      omega (arith, reserved_lem 0 live (omega (arith, small))) in
    let counted : w.used ≡ bytes_of live + total w.candidates =
      walk-candidates live s.types q.files (bytes_of live) start e (omega (arith, from, small))
        (omega (arith, from, total-nil [] refl)) in
    let room : HasRoom s.quota incoming done =
      reconcile-HasRoom world s incoming (bytes_of live) w kept on_time removed l b i counted in
    if_both (λ (r : Outcome × Quota). is_granted (r.0) ≡ true) world.walk_fails _ _
      (λ h. ground (arith, h, walked))
      (λ _.
        if_both (λ (r : Outcome × Quota). is_granted (r.0) ≡ true) world.expires _ _
          (λ h. ground (arith, h, lasts))
          (λ _.
            if_both (λ (r : Outcome × Quota). is_granted (r.0) ≡ true)
              (is_over s.quota incoming (done.0).used || (done.1).needs_low_water) _ _
              (λ h. ground (arith, h, room))
              (λ _. is_granted-reserve path (s.quota - (done.0).used) incoming current (done.1))))

is_granted-known :
    (world : World) (s : Settings) (path : Text) (incoming current : ℕ) (q : Quota)
    (settings : Option Settings)
    → settings ≡ some s
    → 0 < s.quota
    → 1 ≤ s.target
    → s.target ≤ 99
    → incoming ≤ s.quota
    → is_granted ((admit (record world { settings = settings }) s path incoming current q).0) ≡ true
    → is_granted ((acquire (record world { settings = settings }) path incoming current q).0) ≡ true
unfolding acquire
is_granted-known world s path incoming current q none known p l h i g = cc
is_granted-known world s path incoming current q (some t) known p l h i g =
    let same : t ≡ s = ap (λ o. elim o [ some x ↦ x | none ↦ s ]) known in
    let there =
      subst
        (λ x.
          is_granted ((admit (record world { settings = some x }) s path incoming current q).0)
          ≡ true)
        same g in
    subst
      (λ x.
        is_granted ((acquire (record world { settings = some x }) path incoming current q).0)
        ≡ true)
      (sym same)
      (if_both (λ (r : Outcome × Quota). is_granted (r.0) ≡ true) (s.quota == 0) _ _
        (λ z. ground (arith, z, p))
        (λ _.
          if_both (λ (r : Outcome × Quota). is_granted (r.0) ≡ true)
            (ltb s.target 1 || ltb 99 s.target) _ _ (λ z. ground (arith, z, l, h))
            (λ _.
              if_both (λ (r : Outcome × Quota). is_granted (r.0) ≡ true) (ltb s.quota incoming) _ _
                (λ z. ground (arith, z, i)) (λ _. there))))

-- Where the context lasts, each file that is found goes, and each file is one of a transfer or of a
-- type that is given up: a transfer is granted whenever what is reserved is within the low-water mark
-- and leaves room for what comes in, however full the cache is and whether or not it was paused.
pub acquire-granted :
    (world : World) (s : Settings) (path : Text) (incoming current : ℕ) (q : Quota)
    → world.settings ≡ some s
    → world.walk_fails ≡ false
    → world.expires ≡ false
    → ((i : ℕ) → world.expired i ≡ false)
    → ((f : File) → world.removes f ≡ some f.size)
    → 0 < s.quota
    → s.quota < two_64
    → 1 ≤ s.target
    → s.target ≤ 99
    → bytes_of (unfinished q.reservations) ≤ low_water s.quota s.target
    → bytes_of (unfinished q.reservations) + incoming ≤ s.quota
    → all_evictable (unfinished q.reservations) s.types q.files ≡ true
    → bytes_of (unfinished q.reservations) + inactive (unfinished q.reservations) q.files < two_64
    → is_granted ((acquire world path incoming current q).0) ≡ true
acquire-granted world s path incoming current q known walked lasts on_time removed p small_quota l h
      b i e small =
    is_granted-known world s path incoming current q world.settings known p l h (omega (arith, i)) (
      is_granted-admit world s path incoming current q walked lasts on_time removed
        (low_water-less s.quota s.target p small_quota l h) b i e small)
