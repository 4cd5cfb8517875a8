-- ===== src/MediaQuota.antt =====
-- whatsapp-bridge/media_quota.go: the local quota of the media cache. An admission counts what is
-- reserved and what lies on the disk, evicts the oldest files of the types given up, and reserves what
-- is left before a transfer starts. Sizes are Go's `uint64`, with its wrap-around written out.
pub mod LowWater
pub mod Order
pub mod Evict
pub mod Grant
pub mod Progress
mod Examples
use whatsapp_mcp.Prelude.{
  ℕ, zero, suc, ◌+◌, ◌-◌, ◌*◌, ◌/◌, ◌%◌, min, String, Bool, true, false, not, ◌&&◌, ◌||◌, Option,
  none, some, List, [], ◌∷◌, ◌++◌, contains, ltb, leb, ◌==◌, if◌then◌else◌,
}
use whatsapp_mcp.Prelude.Text.{Text, text_eq}

abbrev pub two_64 : ℕ
two_64 = 18446744073709551616

abbrev pub wrap : ℕ → ℕ
wrap n = n % two_64

-- `mediaQuotaLowWater`
unfoldable pub low_water : ℕ → ℕ → ℕ
low_water quota target =
    if ltb target 1 || ltb 99 target
    then 0
    else wrap (wrap (quota / 100 * target) + wrap (quota % 100 * target) / 100)

-- `mediaQuotaReservation`, of the local store.
pub record Reservation : Type 0 where
  pub number : ℕ
  pub path : Text
  pub bytes : ℕ
  pub finished : Bool

-- A file of the cache: its chat and name joined, its type by `mediaScope`, its size and its time.
pub record File : Type 0 where
  pub path : Text
  pub kind : String
  pub size : ℕ
  pub at : ℕ

pub record Quota : Type 0 where
  pub reservations : List Reservation
  pub files : List File
  pub needs_low_water : Bool
  pub refusals : ℕ
  pub next : ℕ

-- `mediaQuotaSettings`
pub record Settings : Type 0 where
  pub quota : ℕ
  pub types : List String
  pub target : ℕ

-- The loop over the reservations.
unfoldable pub unfinished : List Reservation → List Reservation
unfinished [] = []
unfinished (r ∷ rs) = let rest = unfinished rs in if r.finished then rest else r ∷ rest

unfoldable pub reserved : ℕ → List Reservation → ℕ
reserved used [] = used
reserved used (r ∷ rs) = reserved (wrap (used + r.bytes)) rs

unfoldable pub is_active : List Reservation → Text → Bool
is_active [] path = false
is_active (r ∷ rs) path = text_eq r.path path || is_active rs path

-- What the walk over the cache counts, the files it may evict, and the others.
pub record Walk : Type 0 where
  pub used : ℕ
  pub candidates : List File
  pub others : List File

unfoldable pub walk : List Reservation → List String → List File → Walk → Walk
walk active types [] w = w
walk active types (f ∷ fs) w = walk active types fs (
    if is_active active f.path
    then record w { others = f ∷ w.others }
    else if contains types f.kind
    then record { used = wrap (w.used + f.size); candidates = f ∷ w.candidates; others = w.others }
    else record { used = wrap (w.used + f.size); candidates = w.candidates; others = f ∷ w.others })

unfoldable pub text_less : Text → Text → Bool
text_less [] [] = false
text_less [] (b ∷ bs) = true
text_less (a ∷ as') [] = false
text_less (a ∷ as') (b ∷ bs) = ltb a b || (a == b && text_less as' bs)

-- The order of the candidates: the oldest first, then by their paths.
unfoldable pub older : File → File → Bool
older f g = if f.at == g.at then text_less f.path g.path else ltb f.at g.at

unfoldable pub insert : File → List File → List File
insert f [] = f ∷ []
insert f (g ∷ gs) = let rest = insert f gs in if older g f then g ∷ rest else f ∷ g ∷ gs

unfoldable pub sort : List File → List File
sort [] = []
sort (f ∷ fs) = insert f (sort fs)

-- What the eviction has done: the bytes in use, those freed, and the candidates that stay.
pub record Eviction : Type 0 where
  pub used : ℕ
  pub freed : ℕ
  pub kept : List File

abbrev pub is_enough : (quota low incoming used : ℕ) → Bool
is_enough quota low incoming used = leb used low && leb incoming (quota - used)

-- The size of the file that was removed, if it was.
abbrev pub freed_by : Option ℕ → ℕ
freed_by none = 0
freed_by (some bytes) = bytes

abbrev pub left_by : Option ℕ → File → List File → List File
left_by none f kept = f ∷ kept
left_by (some bytes) f kept = kept

-- The loop over the sorted candidates. `expired` answers, by the number of the candidate, whether the
-- context has ended, and `removes` which size a removal freed, none where the file is not found or
-- does not go.
unfoldable pub evict :
    (expired : ℕ → Bool) (removes : File → Option ℕ) (quota low incoming : ℕ)
    → ℕ
    → List File
    → ℕ
    → ℕ
    → Eviction
evict expired removes quota low incoming i [] used freed = record {
  used = used;
  freed = freed;
  kept = [];
}
evict expired removes quota low incoming i (f ∷ fs) used freed =
    let rest =
      evict expired removes quota low incoming (suc i) fs (used - min used (freed_by (removes f)))
        (wrap (freed + freed_by (removes f))) in
    if expired i || is_enough quota low incoming used
    then record { used = used; freed = freed; kept = f ∷ fs }
    else record rest { kept = left_by (removes f) f rest.kept }

pub data Outcome : Type 0 where
  -- The limit of the transfer, and whether the quota sets it.
  granted : ℕ → Bool → Outcome
  unlimited : Outcome
  paused : Outcome
  failed : Outcome

-- What the environment of one admission does.
pub record World : Type 0 where
  pub settings : Option Settings
  pub walk_fails : Bool
  pub expired : ℕ → Bool
  pub expires : Bool
  pub removes : File → Option ℕ

abbrev pub is_over : (quota incoming used : ℕ) → Bool
is_over quota incoming used = leb quota used || ltb (quota - used) incoming

abbrev pub is_nothing : List String → Bool
is_nothing [] = true
is_nothing (t ∷ ts) = false

-- The limit of the transfer: what is left, what comes in, and the caller's own limit, 0 for none.
unfoldable pub limit_of : (left incoming current : ℕ) → ℕ × Bool
limit_of left incoming current =
    let limit = if ltb 0 incoming then min left incoming else left in
    if ltb 0 current then (min limit current, ltb limit current) else (limit, true)

-- From the test that starts an eviction to the one that refuses.
unfoldable pub reconcile : World → Settings → (incoming : ℕ) → Walk → Quota → Eviction × Quota
reconcile world s incoming w q =
    let low = low_water s.quota s.target in
    let gone =
      evict world.expired world.removes s.quota low incoming 0 (sort w.candidates) w.used 0 in
    if is_over s.quota incoming w.used || q.needs_low_water
    then (
      gone,
      record q {
        files = w.others ++ gone.kept;
        needs_low_water = not (is_nothing s.types) && ltb low gone.used;
      },
    )
    else (record { used = w.used; freed = 0; kept = w.candidates }, q)

unfoldable pub reserve : Text → (left incoming current : ℕ) → Quota → Outcome × Quota
reserve path left incoming current q =
    let limit = limit_of left incoming current in
    (
      granted (limit.0) (limit.1),
      record q {
        reservations =
            record { number = q.next; path = path; bytes = limit.0; finished = false }
            ∷ q.reservations;
        next = suc q.next;
      },
    )

abbrev pub pause : Quota → Outcome × Quota
pause q = (paused, record q { refusals = suc q.refusals })

unfoldable pub admit : World → Settings → Text → (incoming current : ℕ) → Quota → Outcome × Quota
admit world s path incoming current q =
    let live = unfinished q.reservations in
    let kept = record q { reservations = live } in
    let w =
      walk live s.types q.files (record { used = reserved 0 live; candidates = []; others = [] }) in
    let done = reconcile world s incoming w kept in
    if world.walk_fails
    then (failed, kept)
    else if world.expires
    then (failed, done.1)
    else if is_over s.quota incoming (done.0).used || (done.1).needs_low_water
    then pause (done.1)
    else reserve path (s.quota - (done.0).used) incoming current (done.1)

-- `acquireMediaQuota` over the local store, from the settings on, under the lease.
unfoldable pub acquire : World → Text → (incoming current : ℕ) → Quota → Outcome × Quota
acquire world path incoming current q = elim world.settings [
  | none ↦ (failed, q)
  | some s ↦
      if s.quota == 0
      then (unlimited, record q { needs_low_water = false })
      else if ltb s.target 1 || ltb 99 s.target
      then (failed, q)
      else if ltb s.quota incoming
      then pause q
      else admit world s path incoming current q
]

-- The release that a grant comes with.
unfoldable pub finish_all : ℕ → List Reservation → List Reservation
finish_all n [] = []
finish_all n (r ∷ rs) =
    (if r.number == n then record r { finished = true } else r) ∷ finish_all n rs

unfoldable pub release : ℕ → Quota → Quota
release n q = record q { reservations = finish_all n q.reservations }

-- `mediaCachingPaused`; `bytes` is none for a negative count.
unfoldable pub is_caching_paused : Quota → Settings → Option ℕ → Bool
is_caching_paused q s none = false
is_caching_paused q s (some used) =
    not (s.quota == 0)
    && (leb s.quota used
        || (q.needs_low_water
            && (not (is_nothing s.types) && ltb (low_water s.quota s.target) used)))
