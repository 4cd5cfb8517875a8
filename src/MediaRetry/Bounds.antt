-- ===== src/MediaRetry/Bounds.antt =====
-- The rows that are remembered stay within their bound.
use whatsapp_mcp.Prelude.{
  ℕ, ◌≤◌, ◌<◌, true, ◌||◌, ◌≡◌, refl, sym, ap, subst, ◌∙◌, Option, none, some, List, [], ◌∷◌,
  length, arith, eq_iff, eq_refl, ◌⊎◌, inl, inr, Bool-cases, leb, ltb, ◌==◌, if◌then◌else◌,
}
use whatsapp_mcp.MediaRetry.{
  Key, Row, Cooldown, same_key, find, delete, is_found, answer_of, active, Soonest, no_row, sooner,
  unexpired, soonest_of, evict, cooldown_max, make_room, note, forget, Call, ask, fail, bring, step,
  run,
}

pub length-delete : (k : Key) (c : Cooldown) → length (delete k c) ≤ length c
unfolding delete
length-delete k [] = ground arith
length-delete k (r ∷ rs) = ground (arith, length-delete k rs)

-- A row that is found goes.
pub length-delete_found :
    (k : Key) (c : Cooldown) → is_found (find k c) ≡ true → length (delete k c) < length c
unfolding delete find
length-delete_found k [] h = ground arith
length-delete_found k (r ∷ rs) h = ground (arith, length-delete_found k rs, length-delete k rs)

length-unexpired : (now : ℕ) (c : Cooldown) → length (unexpired now c) ≤ length c
unfolding unexpired
length-unexpired now [] = ground arith
length-unexpired now (r ∷ rs) = ground (arith, length-unexpired now rs)

pub same_key_refl : (k : Key) → same_key k k ≡ true
unfolding same_key
same_key_refl k = rw (eq_refl k.chat, eq_refl k.id)

pub same_key_to : (a b : Key) → same_key a b ≡ true → a ≡ b
unfolding same_key
same_key_to a b h =
    let p : a.chat ≡ b.chat = (eq_iff a.chat b.chat).0 (ground arith) in
    let q : a.id ≡ b.id = (eq_iff a.id b.id).0 (ground arith) in
    λ i. record { chat = p i; id = q i }

is_found-cons :
    (k : Key) (r : Row) (rs : Cooldown)
    → is_found (find k rs) ≡ true
    → is_found (find k (r ∷ rs)) ≡ true
unfolding find
is_found-cons k r rs h = ground arith

is_found-first : (r : Row) (rs : Cooldown) → is_found (find r.key (r ∷ rs)) ≡ true
unfolding find
is_found-first r rs = ground (arith, same_key_refl r.key)

sooner-cases : (s : Soonest) (r : Row) → (sooner s r ≡ s) ⊎ ((sooner s r).key ≡ r.key)
unfolding sooner
sooner-cases s r = elim (Bool-cases (s.at == 0 || ltb r.until s.at)) [
  | inl y ↦ inr (
      subst (λ b. (if b then record { key = r.key; at = r.until } else s).key ≡ r.key) (sym y) refl)
  | inr n ↦
      inl (subst (λ b. (if b then record { key = r.key; at = r.until } else s) ≡ s) (sym n) refl)
]

-- The walk ends where it started or at one of the rows.
soonest_of-found :
    (s : Soonest) (c : Cooldown)
    → (soonest_of s c ≡ s) ⊎ (is_found (find (soonest_of s c).key c) ≡ true)
unfolding soonest_of
soonest_of-found s [] = inl refl
soonest_of-found s (r ∷ rs) = elim (soonest_of-found (sooner s r) rs) [
  | inr f ↦ inr (is_found-cons (soonest_of (sooner s r) rs).key r rs f)
  | inl e ↦ elim (sooner-cases s r) [
    | inl o ↦ inl (e ∙ o)
    | inr o ↦ inr (
        subst (λ k. is_found (find k (r ∷ rs)) ≡ true) (sym (ap (λ x. x.key) e ∙ o))
          (is_found-first r rs))
  ]
]

soonest-found :
    (r : Row) (rs : Cooldown) → is_found (find (soonest_of no_row (r ∷ rs)).key (r ∷ rs)) ≡ true
unfolding soonest_of sooner
soonest-found r rs = elim (soonest_of-found (record { key = r.key; at = r.until }) rs) [
  | inr f ↦ is_found-cons (soonest_of (record { key = r.key; at = r.until }) rs).key r rs f
  | inl e ↦
      subst (λ k. is_found (find k (r ∷ rs)) ≡ true) (sym (ap (λ x. x.key) e)) (is_found-first r rs)
]

cooldown_max_pos : 1 ≤ cooldown_max
unfolding cooldown_max
cooldown_max_pos = ground arith

length-kept :
    (kept : Cooldown)
    → length kept ≤ cooldown_max
    → length
        (if leb cooldown_max (length kept) then delete (soonest_of no_row kept).key kept else kept)
      < cooldown_max
length-kept [] h = ground (arith, cooldown_max_pos)
length-kept (r ∷ rs) h =
    ground
      (arith, length-delete_found (soonest_of no_row (r ∷ rs)).key (r ∷ rs) (soonest-found r rs))

length-evict :
    (now : ℕ) (c : Cooldown) → length c ≤ cooldown_max → length (evict now c) < cooldown_max
unfolding evict
length-evict now c h = length-kept (unexpired now c) (ground (arith, length-unexpired now c))

length-make_room :
    (k : Key) (now : ℕ) (c : Cooldown)
    → length c ≤ cooldown_max
    → length (delete k (make_room k now c)) < cooldown_max
unfolding make_room
length-make_room k now c h = ground (
  arith,
  length-evict now c h,
  length-delete k (evict now c),
  length-delete k c,
  length-delete_found k c,
)

pub length-answer_of :
    (k : Key) (now : ℕ) (c : Cooldown) (o : Option Row) → length (answer_of k now c o).1 ≤ length c
unfolding answer_of
length-answer_of k now c none = ground arith
length-answer_of k now c (some r) = ground (arith, length-delete k c)

length-step : (e : Call) (c : Cooldown) → length c ≤ cooldown_max → length (step e c) ≤ cooldown_max
unfolding step active note forget
length-step (ask k now) c h = ground (arith, length-answer_of k now c (find k c))
length-step (fail k e now) c h = ground (arith, length-make_room k now c h)
length-step (bring k) c h = ground (arith, length-delete k c)

-- However many retries fail, no more messages are remembered than the bound, over any sequence of
-- calls from a memory within the bound.
length-run :
    (es : List Call) (c : Cooldown) → length c ≤ cooldown_max → length (run es c) ≤ cooldown_max
unfolding run
length-run [] c h = h
length-run (e ∷ es) c h = length-run es (step e c) (length-step e c h)
