-- ===== src/Transfers/Single.antt =====
-- One transfer per destination, and a count that `Shutdown` can wait for.
use whatsapp_mcp.Prelude.{
  ℕ, ltb, ◌+◌, ◌≤◌, ◌≡◌, refl, sym, subst, String, str_eq, Bool, true, false, ◌&&◌, ◌||◌, Option,
  none, some, List, [], ◌∷◌, length, arith, if_both, ◌⊎◌, inl, inr, Bool-cases,
}
use whatsapp_mcp.Transfers.{
  TransferError, Transfer, Group, new_group, running, delete_key, join_or_start, enter_do, publish,
  finish, is_none, stop, stop_requests, track_request, tracks, untrack, release, wg_done, Use,
  asked, ended, tracked, released, counted_down, group_stopped, requests_halted, use_group, use_all,
}

-- No destination twice.
abbrev pub distinct : List Transfer → Bool
distinct [] = true
distinct (t ∷ ts) = is_none (running t.key ts) && distinct ts

pub record IsSingle (g : Group) : Type 0 where
  pub one_each : distinct g.inflight ≡ true
  pub counted : g.active ≡ (length g.inflight + length g.requests) + g.ending

join_or_start-IsSingle :
    (k : String) (l : ℕ) (o : Option Transfer) (g : Group)
    → running k g.inflight ≡ o
    → IsSingle g
    → IsSingle ((join_or_start k l o g).1)
unfolding join_or_start
join_or_start-IsSingle k l (some t) g e w = w
join_or_start-IsSingle k l none g e w = record {
  one_each = ground (arith, w.one_each);
  counted = ground (arith, w.counted);
}

enter_do-IsSingle : (k : String) (l : ℕ) (g : Group) → IsSingle g → IsSingle ((enter_do k l g).1)
unfolding enter_do
enter_do-IsSingle k l g w =
    if_both (λ (r : Option ℕ × Group). IsSingle (r.1)) g.stopped _ _ (λ _. w)
      (λ _. join_or_start-IsSingle k l (running k g.inflight) g refl w)

length-delete_key :
    (k : String) (ts : List Transfer) (t : Transfer)
    → running k ts ≡ some t
    → length (delete_key k ts) + 1 ≡ length ts
unfolding running delete_key
length-delete_key k [] t e = cc
length-delete_key k (x ∷ ts) t e = elim (Bool-cases (str_eq x.key k)) [
  | inl hit ↦ ground arith
  | inr miss ↦ ground (arith, length-delete_key k ts t (ground arith))
]

running-delete_key :
    (j k : String) (ts : List Transfer)
    → is_none (running j ts) ≡ true
    → is_none (running j (delete_key k ts)) ≡ true
unfolding running delete_key
running-delete_key j k [] e = refl
running-delete_key j k (x ∷ ts) e = ground (arith, running-delete_key j k ts)

distinct-delete_key :
    (k : String) (ts : List Transfer) → distinct ts ≡ true → distinct (delete_key k ts) ≡ true
unfolding delete_key
distinct-delete_key k [] e = refl
distinct-delete_key k (x ∷ ts) e = elim (Bool-cases (str_eq x.key k)) [
  | inl hit ↦ ground arith
  | inr miss ↦ ground (arith, running-delete_key x.key k ts, distinct-delete_key k ts)
]

publish-IsSingle :
    (k : String) (n : ℕ) (e : Option TransferError) (o : Option Transfer) (g : Group)
    → running k g.inflight ≡ o
    → IsSingle g
    → IsSingle (publish k n e o g)
unfolding publish
publish-IsSingle k n e none g h w = w
publish-IsSingle k n e (some t) g h w = record {
  one_each = distinct-delete_key k g.inflight w.one_each;
  counted = ground (arith, w.counted, length-delete_key k g.inflight t h);
}

track_request-IsSingle : (b : Bool) (g : Group) → IsSingle g → IsSingle ((track_request b g).1)
unfolding track_request
track_request-IsSingle b g w =
    if_both (λ (r : Option ℕ × Group). IsSingle (r.1)) (g.stopped || (g.requests_stopped || b)) _ _
      (λ _. w) (λ _. record { one_each = w.one_each; counted = ground (arith, w.counted) })

length-untrack : (r : ℕ) (xs : List ℕ) → tracks r xs ≡ true → length (untrack r xs) + 1 ≡ length xs
unfolding tracks untrack
length-untrack r [] e = cc
length-untrack r (x ∷ xs) e = ground (arith, length-untrack r xs)

release-IsSingle :
    (r : ℕ) (g : Group) → tracks r g.requests ≡ true → IsSingle g → IsSingle (release r g)
unfolding release
release-IsSingle r g h w = record {
  one_each = w.one_each;
  counted = ground (arith, w.counted, length-untrack r g.requests h);
}

wg_done-IsSingle : (g : Group) → ltb 0 g.ending ≡ true → IsSingle g → IsSingle (wg_done g)
unfolding wg_done
wg_done-IsSingle g h w = record { one_each = w.one_each; counted = ground (arith, w.counted) }

use_group-IsSingle : (u : Use) (g : Group) → IsSingle g → IsSingle (use_group u g)
unfolding use_group finish stop stop_requests
use_group-IsSingle (asked k l) g w = enter_do-IsSingle k l g w
use_group-IsSingle (ended k n e) g w = publish-IsSingle k n e (running k g.inflight) g refl w
use_group-IsSingle (tracked b) g w = track_request-IsSingle b g w
use_group-IsSingle (released r) g w =
    if_both IsSingle (tracks r g.requests) _ _ (λ h. release-IsSingle r g h w) (λ _. w)
use_group-IsSingle counted_down g w =
    if_both IsSingle (ltb 0 g.ending) _ _ (λ h. wg_done-IsSingle g h w) (λ _. w)
use_group-IsSingle group_stopped g w = record { one_each = w.one_each; counted = w.counted }
use_group-IsSingle requests_halted g w = record { one_each = w.one_each; counted = w.counted }

pub use_all-IsSingle : (us : List Use) (g : Group) → IsSingle g → IsSingle (use_all us g)
unfolding use_all
use_all-IsSingle [] g w = w
use_all-IsSingle (u ∷ us) g w = use_all-IsSingle us (use_group u g) (use_group-IsSingle u g w)

-- A stopped group stays stopped, and its count does not grow.
abbrev Settles : Group → Group → Type 0
Settles g h = (h.stopped ≡ true) × (h.active ≤ g.active)

enter_do_stopped : (k : String) (l : ℕ) (g : Group) → g.stopped ≡ true → (enter_do k l g).1 ≡ g
unfolding enter_do
enter_do_stopped k l g e = ground arith

track_request_stopped : (b : Bool) (g : Group) → g.stopped ≡ true → (track_request b g).1 ≡ g
unfolding track_request
track_request_stopped b g e = ground arith

publish-Settles :
    (k : String) (n : ℕ) (e : Option TransferError) (o : Option Transfer) (g : Group)
    → g.stopped ≡ true
    → Settles g (publish k n e o g)
unfolding publish
publish-Settles k n e none g h = (h, omega arith)
publish-Settles k n e (some t) g h = (h, omega arith)

use_group-Settles : (u : Use) (g : Group) → g.stopped ≡ true → Settles g (use_group u g)
unfolding use_group finish stop stop_requests release wg_done
use_group-Settles (asked k l) g h =
    subst (Settles g) (sym (enter_do_stopped k l g h)) (h, omega arith)
use_group-Settles (ended k n e) g h = publish-Settles k n e (running k g.inflight) g h
use_group-Settles (tracked b) g h =
    subst (Settles g) (sym (track_request_stopped b g h)) (h, omega arith)
use_group-Settles (released r) g h =
    if_both (Settles g) (tracks r g.requests) _ _ (λ _. (h, omega arith)) (λ _. (h, omega arith))
use_group-Settles counted_down g h =
    if_both (Settles g) (ltb 0 g.ending) _ _ (λ _. (h, omega arith)) (λ _. (h, omega arith))
use_group-Settles group_stopped g h = (refl, omega arith)
use_group-Settles requests_halted g h = (h, omega arith)

use_all-Settles : (us : List Use) (g : Group) → g.stopped ≡ true → Settles g (use_all us g)
unfolding use_all
use_all-Settles [] g h = (h, omega arith)
use_all-Settles (u ∷ us) g h =
    let (e, l) = use_group-Settles u g h in
    let (f, m) = use_all-Settles us (use_group u g) e in (f, omega (arith, l, m))

-- After every run of uses of a new group, no destination has two transfers in flight, and the count
-- that a shutdown waits for is the number of the transfers in flight, of the tracked requests and of
-- the ended ones that have yet to call `wg.Done`. Once the group is stopped, no further use makes that count grow.
pub IsSingle-use_all :
    (us vs : List Use)
    → IsSingle (use_all us new_group)
      × (((use_all us new_group).stopped ≡ false)
          ⊎ ((use_all vs (use_all us new_group)).active ≤ (use_all us new_group).active))
IsSingle-use_all us vs = (
  use_all-IsSingle us new_group (record { one_each = refl; counted = refl }),
  elim (Bool-cases (use_all us new_group).stopped) [
    | inl on ↦ inr ((use_all-Settles vs (use_all us new_group) on).1)
    | inr off ↦ inl off
  ],
)
