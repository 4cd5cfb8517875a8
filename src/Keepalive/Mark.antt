-- ===== src/Keepalive/Mark.antt =====
-- The device does not stay marked as in use unnoticed.
use whatsapp_mcp.Prelude.{
  Bool, true, false, not, ◌≡◌, ◌⊎◌, inl, inr, refl, List, [], ◌∷◌, arith, Bool-cases, if◌then◌else◌,
}
use whatsapp_mcp.Keepalive.{
  Settings, Available, sent, no_push_name, send_failed, Round, Presence, available_sent,
  available_failed, unavailable_sent, unavailable_failed, Loop, Pass, goes_on, returns,
  mark_unavailable, retry_off, forget_future, note_ready, too_early, await_name, undo_failed,
  blip_sent, finish_blip, named, blip, attempt, work, pass,
}

-- What the bridge can know of the device's mark: `free` where no `available` may have gone out after
-- the last `unavailable` that did, `in_use` where an `available` went out and no `unavailable` is
-- known to have followed, `unclear` where that holds of a failed `available`, which may have gone out.
pub data Mark : Type 0 where
  free in_use unclear : Mark

unfoldable pub after_failed : Mark → Mark
after_failed in_use = in_use
after_failed _ = unclear

unfoldable pub mark_of : List Presence → Mark
unfolding after_failed
mark_of [] = free
mark_of (available_sent t ∷ ps) = in_use
mark_of (unavailable_sent ∷ ps) = free
mark_of (available_failed ∷ ps) = after_failed (mark_of ps)
mark_of (unavailable_failed ∷ ps) = mark_of ps

-- The last thing tried was to take the mark back.
unfoldable pub tried_off : List Presence → Bool
tried_off (unavailable_failed ∷ ps) = true
tried_off _ = false

-- The loop remembers a mark that is known to stand, and no other. It may be unclear only where taking
-- it back was tried last, and failed.
abbrev pub Kept : List Presence → Bool → Type 0
Kept ps off =
    ((mark_of ps ≡ free) × (off ≡ false))
    ⊎ (((mark_of ps ≡ in_use) × (off ≡ true))
        ⊎ ((mark_of ps ≡ unclear) × (off ≡ false) × (tried_off ps ≡ true)))

abbrev pub Ended : List Presence → Type 0
Ended ps = (mark_of ps ≡ free) ⊎ (tried_off ps ≡ true)

abbrev pub Settled : Pass → Type 0
Settled (goes_on l) = Kept l.presences l.pending_off
Settled (returns l) = Ended l.presences

-- Nothing is pending.
abbrev Quiet : List Presence → Type 0
Quiet ps = (mark_of ps ≡ free) ⊎ ((mark_of ps ≡ unclear) × (tried_off ps ≡ true))

-- A run of the loop over the passes that it makes.
unfoldable pub next_pass : (Loop → Pass) → Pass → Pass
next_pass f (goes_on l) = f l
next_pass f (returns l) = returns l

unfoldable pub run : Settings → List Round → Loop → Pass
run s [] l = goes_on l
run s (w ∷ ws) l = next_pass (run s ws) (pass s w l)

Quiet-Kept : (ps : List Presence) (off : Bool) → Kept ps off → off ≡ false → Quiet ps
Quiet-Kept ps off (inl (m, n)) h = inl m
Quiet-Kept ps off (inr (inl (m, n))) h = cc
Quiet-Kept ps off (inr (inr (m, n, t))) h = inr (m, t)

Kept-Quiet : (ps : List Presence) (off : Bool) → Quiet ps → off ≡ false → Kept ps off
Kept-Quiet ps off (inl m) h = inl (m, h)
Kept-Quiet ps off (inr (m, t)) h = inr (inr (m, h, t))

Ended-Quiet : (ps : List Presence) → Quiet ps → Ended ps
Ended-Quiet ps (inl m) = inl m
Ended-Quiet ps (inr (m, t)) = inr t

-- After an attempt to take the mark back.
Ended-mark_unavailable : (w : Round) (l : Loop) → Ended (mark_unavailable w l).presences
unfolding mark_unavailable mark_of tried_off
Ended-mark_unavailable w l = elim (Bool-cases w.unavailable_fails) [
  | inl y ↦ inr (ground arith)
  | inr n ↦ inl (ground arith)
]

Kept-retry_off :
    (w : Round) (l : Loop)
    → mark_of l.presences ≡ in_use
    → Kept (retry_off w l).presences (retry_off w l).pending_off
unfolding retry_off mark_unavailable mark_of
Kept-retry_off w l m = elim (Bool-cases w.unavailable_fails) [
  | inl y ↦ inr (inl (ground arith, y))
  | inr n ↦ inl (ground arith, n)
]

in_use-pending : (ps : List Presence) (off : Bool) → Kept ps off → off ≡ true → mark_of ps ≡ in_use
in_use-pending ps off (inl (m, n)) h = cc
in_use-pending ps off (inr (inl (m, n))) h = m
in_use-pending ps off (inr (inr (m, n, t))) h = cc

Settled-both :
    (b : Bool) (p q : Pass)
    → (b ≡ true → Settled p)
    → (b ≡ false → Settled q)
    → Settled (if b then p else q)
Settled-both true p q f g = f refl
Settled-both false p q f g = g refl

onward :
    (f : Loop → Pass)
    → ((l : Loop) → Kept l.presences l.pending_off → Settled (f l))
    → (p : Pass) → Settled p
    → Settled (next_pass f p)
unfolding next_pass
onward f kept (goes_on l) h = kept l h
onward f kept (returns l) h = h

unclear-failed : (ps : List Presence) → Quiet ps → mark_of (available_failed ∷ ps) ≡ unclear
unfolding mark_of after_failed
unclear-failed ps (inl m) = rw m refl
unclear-failed ps (inr (m, t)) = rw m refl

Quiet-mark_unavailable :
    (w : Round) (l : Loop) → mark_of l.presences ≡ unclear → Quiet (mark_unavailable w l).presences
unfolding mark_unavailable mark_of tried_off
Quiet-mark_unavailable w l m = elim (Bool-cases w.unavailable_fails) [
  | inl y ↦ inr (ground arith, ground arith)
  | inr n ↦ inl (ground arith)
]

Settled-undo_failed :
    (s : Settings) (w : Round) (l : Loop)
    → Quiet l.presences
    → l.pending_off ≡ false
    → Settled (undo_failed s w l)
unfolding undo_failed mark_unavailable
Settled-undo_failed s w l q off =
    let tried : Loop = record l { presences = available_failed ∷ l.presences } in
    let unsure = Quiet-mark_unavailable w tried (unclear-failed l.presences q) in
    Settled-both w.cancelled _ _ (λ c. Ended-mark_unavailable w tried)
      (λ c. Kept-Quiet (mark_unavailable w tried).presences l.pending_off unsure off)

Settled-finish_blip :
    (w : Round) (l : Loop) → l.pending_off ≡ false → Settled (finish_blip w (blip_sent w l))
unfolding finish_blip blip_sent mark_unavailable mark_of tried_off
Settled-finish_blip w l off =
    Settled-both (not w.holds) _ _
      (λ h. elim (Bool-cases w.unavailable_fails) [
        | inl y ↦ inr (ground arith)
        | inr n ↦ inl (ground arith)
      ])
      (λ h. elim (Bool-cases w.unavailable_fails) [
        | inl y ↦ inr (inl (ground arith, ground arith))
        | inr n ↦ inl (ground arith, ground arith)
      ])

Settled-blip :
    (s : Settings) (w : Round) (l : Loop) (a : Available)
    → Quiet l.presences
    → l.pending_off ≡ false
    → Settled (blip s w l a)
unfolding blip await_name named
Settled-blip s w l no_push_name q off = Kept-Quiet l.presences l.pending_off q off
Settled-blip s w l send_failed q off = Settled-undo_failed s w (named l) q off
Settled-blip s w l sent q off = Settled-finish_blip w (named l) off

Settled-work :
    (s : Settings) (w : Round) (l : Loop)
    → Quiet l.presences
    → l.pending_off ≡ false
    → Settled (work s w l)
unfolding work attempt forget_future note_ready
Settled-work s w l q off =
    let still = Kept-Quiet l.presences l.pending_off q off in
    Settled-both (not w.is_ready) _ _ (λ r. still)
      (λ r.
        Settled-both (too_early s w.now (note_ready w.now (forget_future s w.now l))) _ _
          (λ e. still)
          (λ e. Settled-blip s w (note_ready w.now (forget_future s w.now l)) w.available q off))

leaves_off :
    (w : Round) (l : Loop) (b : Bool)
    → Kept l.presences b
    → Settled (returns (if b then mark_unavailable w l else l))
leaves_off w l true h = Ended-mark_unavailable w l
leaves_off w l false h = Ended-Quiet l.presences (Quiet-Kept l.presences false h refl)

Settled-pass :
    (s : Settings) (w : Round) (l : Loop) → Kept l.presences l.pending_off → Settled (pass s w l)
unfolding pass
Settled-pass s w l h =
    Settled-both (not w.polled) _ _ (λ p. leaves_off w l l.pending_off h)
      (λ p.
        Settled-both l.pending_off _ _
          (λ on. Kept-retry_off w l (in_use-pending l.presences l.pending_off h on))
          (λ off. Settled-work s w l (Quiet-Kept l.presences l.pending_off h off) off))

-- Over any passes of the loop, from a state that meets the next two conditions. While the loop runs it
-- remembers to take the mark back exactly where an `available` went out and no `unavailable` is known
-- to have followed; it remembers nothing of a failed `available`, which may have gone out, so the mark
-- may stand unremembered, but only where the last thing tried was to take it back, and that failed.
-- When the loop ends, no `available` may have gone out after the last `unavailable` that did, or
-- taking the mark back was the last thing it tried.
pub Settled-run :
    (s : Settings) (ws : List Round) (l : Loop)
    → Kept l.presences l.pending_off
    → Settled (run s ws l)
unfolding run
Settled-run s [] l h = h
Settled-run s (w ∷ ws) l h =
    onward (run s ws) (λ l k. Settled-run s ws l k) (pass s w l) (Settled-pass s w l h)
