-- ===== src/Keepalive/Due.antt =====
-- When a pass marks the device, and how far apart the marks are.
use whatsapp_mcp.Prelude.{
  ℕ, ◌+◌, Bool, true, false, not, ◌&&◌, ◌||◌, ◌≡◌, inl, inr, refl, List, ◌∷◌, arith, Bool-cases,
  if◌then◌else◌, ltb, leb, ◌==◌,
}
use whatsapp_mcp.Keepalive.{
  Settings, Available, sent, no_push_name, send_failed, Round, Presence, available_sent,
  available_failed, unavailable_sent, unavailable_failed, Loop, Pass, goes_on, returns,
  mark_unavailable, forget_future, note_ready, too_early, await_name, undo_failed, blip_sent,
  finish_blip, named, blip, attempt, work, pass,
}

abbrev pub loop_of : Pass → Loop
loop_of (goes_on l) = l
loop_of (returns l) = l

-- The session is ready and has been for the settling time, the last mark is as old as the interval,
-- a failed attempt as old as the pause; marks of the future do not count.
unfoldable pub is_due : Settings → Round → Loop → Bool
is_due s w l =
    w.is_ready
    && (leb
          ((if l.ready_since == 0 || ltb w.now l.ready_since then w.now else l.ready_since)
            + s.settle)
          w.now
        && ((l.last_blip == 0 || (ltb w.now l.last_blip || leb (l.last_blip + s.keepalive) w.now))
            && (leb l.not_before w.now || ltb (w.now + s.retry) l.not_before)))

abbrev pub off : Round → Presence
off w = if w.unavailable_fails then unavailable_failed else unavailable_sent

-- What a pass that makes an attempt adds, by how the send ended.
abbrev pub attempted : Round → List Presence → Available → List Presence
attempted w ps no_push_name = ps
attempted w ps send_failed = off w ∷ available_failed ∷ ps
attempted w ps sent = off w ∷ available_sent w.now ∷ ps

pub too_early-is_due :
    (s : Settings) (w : Round) (l : Loop)
    → w.is_ready ≡ true
    → too_early s w.now (note_ready w.now (forget_future s w.now l)) ≡ not (is_due s w l)
unfolding too_early note_ready forget_future is_due
too_early-is_due s w l r = ground arith

presences-blip :
    (s : Settings) (w : Round) (l : Loop) (a : Available)
    → (loop_of (blip s w l a)).presences ≡ attempted w l.presences a
unfolding blip await_name undo_failed mark_unavailable finish_blip blip_sent named
presences-blip s w l no_push_name = refl
presences-blip s w l send_failed = ground arith
presences-blip s w l sent = ground arith

presences-attempt :
    (s : Settings) (w : Round) (l : Loop)
    → (loop_of (attempt s w l)).presences
      ≡ (if too_early s w.now l then l.presences else attempted w l.presences w.available)
unfolding attempt
presences-attempt s w l = ground (arith, presences-blip s w l w.available)

pub presences-seen :
    (s : Settings) (now : ℕ) (l : Loop)
    → (note_ready now (forget_future s now l)).presences ≡ l.presences
unfolding note_ready forget_future
presences-seen s now l = refl

presences-forget_future :
    (s : Settings) (now : ℕ) (l : Loop) → (forget_future s now l).presences ≡ l.presences
unfolding forget_future
presences-forget_future s now l = refl

pub not_due : (s : Settings) (w : Round) (l : Loop) → w.is_ready ≡ false → is_due s w l ≡ false
unfolding is_due
not_due s w l r = ground arith

-- A pass after a full poll, with no mark left to take back, tries to mark the device exactly where
-- an attempt is due, and always follows an attempt that was sent or failed by taking the mark back.
pub presences-pass :
    (s : Settings) (w : Round) (l : Loop)
    → w.polled ≡ true
    → l.pending_off ≡ false
    → (loop_of (pass s w l)).presences
      ≡ (if is_due s w l then attempted w l.presences w.available else l.presences)
unfolding pass work
presences-pass s w l p off = elim (Bool-cases w.is_ready) [
  | inl r ↦ ground (
    arith,
    too_early-is_due s w l r,
    presences-seen s w.now l,
    presences-attempt s w (note_ready w.now (forget_future s w.now l)),
  )
  | inr r ↦ ground (arith, not_due s w l r, presences-forget_future s w.now l)
]
