-- ===== src/Keepalive/Spacing.antt =====
-- How far apart the device is marked as in use.
use whatsapp_mcp.Prelude.{
  ℕ, ◌+◌, ◌≤◌, true, false, ◌≡◌, ◌⊎◌, inl, inr, refl, sym, ap, subst, ◌∙◌, List, [], ◌∷◌, arith,
  Bool-cases, if◌then◌else◌, ◌==◌,
}
use whatsapp_mcp.Keepalive.{
  Settings, Available, sent, no_push_name, send_failed, Round, Presence, available_sent,
  available_failed, unavailable_sent, unavailable_failed, Loop, Pass, goes_on, returns,
  mark_unavailable, retry_off, forget_future, note_ready, too_early, await_name, undo_failed,
  blip_sent, finish_blip, named, blip, attempt, work, pass,
}
use whatsapp_mcp.Keepalive.Due.{
  loop_of, is_due, off, attempted, presences-pass, too_early-is_due, not_due,
}
use whatsapp_mcp.Keepalive.Mark.{run, next_pass}

-- The times at which the device was marked, the latest first.
unfoldable pub blips : List Presence → List ℕ
blips [] = []
blips (available_sent t ∷ ps) = t ∷ blips ps
blips (available_failed ∷ ps) = blips ps
blips (unavailable_sent ∷ ps) = blips ps
blips (unavailable_failed ∷ ps) = blips ps

abbrev pub Gap : ℕ → ℕ → List ℕ → Type 0
Gap k t [] = Unit
Gap k t (u ∷ us) = (u + k ≤ t) × Gap k u us

-- Each mark is at least `k` later than the one before it.
abbrev pub AllApart : ℕ → List ℕ → Type 0
AllApart k [] = Unit
AllApart k (t ∷ ts) = Gap k t ts

-- The clock never steps back, and starts at `t`.
abbrev pub Timed : ℕ → List Round → Type 0
Timed t [] = Unit
Timed t (w ∷ ws) = (t ≤ w.now) × Timed w.now ws

abbrev blipped : ℕ → ℕ → Available → ℕ
blipped now last sent = now
blipped now last no_push_name = last
blipped now last send_failed = last

last_blip-blip :
    (s : Settings) (w : Round) (l : Loop) (a : Available)
    → (loop_of (blip s w l a)).last_blip ≡ blipped w.now l.last_blip a
unfolding blip await_name undo_failed mark_unavailable finish_blip blip_sent named
last_blip-blip s w l no_push_name = refl
last_blip-blip s w l send_failed = ground arith
last_blip-blip s w l sent = ground arith

last_blip-attempt :
    (s : Settings) (w : Round) (l : Loop)
    → (loop_of (attempt s w l)).last_blip
      ≡ (if too_early s w.now l then l.last_blip else blipped w.now l.last_blip w.available)
unfolding attempt
last_blip-attempt s w l = ground (arith, last_blip-blip s w l w.available)

last_blip-seen :
    (s : Settings) (now : ℕ) (l : Loop)
    → l.last_blip ≤ now
    → (note_ready now (forget_future s now l)).last_blip ≡ l.last_blip
unfolding note_ready forget_future
last_blip-seen s now l h = ground arith

last_blip-forget_future :
    (s : Settings) (now : ℕ) (l : Loop)
    → l.last_blip ≤ now
    → (forget_future s now l).last_blip ≡ l.last_blip
unfolding forget_future
last_blip-forget_future s now l h = ground arith

last_blip-pass :
    (s : Settings) (w : Round) (l : Loop)
    → w.polled ≡ true
    → l.pending_off ≡ false
    → l.last_blip ≤ w.now
    → (loop_of (pass s w l)).last_blip
      ≡ (if is_due s w l then blipped w.now l.last_blip w.available else l.last_blip)
unfolding pass work
last_blip-pass s w l p off h = elim (Bool-cases w.is_ready) [
  | inl r ↦ ground (
    arith,
    too_early-is_due s w l r,
    last_blip-seen s w.now l h,
    last_blip-attempt s w (note_ready w.now (forget_future s w.now l)),
  )
  | inr r ↦ ground (arith, not_due s w l r, last_blip-forget_future s w.now l h)
]

blips-off : (w : Round) (ps : List Presence) → blips (off w ∷ ps) ≡ blips ps
unfolding blips
blips-off w ps = ground arith

due_since :
    (s : Settings) (w : Round) (l : Loop)
    → is_due s w l ≡ true
    → l.last_blip ≤ w.now
    → (l.last_blip ≡ 0) ⊎ (l.last_blip + s.keepalive ≤ w.now)
unfolding is_due
due_since s w l d h = elim (Bool-cases (l.last_blip == 0)) [
  | inl z ↦ inl (ground arith)
  | inr n ↦ inr (ground arith)
]

-- What a pass does to the last mark and to the marks before it.
abbrev Moved : Settings → Round → Loop → Loop → Type 0
Moved s w l l' =
    ((blips l'.presences ≡ blips l.presences) × (l'.last_blip ≡ l.last_blip))
    ⊎ ((blips l'.presences ≡ w.now ∷ blips l.presences)
        × (l'.last_blip ≡ w.now)
        × ((l.last_blip ≡ 0) ⊎ (l.last_blip + s.keepalive ≤ w.now)))

Moved-attempted :
    (s : Settings) (w : Round) (l l' : Loop) (a : Available)
    → is_due s w l ≡ true
    → l.last_blip ≤ w.now
    → l'.presences ≡ attempted w l.presences a
    → l'.last_blip ≡ blipped w.now l.last_blip a
    → Moved s w l l'
unfolding blips
Moved-attempted s w l l' no_push_name d h p b = inl (ap blips p, b)
Moved-attempted s w l l' send_failed d h p b =
    inl (ap blips p ∙ blips-off w (available_failed ∷ l.presences), b)
Moved-attempted s w l l' sent d h p b =
    inr (ap blips p ∙ blips-off w (available_sent w.now ∷ l.presences), b, due_since s w l d h)

Moved-work :
    (s : Settings) (w : Round) (l : Loop)
    → w.polled ≡ true
    → l.pending_off ≡ false
    → l.last_blip ≤ w.now
    → Moved s w l (loop_of (pass s w l))
Moved-work s w l p o h = elim (Bool-cases (is_due s w l)) [
  | inr n ↦ inl (
    ap blips (
        presences-pass s w l p o
        ∙ ap (λ b. if b then attempted w l.presences w.available else l.presences) n),
    last_blip-pass s w l p o h
        ∙ ap (λ b. if b then blipped w.now l.last_blip w.available else l.last_blip) n,
  )
  | inl d ↦
      Moved-attempted s w l (loop_of (pass s w l)) w.available d h
        (presences-pass s w l p o
          ∙ ap (λ b. if b then attempted w l.presences w.available else l.presences) d)
        (last_blip-pass s w l p o h
          ∙ ap (λ b. if b then blipped w.now l.last_blip w.available else l.last_blip) d)
]

blips-mark_unavailable :
    (w : Round) (l : Loop) → blips (mark_unavailable w l).presences ≡ blips l.presences
unfolding mark_unavailable blips
blips-mark_unavailable w l = ground arith

last_blip-mark_unavailable : (w : Round) (l : Loop) → (mark_unavailable w l).last_blip ≡ l.last_blip
unfolding mark_unavailable
last_blip-mark_unavailable w l = refl

Moved-retry_off :
    (s : Settings) (w : Round) (l : Loop)
    → w.polled ≡ true
    → l.pending_off ≡ true
    → Moved s w l (loop_of (pass s w l))
unfolding pass retry_off
Moved-retry_off s w l p on =
    inl (ground (arith, blips-mark_unavailable w l), ground (arith, last_blip-mark_unavailable w l))

Moved-stop :
    (s : Settings) (w : Round) (l : Loop) → w.polled ≡ false → Moved s w l (loop_of (pass s w l))
unfolding pass
Moved-stop s w l p =
    inl (ground (arith, blips-mark_unavailable w l), ground (arith, last_blip-mark_unavailable w l))

Moved-pass :
    (s : Settings) (w : Round) (l : Loop) → l.last_blip ≤ w.now → Moved s w l (loop_of (pass s w l))
Moved-pass s w l h = elim (Bool-cases w.polled) [
  | inr p ↦ Moved-stop s w l p
  | inl p ↦ elim (Bool-cases l.pending_off) [
    | inl on ↦ Moved-retry_off s w l p on
    | inr o ↦ Moved-work s w l p o h
  ]
]

-- The latest mark is the one that the loop remembers.
abbrev Fits : ℕ → ℕ → List ℕ → Type 0
Fits k last [] = Unit
Fits k last (t ∷ ts) = (t ≡ last) × (1 ≤ t) × Gap k t ts

Gap-Fits :
    (k last now : ℕ) (ts : List ℕ) → Fits k last ts → (last ≡ 0) ⊎ (last + k ≤ now) → Gap k now ts
Gap-Fits k last now [] f d = tt
Gap-Fits k last now (t ∷ ts) (e, one, g) (inl z) = absurd (ground arith)
Gap-Fits k last now (t ∷ ts) (e, one, g) (inr late) = (ground arith, g)

Fits-Moved :
    (s : Settings) (w : Round) (l l' : Loop)
    → 1 ≤ w.now
    → Moved s w l l'
    → Fits s.keepalive l.last_blip (blips l.presences)
    → Fits s.keepalive l'.last_blip (blips l'.presences)
Fits-Moved s w l l' one (inl (b, e)) f =
    subst (λ ts. Fits s.keepalive l'.last_blip ts) (sym b)
      (subst (λ t. Fits s.keepalive t (blips l.presences)) (sym e) f)
Fits-Moved s w l l' one (inr (b, e, d)) f =
    subst (λ ts. Fits s.keepalive l'.last_blip ts) (sym b)
      (sym e, one, Gap-Fits s.keepalive l.last_blip w.now (blips l.presences) f d)

Moved-past :
    (s : Settings) (w : Round) (l l' : Loop)
    → l.last_blip ≤ w.now
    → Moved s w l l'
    → l'.last_blip ≤ w.now
Moved-past s w l l' h (inl (b, e)) = ground arith
Moved-past s w l l' h (inr (b, e, d)) = ground arith

AllApart-Fits : (k last : ℕ) (ts : List ℕ) → Fits k last ts → AllApart k ts
AllApart-Fits k last [] f = tt
AllApart-Fits k last (t ∷ ts) (e, one, g) = g

AllApart-next_pass :
    (k : ℕ) (f : Loop → Pass) (p : Pass)
    → AllApart k (blips (loop_of (f (loop_of p))).presences)
    → AllApart k (blips (loop_of p).presences)
    → AllApart k (blips (loop_of (next_pass f p)).presences)
unfolding next_pass
AllApart-next_pass k f (goes_on l) a b = a
AllApart-next_pass k f (returns l) a b = b

Fits-run :
    (s : Settings) (t : ℕ) (ws : List Round) (l : Loop)
    → 1 ≤ t
    → Timed t ws
    → l.last_blip ≤ t
    → Fits s.keepalive l.last_blip (blips l.presences)
    → AllApart s.keepalive (blips (loop_of (run s ws l)).presences)
unfolding run
Fits-run s t [] l one timed past f = AllApart-Fits s.keepalive l.last_blip (blips l.presences) f
Fits-run s t (w ∷ ws) l one (le, timed) past f =
    let m = Moved-pass s w l (ground arith) in
    let l' = loop_of (pass s w l) in
    let f' = Fits-Moved s w l l' (ground arith) m f in
    AllApart-next_pass s.keepalive (run s ws) (pass s w l)
      (Fits-run s w.now ws l' (ground arith) timed (Moved-past s w l l' (ground arith) m) f')
      (AllApart-Fits s.keepalive l'.last_blip (blips l'.presences) f')

-- With a clock that does not step back, the device is marked at times that are apart by at least
-- the interval, over any passes of a loop that starts with a remembered mark of the past.
AllApart-run :
    (s : Settings) (t : ℕ) (ws : List Round) (l : Loop)
    → 1 ≤ t
    → Timed t ws
    → l.last_blip ≤ t
    → l.presences ≡ []
    → AllApart s.keepalive (blips (loop_of (run s ws l)).presences)
unfolding blips
AllApart-run s t ws l one timed past e =
    Fits-run s t ws l one timed past
      (subst (λ ps. Fits s.keepalive l.last_blip (blips ps)) (sym e) tt)
