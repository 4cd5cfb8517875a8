-- ===== src/MediaRetry/Memory.antt =====
-- What the memory answers after a failed retry.
use whatsapp_mcp.Prelude.{
  ℕ, ◌+◌, ◌≤◌, ◌<◌, true, false, ◌≡◌, ◌⊎◌, refl, sym, ap, subst, ◌∙◌, Option, none, some, List, [],
  ◌∷◌, length, arith, inl, inr, Bool-cases, ltb,
}
use whatsapp_mcp.MediaRetry.{
  Fault, backoff, Key, Row, Cooldown, same_key, find, delete, answer_of, active, cooldown_max,
  wait_of, row_of, make_room, note, forget, Call, ask, fail, bring, step, run,
}
use whatsapp_mcp.MediaRetry.Bounds.{length-answer_of, length-delete, same_key_refl, same_key_to}

-- A call that leaves the memory of `k` alone: it is about another message, or it asks about `k`
-- before `until`.
abbrev pub IsQuiet : Key → ℕ → Call → Type 0
IsQuiet k until (ask q now) = (same_key q k ≡ false) ⊎ (now < until)
IsQuiet k until (fail q e now) = same_key q k ≡ false
IsQuiet k until (bring q) = same_key q k ≡ false

abbrev pub AllQuiet : Key → ℕ → List Call → Type 0
AllQuiet k until [] = Unit
AllQuiet k until (e ∷ es) = IsQuiet k until e × AllQuiet k until es

other_row :
    (q k : Key) (r : Row)
    → same_key q k ≡ false
    → same_key r.key q ≡ true
    → same_key r.key k ≡ false
other_row q k r o h = subst (λ x. same_key x k ≡ false) (sym (same_key_to r.key q h)) o

find-delete : (q k : Key) (c : Cooldown) → same_key q k ≡ false → find k (delete q c) ≡ find k c
unfolding find delete
find-delete q k [] o = refl
find-delete q k (r ∷ rs) o = ground (arith, find-delete q k rs o, other_row q k r o)

find-answer_of :
    (q k : Key) (now : ℕ) (c : Cooldown) (o : Option Row)
    → same_key q k ≡ false
    → find k (answer_of q now c o).1 ≡ find k c
unfolding answer_of
find-answer_of q k now c none h = refl
find-answer_of q k now c (some r) h = ground (arith, find-delete q k c h)

-- With room for one more row nothing is evicted.
make_room_lem : (k : Key) (now : ℕ) (c : Cooldown) → length c < cooldown_max → make_room k now c ≡ c
unfolding make_room
make_room_lem k now c h = ground arith

find-row_of :
    (q k : Key) (e : Fault) (now : ℕ) (c : Cooldown)
    → same_key q k ≡ false
    → find k (row_of q e now ∷ c) ≡ find k c
unfolding find row_of
find-row_of q k e now c o = ground arith

asked_early :
    (k : Key) (now : ℕ) (c : Cooldown) (r : Row)
    → now < r.until
    → (answer_of k now c (some r)).1 ≡ c
unfolding answer_of
asked_early k now c r h = ground arith

find-step :
    (k : Key) (r : Row) (e : Call) (c : Cooldown)
    → IsQuiet k r.until e
    → length c < cooldown_max
    → find k c ≡ some r
    → find k (step e c) ≡ some r
unfolding step active note forget
find-step k r (ask q now) c (inl o) room h = find-answer_of q k now c (find q c) o ∙ h
find-step k r (ask q now) c (inr early) room h = elim (Bool-cases (same_key q k)) [
  | inr o ↦ find-answer_of q k now c (find q c) o ∙ h
  | inl y ↦
      subst (λ x. find k (answer_of x now c (find x c)).1 ≡ some r) (sym (same_key_to q k y))
        (subst (λ o. find k (answer_of k now c o).1 ≡ some r) (sym h)
          (ap (find k) (asked_early k now c r early) ∙ h))
]
find-step k r (fail q e now) c o room h =
    find-row_of q k e now (delete q (make_room q now c)) o
    ∙ (find-delete q k (make_room q now c) o ∙ (ap (find k) (make_room_lem q now c room) ∙ h))
find-step k r (bring q) c o room h = find-delete q k c o ∙ h

length-step_room :
    (e : Call) (c : Cooldown) → length c < cooldown_max → length (step e c) ≤ length c + 1
unfolding step active note forget
length-step_room (ask k now) c h = ground (arith, length-answer_of k now c (find k c))
length-step_room (fail k e now) c h = ground (arith, length-delete k c, make_room_lem k now c h)
length-step_room (bring k) c h = ground (arith, length-delete k c)

find-run :
    (k : Key) (r : Row) (es : List Call) (c : Cooldown)
    → AllQuiet k r.until es
    → length c + length es ≤ cooldown_max
    → find k c ≡ some r
    → find k (run es c) ≡ some r
unfolding run
find-run k r [] c q room h = h
find-run k r (e ∷ es) c (q, qs) room h =
    find-run k r es (step e c) qs (ground (arith, length-step_room e c))
      (find-step k r e c q (ground arith) h)

find-note :
    (k : Key) (e : Fault) (now : ℕ) (c : Cooldown)
    → find k (note k e now c).1 ≡ some (row_of k e now)
unfolding find note row_of
find-note k e now c = ground (arith, same_key_refl k)

answered :
    (k : Key) (t : ℕ) (c : Cooldown) (r : Row)
    → ltb t r.until ≡ true
    → (answer_of k t c (some r)).0 ≡ some (backoff r.until r.failure)
unfolding answer_of
answered k t c r early = ground arith

active-find :
    (k : Key) (t : ℕ) (c : Cooldown) (r : Row)
    → find k c ≡ some r
    → ltb t r.until ≡ true
    → (active k t c).0 ≡ some (backoff r.until r.failure)
unfolding active answer_of
active-find k t c r h early =
    subst (λ o. (answer_of k t c o).0 ≡ some (backoff r.until r.failure)) (sym h)
      (answered k t c r early)

-- After a failed retry of a message, any call about it before the end of its wait is answered with
-- that failure, over any calls about other messages and any questions about it before that end, as
-- long as the rows and the calls together stay within the bound of the memory.
pub active-remembers :
    (k : Key) (e : Fault) (now t : ℕ) (es : List Call) (c : Cooldown)
    → AllQuiet k (now + wait_of e) es
    → length (note k e now c).1 + length es ≤ cooldown_max
    → ltb t (now + wait_of e) ≡ true
    → (active k t (run es (note k e now c).1)).0 ≡ some (backoff (now + wait_of e) e)
unfolding row_of
active-remembers k e now t es c q room early =
    active-find k t (run es (note k e now c).1) (row_of k e now)
      (find-run k (row_of k e now) es (note k e now c).1 q room (find-note k e now c)) early
