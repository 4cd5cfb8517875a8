-- ===== src/Polls/Overtaken.antt =====
-- A vote that waits does not replace a later one.
use whatsapp_mcp.Prelude.{
  ℕ, ◌≤◌, ◌≡◌, refl, ap, sym, subst, ◌∙◌, String, str_eq, eq_iff, eq_refl, Bool, true, false, not,
  ◌&&◌, Option, none, some, List, [], ◌∷◌, ◌++◌, ltb, ◌==◌, if◌then◌else◌, if_both, arith,
  Bool-cases, inl, inr, ◌⊎◌,
}
use whatsapp_mcp.Polls.{
  Work, Waiting, pending_of, drop_key, register_if, settle, observe_vote, is_same, release_votes,
  Turn, observed, released, turn, turns,
}
use whatsapp_mcp.Polls.Pending.{has_number, turns-append}

-- Whether none of the votes is the one of this number.
unfoldable pub none_is : ℕ → List Work → Bool
none_is n [] = true
none_is n (w ∷ ws) = not (w.number == n) && none_is n ws

unfoldable pub is_held : ℕ → List Turn → Bool
is_held n [] = true
is_held n (observed register w ∷ ts) = is_held n ts
is_held n (released ws ∷ ts) = none_is n ws && is_held n ts

-- The vote is superseded or the pending one of its voter.
abbrev Waits : Work → Waiting → Type 0
Waits v s = (has_number v.number s.superseded ≡ true) ⊎ (pending_of v.key s.pending ≡ some v)

pending_of-drop_key :
    (key other : String) (ws : List Work)
    → str_eq other key ≡ false
    → pending_of key (drop_key other ws) ≡ pending_of key ws
unfolding pending_of drop_key
pending_of-drop_key key other [] h = refl
pending_of-drop_key key other (w ∷ ws) h = elim (Bool-cases (str_eq w.key other)) [
  | inl e ↦
      let apart : str_eq w.key key ≡ false =
        subst (λ k. str_eq k key ≡ false) (sym ((eq_iff w.key other).0 e)) h in
      ground (arith, e, apart, pending_of-drop_key key other ws h)
  | inr e ↦ ground (arith, e, pending_of-drop_key key other ws h)
]

register_if-pending :
    (v w : Work) (register : Bool) (s : Waiting)
    → str_eq w.key v.key ≡ false
    → pending_of v.key s.pending ≡ some v
    → pending_of v.key (register_if register w s).pending ≡ some v
unfolding pending_of
register_if-pending v w register s h p =
    if_both (λ (t : Waiting). pending_of v.key t.pending ≡ some v) register _ _
      (λ _. ground (arith, h, pending_of-drop_key v.key w.key s.pending h, p)) (λ _. p)

register_if-superseded :
    (w : Work) (register : Bool) (s : Waiting)
    → (register_if register w s).superseded ≡ s.superseded
register_if-superseded w true s = refl
register_if-superseded w false s = refl

settle-superseded :
    (n : ℕ) (w : Work) (register : Bool) (o : Option Work) (s : Waiting)
    → has_number n s.superseded ≡ true
    → has_number n (settle register w o s).superseded ≡ true
unfolding has_number
settle-superseded n w register none s h =
    ap (has_number n) (register_if-superseded w register s) ∙ h
settle-superseded n w register (some previous) s h =
    if_both (λ (t : Waiting). has_number n t.superseded ≡ true) (ltb w.at previous.at) _ _
      (λ _. ground (arith, h))
      (λ _. ap (has_number n) (register_if-superseded w register _) ∙ ground (arith, h))

marked :
    (n : ℕ) (w : Work) (register : Bool) (ws : List Work) (ns : List ℕ)
    → has_number n
        (register_if register w (record { pending = ws; superseded = n ∷ ns })).superseded
      ≡ true
unfolding has_number
marked n w register ws ns = ap (has_number n) (register_if-superseded w register _) ∙ ground arith

settle_other :
    (v w : Work) (register : Bool) (o : Option Work) (s : Waiting)
    → str_eq w.key v.key ≡ false
    → pending_of v.key s.pending ≡ some v
    → Waits v (settle register w o s)
settle_other v w register none s e p = inr (register_if-pending v w register s e p)
settle_other v w register (some previous) s e p =
    if_both (Waits v) (ltb w.at previous.at) _ _ (λ _. inr p)
      (λ _.
        inr
          (register_if-pending v w register _ e (pending_of-drop_key v.key w.key s.pending e ∙ p)))

observe-Waits :
    (v w : Work) (register : Bool) (s : Waiting) → Waits v s → Waits v (observe_vote register w s)
unfolding observe_vote
observe-Waits v w register s (inl h) =
    inl (settle-superseded v.number w register (pending_of w.key s.pending) s h)
observe-Waits v w register s (inr p) = elim (Bool-cases (str_eq w.key v.key)) [
  | inl e ↦
      let same : pending_of w.key s.pending ≡ some v =
        ap (λ k. pending_of k s.pending) ((eq_iff w.key v.key).0 e) ∙ p in
      subst (λ o. Waits v (settle register w o s)) (sym same)
        (if_both (Waits v) (ltb w.at v.at) _ _ (λ _. inr p)
          (λ _. inl (marked v.number w register (drop_key w.key s.pending) s.superseded)))
  | inr e ↦ settle_other v w register (pending_of w.key s.pending) s e p
]

release-Waits :
    (v : Work) (ws : List Work) (s : Waiting)
    → none_is v.number ws ≡ true
    → Waits v s
    → Waits v (release_votes ws s)
unfolding release_votes none_is
release-Waits v [] s h k = k
release-Waits v (w ∷ ws) s h (inl k) =
    release-Waits v ws _ (ground (arith, h))
      (if_both (Waits v) (is_same w (pending_of w.key s.pending)) _ _ (λ _. inl k) (λ _. inl k))
release-Waits v (w ∷ ws) s h (inr p) =
    release-Waits v ws _ (ground (arith, h)) (elim (Bool-cases (str_eq w.key v.key)) [
      | inl e ↦
          let same : pending_of w.key s.pending ≡ some v =
            ap (λ k. pending_of k s.pending) ((eq_iff w.key v.key).0 e) ∙ p in
          let other : is_same w (pending_of w.key s.pending) ≡ false =
            ap (is_same w) same ∙ ground (arith, h) in
          subst (λ b. Waits v (if b then record s { pending = drop_key w.key s.pending } else s))
            (sym other) (inr p)
      | inr e ↦
          if_both (Waits v) (is_same w (pending_of w.key s.pending)) _ _
            (λ _. inr (pending_of-drop_key v.key w.key s.pending e ∙ p)) (λ _. inr p)
    ])

turns-Waits :
    (v : Work) (ts : List Turn) (s : Waiting)
    → is_held v.number ts ≡ true
    → Waits v s
    → Waits v (turns ts s)
unfolding turns turn is_held
turns-Waits v [] s h k = k
turns-Waits v (observed register w ∷ ts) s h k =
    turns-Waits v ts _ h (observe-Waits v w register s k)
turns-Waits v (released ws ∷ ts) s h k =
    turns-Waits v ts _ (ground (arith, h)) (release-Waits v ws s (ground (arith, h)) k)

registered : (v : Work) (o : Option Work) (s : Waiting) → Waits v (settle true v o s)
unfolding pending_of has_number
registered v none s = inr (ground (arith, eq_refl v.key))
registered v (some previous) s =
    if_both (Waits v) (ltb v.at previous.at) _ _ (λ _. inl (ground arith))
      (λ _. inr (ground (arith, eq_refl v.key)))

overtaken :
    (v w : Work) (register : Bool) (s : Waiting)
    → str_eq w.key v.key ≡ true
    → v.at ≤ w.at
    → Waits v s
    → has_number v.number (observe_vote register w s).superseded ≡ true
unfolding observe_vote
overtaken v w register s e l (inl h) =
    settle-superseded v.number w register (pending_of w.key s.pending) s h
overtaken v w register s e l (inr p) =
    let same : pending_of w.key s.pending ≡ some v =
      ap (λ k. pending_of k s.pending) ((eq_iff w.key v.key).0 e) ∙ p in
    subst (λ o. has_number v.number (settle register w o s).superseded ≡ true) (sym same)
      (if_both (λ (t : Waiting). has_number v.number t.superseded ≡ true) (ltb w.at v.at) _ _
        (λ h. ground (arith, h, l))
        (λ _. marked v.number w register (drop_key w.key s.pending) s.superseded))

-- A vote that was observed to wait and is not released is superseded once a vote of the same voter is
-- observed that is not earlier, whatever is observed and released in between: it cannot replace it.
pub overtaken-superseded :
    (v w : Work) (register : Bool) (between : List Turn) (s : Waiting)
    → is_held v.number between ≡ true
    → str_eq w.key v.key ≡ true
    → v.at ≤ w.at
    → has_number v.number
        (turns (observed true v ∷ between ++ observed register w ∷ []) s).superseded
      ≡ true
unfolding turns turn observe_vote
overtaken-superseded v w register between s h e l =
    ap (λ t. has_number v.number t.superseded)
      (turns-append between (observed register w ∷ []) (observe_vote true v s))
    ∙ overtaken v w register _ e l
        (turns-Waits v between _ h (registered v (pending_of v.key s.pending) s))
