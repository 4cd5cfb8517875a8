-- ===== src/Polls/Pending.antt =====
-- Which votes of the history are overtaken.
use whatsapp_mcp.Prelude.{
  ℕ, ◌≡◌, refl, ap, sym, ◌∙◌, String, str_eq, eq_iff, eq_refl, Bool, true, false, not, ◌&&◌, ◌||◌,
  Option, none, some, List, [], ◌∷◌, ◌++◌, ltb, leb, ◌==◌, if◌then◌else◌, if_both, arith,
  Bool-cases, inl, inr,
}
use whatsapp_mcp.Polls.{
  Work, Waiting, pending_of, drop_key, register_if, settle, observe_vote, is_same, release_votes,
  Turn, observed, released, turn, turns,
}

unfoldable pub has_number : ℕ → List ℕ → Bool
has_number n [] = false
has_number n (m ∷ ms) = m == n || has_number n ms

-- Each vote of the turns is another one, and not later than `v` if it is of the same voter.
abbrev pub is_not_later : Work → Work → Bool
is_not_later v w = not (w.number == v.number) && (not (str_eq w.key v.key) || leb w.at v.at)

-- The same, and earlier.
abbrev pub is_earlier : Work → Work → Bool
is_earlier v w = not (w.number == v.number) && (not (str_eq w.key v.key) || ltb w.at v.at)

unfoldable pub all_observed : (Work → Bool) → List Turn → Bool
all_observed p [] = true
all_observed p (observed register w ∷ ts) = p w && all_observed p ts
all_observed p (released ws ∷ ts) = all_observed p ts

unfoldable all_pending : (Work → Bool) → List Work → Bool
all_pending p [] = true
all_pending p (w ∷ ws) = p w && all_pending p ws

all_pending-drop_key :
    (p : Work → Bool) (key : String) (ws : List Work)
    → all_pending p ws ≡ true
    → all_pending p (drop_key key ws) ≡ true
unfolding all_pending drop_key
all_pending-drop_key p key [] h = refl
all_pending-drop_key p key (w ∷ ws) h = ground (arith, h, all_pending-drop_key p key ws)

abbrev Found : (Work → Bool) → String → Option Work → Type 0
Found p key none = Unit
Found p key (some w) = (p w ≡ true) × (str_eq w.key key ≡ true)

pending_of-Found :
    (p : Work → Bool) (key : String) (ws : List Work)
    → all_pending p ws ≡ true
    → Found p key (pending_of key ws)
unfolding all_pending pending_of
pending_of-Found p key [] h = tt
pending_of-Found p key (w ∷ ws) h =
    if_both (Found p key) (str_eq w.key key) _ _ (λ k. (ground (arith, h), k))
      (λ _. pending_of-Found p key ws (ground (arith, h)))

-- The pending votes pass the test, and the vote is not superseded.
abbrev IsKept : (Work → Bool) → Work → Waiting → Type 0
IsKept p v s = (all_pending p s.pending ≡ true) × (has_number v.number s.superseded ≡ false)

register_if-IsKept :
    (p : Work → Bool) (v w : Work) (register : Bool) (s : Waiting)
    → p w ≡ true
    → IsKept p v s
    → IsKept p v (register_if register w s)
unfolding all_pending
register_if-IsKept p v w register s h k =
    if_both (IsKept p v) register _ _
      (λ _. (ground (arith, h, all_pending-drop_key p w.key s.pending (k.0)), k.1)) (λ _. k)

release_votes-IsKept :
    (p : Work → Bool) (v : Work) (ws : List Work) (s : Waiting)
    → IsKept p v s
    → IsKept p v (release_votes ws s)
unfolding release_votes
release_votes-IsKept p v [] s k = k
release_votes-IsKept p v (w ∷ ws) s k = release_votes-IsKept p v ws _ (
    if_both (IsKept p v) (is_same w (pending_of w.key s.pending)) _ _
      (λ _. (all_pending-drop_key p w.key s.pending (k.0), k.1)) (λ _. k))

-- The vote that is given up is not `v`.
abbrev Overtakes : Work → Work → Option Work → Type 0
Overtakes v w none = Unit
Overtakes v w (some previous) =
    (if ltb w.at previous.at then w.number == v.number else previous.number == v.number) ≡ false

-- One observed vote, where neither it nor the pending one that it overtakes is `v`.
settle-IsKept :
    (p : Work → Bool) (v w : Work) (register : Bool) (o : Option Work) (s : Waiting)
    → p w ≡ true
    → Overtakes v w o
    → IsKept p v s
    → IsKept p v (settle register w o s)
unfolding has_number
settle-IsKept p v w register none s h o k = register_if-IsKept p v w register s h k
settle-IsKept p v w register (some previous) s h o k =
    if_both (IsKept p v) (ltb w.at previous.at) _ _ (λ l. (k.0, ground (arith, l, k.1, o)))
      (λ l.
        register_if-IsKept p v w register _ h
          (all_pending-drop_key p w.key s.pending (k.0), ground (arith, l, k.1, o)))

-- Of the votes that are pending, only `v` has its number.
abbrev is_itself : Work → Work → Bool
is_itself v w = not (w.number == v.number) || (str_eq w.key v.key && w.at == v.at)

Overtakes-before :
    (v w : Work) (o : Option Work)
    → is_not_later v w ≡ true
    → Found (is_not_later v) w.key o
    → Overtakes v w o
Overtakes-before v w none h f = tt
Overtakes-before v w (some previous) h f = ground (arith, h, f.0)

Overtakes-now : (v : Work) (o : Option Work) → Found (is_not_later v) v.key o → Overtakes v v o
Overtakes-now v none f = tt
Overtakes-now v (some previous) f = ground (arith, f.0, f.1)

Overtakes-after :
    (v w : Work) (o : Option Work)
    → is_earlier v w ≡ true
    → Found (is_itself v) w.key o
    → Overtakes v w o
Overtakes-after v w none h f = tt
Overtakes-after v w (some previous) h f = elim (Bool-cases (previous.number == v.number)) [
  | inl e ↦
      let key : str_eq w.key v.key ≡ true = (eq_iff w.key v.key).1 (
        sym ((eq_iff previous.key w.key).0 (f.1))
        ∙ (eq_iff previous.key v.key).0 (ground (arith, f.0, e))) in
      ground (arith, h, f.0, e, key)
  | inr e ↦ ground (arith, h, e)
]

all_pending-itself :
    (v : Work) (ws : List Work)
    → all_pending (is_not_later v) ws ≡ true
    → all_pending (is_itself v) ws ≡ true
unfolding all_pending
all_pending-itself v [] h = refl
all_pending-itself v (w ∷ ws) h = ground (arith, h, all_pending-itself v ws)

before_it :
    (v : Work) (ts : List Turn) (s : Waiting)
    → all_observed (is_not_later v) ts ≡ true
    → IsKept (is_not_later v) v s
    → IsKept (is_not_later v) v (turns ts s)
unfolding all_observed turns turn observe_vote
before_it v [] s h k = k
before_it v (observed register w ∷ ts) s h k = before_it v ts _ (ground (arith, h)) (
    settle-IsKept (is_not_later v) v w register (pending_of w.key s.pending) s (ground (arith, h))
      (Overtakes-before v w (pending_of w.key s.pending) (ground (arith, h))
        (pending_of-Found (is_not_later v) w.key s.pending (k.0)))
      k)
before_it v (released ws ∷ ts) s h k =
    before_it v ts _ h (release_votes-IsKept (is_not_later v) v ws s k)

after_it :
    (v : Work) (ts : List Turn) (s : Waiting)
    → all_observed (is_earlier v) ts ≡ true
    → IsKept (is_itself v) v s
    → IsKept (is_itself v) v (turns ts s)
unfolding all_observed turns turn observe_vote
after_it v [] s h k = k
after_it v (observed register w ∷ ts) s h k = after_it v ts _ (ground (arith, h)) (
    settle-IsKept (is_itself v) v w register (pending_of w.key s.pending) s (ground (arith, h))
      (Overtakes-after v w (pending_of w.key s.pending) (ground (arith, h))
        (pending_of-Found (is_itself v) w.key s.pending (k.0)))
      k)
after_it v (released ws ∷ ts) s h k =
    after_it v ts _ h (release_votes-IsKept (is_itself v) v ws s k)

now_it :
    (v : Work) (register : Bool) (s : Waiting)
    → IsKept (is_not_later v) v s
    → IsKept (is_itself v) v (observe_vote register v s)
unfolding observe_vote
now_it v register s k =
    settle-IsKept (is_itself v) v v register (pending_of v.key s.pending) s
      (ground (arith, eq_refl v.key))
      (Overtakes-now v (pending_of v.key s.pending)
        (pending_of-Found (is_not_later v) v.key s.pending (k.0)))
      (all_pending-itself v s.pending (k.0), k.1)

abbrev pub idle : Waiting
idle = record { pending = []; superseded = [] }

idle-IsKept : (v : Work) → IsKept (is_not_later v) v idle
unfolding all_pending has_number
idle-IsKept v = (refl, refl)

pub turns-append :
    (pre post : List Turn) (s : Waiting) → turns (pre ++ post) s ≡ turns post (turns pre s)
unfolding turns
turns-append [] post s = refl
turns-append (t ∷ ts) post s = turns-append ts post (turn t s)

-- In any order of observed and released votes: the vote of a voter that is at least as late as the
-- votes observed before it and later than those observed after it is never superseded, so that its
-- selection is the one that may be stored.
pub latest-unsuperseded :
    (v : Work) (register : Bool) (pre post : List Turn)
    → all_observed (is_not_later v) pre ≡ true
    → all_observed (is_earlier v) post ≡ true
    → has_number v.number (turns (pre ++ observed register v ∷ post) idle).superseded ≡ false
unfolding turns turn
latest-unsuperseded v register pre post h l =
    ap (λ s. has_number v.number s.superseded) (turns-append pre (observed register v ∷ post) idle)
    ∙ (after_it v post _ l (now_it v register _ (before_it v pre idle h (idle-IsKept v)))).1
