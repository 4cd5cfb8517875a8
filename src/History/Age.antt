-- ===== src/History/Age.antt =====
-- The age guard drops the old rows and nothing else.
use whatsapp_mcp.Prelude.{
  ℕ, zero, suc, ◌+◌, ◌-◌, ◌≤◌, false, ◌≡◌, refl, sym, ap, ◌∙◌, Option, none, some, List, [], ◌∷◌,
  ◌++◌, length, arith, ◌==◌, if◌then◌else◌,
}
use whatsapp_mcp.History.{
  HistoryLimits, Row, Conversation, is_old_time, scan, take_rows, drop_rows, join_scans,
  scan_batches, add_conversation, scan_conversations, history_batch, bounded_history,
}

take_rows-drop_rows : (n : ℕ) (rs : List Row) → take_rows n rs ++ drop_rows n rs ≡ rs
unfolding take_rows drop_rows
take_rows-drop_rows n [] = refl
take_rows-drop_rows n (r ∷ rs) = ground (arith, take_rows-drop_rows (n - 1) rs)

length-drop_rows : (n : ℕ) (rs : List Row) → length (drop_rows n rs) ≤ length rs - n
unfolding drop_rows
length-drop_rows n [] = ground arith
length-drop_rows n (r ∷ rs) = ground (arith, length-drop_rows (n - 1) rs)

scan_parts :
    (cutoff : ℕ) (as' bs : List Row)
    → ((scan cutoff (as' ++ bs)).0 ≡ (scan cutoff as').0 ++ (scan cutoff bs).0)
      × ((scan cutoff (as' ++ bs)).1 ≡ (scan cutoff bs).1 + (scan cutoff as').1)
unfolding scan
scan_parts cutoff [] bs = (refl, ground arith)
scan_parts cutoff (a ∷ as') bs =
    let (p, q) = scan_parts cutoff as' bs in (ground arith, ground arith)

scan-append :
    (cutoff : ℕ) (as' bs : List Row)
    → scan cutoff (as' ++ bs) ≡ join_scans (scan cutoff as') (scan cutoff bs)
scan-append cutoff as' bs = let (p, q) = scan_parts cutoff as' bs in λ i. (p i, q i)

-- The batches together are one walk over the rows, where each row has fuel.
scan_batches-scan :
    (batch cutoff fuel : ℕ) (rs : List Row)
    → 1 ≤ batch
    → length rs ≤ fuel
    → scan_batches batch cutoff fuel rs ≡ scan cutoff rs
unfolding scan_batches scan
scan_batches-scan batch cutoff zero [] one h = refl
scan_batches-scan batch cutoff zero (r ∷ rs) one h = ground arith
scan_batches-scan batch cutoff (suc n) [] one h = refl
scan_batches-scan batch cutoff (suc n) (r ∷ rs) one h =
    ap (join_scans (scan cutoff (take_rows batch (r ∷ rs)))) (
      scan_batches-scan batch cutoff n (drop_rows batch (r ∷ rs)) one
        (ground (arith, length-drop_rows batch (r ∷ rs))))
    ∙ (sym (scan-append cutoff (take_rows batch (r ∷ rs)) (drop_rows batch (r ∷ rs)))
        ∙ ap (scan cutoff) (take_rows-drop_rows batch (r ∷ rs)))

-- The rows that are not old, by their own test.
abbrev pub young : ℕ → List Row → List Row
young cutoff [] = []
young cutoff (r ∷ rs) =
    let rest = young cutoff rs in if is_old_time cutoff r.message_time then rest else r ∷ rest

abbrev keep_filled : Conversation → List Row → List Conversation → List Conversation
keep_filled c [] rest = rest
keep_filled c (r ∷ rs) rest = record c { rows = r ∷ rs } ∷ rest

abbrev pub young_conversations : ℕ → List (Option Conversation) → List Conversation
young_conversations cutoff [] = []
young_conversations cutoff (none ∷ cs) = young_conversations cutoff cs
young_conversations cutoff (some c ∷ cs) =
    keep_filled c (young cutoff c.rows) (young_conversations cutoff cs)

abbrev pub count_rows : List (Option Conversation) → ℕ
count_rows [] = 0
count_rows (none ∷ cs) = count_rows cs
count_rows (some c ∷ cs) = length c.rows + count_rows cs

abbrev pub count_kept : List Conversation → ℕ
count_kept [] = 0
count_kept (c ∷ cs) = length c.rows + count_kept cs

scan-young :
    (cutoff : ℕ) (rs : List Row)
    → ((scan cutoff rs).0 ≡ young cutoff rs)
      × (length (scan cutoff rs).0 + (scan cutoff rs).1 ≡ length rs)
unfolding scan
scan-young cutoff [] = (refl, ground arith)
scan-young cutoff (r ∷ rs) = let (a, b) = scan-young cutoff rs in (ground arith, ground arith)

scan-add_conversation :
    (c : Conversation) (kept : List Row) (dropped : ℕ) (rest : List Conversation × ℕ)
    → ((add_conversation c (kept, dropped) rest).0 ≡ keep_filled c kept rest.0)
      × (count_kept (add_conversation c (kept, dropped) rest).0
            + (add_conversation c (kept, dropped) rest).1
          ≡ (length kept + dropped) + (count_kept rest.0 + rest.1))
unfolding add_conversation
scan-add_conversation c [] dropped rest = (refl, ground arith)
scan-add_conversation c (r ∷ rs) dropped rest = (refl, ground arith)

scan_conversations-young :
    (batch cutoff : ℕ) (cs : List (Option Conversation))
    → 1 ≤ batch
    → ((scan_conversations batch cutoff cs).0 ≡ young_conversations cutoff cs)
      × (count_kept (scan_conversations batch cutoff cs).0 + (scan_conversations batch cutoff cs).1
          ≡ count_rows cs)
unfolding scan_conversations
scan_conversations-young batch cutoff [] one = (refl, ground arith)
scan_conversations-young batch cutoff (none ∷ cs) one = scan_conversations-young batch cutoff cs one
scan_conversations-young batch cutoff (some c ∷ cs) one =
    let rest = scan_conversations batch cutoff cs in
    let e = scan_batches-scan batch cutoff (length c.rows) c.rows one (ground arith) in
    let (f, g) = scan-young cutoff c.rows in
    let (p, q) = scan_conversations-young batch cutoff cs one in
    let (u, v) = scan-add_conversation c (scan cutoff c.rows).0 (scan cutoff c.rows).1 rest in
    (
      ap (λ x. (add_conversation c x rest).0) e ∙ (u ∙ λ i. keep_filled c (f i) (p i)),
      ap (λ x. count_kept (add_conversation c x rest).0 + (add_conversation c x rest).1) e
          ∙ ground arith,
    )

-- With an age limit the guard keeps, in their order, the rows that have no time or are no older than
-- the limit, drops the conversations of which no row is left, and counts each row that it drops.
bounded_history-young :
    (l : HistoryLimits) (now : ℕ) (cs : List (Option Conversation))
    → (l.max_age == 0) ≡ false
    → (kept : List Conversation) × (dropped : ℕ) × (bounded_history l now cs ≡ some (kept, dropped))
      × (kept ≡ young_conversations (now - l.max_age) cs)
      × (count_kept kept + dropped ≡ count_rows cs)
unfolding bounded_history history_batch
bounded_history-young l now cs on =
    let (p, q) = scan_conversations-young 500 (now - l.max_age) cs (ground arith) in
    (
      (scan_conversations 500 (now - l.max_age) cs).0,
      (scan_conversations 500 (now - l.max_age) cs).1,
      ground arith,
      p,
      q,
    )
