-- ===== src/MarkRead/Receipts.antt =====
-- What counts as acknowledged has its receipt.
use whatsapp_mcp.Prelude.{
  ℕ, zero, suc, ◌≤◌, ◌≡◌, refl, ap, ◌∙◌, String, str_eq, Bool, true, false, not, ◌&&◌, ◌||◌, List,
  [], ◌∷◌, ◌++◌, length, contains, leb, if_both, arith,
}
use whatsapp_mcp.MarkRead.{
  Unread, SenderBatch, Receipt, Progress, take, drop, slices, send_slice, send_slices, send_group,
  send_groups, group_by_sender, acknowledge,
}
use whatsapp_mcp.MarkRead.Senders.{unaddressed, group_by_sender-splits}

-- Whether a receipt names the message.
unfoldable pub receipted : String → List Receipt → Bool
receipted id [] = false
receipted id (r ∷ rs) = contains r.covers id || receipted id rs

-- Whether no receipt is over the size of a batch.
unfoldable pub all_small : List Receipt → Bool
all_small [] = true
all_small (r ∷ rs) = leb (length r.covers) 100 && all_small rs

unfoldable all_short : List (List String) → Bool
all_short [] = true
all_short (x ∷ xs) = leb (length x) 100 && all_short xs

length-take : (n : ℕ) (xs : List String) → length (take n xs) ≤ n
unfolding take
length-take n [] = omega arith
length-take zero (x ∷ xs) = omega arith
length-take (suc n) (x ∷ xs) = omega (arith, length-take n xs)

all_short-slices : (fuel : ℕ) (ids : List String) → all_short (slices fuel ids) ≡ true
unfolding all_short slices
all_short-slices zero ids = refl
all_short-slices (suc fuel) [] = refl
all_short-slices (suc fuel) (x ∷ xs) =
    ground (arith, length-take 100 (x ∷ xs), all_short-slices fuel (drop 100 (x ∷ xs)))

pub contains-append :
    (xs ys : List String) (id : String)
    → contains (xs ++ ys) id ≡ (contains xs id || contains ys id)
unfolding contains
contains-append [] ys id = refl
contains-append (x ∷ xs) ys id = ground (arith, contains-append xs ys id)

-- What is acknowledged is lost or has a receipt, and the receipts are small.
record IsReceipted (lost : List String) (id : String) (p : Progress) : Type 0 where
  same : contains p.acked id ≡ (contains lost id || receipted id p.receipts)
  small : all_small p.receipts ≡ true

module _ (allows sends : ℕ → Bool) (resolves : String → Bool) (lost : List String)
    (id : String) where
  send_slice-IsReceipted :
      (sender : String) (ids : List String) (p : Progress)
      → leb (length ids) 100 ≡ true
      → IsReceipted lost id p
      → IsReceipted lost id (send_slice allows sends resolves sender ids p)
  unfolding send_slice receipted all_small
  send_slice-IsReceipted sender ids p short w =
      if_both (IsReceipted lost id) (not (allows p.asked)) _ _
        (λ _. record { same = w.same; small = w.small })
        (λ _.
          if_both (IsReceipted lost id) (not (sends p.asked)) _ _
            (λ _. record { same = w.same; small = w.small })
            (λ _. record {
              same = ground (arith, w.same, contains-append p.acked ids id);
              small = ground (arith, w.small, short);
            }))

  send_slices-IsReceipted :
      (sender : String) (chunks : List (List String)) (p : Progress)
      → all_short chunks ≡ true
      → IsReceipted lost id p
      → IsReceipted lost id (send_slices allows sends resolves sender chunks p)
  unfolding send_slices all_short
  send_slices-IsReceipted sender [] p short w = w
  send_slices-IsReceipted sender (ids ∷ rest) p short w =
      if_both (IsReceipted lost id) (p.refused || p.fatal) _ _ (λ _. w)
        (λ _.
          send_slices-IsReceipted sender rest _ (ground arith)
            (send_slice-IsReceipted sender ids p (ground arith) w))

  send_groups-IsReceipted :
      (gs : List SenderBatch) (p : Progress)
      → IsReceipted lost id p
      → IsReceipted lost id (send_groups allows sends resolves gs p)
  unfolding send_groups send_group
  send_groups-IsReceipted [] p w = w
  send_groups-IsReceipted (g ∷ gs) p w =
      if_both (IsReceipted lost id) (p.refused || p.fatal) _ _ (λ _. w)
        (λ _. send_groups-IsReceipted gs _ (
          if_both (IsReceipted lost id) (not (str_eq g.sender "") && not (resolves g.sender)) _ _
            (λ _. record { same = w.same; small = w.small })
            (λ _. send_slices-IsReceipted g.sender _ p (all_short-slices (length g.ids) g.ids) w)))

  start-IsReceipted : IsReceipted lost id (record {
    acked = lost;
    receipts = [];
    asked = 0;
    refused = false;
    fatal = false;
    failure = false;
  })
  unfolding receipted all_small
  start-IsReceipted = record { same = ground arith; small = refl }

-- For a chat of several users, whatever the send budget, whatsmeow and the resolving of senders
-- answer: a message counts as acknowledged exactly where no participant is known for it or a receipt
-- that went out names it, and no receipt names more than a hundred messages.
pub acknowledge-receipted :
    (allows sends : ℕ → Bool) (resolves : String → Bool) (chat_user : String)
    (pending : List Unread) (id : String)
    → (contains (acknowledge allows sends resolves false chat_user pending).acked id ≡ (
        contains (unaddressed chat_user pending) id
        || receipted id (acknowledge allows sends resolves false chat_user pending).receipts))
      × (all_small (acknowledge allows sends resolves false chat_user pending).receipts ≡ true)
unfolding acknowledge
acknowledge-receipted allows sends resolves chat_user pending id =
    let grouped = group_by_sender false chat_user pending in
    let w =
      send_groups-IsReceipted allows sends resolves (grouped.1) id (grouped.0) _
        (start-IsReceipted allows sends resolves (grouped.1) id) in
    let lost : grouped.1 ≡ unaddressed chat_user pending =
      ((group_by_sender-splits chat_user "" pending).1).1 in
    (
      w.same
          ∙ ap
              (λ l.
                contains l id
                || receipted id
                    (acknowledge allows sends resolves false chat_user pending).receipts)
              lost,
      w.small,
    )
