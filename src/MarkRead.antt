-- ===== src/MarkRead.antt =====
-- whatsapp-bridge/mark_read.go: the read receipts of a whole chat. The rows to acknowledge come
-- oldest first; a receipt names one sender and at most a hundred messages; and the read marker moves
-- to the last row that it may cover. What whatsmeow and the send budget answer is an argument.
pub mod Prefix
pub mod Overflow
pub mod Senders
pub mod Receipts
pub mod Whole
mod Examples
use whatsapp_mcp.Prelude.{
  ℕ, zero, suc, ◌+◌, ◌-◌, String, str_eq, Bool, true, false, not, ◌&&◌, ◌||◌, Option, none, some,
  List, [], ◌∷◌, ◌++◌, length, contains, ltb, ◌==◌, if◌then◌else◌,
}

-- `unreadInboundMessage`
pub record Unread : Type 0 where
  pub id : String
  pub sender : String
  pub timestamp : ℕ

abbrev pub timestamp_at : List Unread → ℕ → ℕ
timestamp_at [] n = 0
timestamp_at (m ∷ ms) zero = m.timestamp
timestamp_at (m ∷ ms) (suc n) = timestamp_at ms n

-- The first loop of `coveredPrefix`: the leading run of acknowledged rows, and the time of the row
-- that ends it.
unfoldable pub leading : List String → List Unread → ℕ × Option ℕ
leading acked [] = (0, none)
leading acked (m ∷ ms) =
    let rest = leading acked ms in
    if not (contains acked m.id) then (0, some m.timestamp) else (suc (rest.0), rest.1)

-- The second loop.
unfoldable pub trim : List Unread → ℕ → ℕ → ℕ
trim pending boundary zero = 0
trim pending boundary (suc n) =
    let rest = trim pending boundary n in
    if not (ltb (timestamp_at pending n) boundary) then rest else suc n

abbrev pub bound_of : Option ℕ → Option ℕ → Option ℕ
bound_of (some t) overflow = some t
bound_of none overflow = overflow

unfoldable pub cut_back : List Unread → ℕ → Option ℕ → ℕ
cut_back pending covered none = covered
cut_back pending covered (some boundary) =
    let trimmed = trim pending boundary covered in
    if trimmed == 0 && covered == length pending then covered else trimmed

-- `coveredPrefix`, with the time of the first row over the cap, if there is one.
unfoldable pub covered_prefix : List Unread → List String → Option ℕ → ℕ
covered_prefix pending acked overflow =
    let run = leading acked pending in cut_back pending (run.0) (bound_of (run.1) overflow)

-- `senderBatch`
pub record SenderBatch : Type 0 where
  pub sender : String
  pub ids : List String

unfoldable pub add_to : String → String → List SenderBatch → List SenderBatch
add_to sender id [] = record { sender = sender; ids = id ∷ [] } ∷ []
add_to sender id (g ∷ gs) =
    let rest = add_to sender id gs in
    if str_eq g.sender sender then record g { ids = g.ids ++ id ∷ [] } ∷ gs else g ∷ rest

abbrev pub all_ids : List Unread → List String
all_ids [] = []
all_ids (m ∷ ms) = m.id ∷ all_ids ms

abbrev pub is_unaddressable : String → Unread → Bool
is_unaddressable chat_user m = str_eq m.sender "" || str_eq m.sender chat_user

-- The loop of `groupBySender`, for a chat that is not one to one.
unfoldable pub group_rows :
    String → List Unread → List SenderBatch × List String → List SenderBatch × List String
group_rows chat_user [] (groups, lost) = (groups, lost)
group_rows chat_user (m ∷ ms) (groups, lost) = group_rows chat_user ms (
    if is_unaddressable chat_user m
    then (groups, lost ++ m.id ∷ [])
    else (add_to m.sender m.id groups, lost))

-- `groupBySender`; `personal` is a chat of the servers for one user.
unfoldable pub group_by_sender :
    (personal : Bool) → String → List Unread → List SenderBatch × List String
group_by_sender true chat_user pending = (record { sender = ""; ids = all_ids pending } ∷ [], [])
group_by_sender false chat_user pending = group_rows chat_user pending ([], [])

abbrev pub batch_size : ℕ
batch_size = 100

unfoldable pub take : ℕ → List String → List String
take n [] = []
take zero (x ∷ xs) = []
take (suc n) (x ∷ xs) = x ∷ take n xs

unfoldable pub drop : ℕ → List String → List String
drop n [] = []
drop zero (x ∷ xs) = x ∷ xs
drop (suc n) (x ∷ xs) = drop n xs

-- The slices of a group, on the fuel of its length.
unfoldable pub slices : ℕ → List String → List (List String)
unfolding take drop
slices zero ids = []
slices (suc fuel) [] = []
slices (suc fuel) (x ∷ xs) = take batch_size (x ∷ xs) ∷ slices fuel (drop batch_size (x ∷ xs))

pub record Receipt : Type 0 where
  pub to : String
  pub covers : List String

-- What is known after some batches. `refused` is an answer of the send budget, `fatal` an error of
-- whatsmeow, and `failure` any error.
pub record Progress : Type 0 where
  pub acked : List String
  pub receipts : List Receipt
  pub asked : ℕ
  pub refused : Bool
  pub fatal : Bool
  pub failure : Bool

module _ (allows sends : ℕ → Bool) (resolves : String → Bool) where
  -- The body of the loop over the slices; `allows` and `sends` answer by the number of the attempt.
  unfoldable pub send_slice : String → List String → Progress → Progress
  send_slice sender ids p =
      if not (allows p.asked)
      then record p { refused = true; asked = p.asked + 1 }
      else if not (sends p.asked)
      then record p { fatal = true; failure = true; asked = p.asked + 1 }
      else record p {
        acked = p.acked ++ ids;
        receipts = record { to = sender; covers = ids } ∷ p.receipts;
        asked = p.asked + 1;
      }

  unfoldable pub send_slices : String → List (List String) → Progress → Progress
  send_slices sender [] p = p
  send_slices sender (ids ∷ rest) p =
      if p.refused || p.fatal then p else send_slices sender rest (send_slice sender ids p)

  unfoldable pub send_group : SenderBatch → Progress → Progress
  send_group g p =
      if not (str_eq g.sender "") && not (resolves g.sender)
      then record p { failure = true }
      else send_slices g.sender (slices (length g.ids) g.ids) p

  unfoldable pub send_groups : List SenderBatch → Progress → Progress
  send_groups [] p = p
  send_groups (g ∷ gs) p = if p.refused || p.fatal then p else send_groups gs (send_group g p)

  -- `markWholeChatRead`, from the grouping of the rows to the end of the loop over the groups.
  unfoldable pub acknowledge : (personal : Bool) → String → List Unread → Progress
  acknowledge personal chat_user pending =
      let grouped = group_by_sender personal chat_user pending in
      send_groups (grouped.0) (record {
        acked = grouped.1;
        receipts = [];
        asked = 0;
        refused = false;
        fatal = false;
        failure = false;
      })

  -- The row count that the marker covers afterwards.
  unfoldable pub mark_whole_chat : (personal : Bool) → String → List Unread → Option ℕ → ℕ
  mark_whole_chat personal chat_user pending overflow =
      covered_prefix pending (acknowledge personal chat_user pending).acked overflow
