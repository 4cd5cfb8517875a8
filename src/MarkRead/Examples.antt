-- ===== src/MarkRead/Examples.antt =====
-- Runs of the read receipts on a page of four rows.
use whatsapp_mcp.Prelude.{
  ℕ, ◌-◌, ◌<◌, ◌≤◌, ◌≡◌, refl, String, Bool, true, false, ◌||◌, none, some, List, [], ◌∷◌, length,
  contains, arith, ◌⊎◌, ltb,
}
use whatsapp_mcp.MarkRead.{
  Unread, timestamp_at, leading, trim, cut_back, covered_prefix, add_to, group_rows,
  group_by_sender, take, drop, slices, send_slice, send_slices, send_group, send_groups,
  acknowledge, mark_whole_chat,
}
use whatsapp_mcp.MarkRead.Prefix.{id_at, Ordered, covered_prefix-skips_none}
use whatsapp_mcp.MarkRead.Overflow.{Precede, one_second, covered_prefix-spares_overflow}
use whatsapp_mcp.MarkRead.Senders.{sent_by, unaddressed, groups_of, ids_of, group_by_sender-splits}
use whatsapp_mcp.MarkRead.Receipts.{receipted, all_small, acknowledge-receipted}
use whatsapp_mcp.MarkRead.Whole.{mark_whole_chat-covers}

abbrev row : String → String → ℕ → Unread
row id sender t = record { id = id; sender = sender; timestamp = t }

abbrev page : List Unread
page = row "a" "15550001" 10 ∷ row "b" "15550002" 11 ∷ row "c" "" 12 ∷ row "d" "15550001" 12 ∷ []

page-Ordered : Ordered 0 page
page-Ordered = (omega arith, (omega arith, (omega arith, (omega arith, tt))))

page-Precede : Precede page 12
page-Precede = (omega arith, (omega arith, (omega arith, (omega arith, tt))))

abbrev three : List String
three = "a" ∷ "b" ∷ "c" ∷ []

-- The row of the same second as the one left out is not covered either.
three_covered : covered_prefix page three none ≡ 2
unfolding covered_prefix leading trim cut_back contains
three_covered = refl

covered_prefix-skips_none_example :
    (((3 < covered_prefix page three none) × (contains three (id_at page 3) ≡ true))
      ⊎ ((covered_prefix page three none ≡ 0)
          ⊎ (timestamp_at page (covered_prefix page three none - 1) < timestamp_at page 3)))
covered_prefix-skips_none_example =
    covered_prefix-skips_none page three none 3 page-Ordered (omega arith)

covered_prefix-spares_overflow_example :
    ((covered_prefix page ("d" ∷ three) (some 12) ≡ 0)
      ⊎ ((timestamp_at page (covered_prefix page ("d" ∷ three) (some 12) - 1) < 12)
          ⊎ ((covered_prefix page ("d" ∷ three) (some 12) ≡ length page)
              × (one_second 12 page ≡ true))))
covered_prefix-spares_overflow_example =
    covered_prefix-spares_overflow page ("d" ∷ three) 12 page-Precede

first_sender : sent_by "chat" "15550001" page ≡ "a" ∷ "d" ∷ []
unfolding sent_by
first_sender = refl

group_by_sender-splits_example :
    (groups_of "15550001" ((group_by_sender false "chat" page).0) ≤ 1)
    × ((ids_of "15550001" ((group_by_sender false "chat" page).0) ≡ sent_by "chat" "15550001" page)
        × ((group_by_sender false "chat" page).1 ≡ unaddressed "chat" page))
group_by_sender-splits_example = group_by_sender-splits "chat" "15550001" page

abbrev once : ℕ → Bool
once k = ltb k 1

abbrev always : ℕ → Bool
always k = true

abbrev everyone : String → Bool
everyone s = true

-- The budget lets one receipt through.
once_acked : (acknowledge once always everyone false "chat" page).acked ≡ "c" ∷ "a" ∷ "d" ∷ []
unfolding acknowledge group_by_sender group_rows add_to send_groups send_group send_slices
    send_slice slices take drop
once_acked = refl

acknowledge-receipted_example :
    (contains (acknowledge once always everyone false "chat" page).acked "d" ≡ (
      contains (unaddressed "chat" page) "d"
      || receipted "d" (acknowledge once always everyone false "chat" page).receipts))
    × (all_small (acknowledge once always everyone false "chat" page).receipts ≡ true)
acknowledge-receipted_example = acknowledge-receipted once always everyone "chat" page "d"

mark_whole_chat-covers_example : mark_whole_chat always always everyone false "chat" page none ≡ 4
mark_whole_chat-covers_example =
    mark_whole_chat-covers always always everyone "chat" page (λ k. refl) (λ k. refl) (λ s. refl)
