-- ===== src/MediaQuota/Examples.antt =====
-- Admissions to a cache of a thousand bytes.
use whatsapp_mcp.Prelude.{
  ℕ, ◌+◌, ◌*◌, ◌/◌, ◌≤◌, ◌<◌, ◌≡◌, refl, arith, String, Bool, true, false, List, [], ◌∷◌, Option,
  some, inr, contains,
}
use whatsapp_mcp.Prelude.Text.{Text, text_eq, codes}
use whatsapp_mcp.MediaQuota.{
  two_64, low_water, File, Quota, Settings, World, granted, unfinished, reserved, is_active, walk,
  older, insert, sort, evict, reconcile, limit_of, reserve, admit, acquire,
}
use whatsapp_mcp.MediaQuota.LowWater.{low_water-part}
use whatsapp_mcp.MediaQuota.Order.{total, FromTime}
use whatsapp_mcp.MediaQuota.Evict.{Shortest, evict-Shortest}
use whatsapp_mcp.MediaQuota.Progress.{is_granted, all_evictable, acquire-granted}
use whatsapp_mcp.MediaQuota.Grant.{bytes_of, inactive, acquire-within}

low_water-part_example : low_water 18446744073709551615 99 ≡ 18446744073709551615 * 99 / 100
low_water-part_example =
    low_water-part 18446744073709551615 99 (omega arith) (omega arith) (omega arith)

abbrev file : String → String → ℕ → ℕ → File
file path kind size at = record { path = codes path; kind = kind; size = size; at = at }

abbrev cached : List File
cached =
    file "b/new.jpg" "image" 300 30
    ∷ file "a/old.jpg" "image" 400 10
    ∷ file "a/x.pdf" "document" 200 5
    ∷ []

abbrev all_go : File → Option ℕ
all_go f = some f.size

abbrev never : ℕ → Bool
never i = false

abbrev rules : Settings
rules = record { quota = 1000; types = "image" ∷ []; target = 90 }

abbrev world : World
world = record {
  settings = some rules;
  walk_fails = false;
  expired = never;
  expires = false;
  removes = all_go;
}

abbrev empty_path : Text
empty_path = codes "c/y.jpg"

abbrev held : Quota
held = record {
  reservations = record { number = 0; path = codes "c/z.jpg"; bytes = 50; finished = false } ∷ [];
  files = cached;
  needs_low_water = false;
  refusals = 0;
  next = 1;
}

-- The older image goes, the newer one stays.
abbrev after : Quota
after = record {
  reservations =
      record { number = 1; path = empty_path; bytes = 120; finished = false }
      ∷ record { number = 0; path = codes "c/z.jpg"; bytes = 50; finished = false }
      ∷ [];
  files = file "a/x.pdf" "document" 200 5 ∷ file "b/new.jpg" "image" 300 30 ∷ [];
  needs_low_water = false;
  refusals = 0;
  next = 2;
}

held_answer : acquire world empty_path 120 0 held ≡ (granted 120 true, after)
unfolding acquire admit unfinished reserved walk is_active text_eq contains reconcile low_water sort
    insert older evict limit_of reserve
held_answer = refl

held_small :
    bytes_of (unfinished held.reservations) + inactive (unfinished held.reservations) held.files
    < two_64
unfolding bytes_of unfinished inactive is_active text_eq
held_small = omega arith

acquire-within_example :
    bytes_of after.reservations + inactive (unfinished held.reservations) after.files ≤ 1000
acquire-within_example =
    acquire-within world empty_path 120 0 held after rules 120 true refl (λ f. inr refl) held_small
      held_answer

-- Every file of this cache may go.
abbrev pictures : Quota
pictures = record held {
  files = file "b/new.jpg" "image" 300 30 ∷ file "a/old.jpg" "image" 900 10 ∷ [];
  needs_low_water = true;
}

pictures_reserved : bytes_of (unfinished pictures.reservations) ≤ low_water 1000 90
unfolding bytes_of unfinished low_water
pictures_reserved = omega arith

pictures_room : bytes_of (unfinished pictures.reservations) + 120 ≤ 1000
unfolding bytes_of unfinished
pictures_room = omega arith

pictures_evictable :
    all_evictable (unfinished pictures.reservations) ("image" ∷ []) pictures.files ≡ true
unfolding all_evictable unfinished is_active text_eq contains
pictures_evictable = refl

pictures_small :
    bytes_of (unfinished pictures.reservations)
      + inactive (unfinished pictures.reservations) pictures.files
    < two_64
unfolding bytes_of unfinished inactive is_active text_eq
pictures_small = omega arith

acquire-granted_example : is_granted ((acquire world empty_path 120 0 pictures).0) ≡ true
acquire-granted_example =
    acquire-granted world rules empty_path 120 0 pictures refl refl refl (λ i. refl) (λ f. refl)
      (omega arith) (omega arith) (omega arith) (omega arith) pictures_reserved pictures_room
      pictures_evictable pictures_small

evict-Shortest_example :
    Shortest 1000 900 120 (sort cached) 950 (evict never all_go 1000 900 120 0 (sort cached) 950 0)
    × (FromTime 0 (sort cached) × (total (sort cached) ≡ total cached))
evict-Shortest_example = evict-Shortest never all_go 1000 900 120 cached 950 (λ i. refl) (λ f. refl)
