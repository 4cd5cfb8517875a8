-- ===== src/MediaRetry/Examples.antt =====
-- A voice note whose sender answered without the file.
use whatsapp_mcp.Prelude.{◌+◌, ◌≤◌, ◌*◌, ◌≡◌, refl, none, some, List, [], ◌∷◌, length, inr, arith}
use whatsapp_mcp.MediaRetry.{
  Fault, plain, phone_answer, backoff, Key, Row, same_key, find, delete, make_room, cooldown_max,
  answered_cooldown, wait_of, row_of, note, active, answer_of, Call, ask, fail, bring, run,
}
use whatsapp_mcp.MediaRetry.Memory.{active-remembers, AllQuiet}

abbrev voice_note : Key
voice_note = record { chat = "7@g.us"; id = "A" }

abbrev other_note : Key
other_note = record { chat = "7@g.us"; id = "B" }

abbrev no_file : Fault
no_file = phone_answer (plain "not found")

abbrev later_calls : List Call
later_calls = fail other_note (plain "offline") 2000 ∷ ask voice_note 3000 ∷ bring other_note ∷ []

quiet : AllQuiet voice_note (1000 + wait_of no_file) later_calls
unfolding same_key wait_of answered_cooldown
quiet = (refl, (inr (ground arith), (refl, tt)))

room : length (note voice_note no_file 1000 []).1 + length later_calls ≤ cooldown_max
unfolding note make_room delete find cooldown_max
room = ground arith

active-remembers_example :
    (active voice_note 5000 (run later_calls (note voice_note no_file 1000 []).1)).0
    ≡ some (backoff (1000 + wait_of no_file) no_file)
unfolding wait_of answered_cooldown
active-remembers_example =
    active-remembers voice_note no_file 1000 5000 later_calls [] quiet room refl

empty_room : length {A = Row} [] ≤ cooldown_max
unfolding cooldown_max
empty_room = ground arith

-- After the week the row is dropped and the phone may be asked again.
expired :
    (active voice_note (1000 + 604800 * 1000000000) (note voice_note no_file 1000 []).1)
    ≡ (none, [])
unfolding active answer_of note make_room delete find cooldown_max wait_of answered_cooldown row_of
    same_key
expired = refl
