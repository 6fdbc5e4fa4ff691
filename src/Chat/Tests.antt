-- ===== src/Chat/Tests.antt =====
-- Runs of the chat.
use rustibia_server.Prelude.{
  ℕ, ◌≡◌, ◌==◌, true, refl, some, [], ◌∷◌, ◌++◌, if◌then◌else◌, retain, false, arith, Bool-cases,
  inl, inr,
}
use rustibia_server.Prelude.Keys.{nat_key, lookup}
use rustibia_server.Chat.{
  Queues, sent, full, Channel, World, contains, join_channel, channel_message, send_channel_message,
  run,
}
use rustibia_server.Chat.Delivery.{IsDistinct, reaches, outcomes}
use rustibia_server.Chat.Members.{IsValid, run-IsValid}
use rustibia_server.Chat.Sending.{send_channel_message_lem}

abbrev lobby : Channel
lobby = record { id = 1; name = 0; members = 5 ∷ 6 ∷ 7 ∷ [] }

-- Agent 7 has no session any more.
abbrev evening : World
evening = record {
  chat = record { channels = (1, lobby) ∷ [] };
  router = record { session_map = (5, 50) ∷ (6, 60) ∷ [] };
  inbox = [];
}

-- The queue of session 60 is full.
abbrev slow : Queues
slow session = if session == 60 then full else sent

in_lobby :
    (id : ℕ) (channel : Channel)
    → lookup id evening.chat.channels ≡ some channel
    → IsDistinct channel.members
in_lobby id channel h = elim (Bool-cases (1 == id)) [
  | inl q ↦ let same : lobby ≡ channel = ground arith in rw (← same) (refl, (refl, (refl, tt)))
  | inr q ↦ absurd ground arith
]

evening-IsValid : IsValid evening.chat
evening-IsValid = record { distinct = in_lobby }

run-IsValid_example :
    IsValid (run ((slow, join_channel 5 1) ∷ (slow, channel_message 5 1 9) ∷ []) evening).chat
run-IsValid_example =
    run-IsValid ((slow, join_channel 5 1) ∷ (slow, channel_message 5 1 9) ∷ []) evening
      evening-IsValid

send_channel_message_lem_example :
    (contains 5 lobby.members ≡ false → send_channel_message slow 5 1 9 evening ≡ evening)
    × (contains 5 lobby.members ≡ true
        → ((send_channel_message slow 5 1 9 evening).inbox
            ≡ [] ++ outcomes slow 5 1 9 evening.router lobby.members)
          × (lookup 1 (send_channel_message slow 5 1 9 evening).chat.channels
              ≡ some
                  (record lobby { members = retain (reaches slow evening.router) lobby.members })))
send_channel_message_lem_example =
    send_channel_message_lem slow 5 1 9 evening lobby refl (refl, (refl, (refl, tt)))
