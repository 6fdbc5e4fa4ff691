-- ===== src/Chat/Handle.antt =====
-- The start of the chat actor and `ChatActorHandle`: what the handle puts into the actor's queue.
use rustibia_server.Prelude.{
  ℕ, ◌==◌, Bool, Option, none, some, List, [], ◌∷◌, any, if◌then◌else◌, ◌≡◌, Bool-cases, inl, inr,
  arith,
}
use rustibia_server.Prelude.Keys.{nat_key, insert, lookup, lookup-insert}
use rustibia_server.Chat.{Channel, Chat, ChatCommand}
use rustibia_server.Chat.Delivery.{IsDistinct}
use rustibia_server.Chat.Members.{IsValid}

-- The handle without the sender of its queue.
record ChatActorHandle : Type 0 where
  available_channels : List (ℕ × ℕ)

unfoldable is_server_channel : ℕ → ChatActorHandle → Bool
is_server_channel channel handle = any (λ t. t.0 == channel) handle.available_channels

-- The command that is sent, if one is.
unfoldable join_channel : ℕ → ℕ → ChatActorHandle → Option ChatCommand
unfolding is_server_channel
join_channel player channel handle =
    if is_server_channel channel handle
    then some (ChatCommand.join_channel player channel)
    else none

unfoldable leave_channel : ℕ → ℕ → ChatActorHandle → Option ChatCommand
leave_channel player channel handle = some (ChatCommand.leave_channel player channel)

unfoldable message_channel : ℕ → ℕ → ℕ → ChatActorHandle → Option ChatCommand
unfolding is_server_channel
message_channel player channel message handle =
    if is_server_channel channel handle
    then some (ChatCommand.channel_message player channel message)
    else none

unfoldable message_player : ℕ → ℕ → ℕ → ChatActorHandle → Option ChatCommand
message_player from to message handle = some (ChatCommand.private_message from to message)

-- The loop over the configured channels, from those there already.
unfoldable open_channels : List (ℕ × ℕ) → List (ℕ × Channel) → List (ℕ × Channel)
open_channels [] channels = channels
open_channels ((id, name) ∷ configured) channels =
    open_channels configured (insert id (record { id = id; name = name; members = [] }) channels)

abbrev names_of : List (ℕ × Channel) → List (ℕ × ℕ)
names_of [] = []
names_of ((id, channel) ∷ channels) = (channel.id, channel.name) ∷ names_of channels

-- The actor and its handle, from the channels of the configuration.
unfoldable start : List (ℕ × ℕ) → Chat × ChatActorHandle
unfolding open_channels
start configured =
    let channels = open_channels configured [] in
    (record { channels = channels }, record { available_channels = names_of channels })

opened-IsDistinct :
    (configured : List (ℕ × ℕ)) (channels : List (ℕ × Channel))
    → ((id : ℕ) (channel : Channel)
        → lookup id channels ≡ some channel
        → IsDistinct channel.members)
    → (id : ℕ) (channel : Channel) → lookup id (open_channels configured channels) ≡ some channel
    → IsDistinct channel.members
unfolding open_channels
opened-IsDistinct [] channels distinct id channel e = distinct id channel e
opened-IsDistinct ((k, name) ∷ configured) channels distinct id channel h =
    let opened : Channel = record { id = k; name = name; members = [] } in
    opened-IsDistinct configured (insert k opened channels)
      (λ j found e.
        let here = lookup-insert k j opened channels in
        elim (Bool-cases (k == j)) [
          | inl q ↦ let same : opened ≡ found = ground arith in rw (← same) tt
          | inr q ↦ distinct j found (ground arith)
        ])
      id channel h

-- Nobody is twice in a channel when the actor starts.
start-IsValid : (configured : List (ℕ × ℕ)) → IsValid (start configured).0
unfolding start
start-IsValid configured = record {
  distinct = opened-IsDistinct configured [] (λ id channel e. absurd ground arith);
}
