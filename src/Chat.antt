-- ===== src/Chat.antt =====
-- `crates/server/src/actors/chat.rs` with the part of `actors/message_router.rs` that it calls: who is
-- in which channel, and whom a message reaches. An agent's key, a session's handle and a text are
-- numbers. The queue of a session is the library's: what `try_send` answers is an argument.
pub mod Delivery
pub mod Handle
pub mod Members
pub mod Sending
mod Tests
use rustibia_server.Prelude.{
  ℕ, ◌==◌, Bool, true, false, not, Option, none, some, List, [], ◌∷◌, ◌++◌, any, retain,
  if◌then◌else◌,
}
use rustibia_server.Prelude.Keys.{nat_key, lookup, insert, erase}

-- `Result<(), TrySendError>`
pub data SendResult : Type 0 where
  sent closed full : SendResult

abbrev pub Queues : Type 0
Queues = ℕ → SendResult

-- What reaches a session: a message, or the order to close.
pub data Event : Type 0 where
  chat_channel : (session author channel message : ℕ) → Event
  chat_private : (session author message : ℕ) → Event
  close : (session : ℕ) → Event

-- The router without its own queue and the map of the world.
pub record Router : Type 0 where
  pub session_map : List (ℕ × ℕ)

pub record Channel : Type 0 where
  pub id : ℕ
  pub name : ℕ
  pub members : List ℕ

-- The actor without its queue and its handle of the router.
pub record Chat : Type 0 where
  pub channels : List (ℕ × Channel)

abbrev pub contains : ℕ → List ℕ → Bool
contains k xs = any (λ j. j == k) xs

unfoldable pub unsubscribe : ℕ → Router → Router
unsubscribe key router = record router { session_map = erase key router.session_map }

-- The router after a send, whether it was delivered, and what the session gets besides.
unfoldable pub handle_send_result : ℕ → ℕ → SendResult → Router → Router × Bool × List Event
unfolding unsubscribe
handle_send_result key session sent router = (router, true, [])
handle_send_result key session closed router = (unsubscribe key router, false, [])
handle_send_result key session full router = (unsubscribe key router, false, close session ∷ [])

pub record Batch : Type 0 where
  pub router : Router
  pub dead : List ℕ
  pub inbox : List Event

-- What a send to a session puts into its queue.
abbrev pub received : SendResult → Event → List Event
received sent event = event ∷ []
received closed event = []
received full event = []

-- The loop over the recipients; `dead` has those that could not be reached.
unfoldable pub deliver_channel_message : Queues → ℕ → ℕ → ℕ → List ℕ → Router → Batch
unfolding handle_send_result
deliver_channel_message queues author channel message [] router = record {
  router = router;
  dead = [];
  inbox = [];
}
deliver_channel_message queues author channel message (key ∷ keys) router =
    let missed = deliver_channel_message queues author channel message keys router in
    elim (lookup key router.session_map) [
      | none ↦ record missed { dead = key ∷ missed.dead }
      | some session ↦
          let result = queues session in
          let after = handle_send_result key session result router in
          let rest = deliver_channel_message queues author channel message keys after.0 in
          record {
            router = rest.router;
            dead = if after.1 then rest.dead else key ∷ rest.dead;
            inbox =
                received result (chat_channel session author channel message)
                ++ (after.2 ++ rest.inbox);
          }
    ]

unfoldable pub deliver_private_message : Queues → ℕ → ℕ → ℕ → Router → Router × List Event
unfolding handle_send_result
deliver_private_message queues author recipient message router =
    elim (lookup recipient router.session_map) [
      | none ↦ (router, [])
      | some session ↦
          let result = queues session in
          let after = handle_send_result recipient session result router in
          (after.0, received result (chat_private session author message) ++ after.2)
    ]

-- `channels.get_mut(&id)` and a change of its members.
abbrev pub with_members : (List ℕ → List ℕ) → ℕ → Chat → Chat
with_members f id chat = elim (lookup id chat.channels) [
  | none ↦ chat
  | some channel ↦ record chat {
    channels = insert id (record channel { members = f channel.members }) chat.channels;
  }
]

unfoldable pub add_player_to_channel : ℕ → ℕ → Chat → Chat
add_player_to_channel player id chat =
    with_members (λ ms. if contains player ms then ms else ms ++ (player ∷ [])) id chat

unfoldable pub remove_player_from_channel : ℕ → ℕ → Chat → Chat
remove_player_from_channel player id chat =
    with_members (λ ms. retain (λ a. not (a == player)) ms) id chat

pub record World : Type 0 where
  pub chat : Chat
  pub router : Router
  pub inbox : List Event

-- The actor and the router it waits for; a channel where everyone was reached is left as it is.
unfoldable pub send_channel_message : Queues → ℕ → ℕ → ℕ → World → World
unfolding deliver_channel_message
send_channel_message queues player id message world = elim (lookup id world.chat.channels) [
  | none ↦ world
  | some channel ↦
      let batch = deliver_channel_message queues player id message channel.members world.router in
      let pruned : Chat = elim batch.dead [
        | [] ↦ world.chat
        | k ∷ ks ↦ with_members (λ ms. retain (λ a. not (contains a batch.dead)) ms) id world.chat
      ] in
      if contains player channel.members
      then record { chat = pruned; router = batch.router; inbox = world.inbox ++ batch.inbox }
      else world
]

unfoldable pub send_private_message : Queues → ℕ → ℕ → ℕ → World → World
unfolding deliver_private_message
send_private_message queues sender receiver message world =
    let out = deliver_private_message queues sender receiver message world.router in
    record world { router = out.0; inbox = world.inbox ++ out.1 }

pub data ChatCommand : Type 0 where
  private_message : (sender receiver message : ℕ) → ChatCommand
  channel_message : (player channel message : ℕ) → ChatCommand
  join_channel : (player channel : ℕ) → ChatCommand
  leave_channel : (player channel : ℕ) → ChatCommand

unfoldable pub handle_command : Queues → ChatCommand → World → World
unfolding send_channel_message send_private_message add_player_to_channel remove_player_from_channel
handle_command queues (join_channel player channel) world = record world {
  chat = add_player_to_channel player channel world.chat;
}
handle_command queues (leave_channel player channel) world = record world {
  chat = remove_player_from_channel player channel world.chat;
}
handle_command queues (channel_message player channel message) world =
    send_channel_message queues player channel message world
handle_command queues (private_message sender receiver message) world =
    send_private_message queues sender receiver message world

-- The loop of `run`: the commands in the order in which they arrive, each with the queues as it
-- finds them.
unfoldable pub run : List (Queues × ChatCommand) → World → World
unfolding handle_command
run [] world = world
run ((queues, command) ∷ commands) world = run commands (handle_command queues command world)
