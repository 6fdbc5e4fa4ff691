-- ===== src/Chat/Members.antt =====
-- Nobody is twice in a channel.
use rustibia_server.Prelude.{
  ℕ, ◌≡◌, ◌∙◌, refl, sym, ◌==◌, Bool, false, not, some, Option-cases, inl, inr, List, [], ◌∷◌, ◌++◌,
  retain, if◌then◌else◌, Bool-cases, arith,
}
use rustibia_server.Prelude.Keys.{nat_key, lookup, lookup-insert}
use rustibia_server.Chat.{
  Queues, Channel, Chat, World, ChatCommand, private_message, channel_message, join_channel,
  leave_channel, contains, with_members, add_player_to_channel, remove_player_from_channel,
  deliver_channel_message, send_channel_message, send_private_message, handle_command, run,
}
use rustibia_server.Chat.Delivery.{IsDistinct}

contains-retain :
    (p : ℕ → Bool) (k : ℕ) (xs : List ℕ) → contains k xs ≡ false → contains k (retain p xs) ≡ false
contains-retain p k [] h = refl
contains-retain p k (x ∷ xs) h = let rest = contains-retain p k xs (ground arith) in ground arith

pub retain-IsDistinct : (p : ℕ → Bool) (xs : List ℕ) → IsDistinct xs → IsDistinct (retain p xs)
retain-IsDistinct p [] h = tt
retain-IsDistinct p (x ∷ xs) h =
    let rest = retain-IsDistinct p xs h.1 in
    elim (Bool-cases (p x)) [ inl e ↦ rw e (contains-retain p x xs h.0, rest) | inr e ↦ rw e rest ]

contains-append :
    (k player : ℕ) (xs : List ℕ)
    → contains k xs ≡ false
    → (player == k) ≡ false
    → contains k (xs ++ (player ∷ [])) ≡ false
contains-append k player [] h g = ground arith
contains-append k player (x ∷ xs) h g =
    let rest = contains-append k player xs (ground arith) g in ground arith

append-IsDistinct :
    (player : ℕ) (xs : List ℕ)
    → contains player xs ≡ false
    → IsDistinct xs
    → IsDistinct (xs ++ (player ∷ []))
append-IsDistinct player [] h d = (refl, tt)
append-IsDistinct player (x ∷ xs) h d =
    (contains-append x player xs d.0 (ground arith), append-IsDistinct player xs (ground arith) d.1)

joined-IsDistinct :
    (player : ℕ) (xs : List ℕ)
    → IsDistinct xs
    → IsDistinct (if contains player xs then xs else xs ++ (player ∷ []))
joined-IsDistinct player xs d = elim (Bool-cases (contains player xs)) [
  | inl e ↦ rw e d
  | inr e ↦ rw e (append-IsDistinct player xs e d)
]

-- The members of every channel are distinct.
pub record IsValid (chat : Chat) : Type 0 where
  pub distinct :
      (id : ℕ) (channel : Channel)
      → lookup id chat.channels ≡ some channel
      → IsDistinct channel.members

changed :
    (f : List ℕ → List ℕ) (id i : ℕ) (chat : Chat) (old new : Channel)
    → ((xs : List ℕ) → IsDistinct xs → IsDistinct (f xs))
    → IsValid chat
    → lookup id chat.channels ≡ some old
    → (if id == i then some (record old { members = f old.members }) else lookup i chat.channels)
      ≡ some new
    → IsDistinct new.members
changed f id i chat old new keeps v e h = elim (Bool-cases (id == i)) [
  | inl q ↦
      let same : record old { members = f old.members } ≡ new = ground arith in
      rw (← same) (keeps old.members (v.distinct id old e))
  | inr q ↦ v.distinct i new (ground arith)
]

pub with_members-IsValid :
    (f : List ℕ → List ℕ) (id : ℕ) (chat : Chat)
    → ((xs : List ℕ) → IsDistinct xs → IsDistinct (f xs))
    → IsValid chat
    → IsValid (with_members f id chat)
with_members-IsValid f id chat keeps v = elim (Option-cases (lookup id chat.channels)) [
  | inl e ↦ rw (with_members, e) v
  | inr (old, e) ↦
      rw (with_members, e)
        (record {
          distinct = λ i new h.
              changed f id i chat old new keeps v e (
                sym (lookup-insert id i (record old { members = f old.members }) chat.channels)
                ∙ h);
        })
]

pruned-IsValid :
    (dead : List ℕ) (id : ℕ) (chat : Chat)
    → IsValid chat
    → IsValid (elim dead as (λ _. Chat) [
      | [] ↦ chat
      | k ∷ ks ↦ with_members (λ ms. retain (λ a. not (contains a dead)) ms) id chat
    ])
pruned-IsValid [] id chat v = v
pruned-IsValid (k ∷ ks) id chat v =
    with_members-IsValid _ id chat (λ xs d. retain-IsDistinct _ xs d) v

sent-IsValid :
    (queues : Queues) (player id message : ℕ) (world : World)
    → IsValid world.chat
    → IsValid (send_channel_message queues player id message world).chat
unfolding send_channel_message
sent-IsValid queues player id message world v =
    elim (Option-cases (lookup id world.chat.channels)) [
      | inl e ↦ rw (send_channel_message, e) v
      | inr (channel, e) ↦
          let batch =
            deliver_channel_message queues player id message channel.members world.router in
          elim (Bool-cases (contains player channel.members)) [
            | inl q ↦ rw (send_channel_message, e, q) (pruned-IsValid batch.dead id world.chat v)
            | inr q ↦ rw (send_channel_message, e, q) v
          ]
    ]

handled-IsValid :
    (queues : Queues) (command : ChatCommand) (world : World)
    → IsValid world.chat
    → IsValid (handle_command queues command world).chat
unfolding handle_command add_player_to_channel remove_player_from_channel send_private_message
handled-IsValid queues (private_message sender receiver message) world v = v
handled-IsValid queues (channel_message player id message) world v =
    sent-IsValid queues player id message world v
handled-IsValid queues (join_channel player id) world v =
    with_members-IsValid _ id world.chat (joined-IsDistinct player) v
handled-IsValid queues (leave_channel player id) world v =
    with_members-IsValid _ id world.chat (λ xs d. retain-IsDistinct _ xs d) v

-- Whatever commands arrive and whatever the sessions' queues answer, if nobody is twice in a
-- channel at first, then nobody ever is.
pub run-IsValid :
    (commands : List (Queues × ChatCommand)) (world : World)
    → IsValid world.chat
    → IsValid (run commands world).chat
unfolding run
run-IsValid [] world v = v
run-IsValid ((queues, command) ∷ commands) world v =
    run-IsValid commands (handle_command queues command world)
      (handled-IsValid queues command world v)
