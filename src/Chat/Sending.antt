-- ===== src/Chat/Sending.antt =====
-- What a message to a channel leaves behind.
use rustibia_server.Prelude.{
  ℕ, ◌≡◌, ◌∙◌, refl, sym, ap, ◌==◌, ==→≡, Bool, true, false, not, some, inl, inr, List, [], ◌∷◌,
  ◌++◌, retain, Bool-cases, arith,
}
use rustibia_server.Prelude.Keys.{nat_key, lookup, lookup-insert}
use rustibia_server.Chat.{
  Queues, Channel, Chat, World, contains, with_members, send_channel_message,
}
use rustibia_server.Chat.Delivery.{IsDistinct, reaches, outcomes, batches, agrees}

reached_kept :
    (r : ℕ → Bool) (k : ℕ) (xs : List ℕ)
    → r k ≡ true
    → contains k (retain (λ j. not (r j)) xs) ≡ false
reached_kept r k [] h = refl
reached_kept r k (x ∷ xs) h =
    let rest = reached_kept r k xs h in
    elim (Bool-cases (r x)) [
      | inl e ↦ rw e rest
      | inr e ↦
          let differ : (x == k) ≡ false = elim (Bool-cases (x == k)) [
            | inl q ↦ let same : x ≡ k = ==→≡ x k q in absurd ground (arith, ap r same)
            | inr q ↦ q
          ] in
          rw e (rw differ rest)
    ]

missed_dropped :
    (r : ℕ → Bool) (k : ℕ) (xs : List ℕ)
    → r k ≡ false
    → contains k xs ≡ true
    → contains k (retain (λ j. not (r j)) xs) ≡ true
missed_dropped r k [] h g = absurd ground arith
missed_dropped r k (x ∷ xs) h g = elim (Bool-cases (x == k)) [
  | inl q ↦ let same : r x ≡ false = ap r (==→≡ x k q) ∙ h in rw same (rw q refl)
  | inr q ↦
      let rest = missed_dropped r k xs h (ground arith) in
      elim (Bool-cases (r x)) [ inl e ↦ rw e rest | inr e ↦ rw e (rw q rest) ]
]

pruned_one :
    (r : ℕ → Bool) (k : ℕ) (xs : List ℕ)
    → contains k xs ≡ true
    → not (contains k (retain (λ j. not (r j)) xs)) ≡ r k
pruned_one r k xs h = elim (Bool-cases (r k)) [
  | inl e ↦ rw (reached_kept r k xs e) (sym e)
  | inr e ↦ rw (missed_dropped r k xs e h) (sym e)
]

retain_same :
    (f g : ℕ → Bool) (xs ys : List ℕ)
    → ((k : ℕ) → contains k ys ≡ true → f k ≡ g k)
    → ((k : ℕ) → contains k xs ≡ true → contains k ys ≡ true)
    → retain f xs ≡ retain g xs
retain_same f g [] ys h sub = refl
retain_same f g (x ∷ xs) ys h sub =
    let rest = retain_same f g xs ys h λ k i. sub k (ground arith) in
    let here : f x ≡ g x = h x (sub x (ground arith)) in rw (here, rest) refl

-- Dropping the dead leaves those that were reached.
pruned :
    (r : ℕ → Bool) (xs dead : List ℕ)
    → dead ≡ retain (λ j. not (r j)) xs
    → retain (λ a. not (contains a dead)) xs ≡ retain r xs
pruned r xs dead e = rw e (retain_same _ r xs xs (λ k i. pruned_one r k xs i) (λ k i. i))

retain_all : (xs : List ℕ) → retain (λ a. not (contains a [])) xs ≡ xs
retain_all [] = refl
retain_all (x ∷ xs) = ap (λ ys. x ∷ ys) (retain_all xs)

changed_channel :
    (f : List ℕ → List ℕ) (id : ℕ) (chat : Chat) (channel : Channel)
    → lookup id chat.channels ≡ some channel
    → lookup id (with_members f id chat).channels
      ≡ some (record channel { members = f channel.members })
changed_channel f id chat channel e =
    let same : (id == id) ≡ true = ground arith in
    rw (with_members, e)
      (lookup-insert id id (record channel { members = f channel.members }) chat.channels
        ∙ rw same refl)

left_over :
    (r : ℕ → Bool) (id : ℕ) (chat : Chat) (channel : Channel) (dead : List ℕ)
    → lookup id chat.channels ≡ some channel
    → dead ≡ retain (λ j. not (r j)) channel.members
    → lookup id
        (elim dead as (λ _. Chat) [
          | [] ↦ chat
          | k ∷ ks ↦ with_members (λ ms. retain (λ a. not (contains a dead)) ms) id chat
        ]).channels
      ≡ some (record channel { members = retain r channel.members })
left_over r id chat channel [] e h =
    let kept : channel.members ≡ retain r channel.members =
      sym (retain_all channel.members) ∙ pruned r channel.members [] h in
    e ∙ ap (λ ms. some (record channel { members = ms })) kept
left_over r id chat channel (k ∷ ks) e h =
    changed_channel _ id chat channel e
    ∙ ap (λ ms. some (record channel { members = ms })) (pruned r channel.members (k ∷ ks) h)

-- A message to a channel by a player who is no member changes nothing. By a member, where nobody is
-- twice in the channel, it reaches each member once, in their order: one whose session takes it
-- gets it, and a session that is full is told to close; the members after it are exactly those
-- that were reached.
pub send_channel_message_lem :
    (queues : Queues) (player id message : ℕ) (world : World) (channel : Channel)
    → lookup id world.chat.channels ≡ some channel
    → IsDistinct channel.members
    → (contains player channel.members ≡ false
        → send_channel_message queues player id message world ≡ world)
      × (contains player channel.members ≡ true
          → ((send_channel_message queues player id message world).inbox
              ≡ world.inbox ++ outcomes queues player id message world.router channel.members)
            × (lookup id (send_channel_message queues player id message world).chat.channels
                ≡ some (record channel {
                  members = retain (reaches queues world.router) channel.members;
                })))
unfolding send_channel_message
send_channel_message_lem queues player id message world channel e d =
    let batch =
      batches queues player id message channel.members world.router world.router d
        (agrees world.router channel.members) in
    (
      λ q. rw (send_channel_message, e, q) refl,
      λ q. (
        rw (send_channel_message, e, q, batch.inbox) refl,
        rw (send_channel_message, e, q)
            (left_over (reaches queues world.router) id world.chat channel _ e batch.dead),
      ),
    )
