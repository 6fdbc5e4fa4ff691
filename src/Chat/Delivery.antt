-- ===== src/Chat/Delivery.antt =====
-- Whom a message to a channel reaches.
use rustibia_server.Prelude.{
  ℕ, ◌≡◌, ◌≢◌, ◌∙◌, refl, sym, ◌==◌, Bool, true, false, not, Option, none, some, Option-cases, ◌⊎◌,
  inl, inr, List, [], ◌∷◌, ◌++◌, retain, All, arith,
}
use rustibia_server.Prelude.Keys.{nat_key, lookup, lookup-erase_ne}
use rustibia_server.Chat.{
  SendResult, sent, closed, full, Queues, Event, chat_channel, close, Router, Batch, contains,
  received, unsubscribe, handle_send_result, deliver_channel_message,
}

-- No element stands twice.
abbrev pub IsDistinct : List ℕ → Type 0
IsDistinct [] = Unit
IsDistinct (k ∷ ks) = (contains k ks ≡ false) × IsDistinct ks

-- What becomes of a message to one recipient, by the session that the router has for it.
abbrev pub is_sent : SendResult → Bool
is_sent sent = true
is_sent closed = false
is_sent full = false

abbrev pub closing : SendResult → ℕ → List Event
closing sent session = []
closing closed session = []
closing full session = close session ∷ []

abbrev pub is_reached : Queues → Option ℕ → Bool
is_reached queues none = false
is_reached queues (some session) = is_sent (queues session)

abbrev pub outcome : Queues → ℕ → ℕ → ℕ → Option ℕ → List Event
outcome queues author channel message none = []
outcome queues author channel message (some session) =
    received (queues session) (chat_channel session author channel message)
    ++ closing (queues session) session

abbrev pub reaches : Queues → Router → ℕ → Bool
reaches queues router key = is_reached queues (lookup key router.session_map)

abbrev pub outcomes : Queues → ℕ → ℕ → ℕ → Router → List ℕ → List Event
outcomes queues author channel message router [] = []
outcomes queues author channel message router (key ∷ keys) =
    outcome queues author channel message (lookup key router.session_map)
    ++ outcomes queues author channel message router keys

-- The router has the same sessions for these keys as another.
abbrev pub Agrees : Router → Router → List ℕ → Type 0
Agrees now before keys = All (λ k. lookup k now.session_map ≡ lookup k before.session_map) keys

pub agrees : (router : Router) (keys : List ℕ) → Agrees router router keys
agrees router [] = tt
agrees router (k ∷ keys) = (refl, agrees router keys)

agrees_after :
    (key : ℕ) (keys : List ℕ) (now before : Router)
    → contains key keys ≡ false
    → Agrees now before keys
    → Agrees (unsubscribe key now) before keys
unfolding unsubscribe
agrees_after key [] now before h a = tt
agrees_after key (k ∷ keys) now before h a =
    let other : (key == k) ≢ true = ground arith in
    (
      lookup-erase_ne key k now.session_map other ∙ a.0,
      agrees_after key keys now before (ground arith) a.1,
    )

-- The batch is what the sessions at its start make of it.
pub record IsBatch (queues : Queues) (author channel message : ℕ) (before : Router) (keys : List ℕ)
    (batch : Batch) : Type 0 where
  pub dead : batch.dead ≡ retain (λ k. not (reaches queues before k)) keys
  pub inbox : batch.inbox ≡ outcomes queues author channel message before keys

SendResult-cases : (r : SendResult) → (r ≡ sent) ⊎ ((r ≡ closed) ⊎ (r ≡ full))
SendResult-cases sent = inl refl
SendResult-cases closed = inr (inl refl)
SendResult-cases full = inr (inr refl)

module _ (queues : Queues) (author channel message : ℕ) where
  pub batches :
      (keys : List ℕ) (now before : Router)
      → IsDistinct keys
      → Agrees now before keys
      → IsBatch queues author channel message before keys
          (deliver_channel_message queues author channel message keys now)
  unfolding deliver_channel_message handle_send_result
  batches [] now before d a = record { dead = refl; inbox = refl }
  batches (key ∷ keys) now before d a =
      let same = batches keys now before d.1 a.1 in
      let gone =
        batches keys (unsubscribe key now) before d.1 (agrees_after key keys now before d.0 a.1) in
      elim (Option-cases (lookup key now.session_map)) [
        | inl e ↦
            let e' : lookup key before.session_map ≡ none = sym a.0 ∙ e in
            record {
              dead = rw (deliver_channel_message, e, e', same.dead) refl;
              inbox = rw (deliver_channel_message, e, e', same.inbox) refl;
            }
        | inr (s, e) ↦
            let e' : lookup key before.session_map ≡ some s = sym a.0 ∙ e in
            elim (SendResult-cases (queues s)) [
              | inl q ↦ record {
                dead = rw (deliver_channel_message, e, e', is_reached, q, same.dead) refl;
                inbox = rw (deliver_channel_message, e, e', outcome, q, same.inbox) refl;
              }
              | inr (inl q) ↦ record {
                dead = rw (deliver_channel_message, e, e', is_reached, q, gone.dead) refl;
                inbox = rw (deliver_channel_message, e, e', outcome, q, gone.inbox) refl;
              }
              | inr (inr q) ↦ record {
                dead = rw (deliver_channel_message, e, e', is_reached, q, gone.dead) refl;
                inbox = rw (deliver_channel_message, e, e', outcome, q, gone.inbox) refl;
              }
            ]
      ]
