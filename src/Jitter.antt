-- ===== src/Jitter.antt =====
-- src/jitter_buffer.rs: a bounded FIFO, oldest first. It holds packets of any kind.
pub mod Queue
use mpegts_pacer.Prelude.{
  ℕ, ◌-◌, max, Bool, true, false, Option, none, some, List, [], ◌∷◌, ◌++◌, leb, if◌then◌else◌,
  length, first?, tail,
}

pub record JitterBuffer {ℓ} (A : Type ℓ) : Type ℓ where
  pub queue : List A
  pub capacity : ℕ

module _ {ℓ} {A : Type ℓ} where
  unfoldable pub new : ℕ → JitterBuffer A
  new capacity = record { queue = []; capacity = max capacity 1 }

  unfoldable pub grow_to : JitterBuffer A → ℕ → JitterBuffer A
  grow_to b capacity = record b { capacity = max b.capacity (max capacity 1) }

  -- The flag says that the oldest packet was dropped to make room.
  unfoldable pub push : JitterBuffer A → A → JitterBuffer A × Bool
  push b packet =
      if leb b.capacity (length b.queue)
      then (record b { queue = tail b.queue ++ (packet ∷ []) }, true)
      else (record b { queue = b.queue ++ (packet ∷ []) }, false)

  unfoldable pub pop : JitterBuffer A → JitterBuffer A × Option A
  pop b = (record b { queue = tail b.queue }, first? b.queue)

  unfoldable pub len : JitterBuffer A → ℕ
  len b = length b.queue

  unfoldable pub is_empty : JitterBuffer A → Bool
  is_empty b = elim b.queue [ [] ↦ true | _ ∷ _ ↦ false ]

  unfoldable pub room : JitterBuffer A → ℕ
  room b = b.capacity - length b.queue
