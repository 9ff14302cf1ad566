-- ===== src/Jitter/Queue.antt =====
-- The jitter buffer is a queue that sheds its oldest packets and never passes its bound.
use mpegts_pacer.Prelude.{
  ℕ, zero, suc, ◌+◌, ◌-◌, ◌≤◌, ◌<◌, ◌≡◌, refl, sym, ap, ◌∙◌, inl, inr, List, [], ◌∷◌, ◌++◌,
  append_assoc, length, length-append, drop, drop-append_le, drop-drop, length-drop, tail, arith,
  leb, if◌then◌else◌, Bool-cases, append-nil,
}
use mpegts_pacer.Jitter.{JitterBuffer, new, grow_to, push, pop}

module _ {ℓ} {A : Type ℓ} where
  -- Never more than the bound, and the bound holds a packet.
  pub record IsBounded (b : JitterBuffer A) : Type 0 where
    pub within : length b.queue ≤ b.capacity
    pub holds_one : 0 < b.capacity

  pub new-IsBounded : (c : ℕ) → IsBounded (new c)
  unfolding new
  new-IsBounded c = record { within = omega arith; holds_one = omega arith }

  pub length-tail : (xs : List A) → length (tail xs) ≡ length xs - 1
  length-tail [] = omega arith
  length-tail (x ∷ xs) = omega arith

  drop-tail : (n : ℕ) (xs : List A) → n ≡ 1 → tail xs ≡ drop n xs
  drop-tail zero xs h = absurd (omega arith)
  drop-tail (suc zero) [] h = refl
  drop-tail (suc zero) (x ∷ xs) h = refl
  drop-tail (suc (suc n)) xs h = absurd (omega arith)

  drop-none : (n : ℕ) (xs : List A) → n ≡ 0 → xs ≡ drop n xs
  drop-none zero xs h = refl
  drop-none (suc n) xs h = absurd (omega arith)

  -- A push adds the packet behind the others and drops the oldest exactly when the buffer is full.
  pub push_lem :
      (b : JitterBuffer A) (x : A)
      → IsBounded b
      → ((push b x).0.queue ≡ drop (length b.queue + 1 - b.capacity) (b.queue ++ (x ∷ [])))
        × ((push b x).0.capacity ≡ b.capacity)
        × ((if (push b x).1 then 1 else 0) ≡ length b.queue + 1 - b.capacity)
  unfolding push
  push_lem b x v = elim (Bool-cases (leb b.capacity (length b.queue))) [
    | inl full ↦
        let one : length b.queue + 1 - b.capacity ≡ 1 = ground (arith, v.within) in
        rw full (
          ap (λ t. t ++ (x ∷ [])) (drop-tail _ b.queue one)
              ∙ sym (drop-append_le _ b.queue (x ∷ []) (omega (arith, one, v.within, v.holds_one))),
          refl,
          sym one,
        )
    | inr free ↦
        let none : length b.queue + 1 - b.capacity ≡ 0 = ground arith in
        rw free (drop-none _ _ none, refl, sym none)
  ]

  pub push-IsBounded : (b : JitterBuffer A) (x : A) → IsBounded b → IsBounded (push b x).0
  push-IsBounded b x v =
      let (q, c, d) = push_lem b x v in
      record {
        within = rw (q, c) (rw (length-drop, length-append) (omega (arith, v.within)));
        holds_one = rw c v.holds_one;
      }

  pub pop-IsBounded : (b : JitterBuffer A) → IsBounded b → IsBounded (pop b).0
  unfolding pop
  pop-IsBounded b v = record {
    within = omega (arith, length-tail b.queue, v.within);
    holds_one = v.holds_one;
  }

  -- Raising the bound keeps every packet; the bound never falls.
  pub grow_to_lem :
      (b : JitterBuffer A) (c : ℕ)
      → IsBounded b
      → IsBounded (grow_to b c)
        × ((grow_to b c).queue ≡ b.queue)
        × (b.capacity ≤ (grow_to b c).capacity)
        × (c ≤ (grow_to b c).capacity)
  unfolding grow_to
  grow_to_lem b c v = (
    record { within = omega (arith, v.within); holds_one = omega (arith, v.holds_one) },
    refl,
    omega arith,
    omega arith,
  )

  -- A burst: the packets pushed in order, and how many were dropped on the way.
  pub push_all : JitterBuffer A → List A → JitterBuffer A × ℕ
  push_all b [] = (b, 0)
  push_all b (x ∷ xs) =
      let (b', dropped) = push b x in
      let (b'', n) = push_all b' xs in (b'', (if dropped then 1 else 0) + n)

  -- After any burst the buffer holds exactly the newest packets, as many as the bound allows, in
  -- order; every other packet was counted as dropped.
  pub push_all-newest :
      (b : JitterBuffer A) (xs : List A)
      → IsBounded b
      → ((push_all b xs).0.queue ≡ drop (length (b.queue ++ xs) - b.capacity) (b.queue ++ xs))
        × ((push_all b xs).1 ≡ length (b.queue ++ xs) - b.capacity)
        × IsBounded (push_all b xs).0
  unfolding push_all
  push_all-newest b [] v =
      rw append-nil (drop-none _ b.queue (omega (arith, v.within)), omega (arith, v.within), v)
  push_all-newest b (x ∷ xs) v =
      let (q, c, d) = push_lem b x v in
      let (rest, count, bounded) = push_all-newest (push b x).0 xs (push-IsBounded b x v) in
      let len : length ((push b x).0.queue ++ xs)
          ≡ length b.queue + 1 - (length b.queue + 1 - b.capacity) + length xs =
        rw (length-append, q, length-drop, length-append) (omega arith) in
      let whole : length (b.queue ++ (x ∷ xs)) ≡ length b.queue + suc (length xs) =
        length-append b.queue (x ∷ xs) in
      let moved : (push b x).0.queue ++ xs
          ≡ drop (length b.queue + 1 - b.capacity) (b.queue ++ (x ∷ xs)) =
        rw q (
          sym (
            drop-append_le _ (b.queue ++ (x ∷ [])) xs
              (omega (arith, length-append b.queue (x ∷ []), v.holds_one)))
          ∙ ap (λ l. drop (length b.queue + 1 - b.capacity) l)
              (append_assoc b.queue (x ∷ []) xs)) in
      (
        rest
            ∙ rw moved (
                drop-drop _ _ (b.queue ++ (x ∷ xs))
                ∙ ap (λ n. drop n (b.queue ++ (x ∷ xs)))
                    (rw (length-drop, c, whole) (omega arith))),
        omega (arith, d, count, len, c, whole),
        bounded,
      )
