-- ===== src/Estimate/Pass.antt =====
-- src/estimate.rs: the estimate as a single pass, and what does not change it.
use mpegts_pacer.Prelude.{
  ℕ, zero, suc, ◌+◌, ◌-◌, ◌*◌, ◌/◌, ◌≤◌, ◌<◌, ◌≡◌, refl, sym, ap, ◌∙◌, min, inl, inr, Bool, true,
  false, ◌&&◌, not, Option, none, some, List, [], ◌∷◌, ◌++◌, ltb, leb, ◌==◌, if◌then◌else◌, is_none,
  take, drop, length, length-append, length-drop, take-append-drop, take-append_le, drop-append_le,
  drop-drop, append-nil, append_assoc, arith, Bool-cases, u64_max,
}
use mpegts_pacer.Pcr.{ts_packet_size, pcr_clock_hz, forward_delta}
use mpegts_pacer.Packet.{Packet, pid, pcr, null_pid}
use mpegts_pacer.Estimate.{
  Sample, note_pcr, scan, count_content, rate_between, rate_of, estimate_content_bitrate,
}

-- The content that one packet counts for.
abbrev content : Packet → ℕ
content x = if pid x == null_pid then 0 else 1

-- What a pass has seen: the first PCR and the last, whether they are two, the content up to the last
-- and the content since.
abbrev Seen : Type 0
Seen = Option ((ℕ × ℕ) × Bool × (ℕ × ℕ))

unfoldable step_with : Seen → ℕ → Option ℕ → Seen
step_with none n none = none
step_with none n (some p) = some ((p, p), false, (n, 0))
step_with (some ((first, last), many, (counted, since))) n none =
    some ((first, last), many, (counted, since + n))
step_with (some ((first, last), many, (counted, since))) n (some p) =
    some ((first, p), true, (counted + since + n, 0))

unfoldable pass : Seen → List Packet → Seen
unfolding step_with
pass seen [] = seen
pass seen (x ∷ rest) = pass (step_with seen (content x) (pcr x)) rest

unfoldable rate_seen : Seen → Option ℕ
rate_seen none = none
rate_seen (some ((first, last), many, (counted, since))) =
    if not many
    then none
    else if forward_delta first last == 0
    then none
    else some (min (counted * ts_packet_size * 8 * pcr_clock_hz / forward_delta first last) u64_max)

-- The samples of a scan over `ps`, and what a pass has seen of it.
data Agrees (ps : List Packet) : Sample × Sample → Seen → Type 0 where
  blank : Agrees ps (none, none) none
  sampled :
      (i j first last counted since : ℕ) (many : Bool)
      → i ≤ j
      → j < length ps
      → many ≡ ltb i j
      → count_content (take (j + 1 - i) (drop i ps)) ≡ counted
      → count_content (drop (j + 1) ps) ≡ since
      → Agrees ps (some (i, first), some (j, last)) (some ((first, last), many, (counted, since)))

count_content-append :
    (xs ys : List Packet) → count_content (xs ++ ys) ≡ count_content xs + count_content ys
unfolding count_content
count_content-append [] ys = omega arith
count_content-append (x ∷ xs) ys = ground (arith, count_content-append xs ys)

count_content-one : (x : Packet) → count_content (x ∷ []) ≡ content x
unfolding count_content
count_content-one x = ground arith

drop-behind : (xs ys : List Packet) → drop (length xs) (xs ++ ys) ≡ ys
drop-behind [] ys = refl
drop-behind (x ∷ xs) ys = drop-behind xs ys

drop-all : (n : ℕ) (xs : List Packet) → length xs ≤ n → drop n xs ≡ []
drop-all zero [] h = refl
drop-all (suc n) [] h = refl
drop-all zero (x ∷ xs) h = absurd (omega (arith, h))
drop-all (suc n) (x ∷ xs) h = drop-all n xs (omega (arith, h))

take-all : (n : ℕ) (xs : List Packet) → length xs ≤ n → take n xs ≡ xs
take-all zero [] h = refl
take-all (suc n) [] h = refl
take-all zero (x ∷ xs) h = absurd (omega (arith, h))
take-all (suc n) (x ∷ xs) h = ap (λ t. x ∷ t) (take-all n xs (omega (arith, h)))

-- The content from `i` on, up to `j` and behind it.
count_content-split :
    (ps : List Packet) (i j : ℕ)
    → i ≤ j
    → count_content (drop i ps)
      ≡ count_content (take (j + 1 - i) (drop i ps)) + count_content (drop (j + 1) ps)
count_content-split ps i j le =
    let at : i + (j + 1 - i) ≡ j + 1 = omega (arith, le) in
    let cut = take-append-drop (j + 1 - i) (drop i ps) in
    let behind : drop (j + 1 - i) (drop i ps) ≡ drop (j + 1) ps =
      drop-drop (j + 1 - i) i ps ∙ ap (λ n. drop n ps) at in
    sym (ap count_content cut)
    ∙ count_content-append (take (j + 1 - i) (drop i ps)) _
    ∙ ap (λ t. count_content (take (j + 1 - i) (drop i ps)) + count_content t) behind

Agrees-next :
    (ps : List Packet) (x : Packet) (found : Sample × Sample) (seen : Seen) (o : Option ℕ)
    → Agrees ps found seen
    → Agrees (ps ++ (x ∷ [])) (note_pcr found (length ps) o) (step_with seen (content x) o)
unfolding step_with count_content
Agrees-next ps x _ _ none blank = blank
Agrees-next ps x _ _ (some p) blank =
    let k = length ps in
    let longer = length-append ps (x ∷ []) in
    let one : k + 1 - k ≡ 1 = omega arith in
    let here : take (k + 1 - k) (drop k (ps ++ (x ∷ []))) ≡ x ∷ [] =
      ap (λ t. take (k + 1 - k) t) (drop-behind ps (x ∷ [])) ∙ ap (λ n. take n (x ∷ [])) one in
    sampled k k p p (content x) 0 false (omega arith) (omega (arith, longer)) (ground arith)
      (ap count_content here ∙ count_content-one x)
      (ap count_content (drop-all (k + 1) (ps ++ (x ∷ [])) (omega (arith, longer))))
Agrees-next ps x _ _ none (sampled i j first last counted since many le lt two upto behind) =
    let longer = length-append ps (x ∷ []) in
    let front : drop i (ps ++ (x ∷ [])) ≡ drop i ps ++ (x ∷ []) =
      drop-append_le i ps (x ∷ []) (omega (arith, le, lt)) in
    let same : take (j + 1 - i) (drop i (ps ++ (x ∷ []))) ≡ take (j + 1 - i) (drop i ps) =
      ap (λ t. take (j + 1 - i) t) front
      ∙ take-append_le (j + 1 - i) (drop i ps) (x ∷ []) (omega (arith, length-drop i ps, le, lt)) in
    let rest : drop (j + 1) (ps ++ (x ∷ [])) ≡ drop (j + 1) ps ++ (x ∷ []) =
      drop-append_le (j + 1) ps (x ∷ []) (omega (arith, lt)) in
    sampled i j first last counted (since + content x) many le (omega (arith, longer, lt)) two
      (ap count_content same ∙ upto)
      (omega (
        arith,
        ap count_content rest,
        count_content-append (drop (j + 1) ps) (x ∷ []),
        count_content-one x,
        behind,
      ))
Agrees-next ps x _ _ (some p) (sampled i j first last counted since many le lt two upto behind) =
    let k = length ps in
    let longer = length-append ps (x ∷ []) in
    let front : drop i (ps ++ (x ∷ [])) ≡ drop i ps ++ (x ∷ []) =
      drop-append_le i ps (x ∷ []) (omega (arith, le, lt)) in
    let all : take (k + 1 - i) (drop i (ps ++ (x ∷ []))) ≡ drop i (ps ++ (x ∷ [])) =
      take-all (k + 1 - i) (drop i (ps ++ (x ∷ [])))
        (omega (arith, length-drop i (ps ++ (x ∷ [])), longer)) in
    sampled i k first p (counted + since + content x) 0 true (omega (arith, le, lt))
      (omega (arith, longer)) (ground (arith, le, lt))
      (omega (
        arith,
        ap count_content (all ∙ front),
        count_content-append (drop i ps) (x ∷ []),
        count_content-one x,
        count_content-split ps i j le,
        upto,
        behind,
      ))
      (ap count_content (drop-all (k + 1) (ps ++ (x ∷ [])) (omega (arith, longer))))

scan-Agrees :
    (ps rest : List Packet) (found : Sample × Sample) (seen : Seen)
    → Agrees ps found seen
    → Agrees (ps ++ rest) (scan found (length ps) rest) (pass seen rest)
unfolding scan pass
scan-Agrees ps [] found seen a = rw (append-nil ps) a
scan-Agrees ps (x ∷ rest) found seen a =
    let next = Agrees-next ps x found seen (pcr x) a in
    let longer : length (ps ++ (x ∷ [])) ≡ length ps + 1 = length-append ps (x ∷ []) in
    rw (sym (append_assoc ps (x ∷ []) rest), sym longer)
      (scan-Agrees (ps ++ (x ∷ [])) rest (note_pcr found (length ps) (pcr x))
        (step_with seen (content x) (pcr x)) next)

rate_of-Agrees :
    (ps : List Packet) (found : Sample × Sample) (seen : Seen)
    → Agrees ps found seen
    → rate_of ps found ≡ rate_seen seen
unfolding rate_between rate_seen
rate_of-Agrees ps _ _ blank = refl
rate_of-Agrees ps _ _ (sampled i j first last counted since many le lt two upto behind) =
    let order : leb j i ≡ not many = ground (arith, two) in rw (order, upto) refl

estimate_content_bitrate-pass :
    (xs : List Packet) → estimate_content_bitrate xs ≡ rate_seen (pass none xs)
unfolding estimate_content_bitrate
estimate_content_bitrate-pass xs =
    rate_of-Agrees xs (scan (none, none) 0 xs) (pass none xs)
      (scan-Agrees [] xs (none, none) none blank)

-- Stuffing that carries no clock.
abbrev pub is_stuffing : Packet → Bool
is_stuffing x = pid x == null_pid && is_none (pcr x)

abbrev pub without_stuffing : List Packet → List Packet
without_stuffing [] = []
without_stuffing (x ∷ rest) =
    if is_stuffing x then without_stuffing rest else x ∷ without_stuffing rest

step_with-zero : (seen : Seen) → step_with seen 0 none ≡ seen
unfolding step_with
step_with-zero none = refl
step_with-zero (some ((first, last), many, (counted, since))) =
    let same : since + 0 ≡ since = omega arith in rw same refl

step_with-same : (seen : Seen) (n : ℕ) (o : Option ℕ) → n ≡ 0 → o ≡ none → step_with seen n o ≡ seen
step_with-same seen n o a b = rw (a, b) (step_with-zero seen)

none-of : (o : Option ℕ) → is_none o ≡ true → o ≡ none
none-of none e = refl
none-of (some p) e = ground (arith, e)

pass-without_stuffing :
    (seen : Seen) (xs : List Packet) → pass seen (without_stuffing xs) ≡ pass seen xs
unfolding pass
pass-without_stuffing seen [] = refl
pass-without_stuffing seen (x ∷ rest) = elim (Bool-cases (is_stuffing x)) [
  | inl e ↦
      let empty : content x ≡ 0 = ground (arith, e) in
      let silent : pcr x ≡ none = none-of (pcr x) (ground (arith, e)) in
      rw e (
        pass-without_stuffing seen rest
        ∙ ap (λ t. pass t rest) (sym (step_with-same seen (content x) (pcr x) empty silent)))
  | inr e ↦ rw e (pass-without_stuffing (step_with seen (content x) (pcr x)) rest)
]

-- Stuffing does not count: with every null packet that carries no PCR taken out, wherever it stood,
-- the estimate is the same.
pub estimate_content_bitrate-without_stuffing :
    (xs : List Packet)
    → estimate_content_bitrate (without_stuffing xs) ≡ estimate_content_bitrate xs
estimate_content_bitrate-without_stuffing xs =
    estimate_content_bitrate-pass (without_stuffing xs)
    ∙ ap rate_seen (pass-without_stuffing none xs)
    ∙ sym (estimate_content_bitrate-pass xs)
