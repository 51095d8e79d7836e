-- ===== src/Channel/Share/Ack.antt =====
-- The acknowledgement to a publisher.
use publisher_subscriber_ser.Base.{
  ℕ, zero, suc, ◌+◌, ◌<◌, ◌≤◌, ◌≡◌, ◌≢◌, ◌∙◌, ap, sym, List, [], ◌∷◌, ◌++◌, length, arith, ok, refl,
  Bool, ltb, true, false, ◌==◌, if◌then◌else◌, inl, inr, Bool-cases, ltb→lt, ltb→le, ==→eq, ==→ne,
}
use mathlib.Core.Path.{subst}
use publisher_subscriber_ser.Memory.{Bytes, update}
use publisher_subscriber_ser.Text.{At, Free, put, strlen}
use publisher_subscriber_ser.Text.Paste.{At-append, bytes_from, length-bytes_from, At-bytes_from}
use publisher_subscriber_ser.Text.Loops.{strlen_lem, put_lem}
use publisher_subscriber_ser.Channel.{Channel, reply, publish_ack_state}
use publisher_subscriber_ser.Channel.Share.{
  ack_text, ack_message, copy_ack, nth_or_zero, publish_ack,
}

-- The C string in the array has length `n`.
pub record Ends (a : Bytes) (n : ℕ) : Type 0 where
  pub nul : a n ≡ 0
  pub before : (k : ℕ) → k < n → a k ≢ 0

bytes_from-Free :
    (a : Bytes) (i n : ℕ) → ((k : ℕ) → i ≤ k → k < i + n → a k ≢ 0) → Free 0 (bytes_from a i n)
unfolding bytes_from
bytes_from-Free a i zero h = tt
bytes_from-Free a i (suc n) h = (
  h i (omega arith) (omega arith),
  bytes_from-Free a (i + 1) n (λ k p q. h k (omega arith) (omega arith)),
)

strlen-Ends : (a : Bytes) (n size : ℕ) → Ends a n → n < size → strlen a size ≡ ok n
strlen-Ends a n size ends h =
    let text = bytes_from a 0 n in
    let l = length-bytes_from a 0 n in
    let at : At a 0 (text ++ 0 ∷ []) =
      At-append a 0 text (0 ∷ []) (At-bytes_from a 0 n)
        (subst (λ k. a k ≡ 0) (omega arith) ends.nul, tt) in
    strlen_lem a size text (at, bytes_from-Free a 0 n (λ k p q. ends.before k (omega arith)))
      (omega arith)
    ∙ ap ok l

has_nul : List ℕ → Bool
has_nul [] = false
has_nul (x ∷ xs) = if x == 0 then true else has_nul xs

nth_or_zero-nonzero :
    (xs : List ℕ) (i : ℕ) → has_nul xs ≡ false → i < length xs → nth_or_zero xs i ≢ 0
unfolding nth_or_zero has_nul
nth_or_zero-nonzero [] i h l = absurd (omega arith)
nth_or_zero-nonzero (x ∷ xs) zero h l = ground arith
nth_or_zero-nonzero (x ∷ xs) (suc i) h l = let more = nth_or_zero-nonzero xs i in ground arith

ack_text-no_nul : has_nul ack_text ≡ false
unfolding has_nul
ack_text-no_nul = refl

ack-end : ack_message 26 ≡ 0
unfolding nth_or_zero
ack-end = refl

-- The copy of one character keeps the length of the string, or ends it at the terminator.
update-Ends : (a : Bytes) (n i v : ℕ) → Ends a n → i < n → v ≢ 0 → Ends (update a i v) n
unfolding update
update-Ends a n i v ends h nonzero = record {
  nul = let e = ends.nul in ground arith;
  before = λ k p. let e = ends.before k p in ground arith;
}

update-Ends_short : (a : Bytes) (n i : ℕ) → Ends a n → i < n → Ends (update a i 0) i
unfolding update
update-Ends_short a n i ends h = record {
  nul = ground arith;
  before = λ k p. let e = ends.before k (omega arith) in ground arith;
}

copy_ack-stops :
    (fuel : ℕ) (a : Bytes) (n i : ℕ)
    → 0 < fuel
    → Ends a n
    → n < 1024
    → n ≤ i
    → copy_ack fuel a i ≡ ok (a, i)
unfolding copy_ack
copy_ack-stops zero a n i pos ends small stop = absurd (omega arith)
copy_ack-stops (suc fuel) a n i pos ends small stop =
    let size = strlen-Ends a n 1024 ends small in ground arith

copy_ack-step :
    (fuel : ℕ) (a : Bytes) (n i : ℕ)
    → Ends a n
    → n < 1024
    → i < n
    → i < 150
    → copy_ack (suc fuel) a i ≡ copy_ack fuel (update a i (ack_message i)) (i + 1)
unfolding copy_ack put
copy_ack-step fuel a n i ends small more bound =
    let size = strlen-Ends a n 1024 ends small in ground arith

-- The copy ends after 27 characters at most.
copy_ack_lem :
    (fuel : ℕ) (a : Bytes) (n i : ℕ)
    → Ends a n
    → n < 1024
    → i ≤ 26
    → 28 ≤ fuel + i
    → (b : Bytes) × (j : ℕ) × (copy_ack fuel a i ≡ ok (b, j)) × (j ≤ 27)
copy_ack_lem zero a n i ends small low enough = absurd (omega arith)
copy_ack_lem (suc fuel) a n i ends small low enough = elim (Bool-cases (ltb i n)) [
  | inr e ↦
      (a, i, copy_ack-stops (suc fuel) a n i (omega arith) ends small (ltb→le i n e), omega arith)
  | inl e ↦
      let h = ltb→lt i n e in
      let step = copy_ack-step fuel a n i ends small h (omega arith) in
      elim (Bool-cases (i == 26)) [
        | inr f ↦
            let ne = ==→ne i 26 f in
            let r =
              copy_ack_lem fuel (update a i (ack_message i)) n (i + 1)
                (update-Ends a n i (ack_message i) ends h
                  (nth_or_zero-nonzero ack_text i ack_text-no_nul (omega arith)))
                small (omega arith) (omega arith) in
            (r.0, r.1, step ∙ r.2, r.3)
        | inl f ↦
            let e26 = ==→eq i 26 f in
            let zero_at : ack_message i ≡ 0 = ap ack_message e26 ∙ ack-end in
            let short =
              subst (λ v. Ends (update a i v) i) (sym zero_at) (update-Ends_short a n i ends h) in
            (
              update a i (ack_message i),
              i + 1,
              step
                  ∙ copy_ack-stops fuel (update a i (ack_message i)) i (i + 1) (omega arith) short
                      (omega arith) (omega arith),
              omega arith,
            )
      ]
]

ack_bytes : bytes_from ack_message 0 26 ≡ ack_text
unfolding bytes_from nth_or_zero
ack_bytes = refl

-- A publisher is told that its topic was added, whatever text of fewer than 1024 bytes the
-- uninitialised array of the handler held before; the topics stay as they are.
pub publish_ack_lem :
    (junk : Bytes) (n : ℕ) (success : Bool) (c : Channel)
    → Ends junk n
    → n < 1024
    → publish_ack junk success c
      ≡ ok (reply success ack_text (record c { state = publish_ack_state }))
unfolding publish_ack
publish_ack_lem junk n success c ends small =
    let r = copy_ack_lem 1025 junk n 0 ends small (omega arith) (omega arith) in
    let size : strlen ack_message 150 ≡ ok 26 =
      strlen-Ends ack_message 26 150
        (record { nul = ack-end; before = λ k p. nth_or_zero-nonzero ack_text k ack_text-no_nul p })
        (omega arith) in
    let low = r.3 in rw (r.2, put_lem r.0 1024 (r.1 + 1) 0 (omega arith), size, ack_bytes) refl
