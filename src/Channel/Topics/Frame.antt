-- ===== src/Channel/Topics/Frame.antt =====
-- How a list of topics follows a change of the channel.
use publisher_subscriber_ser.Base.{
  ℕ, ◌+◌, ◌<◌, ◌≤◌, ◌≡◌, ◌≢◌, ◌∙◌, sym, ap, some, List, [], ◌∷◌, ◌++◌, length, arith, All, false,
  true, refl,
}
use mathlib.Core.Path.{subst}
use publisher_subscriber_ser.Text.{Str}
use publisher_subscriber_ser.Text.Loops.{same}
use publisher_subscriber_ser.Channel.{Channel}
use publisher_subscriber_ser.Channel.Topics.{Topic, text, row_id, IsTopic, TopicsFrom, index_of}

-- `d` has the entry and the row of topic `k` as `c` has them.
pub record Agrees (c d : Channel) (k : ℕ) : Type 0 where
  pub pointer : d.all_server_data k ≡ c.all_server_data k
  pub row : d.rows (row_id k) ≡ c.rows (row_id k)

pub TopicsFrom-frame :
    (c d : Channel) (j : ℕ) (ts : List Topic)
    → TopicsFrom c j ts
    → ((k : ℕ) → j ≤ k → k < j + length ts → Agrees c d k)
    → TopicsFrom d j ts
TopicsFrom-frame c d j [] h agree = tt
TopicsFrom-frame c d j (t ∷ ts) h agree =
    let a = agree j (omega arith) (omega arith) in
    (
      a.pointer ∙ h.0,
      h.1,
      subst (λ r. Str r 0 (text t)) (sym a.row) h.2,
      TopicsFrom-frame c d (j + 1) ts h.3 (λ k p q. agree k (omega arith) (omega arith)),
    )

-- One more topic at the end.
pub TopicsFrom-append :
    (c : Channel) (j : ℕ) (ts : List Topic) (t : Topic)
    → TopicsFrom c j ts
    → TopicsFrom c (j + length ts) (t ∷ [])
    → TopicsFrom c j (ts ++ t ∷ [])
TopicsFrom-append c j [] t h k = let e : j + 0 ≡ j = omega arith in rw e at k
TopicsFrom-append c j (u ∷ ts) t h k =
    let e : j + length (u ∷ ts) ≡ j + 1 + length ts = omega arith in
    (h.0, h.1, h.2, TopicsFrom-append c (j + 1) ts t h.3 (subst (λ n. TopicsFrom c n (t ∷ [])) e k))

-- One topic in the middle changes.
pub TopicsFrom-replace :
    (c d : Channel) (j : ℕ) (before : List Topic) (t t' : Topic) (after : List Topic)
    → TopicsFrom c j (before ++ t ∷ after)
    → ((k : ℕ) → k < j + length (before ++ t ∷ after) → k ≢ j + length before → Agrees c d k)
    → d.all_server_data (j + length before) ≡ c.all_server_data (j + length before)
    → IsTopic t'
    → Str (d.rows (row_id (j + length before))) 0 (text t')
    → TopicsFrom d j (before ++ t' ∷ after)
TopicsFrom-replace c d j [] t t' after h agree pointer is str =
    let e : j + 0 ≡ j = omega arith in
    (
      subst (λ n. d.all_server_data n ≡ c.all_server_data n) e pointer ∙ h.0,
      is,
      subst (λ n. Str (d.rows (row_id n)) 0 (text t')) e str,
      TopicsFrom-frame c d (j + 1) after h.3 (λ k p q. agree k (omega arith) (omega arith)),
    )
TopicsFrom-replace c d j (u ∷ before) t t' after h agree pointer is str =
    let e : j + length (u ∷ before) ≡ j + 1 + length before = omega arith in
    let a = agree j (omega arith) (omega arith) in
    (
      a.pointer ∙ h.0,
      h.1,
      subst (λ r. Str r 0 (text u)) (sym a.row) h.2,
      TopicsFrom-replace c d (j + 1) before t t' after h.3
          (λ k p q. agree k (omega arith) (omega arith))
          (subst (λ n. d.all_server_data n ≡ c.all_server_data n) e pointer) is
          (subst (λ n. Str (d.rows (row_id n)) 0 (text t')) e str),
    )

-- Topic `length before` of a list, as it is kept.
pub TopicsFrom-at :
    (c : Channel) (j : ℕ) (before : List Topic) (t : Topic) (after : List Topic)
    → TopicsFrom c j (before ++ t ∷ after)
    → (c.all_server_data (j + length before) ≡ some (row_id (j + length before)))
      × IsTopic t
      × Str (c.rows (row_id (j + length before))) 0 (text t)
TopicsFrom-at c j [] t after h = let e : j + 0 ≡ j = omega arith in rw e (h.0, h.1, h.2)
TopicsFrom-at c j (u ∷ before) t after h =
    let e : j + length (u ∷ before) ≡ j + 1 + length before = omega arith in
    rw e (TopicsFrom-at c (j + 1) before t after h.3)

same_refl : (s : List ℕ) → same s s ≡ true
unfolding same
same_refl [] = refl
same_refl (c ∷ s) = ground (arith, same_refl s)

-- The lookup finds the first topic of the name.
pub index_of-first :
    (name body : List ℕ) (before after : List Topic) (j : ℕ)
    → All (λ u. same name u.name ≡ false) before
    → index_of name (before ++ record { name = name; body = body } ∷ after) j
      ≡ some (j + length before)
unfolding index_of
index_of-first name body [] after j h = rw (same_refl name) (ap some (omega arith))
index_of-first name body (u ∷ before) after j h =
    rw (h.0) (index_of-first name body before after (j + 1) h.1 ∙ ap some (omega arith))
