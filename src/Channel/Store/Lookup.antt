-- ===== src/Channel/Store/Lookup.antt =====
-- The search for a topic finds the first one with the name, reading nothing out of bounds.
use publisher_subscriber_ser.Base.{
  ℕ, ◌+◌, ◌<◌, ◌≤◌, ◌≡◌, refl, some, List, [], ◌∷◌, ◌++◌, length, ok, arith, length-append,
  Bool-cases, inl, inr,
}
use publisher_subscriber_ser.Memory.{Bytes}
use publisher_subscriber_ser.Text.{At, Free, Str}
use publisher_subscriber_ser.Text.Paste.{string_in, string_in-Str}
use publisher_subscriber_ser.Text.Loops.{copy_string_lem, same, str_eq_lem}
use publisher_subscriber_ser.Channel.{Channel}
use publisher_subscriber_ser.Channel.Topics.{Topic, text, row_id, IsTopic, TopicsFrom, index_of}
use publisher_subscriber_ser.Channel.Store.{row_of, get_topic, find_topic}

pub Free-left : (stop : ℕ) (s t : List ℕ) → Free stop (s ++ t) → Free stop s
Free-left stop [] t f = tt
Free-left stop (c ∷ s) t f = (f.0, Free-left stop s t f.1)

pub Free-right : (stop : ℕ) (s t : List ℕ) → Free stop (s ++ t) → Free stop t
Free-right stop [] t f = f
Free-right stop (c ∷ s) t f = Free-right stop s t f.1

pub Free-append : (stop : ℕ) (s t : List ℕ) → Free stop s → Free stop t → Free stop (s ++ t)
Free-append stop [] t f g = g
Free-append stop (c ∷ s) t f g = (f.0, Free-append stop s t f.1 g)

-- `a[0..] = s stop rest 0` holds `s stop` in front.
pub At-upto :
    (a : Bytes) (i stop : ℕ) (s rest : List ℕ)
    → At a i ((s ++ stop ∷ rest) ++ 0 ∷ [])
    → At a i (s ++ stop ∷ [])
At-upto a i stop [] rest h = (h.0, tt)
At-upto a i stop (c ∷ s) rest h = (h.0, At-upto a (i + 1) stop s rest h.1)

-- `getTopic` copies the name of a topic.
pub get_topic_lem :
    (row junk : Bytes) (t : Topic)
    → IsTopic t
    → Str row 0 (text t)
    → get_topic row junk ≡ ok (string_in junk t.name)
unfolding get_topic
get_topic_lem row junk t is str =
    let at = At-upto row 0 b':' t.name t.body str.0 in
    let size = length-append t.name (b':' ∷ t.body) in
    rw (copy_string_lem b':' row 150 0 junk 50 t.name at is.colon (omega arith) is.short)

pub row_of_lem : (c : Channel) (j r : ℕ) → j < 20 → c.all_server_data j ≡ some r → row_of c j ≡ ok r
unfolding row_of
row_of_lem c j r h e = ground arith

pub find_topic_lem :
    (junk current : Bytes) (c : Channel) (ts : List Topic) (j : ℕ) (name : List ℕ)
    → TopicsFrom c j ts
    → Str current 0 name
    → length name < 50
    → j + length ts ≤ 20
    → find_topic junk current c (length ts) j ≡ ok (index_of name ts j)
unfolding find_topic index_of
find_topic_lem junk current c [] j name h str short few = refl
find_topic_lem junk current c (t ∷ ts) j name h str short few =
    let row = row_of_lem c j (row_id j) (omega arith) h.0 in
    let topic = get_topic_lem (c.rows (row_id j)) junk t h.1 h.2 in
    let its = string_in-Str junk t.name (Free-left 0 t.name (b':' ∷ t.body) h.1.no_nul) in
    let equal =
      str_eq_lem current 50 (string_in junk t.name) 50 name t.name str its short h.1.short in
    let rest = find_topic_lem junk current c ts (j + 1) name h.3 str short (omega arith) in
    rw (row, topic, equal)
      (elim (Bool-cases (same name t.name)) [ inl e ↦ rw e | inr e ↦ rw e rest ])
