-- ===== src/Channel/Store/Entries.antt =====
-- The text of a new topic, and the text of a topic behind which a message was put.
use publisher_subscriber_ser.Base.{
  ℕ, ◌+◌, ◌-◌, ◌<◌, ◌≤◌, ◌≡◌, refl, ap, ◌∙◌, true, false, List, [], ◌∷◌, ◌++◌, length, ok, arith,
  length-append, Bool-cases, inl, inr, if◌then◌else◌, ltb,
}
use mathlib.Core.List.{append_assoc}
use publisher_subscriber_ser.Memory.{Bytes, update}
use publisher_subscriber_ser.Text.{put, At, Free, Str, paste}
use publisher_subscriber_ser.Text.Paste.{At-left, paste-then}
use publisher_subscriber_ser.Text.Loops.{copy_until_lem, put_lem, strlen_lem, copy_count_lem}
use publisher_subscriber_ser.Channel.Store.{is_capital, copy_capitals, make_entry, append_message}

-- The capitals with which the topic begins.
unfoldable pub capitals : List ℕ → List ℕ
capitals [] = []
capitals (c ∷ s) = if is_capital c then c ∷ capitals s else []

pub length-capitals : (s : List ℕ) → length (capitals s) ≤ length s
unfolding capitals
length-capitals [] = omega arith
length-capitals (c ∷ s) = ground (arith, length-capitals s)

pub capitals-Free : (stop : ℕ) (s : List ℕ) → is_capital stop ≡ false → Free stop (capitals s)
unfolding capitals
capitals-Free stop [] h = tt
capitals-Free stop (c ∷ s) h = elim (Bool-cases (is_capital c)) [
  | inl e ↦ rw e ((λ (q : c ≡ stop). ground arith), capitals-Free stop s h)
  | inr e ↦ rw e tt
]

copy_capitals_lem :
    (current : Bytes) (s : List ℕ) (j : ℕ) (row : Bytes) (tmp : ℕ)
    → At current j s
    → j + length s ≤ 50
    → tmp + length (capitals s) ≤ 150
    → copy_capitals current (length s) j (record { text = row; tmp = tmp })
      ≡ ok (record { text = paste row tmp (capitals s); tmp = tmp + length (capitals s) })
unfolding copy_capitals capitals put paste
copy_capitals_lem current [] j row tmp at h h' = ground arith
copy_capitals_lem current (c ∷ s) j row tmp at h h' = elim (Bool-cases (is_capital c)) [
  | inl e ↦
      let rest =
        copy_capitals_lem current s (j + 1) (update row tmp c) (tmp + 1) at.1 (omega arith) in
      ground arith
  | inr e ↦ ground arith
]

-- The bytes of a new entry: the capitals, a colon, a blank and the message.
abbrev pub entry : (name message : List ℕ) → List ℕ
entry name message = capitals name ++ b':' ∷ 32 ∷ message

joined :
    (row : Bytes) (caps msg : List ℕ)
    → paste
        (paste
          (paste (paste (paste row 0 caps) (length caps) (b':' ∷ [])) (length caps + 1) (32 ∷ []))
          (length caps + 2)
          msg)
        (length caps + 2 + length msg)
        (0 ∷ [])
      ≡ paste row 0 ((caps ++ b':' ∷ 32 ∷ msg) ++ 0 ∷ [])
joined row caps msg =
    let n = length caps in
    let l1 = length-append caps (b':' ∷ []) in
    let l2 = length-append (caps ++ b':' ∷ []) (32 ∷ []) in
    let l3 = length-append ((caps ++ b':' ∷ []) ++ 32 ∷ []) msg in
    rw
      (
        paste-then row 0 caps n (b':' ∷ []) (omega arith),
        paste-then row 0 (caps ++ b':' ∷ []) (n + 1) (32 ∷ []) (omega arith),
        paste-then row 0 ((caps ++ b':' ∷ []) ++ 32 ∷ []) (n + 2) msg (omega arith),
        paste-then row 0 (((caps ++ b':' ∷ []) ++ 32 ∷ []) ++ msg) (n + 2 + length msg) (0 ∷ [])
            (omega arith),
      )
      (simp append_assoc)

pub make_entry_lem :
    (current message row : Bytes) (name msg : List ℕ)
    → Str current 0 name
    → length name < 50
    → Str message 0 msg
    → length msg < 1024
    → length (entry name msg) < 150
    → make_entry current message row ≡ ok (paste row 0 (entry name msg ++ 0 ∷ []))
unfolding make_entry
make_entry_lem current message row name msg str short mstr msize fits =
    let caps = capitals name in
    let n = length caps in
    let size = length-append caps (b':' ∷ 32 ∷ msg) in
    let short' = length-capitals name in
    let first : copy_capitals current (length name) 0 (record { text = row; tmp = 0 })
        ≡ ok (record { text = paste row 0 caps; tmp = n }) =
      copy_capitals_lem current name 0 row 0 (At-left current 0 name (0 ∷ []) str.0) (omega arith)
        (omega arith)
      ∙ ap (λ k. ok (record { text = paste row 0 caps; tmp = k })) (omega arith) in
    let row1 = paste row 0 caps in
    let colon = put_lem row1 150 n b':' (omega arith) in
    let row2 = paste row1 n (b':' ∷ []) in
    let blank = put_lem row2 150 (n + 1) 32 (omega arith) in
    let row3 = paste row2 (n + 1) (32 ∷ []) in
    let copied =
      copy_until_lem 1024 0 message 1024 0 row3 150 (n + 2) msg mstr.0 mstr.1 (omega arith)
        (omega arith) msize in
    let row4 = paste row3 (n + 2) msg in
    let close = put_lem row4 150 (n + 2 + length msg) 0 (omega arith) in
    rw (strlen_lem current 50 name str short, first, colon, blank, copied, close)
      (ap ok (joined row caps msg))

-- The message goes over the last character of a text, which becomes a blank, and a back quote
-- behind it; the rest of the row stays.
pub append_message_lem :
    (message row : Bytes) (front msg : List ℕ) (last : ℕ)
    → Str row 0 (front ++ last ∷ [])
    → Str message 0 msg
    → length msg < 1024
    → length (front ++ last ∷ []) + length msg < 150
    → append_message message row ≡ ok (paste row (length front) (32 ∷ msg ++ b'`' ∷ []))
unfolding append_message
append_message_lem message row front msg last str mstr msize fits =
    let n = length front in
    let size = length-append front (last ∷ []) in
    let m = length msg in
    let one : length (front ++ last ∷ []) - 1 ≡ n = omega arith in
    let row1 = paste row n (32 ∷ []) in
    let blank = put_lem row 150 n 32 (omega arith) in
    let copied =
      copy_count_lem m message 1024 0 row1 150 (n + 1) msg (At-left message 0 msg (0 ∷ []) mstr.0)
        refl (omega arith) (omega arith) in
    let row2 = paste row1 (n + 1) msg in
    let close = put_lem row2 150 (n + 1 + m) b'`' (omega arith) in
    let positive : ltb 0 (length (front ++ last ∷ [])) ≡ true = ground arith in
    let size' : length (front ++ last ∷ []) ≡ n + 1 = size in
    rw
      (
        strlen_lem message 1024 msg mstr msize,
        strlen_lem row 150 (front ++ last ∷ []) str (omega arith),
        positive,
        one,
        blank,
        size',
        copied,
        close,
      )
      (ap ok (
        ap (λ a. paste a (n + 1 + m) (b'`' ∷ [])) (paste-then row n (32 ∷ []) (n + 1) msg refl)
        ∙ paste-then row n (32 ∷ msg) (n + 1 + m) (b'`' ∷ []) (omega arith)))
