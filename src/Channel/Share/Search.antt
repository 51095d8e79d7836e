-- ===== src/Channel/Share/Search.antt =====
-- One text, compared with the topic that is asked for.
use publisher_subscriber_ser.Base.{
  ℕ, zero, suc, ◌+◌, ◌<◌, ◌≤◌, ◌≡◌, ◌≢◌, List, [], ◌∷◌, ◌++◌, length, arith, ok, Bool, true, false,
}
use publisher_subscriber_ser.Memory.{Bytes, update}
use publisher_subscriber_ser.Text.{At, Free, paste, put}
use publisher_subscriber_ser.Channel.Share.{compare_char, emit_char, scan_text}

-- Behind the colon all is copied, up to the back quote, which ends the search.
scan_body :
    (current a : Bytes) (body : List ℕ) (rounds j k n : ℕ) (out : Bytes) (rest : List ℕ)
    → At a j (body ++ b'`' ∷ rest)
    → Free b'`' body
    → length body < rounds
    → n + length body < 1024
    → scan_text current a rounds j
        (record { done = false; finished = true; eq = true; k = k; n = n; on_topic_data = out })
      ≡ ok (record {
        done = true;
        finished = true;
        eq = true;
        k = k;
        n = n + length body;
        on_topic_data = paste out n (body ++ b'`' ∷ []);
      })
unfolding scan_text compare_char emit_char put paste
scan_body current a [] zero j k n out rest at quote h hn = absurd (omega arith)
scan_body current a [] (suc rounds) j k n out rest at quote h hn = ground arith
scan_body current a (c ∷ body) zero j k n out rest at quote h hn = absurd (omega arith)
scan_body current a (c ∷ body) (suc rounds) j k n out rest at quote h hn =
    let more =
      scan_body current a body rounds (j + 1) k (n + 1) (update out n c) rest at.1 quote.1
        (omega arith) (omega arith) in
    ground arith

-- Along the topic's name each character is compared and copied; then comes what follows the colon.
pub scan_name :
    (current a : Bytes) (name body rest : List ℕ) (rounds j k n : ℕ) (eq : Bool) (out : Bytes)
    → At a j (name ++ b':' ∷ (body ++ b'`' ∷ rest))
    → At current k name
    → Free b':' name
    → Free b'`' name
    → Free b'`' body
    → length name + 1 + length body < rounds
    → k + length name ≤ 50
    → n + length name + 1 + length body < 1024
    → scan_text current a rounds j
        (record { done = false; finished = false; eq = eq; k = k; n = n; on_topic_data = out })
      ≡ ok (record {
        done = true;
        finished = true;
        eq = true;
        k = k + length name;
        n = n + length name + 1 + length body;
        on_topic_data = paste out n (name ++ b':' ∷ (body ++ b'`' ∷ []));
      })
unfolding scan_text compare_char emit_char put paste
scan_name current a name body rest zero j k n eq out at cur colon quote quote' h hk hn =
    absurd (omega arith)
scan_name current a [] body rest (suc rounds) j k n eq out at cur colon quote quote' h hk hn =
    let more =
      scan_body current a body rounds (j + 1) k (n + 1) (update out n b':') rest at.1 quote'
        (omega arith) (omega arith) in
    ground arith
scan_name current a (c ∷ name) body rest (suc rounds) j k n eq out at cur colon quote quote' h hk
      hn =
    let more =
      scan_name current a name body rest rounds (j + 1) (k + 1) (n + 1) true (update out n c) at.1
        cur.1 colon.1 quote.1 quote' (omega arith) (omega arith) (omega arith) in
    ground arith

-- A text whose first character is not the topic's is left at once, and nothing is copied.
pub scan_other :
    (current a : Bytes) (rounds k n : ℕ) (eq : Bool) (out : Bytes)
    → a 0 ≢ b':'
    → a 0 ≢ current 0
    → scan_text current a
        (suc rounds)
        0
        (record { done = false; finished = false; eq = eq; k = 0; n = n; on_topic_data = out })
      ≡ ok
          (record { done = false; finished = false; eq = false; k = 0; n = n; on_topic_data = out })
unfolding scan_text compare_char
scan_other current a rounds k n eq out colon other = ground arith
