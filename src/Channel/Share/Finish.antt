-- ===== src/Channel/Share/Finish.antt =====
-- The text of a reply as it leaves the server.
use publisher_subscriber_ser.Base.{
  ℕ, ◌+◌, ◌≤◌, ◌≡◌, ap, List, [], ◌∷◌, ◌++◌, length, length-append, arith, ok, inl,
}
use mathlib.Core.Path.{subst}
use publisher_subscriber_ser.Memory.{Bytes}
use publisher_subscriber_ser.Text.{At, Free, paste}
use publisher_subscriber_ser.Text.Paste.{
  At-left, At-append, At-paste, At-paste_frame, bytes_from-At,
}
use publisher_subscriber_ser.Text.Loops.{put_lem, strlen_lem}
use publisher_subscriber_ser.Channel.Store.Lookup.{Free-append}
use publisher_subscriber_ser.Channel.Share.{finish_text}

-- What the buffer holds, and a back quote behind it.
pub finish_text_lem :
    (out : Bytes) (n : ℕ) (s : List ℕ)
    → At out 0 s
    → Free 0 s
    → length s ≡ n
    → n + 2 ≤ 1024
    → finish_text out n ≡ ok (s ++ b'`' ∷ [])
unfolding finish_text
finish_text_lem out n s at free e h =
    let a = paste out n (b'`' ∷ []) in
    let z = paste a (n + 1) (0 ∷ []) in
    let text = s ++ b'`' ∷ [] in
    let size = length-append s (b'`' ∷ []) in
    let at1 : At a 0 text =
      At-append a 0 s (b'`' ∷ []) (At-paste_frame out n (b'`' ∷ []) 0 s at (inl (omega arith)))
        (subst (λ k. At a k (b'`' ∷ [])) (omega arith) (At-paste out n (b'`' ∷ []))) in
    let at2 : At z 0 (text ++ 0 ∷ []) =
      At-append z 0 text (0 ∷ []) (At-paste_frame a (n + 1) (0 ∷ []) 0 text at1 (inl (omega arith)))
        (subst (λ k. At z k (0 ∷ [])) (omega arith) (At-paste a (n + 1) (0 ∷ []))) in
    let nul = Free-append 0 s (b'`' ∷ []) free ((λ q. absurd (omega arith)), tt) in
    rw
      (
        put_lem out 1024 n b'`' (omega arith),
        put_lem a 1024 (n + 1) 0 (omega arith),
        strlen_lem z 1024 text (at2, nul) (omega arith),
      )
      (ap ok (bytes_from-At z 0 text (At-left z 0 text (0 ∷ []) at2)))
