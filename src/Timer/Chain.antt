-- ===== src/Timer/Chain.antt =====
-- What it means that the memory holds a delta list, and how a change of the memory leaves it.
use publisher_subscriber_ser.Base.{
  ℕ, ◌^◌, ◌<◌, ◌≤◌, ◌≡◌, ◌≢◌, ◌⊎◌, refl, ap, sym, ◌∙◌, List, [], ◌∷◌, All, arith,
}
use publisher_subscriber_ser.Memory.{Ptr, Mem, update, store_uint32, get_uint32}
use publisher_subscriber_ser.Memory.Bytes.{get_uint32-set_uint32, set_uint32-frame}
use publisher_subscriber_ser.Line.{Out, Seg}
use publisher_subscriber_ser.Timer.{count, set_count}
use publisher_subscriber_ser.Timer.Delta.{Waiting, timers}

-- Each timer's buffer holds its ticks.
abbrev pub Counts : Mem → List Waiting → Type 0
Counts m ts = All (λ x. count m x.timer ≡ x.wait) ts

-- From `p` the memory holds the delta list `ts`.
pub record IsDelta (m : Mem) (p : Ptr) (ts : List Waiting) : Type 0 where
  pub chain : Seg m.next p (timers ts)
  pub counts : Counts m ts
  pub small : All (λ x. x.wait < 2 ^ 32) ts

pub count-set_count : (m : Mem) (p : Ptr) (v : ℕ) → v < 2 ^ 32 → count (set_count m p v) p ≡ v
unfolding update store_uint32
count-set_count m p v small = let back = get_uint32-set_uint32 (m.bytes p) 6 v in ground arith

pub count-set_count_ne :
    (m : Mem) (p q : Ptr) (v : ℕ) → q ≢ p → count (set_count m p v) q ≡ count m q
unfolding update store_uint32
count-set_count_ne m p q v ne = ground arith

pub Counts-set_count :
    (m : Mem) (p : Ptr) (v : ℕ) (ts : List Waiting)
    → Out p (timers ts)
    → Counts m ts
    → Counts (set_count m p v) ts
Counts-set_count m p v [] out h = tt
Counts-set_count m p v (x ∷ ts) out h = (
  count-set_count_ne m p x.timer v (λ e. out.0 (sym e)) ∙ h.0,
  Counts-set_count m p v ts out.1 h.1,
)

-- The bytes of a buffer outside its ticks.
abbrev pub Elsewhere : ℕ → Type 0
Elsewhere i = (i < 6) ⊎ (10 ≤ i)

pub bytes-set_count :
    (m : Mem) (p : Ptr) (v : ℕ) (q : Ptr) (i : ℕ)
    → Elsewhere i
    → (set_count m p v).bytes q i ≡ m.bytes q i
unfolding update store_uint32
bytes-set_count m p v q i h = let kept = set_uint32-frame (m.bytes p) 6 v i in ground arith

pub bytes-set_count_ne :
    (m : Mem) (p : Ptr) (v : ℕ) (q : Ptr) → q ≢ p → (set_count m p v).bytes q ≡ m.bytes q
unfolding update store_uint32
bytes-set_count_ne m p v q ne = ground arith

pub next-set_count : (m : Mem) (p : Ptr) (v : ℕ) → (set_count m p v).next ≡ m.next
unfolding store_uint32
next-set_count m p v = refl

pub code-set_count : (m : Mem) (p : Ptr) (v : ℕ) → (set_count m p v).code ≡ m.code
unfolding store_uint32
code-set_count m p v = refl

pub update_self : {A : Type 0} (f : Ptr → A) (p : Ptr) (v : A) → update f p v p ≡ v
unfolding update
update_self f p v = ground arith

pub update_ne : {A : Type 0} (f : Ptr → A) (p q : Ptr) (v : A) → q ≢ p → update f p v q ≡ f q
unfolding update
update_ne f p q v ne = ground arith

pub Counts-bytes :
    (m m' : Mem) (ts : List Waiting) → m'.bytes ≡ m.bytes → Counts m ts → Counts m' ts
Counts-bytes m m' [] e h = tt
Counts-bytes m m' (x ∷ ts) e h =
    (ap (λ b. get_uint32 (b x.timer) 6) e ∙ h.0, Counts-bytes m m' ts e h.1)
