-- ===== src/Line.antt =====
-- The singly linked line with a head and a tail that TBufferQue (`Kernel/buffersQueue.cpp`),
-- TMailBox (`Kernel/mailbox.cpp`) and FSMList (`Kernel/fsmSystem.cpp`) each keep: its two pointer
-- operations, and what it means that a line holds a list of elements.
pub mod Laws
use publisher_subscriber_ser.Base.{ℕ, ◌≡◌, ◌≢◌, List, [], ◌∷◌, All, ◌==◌, if◌then◌else◌}
use publisher_subscriber_ser.Memory.{Ptr, null, update}

-- The `next` pointer of each element.
abbrev pub Links : Type 0
Links = Ptr → Ptr

pub record Line : Type 0 where
  pub head : Ptr
  pub tail : Ptr

abbrev pub no_line : Line
no_line = record { head = null; tail = null }

-- The element's link is cleared, and it goes behind the tail.
unfoldable pub push_back : Links → Line → Ptr → Links × Line
unfolding update
push_back n l x =
    if l.tail == null
    then (update n x null, record { head = x; tail = x })
    else (update (update n x null) l.tail x, record l { tail = x })

-- The head, `null` for an empty line, and the line without it.
unfoldable pub pop_front : Links → Line → Ptr × Line
pop_front n l =
    if l.head == null
    then (null, l)
    else (l.head, record { head = n l.head; tail = if n l.head == null then null else l.tail })

-- `a` is none of `xs`.
abbrev pub Out : Ptr → List Ptr → Type 0
Out a xs = All (λ x. a ≢ x) xs

-- From `p` the links lead through the distinct elements `xs` to `null`.
abbrev pub Seg : Links → Ptr → List Ptr → Type 0
Seg n p [] = p ≡ null
Seg n p (x ∷ xs) = (p ≡ x) × (x ≢ null) × Out x xs × Seg n (n x) xs

abbrev pub last_or : Ptr → List Ptr → Ptr
last_or d [] = d
last_or d (x ∷ xs) = last_or x xs

-- The line holds exactly `xs`, first to last.
pub record IsLine (n : Links) (l : Line) (xs : List Ptr) : Type 0 where
  pub chain : Seg n l.head xs
  pub tail : l.tail ≡ last_or null xs
