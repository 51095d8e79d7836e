-- ===== src/Line/Laws.antt =====
-- A line is a first-in first-out queue, and an operation leaves every other line alone.
use publisher_subscriber_ser.Base.{
  ◌≡◌, ◌≢◌, refl, List, [], ◌∷◌, ◌++◌, All, arith, sym, ◌==◌, Bool-cases, inl, inr,
}
use publisher_subscriber_ser.Memory.{Ptr, null, update}
use publisher_subscriber_ser.Line.{Links, Line, push_back, pop_front, Out, Seg, last_or, IsLine}

-- A change at an element that is not in the segment.
pub frame :
    (n : Links) (p a q : Ptr) (xs : List Ptr) → Seg n p xs → Out a xs → Seg (update n a q) p xs
unfolding update
frame n p a q [] s out = s
frame n p a q (x ∷ xs) s out = let rest = frame n (n x) a q xs s.3 out.1 in ground arith

pub Out-append : {a : Ptr} (xs : List Ptr) {y : Ptr} → Out a xs → a ≢ y → Out a (xs ++ y ∷ [])
Out-append [] o h = (h, tt)
Out-append (x ∷ xs) o h = (o.0, Out-append xs o.1 h)

pub last_or-append : (d : Ptr) (xs : List Ptr) (y : Ptr) → last_or d (xs ++ y ∷ []) ≡ y
last_or-append d [] y = refl
last_or-append d (x ∷ xs) y = last_or-append x xs y

last_or-ne : (n : Links) (p x : Ptr) (xs : List Ptr) → Seg n p (x ∷ xs) → last_or x xs ≢ null
last_or-ne n p x [] s = s.1
last_or-ne n p x (y ∷ xs) s = last_or-ne n (n x) y xs s.3

last_or-Out : (a x : Ptr) (xs : List Ptr) → a ≢ x → Out a xs → a ≢ last_or x xs
last_or-Out a x [] h o = h
last_or-Out a x (y ∷ xs) h o = last_or-Out a y xs o.0 o.1

-- Linking the last element to `y`, whose own link is `null`.
extend :
    (n : Links) (p x : Ptr) (xs : List Ptr) (y : Ptr)
    → Seg n p (x ∷ xs)
    → y ≢ null
    → Out y (x ∷ xs)
    → n y ≡ null
    → Seg (update n (last_or x xs) y) p ((x ∷ xs) ++ y ∷ [])
unfolding update
extend n p x [] y s ne o e = ground arith
extend n p x (z ∷ zs) y s ne o e =
    let rest = extend n (n x) z zs y s.3 ne o.1 e in
    let far : x ≢ last_or z zs = last_or-Out x z zs s.2.0 s.2.1 in
    let out : Out x ((z ∷ zs) ++ y ∷ []) = Out-append (z ∷ zs) s.2 (λ q. o.0 (sym q)) in
    (s.0, s.1, out, ground arith)

-- Adding at the tail appends.
pub push_back-IsLine :
    (n : Links) (l : Line) (xs : List Ptr) (y : Ptr)
    → IsLine n l xs
    → y ≢ null
    → Out y xs
    → IsLine (push_back n l y).0 (push_back n l y).1 (xs ++ y ∷ [])
unfolding push_back update
push_back-IsLine n l [] y is ne o = ground arith
push_back-IsLine n l (x ∷ xs) y is ne o =
    let live : last_or x xs ≢ null = last_or-ne n l.head x xs is.chain in
    let here =
      extend (update n y null) l.head x xs y (frame n l.head y null (x ∷ xs) is.chain o) ne o
        (ground arith) in
    let last = last_or-append x xs y in ground arith

-- Taking from the head removes the first.
pub pop_front-cons :
    (n : Links) (l : Line) (x : Ptr) (xs : List Ptr)
    → IsLine n l (x ∷ xs)
    → ((pop_front n l).0 ≡ x) × IsLine n (pop_front n l).1 xs
unfolding pop_front
pop_front-cons n l x [] is = ground arith
pop_front-cons n l x (y ∷ xs) is = ground arith

pub pop_front-nil : (n : Links) (l : Line) → IsLine n l [] → pop_front n l ≡ (null, l)
unfolding pop_front
pop_front-nil n l is = ground arith

Out-last : (x : Ptr) (xs zs : List Ptr) → All (λ y. Out y zs) (x ∷ xs) → Out (last_or x xs) zs
Out-last x [] zs h = h.0
Out-last x (y ∷ xs) zs h = Out-last y xs zs h.1

-- A segment apart from a line and from what is added there stays what it is.
pub push_back-frame :
    (n : Links) (l : Line) (xs : List Ptr) (y p : Ptr) (zs : List Ptr)
    → IsLine n l xs
    → Seg n p zs
    → Out y zs
    → All (λ x. Out x zs) xs
    → Seg (push_back n l y).0 p zs
unfolding push_back
push_back-frame n l [] y p zs is s o apart = let first = frame n p y null zs s o in ground arith
push_back-frame n l (x ∷ xs) y p zs is s o apart =
    let first = frame n p y null zs s o in
    let out : Out l.tail zs = ground (arith, Out-last x xs zs apart) in
    let second = frame (update n y null) p l.tail y zs first out in
    elim (Bool-cases (l.tail == null)) [ inl e ↦ rw e first | inr e ↦ rw e second ]
