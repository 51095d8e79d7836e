-- ===== src/MailBox/Clean.antt =====
-- `Get` ends: the discarded messages at the front go back to the pool, and the first other one is taken.
use publisher_subscriber_ser.Base.{
  ℕ, zero, suc, ◌<◌, ◌≡◌, ◌≢◌, refl, ap, sym, ◌∙◌, List, [], ◌∷◌, ◌++◌, All, arith, length, ok, Run,
  ◌>>=◌, Build, ◌==◌, Bool-cases, inl, inr,
}
use mathlib.Core.Path.{subst}
use publisher_subscriber_ser.Memory.{Ptr, null, Mem, load_uint16, get_uint16}
use publisher_subscriber_ser.Line.{Out}
use publisher_subscriber_ser.Buffers.{ret_buffer}
use publisher_subscriber_ser.MailBox.{TMailBox, World, get, discarded, msg_code}
use publisher_subscriber_ser.MailBox.Laws.{IsMailBox, get_lem}
use publisher_subscriber_ser.MailBox.Pool.{
  ClassHolds, PoolHolds, returned, ret_buffer-returned, returned-Seg, returned-mem,
  returned-PoolHolds,
}
use publisher_subscriber_ser.PostOffice.Holds.{OutOfBoxes, posted_to, All-snoc}

-- The mailbox holds the messages `xs` and the pool the free buffers, no buffer twice; each message
-- has a class of the pool.
pub record Stored (w : World) (xs : List Ptr) (free : ℕ → List Ptr) : Type 0 where
  pub messages : IsMailBox w.mem w.box xs
  pub pool : PoolHolds w.mem w.pool free
  pub apart : (c : ℕ) → c < w.pool.class_buffer_num → All (λ y. Out y xs) (free c)
  pub classes : All (λ x. w.mem.code x < w.pool.class_buffer_num) xs

abbrev pub Stale : Mem → Ptr → Type 0
Stale m x = load_uint16 m x msg_code ≡ discarded

-- The first message is not discarded.
abbrev pub Fresh : Mem → List Ptr → Type 0
Fresh m [] = Unit
Fresh m (x ∷ xs) = load_uint16 m x msg_code ≢ discarded

abbrev pub first_of : List Ptr → Ptr
first_of [] = null
first_of (x ∷ xs) = x

abbrev pub behind : List Ptr → List Ptr
behind [] = []
behind (x ∷ xs) = xs

-- The free buffers when the messages have gone back, one after the other.
unfoldable pub freed : (class_of : Ptr → ℕ) → List Ptr → (ℕ → List Ptr) → ℕ → List Ptr
freed class_of [] free = free
freed class_of (x ∷ xs) free = freed class_of xs (posted_to free (class_of x) x)

-- `Get` ends with the first of `xs`, null if there is none, and the rest stays; the pool holds `free`.
pub record Got (run : Run (Ptr × World)) (w : World) (xs : List Ptr) (free : ℕ → List Ptr)
    : Type 0 where
  pub world : World
  pub returns : run ≡ ok (first_of xs, world)
  pub stored : Stored world (behind xs) free
  pub bytes : world.mem.bytes ≡ w.mem.bytes
  pub code : world.mem.code ≡ w.mem.code
  pub locks : world.box.locks ≡ w.box.locks

All-behind : (x : Ptr) (xs ys : List Ptr) → All (λ y. Out y (x ∷ xs)) ys → All (λ y. Out y xs) ys
All-behind x xs [] h = tt
All-behind x xs (y ∷ ys) h = (h.0.1, All-behind x xs ys h.1)

Out-first : (x : Ptr) (xs ys : List Ptr) → All (λ y. Out y (x ∷ xs)) ys → Out x ys
Out-first x xs [] h = tt
Out-first x xs (y ∷ ys) h = ((λ e. h.0.0 (sym e)), Out-first x xs ys h.1)

Fresh-Got :
    (fuel : ℕ) (b : Build) (w : World) (xs : List Ptr) (free : ℕ → List Ptr)
    → Stored w xs free
    → Fresh w.mem xs
    → Got (get (suc fuel) b w) w xs free
Fresh-Got fuel b w [] free s fresh = record {
  world = w;
  returns = (get_lem fuel b w null []).0 s.messages;
  stored = s;
  bytes = refl;
  code = refl;
  locks = refl;
}
Fresh-Got fuel b w (x ∷ xs) free s fresh =
    let r = (get_lem fuel b w x xs).1 s.messages in
    record {
      world = record w { box = r.0 };
      returns = r.3 fresh;
      stored = record {
        messages = r.1;
        pool = s.pool;
        apart = λ c inside. All-behind x xs (free c) (s.apart c inside);
        classes = s.classes.1;
      };
      bytes = refl;
      code = refl;
      locks = r.2;
    }

-- A discarded message at the front, in its class.
module _ (w : World) (x : Ptr) (xs : List Ptr) (free : ℕ → List Ptr) (s : Stored w (x ∷ xs) free)
    (box : TMailBox) (rest : IsMailBox w.mem box xs) where
  abbrev class_of_first : ClassHolds w.mem w.pool (w.mem.code x) (free (w.mem.code x))
  class_of_first = s.pool.held (w.mem.code x) s.classes.0

  out_of_pool : OutOfBoxes w.pool.class_buffer_num x free
  out_of_pool c inside = Out-first x xs (free c) (s.apart c inside)

  -- The world when it has gone back.
  abbrev without : World
  without =
      let r = returned w.mem w.pool class_of_first.queue x in
      record { mem = r.0; pool = r.1; box = box }

  without-returns : (b : Build) → ret_buffer b w.mem w.pool x ≡ ok (without.mem, without.pool)
  without-returns b =
      ret_buffer-returned w.mem w.pool free x s.pool s.classes.0 class_of_first.queue
        class_of_first.there class_of_first.buffers s.messages.holds.chain.1 out_of_pool b

  without-mem : (without.mem.bytes ≡ w.mem.bytes) × (without.mem.code ≡ w.mem.code)
  without-mem =
      returned-mem w.mem w.pool free x s.pool s.classes.0 class_of_first.queue class_of_first.there
        class_of_first.buffers s.messages.holds.chain.1 out_of_pool

  without-apart :
      (c : ℕ)
      → c < w.pool.class_buffer_num
      → All (λ y. Out y xs) (posted_to free (w.mem.code x) x c)
  without-apart c inside = elim (Bool-cases (c == w.mem.code x)) [
    | inl e ↦ rw e (
        All-snoc (λ y. Out y xs) (free (w.mem.code x)) x
          (All-behind x xs (free (w.mem.code x)) (s.apart (w.mem.code x) s.classes.0))
          s.messages.holds.chain.2)
    | inr e ↦ rw e (All-behind x xs (free c) (s.apart c inside))
  ]

  without-Stored : Stored without xs (posted_to free (w.mem.code x) x)
  without-Stored = record {
    messages = record {
      holds = record {
        chain =
            returned-Seg w.mem w.pool free x s.pool s.classes.0 class_of_first.queue
              class_of_first.there class_of_first.buffers s.messages.holds.chain.1 out_of_pool
              box.line.head xs rest.holds.chain s.messages.holds.chain.2
              (All-behind x xs (free (w.mem.code x)) (s.apart (w.mem.code x) s.classes.0));
        tail = rest.holds.tail;
      };
      counted = rest.counted;
    };
    pool =
        returned-PoolHolds w.mem w.pool free x s.pool s.classes.0 class_of_first.queue
          class_of_first.there class_of_first.buffers s.messages.holds.chain.1 out_of_pool;
    apart = without-apart;
    classes =
        subst (λ (f : Ptr → ℕ). All (λ y. f y < w.pool.class_buffer_num) xs) (sym without-mem.1)
          s.classes.1;
  }

Stale-bytes :
    (m m' : Mem) (ds : List Ptr) → m'.bytes ≡ m.bytes → All (Stale m) ds → All (Stale m') ds
Stale-bytes m m' [] e h = tt
Stale-bytes m m' (x ∷ ds) e h = (ap (λ b. get_uint16 (b x) 4) e ∙ h.0, Stale-bytes m m' ds e h.1)

Fresh-bytes : (m m' : Mem) (xs : List Ptr) → m'.bytes ≡ m.bytes → Fresh m xs → Fresh m' xs
Fresh-bytes m m' [] e h = tt
Fresh-bytes m m' (x ∷ xs) e h = λ f. h (sym (ap (λ b. get_uint16 (b x) 4) e) ∙ f)

-- A mailbox that starts with the discarded messages `ds`, behind which no message or one that is not
-- discarded comes, with the pool beside it, no buffer in both, and more fuel than `ds` has messages:
-- `Get` ends, whatever the build; it gives the first message behind `ds`, null if there is none; the
-- buffers of `ds` are free again, in their classes and behind those that were; what is left in the
-- mailbox is still there, no byte of a message changes, and the lock is as it was.
pub get-Got :
    (fuel : ℕ) (b : Build) (w : World) (ds xs : List Ptr) (free : ℕ → List Ptr)
    → Stored w (ds ++ xs) free
    → All (Stale w.mem) ds
    → Fresh w.mem xs
    → length ds < fuel
    → Got (get fuel b w) w xs (freed w.mem.code ds free)
unfolding freed
get-Got zero b w ds xs free s stale fresh enough = absurd (omega (arith, enough))
get-Got (suc fuel) b w [] xs free s stale fresh enough = Fresh-Got fuel b w xs free s fresh
get-Got (suc fuel) b w (x ∷ ds) xs free s stale fresh enough =
    let r = (get_lem fuel b w x (ds ++ xs)).1 s.messages in
    let w' = without w x (ds ++ xs) free s r.0 r.1 in
    let kept = without-mem w x (ds ++ xs) free s r.0 r.1 in
    let free' = posted_to free (w.mem.code x) x in
    let h =
      subst (λ (f : Ptr → ℕ). Got (get fuel b w') w' xs (freed f ds free')) kept.1
        (get-Got fuel b w' ds xs free' (without-Stored w x (ds ++ xs) free s r.0 r.1)
          (Stale-bytes w.mem w'.mem ds kept.0 stale.1) (Fresh-bytes w.mem w'.mem xs kept.0 fresh)
          (omega (arith, enough))) in
    record {
      world = h.world;
      returns =
          r.4 stale.0
          ∙ ap (λ p. p >>= λ p. get fuel b (record { mem = p.0; pool = p.1; box = r.0 }))
              (without-returns w x (ds ++ xs) free s r.0 r.1 b)
          ∙ h.returns;
      stored = h.stored;
      bytes = h.bytes ∙ kept.0;
      code = h.code ∙ kept.1;
      locks = h.locks ∙ r.2;
    }
