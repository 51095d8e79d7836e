-- ===== src/FsmSystem/Turns.antt =====
-- One turn of the loop of `FSMSystem::Start`, from the mailbox to the automaton.
use publisher_subscriber_ser.Base.{
  ℕ, ◌%◌, ◌<◌, ◌≡◌, ◌≢◌, refl, List, [], ◌∷◌, ◌++◌, All, arith, length, some, ok, Run, ◌>>=◌, Build,
  ne→==,
}
use publisher_subscriber_ser.Memory.{Ptr, null}
use publisher_subscriber_ser.Line.{Links, Seg}
use publisher_subscriber_ser.MailBox
use publisher_subscriber_ser.MailBox.{TMailBox, World}
use publisher_subscriber_ser.MailBox.Clean.{Stored, Stale, Fresh, first_of, behind, freed, get-Got}
use publisher_subscriber_ser.PostOffice.{Office, put_box, get, get_sync}
use publisher_subscriber_ser.PostOffice.Laws.{box_at_lem}
use publisher_subscriber_ser.FsmSystem.{FsmSystem, Automata}
use publisher_subscriber_ser.FsmSystem.Start.{dispatch, turn}

-- What the turn does with the messages `xs` that are not discarded.
abbrev pub first_dispatched : Build → Automata → List Ptr → FsmSystem → Run FsmSystem
first_dispatched b code [] s = ok s
first_dispatched b code (x ∷ xs) s = dispatch b code x s

-- A mailbox with its messages, and the pool.
abbrev pub world_of : Office → TMailBox → World
world_of w box = record { mem = w.mem; pool = w.pool; box = box }

abbrev with_world : FsmSystem → (id : ℕ) → World → FsmSystem
with_world s id v = record s {
  office = record { mem = v.mem; pool = v.pool; post = put_box s.office.post id v.box };
}

pub record Turned (run : Run FsmSystem) (b : Build) (code : Automata) (s : FsmSystem) (id : ℕ)
    (xs : List Ptr) (free : ℕ → List Ptr) : Type 0 where
  pub world : World
  pub returns : run ≡ first_dispatched b code xs (with_world s id world)
  pub stored : Stored world (behind xs) free
  pub bytes : world.mem.bytes ≡ s.office.mem.bytes
  pub code_kept : world.mem.code ≡ s.office.mem.code

get_sync-world :
    (fuel : ℕ) (b : Build) (signalled : ℕ) (w : Office) (box : TMailBox) (x : Ptr) (v : World)
    → signalled < 256
    → signalled < w.post.mail_boxes_num
    → w.post.mail_boxes signalled ≡ some box
    → MailBox.get fuel b (world_of w box) ≡ ok (x, v)
    → get_sync fuel b signalled w
      ≡ ok (
        (signalled, x),
        record { mem = v.mem; pool = v.pool; post = put_box w.post signalled v.box },
      )
unfolding get_sync get
get_sync-world fuel b signalled w box x v byte inside at e =
    let same : signalled % 256 ≡ signalled = omega (arith, byte) in
    rw (get_sync, same, get, box_at_lem w.post signalled box inside at, ◌>>=◌, e, ◌>>=◌) refl

turn-returns :
    (fuel : ℕ) (b : Build) (code : Automata) (signalled : ℕ) (s : FsmSystem) (box : TMailBox)
    (xs : List Ptr) (v : World)
    → signalled < 256
    → signalled < s.office.post.mail_boxes_num
    → s.office.post.mail_boxes signalled ≡ some box
    → MailBox.get fuel b (world_of s.office box) ≡ ok (first_of xs, v)
    → All (λ x. x ≢ null) xs
    → turn fuel b code signalled s ≡ first_dispatched b code xs (with_world s signalled v)
unfolding turn
turn-returns fuel b code signalled s box [] v byte inside at e live =
    rw (turn, get_sync-world fuel b signalled s.office box null v byte inside at e, ◌>>=◌) refl
turn-returns fuel b code signalled s box (x ∷ xs) v byte inside at e live =
    rw
      (
        turn,
        get_sync-world fuel b signalled s.office box x v byte inside at e,
        ◌>>=◌,
        ne→== x null live.0,
      )
      refl

Seg-live : (n : Links) (p : Ptr) (ds xs : List Ptr) → Seg n p (ds ++ xs) → All (λ x. x ≢ null) xs
Seg-live n p [] [] h = tt
Seg-live n p [] (x ∷ xs) h = (h.1, Seg-live n (n x) [] xs h.3)
Seg-live n p (d ∷ ds) xs h = Seg-live n (n d) ds xs h.3

-- A turn for which the wait reports a mailbox that there is, which starts with the discarded messages
-- `ds` and beside which the pool lies, with more fuel than `ds` has messages: the discarded ones go
-- back to the pool; the first other one is dispatched, from the system in which it is out of the
-- mailbox; if there is none the turn ends with nothing done. No byte of a message changes before the
-- dispatch.
pub turn_lem :
    (fuel : ℕ) (b : Build) (code : Automata) (signalled : ℕ) (s : FsmSystem) (box : TMailBox)
    (ds xs : List Ptr) (free : ℕ → List Ptr)
    → signalled < 256
    → signalled < s.office.post.mail_boxes_num
    → s.office.post.mail_boxes signalled ≡ some box
    → Stored (world_of s.office box) (ds ++ xs) free
    → All (Stale s.office.mem) ds
    → Fresh s.office.mem xs
    → length ds < fuel
    → Turned (turn fuel b code signalled s) b code s signalled xs (freed s.office.mem.code ds free)
turn_lem fuel b code signalled s box ds xs free byte inside at stored stale fresh enough =
    let g = get-Got fuel b (world_of s.office box) ds xs free stored stale fresh enough in
    record {
      world = g.world;
      returns =
          turn-returns fuel b code signalled s box xs g.world byte inside at g.returns
            (Seg-live s.office.mem.next box.line.head ds xs stored.messages.holds.chain);
      stored = g.stored;
      bytes = g.bytes;
      code_kept = g.code;
    }
