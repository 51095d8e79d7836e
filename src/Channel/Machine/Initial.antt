-- ===== src/Channel/Machine/Initial.antt =====
-- The server as its globals are initialised, and its start (`ChAuto.cpp`, lines 34 to 46 and
-- `ChAuto::Start`): the four texts topic1 to topic4.
use publisher_subscriber_ser.Base.{
  ℕ, zero, suc, ◌+◌, ◌<◌, ◌≡◌, ap, ◌∙◌, Bool, true, false, none, List, [], ◌∷◌, ◌++◌, length, ◌==◌,
  if◌then◌else◌, arith, refl,
}
use publisher_subscriber_ser.Memory.{Bytes, update}
use publisher_subscriber_ser.Text.{At, Free, Str}
use publisher_subscriber_ser.Channel.{Channel, idle, msg_wait_cl_message}
use publisher_subscriber_ser.Channel.Topics.{Topic, text, IsTopic}
use publisher_subscriber_ser.Channel.Share.{nth_or_zero}
use publisher_subscriber_ser.Channel.Machine.{start}
use publisher_subscriber_ser.Channel.Machine.Dispatch.{transition}
use publisher_subscriber_ser.Channel.Machine.Cycles.{Serves}

abbrev pub weather : Topic
weather = record {
  name = b'W' ∷ b'E' ∷ b'A' ∷ b'T' ∷ b'H' ∷ b'E' ∷ b'R' ∷ [];
  body =
      32 ∷ b'B' ∷ b'e' ∷ b'l' ∷ b'g' ∷ b'r' ∷ b'a' ∷ b'c' ∷ b'e' ∷ 32 ∷ b'8' ∷ b'C' ∷ 32 ∷ 32 ∷ b'N'
      ∷ b'e' ∷ b'w' ∷ 32 ∷ b'Y' ∷ b'o' ∷ b'r' ∷ b'k' ∷ 32 ∷ b'3' ∷ b'C' ∷ 32 ∷ 32 ∷ b'L' ∷ b'o'
      ∷ b'n' ∷ b'd' ∷ b'o' ∷ b'n' ∷ 32 ∷ b'9' ∷ b'C' ∷ 32 ∷ 32 ∷ b'T' ∷ b'o' ∷ b'k' ∷ b'y' ∷ b'o'
      ∷ 32 ∷ b'5' ∷ b'C' ∷ 32 ∷ 32 ∷ b'M' ∷ b'o' ∷ b's' ∷ b'c' ∷ b'o' ∷ b'w' ∷ 32 ∷ b'-' ∷ b'9'
      ∷ b'C' ∷ b'`' ∷ [];
}

abbrev pub football : Topic
football = record {
  name = b'F' ∷ b'O' ∷ b'O' ∷ b'T' ∷ b'B' ∷ b'A' ∷ b'L' ∷ b'L' ∷ [];
  body =
      32 ∷ b'F' ∷ b'r' ∷ b'a' ∷ b'n' ∷ b'c' ∷ b'e' ∷ 32 ∷ b'4' ∷ b':' ∷ b'2' ∷ 32 ∷ b'C' ∷ b'r'
      ∷ b'o' ∷ b'a' ∷ b't' ∷ b'i' ∷ b'a' ∷ 32 ∷ 32 ∷ b'B' ∷ b'e' ∷ b'l' ∷ b'g' ∷ b'i' ∷ b'u' ∷ b'm'
      ∷ 32 ∷ b'2' ∷ b':' ∷ b'0' ∷ 32 ∷ b'E' ∷ b'n' ∷ b'g' ∷ b'l' ∷ b'a' ∷ b'n' ∷ b'd' ∷ 32 ∷ 32
      ∷ b'G' ∷ b'e' ∷ b'r' ∷ b'm' ∷ b'a' ∷ b'n' ∷ b'y' ∷ 32 ∷ b'2' ∷ b':' ∷ b'1' ∷ 32 ∷ b'S' ∷ b'w'
      ∷ b'e' ∷ b'd' ∷ b'e' ∷ b'n' ∷ 32 ∷ 32 ∷ b'J' ∷ b'a' ∷ b'p' ∷ b'a' ∷ b'n' ∷ 32 ∷ b'2' ∷ b':'
      ∷ b'2' ∷ 32 ∷ b'S' ∷ b'e' ∷ b'n' ∷ b'e' ∷ b'g' ∷ b'a' ∷ b'l' ∷ b'`' ∷ [];
}

abbrev pub intel_cpu : Topic
intel_cpu = record {
  name = b'I' ∷ b'N' ∷ b'T' ∷ b'E' ∷ b'L' ∷ b'_' ∷ b'C' ∷ b'P' ∷ b'U' ∷ [];
  body =
      32 ∷ b'i' ∷ b'3' ∷ b'=' ∷ b'1' ∷ b'8' ∷ b'0' ∷ b'$' ∷ 32 ∷ 32 ∷ b'i' ∷ b'5' ∷ b'=' ∷ b'2'
      ∷ b'9' ∷ b'0' ∷ b'$' ∷ 32 ∷ 32 ∷ b'i' ∷ b'7' ∷ b'=' ∷ b'4' ∷ b'3' ∷ b'0' ∷ b'$' ∷ 32 ∷ 32
      ∷ b'i' ∷ b'9' ∷ b'=' ∷ b'1' ∷ b'4' ∷ b'8' ∷ b'0' ∷ b'$' ∷ b'`' ∷ [];
}

abbrev pub colleges_in_america : Topic
colleges_in_america = record {
  name =
      b'C' ∷ b'O' ∷ b'L' ∷ b'L' ∷ b'E' ∷ b'G' ∷ b'E' ∷ b'S' ∷ b'_' ∷ b'I' ∷ b'N' ∷ b'_' ∷ b'A'
      ∷ b'M' ∷ b'E' ∷ b'R' ∷ b'I' ∷ b'C' ∷ b'A' ∷ [];
  body =
      32 ∷ b'S' ∷ b't' ∷ b'a' ∷ b'n' ∷ b'f' ∷ b'o' ∷ b'r' ∷ b'd' ∷ 32 ∷ 32 ∷ b'H' ∷ b'a' ∷ b'r'
      ∷ b'v' ∷ b'a' ∷ b'r' ∷ b'd' ∷ 32 ∷ 32 ∷ b'P' ∷ b'r' ∷ b'i' ∷ b'n' ∷ b'c' ∷ b'e' ∷ b't' ∷ b'o'
      ∷ b'n' ∷ 32 ∷ 32 ∷ b'Y' ∷ b'a' ∷ b'l' ∷ b'e' ∷ 32 ∷ 32 ∷ b'D' ∷ b'u' ∷ b'k' ∷ b'e' ∷ b'`'
      ∷ [];
}

abbrev pub initial_topics : List Topic
initial_topics = weather ∷ football ∷ intel_cpu ∷ colleges_in_america ∷ []

-- The texts of the topics; all other rows are 0.
unfoldable pub initial_rows : List Topic → ℕ → Bytes
initial_rows [] r = nth_or_zero []
initial_rows (t ∷ ts) zero = nth_or_zero (text t)
initial_rows (t ∷ ts) (suc r) = initial_rows ts r

abbrev pub initial : Channel
initial = record {
  state = idle;
  data_buffer = λ _. 0;
  publisher_counter = 4;
  already_exists = false;
  index = 0;
  rows = initial_rows initial_topics;
  all_server_data = λ _. none;
  current_topic = λ _. 0;
  client_address = 0;
  socket_open = false;
  posted = [];
  sent = [];
}

unfoldable pub has : ℕ → List ℕ → Bool
has c [] = false
has c (x ∷ xs) = if x == c then true else has c xs

pub has-Free : (c : ℕ) (s : List ℕ) → has c s ≡ false → Free c s
unfolding has
has-Free c [] h = tt
has-Free c (x ∷ s) h = ((λ e. ground arith), has-Free c s (ground arith))

nth_or_zero-At :
    (a : Bytes) (s : List ℕ) (i : ℕ)
    → ((k : ℕ) → a (i + k) ≡ nth_or_zero s k)
    → At a i (s ++ 0 ∷ [])
unfolding nth_or_zero
nth_or_zero-At a [] i h = (ap a (omega arith) ∙ h 0, tt)
nth_or_zero-At a (x ∷ s) i h =
    (ap a (omega arith) ∙ h 0, nth_or_zero-At a s (i + 1) (λ k. ap a (omega arith) ∙ h (suc k)))

pub literal-Str : (s : List ℕ) → has 0 s ≡ false → Str (nth_or_zero s) 0 s
literal-Str s h =
    (nth_or_zero-At (nth_or_zero s) s 0 (λ k. ap (nth_or_zero s) (omega arith)), has-Free 0 s h)

pub literal-IsTopic :
    (t : Topic)
    → has b':' t.name ≡ false
    → has 0 (text t) ≡ false
    → length t.name < 50
    → length (text t) < 150
    → IsTopic t
literal-IsTopic t colon nul short fits = record {
  colon = has-Free b':' t.name colon;
  no_nul = has-Free 0 (text t) nul;
  short = short;
  fits = fits;
}

-- A server that starts without an error keeps the four topics of the source, and its next round
-- receives a datagram.
pub start-Serves : Serves (start true true true initial) initial_topics
unfolding start initial_rows has transition update
start-Serves = record {
  holds = record {
    counted = refl;
    started = omega arith;
    few = omega arith;
    topics = (
      refl,
      literal-IsTopic weather refl refl (omega arith) (omega arith),
      literal-Str (text weather) refl,
      (
        refl,
        literal-IsTopic football refl refl (omega arith) (omega arith),
        literal-Str (text football) refl,
        (
          refl,
          literal-IsTopic intel_cpu refl refl (omega arith) (omega arith),
          literal-Str (text intel_cpu) refl,
          (
            refl,
            literal-IsTopic colleges_in_america refl refl (omega arith) (omega arith),
            literal-Str (text colleges_in_america) refl,
            tt,
          ),
        ),
      ),
    );
  };
  clear = refl;
  receives = record { event = msg_wait_cl_message; alone = refl; receiving = refl };
}
