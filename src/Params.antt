-- ===== src/Params.antt =====
-- The parameters of a message, stdMsg_pc16_pl16 of `Kernel/stdMsgpc16pl16.cpp`: each is a code and a
-- length, of two bytes each, and its bytes; a code of 0 ends them. A message is the bytes of its
-- buffer, and `none` a null pointer; that a buffer is long enough is the caller's to see to, and the
-- received message and the new one are two buffers. Loops have fuel.
pub mod Held
pub mod Places
pub mod Find
use publisher_subscriber_ser.Base.{
  ℕ, zero, suc, ◌+◌, ◌-◌, ◌*◌, ◌%◌, ◌^◌, Bool, true, false, not, ◌&&◌, ◌==◌, ltb, leb,
  if◌then◌else◌, Option, none, some, Run, ok, fault, out_of_fuel, ◌>>=◌, ◌>>◌, Build, assert_in,
}
use publisher_subscriber_ser.Memory.{
  Bytes, get_uint16, get_uint32, set_byte, set_uint16, set_uint32,
}

pub record StdMsg : Type 0 where
  pub current_message : Option Bytes
  pub new_message : Option Bytes
  pub current_offset : ℕ

abbrev pub param_length_offset : ℕ
param_length_offset = 2

abbrev pub param_header_length : ℕ
param_header_length = 4

abbrev pub msg_length : ℕ
msg_length = 19

abbrev pub msg_info : ℕ
msg_info = 21

-- The message behind a pointer: an assert in a debug build, and an access in any.
unfoldable pub message : Build → Option Bytes → Run Bytes
message b none = assert_in b false >> fault
message b (some m) = ok m

-- How far a parameter reaches.
abbrev pub extent : Bytes → ℕ → ℕ
extent m tmp = get_uint16 m (tmp + param_length_offset) + param_header_length

-- The loop of `FindParam`: the place of the parameter, and the new `CurrentOffset`.
unfoldable pub find_loop :
    (fuel : ℕ) → Build → Bytes → (length code tmp offset : ℕ) → Run (Option ℕ × ℕ)
find_loop zero b m length code tmp offset = out_of_fuel
find_loop (suc fuel) b m length code tmp offset =
    let offset' = (offset + extent m tmp) % 2 ^ 32 in
    if get_uint16 m tmp == 0
    then ok (none, 0)
    else if get_uint16 m tmp == code
    then ok (some tmp, offset')
    else (do
      assert_in b (ltb offset' length)
      find_loop fuel b m length code (tmp + extent m tmp) offset')

unfoldable pub find_param : (fuel : ℕ) → Build → (code start : ℕ) → StdMsg → Run (Option ℕ × StdMsg)
find_param fuel b code start s = do
  m ← message b s.current_message
  let length = get_uint16 m msg_length + msg_info
  if length == msg_info then ok (none, record s { current_offset = start }) else (do
    r ← find_loop fuel b m length code (msg_info + start) start
    ok (r.0, record s { current_offset = r.1 }))

-- What a reader takes from the place of a parameter, `none` if there is no such parameter.
unfoldable pub read_param :
    (read : Bytes → ℕ → ℕ) (fuel : ℕ) → Build → (code start : ℕ) → StdMsg → Run (Option ℕ × StdMsg)
read_param read fuel b code start s = do
  r ← find_param fuel b code start s
  elim r.0 [
    | none ↦ ok (none, r.1)
    | some tmp ↦ do
      m ← message b s.current_message
      ok (some (read m (tmp + param_header_length)), r.1)
  ]

abbrev pub get_param_byte : (fuel : ℕ) → Build → (code : ℕ) → StdMsg → Run (Option ℕ × StdMsg)
get_param_byte fuel b code s = read_param (λ m. m) fuel b code 0 s

abbrev pub get_param_word : (fuel : ℕ) → Build → (code : ℕ) → StdMsg → Run (Option ℕ × StdMsg)
get_param_word fuel b code s = read_param get_uint16 fuel b code 0 s

abbrev pub get_param_dword : (fuel : ℕ) → Build → (code : ℕ) → StdMsg → Run (Option ℕ × StdMsg)
get_param_dword fuel b code s = read_param get_uint32 fuel b code 0 s

abbrev pub get_next_param_byte : (fuel : ℕ) → Build → (code : ℕ) → StdMsg → Run (Option ℕ × StdMsg)
get_next_param_byte fuel b code s = read_param (λ m. m) fuel b code s.current_offset s

abbrev pub get_next_param_word : (fuel : ℕ) → Build → (code : ℕ) → StdMsg → Run (Option ℕ × StdMsg)
get_next_param_word fuel b code s = read_param get_uint16 fuel b code s.current_offset s

abbrev pub get_next_param_dword : (fuel : ℕ) → Build → (code : ℕ) → StdMsg → Run (Option ℕ × StdMsg)
get_next_param_dword fuel b code s = read_param get_uint32 fuel b code s.current_offset s

-- `GetParam` and `GetNextParam` with a length: where the bytes are, and how many.
unfoldable pub get_param : (fuel : ℕ) → Build → (code : ℕ) → StdMsg → Run ((Option ℕ × ℕ) × StdMsg)
get_param fuel b code s = do
  r ← find_param fuel b code 0 s
  elim r.0 [
    | none ↦ ok ((none, 0), r.1)
    | some tmp ↦ do
      m ← message b s.current_message
      ok ((some (tmp + param_header_length), get_uint16 m (tmp + param_length_offset)), r.1)
  ]

-- Here the length is read as one byte.
unfoldable pub get_next_param :
    (fuel : ℕ) → Build → (code : ℕ) → StdMsg → Run ((Option ℕ × ℕ) × StdMsg)
get_next_param fuel b code s = do
  r ← find_param fuel b code s.current_offset s
  elim r.0 [
    | none ↦ ok ((none, 0), r.1)
    | some tmp ↦ do
      m ← message b s.current_message
      ok ((some (tmp + param_header_length), m (tmp + param_length_offset)), r.1)
  ]

unfoldable pub set_end_of_params : Bytes → Bytes
unfolding set_uint16 get_uint16
set_end_of_params m =
    let m' = set_uint16 m (get_uint16 m msg_length + msg_info) 0 in
    set_uint16 m' msg_length (get_uint16 m' msg_length + param_length_offset)

-- The loop of `FindParamPlace`: the place, and the new `CurrentOffset`.
unfoldable pub place_loop : (fuel : ℕ) → Build → Bytes → (length code tmp offset : ℕ) → Run (ℕ × ℕ)
place_loop zero b m length code tmp offset = out_of_fuel
place_loop (suc fuel) b m length code tmp offset =
    let offset' = (offset + extent m tmp) % 2 ^ 32 in
    if get_uint16 m tmp == 0
    then ok (tmp, offset)
    else if ltb code (get_uint16 m tmp)
    then ok (tmp, offset)
    else (do
      assert_in b (ltb offset' length)
      place_loop fuel b m length code (tmp + extent m tmp) offset')

-- `FindParamPlace`, from the start: the new message, the place and `CurrentOffset`.
unfoldable pub find_param_place : (fuel : ℕ) → Build → (code : ℕ) → StdMsg → Run (Bytes × ℕ × ℕ)
find_param_place fuel b code s = do
  m ← message b s.new_message
  let length = get_uint16 m msg_length
  let m' = if length == 0 then set_end_of_params m else m
  r ← place_loop fuel b m' length code msg_info 0
  ok (m', r.0, r.1)

-- `memmove` of `n` bytes within the message, and from another array.
unfoldable pub move : Bytes → (dst src n : ℕ) → Bytes
move m dst src n k = if leb dst k && ltb k (dst + n) then m (k - dst + src) else m k

unfoldable pub copy_in : Bytes → (dst : ℕ) → Bytes → (n : ℕ) → Bytes
copy_in m dst param n k = if leb dst k && ltb k (dst + n) then param (k - dst) else m k

unfoldable pub add_param :
    (fuel : ℕ) → Build → (code length : ℕ) (param : Bytes) → StdMsg → Run StdMsg
add_param fuel b code length param s = do
  r ← find_param_place fuel b code s
  let tmp = r.1
  let rest = (get_uint16 r.0 msg_length + 2 ^ 32 - r.2) % 2 ^ 32
  let m = move r.0 (tmp + length + param_header_length) tmp rest
  let m = set_uint16 m tmp code
  let m = set_uint16 m (tmp + param_length_offset) length
  let m = copy_in m (tmp + param_header_length) param length
  let m = set_uint16 m msg_length (get_uint16 m msg_length + length % 2 ^ 16 + param_header_length)
  ok (record s { new_message = some m; current_offset = r.2 })

abbrev pub add_param_byte : (fuel : ℕ) → Build → (code param : ℕ) → StdMsg → Run StdMsg
add_param_byte fuel b code param s = add_param fuel b code 1 (set_byte (λ _. 0) 0 param) s

abbrev pub add_param_word : (fuel : ℕ) → Build → (code param : ℕ) → StdMsg → Run StdMsg
add_param_word fuel b code param s = add_param fuel b code 2 (set_uint16 (λ _. 0) 0 param) s

abbrev pub add_param_dword : (fuel : ℕ) → Build → (code param : ℕ) → StdMsg → Run StdMsg
add_param_dword fuel b code param s = add_param fuel b code 4 (set_uint32 (λ _. 0) 0 param) s

unfoldable pub remove_param : (fuel : ℕ) → Build → (code : ℕ) → StdMsg → Run (Bool × StdMsg)
remove_param fuel b code s = do
  assert_in b (not (code == 0))
  r ← find_param_place fuel b code s
  let tmp = r.1
  if not (get_uint16 r.0 tmp == code)
      then ok (false, record s { new_message = some r.0; current_offset = r.2 })
      else (do
        let size = get_uint16 r.0 (tmp + param_length_offset)
        let m = set_uint16 r.0 msg_length ((get_uint16 r.0 msg_length + 2 ^ 32 - 2 - size) % 2 ^ 32)
        let rest =
            (get_uint16 m msg_length + 2 * 2 ^ 32 - r.2 - param_header_length - size) % 2 ^ 32
        let m = move m tmp (tmp + size + param_header_length) rest
        ok (true, record s { new_message = some m; current_offset = r.2 }))
