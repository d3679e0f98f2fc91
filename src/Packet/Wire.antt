-- ===== src/Packet/Wire.antt =====
-- The messages of main.go: g_hello, the LINKDOWN message of client_send_linkdown_message, and the
-- tests by which client_handle_kcp and server_accept_conn sort what they receive.
use ratbond.Base.{
  ℕ, ◌+◌, ◌*◌, ◌/◌, ◌%◌, ◌^◌, ◌≡◌, ◌≢◌, ◌<◌, Bool, ◌&&◌, List, [], ◌∷◌, arith, ◌==◌, if◌then◌else◌,
  get_or, replicate, ◌↔◌, length,
}

zeros : ℕ → List ℕ
zeros n = replicate n 0

-- g_hello, 40 zero bytes
unfoldable pub hello : List ℕ
unfolding zeros
hello = zeros 40

pub data Incoming : Type 0 where
  is_hello : Incoming
  is_linkdown : ℕ → Incoming
  is_frame : List ℕ → Incoming

-- binary.LittleEndian.PutUint16(b, uint16(disc_convid)) behind a zero byte
unfoldable pub linkdown_message : ℕ → List ℕ
linkdown_message convid = let word = convid % 2 ^ 16 in 0 ∷ word % 256 ∷ word / 256 ∷ []

-- binary.LittleEndian.Uint16
unfoldable pub uint16_le : ℕ → ℕ → ℕ
uint16_le low high = low + 256 * high

unfoldable pub is_hello_message : List ℕ → Bool
unfolding hello
is_hello_message message =
    length message == length hello && (get_or message 0 0 == 0 && get_or message 1 0 == 0)

-- What client_handle_kcp does with the n bytes that it read.
unfoldable pub client_sort : List ℕ → Incoming
unfolding is_hello_message
client_sort message = if is_hello_message message then is_hello else is_frame message

-- What server_accept_conn does with the n bytes that it read.
unfoldable pub server_sort : List ℕ → Incoming
unfolding is_hello_message uint16_le
server_sort message =
    if is_hello_message message
    then is_hello
    else if length message == 3 && get_or message 0 0 == 0
    then is_linkdown (uint16_le (get_or message 1 0) (get_or message 2 0))
    else is_frame message

-- The server reads from a LINKDOWN message the convid modulo 2^16, so the convid itself exactly
-- when that is below 2^16.
pub server_sort-linkdown_message :
    (convid : ℕ)
    → (server_sort (linkdown_message convid) ≡ is_linkdown (convid % 2 ^ 16))
      × ((server_sort (linkdown_message convid) ≡ is_linkdown convid) ↔ (convid < 2 ^ 16))
unfolding server_sort linkdown_message
server_sort-linkdown_message convid = ground arith

-- A message whose first byte is not zero, so every IP frame, reaches the tunnel on both sides
-- unchanged; the HELLO message never does.
pub sort_frames :
    (b : ℕ) (rest : List ℕ)
    → b ≢ 0
    → (client_sort (b ∷ rest) ≡ is_frame (b ∷ rest))
      × (server_sort (b ∷ rest) ≡ is_frame (b ∷ rest))
      × (client_sort hello ≡ is_hello)
      × (server_sort hello ≡ is_hello)
unfolding client_sort server_sort hello
sort_frames b rest h = ground arith
