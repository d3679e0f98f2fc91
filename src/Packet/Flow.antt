-- ===== src/Packet/Flow.antt =====
-- main.go: ExtractSrc and ExtractDst, the keys under which both ends hash a packet.
use ratbond.Base.{
  ℕ, ◌≤◌, ◌≡◌, ◌≢◌, ◌&&◌, Option, none, some, List, ◌++◌, arith, leb, ◌==◌, if◌then◌else◌, length,
  get_elem?, get_elem?-some, Text, codes, hex,
}

-- The fields of ipv4.Header that are read, an address in the form that `%s` prints.
pub record Header : Type 0 where
  pub protocol : ℕ
  pub src : Text
  pub dst : Text

infixl 5 ◌>>=◌
abbrev ◌>>=◌ {ℓ κ} : {A : Type ℓ} {B : Type κ} → Option A → (A → Option B) → Option B
none >>= f = none
some a >>= f = f a

abbrev colon : Text
colon = codes ":"

-- "%x%x:%x%x:%s:%s"
key : ℕ → ℕ → ℕ → ℕ → Text → Text → Text
key a b c d s t =
    hex a ++ (hex b ++ (colon ++ (hex c ++ (hex d ++ (colon ++ (s ++ (colon ++ t)))))))

-- The frame is the whole read buffer. `none` is a panic: a field of the nil header, or an index
-- out of range.
module _ (parse_header : List ℕ → Option Header) where
  unfoldable pub extract_dst : List ℕ → ℕ → Option Text
  unfolding key
  extract_dst frame frame_len = do
    header ← parse_header frame
    let tcp = do
      a ← get_elem? frame 22
      b ← get_elem? frame 23
      c ← get_elem? frame 20
      d ← get_elem? frame 21
      some (key a b c d header.src header.dst)
    if header.protocol == 6 && leb 24 frame_len
        then tcp
        else some (header.src ++ (colon ++ header.dst))

  unfoldable pub extract_src : List ℕ → ℕ → Option Text
  unfolding key
  extract_src frame frame_len = do
    header ← parse_header frame
    let tcp = do
      a ← get_elem? frame 20
      b ← get_elem? frame 21
      c ← get_elem? frame 22
      d ← get_elem? frame 23
      some (key a b c d header.dst header.src)
    if header.protocol == 6 && leb 24 frame_len
        then tcp
        else some (header.dst ++ (colon ++ header.src))

-- A frame `q` with header `k` goes the other way on the flow of `p` with header `h`.
pub record IsReply (h k : Header) (p q : List ℕ) : Type 0 where
  pub protocol_kept : k.protocol ≡ h.protocol
  pub src_swapped : k.src ≡ h.dst
  pub dst_swapped : k.dst ≡ h.src
  pub src_port_high : get_elem? q 20 ≡ get_elem? p 22
  pub src_port_low : get_elem? q 21 ≡ get_elem? p 23
  pub dst_port_high : get_elem? q 22 ≡ get_elem? p 20
  pub dst_port_low : get_elem? q 23 ≡ get_elem? p 21

module _ (parse_header : List ℕ → Option Header) where
  -- Both ends give one key to a flow: the key that the server hashes for a packet is the key that
  -- the client hashes for a packet the other way, if the two headers parse and both or neither
  -- have the 24 bytes that ports need.
  pub extract_dst-extract_src :
      (h k : Header) (p q : List ℕ) (n m : ℕ)
      → parse_header p ≡ some h
      → parse_header q ≡ some k
      → IsReply h k p q
      → leb 24 n ≡ leb 24 m
      → extract_dst parse_header q m ≡ extract_src parse_header p n
  unfolding extract_dst extract_src
  extract_dst-extract_src h k p q n m ph pk r lens = rw (
    ph, pk, r.protocol_kept, r.src_swapped, r.dst_swapped, r.src_port_high, r.src_port_low,
    r.dst_port_high, r.dst_port_low, lens,
  )

  -- On a buffer of at least 24 bytes whose header parses, neither function panics.
  pub extract_total :
      (h : Header) (p : List ℕ) (n : ℕ)
      → parse_header p ≡ some h
      → 24 ≤ length p
      → (extract_src parse_header p n ≢ none) × (extract_dst parse_header p n ≢ none)
  unfolding extract_dst extract_src
  extract_total h p n ph len =
      let (a, ea) = get_elem?-some p 20 (omega arith) in
      let (b, eb) = get_elem?-some p 21 (omega arith) in
      let (c, ec) = get_elem?-some p 22 (omega arith) in
      let (d, ed) = get_elem?-some p 23 (omega arith) in ground (arith, ph, ea, eb, ec, ed)
