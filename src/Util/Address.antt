-- ===== src/Util/Address.antt =====
-- net.IP, as IpHosts of p_utils.go uses it: an address is its bytes, the most significant first.
use ratbond.Base.{
  ℕ, zero, suc, ◌+◌, ◌*◌, ◌/◌, ◌%◌, ◌≡◌, refl, ◌&&◌, Option, none, some, List, [], ◌∷◌, ◌++◌, arith,
  ltb, ◌==◌, if◌then◌else◌, length, Text, codes, text_eq, decimal, hex, take, drop,
}

-- The twelve bytes before an IPv4 address that is written in sixteen.
abbrev mapped_prefix : List ℕ
mapped_prefix = 0 ∷ 0 ∷ 0 ∷ 0 ∷ 0 ∷ 0 ∷ 0 ∷ 0 ∷ 0 ∷ 0 ∷ 255 ∷ 255 ∷ []

-- ip.To4(), where `none` is nil
unfoldable pub to4 : List ℕ → Option (List ℕ)
to4 ip =
    if length ip == 4
    then some ip
    else if length ip == 16 && text_eq (take 12 ip) mapped_prefix
    then some (drop 12 ip)
    else none

-- An address as IPNet.Contains compares it: its four bytes where it has them.
unfoldable pub compared : List ℕ → List ℕ
unfolding to4
compared ip = elim (to4 ip) [ none ↦ ip | some ip4 ↦ ip4 ]

pub compared-four : (ip : List ℕ) → length ip ≡ 4 → compared ip ≡ ip
unfolding compared
compared-four ip h = ground arith

unfoldable pub dotted : List ℕ → Text
dotted [] = []
dotted (b ∷ []) = decimal b
dotted (b ∷ c ∷ bs) = decimal b ++ (codes "." ++ dotted (c ∷ bs))

-- A byte in two digits.
hex_byte : ℕ → Text
unfolding hex
hex_byte b = if ltb b 16 then 48 ∷ hex b else hex b

hex_bytes : List ℕ → Text
unfolding hex_byte
hex_bytes [] = []
hex_bytes (b ∷ bs) = hex_byte b ++ hex_bytes bs

-- The groups of two bytes.
groups : List ℕ → List ℕ
groups [] = []
groups (b ∷ []) = []
groups (b ∷ c ∷ bs) = (b * 256 + c) ∷ groups bs

group_text : ℕ → Text
unfolding hex hex_byte
group_text g = if ltb g 256 then hex g else hex (g / 256) ++ hex_byte (g % 256)

-- How many groups at the front are 0.
zeros : List ℕ → ℕ
zeros [] = 0
zeros (g ∷ gs) = let more = zeros gs in if g == 0 then suc more else 0

-- Where the first longest run of at least two zero groups starts, and how long it is; `at` is the
-- position of the list, and the run found so far stands in the last two.
longest_run : ℕ → ℕ → ℕ → List ℕ → ℕ × ℕ
unfolding zeros
longest_run at start size [] = (start, size)
longest_run at start size (g ∷ gs) =
    let here = zeros (g ∷ gs) in
    if ltb 1 here && ltb size here
    then longest_run (suc at) at here gs
    else longest_run (suc at) start size gs

-- Groups with colons between them.
joined_groups : List ℕ → Text
unfolding group_text
joined_groups [] = []
joined_groups (g ∷ []) = group_text g
joined_groups (g ∷ h ∷ gs) = group_text g ++ (codes ":" ++ joined_groups (h ∷ gs))

-- The run of zeros is written as two colons.
ipv6_text : List ℕ → Text
unfolding groups longest_run joined_groups
ipv6_text ip =
    let gs = groups ip in
    let (start, size) = longest_run 0 0 0 gs in
    if size == 0
    then joined_groups gs
    else joined_groups (take start gs) ++ (codes "::" ++ joined_groups (drop (start + size) gs))

-- ip.String()
unfoldable pub ip_string : List ℕ → Text
unfolding to4 dotted hex_bytes ipv6_text
ip_string ip =
    if length ip == 0
    then codes "<nil>"
    else if length ip == 4
    then dotted ip
    else if length ip == 16
    then (elim (to4 ip) [ some ip4 ↦ dotted ip4 | none ↦ ipv6_text ip ])
    else codes "?" ++ hex_bytes ip

abbrev zero_words : ℕ → List ℕ → List ℕ
zero_words zero ip = ip
zero_words (suc n) ip = 0 ∷ 0 ∷ zero_words n ip

loopback : ip_string (zero_words 7 (0 ∷ 1 ∷ [])) ≡ codes "::1"
unfolding ip_string decimal text_eq hex
loopback = refl

unspecified : ip_string (zero_words 8 []) ≡ codes "::"
unfolding ip_string decimal text_eq hex
unspecified = refl

documentation :
    ip_string (32 ∷ 1 ∷ 13 ∷ 184 ∷ 0 ∷ 0 ∷ 0 ∷ 1 ∷ zero_words 3 (10 ∷ 188 ∷ []))
    ≡ codes "2001:db8:0:1::abc"
unfolding ip_string decimal text_eq hex
documentation = refl

mapped : ip_string (zero_words 5 (255 ∷ 255 ∷ 10 ∷ 0 ∷ 0 ∷ 6 ∷ [])) ≡ codes "10.0.0.6"
unfolding ip_string decimal text_eq hex
mapped = refl
