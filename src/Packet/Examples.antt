-- ===== src/Packet/Examples.antt =====
-- The theorems about packets at concrete inputs.
use ratbond.Packet.Wire.{is_linkdown, linkdown_message, server_sort, server_sort-linkdown_message}
use ratbond.Base.{
  ℕ, ◌%◌, ◌^◌, ◌<◌, ◌≡◌, refl, ◌↔◌, Option, some, List, [], ◌∷◌, ◌++◌, ◌==◌, if◌then◌else◌, get_or,
  replicate, codes,
}
use ratbond.Packet.Flow.{Header, extract_dst, extract_src, extract_dst-extract_src}

-- A parser of the protocol alone: client 1 and server 2, told apart by byte 0.
parse_demo : List ℕ → Option Header
parse_demo b =
    if get_or b 0 0 == 1
    then some (record { protocol = 6; src = codes "1"; dst = codes "2" })
    else some (record { protocol = 6; src = codes "2"; dst = codes "1" })

abbrev request : List ℕ
request = 1 ∷ (replicate 19 0 ++ (4 ∷ 210 ∷ 0 ∷ 80 ∷ []))

abbrev response : List ℕ
response = 2 ∷ (replicate 19 0 ++ (0 ∷ 80 ∷ 4 ∷ 210 ∷ []))

extract_dst-extract_src_example :
    extract_dst parse_demo response 24 ≡ extract_src parse_demo request 24
unfolding parse_demo
extract_dst-extract_src_example =
    extract_dst-extract_src parse_demo (record { protocol = 6; src = codes "1"; dst = codes "2" })
      (record { protocol = 6; src = codes "2"; dst = codes "1" }) request response 24 24 refl refl
      (record {
        protocol_kept = refl;
        src_swapped = refl;
        dst_swapped = refl;
        src_port_high = refl;
        src_port_low = refl;
        dst_port_high = refl;
        dst_port_low = refl;
      })
      refl

server_sort-linkdown_message_example :
    (server_sort (linkdown_message 66196) ≡ is_linkdown (66196 % 2 ^ 16))
    × ((server_sort (linkdown_message 66196) ≡ is_linkdown 66196) ↔ (66196 < 2 ^ 16))
server_sort-linkdown_message_example = server_sort-linkdown_message 66196
