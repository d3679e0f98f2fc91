-- ===== src/Print/Format.antt =====
-- p_utils.go: what the printing functions share. `Formats` is what fmt, time and kcp-go give.
use Prim.Native.String.{String}
use ratbond.Base.{
  ℕ, Bool, true, false, Option, List, [], ◌∷◌, ◌++◌, leb, if◌then◌else◌, Text, codes, decimal,
}

-- The formats of pointers, of a rate with %.2f from its bits, of the seconds between two times with
-- %.2f, of a time, and of Members() with %+v; and the RTO and statistics of kcp-go, by the call.
pub record Formats (C : Type 0) : Type 0 where
  pub kcp_pointer : ℕ → Text
  pub udp_pointer : Option ℕ → Text
  pub iface_pointer : Option ℕ → Text
  pub rate : ℕ → Text
  pub seconds : ℕ → ℕ → Text
  pub stamp : ℕ → Text
  pub members_text : C → Text
  pub rto : ℕ → ℕ
  pub snmp : ℕ → List (Text × Text)

-- name=text and the comma behind it
abbrev pub field : String → Text → Text
field name text = codes name ++ (text ++ codes ", ")

-- %t
unfoldable pub truth : Bool → Text
truth true = codes "true"
truth false = codes "false"

-- The lines of printSnmp.
unfoldable pub snmp_lines : List (Text × Text) → Text
snmp_lines [] = []
snmp_lines ((name, value) ∷ rest) = name ++ (codes "=" ++ (value ++ (10 ∷ snmp_lines rest)))

unfoldable pub print_snmp : List (Text × Text) → Text
unfolding snmp_lines
print_snmp values = codes "snmp: { " ++ (10 ∷ (snmp_lines values ++ (codes "}" ++ 10 ∷ [])))

-- sort.Ints
unfoldable pub insert_sorted : ℕ → List ℕ → List ℕ
insert_sorted k [] = k ∷ []
insert_sorted k (j ∷ js) =
    let rest = insert_sorted k js in if leb k j then k ∷ (j ∷ js) else j ∷ rest

unfoldable pub sort_ints : List ℕ → List ℕ
unfolding insert_sorted
sort_ints [] = []
sort_ints (k ∷ ks) = insert_sorted k (sort_ints ks)

-- The head of printServer and printClient.
unfoldable pub print_head : String → ℕ → ℕ → ℕ → Text → Text → Text → Text → Text
print_head kind id base last ifname iface my_ip remote_ip =
    codes kind
    ++ (decimal id
        ++ (codes " { "
            ++ (field "base_convid=" (decimal base)
                ++ (field "last_convid=" (decimal last)
                    ++ (field "ifname=" ifname
                        ++ (field "iface=" iface
                            ++ (field "my_tun_ip=" my_ip
                                ++ (field "remote_tun_ip=" remote_ip
                                    ++ (10 ∷ (codes " connections={ " ++ 10 ∷ []))))))))))

-- What stands around each connection.
abbrev pub entry_text : ℕ → Text → Text
entry_text convid text =
    9 ∷ (codes "convid=" ++ (decimal convid ++ (codes " " ++ (text ++ (codes "  " ++ 10 ∷ [])))))
