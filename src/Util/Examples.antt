-- ===== src/Util/Examples.antt =====
-- The theorems about addresses and sizes at concrete inputs, and tests.
use ratbond.Util.Address.{ip_string}
use ratbond.Util.Size.{byte_count_decimal, byte_count_binary, Shows, byte_counts-Show}
use ratbond.Base.{◌+◌, ◌%◌, ◌^◌, ◌≡◌, some, [], ◌∷◌, arith, length, codes, decimal}
use ratbond.Util.Slash30.{ip_hosts-slash_30}
use ratbond.Util.Hosts.{ip_value-ipinc, ipinc, ip_hosts, ip_value, AreBytes}

byte_counts-Show_example :
    Shows 1000 1500000 (byte_count_decimal 1500001 1500000)
    × Shows 1024 1500000 (byte_count_binary 1500001 1500000)
byte_counts-Show_example = byte_counts-Show 1500001 1500000 (omega arith) (omega arith)

ip_value-ipinc_example :
    (ip_value (ipinc (10 ∷ 0 ∷ 255 ∷ 255 ∷ []))
      ≡ (ip_value (10 ∷ 0 ∷ 255 ∷ 255 ∷ []) + 1) % 256 ^ 4)
    × AreBytes (ipinc (10 ∷ 0 ∷ 255 ∷ 255 ∷ []))
    × (length (ipinc (10 ∷ 0 ∷ 255 ∷ 255 ∷ [])) ≡ 4)
ip_value-ipinc_example =
    ip_value-ipinc (10 ∷ 0 ∷ 255 ∷ 255 ∷ [])
      (omega arith, (omega arith, (omega arith, (omega arith, tt))))

ip_hosts-slash_30_example :
    ip_hosts 5 (some (record { ip = 10 ∷ 10 ∷ 10 ∷ 2 ∷ []; ones = 30 }))
    ≡ some (some (codes "10.10.10.1" ∷ codes "10.10.10.2" ∷ []))
unfolding ip_string decimal
ip_hosts-slash_30_example = ip_hosts-slash_30 10 10 10 2 5 (omega arith) (omega arith) (omega arith)
