-- ===== src/Network/Sysctls.antt =====
-- p_network.go: network_sysctls, the sizes of the socket buffers.
use ratbond.Base.{[], ◌∷◌, codes, M, ◌>>◌}
use ratbond.Outside.{Outside}
use ratbond.Client.State.{State}
use ratbond.Client.Opening.{run}

module _ (out : Outside) where
  -- Five commands in this order.
  unfoldable pub network_sysctls : M (State out) (Unit {0})
  unfolding run
  network_sysctls = do
    run out (codes "sysctl" ∷ codes "net.core.rmem_max=26214400" ∷ [])
    run out (codes "sysctl" ∷ codes "net.core.rmem_default=26214400" ∷ [])
    run out (codes "sysctl" ∷ codes "net.core.wmem_max=26214400" ∷ [])
    run out (codes "sysctl" ∷ codes "net.core.wmem_default=26214400" ∷ [])
    run out (codes "sysctl" ∷ codes "net.core.netdev_max_backlog=2048" ∷ [])
