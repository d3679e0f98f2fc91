-- ===== src/Client/Staying.antt =====
-- The parts of client_connect_server that leave the table as it is.
use ratbond.Client.Opening.{config_name, runthing, run, create_tun, configure_tun}
use ratbond.Client.State.{Effect, emit, RatSession, State, session_write, set_write_deadline}
use ratbond.Base.{
  ℕ, ◌+◌, ◌≡◌, refl, ◌∙◌, inl, inr, Option, none, some, List, ◌∷◌, ◌++◌, Bool-cases, Option-cases,
  Text, codes, M, ◌>>=◌, ◌>>◌, pure, Returns, returns, Returns-bind, Returns-weaken, Returns-same,
}
use ratbond.Client.State.{Effect, emit, RatSession, State, session_write, set_write_deadline}
use ratbond.Network.Interfaces.{Interface}
use ratbond.Outside.{Outside}
use ratbond.Network.Wan.{get_wan_ip}
use ratbond.Network.Addresses.{get_wan_ip-answer, ips_named, wan_answer}

module _ (out : Outside) where
  open out use {options, interfaces, open_tun, resolves, http_get, circle_new, members-new}

  -- Neither the servers nor the heap change.
  pub record IsSilent (w w' : State out) : Type 0 where
    pub servers_kept : w'.servers ≡ w.servers
    pub heap_kept : w'.heap ≡ w.heap
    pub fresh_kept : w'.fresh ≡ w.fresh

  pub IsSilent-trans : (u v w : State out) → IsSilent u v → IsSilent v w → IsSilent u w
  IsSilent-trans u v w p q = record {
    servers_kept = q.servers_kept ∙ p.servers_kept;
    heap_kept = q.heap_kept ∙ p.heap_kept;
    fresh_kept = q.fresh_kept ∙ p.fresh_kept;
  }

  abbrev pub Silently : {A : Type 0} → M (State out) A → Type 0
  Silently m = (w : State out) → Returns (λ _ w'. IsSilent w w') (m w)

  pub Silently-bind :
      {A B : Type 0} (m : M (State out) A) (f : A → M (State out) B)
      → Silently m
      → ((x : A) → Silently (f x))
      → Silently (do x ← m; f x)
  Silently-bind m f hm hf w =
      Returns-bind m f w (hm w) λ x v q. Returns-weaken (hf x v) λ y u r. IsSilent-trans w v u q r

  pub runthing-Silently : (command : List Text) → Silently (runthing out command)
  unfolding runthing
  runthing-Silently command w =
      returns (record { servers_kept = refl; heap_kept = refl; fresh_kept = refl })

  pub run-Silently : (command : List Text) → Silently (run out command)
  unfolding run
  run-Silently command =
      Silently-bind (runthing out command) (λ _. pure tt) (runthing-Silently command)
        λ _ w. returns (record { servers_kept = refl; heap_kept = refl; fresh_kept = refl })

  pub pure-Silently : {A : Type 0} (x : A) → Silently (pure x)
  pure-Silently x w = returns (record { servers_kept = refl; heap_kept = refl; fresh_kept = refl })

  three-Silently : (a b c : List Text) → Silently (do run out a; run out b; run out c)
  three-Silently a b c =
      Silently-bind (run out a) (λ _. do run out b; run out c) (run-Silently a)
        λ _. Silently-bind (run out b) (λ _. run out c) (run-Silently b) λ _. run-Silently c

  pub configure_tun-Silently : (name ip : Text) → Silently (configure_tun out name ip)
  unfolding configure_tun
  configure_tun-Silently name ip = three-Silently _ _ _

  -- createTun, if the device opens.
  pub create_tun-opens :
      (tid : ℕ) (ip : Text) (w : State out)
      → ((n : ℕ) → (i : ℕ) × (open_tun n (config_name out tid) ≡ some i))
      → Returns (λ made w'. ((i : ℕ) × (made ≡ some i)) × IsSilent w w') (create_tun out tid ip w)
  unfolding create_tun
  create_tun-opens tid ip w opens =
      let (i, e) = opens w.calls in
      let v : State out = record w { calls = w.calls + 1 } in
      rw e (
        Returns-bind (configure_tun out (out.tun_name i) ip) (λ _. pure (some i)) v
          (configure_tun-Silently (out.tun_name i) ip v)
          λ _ u q. returns (
            (i, refl),
            record {
              servers_kept = q.servers_kept;
              heap_kept = q.heap_kept;
              fresh_kept = q.fresh_kept;
            },
          ))

  wan_answer-Silently :
      (ips : List (Option Text)) (ip : Text) (rest : List (Option Text)) (w : State out)
      → ips ≡ some ip ∷ rest
      → Returns (λ _ w'. IsSilent w w') (wan_answer out ips w)
  wan_answer-Silently ips ip rest w e = rw e (elim (Bool-cases (resolves (ip ++ codes ":0"))) [
    | inl good ↦
        rw good (returns (record { servers_kept = refl; heap_kept = refl; fresh_kept = refl }))
    | inr bad ↦
        rw bad (returns (record { servers_kept = refl; heap_kept = refl; fresh_kept = refl }))
  ])

  -- get_wan_ip, if no list of interfaces makes its index panic.
  pub get_wan_ip-Silently :
      (ifname : Text)
      → ((n : ℕ) (ifas : List Interface)
          → interfaces n ≡ some ifas
          → (ip : Text) × (rest : List (Option Text)) × (ips_named ifname ifas ≡ some ip ∷ rest))
      → Silently (get_wan_ip out ifname)
  get_wan_ip-Silently ifname answers w =
      Returns-same (get_wan_ip-answer out ifname w) (elim (Option-cases (interfaces w.calls)) [
        | inl unlisted ↦
            rw unlisted
              (returns (record { servers_kept = refl; heap_kept = refl; fresh_kept = refl }))
        | inr (ifas, listed) ↦
            let (ip, rest, e) = answers w.calls ifas listed in
            rw listed (
              Returns-weaken
                (wan_answer-Silently (ips_named ifname ifas) ip rest
                  (record w { calls = w.calls + 1 }) e)
                λ _ v q. record {
                  servers_kept = q.servers_kept;
                  heap_kept = q.heap_kept;
                  fresh_kept = q.fresh_kept;
                })
      ])

  pub emit-Silently : (x : Effect) → Silently (emit out x)
  emit-Silently x w = returns (record { servers_kept = refl; heap_kept = refl; fresh_kept = refl })

  pub session_write-Silently :
      (session : Option RatSession) (b : List ℕ) → Silently (session_write out session b)
  unfolding session_write
  session_write-Silently none b w =
      returns (record { servers_kept = refl; heap_kept = refl; fresh_kept = refl })
  session_write-Silently (some s) b w =
      returns (record { servers_kept = refl; heap_kept = refl; fresh_kept = refl })

  pub set_write_deadline-Silently :
      (session : Option RatSession) (ms : ℕ) → Silently (set_write_deadline out session ms)
  unfolding set_write_deadline
  set_write_deadline-Silently none ms w =
      returns (record { servers_kept = refl; heap_kept = refl; fresh_kept = refl })
  set_write_deadline-Silently (some s) ms w =
      returns (record { servers_kept = refl; heap_kept = refl; fresh_kept = refl })
