-- ===== src/Client/Opening.antt =====
-- main.go: createTun and create_session; r_tunnel.go: NewSession; p_runthings.go: runthing.
use ratbond.Base.{
  ℕ, Bool, Option, none, some, List, [], ◌∷◌, ◌++◌, ◌==◌, if◌then◌else◌, Text, codes, text_eq,
  decimal, nil_deref, panic, M, ◌>>=◌, ◌>>◌, pure, stop,
}
use ratbond.Outside.{Outside, Handles, unresolved, refused, connected, Connected}
use ratbond.Client.State.{
  RatSession, State, runs, sets_options, client_options, session_options, emit, next_call,
}

-- AsyncExecData; `error` says whether there is one.
pub record AsyncExecData : Type 0 where
  pub output : Text
  pub error : Bool

module _ (out : Outside) where
  open out use {options, connect, open_tun, tun_name, output}

  -- runthing; a command that fails gives the text "error".
  unfoldable pub runthing : List Text → M (State out) Text
  runthing command = do
    emit out (runs command)
    n ← next_call out
    pure (if (output n).1 then codes "error" else (output n).0)

  -- runthing_async, which the program does not call; the second result is what it sends.
  unfoldable pub runthing_async : List Text → M (State out) (Text × AsyncExecData)
  runthing_async command = do
    emit out (runs command)
    n ← next_call out
    pure ((output n).0, record { output = (output n).0; error = (output n).1 })

  unfoldable pub run : List Text → M (State out) (Unit {0})
  unfolding runthing
  run command = do printed ← runthing command; pure tt

  unfoldable pub configure_tun : Text → Text → M (State out) (Unit {0})
  unfolding run
  configure_tun name ip = do
    run (codes "ip" ∷ codes "addr" ∷ codes "add" ∷ (ip ++ codes "/30") ∷ codes "dev" ∷ name ∷ [])
    run (
        codes "ip"
        ∷ codes "link"
        ∷ codes "set"
        ∷ name
        ∷ codes "mtu"
        ∷ decimal options.tunnel_mtu
        ∷ [])
    run (codes "ip" ∷ codes "link" ∷ codes "set" ∷ name ∷ codes "up" ∷ [])

  -- config.Name
  abbrev pub config_name : ℕ → Text
  config_name tid =
      if text_eq options.tunnel_name [] then codes "tun" ++ decimal tid else options.tunnel_name

  unfoldable pub create_tun : ℕ → Text → M (State out) (Option ℕ)
  unfolding configure_tun
  create_tun tid ip = do
    n ← next_call out
    elim (open_tun n (config_name tid)) [
      | none ↦ pure none
      | some i ↦ do configure_tun (tun_name i) ip; pure (some i)
    ]

  -- NewSession, on what kcp.NewConn3 gives; `none` is its error.
  unfoldable pub new_session : ℕ → Option Handles → M (State out) (Option RatSession)
  new_session convid opened = if convid == 0 then stop panic else (elim opened [
    | none ↦ pure none
    | some h ↦ do
      emit out (sets_options h.kcp session_options)
      pure (some (record { convid = convid; kcp = h.kcp; udp_conn = some h.udp; remote = none }))
  ])

  -- session.kcp of the nil session is a panic.
  unfoldable pub tune_session : Option RatSession → M (State out) RatSession
  tune_session none = stop nil_deref
  tune_session (some s) = do emit out (sets_options s.kcp client_options); pure s

  unfoldable pub open_session : ℕ → Option Handles → M (State out) RatSession
  unfolding new_session tune_session
  open_session convid opened = do s ← new_session convid opened; tune_session s

  -- A socket bound to the address `src` of a link, and a session on it to the server.
  abbrev pub dial : Text → ℕ → ℕ → Connected
  dial src n port = connect n options.connect_addr src port

  -- create_session; its errors end in l.Panicf.
  unfoldable pub create_session : ℕ → Text → M (State out) RatSession
  unfolding open_session
  create_session convid src = do
    n ← next_call out
    elim (dial src n convid) [
      | unresolved ↦ stop panic
      | refused ↦ open_session convid none
      | connected h ↦ open_session convid (some h)
    ]
