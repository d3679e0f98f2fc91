-- ===== src/Aggregator/Quiet.antt =====
-- What the parts of the handlers leave alone: the argv, and the clients that were started.
use ratbond.Network.Lookup.{get_mac}
use ratbond.Main.Parse.{parse_cli}
use ratbond.Main.Cli.{Cli, Globals}
use ratbond.Aggregator.State.{
  starts_client, Aggregator, Act, publishes, subscribes, act, network_get_mac, disconnects, set_mac,
  is_addr_port, parse_given, settle, on_globals, connects, pauses, next_call,
}
use ratbond.Aggregator.Mqtt.{
  mqtt_send, mqtt_sub, through, drop_client, drop_old, mqtt_check_brokers, mqtt_connect_things,
}
use ratbond.Base.{
  ℕ, ◌+◌, ◌≡◌, refl, ◌∙◌, ◌≢◌, inl, inr, Bool, true, false, Option, none, some, List, [],
  if◌then◌else◌, Elem, Text, Outcome, done, fault, M, ◌>>=◌, ◌>>◌, pure, modify,
}
use ratbond.Outside.{Outside}

-- If the call returns, its result and final state satisfy `P`.
abbrev pub Ensures : {W A : Type 0} → (A → W → Type 0) → Outcome W A → Type 0
Ensures P (done a w) = P a w
Ensures P (fault e w) = Unit {0}

pub Ensures-bind :
    {W A B : Type 0} (Q : A → W → Type 0) (P : B → W → Type 0) (f : A → M W B) (o : Outcome W A)
    → Ensures Q o
    → ((a : A) (w : W) → Q a w → Ensures P (f a w))
    → Ensures P (elim o [ done a w ↦ f a w | fault e w ↦ fault e w ])
Ensures-bind Q P f (done a w) h k = k a w h
Ensures-bind Q P f (fault e w) h k = tt

-- No client was started between the two states, and the argv is the same.
pub record IsQuiet (a b : Aggregator) : Type 0 where
  pub argv_kept : b.argv ≡ a.argv
  pub no_start :
      (args : List Text) → Elem (starts_client args) b.acts → Elem (starts_client args) a.acts

pub IsQuiet-refl : (a : Aggregator) → IsQuiet a a
IsQuiet-refl a = record { argv_kept = refl; no_start = λ args h. h }

pub IsQuiet-trans : (a b c : Aggregator) → IsQuiet a b → IsQuiet b c → IsQuiet a c
IsQuiet-trans a b c p q = record {
  argv_kept = q.argv_kept ∙ p.argv_kept;
  no_start = λ args h. p.no_start args (q.no_start args h);
}

abbrev pub Quietly : {A : Type 0} → M Aggregator A → Type 0
Quietly m = (a : Aggregator) → Ensures (λ _ b. IsQuiet a b) (m a)

IsQuiet-after :
    {B : Type 0} (a b : Aggregator) (o : Outcome Aggregator B)
    → IsQuiet a b
    → Ensures (λ _ c. IsQuiet b c) o
    → Ensures (λ _ c. IsQuiet a c) o
IsQuiet-after a b (done y c) p q = IsQuiet-trans a b c p q
IsQuiet-after a b (fault e c) p q = tt

pub Quietly-bind :
    {A B : Type 0} (m : M Aggregator A) (f : A → M Aggregator B)
    → Quietly m
    → ((x : A) → Quietly (f x))
    → Quietly (do x ← m; f x)
Quietly-bind m f hm hf a =
    Ensures-bind (λ _ b. IsQuiet a b) (λ _ c. IsQuiet a c) f (m a) (hm a)
      λ x b q. IsQuiet-after a b (f x b) q (hf x b)

-- An act other than a start.
pub act-Quietly : (x : Act) → ((args : List Text) → starts_client args ≢ x) → Quietly (act x)
act-Quietly x other a = record {
  argv_kept = refl;
  no_start = λ args h. elim h [ inl e ↦ absurd (other args e) | inr k ↦ k ];
}

through-Quietly :
    (o : Option ℕ) (on : Bool) (make : ℕ → Act)
    → ((c : ℕ) (args : List Text) → starts_client args ≢ make c)
    → Quietly (through o on make)
unfolding through
through-Quietly none on make other a = IsQuiet-refl a
through-Quietly (some c) true make other a = act-Quietly (make c) (other c) a
through-Quietly (some c) false make other a = IsQuiet-refl a

pub mqtt_send-Quietly : (topic payload : Text) → Quietly (mqtt_send topic payload)
unfolding mqtt_send
mqtt_send-Quietly topic payload a =
    through-Quietly a.mqtt_client a.connected (λ c. publishes c topic payload) (λ c args e. cc) a

pub mqtt_sub-Quietly : (topic : Text) → Quietly (mqtt_sub topic)
unfolding mqtt_sub
mqtt_sub-Quietly topic a =
    through-Quietly a.mqtt_client a.connected (λ c. subscribes c topic []) (λ c args e. cc) a

pub drop_client-Quietly : (o : Option ℕ) → Quietly (drop_client o)
unfolding drop_client
drop_client-Quietly none a = tt
drop_client-Quietly (some c) a = act-Quietly (disconnects c) (λ args e. cc) a

drop_old-Quietly : (o : Option ℕ) → Quietly (drop_old o)
unfolding drop_old
drop_old-Quietly none a = IsQuiet-refl a
drop_old-Quietly (some c) a = act-Quietly (disconnects c) (λ args e. cc) a

-- A change of other fields.
pub modify-Quietly :
    (f : Aggregator → Aggregator) → ((a : Aggregator) → IsQuiet a (f a)) → Quietly (modify f)
modify-Quietly f same a = same a

pub if-Quietly :
    {A : Type 0} (b : Bool) (m n : M Aggregator A)
    → Quietly m
    → Quietly n
    → Quietly (if b then m else n)
if-Quietly true m n hm hn = hm
if-Quietly false m n hm hn = hn

module _ (out : Outside) where
  set_mac-Quietly : (o : Option Text) → Quietly (set_mac out o)
  unfolding set_mac
  set_mac-Quietly none a = tt
  set_mac-Quietly (some mac) a = record { argv_kept = refl; no_start = λ args h. h }

  pub network_get_mac-Quietly : Quietly (network_get_mac out)
  unfolding network_get_mac
  network_get_mac-Quietly a =
      IsQuiet-after a (record a { calls = a.calls + 1 }) _
        (record { argv_kept = refl; no_start = λ args h. h })
        (set_mac-Quietly (get_mac a.mac (out.interfaces a.calls))
          (record a { calls = a.calls + 1 }))

  settle-IsQuiet :
      {A : Type 0} (a : Aggregator) (o : Outcome Globals A)
      → Ensures (λ _ b. IsQuiet a b) (settle a o)
  settle-IsQuiet a (done x g) = record { argv_kept = refl; no_start = λ args h. h }
  settle-IsQuiet a (fault e g) = tt

  pub parse_given-Quietly : (o : Option Cli) → Quietly (parse_given out o)
  unfolding parse_given
  parse_given-Quietly none a = tt
  parse_given-Quietly (some cli) a =
      Quietly-bind (on_globals (parse_cli (is_addr_port out) out.parse_cidr cli)) (λ _. pure tt)
        (λ b. settle-IsQuiet b _) (λ _ b. IsQuiet-refl b) a

  mqtt_connect_things-Quietly : Quietly (mqtt_connect_things out)
  unfolding mqtt_connect_things
  mqtt_connect_things-Quietly a =
      Quietly-bind (drop_old a.mqtt_client) _ (drop_old-Quietly a.mqtt_client)
        (λ _.
          Quietly-bind next_call _ (λ b. record { argv_kept = refl; no_start = λ args h. h })
            λ n.
              Quietly-bind (modify (λ b. record b { mqtt_client = some n })) _
                (λ b. record { argv_kept = refl; no_start = λ args h. h })
                λ _.
                  Quietly-bind (act (connects n a.broker a.broker_port)) _
                    (act-Quietly (connects n a.broker a.broker_port) (λ args e. cc))
                    λ _.
                      if-Quietly (out.mqtt_connects n) (pure true)
                        (do act (pauses 1000); pure false) (λ b. IsQuiet-refl b)
                        (Quietly-bind (act (pauses 1000)) (λ _. pure false)
                          (act-Quietly (pauses 1000) (λ args e. cc)) λ _ b. IsQuiet-refl b))
        a

  pub mqtt_check_brokers-Quietly : Quietly (mqtt_check_brokers out)
  unfolding mqtt_check_brokers
  mqtt_check_brokers-Quietly a =
      if-Quietly a.connected (pure tt) (do made ← mqtt_connect_things out; pure tt)
        (λ b. IsQuiet-refl b)
        (Quietly-bind (mqtt_connect_things out) (λ _. pure tt) mqtt_connect_things-Quietly
          λ _ b. IsQuiet-refl b)
        a
