-- ===== src/Aggregator/Faithful.antt =====
-- p_aggregator.go and p_mqtt.go: the handlers in any order, and what the started clients are told.
use ratbond.Aggregator.Mqtt.{start_with, do_mqtt_requests, mqtt_send, mqtt_sub, drop_client}
use ratbond.Aggregator.Handlers.{on_connect, on_lost, take_token, take_argv, on_message}
use mathlib.Core.Path.{subst, sym}
use ratbond.Base.{
  ◌≡◌, refl, ◌≢◌, inl, inr, Bool, true, false, ◌&&◌, not, Option, none, some, List, [], ◌∷◌,
  if◌then◌else◌, Elem, Text, codes, text_eq, text_eq_iff, exit_one, Outcome, done, fault, M, ◌>>=◌,
  ◌>>◌, pure, stop, modify,
}
use ratbond.Outside.{Outside}
use ratbond.Aggregator.State.{
  Aggregator, starts_client, act, parse_given, need_token_topic, need_argv_topic, token_topic,
  any_topic, network_get_mac, argv_topic,
}
use ratbond.Aggregator.Quiet.{
  IsQuiet, Quietly, Ensures, Ensures-bind, parse_given-Quietly, Quietly-bind, mqtt_send-Quietly,
  mqtt_sub-Quietly, drop_client-Quietly, modify-Quietly, network_get_mac-Quietly,
}

module _ (out : Outside) where
  -- Every client was started with the list that the stored argv decodes to.
  pub record IsFaithful (a : Aggregator) : Type 0 where
    pub follows :
        (args : List Text)
        → Elem (starts_client args) a.acts
        → (a.argv ≢ []) × (out.decode_argv a.argv ≡ some args)

  abbrev pub Faithfully : {A : Type 0} → M Aggregator A → Type 0
  Faithfully m = (a : Aggregator) → IsFaithful a → Ensures (λ _ b. IsFaithful b) (m a)

  IsQuiet-IsFaithful : (a b : Aggregator) → IsQuiet a b → IsFaithful a → IsFaithful b
  IsQuiet-IsFaithful a b q f = record {
    follows = λ args h.
        subst (λ t. (t ≢ []) × (out.decode_argv t ≡ some args)) (sym q.argv_kept)
          (f.follows args (q.no_start args h));
  }

  Ensures-IsFaithful :
      {A : Type 0} (a : Aggregator) (o : Outcome Aggregator A)
      → Ensures (λ _ b. IsQuiet a b) o
      → IsFaithful a
      → Ensures (λ _ b. IsFaithful b) o
  Ensures-IsFaithful a (done x b) q f = IsQuiet-IsFaithful a b q f
  Ensures-IsFaithful a (fault e b) q f = tt

  pub Quietly-Faithfully : {A : Type 0} (m : M Aggregator A) → Quietly m → Faithfully m
  Quietly-Faithfully m q a f = Ensures-IsFaithful a (m a) (q a) f

  pub Faithfully-bind :
      {A B : Type 0} (m : M Aggregator A) (f : A → M Aggregator B)
      → Faithfully m
      → ((x : A) → Faithfully (f x))
      → Faithfully (do x ← m; f x)
  Faithfully-bind m f hm hf a h =
      Ensures-bind (λ _ b. IsFaithful b) (λ _ b. IsFaithful b) f (m a) (hm a h) λ x b q. hf x b q

  pub if-Faithfully :
      {A : Type 0} (b : Bool) (m n : M Aggregator A)
      → Faithfully m
      → Faithfully n
      → Faithfully (if b then m else n)
  if-Faithfully true m n hm hn = hm
  if-Faithfully false m n hm hn = hn

  -- A start with the list that the argv decodes to.
  started :
      (a b : Aggregator) (args : List Text)
      → IsQuiet a b
      → IsFaithful a
      → a.argv ≢ []
      → out.decode_argv a.argv ≡ some args
      → IsFaithful (record b { acts = starts_client args ∷ b.acts })
  started a b args q f given e = record {
    follows = λ xs h. elim h [
      | inl same ↦
          subst (λ t. (t ≢ []) × (out.decode_argv t ≡ some xs)) (sym q.argv_kept) (given, cc)
      | inr k ↦ (IsQuiet-IsFaithful a b q f).follows xs k
    ];
  }

  start_with-IsFaithful :
      (o : Option (List Text)) (a : Aggregator)
      → IsFaithful a
      → a.argv ≢ []
      → out.decode_argv a.argv ≡ o
      → Ensures (λ _ b. IsFaithful b) (start_with out o a)
  unfolding start_with
  start_with-IsFaithful none a f given e = f
  start_with-IsFaithful (some args) a f given e =
      Ensures-bind (λ _ b. IsQuiet a b) (λ _ b. IsFaithful b) (λ _. act (starts_client args))
        (parse_given out (out.kong_parse args) a) (parse_given-Quietly out (out.kong_parse args) a)
        λ x b q. started a b args q f given e

  text_eq_given : (t : Text) → text_eq t [] ≡ false → t ≢ []
  unfolding text_eq
  text_eq_given t e k = cc

  -- Both branches of a test, each with what the test says there.
  if-IsFaithful :
      {A : Type 0} (b : Bool) (m n : M Aggregator A) (a : Aggregator)
      → (b ≡ true → Ensures (λ _ c. IsFaithful c) (m a))
      → (b ≡ false → Ensures (λ _ c. IsFaithful c) (n a))
      → Ensures (λ _ c. IsFaithful c) ((if b then m else n) a)
  if-IsFaithful true m n a hm hn = hm refl
  if-IsFaithful false m n a hm hn = hn refl

  -- The case with a token and an argv.
  ready-Faithfully :
      (a : Aggregator)
      → a.argv ≢ []
      → IsFaithful a
      → Ensures
          (λ _ b. IsFaithful b)
          ((if a.run_client then pure tt else start_with out (out.decode_argv a.argv)) a)
  ready-Faithfully a given f =
      if-IsFaithful a.run_client (pure tt) (start_with out (out.decode_argv a.argv)) a (λ _. f)
        λ _. start_with-IsFaithful (out.decode_argv a.argv) a f given refl

  ask_token-Quietly :
      (secret : Text)
      → Quietly (do mac ← network_get_mac out; mqtt_send (need_token_topic mac) secret)
  ask_token-Quietly secret =
      Quietly-bind (network_get_mac out) (λ mac. mqtt_send (need_token_topic mac) secret)
        (network_get_mac-Quietly out) λ mac. mqtt_send-Quietly (need_token_topic mac) secret

  pub do_mqtt_requests-Faithfully : Faithfully (do_mqtt_requests out)
  unfolding do_mqtt_requests
  do_mqtt_requests-Faithfully a f =
      if-IsFaithful (text_eq a.token [])
        (do mac ← network_get_mac out; mqtt_send (need_token_topic mac) a.token_secret) _ a
        (λ _. Ensures-IsFaithful a _ (ask_token-Quietly a.token_secret a) f)
        λ _.
          if-IsFaithful (text_eq a.argv []) (mqtt_send (need_argv_topic a.token) (codes "hello")) _
            a
            (λ _.
              Ensures-IsFaithful a _ (mqtt_send-Quietly (need_argv_topic a.token) (codes "hello") a)
                f)
            λ e. ready-Faithfully a (text_eq_given a.argv e) f

  pub on_connect-Faithfully : Faithfully (on_connect out)
  unfolding on_connect
  on_connect-Faithfully a f =
      Faithfully-bind (network_get_mac out)
        (λ mac. do mqtt_sub (token_topic mac); do_mqtt_requests out)
        (Quietly-Faithfully (network_get_mac out) (network_get_mac-Quietly out))
        (λ mac.
          Faithfully-bind (mqtt_sub (token_topic mac)) (λ _. do_mqtt_requests out)
            (Quietly-Faithfully (mqtt_sub (token_topic mac)) (mqtt_sub-Quietly (token_topic mac)))
            λ _. do_mqtt_requests-Faithfully)
        (record a { connected = true; token = [] }) (record { follows = f.follows })

  pub on_lost-Faithfully : Faithfully (on_lost out)
  unfolding on_lost
  on_lost-Faithfully a f =
      Quietly-Faithfully
        (do
          drop_client a.mqtt_client
          modify (λ b. record b { connected = false; mqtt_client = none; token = [] }))
        (Quietly-bind (drop_client a.mqtt_client)
          (λ _. modify (λ b. record b { connected = false; mqtt_client = none; token = [] }))
          (drop_client-Quietly a.mqtt_client)
          λ _.
            modify-Quietly (λ b. record b { connected = false; mqtt_client = none; token = [] })
              λ b. record { argv_kept = refl; no_start = λ args h. h })
        a f

  take_token-Faithfully : (payload : Text) → Faithfully (take_token out payload)
  unfolding take_token
  take_token-Faithfully payload a f =
      Quietly-Faithfully (mqtt_sub (any_topic payload)) (mqtt_sub-Quietly (any_topic payload))
        (record a { token = payload }) (record { follows = f.follows })

  same_argv :
      (old new : Text)
      → (not (text_eq old []) && not (text_eq old new)) ≡ false
      → old ≢ []
      → old ≡ new
  same_argv old new e given =
      (text_eq_iff old new).0
        (bools (text_eq old []) (text_eq old new) e λ k. given ((text_eq_iff old []).0 k))
    where
      bools : (x y : Bool) → (not x && not y) ≡ false → (x ≢ true) → y ≡ true
      bools true y e h = absurd (h refl)
      bools false true e h = refl
      bools false false e h = sym e

  -- The argv changes only where there is none yet.
  take_argv-Faithfully : (payload : Text) → Faithfully (take_argv out payload)
  unfolding take_argv
  take_argv-Faithfully payload a f =
      if-IsFaithful (not (text_eq a.argv []) && not (text_eq a.argv payload)) (stop exit_one)
        (modify (λ b. record b { argv = payload })) a (λ _. tt)
        λ e. record {
          follows = λ args h.
              subst (λ t. (t ≢ []) × (out.decode_argv t ≡ some args))
                (same_argv a.argv payload e (f.follows args h).0) (f.follows args h);
        }

  pub on_message-Faithfully : (topic payload : Text) → Faithfully (on_message out topic payload)
  unfolding on_message
  on_message-Faithfully topic payload =
      Faithfully-bind (network_get_mac out) _
        (Quietly-Faithfully (network_get_mac out) (network_get_mac-Quietly out))
        λ mac b f.
          if-IsFaithful (text_eq topic (token_topic mac)) (take_token out payload) _ b
            (λ _. take_token-Faithfully payload b f)
            λ _.
              if-IsFaithful (text_eq topic (argv_topic b.token)) (take_argv out payload) (pure tt) b
                (λ _. take_argv-Faithfully payload b f) λ _. f
