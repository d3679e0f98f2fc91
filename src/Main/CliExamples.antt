-- ===== src/Main/CliExamples.antt =====
-- The theorem about parse_cli at a concrete command line.
use mathlib.Core.Option.{some-injective}
use mathlib.Core.Path.{subst}
use ratbond.Base.{
  ◌≡◌, refl, ◌⊎◌, inl, Bool, true, false, Option, some, [], ◌∷◌, arith, Text, codes, exit_one, done,
  fault,
}
use ratbond.Outside.Sample.{sample_cli}
use ratbond.Util.Hosts.{Cidr}
use ratbond.Main.Cli.{default_globals, Globals}
use ratbond.Main.Parse.{parse_cli}
use ratbond.Main.Masks.{IsCidr}
use ratbond.Main.Outcome.{accepted, configured, parse_cli-total}

abbrev slash_30 : Text → Option Cidr
slash_30 t = some (record { ip = 10 ∷ 0 ∷ 0 ∷ 6 ∷ []; ones = 30 })

abbrev takes_all : Text → Bool
takes_all t = true

slash_30-IsCidr : (cidr : Cidr) → slash_30 sample_cli.tunnel_ip ≡ some cidr → IsCidr cidr
slash_30-IsCidr cidr e =
    subst IsCidr (some-injective _ _ e)
      ((omega arith, (omega arith, (omega arith, (omega arith, tt)))), inl (refl, omega arith))

parse_cli-total_example :
    ((accepted takes_all slash_30 sample_cli ≡ true)
      × (parse_cli takes_all slash_30 sample_cli default_globals
          ≡ done (codes "client") (configured takes_all slash_30 sample_cli default_globals)))
    ⊎ ((accepted takes_all slash_30 sample_cli ≡ false)
        × (h : Globals) × (parse_cli takes_all slash_30 sample_cli default_globals
            ≡ fault exit_one h))
parse_cli-total_example =
    parse_cli-total takes_all slash_30 sample_cli default_globals slash_30-IsCidr
