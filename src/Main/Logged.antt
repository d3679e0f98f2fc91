-- ===== src/Main/Logged.antt =====
-- main.go, parse_cli: the logger that init_logging makes once the first flags are read.
use ratbond.Logging.{
  Level, trace_level, debug_level, Writer, stderr, syslog, Logger, FormatterHook, level_of,
  init_logging, stderr_hook, syslog_hook, panic_level, fatal_level, error_level, warn_level,
  info_level,
}
use ratbond.Main.Parse.{set_flags}
use ratbond.Main.Cli.{Cli, Globals, default_globals}
use ratbond.Base.{
  ◌≡◌, refl, sym, ap, ◌∙◌, ◌≢◌, inl, inr, Bool, true, false, ◌&&◌, ◌||◌, not, List, [], ◌∷◌, map,
  if◌then◌else◌, Elem,
}

unfoldable pub logger_of : Globals → Logger
unfolding init_logging
logger_of g = init_logging g.trace g.debug g.use_syslog

abbrev writers : Logger → List Writer
writers logger = map (λ (h : FormatterHook). h.writer) logger.hooks

same_level : (t d : Bool) → level_of (t || false) (t || (d || false)) ≡ level_of t d
unfolding level_of
same_level true d = refl
same_level false true = refl
same_level false false = refl

no_detail :
    (l : Level)
    → Elem l (panic_level ∷ fatal_level ∷ error_level ∷ warn_level ∷ info_level ∷ [])
    → (l ≢ debug_level) × (l ≢ trace_level)
no_detail l (inl e) = (λ d. cc (e, d), λ d. cc (e, d))
no_detail l (inr (inl e)) = (λ d. cc (e, d), λ d. cc (e, d))
no_detail l (inr (inr (inl e))) = (λ d. cc (e, d), λ d. cc (e, d))
no_detail l (inr (inr (inr (inl e)))) = (λ d. cc (e, d), λ d. cc (e, d))
no_detail l (inr (inr (inr (inr (inl e))))) = (λ d. cc (e, d), λ d. cc (e, d))
no_detail l (inr (inr (inr (inr (inr none_left))))) = absurd none_left

other : stderr ≢ syslog
other e = cc e

two_writers :
    (quiet t d : Bool)
    → writers (init_logging t d (not quiet && true))
      ≡ (if quiet then stderr ∷ [] else stderr ∷ syslog ∷ [])
unfolding init_logging stderr_hook syslog_hook
two_writers true t d = refl
two_writers false t d = refl

hooks_quiet :
    (quiet t d : Bool) (h : FormatterHook)
    → Elem h (init_logging t d (not quiet && true)).hooks
    → h.writer ≡ syslog
    → (¬ Elem debug_level h.log_levels) × (¬ Elem trace_level h.log_levels)
unfolding init_logging stderr_hook syslog_hook
hooks_quiet quiet t d h (inl e) at =
    absurd (other (sym (ap (λ (x : FormatterHook). x.writer) e) ∙ at))
hooks_quiet true t d h (inr none_left) at = absurd none_left
hooks_quiet false t d h (inr (inl e)) at =
    rw e (λ on. (no_detail debug_level on).0 refl, λ on. (no_detail trace_level on).1 refl)
hooks_quiet false t d h (inr (inr none_left)) at = absurd none_left

-- The flags decide the log, whatever the rest of the command line is: lines go to stderr and,
-- unless --nosyslog is given, to the syslog; the level is trace with --trace, debug with --debug
-- alone, and otherwise info; and the syslog's hook takes no line of the levels debug and trace.
pub flags-logger :
    (cli : Cli)
    → let logger = logger_of (set_flags cli default_globals) in
      (writers logger ≡ (if cli.nosyslog then stderr ∷ [] else stderr ∷ syslog ∷ []))
      × (logger.level ≡ level_of cli.trace cli.debug)
      × ((h : FormatterHook)
          → Elem h logger.hooks
          → h.writer ≡ syslog
          → (¬ Elem debug_level h.log_levels) × (¬ Elem trace_level h.log_levels))
unfolding logger_of set_flags init_logging
flags-logger cli = (
  two_writers cli.nosyslog (cli.trace || false) (cli.trace || (cli.debug || false)),
  same_level cli.trace cli.debug,
  hooks_quiet cli.nosyslog (cli.trace || false) (cli.trace || (cli.debug || false)),
)
