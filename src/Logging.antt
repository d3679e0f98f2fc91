-- ===== src/Logging.antt =====
-- p_logging.go: FormatterHook and init_logging, on the globals g_trace, g_debug and g_use_syslog.
-- What logrus does with a logger is not modelled, nor are the loggers of the mqtt library.
use ratbond.Base.{
  Bool, true, false, ◌||◌, Option, none, some, List, [], ◌∷◌, ◌++◌, if◌then◌else◌, Text, codes,
}

-- The levels of logrus.
pub data Level : Type 0 where
  panic_level fatal_level error_level warn_level info_level debug_level trace_level : Level

-- logrus.FieldKeyTime, FieldKeyLevel, FieldKeyMsg and FieldKeyFunc
pub data FieldKey : Type 0 where
  key_time key_level key_msg key_func : FieldKey

pub data Writer : Type 0 where
  stderr syslog : Writer

-- logrus.TextFormatter; `caller` is CallerPrettyfier on the name of a function, and `fields` the
-- names that FieldMap gives.
pub record TextFormatter : Type 0 where
  pub caller : Text → Text × Text
  pub force_colors : Bool
  pub disable_timestamp : Bool
  pub timestamp_format : Text
  pub disable_colors : Bool
  pub quote_empty_fields : Bool
  pub disable_level_truncation : Bool
  pub pad_level_text : Bool
  pub full_timestamp : Bool
  pub fields : List (FieldKey × Text)

pub record FormatterHook : Type 0 where
  pub writer : Writer
  pub log_levels : List Level
  pub formatter : TextFormatter

-- What is left of the hook's work: an error, or a line for its writer, whose write may fail.
pub data Fired : Type 0 where
  format_failed : Fired
  wrote : Writer → Text → Bool → Fired

-- Fire; `format` is the formatter's Format on the entry, `none` for an error, and `takes` says
-- whether the writer takes a line.
pub fire :
    (format : TextFormatter → Option Text) (takes : Writer → Text → Bool) → FormatterHook → Fired
fire format takes hook = elim (format hook.formatter) [
  | none ↦ format_failed
  | some line ↦ wrote hook.writer line (takes hook.writer line)
]

-- Levels
pub levels : FormatterHook → List Level
levels hook = hook.log_levels

pub record Logger : Type 0 where
  pub level : Level
  pub hooks : List FormatterHook
  pub report_caller : Bool

unfoldable pub level_of : Bool → Bool → Level
level_of trace debug = if trace then trace_level else if debug then debug_level else info_level

-- The hook for stderr. A pair of `caller` is what stands for the function and for the file.
unfoldable pub stderr_hook : Bool → Bool → FormatterHook
stderr_hook trace debug = record {
  writer = stderr;
  log_levels =
      debug_level ∷ trace_level ∷ panic_level ∷ fatal_level ∷ error_level ∷ warn_level ∷ info_level
      ∷ [];
  formatter = record {
    caller = λ function.
        if debug || trace then (function ++ codes ":: ", []) else ([], function ++ codes ":: ");
    force_colors = true;
    disable_timestamp = false;
    timestamp_format = codes "2006-01-02 15:04:05";
    disable_colors = false;
    quote_empty_fields = true;
    disable_level_truncation = true;
    pad_level_text = true;
    full_timestamp = true;
    fields =
        (key_time, codes "@timestamp")
        ∷ (key_level, codes "severity")
        ∷ (key_msg, codes "message")
        ∷ (key_func, codes "caller")
        ∷ [];
  };
}

unfoldable pub syslog_hook : Bool → Bool → FormatterHook
syslog_hook trace debug = record {
  writer = syslog;
  log_levels = panic_level ∷ fatal_level ∷ error_level ∷ warn_level ∷ info_level ∷ [];
  formatter = record {
    caller = λ function. if debug || trace then (function ++ codes "()", []) else ([], []);
    force_colors = false;
    disable_timestamp = true;
    timestamp_format = [];
    disable_colors = true;
    quote_empty_fields = true;
    disable_level_truncation = false;
    pad_level_text = false;
    full_timestamp = false;
    fields =
        (key_level, codes "severity")
        ∷ (key_msg, codes "message")
        ∷ (key_func, codes "caller")
        ∷ [];
  };
}

-- The output of the logger itself is discarded: lines go out by the hooks alone.
unfoldable pub init_logging : Bool → Bool → Bool → Logger
unfolding level_of stderr_hook syslog_hook
init_logging trace debug use_syslog = record {
  level = level_of trace debug;
  hooks = stderr_hook trace debug ∷ (if use_syslog then syslog_hook trace debug ∷ [] else []);
  report_caller = true;
}
