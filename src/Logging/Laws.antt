-- ===== src/Logging/Laws.antt =====
-- What the loggers of the process are while the program runs, and after it.
use paperminer.Base.{◌≡◌, ◌∙◌, ap}
use paperminer.Logging.{Zap, LoggingSetup, replace_globals}

-- What is documented of zap, for the global logger and the standard library's logger as they are in
-- a state. `reset` is the standard logger with its flags and its prefix, writing to standard error.
pub record IsZap {W Logger Std : Type 0} (zap : Zap W Logger) (global : W → Logger) (std : W → Std)
    (redirected : Logger → Std) (reset : Std → Std) : Type 0 where
  pub replaces : (l : Logger) (s : W) → global (zap.replace_globals l s).1 ≡ l
  pub replacing_keeps_std : (l : Logger) (s : W) → std (zap.replace_globals l s).1 ≡ std s
  pub restores : (l : Logger) (s t : W) → global ((zap.replace_globals l s).0 t) ≡ global s
  pub restoring_keeps_std : (l : Logger) (s t : W) → std ((zap.replace_globals l s).0 t) ≡ std t
  pub redirects : (l : Logger) (s : W) → std (zap.redirect_std_log l s).1 ≡ redirected l
  pub redirecting_keeps_global :
      (l : Logger) (s : W) → global (zap.redirect_std_log l s).1 ≡ global s
  pub resets : (l : Logger) (s t : W) → std ((zap.redirect_std_log l s).0 t) ≡ reset (std s)
  pub sync_keeps_global : (l : Logger) (s : W) → global (zap.sync l s) ≡ global s
  pub sync_keeps_std : (l : Logger) (s : W) → std (zap.sync l s) ≡ std s

module _ {W Logger Std : Type 0} (zap : Zap W Logger) (global : W → Logger) (std : W → Std)
    (redirected : Logger → Std) (reset : Std → Std)
    (laws : IsZap zap global std redirected reset) where
  -- Both loggers are the program's after `ReplaceGlobals`. The function that it returns, called in
  -- whatever state, restores the global logger, and leaves the standard logger as it was but for its
  -- output, which is standard error.
  pub replace_globals-restores :
      (s : LoggingSetup Logger) (w t : W)
      → let (restore, during) = replace_globals zap s w in
        (global during ≡ s.logger)
        × (std during ≡ redirected s.logger)
        × (global (restore t) ≡ global w)
        × (std (restore t) ≡ reset (std w))
  unfolding replace_globals
  replace_globals-restores s w t =
      let l = s.logger in
      let w1 = (zap.replace_globals l w).1 in
      (
        laws.redirecting_keeps_global l w1 ∙ laws.replaces l w,
        laws.redirects l w1,
        laws.sync_keeps_global l _ ∙ laws.restores l w _,
        laws.sync_keeps_std l _
            ∙ (laws.restoring_keeps_std l w _
                ∙ (laws.resets l w1 t ∙ ap reset (laws.replacing_keeps_std l w))),
      )
