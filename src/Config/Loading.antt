-- ===== src/Config/Loading.antt =====
-- What a configuration that was loaded guarantees to the rest of the gateway.
use rust_llm_gateway_semanti.Prelude.{◌≡◌, refl, ap, subst}
use rust_llm_gateway_semanti.Prelude.Results.{Result, ok, err}
use rust_llm_gateway_semanti.Config.{AppConfig, ConfigError, validate, checked, load}
use rust_llm_gateway_semanti.Config.Validation.{IsValidConfig, validate_iff}

checked-ok :
    {E : Type 0} (c cfg : AppConfig) (r : Result Unit ConfigError)
    → checked {E = E} c r ≡ ok cfg
    → (r ≡ ok tt) × (c ≡ cfg)
checked-ok c cfg (ok tt) e = (refl, cc e)
checked-ok c cfg (err f) e = cc e

-- A configuration that `load` returns is what the sources give, and is valid.
pub load_valid :
    {E : Type 0} (built : Result AppConfig E) (cfg : AppConfig)
    → load built ≡ ok cfg
    → (built ≡ ok cfg) × IsValidConfig cfg
unfolding load
load_valid (err e) cfg h = cc h
load_valid (ok c) cfg h =
    let (valid, same) = checked-ok c cfg (validate c) h in
    (ap ok same, subst IsValidConfig same ((validate_iff c).0 valid))
