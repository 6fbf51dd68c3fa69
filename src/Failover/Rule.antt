-- ===== src/Failover/Rule.antt =====
-- How a property of a run goes through the failover loop: what holds before each candidate, and
-- what holds with the outcome.
use rust_llm_gateway_semanti.Prelude.{
  Bool, true, false, Option, none, some, List, [], ◌∷◌, Text, if◌then◌else◌,
}
use rust_llm_gateway_semanti.Prelude.Results.{err}
use rust_llm_gateway_semanti.Metrics.{record_error}
use rust_llm_gateway_semanti.Error.{AppError}
use rust_llm_gateway_semanti.Bucket.{ReservationHandle}
use rust_llm_gateway_semanti.Selector.{SelectedProvider}
use rust_llm_gateway_semanti.Handlers.{World, Env, M, return, emit, allow_request, select}
use rust_llm_gateway_semanti.Failover.{
  Attempt, skipped, failed_over, finished, Outcome, attempt, continue, failover, dispatch_to,
  dispatch,
}

-- After an attempt: the loop goes on, or it has the outcome.
abbrev pub AfterAttempt :
    {Store : Type 0}
    → (World Store → Type 0)
    → (Outcome → World Store → Type 0)
    → Attempt
    → World Store
    → Type 0
AfterAttempt Before After skipped w = Before w
AfterAttempt Before After (failed_over e) w = Before w
AfterAttempt Before After (finished result left) w = After (result, left) w

module _ {Store : Type 0} (env : Env Store) (h : ReservationHandle) (Before : World Store → Type 0)
    (After : Outcome → World Store → Type 0) where
  -- What the loop itself does.
  pub record IsLoopRule : Type 0 where
    pub allows : (name : Text) (w : World Store) → Before w → Before (allow_request env name w).0
    pub selects : (w : World Store) → Before w → Before (select env w).0
    pub gives_up :
        (provider error : Text) (e : AppError) (w : World Store)
        → Before w
        → After (err e, some h) (emit (record_error provider error) w).0

  module _ (rule : IsLoopRule) (try_candidate : SelectedProvider → M Store Attempt)
      (tries : (c : SelectedProvider) (w : World Store)
        → Before w
        → AfterAttempt Before After (try_candidate c w).1 (try_candidate c w).0) where
    if_after :
        (allowed : Bool) (c : SelectedProvider) (w : World Store)
        → Before w
        → let r = (if allowed then try_candidate c else return skipped) w in
          AfterAttempt Before After r.1 r.0
    if_after true c w before = tries c w before
    if_after false c w before = before

    attempt_after :
        (c : SelectedProvider) (w : World Store)
        → Before w
        → let r = attempt env try_candidate c w in AfterAttempt Before After r.1 r.0
    unfolding attempt
    attempt_after c w before = if_after _ c _ (rule.allows c.breaker w before)

    continue_after :
        (a : Attempt) (last : Option Text) (rest : Option Text → M Store Outcome) (w : World Store)
        → AfterAttempt Before After a w
        → ((e : Option Text) → Before w → After (rest e w).1 (rest e w).0)
        → After (continue env a last rest w).1 (continue env a last rest w).0
    continue_after skipped last rest w s f = f last s
    continue_after (failed_over e) last rest w s f = f (some e) s
    continue_after (finished result left) last rest w s f = s

    failover_after :
        (cs : List SelectedProvider) (last : Option Text) (w : World Store)
        → Before w
        → let r = failover env try_candidate h cs last w in After r.1 r.0
    unfolding failover
    failover_after [] last w before = rule.gives_up _ _ _ w before
    failover_after (c ∷ cs) last w before =
        continue_after _ last (failover env try_candidate h cs) _ (attempt_after c w before)
          (λ e kept. failover_after cs e _ kept)

    dispatch_to_after :
        (none_available : Text) (cs : List SelectedProvider) (w : World Store)
        → Before w
        → let r = dispatch_to env try_candidate none_available h cs w in After r.1 r.0
    unfolding dispatch_to
    dispatch_to_after none_available [] w before = rule.gives_up _ _ _ w before
    dispatch_to_after none_available (c ∷ cs) w before = failover_after (c ∷ cs) none w before

    -- The selection and the loop, from what holds before it and what each attempt does.
    pub dispatch_after :
        (none_available : Text) (w : World Store)
        → Before w
        → let r = dispatch env try_candidate none_available h w in After r.1 r.0
    unfolding dispatch
    dispatch_after none_available w before =
        dispatch_to_after none_available _ _ (rule.selects w before)
