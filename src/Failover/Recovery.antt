-- ===== src/Failover/Recovery.antt =====
-- A working provider among failing ones, through the failover loop.
use mathlib.Core.List.{Memᴰ}
use rust_llm_gateway_semanti.Prelude.{
  ◌≡◌, ◌≢◌, ◌⊎◌, inl, inr, refl, sym, ap, ◌∙◌, ℕ, Bool, true, false, Option, some, List, [], ◌∷◌,
  Text, All, if◌then◌else◌,
}
use rust_llm_gateway_semanti.Prelude.Results.{ok}
use rust_llm_gateway_semanti.Bucket.{ReservationHandle}
use rust_llm_gateway_semanti.Breaker as Breaker
use rust_llm_gateway_semanti.Breaker.{CircuitBreaker, closed}
use rust_llm_gateway_semanti.Selector.{SelectedProvider}
use rust_llm_gateway_semanti.Handlers.{Response, World, Env, M, return, others, now, allow_request}
use rust_llm_gateway_semanti.Failover.{
  Attempt, skipped, failed_over, finished, Outcome, attempt, continue, failover,
}
use rust_llm_gateway_semanti.Runs.Isolation.{breaker_in, LeavesBreaker}

-- The breaker lets every request through and does not change when it is asked, as a closed one.
abbrev pub Admits : {Store : Type 0} → Env Store → CircuitBreaker → Type 0
Admits env b = (k : ℕ) → Breaker.allow_request b (env.clock k) ≡ (b, true)

-- After such an attempt the next candidate is tried.
abbrev pub GoesOn : Attempt → Type 0
GoesOn a = (a ≡ skipped) ⊎ ((e : Text) × (a ≡ failed_over e))

-- A successful answer of which `R` holds.
abbrev pub Succeeds : {Store : Type 0} → (Response → Type 0) → World Store × Outcome → Type 0
Succeeds R (w, o) = (r : Response) × (left : Option ReservationHandle) × R r × (o ≡ (ok r, left))

module _ {Store : Type 0} (env : Env Store) (name : Text) (leaves : LeavesBreaker name env)
    (b : CircuitBreaker) (admits : Admits env b) (R : Response → Type 0) where
  abbrev Stands : World Store → Type 0
  Stands w = breaker_in name w.app ≡ b

  admitted_lem : (w : World Store) → Stands w → (allow_request env name w).1 ≡ true
  unfolding allow_request now others
  admitted_lem w s =
      ap (λ c. (Breaker.allow_request c (env.clock w.tick)).1) (leaves w.tick w.app ∙ s)
      ∙ ap (λ r. r.1) (admits w.tick)

  module _ (try_candidate : SelectedProvider → M Store Attempt) (good : SelectedProvider)
      (named : good.breaker ≡ name)
      (works : (w : World Store)
        → (r : Response) × (left : Option ReservationHandle) × R r
          × ((try_candidate good w).1 ≡ finished (ok r) left))
      (asks : (other : Text) (w : World Store)
        → other ≢ name
        → Stands w
        → Stands (allow_request env other w).0)
      (isolated : (c : SelectedProvider) (w : World Store)
        → c.config.name ≢ name
        → Stands w
        → Stands (try_candidate c w).0) where
    -- The good candidate, or one of another name that fails over.
    abbrev pub IsFine : SelectedProvider → Type 0
    IsFine c =
        (c ≡ good)
        ⊎ ((c.config.name ≢ name)
            × (c.breaker ≡ c.config.name)
            × ((w : World Store) → (e : Text) × ((try_candidate c w).1 ≡ failed_over e)))

    good_gated :
        (allowed : Bool) (w : World Store)
        → allowed ≡ true
        → (r : Response) × (left : Option ReservationHandle) × R r
          × (((if allowed then try_candidate good else return skipped) w).1 ≡ finished (ok r) left)
    good_gated allowed w is = rw is (works w)

    good_lem :
        (w : World Store)
        → Stands w
        → (r : Response) × (left : Option ReservationHandle) × R r
          × ((attempt env try_candidate good w).1 ≡ finished (ok r) left)
    unfolding attempt
    good_lem w s = good_gated _ _ (ap (λ n. (allow_request env n w).1) named ∙ admitted_lem w s)

    gated_lem :
        (c : SelectedProvider) (allowed : Bool) (w : World Store)
        → c.config.name ≢ name
        → ((v : World Store) → (e : Text) × ((try_candidate c v).1 ≡ failed_over e))
        → Stands w
        → let r = (if allowed then try_candidate c else return skipped) w in GoesOn r.1 × Stands r.0
    gated_lem c true w apart fails s = (inr (fails w), isolated c w apart s)
    gated_lem c false w apart fails s = (inl refl, s)

    fails_lem :
        (c : SelectedProvider) (w : World Store)
        → c.config.name ≢ name
        → c.breaker ≡ c.config.name
        → ((v : World Store) → (e : Text) × ((try_candidate c v).1 ≡ failed_over e))
        → Stands w
        → let r = attempt env try_candidate c w in GoesOn r.1 × Stands r.0
    unfolding attempt
    fails_lem c w apart is_named fails s =
        gated_lem c _ _ apart fails (asks c.breaker w (λ e. apart (sym is_named ∙ e)) s)

    continue_lem :
        (a : Attempt) (last : Option Text) (rest : Option Text → M Store Outcome) (w : World Store)
        → GoesOn a
        → ((e : Option Text) → Succeeds R (rest e w))
        → Succeeds R (continue env a last rest w)
    continue_lem a last rest w (inl is) f = rw is (f last)
    continue_lem a last rest w (inr (e, is)) f = rw is (f (some e))

    finished_lem :
        (a : Attempt) (last : Option Text) (rest : Option Text → M Store Outcome) (w : World Store)
        → ((r : Response) × (left : Option ReservationHandle) × R r × (a ≡ finished (ok r) left))
        → Succeeds R (continue env a last rest w)
    finished_lem a last rest w (r, left, holds, is) = rw is (r, left, holds, refl)

    pub failover-Succeeds :
        (h : ReservationHandle) (cs : List SelectedProvider) (last : Option Text) (w : World Store)
        → All IsFine cs
        → Memᴰ good cs
        → Stands w
        → Succeeds R (failover env try_candidate h cs last w)
    unfolding failover
    failover-Succeeds h [] last w fine there s = elim there [ ]
    failover-Succeeds h (c ∷ cs) last w (inl same, fine) there s =
        finished_lem (attempt env try_candidate c w).1 last (failover env try_candidate h cs) _
          (rw same (good_lem w s))
    failover-Succeeds h (c ∷ cs) last w (inr f, fine) (Memᴰ.head same) s =
        finished_lem (attempt env try_candidate c w).1 last (failover env try_candidate h cs) _
          (rw (sym same) (good_lem w s))
    failover-Succeeds h (c ∷ cs) last w (inr (apart, is_named, fails), fine) (Memᴰ.tail there) s =
        let (goes_on, kept) = fails_lem c w apart is_named fails s in
        continue_lem _ last (failover env try_candidate h cs) _ goes_on
          (λ e. failover-Succeeds h cs e _ fine there kept)

-- A closed breaker.
pub closed-Admits :
    {Store : Type 0} (env : Env Store) (b : CircuitBreaker) → b.state ≡ closed → Admits env b
unfolding Breaker.allow_request
closed-Admits env b is_closed k = rw is_closed refl

pub is_eligible-closed :
    (b : CircuitBreaker) (t : ℕ) → b.state ≡ closed → Breaker.is_eligible b t ≡ true
unfolding Breaker.is_eligible
is_eligible-closed b t is_closed = rw is_closed refl
