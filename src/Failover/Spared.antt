-- ===== src/Failover/Spared.antt =====
-- A provider whose breaker refuses, through the failover loop.
use rust_llm_gateway_semanti.Prelude.{
  ◌-◌, ◌<◌, arith, ◌≡◌, ◌≢◌, inl, inr, refl, sym, ap, ◌∙◌, ℕ, Bool, true, false, Option, some, List,
  [], ◌∷◌, Text, text_eq, text_eq_iff, text_eq_refl, All, Bool-cases, if◌then◌else◌,
}
use rust_llm_gateway_semanti.Prelude.Maps.{get, insert, get-insert, get_or}
use rust_llm_gateway_semanti.State.{new_breaker}
use rust_llm_gateway_semanti.Bucket.{ReservationHandle}
use rust_llm_gateway_semanti.Breaker as Breaker
use rust_llm_gateway_semanti.Breaker.{CircuitBreaker, open_}
use rust_llm_gateway_semanti.Selector.{SelectedProvider}
use rust_llm_gateway_semanti.Client.{OutboundRequest}
use rust_llm_gateway_semanti.Handlers.{World, Env, M, return, others, now, allow_request}
use rust_llm_gateway_semanti.Failover.{
  Attempt, skipped, failed_over, finished, attempt, continue, failover,
}
use rust_llm_gateway_semanti.Failover.Order.{
  IsSublist, done, left_out, none_kept, with_requests, attempt_lem,
}
use rust_llm_gateway_semanti.Runs.Isolation.{breaker_in, LeavesBreaker}

-- The breaker lets nothing through at any reading of the clock, nor changes when it is asked.
abbrev pub Refuses : {Store : Type 0} → Env Store → CircuitBreaker → Type 0
Refuses env b = (k : ℕ) → Breaker.allow_request b (env.clock k) ≡ (b, false)

-- The candidates are sent at most one request each, in order; those of this name none.
abbrev pub IsSparing :
    Text
    → (SelectedProvider → OutboundRequest)
    → List SelectedProvider
    → List OutboundRequest
    → List OutboundRequest
    → Type 0
IsSparing name request cs before after =
    (tried : List SelectedProvider) × IsSublist tried cs
    × All (λ (c : SelectedProvider). c.config.name ≢ name) tried
    × (after ≡ with_requests request tried before)

module _ {Store : Type 0} (env : Env Store) (name : Text) (leaves : LeavesBreaker name env)
    (b : CircuitBreaker) where
  abbrev Stands : World Store → Type 0
  Stands w = breaker_in name w.app ≡ b

  refused_lem :
      (w : World Store)
      → Refuses env b
      → Stands w
      → ((allow_request env name w).1 ≡ false)
        × Stands (allow_request env name w).0
        × ((allow_request env name w).0.sent ≡ w.sent)
  unfolding allow_request now others
  refused_lem w refuses s =
      let app = (others env w).app in
      let asked : Breaker.allow_request (breaker_in name app) (env.clock w.tick) ≡ (b, false) =
        ap (λ c. Breaker.allow_request c (env.clock w.tick)) (leaves w.tick w.app ∙ s)
        ∙ refuses w.tick in
      let asked_b = (Breaker.allow_request (breaker_in name app) (env.clock w.tick)).0 in
      let inserted : get name (insert name asked_b app.circuit_breakers) ≡ some asked_b =
        rw (get-insert name name asked_b app.circuit_breakers, text_eq_refl name) refl in
      (
        ap (λ r. r.1) asked,
        ap (get_or (new_breaker app.config.circuit_breaker)) inserted ∙ ap (λ r. r.0) asked,
        refl,
      )

  module _ (try_candidate : SelectedProvider → M Store Attempt)
      (request : SelectedProvider → OutboundRequest)
      (sends_one : (c : SelectedProvider) (w : World Store)
        → (try_candidate c w).0.sent ≡ request c ∷ w.sent)
      (asks : (other : Text) (w : World Store)
        → other ≢ name
        → Stands w
        → Stands (allow_request env other w).0)
      (isolated : (c : SelectedProvider) (w : World Store)
        → c.config.name ≢ name
        → Stands w
        → Stands (try_candidate c w).0) where
    gated_lem :
        (c : SelectedProvider) (allowed : Bool) (w : World Store)
        → c.config.name ≢ name
        → Stands w
        → Stands ((if allowed then try_candidate c else return skipped) w).0
    gated_lem c true w apart s = isolated c w apart s
    gated_lem c false w apart s = s

    other_lem :
        (c : SelectedProvider) (w : World Store)
        → c.breaker ≡ c.config.name
        → c.config.name ≢ name
        → Stands w
        → Stands (attempt env try_candidate c w).0
    unfolding attempt
    other_lem c w named apart s =
        gated_lem c _ _ apart (asks c.breaker w (λ e. apart (sym named ∙ e)) s)

    skipped_lem :
        (c : SelectedProvider) (w : World Store)
        → Refuses env b
        → c.breaker ≡ name
        → Stands w
        → Stands (attempt env try_candidate c w).0
          × ((attempt env try_candidate c w).0.sent ≡ w.sent)
    unfolding attempt
    skipped_lem c w refuses named s =
        let (denied, kept, sent) = refused_lem w refuses s in rw (named, denied) (kept, sent)

    abbrev IsSpared : List SelectedProvider → World Store → World Store → Type 0
    IsSpared cs w v = IsSparing name request cs w.sent v.sent × Stands v

    continue_lem :
        (h : ReservationHandle) (cs : List SelectedProvider) (a : Attempt) (last : Option Text)
        (w : World Store)
        → Stands w
        → ((e : Option Text) → IsSpared cs w (failover env try_candidate h cs e w).0)
        → IsSpared cs w (continue env a last (failover env try_candidate h cs) w).0
    continue_lem h cs skipped last w s f = f last
    continue_lem h cs (failed_over e) last w s f = f (some e)
    continue_lem h cs (finished r left) last w s f = (([], none_kept cs, tt, refl), s)

    pub failover-IsSparing :
        (h : ReservationHandle) (cs : List SelectedProvider) (last : Option Text) (w : World Store)
        → Refuses env b
        → All (λ (c : SelectedProvider). c.breaker ≡ c.config.name) cs
        → Stands w
        → IsSpared cs w (failover env try_candidate h cs last w).0
    unfolding failover
    failover-IsSparing h [] last w refuses named s = (([], done, tt, refl), s)
    failover-IsSparing h (c ∷ cs) last w refuses (is_named, named) s =
        let (w', a) = attempt env try_candidate c w in
        let rest = λ (kept : Stands w').
          continue_lem h cs a last w' kept (λ e. failover-IsSparing h cs e w' refuses named kept) in
        elim (Bool-cases (text_eq c.config.name name)) [
          | inl is ↦
              let (kept, same) =
                skipped_lem c w refuses (is_named ∙ (text_eq_iff c.config.name name).0 is) s in
              let ((tried, sub, apart, sent), stands) = rest kept in
              ((tried, left_out sub, apart, sent ∙ ap (with_requests request tried) same), stands)
          | inr is_not ↦
              let apart : c.config.name ≢ name =
                λ e. cc ((text_eq_iff c.config.name name).1 e, is_not) in
              let ((tried, sub, others_apart, sent), stands) =
                rest (other_lem c w is_named apart s) in
              elim (attempt_lem env try_candidate request sends_one c w) [
                | inl same ↦ (
                  (tried, left_out sub, others_apart, sent ∙ ap (with_requests request tried) same),
                  stands,
                )
                | inr more ↦ (
                  (
                    c ∷ tried,
                    IsSublist.kept sub,
                    (apart, others_apart),
                    sent ∙ ap (with_requests request tried) more,
                  ),
                  stands,
                )
              ]
        ]

-- An open breaker that has not cooled down.
pub open-Refuses :
    {Store : Type 0} (env : Env Store) (b : CircuitBreaker) (t : ℕ)
    → b.state ≡ open_
    → b.last_failure ≡ some t
    → ((k : ℕ) → env.clock k - t < b.cooldown)
    → Refuses env b
unfolding Breaker.allow_request
open-Refuses env b t is_open failed early k =
    let hot = early k in rw (is_open, failed) (ground arith)
