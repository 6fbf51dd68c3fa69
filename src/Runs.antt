-- ===== src/Runs.antt =====
-- What holds through every run of the gateway: a property of the world that each elementary step keeps.
pub mod Candidates
pub mod Chats
pub mod Embedding
pub mod Serving
pub mod Steps
pub mod Diagram
pub mod Invariant
pub mod Isolation
use rust_llm_gateway_semanti.Prelude.{ℕ, Option, Text}
use rust_llm_gateway_semanti.Services.{Services}
use rust_llm_gateway_semanti.Metrics.{Sample}
use rust_llm_gateway_semanti.Bucket.{ReservationHandle}
use rust_llm_gateway_semanti.Client.{OutboundRequest}
use rust_llm_gateway_semanti.ExactCache as ExactCache
use rust_llm_gateway_semanti.Handlers.{
  World, Env, emit, now, await, send, allow_request, record_success, record_failure, select,
  reserve, reconcile, drop_left,
}
use rust_llm_gateway_semanti.Admission.{take_rpm}
use rust_llm_gateway_semanti.Attempts.{stored_at}

-- The breakers under all names.
abbrev pub Any : Text → Type 0
Any name = Unit

module _ (services : Services) (env : Env services.Store) where
  open services use {Store}

  -- What a run keeps that uses only the breakers under the names `Touched`.
  pub record IsStable (P : World Store → Type 0) (Touched : Text → Type 0) : Type 0 where
    pub reads : (w : World Store) → P w → P (now env w).0
    pub emits : (s : Sample) (w : World Store) → P w → P (emit s w).0
    pub awaits : (w : World Store) → P w → P (await env w).0
    pub sends : (req : OutboundRequest) (w : World Store) → P w → P (send env req w).0
    pub allows :
        (name : Text) (w : World Store) → Touched name → P w → P (allow_request env name w).0
    pub succeeds :
        (name : Text) (w : World Store) → Touched name → P w → P (record_success env name w).0
    pub fails :
        (name : Text) (w : World Store) → Touched name → P w → P (record_failure env name w).0
    pub selects : (w : World Store) → P w → P (select env w).0
    pub charges : (id : Text) (w : World Store) → P w → P (take_rpm env id w).0
    pub reserves : (id : Text) (cost : ℕ) (w : World Store) → P w → P (reserve env id cost w).0
    pub reconciles :
        (id : Text) (h : ReservationHandle) (actual : ℕ) (w : World Store)
        → P w
        → P (reconcile env id h actual w).0
    pub drops :
        (id : Text) (left : Option ReservationHandle) (w : World Store)
        → P w
        → P (drop_left env id left w).0
    pub stores :
        (key value : Text) (t : ℕ) (w : World Store)
        → P w
        → P (stored_at (λ cache at. ExactCache.insert services cache key value at) t w)
