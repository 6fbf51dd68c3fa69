-- ===== src/Failover/Order.antt =====
-- Which requests the failover loop sends, and in which order.
use rust_llm_gateway_semanti.Prelude.{
  ◌≡◌, ◌⊎◌, inl, inr, refl, ap, ◌∙◌, Bool, true, false, Option, some, List, [], ◌∷◌, Text,
  if◌then◌else◌,
}
use rust_llm_gateway_semanti.Bucket.{ReservationHandle}
use rust_llm_gateway_semanti.Selector.{SelectedProvider}
use rust_llm_gateway_semanti.Client.{OutboundRequest}
use rust_llm_gateway_semanti.Handlers.{World, Env, M, return, now, allow_request}
use rust_llm_gateway_semanti.Failover.{
  Attempt, skipped, failed_over, finished, attempt, continue, failover,
}

-- A list with some elements left out.
pub data IsSublist {A : Type 0} : List A → List A → Type 0 where
  done : IsSublist [] []
  kept : {a : A} {xs ys : List A} → IsSublist xs ys → IsSublist (a ∷ xs) (a ∷ ys)
  left_out : {b : A} {xs ys : List A} → IsSublist xs ys → IsSublist xs (b ∷ ys)

pub none_kept : {A : Type 0} (bs : List A) → IsSublist [] bs
none_kept [] = done
none_kept (b ∷ bs) = left_out (none_kept bs)

-- The requests for the candidates `tried` are added to those sent so far, the latest first.
abbrev pub with_requests :
    (SelectedProvider → OutboundRequest)
    → List SelectedProvider
    → List OutboundRequest
    → List OutboundRequest
with_requests request [] sent = sent
with_requests request (c ∷ tried) sent = with_requests request tried (request c ∷ sent)

-- The loop sends to each candidate at most once and in order, and nothing else.
abbrev pub IsOrdered :
    (SelectedProvider → OutboundRequest)
    → List SelectedProvider
    → List OutboundRequest
    → List OutboundRequest
    → Type 0
IsOrdered request cs before after =
    (tried : List SelectedProvider) × IsSublist tried cs
    × (after ≡ with_requests request tried before)

module _ {Store : Type 0} (env : Env Store) (try_candidate : SelectedProvider → M Store Attempt)
    (request : SelectedProvider → OutboundRequest)
    (sends_one : (c : SelectedProvider) (w : World Store)
      → (try_candidate c w).0.sent ≡ request c ∷ w.sent) where
  gated_lem :
      (c : SelectedProvider) (allowed : Bool) (w : World Store)
      → (((if allowed then try_candidate c else return skipped) w).0.sent ≡ w.sent)
        ⊎ (((if allowed then try_candidate c else return skipped) w).0.sent ≡ request c ∷ w.sent)
  gated_lem c true w = inr (sends_one c w)
  gated_lem c false w = inl refl

  -- An attempt sends one request, or none where the breaker refuses it.
  pub attempt_lem :
      (c : SelectedProvider) (w : World Store)
      → ((attempt env try_candidate c w).0.sent ≡ w.sent)
        ⊎ ((attempt env try_candidate c w).0.sent ≡ request c ∷ w.sent)
  unfolding attempt allow_request now
  attempt_lem c w = gated_lem c _ _

  -- Once an attempt is finished nothing more is sent.
  continue_lem :
      (h : ReservationHandle) (cs : List SelectedProvider) (a : Attempt) (last : Option Text)
      (w : World Store)
      → ((e : Option Text)
          → IsOrdered request cs w.sent (failover env try_candidate h cs e w).0.sent)
      → IsOrdered request cs w.sent (continue env a last (failover env try_candidate h cs) w).0.sent
  continue_lem h cs skipped last w f = f last
  continue_lem h cs (failed_over e) last w f = f (some e)
  continue_lem h cs (finished r left) last w f = ([], none_kept cs, refl)

  pub failover-IsOrdered :
      (h : ReservationHandle) (cs : List SelectedProvider) (last : Option Text) (w : World Store)
      → IsOrdered request cs w.sent (failover env try_candidate h cs last w).0.sent
  unfolding failover
  failover-IsOrdered h [] last w = ([], done, refl)
  failover-IsOrdered h (c ∷ cs) last w =
      let (w', a) = attempt env try_candidate c w in
      let (tried, sub, sent) = continue_lem h cs a last w' (λ e. failover-IsOrdered h cs e w') in
      elim (attempt_lem c w) [
        | inl same ↦ (tried, left_out sub, sent ∙ ap (with_requests request tried) same)
        | inr more ↦ (c ∷ tried, kept sub, sent ∙ ap (with_requests request tried) more)
      ]
