-- ===== src/Usecase/Mock.antt =====
-- The simulated provider: internal/infrastructure/psp/mock.go. `wait` is the select of
-- simulateLatency, which fails when the context is done first, and `uuid` draws a new one.
use payment_service.Base.{
  value, ◌≡◌, ◌∙◌, ◌↔◌, Bool, String, ◌<>◌, M, Result, ok, err, after_call, pure, ◌>>◌, ◌>>=◌, ◌==◌,
  ◌%◌, ◌+◌, if◌then◌else◌, arith,
}
use payment_service.Base.Int.{ℤ, pos, pos_part, neg_part, leb_ℤ}
use payment_service.Payment.{Payment}
use payment_service.Usecase.Ports.{Gateway, approved, declined, AuthorizationResult}
use payment_service.Usecase.Laws.{Tables, GatewayLaws}

-- amount%2 == 0
abbrev pub is_even : ℤ → Bool
is_even a = (pos_part a + neg_part a) % 2 == 0

module _ {W : Type 0} (latency : ℤ) (wait : ℤ → M W (Unit {0})) (uuid : W → String × W) where
  -- simulateLatency
  unfoldable pub simulate_latency : M W (Unit {0})
  simulate_latency w = if leb_ℤ latency (pos 0) then (ok tt, w) else wait latency w

  abbrev answer : ℤ → String → AuthorizationResult
  answer amount id =
      if is_even amount
      then record { outcome = approved; provider_id = id; reason = "" }
      else record { outcome = declined; provider_id = id; reason = "insufficient funds" }

  -- MockGateway.Authorize
  unfoldable pub authorize : Payment → M W AuthorizationResult
  unfolding simulate_latency
  authorize p = do simulate_latency; id ← value uuid; pure (answer p.money.amount ("psp_" <> id))

  -- MockGateway.Capture
  unfoldable pub capture : Payment → M W String
  unfolding simulate_latency
  capture p = do simulate_latency; id ← value uuid; pure ("cap_" <> id)

  -- MockGateway.Refund
  unfoldable pub refund : Payment → ℤ → M W String
  unfolding simulate_latency
  refund p amount = do simulate_latency; id ← value uuid; pure ("ref_" <> id)

  unfoldable pub mock_gateway : Gateway W
  unfolding authorize capture refund
  mock_gateway = record { authorize = authorize; capture = capture; refund = refund }

  answered :
      (a : ℤ) (x : Result (Unit {0}) × W) (result : AuthorizationResult)
      → (after_call x (λ _. value uuid >>= λ id. pure (answer a ("psp_" <> id)))).0 ≡ ok result
      → (result.outcome ≡ approved) ↔ (is_even a ≡ Bool.true)
  answered a (ok _, w) result h = ground arith
  answered a (err e, w) result h = cc h

  -- The mock answers an even amount with an approval and an odd one with a refusal, whenever it answers.
  pub authorize-is_even :
      (p : Payment) (w : W) (result : AuthorizationResult)
      → (authorize p w).0 ≡ ok result
      → (result.outcome ≡ approved) ↔ (is_even p.money.amount ≡ Bool.true)
  unfolding authorize simulate_latency
  authorize-is_even p w result h = answered p.money.amount (simulate_latency w) result h

  module _ (view : W → Tables) (wait-keeps : (d : ℤ) (w : W) → view (wait d w).1 ≡ view w)
      (uuid-keeps : (w : W) → view (uuid w).1 ≡ view w) where
    latency-keeps : (w : W) → view (simulate_latency w).1 ≡ view w
    unfolding simulate_latency
    latency-keeps w = ground (arith, wait-keeps latency w)

    drawn-keeps :
        {A : Type 0} (f : String → A) (w : W) (x : Result (Unit {0}) × W)
        → view x.1 ≡ view w
        → view (after_call x (λ _. value uuid >>= λ id. pure (f id))).1 ≡ view w
    drawn-keeps f w (ok _, w') h = uuid-keeps w' ∙ h
    drawn-keeps f w (err e, w') h = h

    -- The simulated provider is one that the use cases can rely on.
    pub mock_gateway-GatewayLaws : GatewayLaws view mock_gateway
    unfolding mock_gateway authorize capture refund
    mock_gateway-GatewayLaws = record {
      authorize-keeps = λ p w.
          drawn-keeps (λ id. answer p.money.amount ("psp_" <> id)) w (simulate_latency w)
            (latency-keeps w);
      capture-keeps =
          λ p w. drawn-keeps (λ id. "cap_" <> id) w (simulate_latency w) (latency-keeps w);
      refund-keeps =
          λ p a w. drawn-keeps (λ id. "ref_" <> id) w (simulate_latency w) (latency-keeps w);
    }
