-- ===== src/Webhook/Subscriptions.antt =====
-- internal/application/webhook/subscription.go
use payment_service.Base.{Bool, String, List, [], ◌∷◌, M, lift, pure, ◌>>=◌, ◌>>◌}
use payment_service.Payment.{Time}
use payment_service.Webhook.{Subscription, UrlParser, new_subscription}

-- dto.WebhookResponse
pub record WebhookResponse : Type 0 where
  pub id : String
  pub url : String
  pub event_type : String
  pub secret : String
  pub active : Bool
  pub created_at : Time

-- toWebhookResponse
unfoldable pub to_webhook_response : Subscription → WebhookResponse
to_webhook_response s = record {
  id = s.id;
  url = s.url;
  event_type = s.event_type;
  secret = s.secret;
  active = s.active;
  created_at = s.created_at;
}

-- The loop of ListSubscriptions.Execute.
abbrev to_webhook_responses : List Subscription → List WebhookResponse
to_webhook_responses [] = []
to_webhook_responses (s ∷ subs) = to_webhook_response s ∷ to_webhook_responses subs

module _ {W : Type 0} where
  -- CreateSubscription.Execute, with what NewSubscription draws.
  unfoldable pub create_subscription :
      UrlParser
      → (Subscription → M W (Unit {0}))
      → String
      → String
      → String
      → String
      → String
      → Time
      → M W WebhookResponse
  unfolding new_subscription to_webhook_response
  create_subscription parse save url secret event_type new_secret id now = do
    sub ← lift (new_subscription parse url secret event_type new_secret id now)
    save sub
    pure (to_webhook_response sub)

  -- ListSubscriptions.Execute
  unfoldable pub list_subscriptions : M W (List Subscription) → M W (List WebhookResponse)
  unfolding to_webhook_response
  list_subscriptions find_all = do subs ← find_all; pure (to_webhook_responses subs)
