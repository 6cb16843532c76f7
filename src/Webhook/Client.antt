-- ===== src/Webhook/Client.antt =====
-- internal/infrastructure/http/webhookclient/client.go, over the calls of net/http. The timeout is part
-- of the client that is given.
use payment_service.Base.{
  String, Option, none, some, List, [], ◌∷◌, M, Result, ok, err, Error, ◌>>=◌, wrap_error, lift,
}
use payment_service.Base.Int.{ℤ}
use payment_service.Json.{Body}
use payment_service.Webhook.{SendRequest}
use payment_service.Webhook.Attempt.{Attempt}

-- http.Request, as far as it is set.
pub record Request : Type 0 where
  pub method : String
  pub url : String
  pub headers : List (String × String)
  pub body : Body

-- What NewRequestWithContext says of a URL, Do, and the end of a response: its body is read and closed.
pub record HttpClient (W R : Type 0) : Type 0 where
  pub refused : String → Option Error
  pub do_request : Request → M W R
  pub status_code : R → ℤ
  pub drain : R → W → W
  pub close : R → W → W

abbrev checked : Option Error → Request → Result Request
checked none r = ok r
checked (some e) r = err e

-- The request of Send, with its headers.
unfoldable pub request_of : SendRequest → Request
request_of req = record {
  method = "POST";
  url = req.url;
  headers =
      ("Content-Type", "application/json")
      ∷ ("X-Webhook-Id", req.webhook_id)
      ∷ ("X-Webhook-Event", req.event_type)
      ∷ ("X-Webhook-Signature", req.signature)
      ∷ [];
  body = req.body;
}

-- Send
unfoldable pub send : {W R : Type 0} → HttpClient W R → SendRequest → W → Attempt × W
unfolding request_of
send client req = do
  r ← wrap_error "build request" (lift (checked (client.refused req.url) (request_of req)))
  response ← wrap_error "do request" (client.do_request r)
  λ w. (ok (client.status_code response), client.close response (client.drain response w))
