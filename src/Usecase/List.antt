-- ===== src/Usecase/List.antt =====
-- internal/application/usecase/list_payment.go, and the older mapping of
-- internal/application/payment/mapper.go.
use payment_service.Base.{
  ℕ, zero, suc, ◌≢◌, ◌+◌, ◌-◌, ◌*◌, ◌/◌, ◌≤◌, ◌<◌, ◌≡◌, refl, ap, String, Option, some, List, [],
  ◌∷◌, M, Result, ok, ◌>>=◌, pure, str_eq, if◌then◌else◌, ltb, map, arith, ◌&&◌,
}
use native.Mathlib.Omega.{div_fact, mod_fact}
use payment_service.Base.Int.{ℤ, pos, pos_part}
use payment_service.Payment.{Payment, Time, status_text}
use payment_service.Payment
use payment_service.Usecase.Events.{PaymentResponse, to_payment_response}
use payment_service.Usecase.Create.{CreatePaymentRequest}
use payment_service.Usecase.Memory.{PageResult, positive_or}

-- dto.PaginatedResponse
pub record PaginatedResponse : Type 0 where
  pub items : List PaymentResponse
  pub page : String
  pub limit : String
  pub total : ℕ
  pub total_pages : ℕ

-- toPaymentResponses
unfoldable pub to_payment_responses : List Payment → List PaymentResponse
unfolding to_payment_response
to_payment_responses [] = []
to_payment_responses (p ∷ payments) = to_payment_response p ∷ to_payment_responses payments

-- strconv.Atoi, where `none` is its error.
abbrev pub Atoi : Type 0
Atoi = String → Option ℤ

-- int(math.Ceil(float64(total) / float64(limit))), which is exact below 2 ^ 53.
abbrev pub pages_of : ℕ → ℕ → ℕ
pages_of total limit = if ltb 0 limit && ltb 0 total then (total + limit - 1) / limit else 0

abbrev or_default : String → String → String
or_default s default = if str_eq s "" then default else s

-- Repository.FindAll
abbrev pub FindAll : Type 0 → Type 0
FindAll W = String → String → String → String → String → M W PageResult

abbrev pub limit_number : Atoi → String → ℕ
limit_number atoi limit = pos_part (positive_or (pos 10) (atoi (or_default limit "10")))

-- The response of Execute.
unfoldable pub paginated : Atoi → String → String → PageResult → PaginatedResponse
unfolding to_payment_responses
paginated atoi page limit result = record {
  items = to_payment_responses result.items;
  page = or_default page "1";
  limit = or_default limit "10";
  total = result.total;
  total_pages = pages_of result.total (limit_number atoi limit);
}

-- ListPayment.Execute
unfoldable pub execute :
    {W : Type 0}
    → Atoi
    → FindAll W
    → String
    → String
    → String
    → String
    → String
    → M W PaginatedResponse
unfolding paginated
execute atoi find_all page limit sort order status = do
  result ← find_all page limit sort order status
  pure (paginated atoi page limit result)

-- ToDomain
unfoldable pub to_domain : CreatePaymentRequest → String → Time → Result Payment
unfolding Payment.new
to_domain request id now = Payment.new request.amount request.currency id now

-- ToResponse, which leaves the other fields empty.
unfoldable pub to_response : Payment → PaymentResponse
to_response p = record {
  id = p.id;
  amount = p.money.amount;
  currency = p.money.currency;
  status = status_text p.status;
  capture_method = "";
  installments = pos 0;
  refunded_amount = pos 0;
  created_at = p.created_at;
}

-- ToResponses
unfoldable pub to_responses : List Payment → List PaymentResponse
unfolding to_response
to_responses [] = []
to_responses (p ∷ ps) = to_response p ∷ to_responses ps

pages_of-bounds :
    (total k : ℕ)
    → (total ≤ pages_of total (suc k) * suc k) × (pages_of total (suc k) * suc k < total + suc k)
pages_of-bounds zero k =
    let none_needed : pages_of 0 (suc k) ≡ 0 = ground arith in
    rw (none_needed) (omega arith, omega arith)
pages_of-bounds (suc n) k =
    let same : pages_of (suc n) (suc k) ≡ (suc n + k) / suc k = ground arith in
    rw (same) (
      omega (arith, div_fact (suc n + k) k, mod_fact (suc n + k) k),
      omega (arith, div_fact (suc n + k) k, mod_fact (suc n + k) k),
    )

to_payment_responses-eq-map :
    (payments : List Payment) → to_payment_responses payments ≡ map to_payment_response payments
unfolding to_payment_responses
to_payment_responses-eq-map [] = refl
to_payment_responses-eq-map (p ∷ payments) =
    ap (◌∷◌ (to_payment_response p)) (to_payment_responses-eq-map payments)

limit_number-eq :
    (atoi : Atoi) (limit : String) (k : ℕ)
    → limit ≢ ""
    → atoi limit ≡ some (pos (suc k))
    → limit_number atoi limit ≡ suc k
limit_number-eq atoi limit k named number = ground (arith, named, number)

-- ListPayment, when the repository answers and the limit is given as a numeral from 1 on: the
-- response has the payments of the answer and the number of all, in the world that the read left,
-- and its number of pages is the least whose pages hold them all.
pub execute_listed :
    {W : Type 0} (atoi : Atoi) (find_all : FindAll W) (page limit sort order status : String)
    (k : ℕ) (w w' : W) (result : PageResult)
    → limit ≢ ""
    → atoi limit ≡ some (pos (suc k))
    → find_all page limit sort order status w ≡ (ok result, w')
    → (r : PaginatedResponse) × (execute atoi find_all page limit sort order status w ≡ (ok r, w'))
      × (r.items ≡ map to_payment_response result.items)
      × (r.total ≡ result.total)
      × (r.total ≤ r.total_pages * suc k)
      × (r.total_pages * suc k < r.total + suc k)
unfolding execute paginated
execute_listed atoi find_all page limit sort order status k w w' result named number found =
    let counted : limit_number atoi limit ≡ suc k = limit_number-eq atoi limit k named number in
    let (least, most) = pages_of-bounds result.total k in
    (
      paginated atoi page limit result,
      rw (execute, found) refl,
      to_payment_responses-eq-map result.items,
      refl,
      rw (counted) least,
      rw (counted) most,
    )
