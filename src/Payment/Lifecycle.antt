-- ===== src/Payment/Lifecycle.antt =====
-- The life of a payment as a state machine: the methods of payment.go as one step function, the
-- transitions that its comments list as a relation, and whole histories of calls.
use payment_service.Base.{
  ◌≡◌, refl, ap, ◌⊎◌, inl, inr, Result-cases, Result, ok, err, invalid_transition, List, [], ◌∷◌,
  arith,
}
use payment_service.Base.Int.{ℤ, pos, pos_part, neg_part, ◌≤ℤ◌, ◌+ℤ◌, int_laws}
use payment_service.Payment.{
  Status, pending, authorized, completed, failed, refunded, partially_refunded, Payment,
  mark_authorized, complete, capture, fail, refund,
}
use payment_service.Payment.Balance.{IsValid, refund-ok, refund-IsValid, p_bounds, IsCaptured}

-- A call of one of the methods that change a payment.
pub data Call : Type 0 where
  authorizes completes captures fails : Call
  refunds : ℤ → Call

unfoldable pub apply : Call → Payment → Result Payment
apply authorizes p = mark_authorized p
apply completes p = complete p
apply captures p = capture p
apply fails p = fail p
apply (refunds a) p = refund a p

-- The transitions of the comments in payment.go.
pub data Transition (s t : Status) : Type 0 where
  authorization : s ≡ pending → t ≡ authorized → Transition s t
  completion : s ≡ pending → t ≡ completed → Transition s t
  refusal : s ≡ pending → t ≡ failed → Transition s t
  settlement : s ≡ authorized → t ≡ completed → Transition s t
  part : IsCaptured s → t ≡ partially_refunded → Transition s t
  full : IsCaptured s → t ≡ refunded → Transition s t

-- A call that a well-formed payment accepts leaves it well-formed: a positive price in int64 with
-- a currency, 1 to 12 installments, a known capture method, and a refunded amount that fits the
-- status.
pub apply-IsValid :
    (c : Call) (p : Payment) {q : Payment} → IsValid p → apply c p ≡ ok q → IsValid q
unfolding apply mark_authorized complete capture fail
apply-IsValid authorizes p v e = ground arith
apply-IsValid completes p v e = ground arith
apply-IsValid captures p v e = ground arith
apply-IsValid fails p v e = ground arith
apply-IsValid (refunds a) p v e = refund-IsValid a p v e

refund-status :
    (a : ℤ) (p : Payment) {q : Payment}
    → refund a p ≡ ok q
    → IsCaptured p.status × ((q.status ≡ partially_refunded) ⊎ (q.status ≡ refunded))
unfolding refund
refund-status a p e = ground arith

-- A call that a payment accepts moves its status along the state machine: pending to authorized,
-- completed or failed; authorized to completed; completed or partially refunded to partially
-- refunded or refunded.
pub apply-Transition :
    (c : Call) (p : Payment) {q : Payment} → apply c p ≡ ok q → Transition p.status q.status
unfolding apply mark_authorized complete capture fail
apply-Transition authorizes p e = authorization (ground arith) (ground arith)
apply-Transition completes p e = completion (ground arith) (ground arith)
apply-Transition captures p e = settlement (ground arith) (ground arith)
apply-Transition fails p e = refusal (ground arith) (ground arith)
apply-Transition (refunds a) p e = elim (refund-status a p e).1 [
  | inl partly ↦ part (refund-status a p e).0 partly
  | inr fully ↦ full (refund-status a p e).0 fully
]

-- A payment that failed or was refunded in full answers every call with ErrInvalidTransition.
pub apply_terminal :
    (c : Call) (p : Payment)
    → (p.status ≡ failed) ⊎ (p.status ≡ refunded)
    → apply c p ≡ err invalid_transition
unfolding apply mark_authorized complete capture fail refund
apply_terminal authorizes p h = ground arith
apply_terminal completes p h = ground arith
apply_terminal captures p h = ground arith
apply_terminal fails p h = ground arith
apply_terminal (refunds a) p h = ground arith

-- The price, its currency and what else was chosen at the start never change.
abbrev pub SameOrder : Payment → Payment → Type 0
SameOrder p q =
    (q.id ≡ p.id)
    × (q.money ≡ p.money)
    × (q.capture_method ≡ p.capture_method)
    × (q.installments ≡ p.installments)
    × (q.created_at ≡ p.created_at)

pub apply-SameOrder : (c : Call) (p : Payment) {q : Payment} → apply c p ≡ ok q → SameOrder p q
unfolding apply mark_authorized complete capture fail refund
apply-SameOrder authorizes p e = ground arith
apply-SameOrder completes p e = ground arith
apply-SameOrder captures p e = ground arith
apply-SameOrder fails p e = ground arith
apply-SameOrder (refunds a) p e = ground arith

-- What a call gives back to the customer, if it is accepted.
abbrev given : Call → ℤ
given (refunds a) = a
given _ = pos 0

apply-refunded_amount :
    (c : Call) (p : Payment) {q : Payment}
    → IsValid p
    → apply c p ≡ ok q
    → q.refunded_amount ≡ p.refunded_amount +ℤ given c
unfolding apply mark_authorized complete capture fail ◌+ℤ◌
apply-refunded_amount authorizes p v e = ground arith
apply-refunded_amount completes p v e = ground arith
apply-refunded_amount captures p v e = ground arith
apply-refunded_amount fails p v e = ground arith
apply-refunded_amount (refunds a) p v e = (refund-ok a p v e).2

-- A history of calls; one that is refused changes nothing. It counts what was given back.
abbrev next : Call → Payment × ℤ → Result Payment → Payment × ℤ
next c (p, total) (ok q) = (q, total +ℤ given c)
next c (p, total) (err e) = (p, total)

pub run : List Call → Payment × ℤ → Payment × ℤ
run [] s = s
run (c ∷ cs) (p, total) = run cs (next c (p, total) (apply c p))

-- After any history the payment is well-formed and of the same order, its refunded amount has
-- grown by what the accepted refunds gave back, and that is at most its price.
abbrev pub Accounted : Payment × ℤ → Payment × ℤ → Type 0
Accounted (p, before) (q, after) =
    IsValid q
    × SameOrder p q
    × (q.refunded_amount +ℤ before ≡ p.refunded_amount +ℤ after)
    × (q.refunded_amount ≤ℤ p.money.amount)

Accounted-next :
    (c : Call) (p : Payment) (total : ℤ) {q : Payment} (s : Payment × ℤ)
    → IsValid p
    → apply c p ≡ ok q
    → Accounted (q, total +ℤ given c) s
    → Accounted (p, total) s
Accounted-next c p total {q} s v e (ok_s, same, sums, most) =
    let kept = apply-SameOrder c p e in
    let grown = apply-refunded_amount c p v e in
    (
      ok_s,
      (ground arith, ground arith, ground arith, ground arith, ground arith),
      omega (int_laws, ap pos_part grown, ap neg_part grown, ap pos_part sums, ap neg_part sums),
      rw (kept.1) at most,
    )

-- After any list of calls of the methods of a payment, from a well-formed one, with refused calls
-- changing nothing: the payment is well-formed, its id, price, method, installments and date are
-- as before, its refunded amount has grown by the sum of the refunds that were accepted, over the
-- mathematical integers, and is at most the price.
pub run-Accounted :
    (cs : List Call) (p : Payment) (total : ℤ)
    → IsValid p
    → Accounted (p, total) (run cs (p, total))
unfolding run
run-Accounted [] p total v = (v, (refl, refl, refl, refl, refl), refl, (p_bounds p v).1)
run-Accounted (c ∷ cs) p total v = elim (Result-cases (apply c p)) [
  | inl (e, refused) ↦ rw (refused, run) (run-Accounted cs p total v)
  | inr (q, accepted) ↦
      rw (accepted, run)
        (Accounted-next c p total _ v accepted
          (run-Accounted cs q (total +ℤ given c) (apply-IsValid c p v accepted)))
]
