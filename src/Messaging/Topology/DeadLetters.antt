-- ===== src/Messaging/Topology/DeadLetters.antt =====
-- Where a rejected message goes, by the declarations of dlq.go, subscriber.go and consumer.go of
-- internal/infrastructure/messaging/rabbitmq.
use Prim.Native.String.{count}
use text.Mathlib.TextLemmas.{length-append}
use payment_service.Base.{
  ℕ, suc, ◌≡◌, ◌≢◌, refl, ap, true, false, String, ◌<>◌, Option, none, some, List, [], ◌∷◌, ◌++◌,
  ◌&&◌, str_eq, arith, if◌then◌else◌,
}
use payment_service.Messaging.Amqp.{DeadLetter, dlx_name, dlq_name}
use payment_service.Messaging.Topology.{Declared, queue, binding}
use payment_service.Messaging.Topology.Sessions.{queue_declared, bindings}

-- The arguments that a queue was declared with.
abbrev args_of : String → List Declared → Option DeadLetter
args_of name [] = none
args_of name (queue other args ∷ ds) = if str_eq other name then args else args_of name ds
args_of name (_ ∷ ds) = args_of name ds

-- The queues that an exchange hands a message with the key to, by bindings with just that key.
abbrev routed : String → String → List Declared → List String
routed from key [] = []
routed from key (binding name k e ∷ ds) =
    let rest = routed from key ds in if str_eq e from && str_eq k key then name ∷ rest else rest
routed from key (_ ∷ ds) = routed from key ds

abbrev dead_lettered_by : Option DeadLetter → List Declared → List String
dead_lettered_by none ds = []
dead_lettered_by (some args) ds = routed args.exchange args.routing_key ds

-- Where the broker sends a message that is rejected from a queue without requeue.
abbrev pub dead_lettered : String → List Declared → List String
dead_lettered name ds = dead_lettered_by (args_of name ds) ds

suffix-ne : (s t : String) (n : ℕ) → count t ≡ suc n → s <> t ≢ s
suffix-ne s t n h e = absurd (omega (arith, length-append s t, ap count e))

dlx-ne : (from : String) → str_eq from (dlx_name from) ≡ false
unfolding dlx_name
dlx-ne from = ground (arith, suffix-ne from ".dlx" 3 refl)

dlq-ne : (name : String) → str_eq (dlq_name name) name ≡ false
unfolding dlq_name
dlq-ne name = ground (arith, suffix-ne name ".dlq" 3 refl)

routed-bindings :
    (from name dlx key : String) (keys : List String)
    → str_eq from dlx ≡ false
    → routed dlx key (bindings from name keys ++ []) ≡ []
routed-bindings from name dlx key [] h = refl
routed-bindings from name dlx key (k ∷ keys) h = rw h (routed-bindings from name dlx key keys h)

str_refl : (s : String) → str_eq s s ≡ true
str_refl s = ground arith

-- By what NewSubscriber declares, a message that is rejected from its queue without requeue goes to the
-- dead letter queue of that queue and to no other, whatever keys the queue is bound to.
pub dead_lettered-queue :
    (from name : String) (keys : List String)
    → dead_lettered name (queue_declared from name ++ bindings from name keys ++ [])
      ≡ dlq_name name ∷ []
dead_lettered-queue from name keys =
    rw
      (
        dlq-ne name,
        str_refl name,
        str_refl (dlx_name from),
        routed-bindings from name (dlx_name from) name keys (dlx-ne from),
      )
      (rw (str_refl name) refl)
