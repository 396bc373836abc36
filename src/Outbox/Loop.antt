-- ===== src/Outbox/Loop.antt =====
-- internal/outbox/dispatcher.go: Run.
use kitchen_ops.Base.{Bool, true, false, Option, List, [], ◌∷◌, Bytes}
use kitchen_ops.Models.{DomainEvent}
use kitchen_ops.Runtime.{Services, Action, ◌>>◌, pure}
use kitchen_ops.Application.Allocation.{attempt}
use kitchen_ops.Outbox.{Dispatcher}
use kitchen_ops.Outbox.Dispatch.{dispatch_once}

-- What the select of Run receives: ctx.Done, or a tick of the timer.
pub data Signal : Type 0 where
  cancelled tick : Signal

-- Whether Run has returned, when it has received so much. The error of a dispatch is only logged.
module _ {F Q : Type 0} (w : Services F Q) (unmarshal : Bytes → Option DomainEvent) where
  unfoldable pub run : Dispatcher → List Signal → Action F Q Bool
  run d [] = pure false
  run d (cancelled ∷ signals) = pure true
  run d (tick ∷ signals) = do attempt (dispatch_once w unmarshal d); run d signals
