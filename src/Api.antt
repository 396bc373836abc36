-- ===== src/Api.antt =====
-- internal/api: the routes, and what each answers. chi, net/http and encoding/json are arguments: a
-- request arrives as the route it matches, with its URL parameter or its body. A panic is what
-- middleware.Recoverer answers.
pub mod Answers
use kitchen_ops.Base.{
  ℕ, Bool, true, false, if◌then◌else◌, Option, none, some, List, [], ◌∷◌, ◌⊎◌, inl, inr, Bytes,
  codes, ◌++◌,
}
use kitchen_ops.Base.Decimal.{parse_uint}
use kitchen_ops.Models.{TaskModel}
use kitchen_ops.Runtime.{Services, Kitchen, Result, ok, err, Error, not_found, index_out_of_range}
use kitchen_ops.Application.Allocation.{allocate_once}
use kitchen_ops.Application.Tasks.{start_task, complete_task, get_task}
use kitchen_ops.Application.Orders.{ConfirmOrderRequest, confirm_order}
use kitchen_ops.Temporal.{error_text}

pub data Method : Type 0 where
  get_method post_method : Method

-- The methods of KitchenController that are routed.
pub data Endpoint : Type 0 where
  health confirm_order_endpoint allocate_once_endpoint : Endpoint
  start_task_endpoint complete_task_endpoint get_task_endpoint : Endpoint

abbrev pub api_path : Bytes → Bytes
api_path path = codes "/api/v1" ++ path

abbrev pub routes : List (Method × Bytes × Endpoint)
routes =
    (Method.get_method, codes "/health", Endpoint.health)
    ∷ (Method.post_method, api_path (codes "/orders/confirm"), Endpoint.confirm_order_endpoint)
    ∷ (Method.post_method, api_path (codes "/allocator/run-once"), Endpoint.allocate_once_endpoint)
    ∷ (Method.post_method, api_path (codes "/tasks/{taskID}/start"), Endpoint.start_task_endpoint)
    ∷ (
      Method.post_method,
      api_path (codes "/tasks/{taskID}/complete"),
      Endpoint.complete_task_endpoint,
    )
    ∷ (Method.get_method, api_path (codes "/tasks/{taskID}"), Endpoint.get_task_endpoint)
    ∷ []

-- The payloads given to writeJSON.
pub data Payload (F : Type 0) : Type 0 where
  nothing : Payload F
  error_payload : Bytes → Payload F
  status_payload : Bytes → Payload F
  order_payload : ℕ → List ℕ → Payload F
  allocation_payload : ℕ → Payload F
  task_payload : TaskModel F → Payload F

pub record Response (F : Type 0) : Type 0 where
  pub status : ℕ
  pub payload : Payload F

abbrev pub Handler : Type 0 → Type 0 → Type 0
Handler F Q = Kitchen F Q → Response F × Kitchen F Q

abbrev pub is_panic : Error → Bool
is_panic index_out_of_range = true
is_panic e = false

module _ {F : Type 0} where
  abbrev pub write_json : ℕ → Payload F → Response F
  write_json status payload = record { status = status; payload = payload }

  -- An error of the service, with the status that the controller gives it.
  abbrev pub failure : ℕ → Error → Response F
  failure status e =
      if is_panic e
      then write_json 500 nothing
      else write_json status (error_payload (error_text e))

  abbrev pub order_response : Result (ℕ × List ℕ) → Response F
  order_response (ok (order_id, ready)) = write_json 201 (order_payload order_id ready)
  order_response (err e) = failure 400 e

  abbrev pub allocation_response : Result ℕ → Response F
  allocation_response (ok task_id) = write_json 200 (allocation_payload task_id)
  allocation_response (err e) = failure 500 e

  abbrev pub status_response : Bytes → Result (Unit {0}) → Response F
  status_response text (ok a) = write_json 200 (status_payload text)
  status_response text (err e) = failure 400 e

  abbrev pub task_response : Result (TaskModel F) → Response F
  task_response (ok task) = write_json 200 (task_payload task)
  task_response (err not_found) = write_json 404 (error_payload (codes "task not found"))
  task_response (err e) = failure 500 e

-- The response to what an action returns.
abbrev pub respond :
    {F Q A : Type 0} → (Result A → Response F) → Result A × Kitchen F Q → Response F × Kitchen F Q
respond f (r, s) = (f r, s)

unfoldable pub parse_task_id : Bytes → Option ℕ
parse_task_id param = parse_uint param

module _ {F Q : Type 0} (w : Services F Q) where
  unfoldable pub handle_health : Handler F Q
  handle_health s = (write_json 200 (status_payload (codes "ok")), s)

  -- json.NewDecoder(r.Body).Decode: the text of its error, or the request.
  unfoldable pub handle_confirm_order : Bytes ⊎ ConfirmOrderRequest → Handler F Q
  handle_confirm_order (inl text) s = (write_json 400 (error_payload text), s)
  handle_confirm_order (inr req) s = respond order_response (confirm_order w req s)

  unfoldable pub handle_allocate_once : Handler F Q
  handle_allocate_once s = respond allocation_response (allocate_once w s)

  -- A handler of a task: `if err != nil` after parseTaskID, and the rest.
  abbrev pub with_task_id : Option ℕ → (ℕ → Handler F Q) → Handler F Q
  with_task_id none rest s = (write_json 400 (error_payload (codes "invalid taskID")), s)
  with_task_id (some task_id) rest s = rest task_id s

  unfoldable pub handle_start_task : Bytes → Handler F Q
  handle_start_task param =
      with_task_id (parse_task_id param)
        λ task_id s. respond (status_response (codes "STARTED")) (start_task w task_id s)

  unfoldable pub handle_complete_task : Bytes → Handler F Q
  handle_complete_task param =
      with_task_id (parse_task_id param)
        λ task_id s. respond (status_response (codes "COMPLETED")) (complete_task w task_id s)

  unfoldable pub handle_get_task : Bytes → Handler F Q
  handle_get_task param =
      with_task_id (parse_task_id param) λ task_id s. respond task_response (get_task w task_id s)
