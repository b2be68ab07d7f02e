-- ===== src/Shipping/Signal.antt =====
-- What an event says of an order: resolveShiprocketLocalStatus, buildShiprocketWebhookUpdateSet and
-- findOrderForShiprocketWebhook of server/services/shiprocketWebhookService.js. `upper` is
-- String.prototype.toUpperCase; texts are trimmed.
use Prim.Native.String.{String, find, len, ◌++◌}
use lavish_fashion.Prelude.{ℕ, leb, Bool, ◌||◌, Option, none, some, List, [], ◌∷◌, if◌then◌else◌}
use lavish_fashion.Orders.{
  Order, OrderStatus, out_for_delivery, delivered, cancelled, shipped, Shiprocket,
}
use lavish_fashion.Payments.{or_else}
use lavish_fashion.Payments.Webhook.{is_id}
use lavish_fashion.Shipping.{Payload}

-- String.prototype.includes.
abbrev pub includes : String → String → Bool
includes s t = leb (find s t) (len s)

unfoldable pub status_of_signals : String → Option OrderStatus
status_of_signals s =
    if includes s "OUT FOR DELIVERY"
    then some out_for_delivery
    else if includes s "DELIVERED"
    then some delivered
    else if includes s "CANCELLED" || includes s "CANCELED"
    then some cancelled
    else if includes s "SHIPPED" || includes s "IN TRANSIT" || includes s "DISPATCH"
    then some shipped
    else none

abbrev pub joined : (String → String) → Option String → Option String → Option String
joined upper none none = none
joined upper none (some t) = some (upper t)
joined upper (some s) none = some (upper s)
joined upper (some s) (some t) = some (upper s ++ (" " ++ upper t))

unfoldable pub resolve_shiprocket_local_status : (String → String) → Payload → Option OrderStatus
unfolding status_of_signals
resolve_shiprocket_local_status upper p = elim (joined upper p.event_name p.current_status) [
  | none ↦ none
  | some signals ↦ status_of_signals signals
]

abbrev pub or_text : Option String → Option String → Option String
or_text none t = t
or_text (some s) t = some s

-- The `$set` of the fields under `shiprocket`, from the order as read. Its `syncStatus` and
-- `lastError`, which nothing in these files reads, are no fields of the model.
unfoldable pub build_shiprocket_webhook_update_set :
    ℕ → Shiprocket → Payload → Shiprocket → Shiprocket
build_shiprocket_webhook_update_set now read p s = record s {
  reference_order_id = or_else p.reference_order_id read.reference_order_id;
  order_id = or_else p.shiprocket_order_id read.order_id;
  shipment_id = or_else p.shipment_id read.shipment_id;
  awb_code = or_else p.awb_code read.awb_code;
  status = or_text p.current_status (or_text p.event_name read.status);
  status_code = or_else p.current_status_code read.status_code;
  current_status = or_text p.current_status (or_text p.event_name read.current_status);
  current_status_code = or_else p.current_status_code read.current_status_code;
  last_webhook_at = some now;
}

-- `findOne` by one field of `shiprocket`.
unfoldable pub order_where : (Order → Option ℕ) → ℕ → List Order → Option Order
order_where field k [] = none
order_where field k (o ∷ os) = if is_id (field o) k then some o else order_where field k os

-- The first search that has something to search for and finds it.
unfoldable pub search_by : (Order → Option ℕ) → Option ℕ → List Order → Option Order → Option Order
unfolding order_where
search_by field none os rest = rest
search_by field (some k) os rest = elim (order_where field k os) [ none ↦ rest | some o ↦ some o ]

unfoldable pub find_order_for_shiprocket_webhook : Payload → List Order → Option Order
unfolding search_by
find_order_for_shiprocket_webhook p os =
    search_by (λ o. o.shiprocket.shipment_id) p.shipment_id os
      (search_by (λ o. o.shiprocket.order_id) p.shiprocket_order_id os
        (search_by (λ o. o.shiprocket.awb_code) p.awb_code os
          (search_by (λ o. o.shiprocket.reference_order_id) p.reference_order_id os none)))
