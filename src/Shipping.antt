-- ===== src/Shipping.antt =====
-- server/services/shiprocketWebhookService.js: the events that Shiprocket reports
-- (server/models/shiprocketWebhookEventModel.js), and how they change orders. The children are
-- Signal (what an event says), Queue (which event is due) and Drain (how events are processed).
pub mod Signal
pub mod Queue
pub mod Drain
mod Retries
mod Matching
mod Moves
mod Settles
mod Final
mod Runs
mod Tests
use Prim.Native.String.{String}
use lavish_fashion.Prelude.{ℕ, Option, none, some, List, find_by, update_by}
use lavish_fashion.Orders.{OrderStatus}
use lavish_fashion.Orders.World.{World}

-- What the code takes from a payload: `none` is an empty text or a missing number.
pub record Payload : Type 0 where
  pub event_name : Option String
  pub shipment_id : Option ℕ
  pub shiprocket_order_id : Option ℕ
  pub reference_order_id : Option ℕ
  pub awb_code : Option ℕ
  pub current_status : Option String
  pub current_status_code : Option ℕ

pub data ProcessingStatus : Type 0 where
  queued processing processed ignored unmatched failed : ProcessingStatus

-- `payload` is `none` where the schema of the webhook refuses the stored one.
pub record Event : Type 0 where
  pub id : ℕ
  pub event_key : ℕ
  pub payload : Option Payload
  pub processing_status : ProcessingStatus
  pub processing_attempts : ℕ
  pub matched_order_id : Option ℕ
  pub local_status : Option OrderStatus
  pub next_retry_at : Option ℕ
  pub last_processing_started_at : Option ℕ
  pub processed_at : Option ℕ
  pub received_at : ℕ

abbrev pub event_id : Event → ℕ
event_id e = e.id

pub record Post : Type 0 where
  pub world : World
  pub events : List Event

abbrev pub set_event : ℕ → (Event → Event) → Post → Post
set_event k f p = record p { events = update_by event_id k f p.events }
