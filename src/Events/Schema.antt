-- ===== src/Events/Schema.antt =====
-- src/streaming_lab/events/schema.py. An amount is a whole number of cents: the generator quantises
-- amounts to 0.01, and both stores keep two decimals. `to_wire` gives the object whose JSON text is
-- a line of the topic; every field of it is a text or a number, which JSON carries unchanged.
pub mod RoundTrip
use streaming_lab.Prelude.{ℕ, String, Bool, ◌||◌, Option, none, some, str_eq, if◌then◌else◌}
use streaming_lab.Prelude.Int.{ℤ, neg_ℤ}
use streaming_lab.Results.{Result, ok, raise, value_error, invalid_operation, ◌>>=◌}
use streaming_lab.Text.{Text, amount_text, read_amount}

abbrev pub order_created : String
order_created = "order_created"

abbrev pub order_cancelled : String
order_cancelled = "order_cancelled"

-- `et in EVENT_TYPES`
abbrev pub is_event_type : String → Bool
is_event_type et = str_eq et order_created || str_eq et order_cancelled

pub record OrderEvent : Type 0 where
  pub event_id : String
  pub order_id : String
  pub event_type : String
  pub amount : ℤ
  pub user_id : ℕ
  pub event_time_ms : ℕ

unfoldable pub gmv_delta : OrderEvent → Result ℤ
gmv_delta e =
    if str_eq e.event_type order_created
    then ok e.amount
    else if str_eq e.event_type order_cancelled
    then ok (neg_ℤ e.amount)
    else raise value_error

pub record Wire : Type 0 where
  pub event_id : String
  pub order_id : String
  pub event_type : String
  pub amount : Text
  pub user_id : ℕ
  pub event_time_ms : ℕ

unfoldable pub to_wire : OrderEvent → Wire
to_wire e = record {
  event_id = e.event_id;
  order_id = e.order_id;
  event_type = e.event_type;
  amount = amount_text e.amount;
  user_id = e.user_id;
  event_time_ms = e.event_time_ms;
}

-- `Decimal(str(d["amount"]))`
abbrev pub decimal : Text → Result ℤ
decimal t = elim (read_amount t) [ none ↦ raise invalid_operation | some a ↦ ok a ]

unfoldable pub from_wire : Wire → Result OrderEvent
from_wire d =
    if is_event_type d.event_type
    then (do
      amount ← decimal d.amount
      ok (record {
        event_id = d.event_id;
        order_id = d.order_id;
        event_type = d.event_type;
        amount = amount;
        user_id = d.user_id;
        event_time_ms = d.event_time_ms;
      }))
    else raise value_error
