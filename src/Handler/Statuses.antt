-- ===== src/Handler/Statuses.antt =====
-- The event status between the enum of the messages (internal/handler/converter.go), the text of the
-- models and the check of the store (internal/repository/store.go).
use temporal_durable_event_p.Base.{false, true, is_empty, ◌≡◌, none, some, Option, refl}
use temporal_durable_event_p.Handler.Converter.{event_status_to_proto, event_status_from_proto}
use temporal_durable_event_p.Proto.{EventStatus}
use temporal_durable_event_p.Repository.Models.{scan_null_event_status, null_event_status_value}
use temporal_durable_event_p.Repository.Db.{StatusEnum}
use temporal_durable_event_p.Repository.Events.{status_param, scan_status}
use temporal_durable_event_p.Repository.Store.{is_event_status}

-- A status for which the handler finds a text survives the way to the text and back, and the store
-- accepts the text.
pub event_status_to_proto-from_proto :
    (s : EventStatus)
    → is_empty (event_status_from_proto s) ≡ false
    → (event_status_to_proto (event_status_from_proto s) ≡ s)
      × (is_event_status (event_status_from_proto s) ≡ true)
unfolding event_status_to_proto event_status_from_proto
event_status_to_proto-from_proto EventStatus.pending h = (refl, refl)
event_status_to_proto-from_proto EventStatus.processing h = (refl, refl)
event_status_to_proto-from_proto EventStatus.completed h = (refl, refl)
event_status_to_proto-from_proto EventStatus.failed h = (refl, refl)
event_status_to_proto-from_proto EventStatus.unspecified h = cc
event_status_to_proto-from_proto (EventStatus.unrecognized n) h = cc

-- A status, null included, that was scanned from its column is written back as the same value: by
-- `Value` and `Scan`, and as the argument of an update.
pub scan_status-roundtrip :
    (s : Option StatusEnum)
    → (scan_null_event_status (null_event_status_value (scan_status s)) ≡ some (scan_status s))
      × (status_param (scan_status s) ≡ some s)
unfolding scan_null_event_status null_event_status_value status_param
scan_status-roundtrip none = (refl, refl)
scan_status-roundtrip (some StatusEnum.pending) = (refl, refl)
scan_status-roundtrip (some StatusEnum.processing) = (refl, refl)
scan_status-roundtrip (some StatusEnum.completed) = (refl, refl)
scan_status-roundtrip (some StatusEnum.failed) = (refl, refl)
