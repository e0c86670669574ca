-- ===== src/Context/Events.antt =====
-- Publishing on the event bus (internal/domain/events `SafePublish`, called by the context package).
-- The bus is an argument: nil, or what publishing an event answers. An event's text is left out.
use tell_me_go.Base.{Option, none, some, if◌then◌else◌}
use tell_me_go.Errors.{Error, Result, ok, err, is, bus_not_initialized}

pub data Event : Type 0 where
  system_message token_limit_reached summarization_required : Event

abbrev pub Bus : Type 0
Bus = Option (Event → Option Error)

-- An error is passed on, unless the bus is not running.
abbrev pub answered : Option Error → Result (Unit {0})
answered none = ok tt
answered (some e) = if is e bus_not_initialized then ok tt else err e

unfoldable pub publish_or_fail : Bus → Event → Result (Unit {0})
publish_or_fail none event = ok tt
publish_or_fail (some bus) event = answered (bus event)
