-- ===== src/Scenarios/Events.antt =====
-- Runs of the event queue, on the queue that `devices_init` leaves.
use usloss.Base.{◌≡◌, refl, some, set}
use usloss.EventQueue.{Queue, alarm_dev, disk_dev, init_queue, place, find_lower, schedule_int}
use usloss.EventQueue.Delivery.{event}

-- A disk event five ticks ahead.
abbrev one_event : Queue
one_event = record init_queue { slots = set init_queue.slots 5 (event disk_dev 1) }

one_event_run : schedule_int init_queue disk_dev 1 5 ≡ some one_event
unfolding schedule_int place find_lower init_queue
one_event_run = refl

-- Afterwards an alarm is asked for the same tick; the disk event moves on.
abbrev two_events : Queue
two_events = record init_queue {
  slots = set (set init_queue.slots 5 (event alarm_dev 0)) 6 (event disk_dev 1);
}

two_events_run : schedule_int one_event alarm_dev 0 5 ≡ some two_events
unfolding schedule_int place find_lower init_queue
two_events_run = refl
