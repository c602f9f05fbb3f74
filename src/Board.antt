-- ===== src/Board.antt =====
-- The devices together, as src/devices.c drives them: `USLOSS_DeviceInput`, `USLOSS_DeviceOutput`
-- and `dispatch_int`.
pub mod Census
pub mod Inv
pub mod Keep
pub mod Dispatch
pub mod Requests
pub mod Questions
pub mod Runs
pub mod Flood
pub mod Calm
pub mod Fit
pub mod FitOutput
pub mod FitInput
pub mod Fair
use usloss.Base.{
  ℕ, Bool, true, false, not, ◌&&◌, Option, none, some, List, ltb, ◌==◌, if◌then◌else◌, ℤ, pos,
  minus_one, eq_ℤ, Result, done, fault, Fault, check, ◌>>=◌, ◌>>◌,
}
use usloss.EventQueue.{
  Slot, Queue, init_queue, next_event, clock_dev, alarm_dev, disk_dev, term_dev,
}
use usloss.Clock.{Ticks, no_ticks, alarm_ticks, clock_get_status, clock_request, clock_action}
use usloss.Devices.Codes.{Code, ok, invalid, code_value}
use usloss.Devices.Alarm.{Alarm, alarm_get_status, alarm_request, alarm_action}
use usloss.Devices.Disk.{Memory, Disk, disk_get_status, disk_request, disk_action, is_busy}
use usloss.Devices.Term.{Terminal, term_get_status, term_request, term_action}

module _ (memory : Memory) where
  open memory use {Mem, load_request}

  -- The variables of the devices: the event queue, the static `tick` of `dispatch_int`, the clock,
  -- the alarm, the disks, the memory of the operating system, the terminals with the one to be
  -- polled next, and `USLOSSwaiting`.
  pub record Board : Type 0 where
    pub queue : Queue
    pub tick : Bool
    pub ticks : Ticks
    pub armed : Alarm
    pub disks : List (Disk memory)
    pub mem : Mem
    pub last : ℕ
    pub terms : List Terminal
    pub waiting : Bool

  -- What `devices_init`, `alarm_init`, `clock_init` and `globals_init` leave, with the disks and
  -- the terminals that were opened.
  abbrev pub init_board : List (Disk memory) → List Terminal → Mem → Board
  init_board disks terms mem = record {
    queue = init_queue;
    tick = false;
    ticks = no_ticks;
    armed = false;
    disks = disks;
    mem = mem;
    last = 0;
    terms = terms;
    waiting = false;
  }

  -- What a device answers: its return code, what goes through `statusPtr`, and the board.
  abbrev pub Answer : Type 0
  Answer = Code × Option ℕ × Board

  abbrev pub status_of : Option Code → Option ℕ
  status_of none = none
  status_of (some c) = some (code_value c)

  -- The `switch` of `USLOSS_DeviceInput`; `random` is for the clock.
  unfoldable pub get_status : ℕ → ℤ → ℕ → Board → Answer
  get_status dev unit random b =
      if dev == clock_dev
      then (let (code, time, t) = clock_get_status unit random b.ticks in
          (code, time, record b { ticks = t }))
      else if dev == alarm_dev
      then (let (code, status) = alarm_get_status unit b.armed in (code, status_of status, b))
      else if dev == disk_dev
      then (let (code, status, disks) = disk_get_status memory unit b.disks in
          (code, status_of status, record b { disks = disks }))
      else if dev == term_dev
      then (let (code, status, terms) = term_get_status unit b.terms in
          (code, status, record b { terms = terms }))
      else (invalid, none, b)

  -- `USLOSS_DeviceInput`, with its assertion on the return code.
  unfoldable pub device_input : ℕ → ℤ → ℕ → Board → Result Answer
  device_input dev unit random b =
      let r = get_status dev unit random b in check (not (is_busy r.0)) Fault.sys_error >> done r

  -- `USLOSS_DeviceOutput`; its assertion allows all return codes that there are. There is no result
  -- if `schedule_int` does not return.
  unfoldable pub device_output : ℕ → ℤ → ℕ → Board → Option (Code × Board)
  device_output dev unit arg b =
      if dev == clock_dev
      then some (clock_request unit, b)
      else if dev == alarm_dev
      then elim (alarm_request unit arg b.armed b.queue) [
        | none ↦ none
        | some r ↦ some (r.0, record b { armed = r.1; queue = r.2 })
      ]
      else if dev == disk_dev
      then elim (disk_request memory unit (load_request b.mem arg) b.disks b.queue) [
        | none ↦ none
        | some r ↦ some (r.0, record b { disks = r.1; queue = r.2 })
      ]
      else if dev == term_dev
      then (let r = term_request unit arg b.terms in some (r.0, record b { terms = r.1 }))
      else some (Code.error, b)

  -- The action of a device in `dispatch_int`: the unit, or -1 for no interrupt.
  unfoldable pub act : Slot → Board → Result (ℤ × Board)
  act event b =
      if event.device == alarm_dev
      then (let r = alarm_action b.armed in done (pos r.0, record b { armed = r.1 }))
      else if event.device == disk_dev
      then (disk_action memory event.arg b.disks b.mem >>= λ r.
          done (pos r.0, record b { disks = r.1; mem = r.2 }))
      else if event.device == term_dev
      then (let r = term_action b.last b.terms in done (r.0, record b { last = r.1; terms = r.2 }))
      else fault Fault.sim_trap

  -- `dispatch_int` after the action of a device: the call of the handler, unless the unit is -1.
  unfoldable pub call_of : ℕ → ℤ × Board → Result (Option (ℕ × ℤ) × Board)
  call_of device r =
      if eq_ℤ r.0 minus_one
      then done (none, r.1)
      else done (some (device, r.0), record r.1 { waiting = false })

  -- `dispatch_int` up to the call of the interrupt handler: the device and the unit that it is
  -- called with, if it is.
  unfoldable pub next_interrupt : Board → Result (Option (ℕ × ℤ) × Board)
  next_interrupt b =
      let b' = record b { tick = not b.tick } in
      let e = next_event b.queue in
      if b'.tick
      then done (some (clock_dev, pos clock_action), b')
      else (act e.0 (record b' { queue = e.1 }) >>= call_of e.0.device)

  -- A handler of the operating system in `USLOSS_IntVec`, for a device and a unit. It works on the
  -- board and on a state of its own.
  abbrev pub Handler : Type 0 → Type 0
  Handler Os = ℕ → ℤ → Board → Os → Result (Board × Os)

  abbrev pub call_handler :
      (Os : Type 0) → Option (Handler Os) → ℕ → ℤ → Board → Os → Result (Board × Os)
  call_handler Os none dev unit b os = fault Fault.sim_trap
  call_handler Os (some h) dev unit b os = h dev unit b os

  -- `dispatch_int`
  unfoldable pub dispatch_int :
      (Os : Type 0) → (ℕ → Option (Handler Os)) → Board → Os → Result (Board × Os)
  dispatch_int Os vector b os = next_interrupt b >>= λ r. elim r.0 [
    | none ↦ done (r.1, os)
    | some (dev, unit) ↦ call_handler Os (vector dev) dev unit r.1 os
  ]

  -- `sighandler` on SIG_ALARM up to `dispatch_int`.
  unfoldable pub alarm_signal : Board → Board
  alarm_signal b = record b { waiting = false; ticks = alarm_ticks b.ticks }
