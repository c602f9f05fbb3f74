-- ===== src/Devices.antt =====
-- The devices of src/dev_alarm.c, src/dev_disk.c and src/dev_term.c.
pub mod Codes
pub mod Alarm
pub mod Disk
pub mod Term
