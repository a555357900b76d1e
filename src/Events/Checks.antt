-- ===== src/Events/Checks.antt =====
-- A notice with a checksum, from its text to what the thread that it starts finds out.
use xdccget_for_windows.World.{World}
use xdccget_for_windows.Bytes.{Bytes}
