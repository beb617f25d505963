-- ===== src/Client/Clip/Served.antt =====
-- The files that a client serves (net.rs, `ClientClipboard`), after anything that happens.
use geser_desk.Files.Owner as Owner
use geser_desk.Sync as Sync
use geser_desk.Sync.{effective_max, effective_files_max, hard_files_max_bytes, Got}
