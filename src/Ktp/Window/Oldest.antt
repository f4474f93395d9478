-- ===== src/Ktp/Window/Oldest.antt =====
-- What thread S sends again after a timeout, seen from the messages that k_sendto has queued.
use cn_assignments.Ktp.Window.Contents.{Contents}
