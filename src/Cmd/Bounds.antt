-- ===== src/Cmd/Bounds.antt =====
-- The slots that `cmd_run` of src/cmd.c fills, against those that `cmd_new` allocates.
use webdis.Cmd.Parse.{Target}
use webdis.Prelude.Text.{Bytes}
use webdis.Prelude.{ℕ, ◌+◌, ◌<◌, ◌≡◌, get_or}

-- The end of the name is past the first byte, and a slash if it is before the end of the URI.
record Ends (uri : Bytes) (uri_len : ℕ) (t : Target) : Type 0 where
  past : 0 < t.name_at + t.cmd_len
  slash : t.name_at + t.cmd_len < uri_len → get_or uri (t.name_at + t.cmd_len) 0 ≡ b'/'
