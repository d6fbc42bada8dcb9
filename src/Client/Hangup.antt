-- ===== src/Client/Hangup.antt =====
-- What `http_client_read` of src/client.c leaves behind when a client has gone.
use webdis.Cmd.{Cmd, World}
use webdis.Prelude.{ℕ, ◌≡◌, ◌⊎◌, false, none, some}

-- The command is off its client: its replies are written to no socket.
pub record IsDetached (cmd : Cmd) : Type 0 where
  pub fd : cmd.fd ≡ none
  pub http_client : cmd.http_client ≡ false

-- Where `h` is the client's last command, or was and is freed.
abbrev Follows : ℕ → World → Type 0
Follows h w = (w.client.last_cmd ≡ some h) ⊎ (w.cmds h ≡ none)
