-- ===== src/Cmd/Allocation.antt =====
-- The heap of commands after a whole request (`cmd_run` of src/cmd.c).
use webdis.Cmd.{Response, cmd_sent, Cmd, World}
use webdis.Prelude.{ℕ, ◌≤◌, ◌≡◌, none, some, false, ◌==◌}
use webdis.Cmd.Heap.{Holds}

-- No handle that is still to come names a command, and the client's last command is there.
pub record IsHeap (w : World) : Type 0 where
  pub fresh : (k : ℕ) → w.next ≤ k → w.cmds k ≡ none
  pub last : (h : ℕ) → w.client.last_cmd ≡ some h → (cmd : Cmd) × (w.cmds h ≡ some cmd)

-- After `cmd_sent` there is one command more, the client's last; after another answer there are the
-- same as before.
abbrev pub Allocates : Response → World → World → Type 0
Allocates cmd_sent w w' =
    ((cmd : Cmd) × Holds w' w.next cmd) × ((k : ℕ) → (k == w.next) ≡ false → w'.cmds k ≡ w.cmds k)
Allocates _ w w' = (k : ℕ) → w'.cmds k ≡ w.cmds k
