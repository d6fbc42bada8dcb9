-- ===== src/Reply.antt =====
-- The replies of Redis, as hiredis hands them over: `redisReply` with its type and contents.
-- `str` is a text of `len` bytes; a reply of a type that the program does not name is `other`.
use webdis.Prelude.Int.{ℤ}
use webdis.Prelude.Text.{Bytes}
use webdis.Prelude.{ℕ, suc}

mutual
  pub data Reply : Type 0 where
    status : Bytes → Reply
    error : Bytes → Reply
    string : Bytes → Reply
    integer : ℤ → Reply
    nil : Reply
    array : Elements → Reply
    other : Reply

  pub data Elements : Type 0 where
    end : Elements
    item : Reply → Elements → Elements

-- `elements`.
abbrev pub count_elements : Elements → ℕ
count_elements end = 0
count_elements (item e es) = suc (count_elements es)
