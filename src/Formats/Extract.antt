-- ===== src/Formats/Extract.antt =====
-- `json_ws_extract` of src/formats/json.c and `raw_ws_extract` of src/formats/raw.c: the arguments
-- of a command, from a WebSocket message. The parsers of jansson and hiredis are parameters.
use webdis.Formats.Common.{integer_length}
use webdis.Prelude.Int.{ℤ, decimal_int, to_int}
use webdis.Prelude.Text.{Bytes}
use webdis.Reply.{Reply, Elements}
use webdis.Prelude.{ℕ, suc, Option, none, some, List, [], ◌∷◌, ◌==◌, if◌then◌else◌, take}

-- The kinds of JSON values that the program tells apart.
pub data JsonItem : Type 0 where
  json_string : Bytes → JsonItem
  json_integer : ℤ → JsonItem
  json_other : JsonItem

pub data JsonText : Type 0 where
  json_array : List JsonItem → JsonText
  not_array : JsonText

-- Where the source returns NULL, at once or after it has made a command and freed it, and where it
-- reads through a null pointer.
pub data Extract : Type 0 where
  refused : Extract
  dropped : Extract
  fault : Extract
  command : List Bytes → Extract

-- The first loop counts the arguments.
unfoldable pub count_args : List JsonItem → ℕ
count_args [] = 0
count_args (json_string s ∷ js) = suc (count_args js)
count_args (json_integer n ∷ js) = suc (count_args js)
count_args (json_other ∷ js) = count_args js

-- The second loop fills them; integers are cast to `int`.
unfoldable pub json_args : List JsonItem → List Bytes
json_args [] = []
json_args (json_string s ∷ js) = s ∷ json_args js
json_args (json_integer n ∷ js) = decimal_int (to_int n) ∷ json_args js
json_args (json_other ∷ js) = json_args js

unfoldable pub json_command : Option JsonText → Extract
unfolding count_args json_args
json_command none = refused
json_command (some not_array) = refused
json_command (some (json_array js)) = if count_args js == 0 then refused else command (json_args js)

-- With `loads` for `json_loads`.
unfoldable pub json_ws_extract : (Bytes → Option JsonText) → Bytes → Extract
unfolding json_command
json_ws_extract loads p = json_command (loads p)

-- What `redisReaderGetReply` answers: an error, no reply yet, or a reply.
pub data ReaderAnswer : Type 0 where
  reader_error : ReaderAnswer
  incomplete : ReaderAnswer
  complete : Reply → ReaderAnswer

-- `argv_len` bytes of what `sprintf` has written into `argv_len + 1`.
abbrev pub cons_arg : Bytes → Extract → Extract
cons_arg a refused = refused
cons_arg a dropped = dropped
cons_arg a fault = fault
cons_arg a (command args) = command (a ∷ args)

-- The loop over the elements.
unfoldable pub raw_args : Elements → Extract
raw_args Elements.end = command []
raw_args (Elements.item (Reply.string s) es) = cons_arg s (raw_args es)
raw_args (Elements.item (Reply.integer n) es) =
    cons_arg (take (integer_length n) (decimal_int n)) (raw_args es)
raw_args (Elements.item _ es) = dropped

-- `reply` is NULL while the message holds no complete reply; its type is read all the same.
unfoldable pub raw_command : ReaderAnswer → Extract
unfolding raw_args
raw_command reader_error = refused
raw_command incomplete = fault
raw_command (complete (Reply.array es)) = raw_args es
raw_command (complete _) = refused

-- With `reader` for `redisReaderFeed` and `redisReaderGetReply`.
unfoldable pub raw_ws_extract : (Bytes → ReaderAnswer) → Bytes → Extract
unfolding raw_command
raw_ws_extract reader p = raw_command (reader p)
