-- ===== src/Formats/Raw.antt =====
-- src/formats/raw.c: replies in the protocol of Redis.
use webdis.Formats.Common.{integer_length}
use webdis.Prelude.Digits.{decimal}
use webdis.Prelude.Int.{ℤ, pos, decimal_int}
use webdis.Prelude.Text.{Bytes, codes}
use webdis.Reply.{Reply, Elements, count_elements}
use webdis.Prelude.{ℕ, ◌+◌, ◌-◌, [], ◌∷◌, ◌++◌, length, take}

abbrev pub crlf : Bytes
crlf = 13 ∷ 10 ∷ []

-- A buffer: the bytes that are written from its start, with the NUL of a last `sprintf` counted
-- in `touched`; the size that is reported to the caller; the size that is allocated.
pub record Output : Type 0 where
  pub bytes : Bytes
  pub touched : ℕ
  pub sz : ℕ
  pub allocated : ℕ

-- The first loop of `raw_array`.
unfoldable pub raw_elements_size : Elements → ℕ
raw_elements_size Elements.end = 0
raw_elements_size (Elements.item (Reply.string s) es) =
    (1 + integer_length (pos (length s)) + 2 + length s + 2) + raw_elements_size es
raw_elements_size (Elements.item (Reply.integer n) es) =
    (1 + integer_length (pos (integer_length n)) + 2 + integer_length n + 2) + raw_elements_size es
raw_elements_size (Elements.item _ es) = raw_elements_size es

-- The second loop.
unfoldable pub raw_elements : Elements → Bytes
raw_elements Elements.end = []
raw_elements (Elements.item (Reply.string s) es) =
    b'$' ∷ (decimal (length s) ++ (crlf ++ (s ++ (crlf ++ raw_elements es))))
raw_elements (Elements.item (Reply.integer n) es) =
    b'$' ∷ (decimal (integer_length n) ++ (crlf ++ (decimal_int n ++ (crlf ++ raw_elements es))))
raw_elements (Elements.item _ es) = raw_elements es

unfoldable pub raw_array : Elements → Output
unfolding raw_elements_size raw_elements
raw_array es =
    let sz = 1 + integer_length (pos (count_elements es)) + 2 + raw_elements_size es in
    let bytes = b'*' ∷ (decimal (count_elements es) ++ (crlf ++ raw_elements es)) in
    record { bytes = bytes; touched = length bytes + 1; sz = sz; allocated = 1 + sz }

abbrev pub exact : Bytes → ℕ → Output
exact bytes sz = record { bytes = bytes; touched = length bytes; sz = sz; allocated = sz }

-- The text of a bulk string: as many bytes as the computed size leaves room for.
abbrev pub raw_string : Bytes → Output
raw_string s =
    let sz = 1 + integer_length (pos (length s)) + 2 + length s + 2 in
    let header = b'$' ∷ (decimal (length s) ++ crlf) in
    exact (header ++ (take (sz - 2 - length header) s ++ crlf)) sz

abbrev pub raw_integer : ℤ → Output
raw_integer n =
    let sz = 3 + integer_length n in
    let bytes = b':' ∷ (decimal_int n ++ crlf) in
    record { bytes = bytes; touched = length bytes + 1; sz = sz; allocated = 4 + sz }

unfoldable pub raw_wrap : Reply → Output
unfolding raw_array
raw_wrap (Reply.status s) = exact (b'+' ∷ (s ++ crlf)) (3 + length s)
raw_wrap (Reply.error s) = exact (b'-' ∷ (s ++ crlf)) (3 + length s)
raw_wrap (Reply.string s) = raw_string s
raw_wrap (Reply.integer n) = raw_integer n
raw_wrap (Reply.array es) = raw_array es
raw_wrap _ = exact (codes "$-1\r\n") 5

-- `raw_ws_error`: the message after "-ERR ".
unfoldable pub raw_ws_error : Bytes → Bytes
raw_ws_error msg = codes "-ERR " ++ (msg ++ crlf)
