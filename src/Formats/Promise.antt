-- ===== src/Formats/Promise.antt =====
-- What the responses of src/formats/common.c promise to a client.
use webdis.Cmd.{Cmd}
use webdis.Formats.Send.{hex_pairs, matches, etag_new}
use webdis.Http.Fields.{starts_plain}
use webdis.Http.Reader.{Message, lookup_field}
use webdis.Prelude.Digits.{digit}
use webdis.Prelude.Search.{lacks}
use webdis.Prelude.Text.{Bytes, codes}
use webdis.Prelude.{
  ℕ, ◌/◌, ◌%◌, ◌≡◌, refl, Bool, true, false, ◌&&◌, Option, none, some, List, [], ◌∷◌, arith, ◌==◌,
  if◌then◌else◌,
}

-- What a response tells its client, whatever bytes it takes to say so.
pub record Answer : Type 0 where
  pub status : ℕ
  pub connection : Option Bytes
  pub content_type : Option Bytes
  pub disposition : Option Bytes
  pub etag : Option Bytes
  pub content : Bytes

unfoldable pub answer_of : Message → Answer
unfolding lookup_field
answer_of m = record {
  status = m.status;
  connection = lookup_field (codes "Connection") m.fields;
  content_type = lookup_field (codes "Content-Type") m.fields;
  disposition = lookup_field (codes "Content-Disposition") m.fields;
  etag = lookup_field (codes "ETag") m.fields;
  content = m.content;
}

abbrev pub connection_of : Bool → Bytes
connection_of k = if k then codes "Keep-Alive" else codes "Close"

-- What webdis promises for a reply with the bytes `p`: the bytes, with their type and their tag,
-- or that the client has them already.
module _ (md5 : Bytes → List ℕ) where
  unfoldable pub promised : Cmd → Bytes → Bytes → Answer
  unfolding etag_new
  promised cmd p ct =
      if matches cmd.if_none_match (etag_new md5 p)
      then record {
        status = 304;
        connection = some (connection_of cmd.keep_alive);
        content_type = none;
        disposition = none;
        etag = none;
        content = [];
      }
      else record {
        status = 200;
        connection = some (connection_of cmd.keep_alive);
        content_type = some ct;
        disposition = cmd.filename;
        etag = some (etag_new md5 p);
        content = p;
      }

-- A value that fits on the line of its header.
abbrev pub is_value : Bytes → Bool
is_value v = lacks 13 v && starts_plain v

abbrev pub is_value_or_none : Option Bytes → Bool
is_value_or_none none = true
is_value_or_none (some v) = is_value v

pub connection-is_value : (k : Bool) → is_value (connection_of k) ≡ true
connection-is_value true = refl
connection-is_value false = refl

hex_pairs-lacks : (bs : List ℕ) (s : Bytes) → lacks 13 s ≡ true → lacks 13 (hex_pairs bs s) ≡ true
hex_pairs-lacks [] s h = h
hex_pairs-lacks (b ∷ bs) s h =
    let rest = hex_pairs-lacks bs s h in
    let d : (k : ℕ) → (digit k == 13) ≡ false = λ k. ground arith in
    rw (d (b / 16), d (b % 16), rest)

pub etag-is_value : (md5 : Bytes → List ℕ) (p : Bytes) → is_value (etag_new md5 p) ≡ true
unfolding etag_new
etag-is_value md5 p = rw (hex_pairs-lacks (md5 p) (b'"' ∷ []) refl)
