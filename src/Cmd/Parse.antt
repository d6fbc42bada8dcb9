-- ===== src/Cmd/Parse.antt =====
-- How `cmd_run` of src/cmd.c reads a URI: the parameters are counted, the database and the name
-- of the command are found, and the arguments are decoded into their slots.
use webdis.Cmd.Uri.{decode_uri}
use webdis.Prelude.Text.{Bytes, memchr}
use webdis.Prelude.{
  ℕ, zero, suc, ◌+◌, ◌-◌, ◌*◌, ◌%◌, ◌^◌, true, false, ◌||◌, Option, none, some, List, [], ◌∷◌, ltb,
  ◌==◌, if◌then◌else◌, length, set, take, drop,
}

-- The query string is cut off.
unfoldable pub strip_query : Bytes → ℕ
strip_query uri = elim (memchr uri b'?' (length uri)) [ none ↦ length uri | some k ↦ k ]

-- The loop that counts: `p` goes from slash to slash. The argument is what stands from `p` to the
-- end of the URI, and its length bounds the rounds.
unfoldable pub count_params : ℕ → Bytes → ℕ
count_params zero p = 0
count_params (suc f) [] = 0
count_params (suc f) (c ∷ p) =
    suc (elim (memchr p b'/' (length p)) [ none ↦ 0 | some k ↦ count_params f (drop k p) ])

-- The loop over the first part of the path: its number, unless a byte of it is no digit. The
-- number is an `int`, here its bit pattern.
unfoldable pub db_from : ℕ → Bytes → Option ℕ
db_from db_num [] = some db_num
db_from db_num (c ∷ p) =
    let rest = db_from ((db_num * 10 + (c - b'0')) % 2 ^ 32) p in
    if ltb c b'0' || ltb b'9' c then none else rest

-- Where the name of the command stands, and the database before it.
pub record Target : Type 0 where
  pub database : Option ℕ
  pub name_at : ℕ
  pub cmd_len : ℕ

abbrev pub shifted : Bytes → ℕ → ℕ → ℕ → Target
shifted uri uri_len slash db = record {
  database = some db;
  name_at = slash + 1;
  cmd_len = elim (memchr (drop (slash + 1) uri) b'/' (uri_len - slash)) [
    | none ↦ uri_len - (slash + 1)
    | some k ↦ k
  ];
}

unfoldable pub locate : Bytes → ℕ → Option ℕ → Target
unfolding db_from
locate uri uri_len none = record { database = none; name_at = 0; cmd_len = uri_len }
locate uri uri_len (some slash) = elim (db_from 0 (take slash uri)) [
  | none ↦ record { database = none; name_at = 0; cmd_len = slash }
  | some db ↦ shifted uri uri_len slash db
]

-- The `while` over the arguments: `n` bytes are left from `p` on, and `cur_param` is the next slot.
unfoldable pub fill_args : ℕ → Bytes → ℕ → ℕ → List Bytes → ℕ × List Bytes
unfolding decode_uri
fill_args zero p n cur_param argv = (cur_param, argv)
fill_args (suc f) p n cur_param argv = elim (n == 0) [
  | true ↦ (cur_param, argv)
  | false ↦ elim (memchr p b'/' n) [
    | none ↦ (cur_param + 1, set argv cur_param (decode_uri p n true))
    | some k ↦
        fill_args f (drop (k + 1) p) (n - (k + 1)) (cur_param + 1)
          (set argv cur_param (decode_uri p k true))
  ]
]
