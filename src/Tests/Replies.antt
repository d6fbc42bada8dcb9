-- ===== src/Tests/Replies.antt =====
-- Replies: src/formats.
use webdis.Formats.Common.{integer_length, integer_length-decimal_int}
use webdis.Formats.Custom.{custom_array, custom_array-size}
use webdis.Formats.Raw.{raw_wrap}
use webdis.Formats.RawSize.{IsSmall, Fits, raw_wrap-Fits, raw_wrap-overflow}
use webdis.Prelude.Int.{pos, negsuc, decimal_int}
use webdis.Prelude.Text.{codes}
use webdis.Reply.{Reply, Elements}
use webdis.Prelude.{◌≤◌, ◌≡◌, some, arith, length}

abbrev keys : Elements
keys = Elements.item (Reply.string (codes "a")) (
    Elements.item (Reply.integer (negsuc 11))
      (Elements.item Reply.nil (Elements.item (Reply.string (codes "bc")) Elements.end)))

keys-IsSmall : IsSmall (Reply.array keys)
keys-IsSmall = ground arith

raw_wrap-Fits_example : Fits (raw_wrap (Reply.array keys))
raw_wrap-Fits_example = raw_wrap-Fits (Reply.array keys) keys-IsSmall

raw_wrap-overflow_example :
    let o = raw_wrap (Reply.integer (pos 3000000000)) in (o.allocated ≡ 7) × (14 ≤ o.touched)
raw_wrap-overflow_example = raw_wrap-overflow 3000000000 (omega arith) (omega arith)

digits_counted : integer_length (negsuc 1023) ≡ length (decimal_int (negsuc 1023))
digits_counted = integer_length-decimal_int (negsuc 1023) (omega arith)

custom_array-size_example :
    length (custom_array (some (codes ", ")) keys).0 ≡ (custom_array (some (codes ", ")) keys).1
custom_array-size_example = custom_array-size (some (codes ", ")) keys
