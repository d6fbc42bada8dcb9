-- ===== src/Conf/Cidr.antt =====
-- The address blocks of src/conf.c, as src/acl.c reads them.
use Prim.Native.Nat.{bit_and}
use mathlib.Core.Path.{subst}
use webdis.Acl.{cidr_ok}
use webdis.Conf.{
  Json, Libc, to_ushort, cidr_parts, mask_of, set_cidr, empty_acl, conf_parse_acl,
  conf_string_or_envvar, with_cidr, string_member,
}
use webdis.Conf.Bits.{pow2_pos, pow2, bit_and_mask}
use webdis.Prelude.Search.{lacks, memchr-append, drop_past}
use webdis.Prelude.Text.{Bytes, codes}
use webdis.State.{Acl}
use native.Mathlib.Nat.{mul-div_cancel, div-mul-le_self}
use webdis.Prelude.{
  sym, ◌++◌, ◌∷◌, Bool, ap, ◌∙◌, false, Bool-cases, ==_iff, true, ◌&&◌, inl, inr, zero, suc, ◌<◌, ℕ,
  zero, suc, ◌+◌, ◌-◌, ◌*◌, ◌/◌, ◌%◌, ◌^◌, ◌≤◌, ◌<◌, ◌≡◌, refl, sym, ap, ◌∙◌, inl, inr, Bool, true,
  false, ◌&&◌, some, ◌∷◌, ◌++◌, arith, leb, ◌==◌, ==_iff, Bool-cases, take-append,
}

abbrev is_mask : ℕ → Bool
is_mask bits = ((2 ^ 32 - 1) * 2 ^ (32 - bits) % 2 ^ 32) == ((pow2 bits - 1) * pow2 (32 - bits))

-- The masks of 1 to `n` bits are ones over zeros.
are_masks : ℕ → Bool
are_masks zero = true
are_masks (suc n) = is_mask (suc n) && are_masks n

both_true : (a b : Bool) → (a && b) ≡ true → (a ≡ true) × (b ≡ true)
both_true true b h = (refl, h)
both_true false b h = cc

are_masks-is_mask : (n bits : ℕ) → are_masks n ≡ true → 0 < bits → bits ≤ n → is_mask bits ≡ true
unfolding are_masks
are_masks-is_mask zero bits e h0 h = absurd (omega arith)
are_masks-is_mask (suc n) bits e h0 h =
    let (last, rest) = both_true (is_mask (suc n)) (are_masks n) e in
    elim (Bool-cases (bits == suc n)) [
      | inl same ↦ rw ((==_iff bits (suc n)).0 same) last
      | inr earlier ↦ are_masks-is_mask n bits rest h0 (ground arith)
    ]

mask_table : are_masks 32 ≡ true
unfolding are_masks
mask_table = refl

-- Both addresses begin with the same bits.
abbrev pub same_prefix : ℕ → ℕ → ℕ → Bool
same_prefix bits ip net = ip / pow2 (32 - bits) == net / pow2 (32 - bits)

module _ (bits : ℕ) (h1 : 1 ≤ bits) (h2 : bits ≤ 32) where
  p : ℕ
  p = pow2 (32 - bits)

  masked : (x : ℕ) → x < 2 ^ 32 → bit_and x ((2 ^ 32 - 1) * 2 ^ (32 - bits) % 2 ^ 32) ≡ x / p * p
  unfolding p
  masked x h =
      let all : 32 - bits + bits ≡ 32 = omega arith in
      let table = are_masks-is_mask 32 bits mask_table h1 h2 in
      ap (bit_and x) ((==_iff _ _).0 table)
      ∙ bit_and_mask (32 - bits) bits x (subst (λ n. x < pow2 n) (sym all) h)

  p_pos : 0 < p
  unfolding p
  p_pos = pow2_pos (32 - bits)

  same_multiple : (q r : ℕ) → ((q * p) == (r * p)) ≡ (q == r)
  same_multiple q r =
      let cancel : q * p ≡ r * p → q ≡ r =
        λ e. sym (mul-div_cancel q p_pos) ∙ ap (λ n. n / p) e ∙ mul-div_cancel r p_pos in
      elim (Bool-cases (q == r)) [
        | inl e ↦ (==_iff (q * p) (r * p)).1 (ap (λ n. n * p) ((==_iff q r).0 e)) ∙ sym e
        | inr e ↦ elim (Bool-cases ((q * p) == (r * p))) [
          | inl f ↦ f ∙ sym ((==_iff q r).1 (cancel ((==_iff (q * p) (r * p)).0 f)))
          | inr f ↦ f ∙ sym e
        ]
      ]

  module _ {J : Type 0} (json : Json J) (libc : Libc) where
    cidr_parts-slash :
        (addr digits : Bytes)
        → lacks b'/' addr ≡ true
        → to_ushort (libc.atoi digits) ≡ bits
        → cidr_parts json libc (addr ++ (b'/' ∷ digits)) ≡ (addr, bits)
    unfolding cidr_parts
    cidr_parts-slash addr digits clean is = rw (
      memchr-append b'/' addr digits clean,
      cidr_parts,
      take-append addr (b'/' ∷ digits),
      drop_past addr digits b'/',
      is,
    )

    mask_of-bits : mask_of json libc bits ≡ (2 ^ 32 - 1) * 2 ^ (32 - bits) % 2 ^ 32
    mask_of-bits =
        let some_bits : (bits == 0) ≡ false = ground arith in
        let few : leb bits 32 ≡ true = ground arith in rw (some_bits, few)

    -- The block is about the addresses that begin with the bits of its network.
    set_cidr-cidr_ok :
        (a : Acl) (addr digits : Bytes) (ip : ℕ)
        → lacks b'/' addr ≡ true
        → to_ushort (libc.atoi digits) ≡ bits
        → libc.inet_addr addr < 2 ^ 32
        → ip < 2 ^ 32
        → cidr_ok (set_cidr json libc a (addr ++ (b'/' ∷ digits))) ip
          ≡ same_prefix bits ip (libc.inet_addr addr)
    unfolding set_cidr cidr_ok p
    set_cidr-cidr_ok a addr digits ip clean is net_lt ip_lt =
        let net = libc.inet_addr addr in
        let low : net / p * p < 2 ^ 32 = omega (arith, div-mul-le_self net p) in
        let again : net / p * p / p ≡ net / p = mul-div_cancel (net / p) p_pos in
        rw
          (
            cidr_parts-slash addr digits clean is,
            mask_of-bits,
            masked net net_lt,
            masked ip ip_lt,
            masked (net / p * p) low,
            again,
          )
          (same_multiple (ip / p) (net / p))

    -- A block whose "ip" is an address, a slash and a number of bits from 1 to 32, possibly by way of
    -- the environment, is about exactly the addresses that begin with the same bits.
    pub conf_parse_acl-cidr_ok :
        (j : J) (text addr digits : Bytes) (ip : ℕ)
        → string_member json libc j (codes "ip") ≡ some text
        → conf_string_or_envvar json libc (some text) ≡ addr ++ (b'/' ∷ digits)
        → lacks b'/' addr ≡ true
        → to_ushort (libc.atoi digits) ≡ bits
        → libc.inet_addr addr < 2 ^ 32
        → ip < 2 ^ 32
        → cidr_ok (conf_parse_acl json libc j) ip ≡ same_prefix bits ip (libc.inet_addr addr)
    unfolding conf_parse_acl with_cidr cidr_ok
    conf_parse_acl-cidr_ok j text addr digits ip member value clean is net_lt ip_lt =
        rw (member, value)
          (set_cidr-cidr_ok (empty_acl json libc) addr digits ip clean is net_lt ip_lt)
