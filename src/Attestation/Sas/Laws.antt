-- ===== src/Attestation/Sas/Laws.antt =====
-- What src/attestation/sas.rs reads from an account, and what it writes.
use mathlib.Core.List.{append_assoc}
use executor_node.Prelude.{
  ℕ, zero, suc, ◌+◌, ◌-◌, ◌*◌, ◌≤◌, ◌<◌, ◌≡◌, refl, sym, ap, ◌∙◌, subst, ◌↔◌, inl, inr, true, false,
  List, [], ◌∷◌, ◌++◌, Bytes, Bytes_eq, All, arith, ltb, ok, length, take, drop, length-append,
  length-take, Bool-cases, Option-cases, Result-cases, min,
}
use executor_node.Validation.Digest.{little_endian}
use executor_node.Validation.Intent.{from_le_bytes}
use executor_node.Attestation.Sas.{
  get_range, read_u32_le, check_signers, skip_name, parse_credential_authorized_signers,
}
use executor_node.Attestation.Sas.Layout.{
  IsByte, IsKey, flatten, credential, get_range-append, get_range_splits, read_signers-flatten,
  read_signers_splits, length-little_endian, little_endian-from_le_bytes,
  from_le_bytes-little_endian4, from_le_bytes-lt4, All-drop, All-prefix, take-append-drop,
  length-drop, drop-drop,
}

abbrev word_mod : ℕ
word_mod = 4294967296

-- A word that stands after a prefix is read.
read_u32_le-word :
    (p rest : Bytes) (offset v : ℕ)
    → length p ≡ offset
    → offset < 9223372036854775808
    → v < word_mod
    → read_u32_le (p ++ (little_endian 4 v ++ rest)) offset ≡ ok v
unfolding read_u32_le
read_u32_le-word p rest offset v h small k =
    let size : offset + length (little_endian 4 v) ≡ offset + 4 =
      ap (λ n. offset + n) (length-little_endian 4 v) in
    let fits : ltb (offset + 4) 18446744073709551616 ≡ true = ground arith in
    let there = get_range-append p (little_endian 4 v) rest offset (offset + 4) h size in
    rw (fits, there, from_le_bytes-little_endian4 v k, read_u32_le) refl

-- A word that is read stands there, and ends inside the account.
read_u32_le_splits :
    (d : Bytes) (offset v : ℕ)
    → All IsByte d
    → read_u32_le d offset ≡ ok v
    → (v < word_mod)
      × (offset + 4 ≤ length d)
      × (drop offset d ≡ little_endian 4 v ++ drop (offset + 4) d)
unfolding read_u32_le
read_u32_le_splits d offset v b h = elim (Bool-cases (ltb (offset + 4) 18446744073709551616)) [
  | inr huge ↦ absurd (ground (arith, rw (huge, read_u32_le) at h))
  | inl fits ↦ elim (Option-cases (get_range d offset (offset + 4))) [
    | inl short ↦ absurd (ground (arith, rw (fits, short, read_u32_le) at h))
    | inr (word, here) ↦
        let e : from_le_bytes word ≡ v = ground (arith, rw (fits, here, read_u32_le) at h) in
        let (ordered, inside, size, split) = get_range_splits d word offset (offset + 4) here in
        let four : length word ≡ 4 = omega arith in
        let bounded : All IsByte word =
          All-prefix word (drop (offset + 4) d) (subst (All IsByte) split (All-drop offset d b)) in
        let back : little_endian 4 (from_le_bytes word) ≡ word =
          subst (λ n. little_endian n (from_le_bytes word) ≡ word) four
            (little_endian-from_le_bytes word bounded) in
        (
          subst (λ n. n < word_mod) e (from_le_bytes-lt4 word four bounded),
          inside,
          split ∙ ap (λ x. x ++ drop (offset + 4) d) (sym back ∙ ap (little_endian 4) e),
        )
  ]
]

-- An account that has the layout of a credential with these signers. A length is below 2^32, and
-- what follows the signers is free.
pub record IsCredential (data_ : Bytes) (signers : List Bytes) : Type 0 where
  pub authority : Bytes
  pub name : Bytes
  pub trailing : Bytes
  pub has_authority : length authority ≡ 32
  pub short_name : length name < 4294967296
  pub few : length signers < 4294967296
  pub keys : All IsKey signers
  pub layout : data_ ≡ credential authority name signers trailing

length-flatten :
    (signers : List Bytes) (trailing : Bytes)
    → All IsKey signers
    → length (flatten signers trailing) ≡ 32 * length signers + length trailing
length-flatten [] trailing h = omega arith
length-flatten (k ∷ ks) trailing (h, hs) =
    omega (arith, length-append k (flatten ks trailing), length-flatten ks trailing hs)

-- The prefix of a credential up to the number of its signers.
abbrev header : Bytes → Bytes → Bytes
header authority name = (0 ∷ authority) ++ (little_endian 4 (length name) ++ name)

length-header :
    (authority name : Bytes)
    → length authority ≡ 32
    → length (header authority name) ≡ 37 + length name
length-header authority name h = omega (
  arith,
  length-append (0 ∷ authority) (little_endian 4 (length name) ++ name),
  length-append (little_endian 4 (length name)) name,
  length-little_endian 4 (length name),
)

regroup :
    (authority name rest : Bytes)
    → (0 ∷ authority) ++ (little_endian 4 (length name) ++ (name ++ rest))
      ≡ header authority name ++ rest
regroup authority name rest =
    ap (λ x. (0 ∷ authority) ++ x) (sym (append_assoc (little_endian 4 (length name)) name rest))
    ∙ sym (append_assoc (0 ∷ authority) (little_endian 4 (length name) ++ name) rest)

-- The signers of a credential are read.
check_signers-credential :
    (p trailing : Bytes) (signers : List Bytes) (offset : ℕ)
    → length p ≡ offset + 4
    → offset < 9223372036854775808
    → length signers < word_mod
    → All IsKey signers
    → check_signers (p ++ flatten signers trailing) (length signers) offset ≡ ok signers
unfolding check_signers
check_signers-credential p trailing signers offset h small few keys =
    let fits : ltb (offset + 4) 18446744073709551616 ≡ true = ground arith in
    let enough : ltb (length (p ++ flatten signers trailing) - (offset + 4))
          (min (length signers * 32) 18446744073709551615)
        ≡ false =
      ground
        (arith, length-append p (flatten signers trailing), length-flatten signers trailing keys) in
    rw (fits, enough, check_signers) (read_signers-flatten signers p trailing (offset + 4) h keys)

-- From the length of the name on, with the signers and what follows them read from `rest`.
skip_name-credential :
    (authority name trailing : Bytes) (signers : List Bytes)
    → length authority ≡ 32
    → length name < word_mod
    → length signers < word_mod
    → All IsKey signers
    → skip_name (credential authority name signers trailing) (length name) ≡ ok signers
unfolding skip_name
skip_name-credential authority name trailing signers h short few keys =
    let offset = 33 + (4 + length name) in
    let word = little_endian 4 (length signers) in
    let rest = flatten signers trailing in
    let head = header authority name in
    let whole = regroup authority name (word ++ rest) in
    let size : length head ≡ offset = omega (arith, length-header authority name h) in
    let fits : ltb (33 + (4 + length name)) 18446744073709551616 ≡ true = ground arith in
    let count : read_u32_le (credential authority name signers trailing) offset
        ≡ ok (length signers) =
      subst (λ x. read_u32_le x offset ≡ ok (length signers)) (sym whole)
        (read_u32_le-word head rest offset (length signers) size (omega arith) few) in
    let last : length (head ++ word) ≡ offset + 4 =
      omega (arith, length-append head word, length-little_endian 4 (length signers), size) in
    let listed : check_signers (credential authority name signers trailing) (length signers) offset
        ≡ ok signers =
      subst (λ x. check_signers x (length signers) offset ≡ ok signers)
        (append_assoc head word rest ∙ sym whole)
        (check_signers-credential (head ++ word) trailing signers offset last (omega arith) few
          keys) in
    rw (fits, count, skip_name) listed

credential-parses :
    (data_ : Bytes) (signers : List Bytes)
    → IsCredential data_ signers
    → parse_credential_authorized_signers data_ ≡ ok signers
unfolding parse_credential_authorized_signers
credential-parses data_ signers c =
    let rest = c.name ++ (little_endian 4 (length signers) ++ flatten signers c.trailing) in
    let size : length (0 ∷ c.authority) ≡ 33 = omega (arith, c.has_authority) in
    let named =
      read_u32_le-word (0 ∷ c.authority) rest 33 (length c.name) size (omega arith) c.short_name in
    let read =
      skip_name-credential c.authority c.name c.trailing signers c.has_authority c.short_name c.few
        c.keys in
    subst (λ x. parse_credential_authorized_signers x ≡ ok signers) (sym c.layout)
      (rw (named, parse_credential_authorized_signers) read)

check_signers_splits :
    (d : Bytes) (n offset : ℕ) (signers : List Bytes)
    → check_signers d n offset ≡ ok signers
    → (length signers ≡ n)
      × All IsKey signers
      × (drop (offset + 4) d ≡ flatten signers (drop (offset + 4 + 32 * n) d))
unfolding check_signers
check_signers_splits d n offset signers h =
    elim (Bool-cases (ltb (offset + 4) 18446744073709551616)) [
      | inr huge ↦ absurd (ground (arith, rw (huge, check_signers) at h))
      | inl fits ↦
          elim (Bool-cases (ltb (length d - (offset + 4)) (min (n * 32) 18446744073709551615))) [
            | inl few ↦ absurd (ground (arith, rw (fits, few, check_signers) at h))
            | inr enough ↦
                read_signers_splits n (offset + 4) d signers (rw (fits, enough, check_signers) at h)
          ]
    ]

-- What is read after the name, with the name that is skipped.
skip_name_splits :
    (d : Bytes) (n : ℕ) (signers : List Bytes)
    → All IsByte d
    → skip_name d n ≡ ok signers
    → (length signers < word_mod)
      × All IsKey signers
      × (length (take n (drop 37 d)) ≡ n)
      × (drop 37 d
          ≡ take n (drop 37 d)
            ++ (little_endian 4 (length signers)
                ++ flatten signers (drop (33 + (4 + n) + 4 + 32 * length signers) d)))
unfolding skip_name
skip_name_splits d n signers b h = elim (Bool-cases (ltb (33 + (4 + n)) 18446744073709551616)) [
  | inr huge ↦ absurd (ground (arith, rw (huge, skip_name) at h))
  | inl fits ↦ elim (Result-cases (read_u32_le d (33 + (4 + n)))) [
    | inr (e, refused) ↦ absurd (ground (arith, rw (fits, refused, skip_name) at h))
    | inl (count, read) ↦
        let (bounded, inside, word) = read_u32_le_splits d (33 + (4 + n)) count b read in
        let (many, keys, listed) =
          check_signers_splits d count (33 + (4 + n)) signers (rw (fits, read, skip_name) at h) in
        let size : length (take n (drop 37 d)) ≡ n =
          omega (arith, length-take n (drop 37 d), length-drop 37 d, inside) in
        let after : drop n (drop 37 d) ≡ drop (33 + (4 + n)) d =
          drop-drop n 37 d ∙ ap (λ m. drop m d) (omega arith) in
        (
          subst (λ m. m < word_mod) (sym many) bounded,
          keys,
          size,
          sym (take-append-drop n (drop 37 d))
              ∙ ap (λ x. take n (drop 37 d) ++ x)
                  (after
                    ∙ word
                    ∙ ap (λ x. little_endian 4 count ++ x) listed
                    ∙ ap
                        (λ m.
                          little_endian 4 m ++ flatten signers (drop (33 + (4 + n) + 4 + 32 * m) d))
                        (sym many)),
        )
  ]
]

parses-IsCredential :
    (d : Bytes) (signers : List Bytes)
    → All IsByte d
    → parse_credential_authorized_signers d ≡ ok signers
    → IsCredential d signers
unfolding parse_credential_authorized_signers
parses-IsCredential [] signers b h = absurd (ground arith)
parses-IsCredential (suc k ∷ tail) signers b h = absurd (ground arith)
parses-IsCredential (zero ∷ tail) signers b h =
    let d = 0 ∷ tail in
    elim (Result-cases (read_u32_le d 33)) [
      | inr (e, refused) ↦
          absurd (ground (arith, rw (refused, parse_credential_authorized_signers) at h))
      | inl (n, read) ↦
          let (bounded, inside, word) = read_u32_le_splits d 33 n b read in
          let (few, keys, size, named) =
            skip_name_splits d n signers b (rw (read, parse_credential_authorized_signers) at h) in
          let name = take n (drop 37 d) in
          record {
            authority = take 32 tail;
            name = name;
            trailing = drop (33 + (4 + n) + 4 + 32 * length signers) d;
            has_authority = omega (arith, length-take 32 tail, inside);
            short_name = subst (λ m. m < word_mod) (sym size) bounded;
            few = few;
            keys = keys;
            layout =
                ap (λ x. 0 ∷ x) (sym (take-append-drop 32 tail))
                ∙ ap (λ x. (0 ∷ take 32 tail) ++ x)
                    (word
                      ∙ ap (λ x. little_endian 4 n ++ x) named
                      ∙ ap
                          (λ m.
                            little_endian 4 m
                            ++ (name
                                ++ (little_endian 4 (length signers)
                                    ++ flatten signers
                                        (drop (33 + (4 + n) + 4 + 32 * length signers) d))))
                          (sym size));
          }
    ]

-- The signers that the parser reads are exactly those of the documented layout: it answers with a list of signers if and only if the account is a credential of some authority and some name that lists them, whatever follows. (The elements of the account are bytes.)
pub parse_credential_authorized_signers_iff :
    (data_ : Bytes) (signers : List Bytes)
    → All IsByte data_
    → (parse_credential_authorized_signers data_ ≡ ok signers) ↔ IsCredential data_ signers
parse_credential_authorized_signers_iff data_ signers b =
    (parses-IsCredential data_ signers b, credential-parses data_ signers)
