-- ===== src/Render/Canonical.antt =====
-- Which files have the same checksum.
use pg_tool_box.Common.{
  ◌^◌, ◌<◌, Bool, true, false, Option, none, some, List, [], ◌∷◌, ◌≡◌, ◌↔◌, inl, inr, refl, arith,
  Text, text_eq, length, All, Distinct, Option-cases, sym, ◌∙◌, append-inj, codes,
}
use pg_tool_box.Common.Dict
use pg_tool_box.Render.{
  key_list, sort_strings, write_entries, write_checksum_part, write_checksum_map, canonical,
}
use pg_tool_box.Render.Framing.{uint64_inj, write_entries_inj}
use pg_tool_box.Render.Order.{
  has, has-sort_strings, length-sort_strings, All-has, has-All, sort_strings-IsSorted,
  sorted_unique,
}

-- A map of files: a name occurs once, and all lengths fit in 64 bits.
pub record IsFileMap (m : List (Text × Text)) : Type 0 where
  pub distinct : Distinct (key_list m)
  pub few : length (key_list m) < 2 ^ 64
  pub short : All (λ k. (length k < 2 ^ 64) × (length (Dict.value_at k m) < 2 ^ 64)) (key_list m)

-- Two maps with the same files, in whatever order.
abbrev pub SameFiles : List (Text × Text) → List (Text × Text) → Type 0
SameFiles m n = (k : Text) → Dict.lookup k m ≡ Dict.lookup k n

abbrev is_there : Option Text → Bool
is_there none = false
is_there (some value) = true

has-key_list : (k : Text) (m : List (Text × Text)) → has k (key_list m) ≡ is_there (Dict.lookup k m)
unfolding has Dict.lookup
has-key_list k [] = refl
has-key_list k ((j, v) ∷ m) = ground (arith, has-key_list k m)

write_entries_cong :
    (m n : List (Text × Text)) (keys : List Text)
    → SameFiles m n
    → write_entries m keys ≡ write_entries n keys
unfolding write_entries Dict.value_at
write_entries_cong m n [] h = refl
write_entries_cong m n (k ∷ keys) h = cc (h k, write_entries_cong m n keys h)

sorted_same :
    (m n : List (Text × Text))
    → IsFileMap m
    → IsFileMap n
    → SameFiles m n
    → sort_strings (key_list m) ≡ sort_strings (key_list n)
sorted_same m n p q h =
    sorted_unique (sort_strings (key_list m)) (sort_strings (key_list n))
      (sort_strings-IsSorted (key_list m) p.distinct)
      (sort_strings-IsSorted (key_list n) q.distinct)
      (λ k. cc (
        has-sort_strings k (key_list m),
        has-sort_strings k (key_list n),
        has-key_list k m,
        has-key_list k n,
        h k,
      ))

canonical_same :
    (m n : List (Text × Text))
    → IsFileMap m
    → IsFileMap n
    → SameFiles m n
    → canonical m ≡ canonical n
unfolding canonical write_checksum_map
canonical_same m n p q h = cc (
  sorted_same m n p q h,
  write_entries_cong m n (sort_strings (key_list n)) h,
  length-sort_strings (key_list m),
  length-sort_strings (key_list n),
)

short_sorted :
    (m : List (Text × Text))
    → IsFileMap m
    → All
        (λ k. (length k < 2 ^ 64) × (length (Dict.value_at k m) < 2 ^ 64))
        (sort_strings (key_list m))
short_sorted m p =
    let Q : Text → Type 0 = λ k. (length k < 2 ^ 64) × (length (Dict.value_at k m) < 2 ^ 64) in
    All-has Q (sort_strings (key_list m))
      (λ k e. has-All Q k (key_list m) p.short (sym (has-sort_strings k (key_list m)) ∙ e))

lookup_same :
    (m n : List (Text × Text)) (k : Text)
    → has k (key_list m) ≡ has k (key_list n)
    → (has k (key_list m) ≡ true → Dict.value_at k m ≡ Dict.value_at k n)
    → Dict.lookup k m ≡ Dict.lookup k n
unfolding Dict.value_at
lookup_same m n k there value = elim (Option-cases (Dict.lookup k m)) [
  | inl e ↦ elim (Option-cases (Dict.lookup k n)) [
    | inl f ↦ e ∙ sym f
    | inr (w, f) ↦ absurd (ground (arith, has-key_list k m, has-key_list k n))
  ]
  | inr (v, e) ↦ elim (Option-cases (Dict.lookup k n)) [
    | inl f ↦ absurd (ground (arith, has-key_list k m, has-key_list k n))
    | inr (w, f) ↦ ground (arith, has-key_list k m)
  ]
]

same_canonical :
    (m n : List (Text × Text))
    → IsFileMap m
    → IsFileMap n
    → canonical m ≡ canonical n
    → SameFiles m n
unfolding canonical write_checksum_map
same_canonical m n p q h k =
    let (_, body) =
      append-inj (write_checksum_part (codes "pgtoolbox-checksum-v1"))
        (write_checksum_part (codes "pgtoolbox-checksum-v1")) (write_checksum_map m)
        (write_checksum_map n) refl h in
    let (count, entries) =
      uint64_inj (length (key_list m)) (length (key_list n))
        (write_entries m (sort_strings (key_list m))) (write_entries n (sort_strings (key_list n)))
        p.few q.few body in
    let (keys, values) =
      write_entries_inj m n (sort_strings (key_list m)) (sort_strings (key_list n))
        (omega (arith, length-sort_strings (key_list m), length-sort_strings (key_list n)))
        (short_sorted m p) (short_sorted n q) entries in
    lookup_same m n k (cc (keys, has-sort_strings k (key_list m), has-sort_strings k (key_list n)))
      (λ there.
        has-All (λ j. Dict.value_at j m ≡ Dict.value_at j n) k (sort_strings (key_list m)) values
          (has-sort_strings k (key_list m) ∙ there))

-- Two maps of files give the digest the same text exactly when each name has the same content in
-- both: neither the order of the map nor a shift of bytes between names and contents matters. Names
-- occur once in a map, and all lengths are below 2^64.
pub canonical_iff :
    (m n : List (Text × Text))
    → IsFileMap m
    → IsFileMap n
    → (canonical m ≡ canonical n) ↔ SameFiles m n
canonical_iff m n p q = (same_canonical m n p q, canonical_same m n p q)
