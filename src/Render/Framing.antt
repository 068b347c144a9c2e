-- ===== src/Render/Framing.antt =====
-- What was written to the digest can be read back: every length has eight bytes.
use pg_tool_box.Common.{
  ℕ, zero, suc, ◌/◌, ◌%◌, ◌^◌, ◌<◌, ◌≡◌, refl, arith, List, [], ◌∷◌, ◌++◌, length, Text, append-inj,
  length-append, All, sym, ◌∙◌, text_eq,
}
use mathlib.Core.List.{append_assoc}
use pg_tool_box.Common.Dict
use pg_tool_box.Render.{big_endian, write_checksum_uint64, write_checksum_part, write_entries}

length-big_endian : (width value : ℕ) → length (big_endian width value) ≡ width
unfolding big_endian
length-big_endian zero value = refl
length-big_endian (suc width) value = omega (
  arith,
  length-append (big_endian width (value / 256)) (value % 256 ∷ []),
  length-big_endian width (value / 256),
)

length-uint64 : (value : ℕ) → length (write_checksum_uint64 value) ≡ 8
unfolding write_checksum_uint64
length-uint64 value = length-big_endian 8 value

big_endian_inj :
    (width a b : ℕ)
    → a < 256 ^ width
    → b < 256 ^ width
    → big_endian width a ≡ big_endian width b
    → a ≡ b
unfolding big_endian
big_endian_inj zero a b p q h = omega arith
big_endian_inj (suc width) a b p q h =
    let (front, last) =
      append-inj (big_endian width (a / 256)) (big_endian width (b / 256)) (a % 256 ∷ [])
        (b % 256 ∷ [])
        (omega (arith, length-big_endian width (a / 256), length-big_endian width (b / 256))) h in
    let high = big_endian_inj width (a / 256) (b / 256) (omega arith) (omega arith) front in
    ground arith

pub uint64_inj :
    (a b : ℕ) (s t : Text)
    → a < 2 ^ 64
    → b < 2 ^ 64
    → write_checksum_uint64 a ++ s ≡ write_checksum_uint64 b ++ t
    → (a ≡ b) × (s ≡ t)
unfolding write_checksum_uint64
uint64_inj a b s t p q h =
    let (front, rest) =
      append-inj (big_endian 8 a) (big_endian 8 b) s t
        (omega (arith, length-big_endian 8 a, length-big_endian 8 b)) h in
    (big_endian_inj 8 a b p q front, rest)

pub part_inj :
    (v w s t : Text)
    → length v < 2 ^ 64
    → length w < 2 ^ 64
    → write_checksum_part v ++ s ≡ write_checksum_part w ++ t
    → (v ≡ w) × (s ≡ t)
unfolding write_checksum_part
part_inj v w s t p q h =
    let (same, rest) = uint64_inj (length v) (length w) (v ++ s) (w ++ t) p q (
      sym (append_assoc (write_checksum_uint64 (length v)) v s)
      ∙ (h ∙ append_assoc (write_checksum_uint64 (length w)) w t)) in
    append-inj v w s t same rest

-- The entries of two maps, in their order, are read back one by one.
pub write_entries_inj :
    (m n : List (Text × Text)) (keys ids : List Text)
    → length keys ≡ length ids
    → All (λ k. (length k < 2 ^ 64) × (length (Dict.value_at k m) < 2 ^ 64)) keys
    → All (λ k. (length k < 2 ^ 64) × (length (Dict.value_at k n) < 2 ^ 64)) ids
    → write_entries m keys ≡ write_entries n ids
    → (keys ≡ ids) × All (λ k. Dict.value_at k m ≡ Dict.value_at k n) keys
unfolding write_entries
write_entries_inj m n [] [] l p q h = (refl, tt)
write_entries_inj m n [] (i ∷ ids) l p q h = absurd (ground arith)
write_entries_inj m n (k ∷ keys) [] l p q h = absurd (ground arith)
write_entries_inj m n (k ∷ keys) (i ∷ ids) l p q h =
    let (same, h') =
      part_inj k i (write_checksum_part (Dict.value_at k m) ++ write_entries m keys)
        (write_checksum_part (Dict.value_at i n) ++ write_entries n ids) p.0.0 q.0.0 h in
    let (value, h'') =
      part_inj (Dict.value_at k m) (Dict.value_at i n) (write_entries m keys) (write_entries n ids)
        p.0.1 q.0.1 h' in
    let (rest, values) = write_entries_inj m n keys ids (omega arith) p.1 q.1 h'' in
    (cc, (cc, values))
