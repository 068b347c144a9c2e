-- ===== src/Render/Order.antt =====
-- Sorting the keys forgets their order, and nothing else.
use pg_tool_box.Common.{
  suc, Bool, true, false, ◌||◌, List, [], ◌∷◌, ◌≡◌, ◌≢◌, inl, inr, refl, arith, Text, any, text_eq,
  text_beq_iff, ◌==◌, text_lt, text_lt_irrefl, text_lt_trans, text_lt_total, All, All-mono,
  Distinct, Bool-cases, length, sym, ◌∙◌, ap,
}
use pg_tool_box.Render.{insert_string, sort_strings}

-- Whether a text stands in a list.
unfoldable pub has : Text → List Text → Bool
has k l = any (λ s. s == k) l

has-insert_string : (k s : Text) (l : List Text) → has k (insert_string s l) ≡ (s == k || has k l)
unfolding has insert_string
has-insert_string k s [] = refl
has-insert_string k s (t ∷ l) = ground (arith, has-insert_string k s l)

pub has-sort_strings : (k : Text) (l : List Text) → has k (sort_strings l) ≡ has k l
unfolding has sort_strings
has-sort_strings k [] = refl
has-sort_strings k (s ∷ l) =
    rw (has-insert_string k s (sort_strings l)) (ground (arith, has-sort_strings k l))

length-insert_string : (s : Text) (l : List Text) → length (insert_string s l) ≡ suc (length l)
unfolding insert_string
length-insert_string s [] = refl
length-insert_string s (t ∷ l) = ground (arith, length-insert_string s l)

pub length-sort_strings : (l : List Text) → length (sort_strings l) ≡ length l
unfolding sort_strings
length-sort_strings [] = refl
length-sort_strings (s ∷ l) =
    omega (arith, length-insert_string s (sort_strings l), length-sort_strings l)

pub All-has : (P : Text → Type 0) (l : List Text) → ((k : Text) → has k l ≡ true → P k) → All P l
unfolding has
All-has P [] h = tt
All-has P (s ∷ l) h =
    (h s (ground (arith, text_beq_iff s s)), All-has P l (λ k e. h k (ground arith)))

pub has-All : (P : Text → Type 0) (k : Text) (l : List Text) → All P l → has k l ≡ true → P k
unfolding has
has-All P k [] h e = absurd (ground arith)
has-All P k (s ∷ l) h e = elim (Bool-cases (s == k)) [
  | inl p ↦ rw (← (text_beq_iff s k).0 p) h.0
  | inr q ↦ has-All P k l h.1 (ground arith)
]

-- Each text below all that follow it.
abbrev pub IsSorted : List Text → Type 0
IsSorted [] = Unit
IsSorted (s ∷ l) = All (λ t. text_lt s t ≡ true) l × IsSorted l

insert_string-IsSorted :
    (s : Text) (l : List Text) → All (λ t. s ≢ t) l → IsSorted l → IsSorted (insert_string s l)
unfolding insert_string
insert_string-IsSorted s [] new h = (tt, tt)
insert_string-IsSorted s (t ∷ l) new h = elim (Bool-cases (text_lt t s)) [
  | inl e ↦ rw e (
    All-has (λ u. text_lt t u ≡ true) (insert_string s l)
        (λ k there. elim (Bool-cases (s == k)) [
          | inl p ↦ rw (← (text_beq_iff s k).0 p) e
          | inr q ↦
              has-All (λ u. text_lt t u ≡ true) k l h.0 (ground (arith, has-insert_string k s l))
        ]),
    insert_string-IsSorted s l new.1 h.1,
  )
  | inr e ↦
      let less : text_lt s t ≡ true = elim (Bool-cases (text_lt s t)) [
        | inl p ↦ p
        | inr q ↦ absurd (new.0 (text_lt_total s t q e))
      ] in
      rw e (
        (
          less,
          All-mono (λ u. text_lt t u ≡ true) (λ u. text_lt s u ≡ true)
              (λ u. text_lt_trans s t u less) l h.0,
        ),
        h,
      )
]

pub sort_strings-IsSorted : (l : List Text) → Distinct l → IsSorted (sort_strings l)
unfolding sort_strings
sort_strings-IsSorted [] h = tt
sort_strings-IsSorted (s ∷ l) h =
    insert_string-IsSorted s (sort_strings l)
      (All-has (λ t. s ≢ t) (sort_strings l)
        (λ k e. has-All (λ t. s ≢ t) k l h.0 (sym (has-sort_strings k l) ∙ e)))
      (sort_strings-IsSorted l h.1)

not_below : (s : Text) (l : List Text) → All (λ t. text_lt s t ≡ true) l → has s l ≡ false
not_below s l h = elim (Bool-cases (has s l)) [
  | inr q ↦ q
  | inl p ↦ absurd (ground (arith, has-All (λ t. text_lt s t ≡ true) s l h p, text_lt_irrefl s))
]

heads_agree :
    (s t : Text) (l m : List Text)
    → All (λ u. text_lt s u ≡ true) l
    → All (λ u. text_lt t u ≡ true) m
    → (s == t || has s m) ≡ true
    → (s == t || has t l) ≡ true
    → s ≡ t
heads_agree s t l m p q h k = elim (Bool-cases (s == t)) [
  | inl e ↦ (text_beq_iff s t).0 e
  | inr e ↦
      let below = has-All (λ u. text_lt t u ≡ true) s m q (ground arith) in
      let above = has-All (λ u. text_lt s u ≡ true) t l p (ground arith) in
      absurd (ground (arith, text_lt_trans s t s above below, text_lt_irrefl s))
]

tails_agree :
    (k s : Text) (l m : List Text)
    → has s l ≡ false
    → has s m ≡ false
    → has k (s ∷ l) ≡ has k (s ∷ m)
    → has k l ≡ has k m
unfolding has
tails_agree k s l m p q h = elim (Bool-cases (s == k)) [
  | inl e ↦ rw (← (text_beq_iff s k).0 e) (p ∙ sym q)
  | inr e ↦ ground arith
]

-- Two sorted lists with the same elements are one list.
pub sorted_unique :
    (l m : List Text) → IsSorted l → IsSorted m → ((k : Text) → has k l ≡ has k m) → l ≡ m
unfolding has
sorted_unique [] [] p q h = refl
sorted_unique [] (t ∷ m) p q h = absurd (ground (arith, h t, text_beq_iff t t))
sorted_unique (s ∷ l) [] p q h = absurd (ground (arith, h s, text_beq_iff s s))
sorted_unique (s ∷ l) (t ∷ m) p q h =
    let e =
      heads_agree s t l m p.0 q.0
        (ground (arith, h s, text_beq_iff s s, text_beq_iff t s, text_beq_iff s t))
        (ground (arith, h t, text_beq_iff t t, text_beq_iff s t)) in
    cc (
      e,
      sorted_unique l m p.1 q.1 (λ k.
          tails_agree k s l m (not_below s l p.0) (rw e (not_below t m q.0))
            (h k ∙ ap (λ x. has k (x ∷ m)) (sym e))),
    )
