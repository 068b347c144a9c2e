-- ===== src/Console/Users/Order.antt =====
-- The sort of a console's users: it keeps them all, and the bootstrap admin comes first.
use pg_tool_box.Common.{
  true, false, List, [], ◌∷◌, ◌≡◌, ◌≢◌, inl, inr, arith, Text, text_eq, text_beq_iff, bool_eq, All,
  Member, head, tail, Bool-cases,
}
use pg_tool_box.Console.Users.{ResolvedConsoleUser, precedes, insert_user, sort_users}

module _ {ℓ} (P : ResolvedConsoleUser → Type ℓ) (bootstrap : Text) where
  All-insert_user :
      (a : ResolvedConsoleUser) (l : List ResolvedConsoleUser)
      → P a
      → All P l
      → All P (insert_user bootstrap a l)
  unfolding insert_user
  All-insert_user a [] p h = (p, h)
  All-insert_user a (b ∷ l) p h = elim (Bool-cases (precedes bootstrap b a)) [
    | inl e ↦ rw e (h.0, All-insert_user a l p h.1)
    | inr e ↦ rw e (p, h)
  ]

  pub All-sort_users : (l : List ResolvedConsoleUser) → All P l → All P (sort_users bootstrap l)
  unfolding sort_users
  All-sort_users [] h = tt
  All-sort_users (a ∷ l) h = All-insert_user a (sort_users bootstrap l) h.0 (All-sort_users l h.1)

module _ (bootstrap : Text) where
  Member-insert_user_head :
      (a : ResolvedConsoleUser) (l : List ResolvedConsoleUser)
      → Member a (insert_user bootstrap a l)
  unfolding insert_user
  Member-insert_user_head a [] = head
  Member-insert_user_head a (b ∷ l) = elim (Bool-cases (precedes bootstrap b a)) [
    | inl e ↦ rw e (tail (Member-insert_user_head a l))
    | inr e ↦ rw e head
  ]

  Member-insert_user_tail :
      (a u : ResolvedConsoleUser) (l : List ResolvedConsoleUser)
      → Member u l
      → Member u (insert_user bootstrap a l)
  unfolding insert_user
  Member-insert_user_tail a u [] m = elim m [ ]
  Member-insert_user_tail a u (b ∷ l) head = elim (Bool-cases (precedes bootstrap b a)) [
    | inl e ↦ rw e head
    | inr e ↦ rw e (tail head)
  ]
  Member-insert_user_tail a u (b ∷ l) (tail m) = elim (Bool-cases (precedes bootstrap b a)) [
    | inl e ↦ rw e (tail (Member-insert_user_tail a u l m))
    | inr e ↦ rw e (tail (tail m))
  ]

  pub Member-sort_users :
      (u : ResolvedConsoleUser) (l : List ResolvedConsoleUser)
      → Member u l
      → Member u (sort_users bootstrap l)
  unfolding sort_users
  Member-sort_users u [] m = elim m [ ]
  Member-sort_users u (a ∷ l) head = Member-insert_user_head a (sort_users bootstrap l)
  Member-sort_users u (a ∷ l) (tail m) =
      Member-insert_user_tail a u (sort_users bootstrap l) (Member-sort_users u l m)

  -- Behind a user that is not the bootstrap admin, none is.
  abbrev pub IsLed : List ResolvedConsoleUser → Type 0
  IsLed [] = Unit
  IsLed (u ∷ l) = (u.user.name ≢ bootstrap → All (λ v. v.user.name ≢ bootstrap) l) × IsLed l

  precedes-bootstrap :
      (a b : ResolvedConsoleUser)
      → a.user.name ≢ bootstrap
      → precedes bootstrap a b ≡ true
      → b.user.name ≢ bootstrap
  unfolding precedes
  precedes-bootstrap a b n h e =
      ground (arith, text_beq_iff a.user.name bootstrap, text_beq_iff b.user.name bootstrap)

  precedes-other :
      (a b : ResolvedConsoleUser)
      → a.user.name ≢ bootstrap
      → precedes bootstrap b a ≡ false
      → b.user.name ≢ bootstrap
  unfolding precedes
  precedes-other a b n h e =
      ground (arith, text_beq_iff a.user.name bootstrap, text_beq_iff b.user.name bootstrap)

  insert_user-IsLed :
      (a : ResolvedConsoleUser) (l : List ResolvedConsoleUser)
      → IsLed l
      → IsLed (insert_user bootstrap a l)
  unfolding insert_user
  insert_user-IsLed a [] h = (λ _. tt, tt)
  insert_user-IsLed a (b ∷ l) h = elim (Bool-cases (precedes bootstrap b a)) [
    | inl e ↦ rw e (
      λ n.
          All-insert_user (λ v. v.user.name ≢ bootstrap) bootstrap a l (precedes-bootstrap b a n e)
            (h.0 n),
      insert_user-IsLed a l h.1,
    )
    | inr e ↦ rw e (λ n. let m = precedes-other a b n e in (m, h.0 m), h)
  ]

  pub sort_users-IsLed : (l : List ResolvedConsoleUser) → IsLed (sort_users bootstrap l)
  unfolding sort_users
  sort_users-IsLed [] = tt
  sort_users-IsLed (a ∷ l) = insert_user-IsLed a (sort_users bootstrap l) (sort_users-IsLed l)
