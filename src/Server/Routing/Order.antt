-- ===== src/Server/Routing/Order.antt =====
-- The order in which the configuration lists the routes does not matter.
use mathlib.Core.List.{Mem, Perm, append_assoc, append-nil}
use mathlib.Core.List.Perm
use mathlib.Core.Option
use pg_tool_box.Common.{
  ◌≡◌, ◌⊎◌, true, inl, inr, refl, arith, sym, ap, ◌∙◌, List, [], ◌∷◌, ◌++◌, length, some, Text,
  codes, text_beq_iff, starts_with, starts_with_sound, ◌==◌, text_eq, Bool-cases, Option-cases,
}
use pg_tool_box.Server.Routing.{Route, path_matches_prefix, match_route, sort_routes}
use pg_tool_box.Server.Routing.Longest.{match_route_longest, match_route-eq-none_iff}

matches_cases :
    (path prefix : Text)
    → path_matches_prefix path prefix ≡ true
    → (prefix ≡ codes "/") ⊎ ((t : Text) × (path ≡ prefix ++ t))
unfolding path_matches_prefix
matches_cases path prefix h = elim (Bool-cases (prefix == codes "/")) [
  | inl e ↦ inl ((text_beq_iff prefix (codes "/")).0 e)
  | inr n ↦ elim (Bool-cases (path == prefix)) [
    | inl e ↦ inr ([], (text_beq_iff path prefix).0 e ∙ sym (append-nil prefix))
    | inr m ↦
        let (t, e) = starts_with_sound path (prefix ++ codes "/") (ground arith) in
        inr (codes "/" ++ t, e ∙ append_assoc prefix (codes "/") t)
  ]
]

same_length : (p q s t : Text) → p ++ s ≡ q ++ t → length p ≡ length q → p ≡ q
same_length [] [] s t e h = refl
same_length [] (c ∷ q) s t e h = absurd (omega arith)
same_length (c ∷ p) [] s t e h = absurd (omega arith)
same_length (c ∷ p) (d ∷ q) s t e h = cc (same_length p q s t (cc) (omega arith))

abbrev IsRooted : Text → Type 0
IsRooted p = starts_with p (codes "/") ≡ true

rooted_length_one : (p : Text) → IsRooted p → length p ≡ 1 → p ≡ codes "/"
unfolding starts_with
rooted_length_one [] h l = cc
rooted_length_one (c ∷ []) h l = ground arith
rooted_length_one (c ∷ d ∷ p) h l = absurd (omega arith)

-- Two matching prefixes of one length are the same.
matching_unique :
    (path p q : Text)
    → IsRooted p
    → IsRooted q
    → path_matches_prefix path p ≡ true
    → path_matches_prefix path q ≡ true
    → length p ≡ length q
    → p ≡ q
matching_unique path p q rp rq mp mq l = elim (matches_cases path p mp) [
  | inl e ↦ e ∙ sym (rooted_length_one q rq (sym l ∙ ap length e))
  | inr (s, e) ↦ elim (matches_cases path q mq) [
    | inl f ↦ rooted_length_one p rp (l ∙ ap length f) ∙ sym f
    | inr (t, f) ↦ same_length p q s t (sym e ∙ f) l
  ]
]

-- Two tables with the same routes, each with a prefix that begins with "/", answer every path with
-- the same prefix, or both with none.
pub match_route_order :
    (rs rs' : List Route) (path : Text)
    → Perm rs rs'
    → ((x : Route) → Mem x rs → starts_with x.prefix (codes "/") ≡ true)
    → Option.map (λ r. r.prefix) (match_route (sort_routes rs) path)
      ≡ Option.map (λ r. r.prefix) (match_route (sort_routes rs') path)
match_route_order rs rs' path same rooted =
    elim (Option-cases (match_route (sort_routes rs) path)) [
      | inl e ↦
          let none' =
            (match_route-eq-none_iff rs' path).1
              (λ x m. (match_route-eq-none_iff rs path).0 e x ((Perm.mem_iff same).1 m)) in
          rw (e, none')
      | inr (r, e) ↦ elim (Option-cases (match_route (sort_routes rs') path)) [
        | inl f ↦
            let none' =
              (match_route-eq-none_iff rs path).1
                (λ x m. (match_route-eq-none_iff rs' path).0 f x ((Perm.mem_iff same).0 m)) in
            rw (f, none')
        | inr (r', f) ↦
            let (m, k, l) = match_route_longest rs path r e in
            let (m', k', l') = match_route_longest rs' path r' f in
            let n' = (Perm.mem_iff same).1 m' in
            let le = l r' n' k' in
            let ge = l' r ((Perm.mem_iff same).0 m) k in
            rw (e, f)
              (ap some (
                matching_unique path r.prefix r'.prefix (rooted r m) (rooted r' n') k k'
                  (omega arith)))
      ]
    ]
