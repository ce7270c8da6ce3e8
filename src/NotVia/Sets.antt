-- ===== src/NotVia/Sets.antt =====
-- The set of failed links, and the order in which a rediscovery tries its contacts.
use kira_rust.Prelude.{
  ℕ, ◌≡◌, refl, sym, ap, ◌∙◌, true, ◌||◌, Option, some, List, [], ◌∷◌, ◌++◌, arith,
}
use mathlib.Core.List.{reverse, reverse-cons, reverse-reverse}
use kira_rust.Link.{Link}
use kira_rust.NotVia.{
  NotViaState, RediscoveryState, same_link, has_link, insert, insert_all, pop, get_via_contact_list,
  get_next_via_contact_id,
}

same_link-eq : (k l : Link) → same_link k l ≡ true → k ≡ l
same_link-eq k l h = ground arith

pub has_link-insert :
    (l : Link) (nvs : NotViaState) (set : List NotViaState)
    → has_link l (insert nvs set) ≡ (same_link nvs.link l || has_link l set)
unfolding insert
has_link-insert l nvs set = ground (arith, same_link-eq nvs.link l)

pub has_link-insert-all :
    (l : Link) (more set : List NotViaState)
    → has_link l (insert_all more set) ≡ (has_link l more || has_link l set)
unfolding insert_all
has_link-insert-all l [] set = refl
has_link-insert-all l (nvs ∷ more) set =
    ground (arith, has_link-insert-all l more (insert nvs set), has_link-insert l nvs set)

pop-snoc : (xs : List ℕ) (a : ℕ) → pop (xs ++ a ∷ []) ≡ (xs, some a)
unfolding pop
pop-snoc [] a = refl
pop-snoc (x ∷ []) a = refl
pop-snoc (x ∷ y ∷ xs) a = ground (arith, pop-snoc (y ∷ xs) a)

-- The contacts are tried in the order of the list: the next one is its head, and the rest is what
-- is left.
pub next_via_contact :
    (r : RediscoveryState) (a : ℕ) (ids : List ℕ)
    → get_via_contact_list r ≡ a ∷ ids
    → ((get_next_via_contact_id r).1 ≡ some a)
      × (get_via_contact_list (get_next_via_contact_id r).0 ≡ ids)
unfolding get_via_contact_list get_next_via_contact_id
next_via_contact r a ids e =
    let back : r.rev_via_contact_list ≡ reverse ids ++ a ∷ [] =
      sym (reverse-reverse r.rev_via_contact_list) ∙ ap reverse e ∙ reverse-cons a ids in
    let popped : pop r.rev_via_contact_list ≡ (reverse ids, some a) =
      rw back (pop-snoc (reverse ids) a) in
    (
      ap (λ (p : List ℕ × Option ℕ). p.1) popped,
      ap (λ (p : List ℕ × Option ℕ). reverse p.0) popped ∙ reverse-reverse ids,
    )
