-- ===== src/CycleRemover/Correct.antt =====
-- The cycle removal on paths.
use kira_rust.Prelude.{
  ℕ, ◌+◌, ◌≡◌, refl, ap, ◌∙◌, ◌≢◌, ◌⊎◌, inl, inr, true, false, ◌&&◌, not, List, [], ◌∷◌, arith,
  Bool-cases, length, get_elem?, returns,
}
use kira_rust.Link.{Link}
use kira_rust.Path.{NodePath, first, last, contains_link, joins, undefined}
use kira_rust.Path.Links.{some_hop_sound, some_hop_complete}
use kira_rust.CycleRemover.{remove_cycles_in_place}
use kira_rust.CycleRemover.Shortcut.{
  shortcut, IsSimple, shortcut-IsSimple, last?-shortcut, Hop-shortcut, shortcut-of_simple,
}
use kira_rust.CycleRemover.Loop.{simplified, remove_cycles_in_place_lem}

first-simplified : (ids : List ℕ) → get_elem? (simplified ids) 0 ≡ get_elem? ids 0
unfolding shortcut
first-simplified [] = refl
first-simplified (x ∷ ids) = ground arith

contains_link-simplified :
    (p : NodePath) (l : Link)
    → contains_link (record p { ids = simplified p.ids }) l ≡ true
    → contains_link p l ≡ true
unfolding contains_link
contains_link-simplified p l h =
    let (a, b, q, k) = some_hop_sound (joins l) (simplified p.ids) h in
    some_hop_complete (joins l) p.ids (Hop-shortcut (length p.ids + 1) p.ids q) k

-- The removal of cycles returns a path that visits no node twice, has the same source and
-- destination and only links of the given path. It panics on no path but an undefined one without
-- nodes.
pub remove_cycles_correct :
    (p : NodePath)
    → (p.path_state ≢ undefined) ⊎ (p.ids ≢ [])
    → (p' : NodePath) × (remove_cycles_in_place p ≡ returns p')
      × IsSimple p'.ids
      × (first p' ≡ first p)
      × (last p' ≡ last p)
      × ((l : Link) → (contains_link p' l && not (contains_link p l)) ≡ false)
unfolding first last
remove_cycles_correct p h = (
  record p { ids = simplified p.ids },
  remove_cycles_in_place_lem p h,
  shortcut-IsSimple (length p.ids + 1) p.ids,
  rw (first-simplified p.ids),
  rw (last?-shortcut (length p.ids + 1) p.ids (omega arith)),
  λ l. elim (Bool-cases (contains_link (record p { ids = simplified p.ids }) l)) [
    | inl e ↦ rw (e, contains_link-simplified p l e)
    | inr e ↦ rw e
  ],
)

-- A path without cycles stays as it is.
pub remove_cycles_in_place_simple :
    (p : NodePath)
    → (p.path_state ≢ undefined) ⊎ (p.ids ≢ [])
    → IsSimple p.ids
    → remove_cycles_in_place p ≡ returns p
remove_cycles_in_place_simple p h s =
    remove_cycles_in_place_lem p h
    ∙ ap (λ ids. returns (record p { ids = ids }))
        (shortcut-of_simple (length p.ids + 1) p.ids (omega arith) s)
