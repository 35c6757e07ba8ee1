-- ===== src/Simulation/Networks.antt =====
-- Who is next to whom in a simulation.
use earendil.Base.{
  ◌≡◌, refl, ap, ◌∙◌, Bool, true, false, ◌||◌, ◌&&◌, not, Option, none, some, List, [], ◌∷◌, arith,
  contains, set_insert, contains-set_insert, Map, get, insert, get-insert, text_eq, text_beq,
  text_beq_iff, Option-cases, Bool-cases, inl, inr,
}
use earendil.Crypto.{Bytes}
use earendil.Daemon.External.{or_else}
use earendil.Simulation.{or_default, add_link, add_links, get_adjacencies}

-- Whether a name stands in the list of links, and whether a link does.
abbrev pub mentioned : Bytes → List (Bytes × Bytes) → Bool
mentioned name [] = false
mentioned name ((n1, n2) ∷ links) = (text_beq n1 name || text_beq n2 name) || mentioned name links

abbrev pub linked : Bytes → Bytes → List (Bytes × Bytes) → Bool
linked a b [] = false
linked a b ((n1, n2) ∷ links) = (text_beq n1 a && text_beq n2 b) || linked a b links

abbrev pub is_key : Option (List Bytes) → Bool
is_key none = false
is_key (some names) = true

abbrev pub neighbors : Bytes → Map Bytes (List Bytes) → List Bytes
neighbors name map = or_else [] (get name map)

is_key-or_default :
    (n name : Bytes) (map : Map Bytes (List Bytes))
    → is_key (get name (or_default n map)) ≡ (text_beq n name || is_key (get name map))
unfolding or_default
is_key-or_default n name map = elim (Option-cases (get n map)) [
  | inl e ↦ rw (or_default, e) (ground (arith, e, get-insert n name [] map))
  | inr (names, e) ↦ rw (or_default, e) (ground (arith, e, text_beq_iff n name))
]

neighbors-or_default :
    (n name : Bytes) (map : Map Bytes (List Bytes))
    → neighbors name (or_default n map) ≡ neighbors name map
unfolding or_default
neighbors-or_default n name map = elim (Option-cases (get n map)) [
  | inl e ↦ rw (or_default, e) (ground (arith, e, get-insert n name [] map, text_beq_iff n name))
  | inr (names, e) ↦ rw (or_default, e) refl
]

add_link-is_key :
    (n1 n2 name : Bytes) (map : Map Bytes (List Bytes))
    → is_key (get name (add_link n1 n2 map))
      ≡ ((text_beq n1 name || text_beq n2 name) || is_key (get name map))
unfolding add_link
add_link-is_key n1 n2 name map =
    let names = set_insert n2 (or_else [] (get n1 map)) in
    ground (arith, is_key-or_default n2 name (insert n1 names map), get-insert n1 name names map)

add_link-neighbors :
    (n1 n2 a b : Bytes) (map : Map Bytes (List Bytes))
    → contains b (neighbors a (add_link n1 n2 map))
      ≡ ((text_beq n1 a && text_beq n2 b) || contains b (neighbors a map))
unfolding add_link
add_link-neighbors n1 n2 a b map =
    let names = set_insert n2 (or_else [] (get n1 map)) in
    rw (neighbors-or_default n2 a (insert n1 names map)) (elim (Bool-cases (text_beq n1 a)) [
      | inl e ↦
          let same : or_else [] (get n1 map) ≡ neighbors a map =
            ap (λ n. or_else [] (get n map)) ((text_beq_iff n1 a).0 e) in
          rw (get-insert n1 a names map) (
            rw e (
              contains-set_insert b n2 (or_else [] (get n1 map))
              ∙ ap (λ l. text_beq n2 b || contains b l) same))
      | inr e ↦ rw (get-insert n1 a names map) (rw e refl)
    ])

add_links_lem :
    (links : List (Bytes × Bytes)) (map : Map Bytes (List Bytes)) (a b : Bytes)
    → (is_key (get a (add_links links map)) ≡ (mentioned a links || is_key (get a map)))
      × (contains b (neighbors a (add_links links map))
          ≡ (linked a b links || contains b (neighbors a map)))
unfolding add_links
add_links_lem [] map a b = (refl, refl)
add_links_lem ((n1, n2) ∷ links) map a b =
    let rest = add_links_lem links (add_link n1 n2 map) a b in
    (
      ground (arith, rest.0, add_link-is_key n1 n2 a map),
      ground (arith, rest.1, add_link-neighbors n1 n2 a b map),
    )

linked-mentioned :
    (a b : Bytes) (links : List (Bytes × Bytes))
    → (linked a b links && not (mentioned b links)) ≡ false
linked-mentioned a b [] = refl
linked-mentioned a b ((n1, n2) ∷ links) = ground (arith, linked-mentioned a b links)

-- Each name that the links mention is a node, and nothing else is; its neighbours are the names that stand on the
-- right of a link from it; and no neighbour lacks an entry of its own.
pub get_adjacencies_lem :
    (links : List (Bytes × Bytes)) (a b : Bytes)
    → let map = get_adjacencies links in
      (is_key (get a map) ≡ mentioned a links)
      × (contains b (neighbors a map) ≡ linked a b links)
      × ((contains b (neighbors a map) && not (is_key (get b map))) ≡ false)
unfolding get_adjacencies get contains
get_adjacencies_lem links a b =
    let of_a = add_links_lem links [] a b in
    let of_b = add_links_lem links [] b b in
    (
      ground (arith, of_a.0),
      ground (arith, of_a.1),
      ground (arith, of_a.1, of_b.0, linked-mentioned a b links),
    )
