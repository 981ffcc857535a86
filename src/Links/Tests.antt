-- ===== src/Links/Tests.antt =====
-- Runs of src/list.c on the nodes 16 and 24 with the data 1 and 2, and on one more.
use sighttpd.Prelude.{ℕ, Option, none, some, List, [], ◌∷◌, ◌≡◌, refl, arith}
use sighttpd.Links.{Store, put}
use sighttpd.Links.Chain.{Entry, IsList}
use sighttpd.Links.Plain.{add_before, list_call, Represents}
use sighttpd.Links.Refine.{list_call_lem}

abbrev two_nodes : Store
two_nodes = put 16 (some (record { prev = none; next = some 24; datum = 1 })) (
    put 24 (some (record { prev = some 16; next = none; datum = 2 }))
      (put 40 (some (record { prev = none; next = none; datum = 3 })) (λ a. none)))

abbrev one_two : List Entry
one_two = (16, 1) ∷ (24, 2) ∷ []

one_two-IsList : IsList two_nodes (some 16) one_two
one_two-IsList = record {
  starts = refl;
  linked = (refl, (refl, tt));
  distinct = ((ground arith, tt), (tt, tt));
}

three-IsList : IsList two_nodes (some 40) ((40, 3) ∷ [])
three-IsList = record { starts = refl; linked = (refl, tt); distinct = (tt, tt) }

-- 9 in front of 2
list_call_lem_example :
    (list' : Option ℕ) × (s' : Store) × (list_call 2 32 (add_before 2 9) (some 16) two_nodes
      ≡ some (list', s'))
    × Represents s' list' (1 ∷ 9 ∷ 2 ∷ [])
list_call_lem_example =
    list_call_lem (add_before 2 9) two_nodes (some 16) (1 ∷ 2 ∷ []) 2 32 refl (omega arith)
      (one_two, one_two-IsList, refl)
