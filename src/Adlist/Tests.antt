-- ===== src/Adlist/Tests.antt =====
-- A list of two nodes built by adlist.c, and its theorems there.
use commit_redis.Prelude.{ℕ, refl, true, none, some, [], ◌∷◌, ◌++◌}
use commit_redis.Adlist.Defs.{
  node, Heap, DList, Malloc, write, list_add_node_head, list_add_node_tail, list_del_node,
  list_insert_node,
}
use commit_redis.Adlist.Linked.{Cells, IsList}
use commit_redis.Adlist.Add.{Added, list_add_node_lem}
use commit_redis.Adlist.Insert.{list_insert_node_lem}
use commit_redis.Adlist.Delete.{Deleted, list_del_node_lem}

abbrev two : Heap ℕ
two = write (write (λ a. none) 1 (some (node none 10 (some 2)))) 2 (some (node (some 1) 20 none))

abbrev header : DList
header = record { head = some 1; tail = some 2; len = 2 }

abbrev cells : Cells ℕ
cells = (1, 10) ∷ (2, 20) ∷ []

header-IsList : IsList two header cells
header-IsList = record {
  head = refl;
  tail = refl;
  len = refl;
  links = (refl, (refl, tt));
  apart = (refl, (refl, tt));
}

abbrev third : Malloc ℕ
third h = some 3

list_add_node_example :
    Added two ((3, 30) ∷ cells) (list_add_node_head third two header 30)
    × Added two (cells ++ ((3, 30) ∷ [])) (list_add_node_tail third two header 30)
list_add_node_example = list_add_node_lem third two header cells 3 30 refl refl header-IsList

list_insert_node_example :
    Added two ((1, 10) ∷ (3, 30) ∷ (2, 20) ∷ []) (list_insert_node third two header 1 30 true)
list_insert_node_example =
    list_insert_node_lem third two header [] 1 10 ((2, 20) ∷ []) 3 30 true refl refl header-IsList

list_del_node_example : Deleted two [] 1 10 ((2, 20) ∷ []) (list_del_node two header 1)
list_del_node_example = list_del_node_lem two header [] 1 10 ((2, 20) ∷ []) header-IsList
