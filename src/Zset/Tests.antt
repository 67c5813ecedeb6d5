-- ===== src/Zset/Tests.antt =====
-- Runs of redis-2.6.12/src/t_zset.c with whole numbers for the scores.
use commit_redis.Prelude.{
  ℕ, zero, suc, ◌≤◌, ◌<◌, ◌≡◌, refl, Bool, true, false, Bool-cases, inl, inr, ◌⊎◌, Option, none,
  some, List, [], ◌∷◌, ltb, ◌==◌, if◌then◌else◌, ◌>>=◌, replicate, arith,
}
use commit_redis.Zset.Defs.{
  Ptr, ZLevel, ZSkipList, ZHeap, entry, comes_before, set_entry, set_backward, clear_levels, walk,
  search, span_up, link, add_levels, attach, zsl_create, zsl_insert,
}
use commit_redis.Zset.Texts.{holds}
use commit_redis.Objects.{StringObject, compared, equal_string_objects}
use commit_redis.Zset.Removal.{unlink, lower_level, matches, zsl_delete_node, zsl_delete}
use commit_redis.Zset.Lookup.{
  walk_rank, find_rank, zsl_get_element_by_rank, has_object, find_element, zsl_get_rank,
}
use commit_redis.Zset.Cells.{Cell, Row}
use commit_redis.Zset.Splice.{shape}
use commit_redis.Zset.Valid.{IsSkipList}
use commit_redis.Zset.Order.{ScoreLaws, Sorted, insert_cell}
use commit_redis.Zset.Ordered.{zsl_insert_lem}
use commit_redis.Zset.Element.{delete_cell}
use commit_redis.Zset.Deleted.{Deleted, zsl_delete_lem}
use commit_redis.Zset.Added.{get_elem?-replicate}
use commit_redis.Zset.Rank.{ranked}
use commit_redis.Zset.GetRank.{rank_of, one_score}
use commit_redis.Zset.RankOf.{zsl_get_rank_lem}
use commit_redis.Zset.Range.{
  ZRange, zsl_is_in_range, zsl_first_in_range, zsl_last_in_range, first_in, last_in,
}
use commit_redis.Zset.Ranged.{zsl_first_in_range_lem}
use commit_redis.Zset.LastRange.{zsl_last_in_range_lem}
use commit_redis.Zset.ByRank.{zsl_get_element_by_rank_lem}

abbrev word : ℕ → StringObject
word n = record { is_int = n == 9; text = n ∷ [] }

abbrev equal : ℕ → ℕ → Bool
equal a b = a == b

number_laws : ScoreLaws ltb equal
number_laws = record {
  below_trans = λ a b c h k. ground arith;
  same_below = λ a b c h k. ground arith;
  below_same = λ a b c h k. ground arith;
  same_trans = λ a b c h k. ground arith;
  same_sym = λ a b h. ground arith;
  below_apart = λ a b h. ground arith;
  below_asym = λ a b h. ground arith;
  total = λ a b. number_total a b;
}
  where
    number_total : (a b : ℕ) → (ltb a b ≡ true) ⊎ ((equal a b ≡ true) ⊎ (ltb b a ≡ true))
    number_total a b = elim (Bool-cases (ltb a b)) [
      | inl less ↦ inl less
      | inr other ↦ elim (Bool-cases (equal a b)) [
        | inl same ↦ inr (inl same)
        | inr apart ↦ inr (inr (ground arith))
      ]
    ]

abbrev no_level : ZLevel
no_level = record { forward = none; span = 0 }

abbrev number : ℕ → Bool
number s = false

-- A list of one node at address 1, with its header at 0.
abbrev one_heap : ZHeap ℕ
one_heap a =
    if a == 0
    then some (record {
      obj = none;
      score = 0;
      backward = none;
      level = record { forward = some 1; span = 1 } ∷ replicate 31 no_level;
    })
    else if a == 1
    then some (record { obj = some (word 7); score = 5; backward = none; level = no_level ∷ [] })
    else none

abbrev one_list : ZSkipList
one_list = record { header = 0; tail = some 1; length = 1; level = 1 }

abbrev one_cell : List (Cell ℕ)
one_cell = record { addr = 1; score = 5; obj = some (word 7); height = 1 } ∷ []

one_list-IsSkipList : IsSkipList one_heap one_list one_cell
unfolding shape entry
one_list-IsSkipList = record {
  head = record { addr = 0; score = 0; obj = none; height = 32 };
  at_head = refl;
  head_height = refl;
  head_shape = (none, refl);
  rows = first_row;
  unused = high_level;
  shapes = (refl, tt);
  heights = (omega arith, omega arith, tt);
  apart = (refl, (refl, tt));
  tail = refl;
  len = refl;
  level = (omega arith, omega arith);
}
  where
    first_row :
        (j : ℕ)
        → j < 1
        → Row one_heap j (record { addr = 0; score = 0; obj = none; height = 32 } ∷ one_cell)
    first_row zero less = ((λ high. refl), ((λ high. refl), tt))
    first_row (suc j) less = absurd (omega arith)

    high_level :
        (j : ℕ) → 1 ≤ j → j < 32 → (l : ZLevel) × (entry one_heap 0 j ≡ some l) × (l.forward ≡ none)
    high_level zero le less = absurd (omega arith)
    high_level (suc j) le less = (no_level, get_elem?-replicate 31 j no_level (omega arith), refl)

zsl_insert_example :
    (zl' : ZSkipList) × (h' : ZHeap ℕ) × (zsl_insert number
        (comes_before ltb equal)
        2
        no_level
        2
        one_heap
        one_list
        3
        (word 9)
      ≡ some (2, zl', h'))
    × IsSkipList h' zl' (
        insert_cell ltb equal
          (record { addr = 2; score = 3; obj = some (word 9); height = 2 })
          one_cell)
    × Sorted ltb equal (
        insert_cell ltb equal
          (record { addr = 2; score = 3; obj = some (word 9); height = 2 })
          one_cell)
zsl_insert_example =
    zsl_insert_lem ltb equal number_laws number 2 no_level one_heap one_list one_cell 3 (word 9) 2
      false one_list-IsSkipList (tt, tt) (omega arith) (refl, tt) refl (refl, tt) refl refl
      (omega arith) (omega arith)

zsl_delete_example :
    Deleted ltb equal 5 (word 7) one_heap one_list one_cell
    × Sorted ltb equal (delete_cell equal 5 (word 7) one_cell)
zsl_delete_example =
    zsl_delete_lem ltb equal 5 (word 7) number_laws false one_heap one_list one_cell
      one_list-IsSkipList (tt, tt) (omega arith) (refl, tt) refl

zsl_get_element_by_rank_example :
    zsl_get_element_by_rank one_heap one_list 1
    ≡ some (ranked (one_list-IsSkipList.head ∷ one_cell) 1)
zsl_get_element_by_rank_example =
    zsl_get_element_by_rank_lem one_heap one_list one_cell one_list-IsSkipList 1

-- Three elements, of which two have the same score, and one of them is taken out again.
abbrev three : Option (ZSkipList × ZHeap ℕ)
three = do
  a ← zsl_create 0 0 no_level (λ p. none)
  b ← zsl_insert number (comes_before ltb equal) 1 no_level 1 a.1 a.0 5 (word 7)
  c ← zsl_insert number (comes_before ltb equal) 2 no_level 3 b.2 b.1 5 (word 4)
  d ← zsl_insert number (comes_before ltb equal) 3 no_level 2 c.2 c.1 2 (word 9)
  some (d.1, d.2)

abbrev nth : Option (ZSkipList × ZHeap ℕ) → ℕ → Option Ptr
nth s rank = s >>= (λ l. zsl_get_element_by_rank l.1 l.0 rank)

abbrev without : Option (ZSkipList × ZHeap ℕ)
without = do l ← three; d ← zsl_delete ltb equal l.1 l.0 5 (word 4); some (d.1, d.2)

in_order : nth three 1 ≡ some (some 3)
unfolding compared equal_string_objects entry set_entry set_backward clear_levels zsl_create walk
    search span_up link add_levels attach zsl_insert walk_rank find_rank zsl_get_element_by_rank
in_order = refl

same_score : nth three 2 ≡ some (some 2)
unfolding compared equal_string_objects entry set_entry set_backward clear_levels zsl_create walk
    search span_up link add_levels attach zsl_insert walk_rank find_rank zsl_get_element_by_rank
same_score = refl

taken_out : nth without 2 ≡ some (some 1)
unfolding compared equal_string_objects entry set_entry set_backward clear_levels zsl_create walk
    search span_up link add_levels attach zsl_insert walk_rank find_rank zsl_get_element_by_rank
    unlink lower_level matches zsl_delete_node zsl_delete
taken_out = refl

one : one_score equal 5 (word 7) 5 (some (word 7)) ≡ true
unfolding holds
one = refl

zsl_get_rank_example :
    zsl_get_rank ltb equal one_heap one_list 5 (word 7) ≡ some (rank_of equal 5 (word 7) 1 one_cell)
zsl_get_rank_example =
    zsl_get_rank_lem ltb equal number_laws one_heap one_list one_cell 5 (word 7) false
      one_list-IsSkipList (tt, tt) (one, tt) (refl, tt) refl

abbrev from_2_to_5 : ZRange ℕ
from_2_to_5 = record { min = 2; max = 5; minex = true; maxex = false }

zsl_first_in_range_example :
    zsl_first_in_range ltb equal one_heap one_list from_2_to_5
    ≡ some (first_in ltb equal from_2_to_5 one_cell)
zsl_first_in_range_example =
    zsl_first_in_range_lem ltb equal number_laws from_2_to_5 one_heap one_list one_cell
      one_list-IsSkipList (tt, tt)

zsl_last_in_range_example :
    zsl_last_in_range ltb equal one_heap one_list from_2_to_5
    ≡ some (last_in ltb equal from_2_to_5 none one_cell)
zsl_last_in_range_example =
    zsl_last_in_range_lem ltb equal number_laws from_2_to_5 one_heap one_list one_cell
      one_list-IsSkipList (tt, tt)

last_of_three : (three >>= (λ l. zsl_last_in_range ltb equal l.1 l.0 from_2_to_5)) ≡ some (some 1)
unfolding compared equal_string_objects entry set_entry set_backward clear_levels zsl_create walk
    search span_up link add_levels attach zsl_insert zsl_is_in_range zsl_last_in_range
last_of_three = refl

rank_of_three : (three >>= (λ l. zsl_get_rank ltb equal l.1 l.0 5 (word 7))) ≡ some 3
unfolding compared equal_string_objects entry set_entry set_backward clear_levels zsl_create walk
    search span_up link add_levels attach zsl_insert has_object find_element zsl_get_rank
rank_of_three = refl
