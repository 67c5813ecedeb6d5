-- ===== src/Zset/Ordered.antt =====
-- zslInsert of redis-2.6.12/src/t_zset.c on a list in order.
use commit_redis.Prelude.{
  Option, length, ◌^◌, ◌-◌, ◌++◌, ℕ, ◌≤◌, ◌<◌, ◌≡◌, Bool, true, false, none, some, List,
}
use commit_redis.Objects.{StringObject, suits}
use commit_redis.Zset.Defs.{ZLevel, ZSkipList, ZHeap, zskiplist_maxlevel, zsl_insert}
use commit_redis.Zset.Cells.{Cell}
use commit_redis.Zset.Valid.{IsSkipList, All}
use commit_redis.Zset.Inserted.{zsl_insert_at}
use commit_redis.Zset.Defs.{comes_before}
use commit_redis.Zset.All.{All-front, All-back}
use commit_redis.Zset.Texts.{comes_before-precedes, All-suits, precedes}
use commit_redis.Zset.Order.{
  ScoreLaws, differs, Sorted, insert_cell, position_of, insert_cell-Sorted,
}

-- On a valid skip list in order of fewer than 2 ^ 32 - 1 nodes, where all objects are raw, or no object
-- has a zero byte in it, the new one included; with a score that is a number, an element that is not in
-- the list, an address that is not in use and a level from 1 to 32: zslInsert runs without a fault, and
-- the result is a valid skip list in order, in which the new node stands at its place among the others,
-- with every pointer and span as the nodes behind it say.
pub zsl_insert_lem :
    {S : Type 0} (below same : S → S → Bool) (laws : ScoreLaws below same) (is_nan : S → Bool)
    (x : ℕ) (junk : ZLevel) (h : ZHeap S) (zl : ZSkipList) (cells : List (Cell S)) (score : S)
    (obj : StringObject) (level : ℕ) (raw : Bool)
    → IsSkipList h zl cells
    → Sorted below same cells
    → length cells < 2 ^ 32 - 1
    → All (λ s o. suits raw o) true cells
    → suits raw (some obj) ≡ true
    → All (differs below same score obj) true cells
    → h x ≡ none
    → is_nan score ≡ false
    → 0 < level
    → level ≤ zskiplist_maxlevel
    → (zl' : ZSkipList) × (h' : ZHeap S) × (zsl_insert is_nan
          (comes_before below same)
          x
          junk
          level
          h
          zl
          score
          obj
        ≡ some (x, zl', h'))
      × IsSkipList h' zl' (
          insert_cell below same
            (record { addr = x; score = score; obj = some obj; height = level })
            cells)
      × Sorted below same (
          insert_cell below same
            (record { addr = x; score = score; obj = some obj; height = level })
            cells)
zsl_insert_lem {S = S} below same laws is_nan x junk h zl cells score obj level raw v sorted few
      suit fits ds free num tall room =
    let p = position_of below same laws score obj cells sorted in
    let agree = λ (s : S) (o : Option StringObject) (ok : suits raw o ≡ true).
      comes_before-precedes below same raw s o score (some obj) ok fits in
    let suit' : All (λ s o. suits raw o) true (p.pre ++ p.suf) = rw p.parts at suit in
    let before =
      All-suits below same raw (λ s o. comes_before below same s o score (some obj))
        (λ s o. precedes below same s o score (some obj)) true p.pre agree
        (All-front (λ s o. suits raw o) true p.pre p.suf suit') p.before in
    let behind =
      All-suits below same raw (λ s o. comes_before below same s o score (some obj))
        (λ s o. precedes below same s o score (some obj)) false p.suf agree
        (All-back (λ s o. suits raw o) true p.pre p.suf suit') p.behind in
    let (zl', h', runs, v') =
      zsl_insert_at is_nan (comes_before below same) x junk h zl score obj level p.pre p.suf
        (rw p.parts at v) free num tall room before behind in
    (
      zl',
      h',
      runs,
      rw (p.result x level) v',
      insert_cell-Sorted below same laws x score obj level cells sorted ds,
    )
