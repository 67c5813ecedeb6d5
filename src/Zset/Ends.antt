-- ===== src/Zset/Ends.antt =====
-- The last node of a skip list of redis-2.6.12/src/t_zset.c.
use commit_redis.Prelude.{◌≡◌, refl, ap, Bool, true, Option, none, some, List, [], ◌∷◌, ◌++◌}
use commit_redis.Objects.{StringObject}
use commit_redis.Zset.Defs.{Ptr, ZHeap}
use commit_redis.Zset.Cells.{Cell}
use commit_redis.Zset.Splice.{shape}
use commit_redis.Zset.Valid.{All, Shapes, Shapes-append, last_ptr}
use commit_redis.Zset.Order.{Sorted}
use commit_redis.Zset.Cut.{before_cell}
use commit_redis.Zset.Texts.{precedes}
use commit_redis.Zset.Element.{All-append}

module _ {S : Type 0} where
  -- The last of some cells.
  pub record Ends (cells : List (Cell S)) : Type 0 where
    pub front : List (Cell S)
    pub last : Cell S
    pub parts : cells ≡ front ++ (last ∷ [])
    pub is_last : last_ptr none cells ≡ some last.addr

  pub ends : (q : Ptr) (c : Cell S) (r : List (Cell S)) → Ends (c ∷ r)
  ends q c [] = record { front = []; last = c; parts = refl; is_last = refl }
  ends q c (d ∷ r) =
      let e = ends (some c.addr) d r in
      record {
        front = c ∷ e.front;
        last = e.last;
        parts = ap (λ l. c ∷ l) e.parts;
        is_last = e.is_last;
      }

  pub shape_last :
      (h : ZHeap S) (cells : List (Cell S)) (e : Ends cells)
      → Shapes h none cells
      → shape h e.last.addr ≡ some (e.last.score, e.last.obj, last_ptr none e.front, e.last.height)
  shape_last h cells e s = (Shapes-append h none e.front (e.last ∷ []) (rw e.parts at s)).1.0

  pub before_last :
      (below same : S → S → Bool) (cells : List (Cell S)) (e : Ends cells)
      → Sorted below same cells
      → All (λ s o. precedes below same s o e.last.score e.last.obj) true e.front
  before_last below same cells e sorted =
      before_cell below same e.front e.last [] (rw e.parts at sorted)

  pub All-Ends :
      (go : S → Option StringObject → Bool) (b : Bool) (cells : List (Cell S)) (e : Ends cells)
      → All go b e.front
      → go e.last.score e.last.obj ≡ b
      → All go b cells
  All-Ends go b cells e a last =
      rw e.parts (All-append (λ s s'. true) go b e.front (e.last ∷ []) a (last, tt))
