-- ===== src/Adlist/Defs.antt =====
-- The structures and the functions of redis-2.6.12/src/adlist.c. `none` is a fault, such as a read
-- through a pointer that no node is at, or a loop that goes on; NULL is `none` in a pointer.
use commit_redis.Prelude.{
  ℕ, zero, suc, ◌+◌, ◌-◌, ◌≡◌, Bool, true, false, Option, none, some, leb, ◌==◌, if◌then◌else◌,
  ◌>>=◌,
}
use commit_redis.Prelude.Int.{ℤ, pos, negsuc}

abbrev pub Ptr : Type 0
Ptr = Option ℕ

pub record Node (V : Type 0) : Type 0 where
  pub prev : Ptr
  pub next : Ptr
  pub value : V

abbrev pub Heap : Type 0 → Type 0
Heap V = ℕ → Option (Node V)

-- The header `list`; its callbacks are arguments of the functions that call them.
pub record DList : Type 0 where
  pub head : Ptr
  pub tail : Ptr
  pub len : ℕ

pub record ListIter : Type 0 where
  pub next : Ptr
  pub from_head : Bool

-- What zmalloc answers for a node, and that it is no address in use.
abbrev pub Malloc : Type 0 → Type 0
Malloc V = Heap V → Ptr

abbrev pub IsFresh : {V : Type 0} → Malloc V → Type 0
IsFresh {V} malloc = (h : Heap V) (p : ℕ) → malloc h ≡ some p → h p ≡ none

abbrev pub list_create : DList
list_create = record { head = none; tail = none; len = 0 }

-- A pointer that is read without a test.
abbrev pub deref : Ptr → Option ℕ
deref p = p

-- listRewind and listRewindTail; listGetIterator allocates the same.
abbrev pub list_get_iterator : DList → Bool → ListIter
list_get_iterator l from_head = record {
  next = if from_head then l.head else l.tail;
  from_head = from_head;
}

-- `list->tail == old_node`
abbrev pub is_node : Ptr → ℕ → Bool
is_node none a = false
is_node (some b) a = b == a

module _ {V : Type 0} where
  abbrev pub write : Heap V → ℕ → Option (Node V) → Heap V
  write h p c a = if a == p then c else h a

  -- `p->next = q` and `p->prev = q`
  unfoldable pub set_next : Heap V → ℕ → Ptr → Option (Heap V)
  set_next h p q = do n ← h p; some (write h p (some (record n { next = q })))

  unfoldable pub set_prev : Heap V → ℕ → Ptr → Option (Heap V)
  set_prev h p q = do n ← h p; some (write h p (some (record n { prev = q })))

  -- The same through a pointer that is tested for NULL first.
  unfoldable pub relink_next : Heap V → Ptr → Ptr → Option (Heap V)
  relink_next h p q = elim p [ none ↦ some h | some a ↦ set_next h a q ]

  unfoldable pub relink_prev : Heap V → Ptr → Ptr → Option (Heap V)
  relink_prev h p q = elim p [ none ↦ some h | some a ↦ set_prev h a q ]

  -- A node with its fields set.
  abbrev pub node : Ptr → V → Ptr → Node V
  node p v n = record { prev = p; next = n; value = v }

  module _ (malloc : Malloc V) where
    -- The result NULL is `none` in the first component.
    unfoldable pub list_add_node_head : Heap V → DList → V → Option (Option DList × Heap V)
    list_add_node_head h l v = elim (malloc h) [
      | none ↦ some (none, h)
      | some p ↦
          if l.len == 0
          then some (
            some (record l { head = some p; tail = some p; len = l.len + 1 }),
            write h p (some (node none v none)),
          )
          else (do
            old ← deref l.head
            h' ← set_prev (write h p (some (node none v l.head))) old (some p)
            some (some (record l { head = some p; len = l.len + 1 }), h'))
    ]

    unfoldable pub list_add_node_tail : Heap V → DList → V → Option (Option DList × Heap V)
    list_add_node_tail h l v = elim (malloc h) [
      | none ↦ some (none, h)
      | some p ↦
          if l.len == 0
          then some (
            some (record l { head = some p; tail = some p; len = l.len + 1 }),
            write h p (some (node none v none)),
          )
          else (do
            old ← deref l.tail
            h' ← set_next (write h p (some (node l.tail v none))) old (some p)
            some (some (record l { tail = some p; len = l.len + 1 }), h'))
    ]

    unfoldable pub list_insert_node : Heap V → DList → ℕ → V → Bool → Option (Option DList × Heap V)
    list_insert_node h l old v after = elim (malloc h) [
      | none ↦ some (none, h)
      | some p ↦ (do
        o ← h old
        let before : Ptr = if after then some old else o.prev
        let behind : Ptr = if after then o.next else some old
        let tail = if after then (if is_node l.tail old then some p else l.tail) else l.tail
        let head = if after then l.head else (if is_node l.head old then some p else l.head)
        h₁ ← relink_next (write h p (some (node before v behind))) before (some p)
        h₂ ← relink_prev h₁ behind (some p)
        some (some (record { head = head; tail = tail; len = l.len + 1 }), h₂))
    ]

  -- The count of a list with a node is not zero, so `len--` does not wrap there.
  unfoldable pub list_del_node : Heap V → DList → ℕ → Option (DList × Heap V)
  list_del_node h l p = do
    n ← h p
    h₁ ← relink_next h n.prev n.next
    n₁ ← h₁ p
    h₂ ← relink_prev h₁ n₁.next n₁.prev
    some (
      record {
        head = elim n.prev [ none ↦ n.next | some _ ↦ l.head ];
        tail = elim n₁.next [ none ↦ n₁.prev | some _ ↦ l.tail ];
        len = l.len - 1;
      },
      write h₂ p none,
    )

  unfoldable pub list_next : Heap V → ListIter → Option (Ptr × ListIter)
  list_next h it = elim it.next [
    | none ↦ some (none, it)
    | some a ↦ (do
      n ← h a
      some (some a, record it { next = if it.from_head then n.next else n.prev }))
  ]

  -- The loop of listSearchKey; `test` is `match(value, key)`, or the equality of the pointers.
  unfoldable pub search_loop : ℕ → Heap V → (V → Bool) → ListIter → Option Ptr
  search_loop zero h test it = none
  search_loop (suc fuel) h test it = do
    (p, it') ← list_next h it
    elim p [
      | none ↦ some none
      | some a ↦ (do
        n ← h a
        let rest = search_loop fuel h test it'
        if test n.value then some (some a) else rest)
    ]

  unfoldable pub list_search_key : Heap V → DList → (V → Bool) → Option Ptr
  list_search_key h l test = search_loop (l.len + 1) h test (list_get_iterator l true)

  -- `while(index-- && n) n = n->next`, or `n->prev`.
  unfoldable pub index_loop : Heap V → Bool → ℕ → Ptr → Option Ptr
  index_loop h forward zero p = some p
  index_loop h forward (suc i) none = some none
  index_loop h forward (suc i) (some a) = do
    n ← h a
    index_loop h forward i (if forward then n.next else n.prev)

  unfoldable pub list_index : Heap V → DList → ℤ → Option Ptr
  list_index h l (pos i) = index_loop h true i l.head
  list_index h l (negsuc i) = index_loop h false i l.tail

  unfoldable pub list_rotate : Heap V → DList → Option (DList × Heap V)
  list_rotate h l = if leb l.len 1 then some (l, h) else (do
    t ← deref l.tail
    n ← h t
    new_tail ← deref n.prev
    h₁ ← set_next h new_tail none
    old ← deref l.head
    h₂ ← set_prev h₁ old (some t)
    h₃ ← set_prev h₂ t none
    h₄ ← set_next h₃ t l.head
    some (record l { tail = some new_tail; head = some t }, h₄))

  -- The loop of listRelease, over `len` nodes.
  unfoldable pub release_loop : ℕ → Heap V → Ptr → Option (Heap V)
  release_loop zero h p = some h
  release_loop (suc n) h p = do a ← deref p; c ← h a; release_loop n (write h a none) c.next

  unfoldable pub list_release : Heap V → DList → Option (Heap V)
  list_release h l = release_loop l.len h l.head

  abbrev pub dup_value : Option (V → Option V) → V → Option V
  dup_value none v = some v
  dup_value (some dup) v = dup v

  -- The loop of listDup; `dup` answers NULL as `none`. The second component is the copy, NULL once
  -- it was released.
  unfoldable pub dup_loop :
      Malloc V
      → Option (V → Option V)
      → ℕ
      → Heap V
      → ListIter
      → DList
      → Option (Option DList × Heap V)
  dup_loop malloc dup zero h it copy = none
  dup_loop malloc dup (suc fuel) h it copy = do
    (p, it') ← list_next h it
    elim p [
      | none ↦ some (some copy, h)
      | some a ↦ (do
        n ← h a
        elim (dup_value dup n.value) [
          | none ↦ (do h' ← list_release h copy; some (none, h'))
          | some v ↦ (do
            (added, h₁) ← list_add_node_tail malloc h copy v
            elim added [
              | none ↦ (do h' ← list_release h₁ copy; some (none, h'))
              | some copy' ↦ dup_loop malloc dup fuel h₁ it' copy'
            ])
        ])
    ]

  -- listDup, where the header of the copy could be allocated.
  unfoldable pub list_dup :
      Malloc V → Option (V → Option V) → Heap V → DList → Option (Option DList × Heap V)
  list_dup malloc dup h l = dup_loop malloc dup (l.len + 1) h (list_get_iterator l true) list_create
