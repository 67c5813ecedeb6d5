-- ===== src/Zset/Inserted.antt =====
-- The theorem on zslInsert of redis-2.6.12/src/t_zset.c.
use commit_redis.Prelude.{
  ℕ, suc, ◌+◌, ◌-◌, ◌≤◌, ◌<◌, ◌≡◌, refl, ◌∙◌, Bool, true, false, ◌&&◌, Option, none, some, List, [],
  ◌∷◌, ◌++◌, ltb, leb, if◌then◌else◌, length, length-append, length-replicate, replicate, arith,
}
use commit_redis.Objects.{StringObject}
use commit_redis.Zset.Defs.{
  ZLevel, ZSkipList, ZHeap, zskiplist_maxlevel, entry, write, zsl_create_node, search, link,
  add_levels, attach, first_of, zsl_insert,
}
use commit_redis.Zset.Cells.{Cell, next_at, NoDup, Row-at}
use commit_redis.Zset.Search.{FoundFrom}
use commit_redis.Zset.Link.{Relinked, link_lem}
use commit_redis.Zset.Valid.{
  IsSkipList, Shapes, Heights, All, Shapes-same, Heights-append, Heights-more, Heights-Low,
}
use commit_redis.Zset.Grow.{Grown, add_levels_lem, FoundFrom-append, FoundFrom-header}
use commit_redis.Zset.Attach.{attach_lem, NoDup-cross}
use commit_redis.Zset.Insert.{place_found, LastBefore, last_before, apart_from}
use commit_redis.Zset.Added.{Ready, ready_lem, inserted, NoDup-front, all_fresh, rest_apart}

-- The first of the results, where there is one.
module _ {S : Type 0} where
  pub first_found :
      (head : Cell S) (pre : List (Cell S)) (n : ℕ) (us : List (ℕ × ℕ))
      → FoundFrom 0 (head ∷ pre) us
      → 0 < length us
      → Heights n pre
      → NoDup (head ∷ pre)
      → LastBefore head pre (first_of us).0 (first_of us).1
  first_found head pre n [] found some_level heights apart = absurd (omega arith)
  first_found head pre n ((u, r) ∷ us) (f, fs) some_level heights apart =
      last_before head pre n u r f heights apart

  Relinked-length :
      (h g : ZHeap S) (i k k' : ℕ) (cells : List (Cell S))
      → k ≡ k'
      → Relinked h g i k cells
      → Relinked h g i k' cells
  Relinked-length h g i k k' cells e r = rw e at r

  module _ (is_nan : S → Bool) (precedes : S → Option StringObject → S → Option StringObject → Bool)
      (x : ℕ) (junk : ZLevel) where
    insert_runs :
        (h h₁ h₂ h₃ : ZHeap S) (zl zl' : ZSkipList) (score : S) (obj : StringObject) (level lev : ℕ)
        (us : List (ℕ × ℕ)) (u : ℕ × ℕ)
        → is_nan score ≡ false
        → lev ≡ (if ltb zl.level level then level else zl.level)
        → search (λ s o. precedes s o score (some obj)) (suc zl.length) h zl.level zl.header 0 []
          ≡ some us
        → add_levels h zl zl.level (level - zl.level) ≡ some h₁
        → first_of (us ++ replicate (level - zl.level) (zl.header, 0)) ≡ u
        → link
            (write h₁ x (zsl_create_node junk level score (some obj)))
            x
            u.1
            0
            level
            (us ++ replicate (level - zl.level) (zl.header, 0))
          ≡ some h₂
        → attach h₂ zl x u.0 lev ≡ some (zl', h₃)
        → zsl_insert is_nan precedes x junk level h zl score obj ≡ some (x, zl', h₃)
    unfolding zsl_insert
    insert_runs h h₁ h₂ h₃ zl zl' score obj level lev us u num lev_is e₁ e₂ e₃ e₄ e₅ =
        rw (num, e₁, e₂) (rw e₃ (rw (e₄, ← lev_is, e₅) refl))

    -- The search stops at the first node that does not come before the new one.
    abbrev pub comes_before : S → StringObject → S → Option StringObject → Bool
    comes_before score obj s o = precedes s o score (some obj)

    abbrev pub Inserted :
        ZHeap S → ZSkipList → S → StringObject → ℕ → List (Cell S) → List (Cell S) → Type 0
    Inserted h zl score obj level pre suf =
        (zl' : ZSkipList) × (h' : ZHeap S) × (zsl_insert is_nan precedes x junk level h zl score obj
          ≡ some (x, zl', h'))
        × IsSkipList h' zl'
            (pre ++ (record { addr = x; score = score; obj = some obj; height = level } ∷ suf))

    linked_rest :
        (h h₁ h₂ : ZHeap S) (zl : ZSkipList) (score : S) (obj : StringObject) (level : ℕ)
        (pre suf : List (Cell S)) (v : IsSkipList h zl (pre ++ suf)) (us : List (ℕ × ℕ))
        (u r lev : ℕ)
        → is_nan score ≡ false
        → 0 < level
        → level ≤ lev
        → zl.level ≤ lev
        → lev ≤ zskiplist_maxlevel
        → lev ≡ (if ltb zl.level level then level else zl.level)
        → search (comes_before score obj) (suc zl.length) h zl.level zl.header 0 [] ≡ some us
        → add_levels h zl zl.level (level - zl.level) ≡ some h₁
        → first_of (us ++ replicate (level - zl.level) (zl.header, 0)) ≡ (u, r)
        → LastBefore v.head pre u r
        → Ready h
            (write h₁ x (zsl_create_node junk level score (some obj)))
            zl
            v.head
            (pre ++ suf)
            (record { addr = x; score = score; obj = some obj; height = level })
            lev
        → link
            (write h₁ x (zsl_create_node junk level score (some obj)))
            x
            r
            0
            level
            (us ++ replicate (level - zl.level) (zl.header, 0))
          ≡ some h₂
        → Relinked (write h₁ x (zsl_create_node junk level score (some obj))) h₂ 0 lev (
            (v.head ∷ pre)
            ++ (record { addr = x; score = score; obj = some obj; height = level } ∷ suf))
        → Inserted h zl score obj level pre suf
    linked_rest h h₁ h₂ zl score obj level pre suf v us u r lev num tall fits grows room lev_is
          runs₁ runs₂ first last ready runs₃ linked =
        let z : Cell S = record { addr = x; score = score; obj = some obj; height = level } in
        let g₁ = write h₁ x (zsl_create_node junk level score (some obj)) in
        let heights = Heights-append zl.level pre suf v.heights in
        let fresh = rest_apart v.head (pre ++ suf) z.addr ready.fresh in
        let shapes₂ : Shapes h₂ none (pre ++ suf) =
          Shapes-same h h₂ none (pre ++ suf) v.shapes (λ p there.
            linked.shapes p ∙ ready.shapes p (apart_from p z.addr (pre ++ suf) fresh there)) in
        let at_z : entry h₂ z.addr 0 ≡ some (next_at 0 suf) =
          Row-at h₂ 0 (v.head ∷ pre) z suf (linked.rows 0 (lowest_row lev (omega arith)))
            (lowest level tall) in
        let (zl', h₃, runs₄, e₁, e₂, e₃, e₄, attached) =
          attach_lem pre z zl u lev (rw v.at_head at last.back) h₂ suf none at_z shapes₂
            (linked.shapes z.addr ∙ ready.self) fresh v.apart.1
            (Heights-more zl.level lev suf grows heights.1) v.tail in
        (
          zl',
          h₃,
          insert_runs h h₁ h₂ h₃ zl zl' score obj level lev us (u, r) num lev_is runs₁ runs₂ first
              runs₃ runs₄,
          inserted h g₁ h₂ h₃ zl zl' pre suf z lev v ready tall fits grows room linked e₁ e₂ e₃ e₄
              attached,
        )
      where
        lowest : (n : ℕ) → 0 < n → ltb 0 n ≡ true
        lowest n h = ground arith

        lowest_row : (n : ℕ) → 0 < n → (leb 0 0 && ltb 0 (0 + n)) ≡ true
        lowest_row n h = ground arith

    rest_of_insert :
        (h h₁ : ZHeap S) (zl : ZSkipList) (score : S) (obj : StringObject) (level : ℕ)
        (pre suf : List (Cell S)) (v : IsSkipList h zl (pre ++ suf)) (us : List (ℕ × ℕ))
        → is_nan score ≡ false
        → 0 < level
        → level ≤ zskiplist_maxlevel
        → search (comes_before score obj) (suc zl.length) h zl.level zl.header 0 [] ≡ some us
        → FoundFrom 0 (v.head ∷ pre) us
        → length us ≡ zl.level
        → add_levels h zl zl.level (level - zl.level) ≡ some h₁
        → Grown h h₁ zl zl.level (level - zl.level)
        → h x ≡ none
        → Inserted h zl score obj level pre suf
    rest_of_insert h h₁ zl score obj level pre suf v us num tall room runs₁ found len runs₂ grown
          free =
        let n = level - zl.level in
        let lev = zl.level + n in
        let z : Cell S = record { addr = x; score = score; obj = some obj; height = level } in
        let heights = Heights-append zl.level pre suf v.heights in
        let us₁ = us ++ replicate n (zl.header, 0) in
        let found₁ : FoundFrom 0 (v.head ∷ pre) us₁ =
          FoundFrom-append 0 (v.head ∷ pre) us (replicate n (zl.header, 0)) found (
            with_header v.head v.at_head (0 + length us) n (
              FoundFrom-header v.head pre (0 + length us) n
                (omega (arith, v.head_height, len, v.level))
                (λ j le. Heights-Low zl.level j pre (omega (arith, len)) heights.0))) in
        let len₁ : length us₁ ≡ lev = omega (
          arith,
          len,
          length-append us (replicate n (zl.header, 0)),
          length-replicate {A = ℕ × ℕ} n (zl.header, 0),
        ) in
        let apart : NoDup (v.head ∷ pre) = NoDup-front (v.head ∷ pre) suf v.apart in
        let last =
          first_found v.head pre zl.level us₁ found₁ (omega (arith, len₁, v.level)) heights.0
            apart in
        let ready =
          ready_lem h h₁ zl (pre ++ suf) n x level score obj junk v (omega (arith, v.level)) grown
            free in
        let apart_z = all_fresh (v.head ∷ pre) suf z.addr ready.fresh in
        let (h₂, runs₃, linked) =
          link_lem (v.head ∷ pre) suf z apart apart_z.0 apart_z.1
            (λ p there. NoDup-cross (v.head ∷ pre) suf p v.apart there)
            (write h₁ x (zsl_create_node junk level score (some obj))) (first_of us₁).1 0 level us₁
            found₁ (omega arith) (omega (arith, len₁)) last.rank
            (λ j inside. ready.levels j (below j level inside))
            (λ j inside. ready.rows j (omega (arith, below_length j (length us₁) inside, len₁))) in
        linked_rest h h₁ h₂ zl score obj level pre suf v us (first_of us₁).0 (first_of us₁).1 lev
          num tall (omega arith) (omega arith) (omega (arith, v.level)) (level_max zl.level level)
          runs₁ runs₂ refl last ready runs₃ (Relinked-length _ h₂ 0 (length us₁) lev _ len₁ linked)
      where
        below : (j k : ℕ) → (leb 0 j && ltb j k) ≡ true → j < k
        below j k e = ground arith

        below_length : (j k : ℕ) → (leb 0 j && ltb j (0 + k)) ≡ true → j < k
        below_length j k e = ground arith

        level_max : (a b : ℕ) → a + (b - a) ≡ (if ltb a b then b else a)
        level_max a b = ground arith

        with_header :
            (head : Cell S)
            → head.addr ≡ zl.header
            → (i n : ℕ) → FoundFrom i (v.head ∷ pre) (replicate n (head.addr, 0))
            → FoundFrom i (v.head ∷ pre) (replicate n (zl.header, 0))
        with_header head e i n f = rw⁻¹ e f

    -- On a valid skip list, with a score that is a number, an address that is not in use and a level from 1 to 32: where the nodes `pre`
    -- come before the new element and the nodes `suf` do not, zslInsert runs without a fault, and the
    -- result is a valid skip list with the new node between them, every level and span included.
    pub zsl_insert_at :
        (h : ZHeap S) (zl : ZSkipList) (score : S) (obj : StringObject) (level : ℕ)
        (pre suf : List (Cell S))
        → IsSkipList h zl (pre ++ suf)
        → h x ≡ none
        → is_nan score ≡ false
        → 0 < level
        → level ≤ zskiplist_maxlevel
        → All (comes_before score obj) true pre
        → All (comes_before score obj) false suf
        → Inserted h zl score obj level pre suf
    zsl_insert_at h zl score obj level pre suf v free num tall room before behind =
        let (us, runs₁, found, len) =
          place_found (comes_before score obj) h zl pre suf v before behind in
        let (h₁, runs₂, grown) = add_levels_lem h zl zl.level (level - zl.level) (λ j inside.
          v.unused j (above j inside) (omega (arith, inside_room j inside, v.level))) in
        rest_of_insert h h₁ zl score obj level pre suf v us num tall room runs₁ found len runs₂
          grown free
      where
        above :
            (j : ℕ)
            → (leb zl.level j && ltb j (zl.level + (level - zl.level))) ≡ true
            → zl.level ≤ j
        above j inside = ground arith

        inside_room :
            (j : ℕ)
            → (leb zl.level j && ltb j (zl.level + (level - zl.level))) ≡ true
            → j < zl.level + (level - zl.level)
        inside_room j inside = ground arith
