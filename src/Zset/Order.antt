-- ===== src/Zset/Order.antt =====
-- The order of the nodes in a skip list of redis-2.6.12/src/t_zset.c.
use commit_redis.Prelude.{
  ℕ, ◌≡◌, refl, ap, Bool, true, false, ◌&&◌, not, Bool-cases, ◌⊎◌, inl, inr, Option, none, some,
  List, [], ◌∷◌, ◌++◌, if◌then◌else◌, arith,
}
use commit_redis.Objects.{StringObject, same_text, same_text_refl}
use commit_redis.Zset.Cells.{Cell}
use commit_redis.Zset.Strings.{text_below_trans, text_below_total, or_true}
use commit_redis.Zset.Texts.{precedes}
use commit_redis.Zset.Valid.{All}

-- What the comparisons of doubles that are numbers guarantee.
pub record ScoreLaws {S : Type 0} (below same : S → S → Bool) : Type 0 where
  pub below_trans : (a b c : S) → below a b ≡ true → below b c ≡ true → below a c ≡ true
  pub same_below : (a b c : S) → same a b ≡ true → below b c ≡ true → below a c ≡ true
  pub below_same : (a b c : S) → below a b ≡ true → same b c ≡ true → below a c ≡ true
  pub same_trans : (a b c : S) → same a b ≡ true → same b c ≡ true → same a c ≡ true
  pub same_sym : (a b : S) → same a b ≡ true → same b a ≡ true
  pub below_apart : (a b : S) → below a b ≡ true → same b a ≡ false
  pub below_asym : (a b : S) → below a b ≡ true → below b a ≡ false
  pub total : (a b : S) → (below a b ≡ true) ⊎ ((same a b ≡ true) ⊎ (below b a ≡ true))

module _ {S : Type 0} (below same : S → S → Bool) where
  -- An element other than that one: another score, or another object.
  abbrev pub differs : S → StringObject → S → Option StringObject → Bool
  differs score obj s none = false
  differs score obj s (some o) = not (same s score && same_text o.text obj.text)

  -- The cells in order, from one that comes before another to that one.
  abbrev pub Sorted : List (Cell S) → Type 0
  Sorted [] = Unit {0}
  Sorted (c ∷ r) = All (λ s o. precedes below same c.score c.obj s o) true r × Sorted r

  -- The cell before the first that it does not come behind.
  abbrev pub insert_cell : Cell S → List (Cell S) → List (Cell S)
  insert_cell z [] = z ∷ []
  insert_cell z (c ∷ r) =
      let rest = insert_cell z r in
      if precedes below same c.score c.obj z.score z.obj then c ∷ rest else z ∷ c ∷ r

  -- Where the place is: the nodes before it come first, and those behind it do not.
  pub record Place (score : S) (obj : StringObject) (cells : List (Cell S)) : Type 0 where
    pub pre : List (Cell S)
    pub suf : List (Cell S)
    pub parts : cells ≡ pre ++ suf
    pub result :
        (x height : ℕ)
        → insert_cell (record { addr = x; score = score; obj = some obj; height = height }) cells
          ≡ pre ++ (record { addr = x; score = score; obj = some obj; height = height } ∷ suf)
    pub before : All (λ s o. precedes below same s o score (some obj)) true pre
    pub behind : All (λ s o. precedes below same s o score (some obj)) false suf

module _ {S : Type 0} (below same : S → S → Bool) (laws : ScoreLaws below same) where
  precedes_trans :
      (s : S) (o : Option StringObject) (s' : S) (o' : Option StringObject) (s'' : S)
      (o'' : Option StringObject)
      → precedes below same s o s' o' ≡ true
      → precedes below same s' o' s'' o'' ≡ true
      → precedes below same s o s'' o'' ≡ true
  precedes_trans s none s' o' s'' o'' h k = cc
  precedes_trans s (some o) s' none s'' o'' h k = cc
  precedes_trans s (some o) s' (some o') s'' none h k = cc
  precedes_trans s (some o) s' (some o') s'' (some o'') h k = ground (
    arith,
    laws.below_trans s s' s'',
    laws.same_below s s' s'',
    laws.below_same s s' s'',
    laws.same_trans s s' s'',
    text_below_trans o.text o'.text o''.text,
  )

  -- Of two elements that differ one comes first.
  precedes_total :
      (score : S) (obj : StringObject) (s : S) (o : Option StringObject)
      → differs below same score obj s o ≡ true
      → precedes below same s o score (some obj) ≡ false
      → precedes below same score (some obj) s o ≡ true
  precedes_total score obj s none d h = cc
  precedes_total score obj s (some o) d h = elim (laws.total s score) [
    | inl first ↦ cc (rw first at h)
    | inr (inr last) ↦ rw last refl
    | inr (inl equal) ↦
        let equal' = laws.same_sym s score equal in
        elim (text_below_total o.text obj.text) [
          | inl first ↦ cc (rw (equal, first, or_true (below s score)) at h)
          | inr (inl e) ↦ cc (rw (equal, e, same_text_refl obj.text) at d)
          | inr (inr last) ↦ rw (equal', last) (or_true (below score s))
        ]
  ]

  none_behind :
      (c : Cell S) (score : S) (obj : StringObject) (r : List (Cell S))
      → precedes below same c.score c.obj score (some obj) ≡ false
      → All (λ s o. precedes below same c.score c.obj s o) true r
      → All (λ s o. precedes below same s o score (some obj)) false r
  none_behind c score obj [] e as_all = tt
  none_behind c score obj (d ∷ r) e (a, as_all) = (
    (elim (Bool-cases (precedes below same d.score d.obj score (some obj))) [
      | inr no_more ↦ no_more
      | inl first ↦
          let e' = precedes_trans c.score c.obj d.score d.obj score (some obj) a first in cc
    ]),
    none_behind c score obj r e as_all,
  )

  pub position_of :
      (score : S) (obj : StringObject) (cells : List (Cell S))
      → Sorted below same cells
      → Place below same score obj cells
  position_of score obj [] sorted = record {
    pre = [];
    suf = [];
    parts = refl;
    result = λ x height. refl;
    before = tt;
    behind = tt;
  }
  position_of score obj (c ∷ r) (first, sorted) =
      elim (Bool-cases (precedes below same c.score c.obj score (some obj))) [
        | inl before ↦
            let p = position_of score obj r sorted in
            record {
              pre = c ∷ p.pre;
              suf = p.suf;
              parts = ap (λ l. c ∷ l) p.parts;
              result = λ x height. rw before (ap (λ l. c ∷ l) (p.result x height));
              before = (before, p.before);
              behind = p.behind;
            }
        | inr behind ↦ record {
          pre = [];
          suf = c ∷ r;
          parts = refl;
          result = λ x height. rw behind refl;
          before = tt;
          behind = (behind, none_behind c score obj r behind first);
        }
      ]

  All-insert_cell :
      (go : S → Option StringObject → Bool) (z : Cell S) (r : List (Cell S))
      → go z.score z.obj ≡ true
      → All go true r
      → All go true (insert_cell below same z r)
  All-insert_cell go z [] h as_all = (h, tt)
  All-insert_cell go z (d ∷ r) h (a, as_all) =
      elim (Bool-cases (precedes below same d.score d.obj z.score z.obj)) [
        | inl before ↦ rw before (a, All-insert_cell go z r h as_all)
        | inr behind ↦ rw behind (h, (a, as_all))
      ]

  later_ones :
      (c : Cell S) (score : S) (obj : StringObject) (r : List (Cell S))
      → precedes below same score (some obj) c.score c.obj ≡ true
      → All (λ s o. precedes below same c.score c.obj s o) true r
      → All (λ s o. precedes below same score (some obj) s o) true r
  later_ones c score obj [] h as_all = tt
  later_ones c score obj (d ∷ r) h (a, as_all) = (
    precedes_trans score (some obj) c.score c.obj d.score d.obj h a,
    later_ones c score obj r h as_all,
  )

  -- With an element that is not there yet the order is kept.
  pub insert_cell-Sorted :
      (x : ℕ) (score : S) (obj : StringObject) (height : ℕ) (cells : List (Cell S))
      → Sorted below same cells
      → All (differs below same score obj) true cells
      → Sorted below same (
          insert_cell below same
            (record { addr = x; score = score; obj = some obj; height = height })
            cells)
  insert_cell-Sorted x score obj height [] sorted ds = (tt, tt)
  insert_cell-Sorted x score obj height (c ∷ r) (first, sorted) (d, ds) =
      elim (Bool-cases (precedes below same c.score c.obj score (some obj))) [
        | inl before ↦ rw before (
          All-insert_cell (λ s o. precedes below same c.score c.obj s o)
              (record { addr = x; score = score; obj = some obj; height = height }) r before first,
          insert_cell-Sorted x score obj height r sorted ds,
        )
        | inr behind ↦
            let h = precedes_total score obj c.score c.obj d behind in
            rw behind ((h, later_ones c score obj r h first), (first, sorted))
      ]
