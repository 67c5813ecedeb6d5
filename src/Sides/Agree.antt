-- ===== src/Sides/Agree.antt =====
-- When both sides agree, and that they still do after a client gets or gives up a key.
use commit_redis.Prelude.{
  ℕ, ◌+◌, ◌≤◌, ◌≡◌, ◌≢◌, refl, sym, ◌∙◌, ap, Bool, true, false, Bool-cases, Option-cases, inl, inr,
  Option, some, List, [], ◌∷◌, ◌++◌, ◌==◌, if◌then◌else◌, arith,
}
use commit_redis.Sides.Defs.{
  SameLaws, has, remove_first, at_client, at_key, clients_of, entry_of_clients, same_pair,
  same_pair_laws, same_apart,
}
use commit_redis.Sides.Count.{
  count, count-append_one, count_absent, count_there, count-remove_first_self,
  count-remove_first_other,
}

eq_same : (c d : ℕ) → (c == d) ≡ true → c ≡ d
eq_same c d h = ground arith

pub eq_self : (c : ℕ) → (c == c) ≡ true
eq_self c = ground arith

eq_apart : (c d : ℕ) → (c == d) ≡ false → (x : ℕ) → (c == x) ≡ true → (d == x) ≡ false
eq_apart c d h x e = ground arith

eq_swap : (c d : ℕ) → (c == d) ≡ (d == c)
eq_swap c d = ground arith

append_one_used : (xs : List ℕ) (c : ℕ) → some (xs ++ (c ∷ [])) ≢ some []
append_one_used [] c h = grind arith
append_one_used (x ∷ xs) c h = grind arith

entry_used : (xs : List ℕ) → entry_of_clients xs ≢ some []
entry_used [] h = grind arith
entry_used (x ∷ xs) h = grind arith

clients_entry : (xs : List ℕ) → clients_of (entry_of_clients xs) ≡ xs
clients_entry [] = refl
clients_entry (x ∷ xs) = refl

-- A client is in the list of a key as often as the key is in the client's, which is once at most, and
-- no key has an empty list.
pub record Agree {K : Type 0} (same : K → K → Bool) (keys : ℕ → List K)
    (clients : K → Option (List ℕ)) : Type 0 where
  pub both :
      (c : ℕ) (k : K) → count (λ c'. c == c') (clients_of (clients k)) ≡ count (same k) (keys c)
  pub once : (c : ℕ) (k : K) → count (same k) (keys c) ≤ 1
  pub used : (k : K) → clients k ≢ some []

module _ {K : Type 0} {same : K → K → Bool} (laws : SameLaws same) where
  same_swap : (a b : K) → same a b ≡ same b a
  same_swap a b = elim (Bool-cases (same a b)) [
    | inl e ↦ let eq : a ≡ b = laws.eq a b e in rw (eq) refl
    | inr e ↦ elim (Bool-cases (same b a)) [
      | inl f ↦ let eq : b ≡ a = laws.eq b a f in rw (eq) refl
      | inr f ↦ e ∙ sym f
    ]
  ]

  -- One where the client is `c` and the key is `k`, and zero elsewhere.
  abbrev unit : (c : ℕ) (k : K) (c' : ℕ) (k' : K) → ℕ
  unit c k c' k' = if c == c' then (if same k k' then 1 else 0) else 0

  -- `ks` holds one `k` more than the keys `old`.
  abbrev pub OneMore : K → List K → List K → Type 0
  OneMore k old ks =
      (k' : K) → count (same k') ks ≡ count (same k') old + (if same k k' then 1 else 0)

  pub OneMore-cons : (k : K) (old : List K) → OneMore k old (k ∷ old)
  OneMore-cons k old k' =
      rw (same_swap k' k)
        (elim (Bool-cases (same k k')) [ inl t ↦ rw t omega arith | inr t ↦ rw t omega arith ])

  pub OneMore-append : (k : K) (old : List K) → OneMore k old (old ++ (k ∷ []))
  OneMore-append k old k' = rw (same_swap k k') (count-append_one (same k') old k)

  client_add :
      (keys : ℕ → List K) (c : ℕ) (k : K) (ks : List K) (c' : ℕ) (k' : K)
      → OneMore k (keys c) ks
      → count (same k') (at_client keys c ks c') ≡ count (same k') (keys c') + unit c k c' k'
  client_add keys c k ks c' k' more = elim (Bool-cases (c == c')) [
    | inl e ↦ rw (e, sym (eq_same c c' e)) (more k')
    | inr e ↦ rw e omega arith
  ]

  once_added :
      (keys : ℕ → List K) (once : (c : ℕ) (k : K) → count (same k) (keys c) ≤ 1) (c : ℕ) (k : K)
      (ks : List K)
      → has (same k) (keys c) ≡ false
      → OneMore k (keys c) ks
      → (c' : ℕ) (k' : K) → count (same k') (at_client keys c ks c') ≤ 1
  once_added keys once c k ks new more c' k' =
      rw (client_add keys c k ks c' k' more) (elim (Bool-cases (c == c')) [
        | inr e ↦ rw e (omega (arith, once c' k'))
        | inl e ↦
            rw (e, sym (eq_same c c' e))
              (elim (Bool-cases (same k k')) [
                | inr t ↦ rw t (omega (arith, once c k'))
                | inl t ↦
                    rw (t, sym (laws.eq k k' t)) (omega (arith, count_absent (same k) (keys c) new))
              ])
      ])

  unit_swap : (c : ℕ) (k : K) (c' : ℕ) (k' : K) → unit c k c' k' ≡ unit c' k' c k
  unit_swap c k c' k' = rw (eq_swap c c', same_swap k k') refl

  key_add :
      (clients : K → Option (List ℕ)) (c : ℕ) (k : K) (c' : ℕ) (k' : K)
      → count
          (λ x. c' == x)
          (clients_of (at_key same clients k (some (clients_of (clients k) ++ (c ∷ []))) k'))
        ≡ count (λ x. c' == x) (clients_of (clients k')) + unit c k c' k'
  key_add clients c k c' k' = elim (Bool-cases (same k k')) [
    | inl e ↦
        rw (e, laws.eq k k' e, eq_swap c c')
          (count-append_one (λ x. c' == x) (clients_of (clients k')) c)
    | inr e ↦
        rw e (elim (Bool-cases (c == c')) [ inl t ↦ rw t omega arith | inr t ↦ rw t omega arith ])
  ]

  client_remove :
      (keys : ℕ → List K) (c : ℕ) (k : K) (c' : ℕ) (k' : K)
      → has (same k) (keys c) ≡ true
      → count (same k') (at_client keys c (remove_first (same k) (keys c)) c') + unit c k c' k'
        ≡ count (same k') (keys c')
  client_remove keys c k c' k' there = elim (Bool-cases (c == c')) [
    | inl e ↦
        rw (e, sym (eq_same c c' e))
          (elim (Bool-cases (same k k')) [
            | inl t ↦
                rw (t, sym (laws.eq k k' t))
                  (omega (arith, count-remove_first_self (same k) (keys c) there))
            | inr t ↦ rw t (
                omega (
                  arith,
                  count-remove_first_other (same k) (same k') (keys c) (same_apart laws k k' t),
                ))
          ])
    | inr e ↦ rw e omega arith
  ]

  key_remove :
      (clients : K → Option (List ℕ)) (c : ℕ) (k : K) (cs : List ℕ) (c' : ℕ) (k' : K)
      → clients k ≡ some cs
      → has (λ x. c == x) cs ≡ true
      → count
            (λ x. c' == x)
            (clients_of
              (at_key same clients k (entry_of_clients (remove_first (λ x. c == x) cs)) k'))
          + unit c k c' k'
        ≡ count (λ x. c' == x) (clients_of (clients k'))
  key_remove clients c k cs c' k' held there = elim (Bool-cases (same k k')) [
    | inl e ↦
        rw (e, sym (laws.eq k k' e), held, clients_entry (remove_first (λ x. c == x) cs))
          (elim (Bool-cases (c == c')) [
            | inl t ↦
                rw (t, sym (eq_same c c' t))
                  (omega (arith, count-remove_first_self (λ x. c == x) cs there))
            | inr t ↦ rw t (
                omega (
                  arith,
                  count-remove_first_other (λ x. c == x) (λ x. c' == x) cs (eq_apart c c' t),
                ))
          ])
    | inr e ↦
        rw e (elim (Bool-cases (c == c')) [ inl t ↦ rw t omega arith | inr t ↦ rw t omega arith ])
  ]

  module _ {keys : ℕ → List K} {clients : K → Option (List ℕ)} (ok : Agree same keys clients) where
    -- A client that gets a key that it has not.
    pub Agree-add :
        (c : ℕ) (k : K) (ks : List K)
        → has (same k) (keys c) ≡ false
        → OneMore k (keys c) ks
        → Agree same
            (at_client keys c ks)
            (at_key same clients k (some (clients_of (clients k) ++ (c ∷ []))))
    Agree-add c k ks new more = record {
      both = λ c' k'.
          key_add clients c k c' k'
          ∙ ap (λ n. n + unit c k c' k') (ok.both c' k')
          ∙ sym (client_add keys c k ks c' k' more);
      once = once_added keys ok.once c k ks new more;
      used = λ k' h. elim (Bool-cases (same k k')) [
        | inl e ↦ append_one_used (clients_of (clients k)) c (rw e at h)
        | inr e ↦ ok.used k' (rw e at h)
      ];
    }

    -- A client that gives up a key that it has.
    pub Agree-remove :
        (c : ℕ) (k : K) (cs : List ℕ)
        → clients k ≡ some cs
        → has (λ x. c == x) cs ≡ true
        → has (same k) (keys c) ≡ true
        → Agree same
            (at_client keys c (remove_first (same k) (keys c)))
            (at_key same clients k (entry_of_clients (remove_first (λ x. c == x) cs)))
    Agree-remove c k cs held listed there = record {
      both = λ c' k'. omega (
        arith,
        key_remove clients c k cs c' k' held listed,
        client_remove keys c k c' k' there,
        ok.both c' k',
      );
      once = λ c' k'. omega (arith, client_remove keys c k c' k' there, ok.once c' k');
      used = λ k' h. elim (Bool-cases (same k k')) [
        | inl e ↦ entry_used (remove_first (λ x. c == x) cs) (rw e at h)
        | inr e ↦ ok.used k' (rw e at h)
      ];
    }

    -- A client that has a key is in the list that the server keeps for it.
    pub listed_clients :
        (c : ℕ) (k : K)
        → has (same k) (keys c) ≡ true
        → (cs : List ℕ) × (clients k ≡ some cs) × (has (λ x. c == x) cs ≡ true)
    listed_clients c k there =
        let least = count-remove_first_self (same k) (keys c) there in
        let both = ok.both c k in
        elim (Option-cases (clients k)) [
          | inl e ↦
              let zero_clients : 0 ≡ count (same k) (keys c) = rw e at both in
              absurd (omega (arith, least, zero_clients))
          | inr (cs, e) ↦
              let equal : count (λ x. c == x) cs ≡ count (same k) (keys c) = rw e at both in
              (cs, e, count_there (λ x. c == x) cs (omega (arith, least, equal)))
        ]

  -- The two sides where the server keeps one list of all pairs.
  pub record PairsAgree (keys : ℕ → List K) (pairs : List (ℕ × K)) : Type 0 where
    pub both : (c : ℕ) (k : K) → count (same_pair same (c, k)) pairs ≡ count (same k) (keys c)
    pub once : (c : ℕ) (k : K) → count (same k) (keys c) ≤ 1

  pair_unit :
      (c : ℕ) (k : K) (c' : ℕ) (k' : K)
      → (if same_pair same (c, k) (c', k') then 1 else 0) ≡ unit c k c' k'
  pair_unit c k c' k' = elim (Bool-cases (c == c')) [ inl e ↦ rw e refl | inr e ↦ rw e refl ]

  pairs_remove :
      (pairs : List (ℕ × K)) (c : ℕ) (k : K) (c' : ℕ) (k' : K)
      → has (same_pair same (c, k)) pairs ≡ true
      → count (same_pair same (c', k')) (remove_first (same_pair same (c, k)) pairs)
          + unit c k c' k'
        ≡ count (same_pair same (c', k')) pairs
  pairs_remove pairs c k c' k' there =
      let same_2 = same_pair same in
      let two = same_pair_laws laws in
      rw (← pair_unit c k c' k') (elim (Bool-cases (same_2 (c, k) (c', k'))) [
        | inl t ↦
            rw (t, sym (two.eq (c, k) (c', k') t))
              (omega (arith, count-remove_first_self (same_2 (c, k)) pairs there))
        | inr t ↦ rw t (
            omega (
              arith,
              count-remove_first_other (same_2 (c, k)) (same_2 (c', k')) pairs
                  (same_apart two (c, k) (c', k') t),
            ))
      ])

  module _ {keys : ℕ → List K} {pairs : List (ℕ × K)} (ok : PairsAgree keys pairs) where
    pub PairsAgree-add :
        (c : ℕ) (k : K)
        → has (same k) (keys c) ≡ false
        → PairsAgree (at_client keys c (keys c ++ (k ∷ []))) (pairs ++ ((c, k) ∷ []))
    PairsAgree-add c k new =
        let more = OneMore-append k (keys c) in
        record {
          both = λ c' k'. omega (
            arith,
            count-append_one (same_pair same (c', k')) pairs (c, k),
            client_add keys c k (keys c ++ (k ∷ [])) c' k' more,
            pair_unit c' k' c k,
            unit_swap c k c' k',
            ok.both c' k',
          );
          once = once_added keys ok.once c k (keys c ++ (k ∷ [])) new more;
        }

    pub PairsAgree-remove :
        (c : ℕ) (k : K)
        → has (same k) (keys c) ≡ true
        → (has (same_pair same (c, k)) pairs ≡ true)
          × PairsAgree
              (at_client keys c (remove_first (same k) (keys c)))
              (remove_first (same_pair same (c, k)) pairs)
    PairsAgree-remove c k there =
        let least = count-remove_first_self (same k) (keys c) there in
        let listed : has (same_pair same (c, k)) pairs ≡ true =
          count_there (same_pair same (c, k)) pairs (omega (arith, least, ok.both c k)) in
        (
          listed,
          record {
            both = λ c' k'. omega (
              arith,
              pairs_remove pairs c k c' k' listed,
              client_remove keys c k c' k' there,
              ok.both c' k',
            );
            once = λ c' k'. omega (arith, client_remove keys c k c' k' there, ok.once c' k');
          },
        )
