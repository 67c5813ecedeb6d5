-- ===== src/Dict/Tests.antt =====
-- Runs of dict.c at concrete dictionaries, and the theorems at them.
use commit_redis.Prelude.{
  ℕ, zero, suc, ◌≡◌, refl, Bool, true, false, none, some, [], ◌∷◌, arith, ◌==◌, get_or, leb, ◌&&◌,
  ◌+◌, if◌then◌else◌,
}
use commit_redis.Dict.Defs.{
  DictType, Dictht, Dict, dict_ok, dict_err, fresh_table, dict_next_power, search, insert_at,
  move_chain, skip_empty, next_power_loop,
}
use commit_redis.Dict.Ops.{
  rehash_loop, rehash_bucket, dict_rehash, dict_find, dict_add, dict_generic_delete, dict_replace,
  expand_if_needed,
}
use commit_redis.Dict.Chain.{KeyLaws, ChainOk}
use commit_redis.Dict.Table.{fresh_table-TableOk, find_ht-fresh_table}
use commit_redis.Dict.Valid.{IsValid, IsSame, entry_of}
use commit_redis.Dict.Power.{IsNextPower, dict_next_power_lem}
use commit_redis.Dict.Rehash.{dict_rehash_keeps, dict_rehash_finishes}
use commit_redis.Dict.Expand.{Expanded, expand_if_needed_lem}
use commit_redis.Dict.Find.{dict_find_lem}
use commit_redis.Dict.Add.{IsInsert, dict_add_new, dict_add_old}
use commit_redis.Dict.Delete.{IsRemove, dict_delete_there, dict_delete_absent}
use commit_redis.Dict.Replace.{IsUpdate, dict_replace_old}

-- Numbers for keys, under the identity hash of dict.c.
abbrev numbers : DictType ℕ ℕ
numbers = record {
  hash_function = λ k. k;
  key_dup = none;
  val_dup = none;
  key_compare = none;
  same_pointer = ◌==◌;
}

numbers_laws : KeyLaws numbers
numbers_laws = record {
  same = λ a. ground arith;
  swap = λ a b. ground arith;
  join = λ a b c e. ground arith;
  hash = λ a b e. ground arith;
  copy = λ a. ground arith;
}

-- A table of four buckets with two keys in one of them, in the middle of a rehash.
abbrev old_table : Dictht ℕ ℕ
old_table = record {
  table = [] ∷ [] ∷ [] ∷ ((7, 70) ∷ (3, 30) ∷ []) ∷ [];
  size = 4;
  sizemask = 3;
  used = 2;
}

abbrev moving : Dict ℕ ℕ
moving = record { ht0 = old_table; ht1 = fresh_table 8; rehashidx = some 0; iterators = 0 }

old_table-chains : (i : ℕ) → ChainOk numbers 3 i (get_or old_table.table i [])
unfolding search
old_table-chains zero = tt
old_table-chains (suc zero) = tt
old_table-chains (suc (suc zero)) = tt
old_table-chains (suc (suc (suc zero))) = (refl, refl, (refl, refl, tt))
old_table-chains (suc (suc (suc (suc i)))) = tt

moving-IsValid : IsValid numbers moving
moving-IsValid = record {
  ok0 = record { len = refl; mask = refl; count = refl; chains = old_table-chains };
  ok1 = fresh_table-TableOk numbers 8;
  apart = λ k there. find_ht-fresh_table numbers 8 k;
  phase = (omega arith, omega arith, λ j lt. absurd (omega arith));
}

dict_find_example :
    (d' : Dict ℕ ℕ) × (dict_find numbers moving 3 ≡ some (d', entry_of numbers moving 3))
    × IsValid numbers d'
    × IsSame numbers moving d'
dict_find_example = dict_find_lem numbers_laws moving 3 moving-IsValid

dict_add_new_example :
    (d' : Dict ℕ ℕ) × (dict_add numbers true moving 11 110 ≡ some (d', dict_ok))
    × IsInsert numbers moving 11 110 d'
unfolding search
dict_add_new_example =
    dict_add_new numbers_laws true moving 11 110 moving-IsValid (omega arith) refl

dict_add_old_example :
    (d' : Dict ℕ ℕ) × (dict_add numbers true moving 3 99 ≡ some (d', dict_err))
    × IsValid numbers d'
    × IsSame numbers moving d'
unfolding search
dict_add_old_example =
    dict_add_old numbers_laws true moving 3 99 (3, 30) moving-IsValid (omega arith) refl

dict_delete_there_example :
    (d' : Dict ℕ ℕ) × (dict_generic_delete numbers moving 3 ≡ some (d', dict_ok))
    × IsRemove numbers moving 3 d'
unfolding search
dict_delete_there_example = dict_delete_there numbers_laws moving 3 moving-IsValid refl

dict_delete_absent_example :
    (d' : Dict ℕ ℕ) × (dict_generic_delete numbers moving 5 ≡ some (d', dict_err))
    × IsValid numbers d'
    × IsSame numbers moving d'
unfolding search
dict_delete_absent_example = dict_delete_absent numbers_laws moving 5 moving-IsValid refl

dict_replace_old_example :
    (d' : Dict ℕ ℕ) × (dict_replace numbers false moving 7 71 ≡ some (d', false))
    × IsUpdate numbers moving 7 71 d'
unfolding search
dict_replace_old_example =
    dict_replace_old numbers_laws false moving 7 71 (7, 70) moving-IsValid (omega arith) refl

dict_rehash_keeps_example :
    (more : Bool) × (d' : Dict ℕ ℕ) × (dict_rehash numbers moving 1 ≡ some (more, d'))
    × IsValid numbers d'
    × IsSame numbers moving d'
dict_rehash_keeps_example = dict_rehash_keeps numbers_laws moving 1 moving-IsValid (omega arith)

dict_rehash_finishes_example :
    (d' : Dict ℕ ℕ) × (dict_rehash numbers moving 100 ≡ some (false, d'))
    × (d'.rehashidx ≡ none)
    × IsValid numbers d'
    × IsSame numbers moving d'
dict_rehash_finishes_example =
    dict_rehash_finishes numbers_laws moving 100 moving-IsValid (omega arith) (omega arith)

expand_if_needed_example :
    (d' : Dict ℕ ℕ) × (expand_if_needed true moving ≡ some (dict_ok, d'))
    × Expanded numbers moving d'
expand_if_needed_example = expand_if_needed_lem true moving moving-IsValid (omega arith)

dict_next_power_example : (p : ℕ) × (dict_next_power 1000 ≡ some p) × IsNextPower 1000 p
dict_next_power_example = dict_next_power_lem 1000 (omega arith)

-- A rehash of one bucket moves both keys, the first of the chain last.
one_bucket :
    dict_rehash numbers moving 1
    ≡ some (
      true,
      record {
        ht0 = record old_table { table = [] ∷ [] ∷ [] ∷ [] ∷ []; used = 0 };
        ht1 = record {
          table = [] ∷ [] ∷ [] ∷ ((3, 30) ∷ []) ∷ [] ∷ [] ∷ [] ∷ ((7, 70) ∷ []) ∷ [];
          size = 8;
          sizemask = 7;
          used = 2;
        };
        rehashidx = some 4;
        iterators = 0;
      },
    )
unfolding dict_rehash rehash_loop rehash_bucket skip_empty move_chain insert_at
one_bucket = refl

power_test : dict_next_power 1000 ≡ some 1024
unfolding dict_next_power next_power_loop
power_test = refl

-- Upper case letters to lower case, the other bytes as they are.
abbrev ascii_lower : ℕ → ℕ
ascii_lower c = if leb b'A' c && leb c b'Z' then c + 32 else c
