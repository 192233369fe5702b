-- ===== src/Groups/Tests.antt =====
-- Runs of the expiring groups, and their theorems at concrete stores.
use smpp_js.Prelude.{ℕ, ◌≡◌, refl, true, none, some, List, [], ◌∷◌, String, string_eq}
use smpp_js.Groups.{ExpiringGroups, create, set, weigh, take_expired}
use smpp_js.Groups.Invariant.{Inv}
use smpp_js.Groups.Evict.{named, Evicted, weigh-Evicted}
use smpp_js.Groups.Expiry.{alive, take_expired_lem, here, next, sets, Reach-create-Inv}

-- Two groups set at different times, and weighed.
abbrev two : ExpiringGroups String ℕ
two = record {
  entries =
      ("a", record { deadline = 15; group = 7; weight = 30 })
      ∷ ("b", record { deadline = 19; group = 8; weight = 40 })
      ∷ [];
  max = 4;
  max_weight = some 100;
  timeout = 10;
  sweeper = true;
  total = 70;
}

abbrev only_b : ExpiringGroups String ℕ
only_b = record two {
  entries = ("b", record { deadline = 19; group = 8; weight = 90 }) ∷ [];
  total = 90;
}

two-Inv : Inv two
two-Inv = record {
  weighed = record { distinct = (refl, (refl, tt)); counted = refl };
  swept = refl;
}

two-weigh : weigh "b" 90 two ≡ some (("a", 7) ∷ [], only_b)
unfolding weigh
two-weigh = refl

weigh-Evicted_example :
    (taken : List (String × ℕ)) × (h : ExpiringGroups String ℕ) × (weigh "b" 90 two
      ≡ some (taken, h))
    × Evicted (named two.entries) taken h
weigh-Evicted_example = weigh-Evicted "b" 90 two two-Inv

take_expired_lem_example :
    ((take_expired 15 two).0 ≡ ("a", 7) ∷ [])
    × ((take_expired 15 two).1.entries ≡ alive 15 two.entries)
    × Inv (take_expired 15 two).1
take_expired_lem_example = take_expired_lem 15 two two-Inv

Reach-create-Inv_example : Inv {K = String} {T = ℕ} (set 6 "y" 2 (set 5 "x" 1 (create 4 none 10)))
Reach-create-Inv_example =
    Reach-create-Inv 4 none 10 (next (next here (sets 5 "x" 1)) (sets 6 "y" 2))
