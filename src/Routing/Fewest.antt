-- ===== src/Routing/Fewest.antt =====
-- About `Neo4jPool._select_address` (neo4j/_sync/io/_pool.py).
use neo4j_python_driver.Base.{
  ℕ, List, [], ◌∷◌, ◌++◌, Bool, true, false, ◌≡◌, ◌⊎◌, inl, inr, ◌≤◌, ◌==◌, refl, arith, All,
  All-append, ok, ==_refl, min, Bool-cases, if◌then◌else◌,
}
use neo4j_python_driver.Pool.Ops.{in_use_connection_count}
use neo4j_python_driver.Routing.Elements.{contains, is_empty}
use neo4j_python_driver.Routing.Tables.{Neo4jPool}
use neo4j_python_driver.Routing.Select.{
  Usage, count_address, addresses_by_usage, min_usage, with_usage, least_used, addresses_for,
  choose_address, select_address,
}

-- A group holds addresses of one usage, at least one, each of them with a property.
unfoldable Group : (ℕ → ℕ) → (ℕ → Type 0) → ℕ × List ℕ → Type 0
Group usage P (n, xs) = (is_empty xs ≡ false) × All (λ a. (usage a ≡ n) × P a) xs

is_empty-append : (xs : List ℕ) (a : ℕ) → is_empty (xs ++ (a ∷ [])) ≡ false
is_empty-append [] a = refl
is_empty-append (x ∷ xs) a = refl

-- The usages that have a group.
has_usage : ℕ → Usage → Bool
has_usage n [] = false
has_usage n ((m, xs) ∷ us) = if m == n then true else has_usage n us

module _ (usage : ℕ → ℕ) (P : ℕ → Type 0) where
  count_address-Group :
      (a : ℕ) (us : Usage)
      → P a
      → All (Group usage P) us
      → All (Group usage P) (count_address (usage a) a us)
  unfolding count_address Group
  count_address-Group a [] p h = ((refl, ((refl, p), tt)), tt)
  count_address-Group a ((m, xs) ∷ us) p ((e, h), hs) = elim (Bool-cases (m == usage a)) [
    | inl same ↦
        let here : usage a ≡ m = ground arith in
        rw same ((is_empty-append xs a, All-append _ xs (a ∷ []) h ((here, p), tt)), hs)
    | inr other ↦ rw other ((e, h), count_address-Group a us p hs)
  ]

  addresses_by_usage-Group :
      (as' : List ℕ) (us : Usage)
      → All P as'
      → All (Group usage P) us
      → All (Group usage P) (addresses_by_usage usage as' us)
  unfolding addresses_by_usage
  addresses_by_usage-Group [] us p h = h
  addresses_by_usage-Group (a ∷ as') us (p, ps) h =
      addresses_by_usage-Group as' _ ps (count_address-Group a us p h)

  with_usage-Group :
      (n : ℕ) (us : Usage)
      → has_usage n us ≡ true
      → All (Group usage P) us
      → Group usage P (n, with_usage n us)
  unfolding has_usage with_usage Group
  with_usage-Group n [] e h = cc
  with_usage-Group n ((m, xs) ∷ us) e (h, hs) = elim (Bool-cases (m == n)) [
    | inl same ↦ let here : n ≡ m = ground arith in rw same (rw here h)
    | inr other ↦ rw other (with_usage-Group n us (ground arith) hs)
  ]

has_usage-count_address : (n a : ℕ) (us : Usage) → has_usage n (count_address n a us) ≡ true
unfolding has_usage count_address
has_usage-count_address n a [] = rw ==_refl
has_usage-count_address n a ((m, xs) ∷ us) = grind (arith, has_usage-count_address n a us)

has_usage-count_other :
    (k n a : ℕ) (us : Usage) → has_usage k us ≡ true → has_usage k (count_address n a us) ≡ true
unfolding has_usage count_address
has_usage-count_other k n a [] h = cc
has_usage-count_other k n a ((m, xs) ∷ us) h = grind (arith, has_usage-count_other k n a us)

has_usage-keep :
    (usage : ℕ → ℕ) (k : ℕ) (as' : List ℕ) (us : Usage)
    → has_usage k us ≡ true
    → has_usage k (addresses_by_usage usage as' us) ≡ true
unfolding addresses_by_usage
has_usage-keep usage k [] us h = h
has_usage-keep usage k (a ∷ as') us h =
    has_usage-keep usage k as' _ (has_usage-count_other k (usage a) a us h)

has_usage-addresses :
    (usage : ℕ → ℕ) (b : ℕ) (as' : List ℕ) (us : Usage)
    → contains b as' ≡ true
    → has_usage (usage b) (addresses_by_usage usage as' us) ≡ true
unfolding addresses_by_usage contains
has_usage-addresses usage b [] us h = cc
has_usage-addresses usage b (a ∷ as') us h = elim (Bool-cases (a == b)) [
  | inl same ↦
      let here : b ≡ a = ground arith in
      rw here (has_usage-keep usage (usage a) as' _ (has_usage-count_address (usage a) a us))
  | inr other ↦ has_usage-addresses usage b as' _ (grind arith)
]

min_usage-start : (n : ℕ) (us : Usage) → min_usage n us ≤ n
unfolding min_usage
min_usage-start n [] = omega arith
min_usage-start n ((m, xs) ∷ us) = omega (arith, min_usage-start (min n m) us)

min_usage-le : (n k : ℕ) (us : Usage) → has_usage k us ≡ true → min_usage n us ≤ k
unfolding min_usage has_usage
min_usage-le n k [] h = cc
min_usage-le n k ((m, xs) ∷ us) h =
    ground (arith, min_usage-start (min n m) us, min_usage-le (min n m) k us)

min_usage-has : (n : ℕ) (us : Usage) → (min_usage n us ≡ n) ⊎ (has_usage (min_usage n us) us ≡ true)
unfolding min_usage has_usage
min_usage-has n [] = inl refl
min_usage-has n ((m, xs) ∷ us) = ground (arith, min_usage-has (min n m) us)

-- The least key of a dict of groups that is not empty is a key.
min_usage_head :
    (m : ℕ) (xs : List ℕ) (us : Usage) → has_usage (min_usage m us) ((m, xs) ∷ us) ≡ true
unfolding has_usage
min_usage_head m xs us = ground (arith, min_usage-has m us)

min_usage_all :
    (m k : ℕ) (xs : List ℕ) (us : Usage) → has_usage k ((m, xs) ∷ us) ≡ true → min_usage m us ≤ k
unfolding has_usage
min_usage_all m k xs us h = ground (arith, min_usage-start m us, min_usage-le m k us)

All-contains : (P : ℕ → Type 0) (c : ℕ) (xs : List ℕ) → contains c xs ≡ true → All P xs → P c
unfolding contains
All-contains P c [] e h = cc
All-contains P c (x ∷ xs) e (h, hs) = elim (Bool-cases (x == c)) [
  | inl same ↦ let here : c ≡ x = ground arith in rw here h
  | inr other ↦ All-contains P c xs (ground arith) hs
]

contains_tail : (a x : ℕ) (xs : List ℕ) → contains a xs ≡ true → contains a (x ∷ xs) ≡ true
unfolding contains
contains_tail a x xs h = ground arith

contains_head : (x : ℕ) (xs : List ℕ) → contains x (x ∷ xs) ≡ true
unfolding contains
contains_head x xs = rw (==_refl x)

All-within :
    (ys xs : List ℕ)
    → ((a : ℕ) → contains a xs ≡ true → contains a ys ≡ true)
    → All (λ a. contains a ys ≡ true) xs
All-within ys [] h = tt
All-within ys (x ∷ xs) h =
    (h x (contains_head x xs), All-within ys xs (λ a e. h a (contains_tail a x xs e)))

-- `random.choice` returns an element of a sequence that is not empty.
unfoldable pub Chooses : (List ℕ → ℕ) → Type 0
Chooses choice = (xs : List ℕ) → is_empty xs ≡ false → contains (choice xs) xs ≡ true

choose_address_lem :
    (usage : ℕ → ℕ) (P : ℕ → Type 0) (choice : List ℕ → ℕ) (readonly : Bool) (us : Usage) (k : ℕ)
    → Chooses choice
    → All (Group usage P) us
    → has_usage k us ≡ true
    → (a : ℕ) × (choose_address choice readonly us ≡ ok a)
      × P a
      × ((n : ℕ) → has_usage n us ≡ true → usage a ≤ n)
unfolding choose_address least_used Group Chooses
choose_address_lem usage P choice readonly [] k chooses h e = unfold has_usage in cc
choose_address_lem usage P choice readonly ((m, xs) ∷ us) k chooses h e =
    let least = min_usage m us in
    let group = with_usage least ((m, xs) ∷ us) in
    let found : Group usage P (least, group) =
      with_usage-Group usage P least ((m, xs) ∷ us) (min_usage_head m xs us) h in
    let (nonempty, all) = found in
    let (same, p) =
      All-contains (λ a. (usage a ≡ least) × P a) (choice group) group (chooses group nonempty)
        all in
    (choice group, refl, p, λ n i. rw same (min_usage_all m n xs us i))

fewest :
    (usage : ℕ → ℕ) (choice : List ℕ → ℕ) (readonly : Bool) (xs : List ℕ)
    → Chooses choice
    → is_empty xs ≡ false
    → (a : ℕ) × (choose_address choice readonly (addresses_by_usage usage xs []) ≡ ok a)
      × (contains a xs ≡ true)
      × ((b : ℕ) → contains b xs ≡ true → usage a ≤ usage b)
fewest usage choice readonly [] chooses h = cc
fewest usage choice readonly (x ∷ xs) chooses h =
    let (a, e, p, least) =
      choose_address_lem usage (λ a. contains a (x ∷ xs) ≡ true) choice readonly
        (addresses_by_usage usage (x ∷ xs) []) (usage x) chooses
        (addresses_by_usage-Group usage _ (x ∷ xs) [] (All-within (x ∷ xs) (x ∷ xs) (λ a e. e)) tt)
        (has_usage-addresses usage x (x ∷ xs) [] (contains_head x xs)) in
    (a, e, p, λ b i. least (usage b) (has_usage-addresses usage b (x ∷ xs) [] i))

-- If the routing table has servers for the access mode, `_select_address` returns one of them, and no
-- other of them has fewer connections in use. `choice` returns an element of what it is given.
pub select_address_lem :
    (choice : List ℕ → ℕ) (readonly : Bool) (db : ℕ) (q : Neo4jPool)
    → Chooses choice
    → is_empty (addresses_for readonly db q) ≡ false
    → (a : ℕ) × (select_address choice readonly db q ≡ ok a)
      × (contains a (addresses_for readonly db q) ≡ true)
      × ((b : ℕ)
          → contains b (addresses_for readonly db q) ≡ true
          → in_use_connection_count a q.pool ≤ in_use_connection_count b q.pool)
unfolding select_address
select_address_lem choice readonly db q chooses some_address =
    fewest (λ a. in_use_connection_count a q.pool) choice readonly (addresses_for readonly db q)
      chooses some_address
