-- ===== src/Packstream/Composite.antt =====
-- Lists, dicts and structures: reading them back, given that their parts are read back.
use neo4j_python_driver.Base.{
  ℕ, suc, ◌+◌, ◌^◌, ◌<◌, ◌≡◌, refl, ap, inl, inr, List, [], ◌∷◌, ◌++◌, true, false, none, some,
  length, Bool-cases, arith, append_assoc,
}
use neo4j_python_driver.Packstream.Value.{
  Value, float, str, list, dict, structure, other, Items, nil, cons, Entries, empty, entry,
  size_items, size_entries,
}
use neo4j_python_driver.Packstream.Pack.{
  Written, ◌then_do◌, pack_items, pack_entries, is_str, pack_struct_with,
}
use neo4j_python_driver.Packstream.Keys.{hashable, has_key, snoc, dict_set}
use neo4j_python_driver.Packstream.Unpack.{
  Size, Kind, Reader, ret, ◌>>=◌, read, read_u8, marker_kind, read_size, unpack_items,
  unpack_entries, unpack_kind, unpack_marked, unpack,
}
use neo4j_python_driver.Packstream.Reads.{
  Reads, Reads-ret, Reads-bind, Reads-map, Reads-read_exact, Reads-read_u8,
}
use neo4j_python_driver.Packstream.Markers.{Announces, inline_struct}

-- The entries of a dict: inserted one after the other, no key meets an equal one.
abbrev pub DistinctFrom : Entries → Entries → Type 0
DistinctFrom acc empty = Unit {0}
DistinctFrom acc (entry k v es) = (has_key k acc ≡ false) × DistinctFrom (snoc acc k v) es

-- A value that needs no hook: floats are 64 bits, the keys of a dict are distinct.
unfoldable mutual
  pub Plain : Value → Type 0
  Plain (float bits) = bits < 2 ^ 64
  Plain (list xs) = PlainItems xs
  Plain (dict es) = PlainEntries es × DistinctFrom empty es
  Plain (structure tag fields) = PlainItems fields
  Plain (other n) = ⊥
  Plain v = Unit {0}

  pub PlainItems : Items → Type 0
  PlainItems nil = Unit {0}
  PlainItems (cons v vs) = Plain v × PlainItems vs

  pub PlainEntries : Entries → Type 0
  PlainEntries empty = Unit {0}
  PlainEntries (entry k v es) = Plain k × Plain v × PlainEntries es

-- A chain of writes that succeeds has written its parts one after the other.
pub then_do-inv :
    (a b : Written)
    → (a then_do b).failed ≡ none
    → (a.failed ≡ none) × (b.failed ≡ none) × ((a then_do b).out ≡ a.out ++ b.out)
then_do-inv a b h = ground arith

-- A value is read as its marker and what the marker announces.
pub Reads-unpack :
    (fuel m : ℕ) (zs : List ℕ) (v : Value)
    → Reads (unpack_kind (unpack (λ w. w) fuel) (marker_kind m)) zs v
    → Reads (unpack (λ w. w) (suc fuel)) (m ∷ zs) v
unfolding unpack unpack_marked
Reads-unpack fuel m zs v h b ys ahead =
    Reads-bind read_u8 (λ o. unpack_marked (unpack (λ w. w) fuel) o >>= λ w. ret w) (m ∷ []) zs
      (some m) v (Reads-read_u8 m)
      (Reads-map (unpack_kind (unpack (λ w. w) fuel) (marker_kind m)) (λ w. w) zs v h) b ys ahead

-- A packed value of a certain kind whose size is announced in front of it.
pub Reads-announced :
    (kind : Size → Kind) (front body : List ℕ) (size fuel : ℕ) (rest : ℕ → Reader Value) (v : Value)
    → ((s : Size) → unpack_kind (unpack (λ w. w) fuel) (kind s) ≡ (read_size s >>= rest))
    → Announces front kind size
    → Reads (rest size) body v
    → Reads (unpack (λ w. w) (suc fuel)) (front ++ body) v
Reads-announced kind front body size fuel rest v by_size (m, s, zs, e, k, sized) h = rw e (
    Reads-unpack fuel m (zs ++ body) v
      (rw (k, by_size s) (Reads-bind (read_size s) rest zs body size v sized h)))

pub items-Reads :
    (pack : Value → Written) (unpack : Reader Value)
    → ((v : Value) → Plain v → (pack v).failed ≡ none → Reads unpack (pack v).out v)
    → (xs : Items) → PlainItems xs
    → (pack_items pack xs).failed ≡ none
    → Reads (unpack_items unpack (size_items xs)) (pack_items pack xs).out xs
unfolding pack_items unpack_items Plain PlainItems PlainEntries
items-Reads pack unpack each nil plain h = Reads-ret nil
items-Reads pack unpack each (cons v vs) (p, ps) h =
    let (first, others, whole) = then_do-inv (pack v) (pack_items pack vs) h in
    rw whole (
      Reads-bind unpack (λ w. unpack_items unpack (size_items vs) >>= λ ws. ret (cons w ws))
        (pack v).out (pack_items pack vs).out v (cons v vs) (each v p first)
        (Reads-map (unpack_items unpack (size_items vs)) (cons v) (pack_items pack vs).out vs
          (items-Reads pack unpack each vs ps others)))

-- The entries of the second dict behind those of the first.
join : Entries → Entries → Entries
join empty es = es
join (entry j w acc) es = entry j w (join acc es)

join-snoc :
    (acc : Entries) (k v : Value) (es : Entries) → join (snoc acc k v) es ≡ join acc (entry k v es)
unfolding join snoc
join-snoc empty k v es = refl
join-snoc (entry j w acc) k v es = ap (entry j w) (join-snoc acc k v es)

join-empty : (acc : Entries) → join acc empty ≡ acc
unfolding join
join-empty empty = refl
join-empty (entry j w acc) = ap (entry j w) (join-empty acc)

dict_set-snoc :
    (acc : Entries) (k v : Value) → has_key k acc ≡ false → dict_set acc k v ≡ snoc acc k v
unfolding dict_set snoc has_key
dict_set-snoc empty k v h = refl
dict_set-snoc (entry j w acc) k v h = ground (arith, dict_set-snoc acc k v)

is_str-hashable : (k : Value) → is_str k ≡ true → hashable k ≡ true
unfolding is_str hashable
is_str-hashable (str s) h = refl
is_str-hashable _ h = cc

pack_entries-inv :
    (pack : Value → Written) (k v : Value) (es : Entries)
    → (pack_entries pack (entry k v es)).failed ≡ none
    → (hashable k ≡ true)
      × ((pack k).failed ≡ none)
      × ((pack v).failed ≡ none)
      × ((pack_entries pack es).failed ≡ none)
      × ((pack_entries pack (entry k v es)).out
          ≡ (pack k).out ++ ((pack v).out ++ (pack_entries pack es).out))
unfolding pack_entries
pack_entries-inv pack k v es h = elim (Bool-cases (is_str k)) [
  | inl yes_str ↦ (
    is_str-hashable k yes_str,
    ground arith,
    ground arith,
    ground arith,
    ground (arith, append_assoc (pack k).out (pack v).out (pack_entries pack es).out),
  )
  | inr no_str ↦ absurd (ground arith)
]

-- One entry is read: its key, its value, and then the others into the dict that has it.
entry-Reads :
    (unpack : Reader Value) (n : ℕ) (acc : Entries) (k v : Value) (ks vs rest : List ℕ)
    (result : Entries)
    → hashable k ≡ true
    → Reads unpack ks k
    → Reads unpack vs v
    → Reads (unpack_entries unpack n (dict_set acc k v)) rest result
    → Reads (unpack_entries unpack (suc n) acc) (ks ++ (vs ++ rest)) result
unfolding unpack_entries
entry-Reads unpack n acc k v ks vs rest result hash rk rv more =
    Reads-bind unpack _ ks (vs ++ rest) k result rk
      (Reads-bind unpack _ vs rest v result rv (rw hash more))

entries-Reads :
    (pack : Value → Written) (unpack : Reader Value)
    → ((v : Value) → Plain v → (pack v).failed ≡ none → Reads unpack (pack v).out v)
    → (es acc : Entries) → PlainEntries es
    → DistinctFrom acc es
    → (pack_entries pack es).failed ≡ none
    → Reads (unpack_entries unpack (size_entries es) acc) (pack_entries pack es).out (join acc es)
entries-Reads pack unpack each empty acc plain distinct h =
    rw (join-empty acc) (unfold unpack_entries pack_entries in Reads-ret acc)
entries-Reads pack unpack each (entry k v es) acc plain (new, distinct) h =
    let (pk, pv, ps) : Plain k × Plain v × PlainEntries es = unfold PlainEntries in plain in
    let (hash, hk, hv, hs, whole) = pack_entries-inv pack k v es h in
    rw whole (
      entry-Reads unpack (size_entries es) acc k v (pack k).out (pack v).out
        (pack_entries pack es).out (join acc (entry k v es)) hash (each k pk hk) (each v pv hv)
        (rw (dict_set-snoc acc k v new, ← join-snoc acc k v es)
          (entries-Reads pack unpack each es (snoc acc k v) ps distinct hs)))

pub dict-Reads :
    (pack : Value → Written) (unpack : Reader Value)
    → ((v : Value) → Plain v → (pack v).failed ≡ none → Reads unpack (pack v).out v)
    → (es : Entries) → PlainEntries es
    → DistinctFrom empty es
    → (pack_entries pack es).failed ≡ none
    → Reads (unpack_entries unpack (size_entries es) empty) (pack_entries pack es).out es
unfolding join
dict-Reads pack unpack each es plain distinct h =
    entries-Reads pack unpack each es empty plain distinct h

pub struct-inv :
    (pack : Value → Written) (tag : List ℕ) (fields : Items)
    → (pack_struct_with pack tag fields).failed ≡ none
    → (length tag ≡ 1)
      × (size_items fields < 16)
      × ((pack_items pack fields).failed ≡ none)
      × ((pack_struct_with pack tag fields).out
          ≡ (0xb0 + size_items fields) ∷ (tag ++ (pack_items pack fields).out))
unfolding pack_struct_with
struct-inv pack tag fields h = ground arith

pub struct-Reads :
    (pack : Value → Written) (fuel : ℕ)
    → ((v : Value) → Plain v → (pack v).failed ≡ none → Reads (unpack (λ w. w) fuel) (pack v).out v)
    → (tag : List ℕ) (fields : Items) → PlainItems fields
    → (pack_struct_with pack tag fields).failed ≡ none
    → Reads
        (unpack (λ w. w) (suc fuel))
        (pack_struct_with pack tag fields).out
        (structure tag fields)
unfolding unpack_kind
struct-Reads pack fuel each tag fields plain h =
    let (one, small, ok_fields, whole) = struct-inv pack tag fields h in
    rw whole (
      Reads-unpack fuel (0xb0 + size_items fields) (tag ++ (pack_items pack fields).out)
        (structure tag fields)
        (rw (inline_struct (size_items fields) small) (
          Reads-bind (read 1) _ tag (pack_items pack fields).out tag (structure tag fields)
            (Reads-read_exact 1 tag one)
            (Reads-map (unpack_items (unpack (λ w. w) fuel) (size_items fields)) (structure tag)
              (pack_items pack fields).out fields
              (items-Reads pack (unpack (λ w. w) fuel) each fields plain ok_fields)))))
