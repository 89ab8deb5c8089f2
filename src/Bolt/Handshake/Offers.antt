-- ===== src/Bolt/Handshake/Offers.antt =====
-- A version is offered only if it is supported, and the driver has a class for it.
use neo4j_python_driver.Base.{
  some, ◌≤◌, ◌<◌, List, [], ◌∷◌, Bool, true, false, ◌&&◌, ◌||◌, some, leb, ◌==◌, length, ◌≡◌, refl,
  arith, Bool-cases, inl, inr,
}
use neo4j_python_driver.Bolt.Handshake.{
  Version, Range, continues, extend_last, range_of, offer, version_list, supported_versions,
}

abbrev pub same_version : Version → Version → Bool
same_version (a, b) (c, d) = (a == c) && (b == d)

abbrev pub is_listed : Version → List Version → Bool
is_listed v [] = false
is_listed v (w ∷ ws) = same_version v w || is_listed v ws

-- The server may choose any version of a range.
abbrev pub allows : Version → Range → Bool
allows (major, minor) r = (r.major == major) && leb r.lowest minor && leb minor r.highest

abbrev pub is_offered : Version → List Range → Bool
is_offered v [] = false
is_offered v (r ∷ rs) = allows v r || is_offered v rs

-- Ranges are not empty.
abbrev Proper : List Range → Type 0
Proper [] = Unit
Proper (r ∷ rs) = (r.lowest ≤ r.highest) × Proper rs

extend_last-Proper :
    (w : Version) (rs : List Range) → continues w rs ≡ true → Proper rs → Proper (extend_last w rs)
extend_last-Proper w [] h p = tt
extend_last-Proper (a, b) (r ∷ rs) h (p, ps) = (ground (arith, h), ps)

is_offered-extend_last :
    (v w : Version) (rs : List Range)
    → continues w rs ≡ true
    → Proper rs
    → is_offered v (extend_last w rs) ≡ (is_offered v rs || same_version v w)
is_offered-extend_last v w [] h p = absurd (ground (arith, h))
is_offered-extend_last (c, d) (a, b) (r ∷ rs) h (p, ps) = ground (arith, h)

is_offered-range_of :
    (v w : Version) (rs : List Range)
    → is_offered v (range_of w ∷ rs) ≡ (is_offered v rs || same_version v w)
is_offered-range_of (c, d) (a, b) rs = ground arith

module _ (v : Version) where
  -- What was offered stays so, and if there is room left all of the list is offered.
  offer_complete :
      (vs : List Version) (result : List Range)
      → Proper result
      → length (offer vs result) < 4
      → (is_offered v result || is_listed v vs) ≡ true
      → is_offered v (offer vs result) ≡ true
  unfolding offer
  offer_complete [] result p s h = ground (arith, h)
  offer_complete (w ∷ vs) result p s h = elim (Bool-cases (continues w result)) [
    | inl more ↦ rw more (
        offer_complete vs (extend_last w result) (extend_last-Proper w result more p) (rw more at s)
          (ground (arith, h, is_offered-extend_last v w result more p)))
    | inr new ↦ elim (Bool-cases (length (range_of w ∷ result) == 4)) [
      | inl full ↦ absurd (ground (arith, full, rw (new, full) at s))
      | inr room ↦
          rw (new, room)
            (offer_complete vs (range_of w ∷ result) (omega arith, p) (rw (new, room) at s)
              (ground (arith, h, is_offered-range_of v w result)))
    ]
  ]

-- The ranges that the driver offers are four, so that they fill the handshake.
ranges_fill : length (version_list supported_versions) ≡ 4
unfolding version_list offer
ranges_fill = refl
